-- ===== src/Vfs/Ramdisk/Valid.antt =====
-- kernel/vfs.c: what every operation of the ramdisk keeps.
use neuro_spark.Prelude.{
  ℕ, ◌≤◌, ◌<◌, ◌≡◌, refl, true, false, ◌&&◌, none, List, arith, take, length, find_index,
  find_index-none, update, update_keeps,
}
use neuro_spark.Prelude.Int.{pos, pos_part}
use neuro_spark.Vfs.{int_eq}
use neuro_spark.Vfs.Ramdisk.{
  Ramdisk, RamdiskFile, RamdiskHandle, max_files, max_handles, file_capacity, name_max, set_file,
  set_handle, touch, create_entry, ramdisk_find_entry, is_open,
}
use neuro_spark.Vfs.Ramdisk.Names.{take_all, find_entry-none}

-- A handle of a file in use.
pub record Opens (files : ℕ → RamdiskFile) (h : RamdiskHandle) : Type 0 where
  pub entry_at : h.entry_idx ≡ pos (pos_part h.entry_idx)
  pub entry_in : pos_part h.entry_idx < max_files
  pub file_used : (files (pos_part h.entry_idx)).used ≡ true

pub record IsValid (s : Ramdisk) : Type 0 where
  pub opened : (i : ℕ) → i < max_handles → (s.handles i).used ≡ true → Opens s.files (s.handles i)
  pub sizes : (e : ℕ) → e < max_files → (s.files e).size ≤ file_capacity
  pub unique :
      (d e : ℕ)
      → d < max_files
      → e < max_files
      → (s.files d).used ≡ true
      → (s.files e).used ≡ true
      → (s.files d).name ≡ (s.files e).name
      → d ≡ e

pub set_handle-IsValid :
    (i : ℕ) (h : RamdiskHandle) (s : Ramdisk)
    → IsValid s
    → (h.used ≡ true → Opens s.files h)
    → IsValid (set_handle i h s)
set_handle-IsValid i h s v o = record {
  opened = λ j l.
      update_keeps (λ (x : RamdiskHandle). x.used ≡ true → Opens s.files x) s.handles i h j o
        (v.opened j l);
  sizes = v.sizes;
  unique = v.unique;
}

-- Entries that stay in use keep their handles.
Opens-files :
    (f g : ℕ → RamdiskFile) (h : RamdiskHandle)
    → Opens f h
    → ((e : ℕ) → e ≡ pos_part h.entry_idx → (f e).used ≡ true → (g e).used ≡ true)
    → Opens g h
Opens-files f g h o keep = record {
  entry_at = o.entry_at;
  entry_in = o.entry_in;
  file_used = keep (pos_part h.entry_idx) refl o.file_used;
}

pub touch-IsValid :
    (k : ℕ) (f : RamdiskFile) (tick : ℕ) (s : Ramdisk)
    → IsValid s
    → f.used ≡ (s.files k).used
    → f.name ≡ (s.files k).name
    → f.size ≤ file_capacity
    → IsValid (record s { files = update s.files k f; mtime_tick = tick })
touch-IsValid k f tick s v a b c = record {
  opened = λ j l u. Opens-files s.files _ (s.handles j) (v.opened j l u) (λ e q p. ground arith);
  sizes = λ e l. ground (arith, v.sizes e l);
  unique = λ d e l m p q r. v.unique d e l m (ground arith) (ground arith) (ground arith);
}

-- A new file under a name that no file has.
pub create_entry-IsValid :
    (name : List ℕ) (k : ℕ) (s : Ramdisk)
    → IsValid s
    → length name ≤ name_max
    → ramdisk_find_entry name s ≡ none
    → IsValid (create_entry name k s)
unfolding create_entry
create_entry-IsValid name k s v short fresh =
    let t : take name_max name ≡ name = take_all name_max name short in
    record {
      opened =
          λ j l u. Opens-files s.files _ (s.handles j) (v.opened j l u) (λ e q p. ground arith);
      sizes = λ e l. ground (arith, v.sizes e l);
      unique = λ d e l m p q r. ground (
        arith,
        v.unique d e l m,
        find_entry-none name s fresh d l,
        find_entry-none name s fresh e m,
      );
    }

-- A file that no handle is open on goes.
pub delete_entry-IsValid :
    (k : ℕ) (f : RamdiskFile) (s : Ramdisk)
    → IsValid s
    → is_open k s ≡ false
    → f.used ≡ false
    → f.size ≤ file_capacity
    → IsValid (set_file k f s)
unfolding is_open
delete_entry-IsValid k f s v shut gone small =
    let test = λ (i : ℕ). (s.handles i).used && int_eq (s.handles i).entry_idx (pos k) in
    let all : find_index test max_handles 0 ≡ none = ground arith in
    record {
      opened = λ j l u.
          let no : test j ≡ false =
            find_index-none test max_handles 0 all j (omega arith) (omega arith) in
          Opens-files s.files _ (s.handles j) (v.opened j l u)
            (λ e q p. ground (arith, (v.opened j l u).entry_at));
      sizes = λ e l. ground (arith, v.sizes e l);
      unique = λ d e l m p q r. ground (arith, v.unique d e l m);
    }

pub rename-IsValid :
    (name : List ℕ) (k : ℕ) (s : Ramdisk)
    → IsValid s
    → k < max_files
    → (s.files k).used ≡ true
    → length name ≤ name_max
    → ((j : ℕ) → j < max_files → (s.files j).used ≡ true → (s.files j).name ≡ name → j ≡ k)
    → IsValid (touch k (record (s.files k) { name = take name_max name }) s)
rename-IsValid name k s v l u short own =
    let t : take name_max name ≡ name = take_all name_max name short in
    record {
      opened =
          λ j l' u'. Opens-files s.files _ (s.handles j) (v.opened j l' u') (λ e q p. ground arith);
      sizes = λ e l'. ground (arith, v.sizes e l');
      unique = λ d e a b p q r. ground (arith, v.unique d e a b, own d a, own e b);
    }

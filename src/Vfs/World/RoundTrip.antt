-- ===== src/Vfs/World/RoundTrip.antt =====
-- kernel/vfs.c: what vfs_write_file stores on the ramdisk, vfs_read_file reads.
use neuro_spark.Prelude.{
  ℕ, zero, suc, ◌+◌, ◌-◌, ◌≤◌, ◌<◌, ◌≡◌, refl, ap, ◌∙◌, subst, arith, true, false, ◌&&◌, not, ltb,
  leb, Bool-cases, Option-cases, inl, inr, some, List, ◌∷◌, update, update_self, find_index,
  find_index-some, find_index-none,
}
use native.Mathlib.Decide.{dec_lt}
use neuro_spark.Prelude.Int.{ℤ, pos, negsuc}
use neuro_spark.Vfs.{is_neg, vfs_o_rdonly}
use neuro_spark.Vfs.Descriptors.{
  VfsBackendOps, VfsMount, State, vfs_close, current_task_id, alloc_task_fd, alloc_global_fd,
  task_max_fds, max_global_fds, set_map,
}
use neuro_spark.Vfs.Mounts.{
  shifted, resolve_mount, best_mount, better_mount, vfs_open, vfs_write_file, vfs_read_file,
  rewriting, max_mounts,
}
use neuro_spark.Vfs.Ramdisk.{
  Ramdisk, max_files, max_handles, file_capacity, ramdisk_write, ramdisk_close,
  ramdisk_extract_name, smaller,
}
use neuro_spark.Vfs.Ramdisk.Valid.{IsValid}
use neuro_spark.Vfs.Ramdisk.Kept.{open-IsValid, write-IsValid, close-IsValid}
use neuro_spark.Vfs.Ramdisk.Content.{At, good, ramdisk_write_lem}
use neuro_spark.Vfs.Ramdisk.Opening.{Found, ramdisk_open-Found, ramdisk_open_again}
use neuro_spark.Vfs.World.{World, backend_at, ramdisk_ops}
use neuro_spark.Vfs.World.Files.{
  Open, Opens, open_state, with_ramdisk, vfs_open_at, vfs_open_inv, vfs_close_at,
}
use neuro_spark.Vfs.World.Loops.{Open-with, write_loop_done, write_loop-At, read_loop-At}

best_mount-congr :
    {W : Type 0} (path : List ℕ) (s s' : State W) (n : ℕ)
    → s'.mounts ≡ s.mounts
    → best_mount path s' n ≡ best_mount path s n
unfolding best_mount better_mount
best_mount-congr path s s' zero e = refl
best_mount-congr path s s' (suc n) e =
    let rest = best_mount-congr path s s' n e in rw (rest, e) refl

-- A path resolves by the mounts alone.
resolve_mount-congr :
    {W : Type 0} (path : List ℕ) (s s' : State W)
    → s'.mounts ≡ s.mounts
    → resolve_mount path s' ≡ resolve_mount path s
unfolding resolve_mount
resolve_mount-congr path s s' e =
    let best = best_mount-congr path s s' max_mounts e in
    elim (Option-cases (best_mount path s max_mounts)) [
      | inl b ↦ rw (best ∙ b, resolve_mount) (rw (b, resolve_mount) refl)
      | inr (k, b) ↦ rw (best ∙ b, resolve_mount) (rw (b, resolve_mount) (rw e refl))
    ]

set_map_self : (map : ℕ → ℕ → ℤ) (t i : ℕ) (v : ℤ) → set_map t i v map t i ≡ v
set_map_self map t i v = rw (update_self map t (update (map t) i v)) (update_self (map t) i v)

-- The file of a name holds these bytes, and nothing is open in its place.
record Stored (name : List ℕ) (e size : ℕ) (buf : ℕ → ℕ) (r : Ramdisk) : Type 0 where
  valid : IsValid r
  entry_in : e < max_files
  used_at : (r.files e).used ≡ true
  name_at : (r.files e).name ≡ name
  size_at : (r.files e).size ≡ size
  bytes_at : (k : ℕ) → k < size → (r.files e).bytes k ≡ buf k

module _ {E : Type 0} (others : ℕ → VfsBackendOps (World E)) where
  -- The state after a successful open.
  open_state-Open :
      (rel : List ℕ) (flags i g h : ℕ) (disk : Ramdisk) (s : State (World E))
      → Opens rel flags i g h disk s
      → Open i g h (open_state i g h flags disk s)
  unfolding alloc_global_fd alloc_task_fd current_task_id
  open_state-Open rel flags i g h disk s o =
      let slot =
        find_index-some (λ j. is_neg (s.task_fd_map (current_task_id s) j)) task_max_fds 0
          o.fd_free in
      let entry = find_index-some (λ j. not (s.fd_table j).used) max_global_fds 0 o.entry_free in
      record {
        fd_in = omega (arith, slot.1);
        entry_in = omega (arith, entry.1);
        fd_at = set_map_self s.task_fd_map (current_task_id s) i (pos g);
        used_at = ground arith;
        ops_at = ground arith;
        handle_at = ground arith;
        count_at = ground arith;
      }

  -- What a successful vfs_write_file leaves: the file, and a place in each table for the next open.
  record After (name : List ℕ) (size : ℕ) (buf : ℕ → ℕ) (mounts : ℕ → VfsMount)
      (s' : State (World E)) : Type 0 where
    entry : ℕ
    stored : Stored name entry size buf s'.world.ramdisk
    mounts_at : s'.mounts ≡ mounts
    fd_free : (i : ℕ) × (i < task_max_fds) × (is_neg (s'.task_fd_map (current_task_id s') i) ≡ true)
    entry_free : (g : ℕ) × (g < max_global_fds) × ((s'.fd_table g).used ≡ false)
    handle_free : (h : ℕ) × (h < max_handles) × ((s'.world.ramdisk.handles h).used ≡ false)

  ramdisk_close-At :
      (h e off flags : ℕ) (r : Ramdisk)
      → At r h e off flags
      → ((ramdisk_close (pos h) r).1.files ≡ r.files)
        × (((ramdisk_close (pos h) r).1.handles h).used ≡ false)
  unfolding ramdisk_close
  ramdisk_close-At h e off flags r a = rw (good a) (refl, ground arith)

  -- Closing the descriptor of a file that holds the bytes.
  close-After :
      (i g h e off flags size : ℕ) (name : List ℕ) (buf : ℕ → ℕ) (s : State (World E))
      → Open i g h s
      → At s.world.ramdisk h e off flags
      → Stored name e size buf s.world.ramdisk
      → After name size buf s.mounts (vfs_close (backend_at others) (pos i) s).1
  unfolding current_task_id
  close-After i g h e off flags size name buf s o a t =
      let c = ramdisk_close-At h e off flags s.world.ramdisk a in
      rw (vfs_close_at others i g h s o) (record {
        entry = e;
        stored = record {
          valid = close-IsValid (pos h) s.world.ramdisk t.valid;
          entry_in = t.entry_in;
          used_at = rw (c.0) t.used_at;
          name_at = rw (c.0) t.name_at;
          size_at = rw (c.0) t.size_at;
          bytes_at = λ k l. rw (c.0) (t.bytes_at k l);
        };
        mounts_at = refl;
        fd_free =
            (i, o.fd_in, ap is_neg (set_map_self s.task_fd_map (current_task_id s) i (negsuc 0)));
        entry_free = (g, o.entry_in, ground arith);
        handle_free = (h, a.handle_in, c.1);
      })

  -- The file after the only round of the loop.
  Written-Stored :
      (name : List ℕ) (h e size : ℕ) (buf : ℕ → ℕ) (r : Ramdisk)
      → IsValid r
      → Found name rewriting h e r
      → 0 < size
      → size ≤ file_capacity
      → let r' = (ramdisk_write (pos h) (some (shifted buf 0)) size r).1 in
        Stored name e size buf r' × ((off : ℕ) × At r' h e off rewriting)
  Written-Stored name h e size buf r v f z l =
      let t =
        (ramdisk_write_lem h e 0 rewriting size (shifted buf 0) r f.at refl (omega arith)).1 in
      let all : smaller size (file_capacity - 0) ≡ size = ground arith in
      let none_before : (r.files e).size ≡ 0 = f.empty refl in
      (
        record {
          valid = write-IsValid (pos h) (some (shifted buf 0)) size r v;
          entry_in = f.entry_in;
          used_at = t.kept.0 ∙ f.used_at;
          name_at = t.kept.1 ∙ f.name_at;
          size_at = t.size_at ∙ rw (none_before, all) (ground arith);
          bytes_at = λ k m.
              let k0 : 0 + (k - 0) ≡ k = omega arith in
              let test : (leb 0 k && ltb k (0 + smaller size (file_capacity - 0))) ≡ true =
                rw all (ground arith) in
              t.bytes_at k ∙ (rw (test, k0) refl);
        },
        (0 + smaller size (file_capacity - 0), t.at_end),
      )

  write_file_After :
      (c : ℕ) (path rel name : List ℕ) (i g h e size : ℕ) (buf : ℕ → ℕ) (disk : Ramdisk)
      (s : State (World E))
      → resolve_mount (c ∷ path) s ≡ some (some ramdisk_ops, rel)
      → Opens rel rewriting i g h disk s
      → IsValid disk
      → Found name rewriting h e disk
      → size ≤ file_capacity
      → After name size buf s.mounts (vfs_write_file (backend_at others) (c ∷ path) buf size s).1
  unfolding vfs_write_file
  write_file_After c path rel name i g h e size buf disk s q o v f l =
      let s1 = open_state i g h rewriting disk s in
      let w = open_state-Open rel rewriting i g h disk s o in
      let eq = vfs_open_at others c path rel rewriting i g h disk s q o in
      elim (dec_lt 0 size) [
        | yes z ↦
            let t = Written-Stored name h e size buf disk v f z l in
            let r' = (ramdisk_write (pos h) (some (shifted buf 0)) size disk).1 in
            let loop = write_loop-At others i g h e rewriting size buf s1 w f.at refl l z in
            rw eq (
              rw loop (
                close-After i g h e t.1.0 rewriting size name buf (with_ramdisk s1 r')
                  (Open-with i g h r' s1 w) t.1.1 t.0))
        | no z ↦
            let z0 : size ≡ 0 = omega arith in
            let stored : Stored name e 0 buf disk = record {
              valid = v;
              entry_in = f.entry_in;
              used_at = f.used_at;
              name_at = f.name_at;
              size_at = f.empty refl;
              bytes_at = λ k m. absurd (omega arith);
            } in
            let loop = write_loop_done others 0 (pos i) buf 0 0 s1 (omega arith) in
            rw z0 (rw eq (rw loop (close-After i g h e 0 rewriting 0 name buf s1 w f.at stored)))
      ]

  -- Reading the file into a buffer that is large enough.
  read_file_After :
      (c : ℕ) (path rel name : List ℕ) (size max_size : ℕ) (buf out : ℕ → ℕ) (mounts : ℕ → VfsMount)
      (s : State (World E))
      → resolve_mount (c ∷ path) s ≡ some (some ramdisk_ops, rel)
      → ramdisk_extract_name rel ≡ some name
      → After name size buf mounts s
      → size ≤ max_size
      → let r = vfs_read_file (backend_at others) (c ∷ path) out max_size s in
        (r.0 ≡ pos size) × ((k : ℕ) → k < size → r.1 k ≡ buf k)
  unfolding vfs_read_file alloc_task_fd alloc_global_fd
  read_file_After c path rel name size max_size buf out mounts s q x v l =
      let t = v.stored in
      let d =
        ramdisk_open_again rel name vfs_o_rdonly v.entry v.handle_free.0 s.world.ramdisk t.valid x
          refl t.entry_in t.used_at t.name_at v.handle_free.1 v.handle_free.2 in
      let h = d.0 in
      let disk = d.1 in
      let same : disk.files ≡ s.world.ramdisk.files = d.3 in
      let fds = λ (j : ℕ). is_neg (s.task_fd_map (current_task_id s) j) in
      let entries = λ (j : ℕ). not (s.fd_table j).used in
      elim (Option-cases (find_index fds task_max_fds 0)) [
        | inl n ↦
            let all = find_index-none fds task_max_fds 0 n v.fd_free.0 (omega arith) in
            absurd (ground (arith, all (omega (arith, v.fd_free.1)), v.fd_free.2))
        | inr (i, a) ↦ elim (Option-cases (find_index entries max_global_fds 0)) [
          | inl n ↦
              let all = find_index-none entries max_global_fds 0 n v.entry_free.0 (omega arith) in
              absurd (ground (arith, all (omega (arith, v.entry_free.1)), v.entry_free.2))
          | inr (g, b) ↦
              let o : Opens rel vfs_o_rdonly i g h disk s = record {
                opens = d.2;
                entry_free = b;
                fd_free = a;
              } in
              let w = open_state-Open rel vfs_o_rdonly i g h disk s o in
              let s1 = open_state i g h vfs_o_rdonly disk s in
              let eq = vfs_open_at others c path rel vfs_o_rdonly i g h disk s q o in
              let size_at : (disk.files v.entry).size ≡ size = rw same t.size_at in
              let r =
                read_loop-At others i g h v.entry vfs_o_rdonly size max_size out s1 w d.4 size_at
                  refl l in
              rw eq (
                r.0,
                λ k m.
                    let byte : (disk.files v.entry).bytes k ≡ buf k = rw same (t.bytes_at k m) in
                    r.1 k m ∙ byte,
              )
        ]
      ]

  -- A write that reported success has found room in all tables.
  write_file_opened :
      (c : ℕ) (path : List ℕ) (size : ℕ) (buf : ℕ → ℕ) (s : State (World E))
      → (vfs_write_file (backend_at others) (c ∷ path) buf size s).0 ≡ pos size
      → is_neg (vfs_open (backend_at others) (c ∷ path) rewriting s).0 ≡ false
  unfolding vfs_write_file
  write_file_opened c path size buf s e =
      elim (Bool-cases (is_neg (vfs_open (backend_at others) (c ∷ path) rewriting s).0)) [
        | inr n ↦ n
        | inl n ↦ absurd (ground arith)
      ]

  -- On a valid ramdisk, if vfs_write_file reports that it stored all `size` bytes of a buffer, at most
  -- 8192, under a path that a mount of the ramdisk takes, then vfs_read_file of that path into a
  -- buffer of at least `size` bytes answers `size` and reads these bytes.
  pub write_file_read_file :
      (c : ℕ) (path rel name : List ℕ) (size max_size : ℕ) (input out : ℕ → ℕ) (s : State (World E))
      → IsValid s.world.ramdisk
      → resolve_mount (c ∷ path) s ≡ some (some ramdisk_ops, rel)
      → ramdisk_extract_name rel ≡ some name
      → size ≤ file_capacity
      → size ≤ max_size
      → (vfs_write_file (backend_at others) (c ∷ path) input size s).0 ≡ pos size
      → let s' = (vfs_write_file (backend_at others) (c ∷ path) input size s).1 in
        let (n, b, s2) = vfs_read_file (backend_at others) (c ∷ path) out max_size s' in
        (n ≡ pos size) × ((k : ℕ) → k < size → b k ≡ input k)
  write_file_read_file c path rel name size max_size input out s v q x l m e =
      let t =
        vfs_open_inv others c path rel rewriting s q (write_file_opened c path size input s e) in
      let o = t.4 in
      let f = ramdisk_open-Found rel name rewriting t.2 s.world.ramdisk t.3 x o.opens in
      let valid : IsValid t.3 =
        subst IsValid (ap (λ z. z.1) o.opens) (open-IsValid rel rewriting s.world.ramdisk v) in
      let a = write_file_After c path rel name t.0 t.1 t.2 f.0 size input t.3 s q o valid f.1 l in
      let s' = (vfs_write_file (backend_at others) (c ∷ path) input size s).1 in
      read_file_After c path rel name size max_size input out s.mounts s'
        (resolve_mount-congr (c ∷ path) s s' a.mounts_at ∙ q) x a m

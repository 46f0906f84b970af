-- ===== src/Pmm/Slab.antt =====
-- kernel/pmm.c: the slab caches, four free lists that run through the free objects themselves. The
-- first word of an object at address `a` is `next a`; address 0 is the null pointer.
use neuro_spark.Prelude.{
  ℕ, zero, suc, ◌+◌, ◌-◌, ◌/◌, ◌≡◌, ◌≤◌, ◌<◌, find_index_first, refl, sym, subst, ◌≢◌, arith, Bool,
  true, false, Option, none, some, List, [], ◌∷◌, ltb, leb, ◌==◌, if◌then◌else◌, update,
  update_self, update_ne, find_index, inc32, ==_ne,
}
use neuro_spark.Pmm.{Pmm, page_size, pmm_alloc_page, pmm_free_page}

abbrev pub slab_cache_count : ℕ
slab_cache_count = 4

pub record SlabCache : Type 0 where
  pub obj_size : ℕ
  pub free_list : ℕ
  pub pages : ℕ
  pub allocs : ℕ
  pub frees : ℕ
  pub in_use : ℕ

pub record Slabs : Type 0 where
  pub caches : ℕ → SlabCache
  pub next : ℕ → ℕ
  pub pmm : Pmm

abbrev empty_cache : ℕ → SlabCache
empty_cache size = record {
  obj_size = size;
  free_list = 0;
  pages = 0;
  allocs = 0;
  frees = 0;
  in_use = 0;
}

abbrev pub slab_caches : ℕ → SlabCache
slab_caches i =
    if i == 0
    then empty_cache 32
    else if i == 1
    then empty_cache 64
    else if i == 2
    then empty_cache 128
    else empty_cache 256

unfoldable pub slab_pick_cache : ℕ → Slabs → Option ℕ
slab_pick_cache size s = find_index (λ i. leb size (s.caches i).obj_size) slab_cache_count 0

-- The free list gets a node in front.
abbrev pub push_node : ℕ → ℕ → Slabs → Slabs
push_node i node s = record s {
  next = update s.next node (s.caches i).free_list;
  caches = update s.caches i (record (s.caches i) { free_list = node });
}

-- The loop of `slab_grow_cache`, for `n` objects from address `at` on.
pub carve : ℕ → ℕ → ℕ → Slabs → Slabs
carve i zero at s = s
carve i (suc n) at s = carve i n (at + (s.caches i).obj_size) (push_node i at s)

-- The loop runs while `offset + obj_size <= PAGE_SIZE`. A node takes 4 bytes.
pub slab_grow_cache : ℕ → Slabs → Bool × Slabs
unfolding carve
slab_grow_cache i s =
    let (page, pmm) = pmm_alloc_page s.pmm in
    let s1 = record s { pmm = pmm } in
    let b = s.caches i in
    let s2 = record s1 { caches = update s.caches i (record b { pages = inc32 b.pages }) } in
    if ltb b.obj_size 4
    then (false, s)
    else if page == 0
    then (false, s1)
    else (true, carve i (page_size / b.obj_size) page s2)

-- The node that is first in the list goes to the caller.
pub pop_node : ℕ → Slabs → ℕ × Slabs
pop_node i s =
    let b = s.caches i in
    (
      b.free_list,
      record s {
        caches = update s.caches i (record b {
          free_list = s.next b.free_list;
          allocs = inc32 b.allocs;
          in_use = inc32 b.in_use;
        });
      },
    )

pub alloc_from : Slabs → Option ℕ → ℕ × Slabs
unfolding slab_grow_cache pop_node
alloc_from s none = let (page, pmm) = pmm_alloc_page s.pmm in (page, record s { pmm = pmm })
alloc_from s (some i) =
    let (grown, s') = slab_grow_cache i s in
    if (s.caches i).free_list == 0 then (if grown then pop_node i s' else (0, s')) else pop_node i s

pub slab_alloc : ℕ → Slabs → ℕ × Slabs
unfolding slab_pick_cache alloc_from
slab_alloc size s = alloc_from s (slab_pick_cache size s)

pub free_to : ℕ → Slabs → Option ℕ → Slabs
free_to ptr s none = record s { pmm = pmm_free_page ptr s.pmm }
free_to ptr s (some i) =
    let s' = push_node i ptr s in
    let b = s'.caches i in
    record s' {
      caches = update s'.caches i (record b {
        frees = inc32 b.frees;
        in_use = if ltb 0 b.in_use then b.in_use - 1 else b.in_use;
      });
    }

pub slab_free : ℕ → ℕ → Slabs → Bool × Slabs
unfolding slab_pick_cache free_to
slab_free ptr size s =
    if ptr == 0 then (false, s) else (true, free_to ptr s (slab_pick_cache size s))

-- The nodes `l` hang together from `head` on, and the last points to nothing.
abbrev pub Chain : (ℕ → ℕ) → ℕ → List ℕ → Type 0
Chain next head [] = head ≡ 0
Chain next head (a ∷ l) = (head ≡ a) × (a ≢ 0) × Chain next (next a) l

abbrev pub Avoids : ℕ → List ℕ → Type 0
Avoids a [] = Unit
Avoids a (b ∷ l) = (a ≢ b) × Avoids a l

Chain-update :
    (next : ℕ → ℕ) (a v head : ℕ) (l : List ℕ)
    → Avoids a l
    → Chain next head l
    → Chain (update next a v) head l
Chain-update next a v head [] n c = c
Chain-update next a v head (b ∷ l) n c =
    (c.0, c.1, rw (update_ne next a b v n.0) (Chain-update next a v (next b) l n.1 c.2))

abbrev pub IsFreeList : Slabs → ℕ → List ℕ → Type 0
IsFreeList s i l = Chain s.next (s.caches i).free_list l

free_to-lem :
    (s : Slabs) (ptr i : ℕ) (l : List ℕ)
    → ptr ≢ 0
    → Avoids ptr l
    → IsFreeList s i l
    → let s' = free_to ptr s (some i) in
      IsFreeList s' i (ptr ∷ l)
      × ((j : ℕ) (m : List ℕ) → i ≢ j → Avoids ptr m → IsFreeList s j m → IsFreeList s' j m)
unfolding free_to
free_to-lem s ptr i l nz n c =
    let fl = (s.caches i).free_list in
    (
      (ground arith, nz, rw (update_self s.next ptr fl) (Chain-update s.next ptr fl fl l n c)),
      λ j m ne avoids d.
          let e : ((free_to ptr s (some i)).caches j).free_list ≡ (s.caches j).free_list =
            ground arith in
          rw e (Chain-update s.next ptr fl (s.caches j).free_list m avoids d),
    )

pop_node-lem :
    (s : Slabs) (i a : ℕ) (l : List ℕ)
    → IsFreeList s i (a ∷ l)
    → let (ptr, s') = pop_node i s in
      (ptr ≡ a)
      × IsFreeList s' i l
      × (s'.pmm ≡ s.pmm)
      × ((j : ℕ) (m : List ℕ) → i ≢ j → IsFreeList s j m → IsFreeList s' j m)
unfolding pop_node
pop_node-lem s i a l c =
    let e : ((pop_node i s).1.caches i).free_list ≡ s.next a = ground (arith, c.0) in
    (
      c.0,
      rw e c.2,
      refl,
      λ j m ne d.
          let f : ((pop_node i s).1.caches j).free_list ≡ (s.caches j).free_list = ground arith in
          rw f d,
    )

slab_free-eq :
    (s : Slabs) (ptr size i : ℕ)
    → ptr ≢ 0
    → slab_pick_cache size s ≡ some i
    → slab_free ptr size s ≡ (true, free_to ptr s (some i))
unfolding slab_free
slab_free-eq s ptr size i nz pick = rw (pick, ==_ne ptr 0 nz) refl

-- The cache of the first size that is large enough.
pub record Serves (s : Slabs) (size i : ℕ) : Type 0 where
  pub is_cache : i < slab_cache_count
  pub large : size ≤ (s.caches i).obj_size
  pub first : (j : ℕ) → j < i → (s.caches j).obj_size < size

Serves-slab_pick_cache :
    (s : Slabs) (size i : ℕ) → Serves s size i → slab_pick_cache size s ≡ some i
unfolding slab_pick_cache
Serves-slab_pick_cache s size i v =
    let large = v.large in
    find_index_first (λ k. leb size (s.caches k).obj_size) slab_cache_count i v.is_cache
      (ground arith) (λ j l. ground (arith, v.first j l))

-- An object that is freed and is in no free list already is put in front of the list of the first
-- size that is large enough; the lists of the other sizes stay.
pub slab_free_lem :
    (s : Slabs) (ptr size i : ℕ) (l : List ℕ)
    → ptr ≢ 0
    → Serves s size i
    → Avoids ptr l
    → IsFreeList s i l
    → let (done, s') = slab_free ptr size s in
      (done ≡ true)
      × IsFreeList s' i (ptr ∷ l)
      × ((j : ℕ) (m : List ℕ) → i ≢ j → Avoids ptr m → IsFreeList s j m → IsFreeList s' j m)
slab_free_lem s ptr size i l nz serves n c =
    let w = free_to-lem s ptr i l nz n c in
    subst
      (λ r.
        (r.0 ≡ true)
        × IsFreeList r.1 i (ptr ∷ l)
        × ((j : ℕ) (m : List ℕ) → i ≢ j → Avoids ptr m → IsFreeList s j m → IsFreeList r.1 j m))
      (sym (slab_free-eq s ptr size i nz (Serves-slab_pick_cache s size i serves))) (refl, w.0, w.1)

-- A request that a non-empty free list serves gets the first object of the list, which is left
-- with the rest; the lists of the other sizes stay, and no page is taken.
pub slab_alloc_lem :
    (s : Slabs) (size i a : ℕ) (l : List ℕ)
    → slab_pick_cache size s ≡ some i
    → IsFreeList s i (a ∷ l)
    → let (ptr, s') = slab_alloc size s in
      (ptr ≡ a)
      × IsFreeList s' i l
      × (s'.pmm ≡ s.pmm)
      × ((j : ℕ) (m : List ℕ) → i ≢ j → IsFreeList s j m → IsFreeList s' j m)
unfolding slab_alloc alloc_from
slab_alloc_lem s size i a l pick c =
    let nz : ((s.caches i).free_list == 0) ≡ false = rw c.0 (==_ne a 0 c.1) in
    rw (pick, nz) (pop_node-lem s i a l c)

-- ===== src/Pmm/Tests.antt =====
-- kernel/pmm.c: memory after boot, with the kernel's end in the third page.
use neuro_spark.Prelude.{
  ℕ, find_index, ◌≡◌, refl, arith, true, some, ltb, List, [], ◌∷◌, ◌≢◌, ◌==◌, if◌then◌else◌,
}
use neuro_spark.Pmm.{
  Pmm, init_pmm, take_page, pmm_is_page_used, pmm_alloc_page, pmm_set_page, pmm_get_stats,
}
use neuro_spark.Pmm.Stats.{Describes, pmm_get_stats_lem}
use neuro_spark.Pmm.Alloc.{AllocatedFrom, pmm_alloc_page_lem}
use neuro_spark.Pmm.Slab.{
  Slabs, slab_caches, slab_pick_cache, slab_alloc, slab_free, IsFreeList, Avoids, Serves,
  slab_free_lem, slab_alloc_lem,
}

abbrev garbage : Pmm
garbage = record { bitmap = λ _. 0xa5; alloc_calls = 0; free_calls = 0 }

abbrev booted : Pmm
booted = init_pmm 9000 garbage

pmm_alloc_page_lem_example : AllocatedFrom booted (pmm_alloc_page booted)
pmm_alloc_page_lem_example = pmm_alloc_page_lem booted

-- Of the bytes 33 and 34 the first is full and the second has its lowest bit set; all before are
-- full.
abbrev above : Pmm
above = record {
  bitmap = λ i. if ltb i 32 then 255 else if i == 32 then 1 else 0;
  alloc_calls = 0;
  free_calls = 0;
}

run_first : (pmm_alloc_page above).0 ≡ 0x10_1000
unfolding pmm_alloc_page take_page find_index pmm_is_page_used
run_first = refl

run_second : (pmm_alloc_page (pmm_alloc_page above).1).0 ≡ 0x10_2000
unfolding pmm_alloc_page take_page find_index pmm_is_page_used pmm_set_page
run_second = refl

abbrev slabs : Slabs
slabs = record { caches = slab_caches; next = λ _. 0; pmm = above }

-- 50 bytes are served by the objects of 64.
run_pick : slab_pick_cache 50 slabs ≡ some 1
unfolding slab_pick_cache find_index
run_pick = refl

abbrev object : ℕ
object = 0x20_0040

object-ne : object ≢ 0
object-ne = omega arith

served : Serves slabs 50 1
served = record { is_cache = omega arith; large = omega arith; first = λ j l. ground arith }

slab_free_lem_example :
    let (done, s') = slab_free object 50 slabs in
    (done ≡ true)
    × IsFreeList s' 1 (object ∷ [])
    × ((j : ℕ) (m : List ℕ) → 1 ≢ j → Avoids object m → IsFreeList slabs j m → IsFreeList s' j m)
slab_free_lem_example = slab_free_lem slabs object 50 1 [] object-ne served tt refl

-- With that object in its list.
abbrev one_free : Slabs
one_free = record slabs {
  caches = λ i. record (slab_caches i) { free_list = if i == 1 then object else 0 };
}

run_pick_one_free : slab_pick_cache 50 one_free ≡ some 1
unfolding slab_pick_cache find_index
run_pick_one_free = refl

slab_alloc_lem_example :
    let (ptr, s') = slab_alloc 50 one_free in
    (ptr ≡ object)
    × IsFreeList s' 1 []
    × (s'.pmm ≡ above)
    × ((j : ℕ) (m : List ℕ) → 1 ≢ j → IsFreeList one_free j m → IsFreeList s' j m)
slab_alloc_lem_example =
    slab_alloc_lem one_free 50 1 object [] run_pick_one_free (refl, object-ne, refl)

pmm_get_stats_lem_example : Describes above (pmm_get_stats above)
pmm_get_stats_lem_example = pmm_get_stats_lem above

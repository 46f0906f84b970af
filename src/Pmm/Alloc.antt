-- ===== src/Pmm/Alloc.antt =====
-- kernel/pmm.c: which page is handed out.
use neuro_spark.Prelude.{
  ℕ, ◌*◌, ◌/◌, ◌<◌, ◌≡◌, refl, ◌∙◌, arith, true, false, ◌||◌, not, ◌==◌, ◌⊎◌, find_index,
  find_index-some, find_index-none, Option-cases, inl, inr, inc32,
}
use neuro_spark.Pmm.{Pmm, take_page, pmm_alloc_page, pmm_is_page_used}
use neuro_spark.Pmm.Pages.{used, used-set}

-- Only the counter of calls differs.
counted : Pmm → Pmm
counted s = record s { alloc_calls = inc32 s.alloc_calls }

used-counted : (s : Pmm) (q : ℕ) → used (counted s) q ≡ used s q
unfolding counted pmm_is_page_used
used-counted s q = refl

-- What an allocation may answer: the address of the lowest page that is not in use, which is then
-- in use besides those that were; or 0, if all 8192 are in use, and then nothing changes.
pub AllocatedFrom : Pmm → ℕ × Pmm → Type 0
AllocatedFrom s (a, s') =
    ((p : ℕ) × (a ≡ p * 4096)
      × (p < 8192)
      × (used s p ≡ false)
      × ((q : ℕ) → q < p → used s q ≡ true)
      × ((q : ℕ) → used s' q ≡ (p == q || used s q)))
    ⊎ ((a ≡ 0) × ((q : ℕ) → q < 8192 → used s q ≡ true) × ((q : ℕ) → used s' q ≡ used s q))

-- `pmm_alloc_page` takes the lowest free page and no other, and answers its address, which for page
-- 0 is the null pointer; it takes none only if all 8192 are in use, and then answers null.
pub pmm_alloc_page_lem : (s : Pmm) → AllocatedFrom s (pmm_alloc_page s)
unfolding pmm_alloc_page take_page AllocatedFrom counted
pmm_alloc_page_lem s = elim (Option-cases (find_index (λ i. not (used (counted s) i)) 8192 0)) [
  | inl e ↦ rw e (
      inr (
        refl,
        λ q h.
            let f =
              find_index-none (λ i. not (used (counted s) i)) 8192 0 e q (omega arith)
                (omega arith) in
            ground (arith, used-counted s q),
        λ q. used-counted s q,
      ))
  | inr (p, e) ↦
      let f = find_index-some (λ i. not (used (counted s) i)) 8192 0 e in
      let k : p * 4096 / 4096 ≡ p = omega arith in
      rw e (
        inl (
          p,
          refl,
          omega arith,
          ground (arith, used-counted s p),
          λ q h. let g = f.3 q (omega arith) h in ground (arith, used-counted s q),
          λ q. used-set (counted s) (p * 4096) q ∙ rw k (ground (arith, used-counted s q)),
        ))
]

-- ===== src/Pmm/Pages.antt =====
-- kernel/pmm.c: the bitmap as a set of pages.
use neuro_spark.Prelude.{
  Bool-cases, inl, inr, ℕ, zero, suc, ◌+◌, ◌-◌, ◌*◌, ◌/◌, ◌%◌, ◌^◌, ◌<◌, ◌≡◌, refl, ap, ◌∙◌, arith,
  Bool, true, false, ◌&&◌, ◌||◌, not, ltb, ◌==◌, if◌then◌else◌, inc32,
}
use neuro_spark.Pmm.{
  Pmm, set_bit, clear_bit, pmm_set_page, pmm_free_page, pmm_is_page_used, reserve, init_pmm,
}
use neuro_spark.Pmm.Bits.{
  bit, bit-le, bit-bit_and, bit-bit_or, bit-pow, bit-mask, bit_and-pow, bit-zero,
}

-- Page `p` is in use.
abbrev pub used : Pmm → ℕ → Bool
used s p = pmm_is_page_used (p * 4096) s

used-bit : (s : Pmm) (p : ℕ) → used s p ≡ not (bit (s.bitmap (p / 8)) (p % 8) == 0)
unfolding pmm_is_page_used
used-bit s p =
    let e : p * 4096 / 4096 ≡ p = omega arith in
    rw e (ap not (bit_and-pow (s.bitmap (p / 8)) (p % 8)))

-- Marking a page as used adds it to the set.
pub used-set : (s : Pmm) (a q : ℕ) → used (pmm_set_page a s) q ≡ (a / 4096 == q || used s q)
unfolding pmm_set_page
used-set s a q =
    let p = a / 4096 in
    rw (used-bit s q, used-bit (record s { bitmap = set_bit s.bitmap p }) q)
      (ground (
        arith,
        bit-bit_or (s.bitmap (p / 8)) (2 ^ (p % 8)) (q % 8),
        bit-pow (p % 8) (q % 8),
        bit-le (s.bitmap (p / 8)) (q % 8),
      ))

-- Freeing takes a page out of it, above the first MB; below, it changes nothing.
pub used-free :
    (s : Pmm) (a q : ℕ)
    → used (pmm_free_page a s) q ≡ (used s q && not (not (ltb a 0x100000) && a / 4096 == q))
unfolding pmm_free_page
used-free s a q = elim (Bool-cases (ltb a 0x100000)) [
  | inl low ↦ rw low (ground arith)
  | inr high ↦
      let p = a / 4096 in
      rw
        (
          high,
          used-bit s q,
          used-bit (record s { bitmap = clear_bit s.bitmap p; free_calls = inc32 s.free_calls }) q,
        )
        (ground (
          arith,
          bit-bit_and (s.bitmap (p / 8)) (255 - 2 ^ (p % 8)) (q % 8),
          bit-mask (p % 8) (q % 8),
          bit-le (s.bitmap (p / 8)) (q % 8),
        ))
]

used-reserve :
    (n i : ℕ) (s : Pmm) (q : ℕ)
    → used (reserve n i s) q ≡ (not (ltb q i) && ltb q (i + n) || used s q)
unfolding reserve
used-reserve zero i s q = ground arith
used-reserve (suc n) i s q =
    let e : i * 4096 / 4096 ≡ i = omega arith in
    let r = used-reserve n (i + 1) (pmm_set_page (i * 4096) s) q in
    let t = used-set s (i * 4096) q in ground (arith, e, r, t)

-- After `init_pmm` the pages in use are those that the kernel reaches into, from page 0 up to its
-- end, and no other page of the bitmap.
init_pmm_lem :
    (kernel_end : ℕ) (s : Pmm) (q : ℕ)
    → q < 8192
    → used (init_pmm kernel_end s) q ≡ ltb (q * 4096) kernel_end
unfolding init_pmm
init_pmm_lem kernel_end s q h =
    let s0 = record s { bitmap = λ i. if ltb i 1024 then 0 else s.bitmap i } in
    let n = (kernel_end + 4095) / 4096 in
    let in_array : ltb (q / 8) 1024 ≡ true = ground arith in
    let none_used : used s0 q ≡ false = used-bit s0 q ∙ rw in_array (rw (bit-zero (q % 8)) refl) in
    ground (arith, used-reserve n 0 s0 q, none_used)

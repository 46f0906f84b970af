-- ===== src/Pmm/Stats.antt =====
-- kernel/pmm.c: the two scans that count pages agree, and the fragmentation is a permille.
use native.Mathlib.Decide.{ℕ_discrete, dec_lt}
use neuro_spark.Pmm.Pages.{used}
use native.Mathlib.Nat.{div-le_of_le-mul}
use neuro_spark.Prelude.{
  ℕ, zero, suc, ◌+◌, ◌-◌, ◌*◌, ◌/◌, ◌≤◌, ◌<◌, ◌≡◌, refl, ◌∙◌, arith, true, false, Bool-cases, inl,
  inr, ◌⊎◌, subst, sub32, ltb, ◌==◌, if◌then◌else◌,
}
use neuro_spark.Pmm.{
  Pmm, Runs, no_runs, stats_of, free_step, used_step, scan_runs, count_free, pmm_get_free_pages,
  pmm_get_stats, PmmStats,
}

-- The `n` pages from `a` on are free.
pub AllFree : Pmm → ℕ → ℕ → Type 0
AllFree s a n = (q : ℕ) → a ≤ q → q < a + n → used s q ≡ false

-- What the scan knows at page `i`, with `f` free pages among those from 256 on.
record ScannedTo (s : Pmm) (i f : ℕ) (r : Runs) : Type 0 where
  all : r.used_pages + f + 256 ≡ i
  -- The run that ends here, which no run that ends here exceeds.
  cur_in : r.cur_run + 256 ≤ i
  cur_free : AllFree s (i - r.cur_run) r.cur_run
  cur_longest : (n : ℕ) → n + 256 ≤ i → AllFree s (i - n) n → n ≤ r.cur_run
  cur_largest : r.cur_run ≤ r.largest_run
  -- A run of the largest length, which no run exceeds.
  largest_in : r.largest_run ≤ f
  some_run : r.largest_run ≡ 0 → f ≡ 0
  largest_free : (a : ℕ) × (256 ≤ a) × (a + r.largest_run ≤ i) × AllFree s a r.largest_run
  largest_longest : (a n : ℕ) → 256 ≤ a → a + n ≤ i → AllFree s a n → n ≤ r.largest_run

used_step-ScannedTo :
    (s : Pmm) (i f : ℕ) (r : Runs)
    → used s i ≡ true
    → ScannedTo s i f r
    → ScannedTo s (i + 1) f (used_step r)
unfolding AllFree
used_step-ScannedTo s i f r e v =
    let a = v.all in
    let c = v.cur_in in
    let (b, b_in, b_end, b_free) = v.largest_free in
    record {
      all = omega arith;
      cur_in = omega arith;
      cur_free = λ q x y. absurd (omega arith);
      cur_longest = λ n x h. elim (ℕ_discrete n 0) [
        | yes z ↦ omega (arith, z)
        | no z ↦ absurd (let g = h i (omega (arith, z)) (omega (arith, z)) in cc)
      ];
      cur_largest = omega arith;
      largest_in = v.largest_in;
      some_run = v.some_run;
      largest_free = (b, b_in, omega arith, b_free);
      largest_longest = λ b' n x y h. elim (dec_lt i (b' + n)) [
        | no z ↦ v.largest_longest b' n x (omega arith) h
        | yes z ↦ elim (ℕ_discrete n 0) [
          | yes w ↦ omega (arith, w)
          | no w ↦ absurd (let g = h i (omega (arith, w)) z in cc)
        ]
      ];
    }

free_step-ScannedTo :
    (s : Pmm) (i f : ℕ) (r : Runs)
    → used s i ≡ false
    → ScannedTo s i f r
    → ScannedTo s (i + 1) (f + 1) (free_step r)
unfolding AllFree
free_step-ScannedTo s i f r e v =
    let a = v.all in
    let c = v.cur_in in
    let l = v.largest_in in
    let cl = v.cur_largest in
    let cur_all : AllFree s (i - r.cur_run) (r.cur_run + 1) =
      λ q x y. elim (ℕ_discrete q i) [ yes z ↦ rw z e | no z ↦ v.cur_free q x (omega arith) ] in
    let longest_here : (n : ℕ) → n + 256 ≤ i + 1 → AllFree s (i + 1 - n) n → n ≤ r.cur_run + 1 =
      λ n x h.
        let m = v.cur_longest (n - 1) (omega arith) (λ q y z. h q (omega arith) (omega arith)) in
        omega (arith, m) in
    let (b, b_in, b_end, b_free) = v.largest_free in
    record {
      all = omega arith;
      cur_in = omega arith;
      cur_free = λ q x y. cur_all q (omega arith) (omega arith);
      cur_longest = longest_here;
      cur_largest = ground arith;
      largest_in = ground arith;
      some_run = λ z. ground arith;
      largest_free = elim (Bool-cases (ltb r.largest_run (r.cur_run + 1))) [
        | inl z ↦ rw z (i - r.cur_run, omega arith, omega arith, cur_all)
        | inr z ↦ rw z (b, b_in, omega arith, b_free)
      ];
      largest_longest = λ b' n x y h.
          let short : n ≤ r.cur_run + 1 ⊎ n ≤ r.largest_run = elim (dec_lt i (b' + n)) [
            | yes z ↦ inl (longest_here n (omega arith) (λ q u w. h q (omega arith) (omega arith)))
            | no z ↦ inr (v.largest_longest b' n x (omega arith) h)
          ] in
          ground (arith, short);
    }

scan_runs-ScannedTo :
    (n i f : ℕ) (r : Runs) (s : Pmm)
    → ScannedTo s i f r
    → ScannedTo s (i + n) (count_free n i f s) (scan_runs n i r s)
unfolding scan_runs count_free
scan_runs-ScannedTo zero i f r s v =
    let z : i ≡ i + 0 = omega arith in subst (λ k. ScannedTo s k f r) z v
scan_runs-ScannedTo (suc n) i f r s v =
    let z : i + 1 + n ≡ i + suc n = omega arith in
    elim (Bool-cases (used s i)) [
      | inl e ↦ rw e (
          subst
            (λ k. ScannedTo s k (count_free n (i + 1) f s) (scan_runs n (i + 1) (used_step r) s)) z
            (scan_runs-ScannedTo n (i + 1) f (used_step r) s (used_step-ScannedTo s i f r e v)))
      | inr e ↦ rw e (
          subst
            (λ k.
              ScannedTo s k (count_free n (i + 1) (f + 1) s) (scan_runs n (i + 1) (free_step r) s))
            z
            (scan_runs-ScannedTo n (i + 1) (f + 1) (free_step r) s
              (free_step-ScannedTo s i f r e v)))
    ]

-- A part of `f`, in permille.
permille-le : (x f : ℕ) → 1 ≤ f → x ≤ f → x * 1000 / f ≤ 1000
permille-le x f a b = div-le_of_le-mul f (omega arith)

-- What the statistics say of the memory above the first MB.
pub record Describes (s : Pmm) (g : PmmStats) : Type 0 where
  pub free_counted : g.free_pages ≡ pmm_get_free_pages s
  pub all : g.used_pages + g.free_pages ≡ 7936
  -- There is a run of the largest length, and none is longer.
  pub run : (a : ℕ) × (256 ≤ a) × (a + g.largest_free_run ≤ 8192) × AllFree s a g.largest_free_run
  pub longest : (a n : ℕ) → 256 ≤ a → a + n ≤ 8192 → AllFree s a n → n ≤ g.largest_free_run
  pub fragmentation :
      g.fragmentation_permille
      ≡ (if g.free_pages == 0 then 0 else 1000 - g.largest_free_run * 1000 / g.free_pages)
  pub permille : g.largest_free_run * 1000 ≤ g.free_pages * 1000

stats_of-Describes :
    (s : Pmm) (f : ℕ) (r : Runs)
    → f ≡ pmm_get_free_pages s
    → ScannedTo s 8192 f r
    → Describes s (stats_of r s)
unfolding stats_of
stats_of-Describes s f r c v =
    let a = v.all in
    let e : sub32 7936 r.used_pages ≡ f = omega arith in
    let l = v.largest_in in
    let z = v.some_run in
    record {
      free_counted = e ∙ c;
      all = omega (arith, e);
      run = v.largest_free;
      longest = v.largest_longest;
      fragmentation = rw e (ground (arith, permille-le r.largest_run f, z));
      permille = omega (arith, e, l);
    }

-- The statistics count the free pages as `pmm_get_free_pages` does, and used and free pages are all
-- of the 7936 above the first MB. Among these the largest run is the length of a run of free pages,
-- and no run is longer; the fragmentation is what is missing of 1000 in the share, in permille, of
-- the largest run in the free pages, and 0 if there are none.
pub pmm_get_stats_lem : (s : Pmm) → Describes s (pmm_get_stats s)
unfolding pmm_get_stats pmm_get_free_pages AllFree
pmm_get_stats_lem s =
    let start : ScannedTo s 256 0 no_runs = record {
      all = omega arith;
      cur_in = omega arith;
      cur_free = λ q x y. absurd (omega arith);
      cur_longest = λ n x h. omega arith;
      cur_largest = omega arith;
      largest_in = omega arith;
      some_run = λ z. refl;
      largest_free = (256, omega arith, omega arith, λ q x y. absurd (omega arith));
      largest_longest = λ b n x y h. omega arith;
    } in
    let f = count_free 7936 256 0 s in
    let r = scan_runs 7936 256 no_runs s in
    let z : 256 + 7936 ≡ 8192 = omega arith in
    stats_of-Describes s f r refl
      (subst (λ k. ScannedTo s k f r) z (scan_runs-ScannedTo 7936 256 0 no_runs s start))

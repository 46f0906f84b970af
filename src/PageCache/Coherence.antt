-- ===== src/PageCache/Coherence.antt =====
-- What the cache shows of a sector, and that its line operations keep it (page_cache.c).
use mathlib.Core.Path.{◌≡◌}
use native.Mathlib.Decide.{ℕ_discrete}
use neuro_spark.Prelude.{
  ℕ, ◌<◌, sym, ◌∙◌, ◌≢◌, ◌⊎◌, inl, inr, true, false, Option, none, some, find_index,
  find_index-some, find_index-none, arith, Option-cases,
}
use neuro_spark.PageCache.Device.{BlockDevice, IsReliable}
use neuro_spark.PageCache.{cache_lines, PageCache, caches, find_line, flush_line}

module _ (dev : BlockDevice) where
  open dev use {Sector, read_sector, write_sector}

  -- Line `i` holds sector `l`.
  abbrev pub Holds : PageCache dev → ℕ → ℕ → Type 0
  Holds c i l = (i < cache_lines) × ((c.lines i).valid ≡ true) × ((c.lines i).lba ≡ l)

  -- No sector stands in two lines, and a line that is not dirty agrees with the drive.
  pub record IsCoherent (c : PageCache dev) : Type 0 where
    pub hand_in : c.clock_hand < cache_lines
    pub unique : (i j l : ℕ) → Holds c i l → Holds c j l → i ≡ j
    pub clean :
        (i l : ℕ)
        → Holds c i l
        → (c.lines i).dirty ≡ false
        → read_sector c.disk l ≡ some (c.lines i).words

  unfoldable pub contents_at : PageCache dev → ℕ → Option ℕ → Option Sector
  contents_at c l (some i) = some (c.lines i).words
  contents_at c l none = read_sector c.disk l

  -- The sector as a client sees it: the line that holds it, or else the drive.
  unfoldable pub contents : PageCache dev → ℕ → Option Sector
  unfolding contents_at
  contents c l = contents_at c l (find_line dev c l)

  abbrev pub Misses : PageCache dev → ℕ → Type 0
  Misses c l = (j : ℕ) → Holds c j l → ⊥

  pub find_line-cases :
      (c : PageCache dev) (l : ℕ)
      → ((i : ℕ) × (find_line dev c l ≡ some i) × Holds c i l)
        ⊎ ((find_line dev c l ≡ none) × Misses c l)
  unfolding find_line
  find_line-cases c l = elim (Option-cases (find_index (caches dev c l) cache_lines 0)) [
    | inl e ↦ inr (
      e,
      λ j h.
          let q = find_index-none (caches dev c l) cache_lines 0 e j (omega arith) (omega arith) in
          ground arith,
    )
    | inr (i, e) ↦
        let q = find_index-some (caches dev c l) cache_lines 0 e in
        let t : caches dev c l i ≡ true = q.2 in
        inl (i, e, (omega arith, ground arith, ground arith))
  ]

  pub contents-hit :
      (c : PageCache dev) (i l : ℕ)
      → IsCoherent c
      → Holds c i l
      → contents c l ≡ some (c.lines i).words
  unfolding contents
  contents-hit c i l v h = elim (find_line-cases c l) [
    | inl (j, e, g) ↦ let q : j ≡ i = v.unique j i l g h in rw (e, q)
    | inr (e, m) ↦ absurd (m i h)
  ]

  pub contents-miss : (c : PageCache dev) (l : ℕ) → Misses c l → contents c l ≡ read_sector c.disk l
  unfolding contents
  contents-miss c l m = elim (find_line-cases c l) [
    | inl (j, e, g) ↦ absurd (m j g)
    | inr (e, _) ↦ rw e
  ]

  -- To compare two states it is enough to compare hits and misses.
  pub contents-cases :
      (c : PageCache dev) (l : ℕ)
      → ((i : ℕ) × Holds c i l × (contents c l ≡ some (c.lines i).words))
        ⊎ (Misses c l × (contents c l ≡ read_sector c.disk l))
  unfolding contents
  contents-cases c l = elim (find_line-cases c l) [
    | inl (j, e, g) ↦ inl (j, g, rw e)
    | inr (e, m) ↦ inr (m, rw e)
  ]

  module _ (rel : IsReliable dev) where
    pub flush_line-Holds :
        (c : PageCache dev) (idx i l : ℕ) → Holds (flush_line dev c idx) i l → Holds c i l
    unfolding flush_line
    flush_line-Holds c idx i l h = ground arith

    Holds-flush_line :
        (c : PageCache dev) (idx i l : ℕ) → Holds c i l → Holds (flush_line dev c idx) i l
    unfolding flush_line
    Holds-flush_line c idx i l h = ground arith

    pub words-flush_line :
        (c : PageCache dev) (idx i : ℕ) → ((flush_line dev c idx).lines i).words ≡ (c.lines i).words
    unfolding flush_line
    words-flush_line c idx i = ground arith

    -- What the drive holds of a sector that line `idx` does not hold is not touched.
    read-flush_line :
        (c : PageCache dev) (idx l : ℕ)
        → ((h : Holds c idx l) → ⊥)
        → read_sector (flush_line dev c idx).disk l ≡ read_sector c.disk l
    unfolding flush_line
    read-flush_line c idx l ne = ground (
      arith,
      rel.keeps_others c.disk (c.lines idx).lba l (c.lines idx).words,
      λ (a : idx < cache_lines) (b : (c.lines idx).valid ≡ true) (e : (c.lines idx).lba ≡ l).
          ne (a, b, e),
    )

    -- After the flush of line `idx` the drive agrees with it.
    pub read-flush_line_self :
        (c : PageCache dev) (idx l : ℕ)
        → IsCoherent c
        → Holds c idx l
        → read_sector (flush_line dev c idx).disk l ≡ some (c.lines idx).words
    unfolding flush_line
    read-flush_line_self c idx l v h =
        ground (arith, rel.reads_back c.disk l (c.lines idx).words, v.clean idx l h)

    dirty-flush_line_ne :
        (c : PageCache dev) (idx i : ℕ)
        → idx ≢ i
        → ((flush_line dev c idx).lines i).dirty ≡ (c.lines i).dirty
    unfolding flush_line
    dirty-flush_line_ne c idx i ne = ground arith

    hand-flush_line :
        (c : PageCache dev) (idx : ℕ) → (flush_line dev c idx).clock_hand ≡ c.clock_hand
    unfolding flush_line
    hand-flush_line c idx = ground arith

    pub initialized-flush_line :
        (c : PageCache dev) (idx : ℕ) → (flush_line dev c idx).initialized ≡ c.initialized
    unfolding flush_line
    initialized-flush_line c idx = ground arith

    pub flush_line-IsCoherent :
        (c : PageCache dev) (idx : ℕ) → IsCoherent c → IsCoherent (flush_line dev c idx)
    flush_line-IsCoherent c idx v = record {
      hand_in = rw (hand-flush_line c idx) v.hand_in;
      unique =
          λ i j l g h. v.unique i j l (flush_line-Holds c idx i l g) (flush_line-Holds c idx j l h);
      clean = λ i l h e.
          let g = flush_line-Holds c idx i l h in
          elim (ℕ_discrete idx i) [
            | yes p ↦
                rw (words-flush_line c idx i, ← p) (read-flush_line_self c idx l v (rw (← p) at g))
            | no n ↦ rw (
              words-flush_line c idx i,
              read-flush_line c idx l (λ k. n (v.unique idx i l k g)),
              v.clean i l g (sym (dirty-flush_line_ne c idx i n) ∙ e),
            )
          ];
    }

    pub contents-flush_line :
        (c : PageCache dev) (idx l : ℕ)
        → IsCoherent c
        → contents (flush_line dev c idx) l ≡ contents c l
    contents-flush_line c idx l v = elim (contents-cases c l) [
      | inl (i, h, e) ↦
          contents-hit (flush_line dev c idx) i l (flush_line-IsCoherent c idx v)
            (Holds-flush_line c idx i l h)
          ∙ rw (words-flush_line c idx i, e)
      | inr (m, e) ↦
          contents-miss (flush_line dev c idx) l (λ j h. m j (flush_line-Holds c idx j l h))
          ∙ read-flush_line c idx l (m idx)
          ∙ sym e
    ]

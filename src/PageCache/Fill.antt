-- ===== src/PageCache/Fill.antt =====
-- A cache line taken over for a sector, by a read or by a write (page_cache.c).
use native.Mathlib.Decide.{ℕ_discrete}
use mathlib.Core.Option.{some}
use neuro_spark.Prelude.{ℕ, ◌<◌, ◌≡◌, refl, sym, ◌∙◌, ◌≢◌, inl, inr, false}
use neuro_spark.PageCache.Device.{BlockDevice}
use neuro_spark.PageCache.{cache_lines, PageCache}
use neuro_spark.PageCache.Coherence.{
  Holds, IsCoherent, contents, contents-cases, contents-hit, contents-miss,
}

module _ (dev : BlockDevice) where
  open dev use {Sector, read_sector}

  -- A line that held nothing is filled with sector `lba`.
  pub record IsFilled (c c' : PageCache dev) (idx lba : ℕ) (w : Sector) : Type 0 where
    pub in_range : idx < cache_lines
    pub hand : c'.clock_hand ≡ c.clock_hand
    pub disk : c'.disk ≡ c.disk
    pub held : Holds dev c' idx lba
    pub words : (c'.lines idx).words ≡ w
    pub others : (i : ℕ) → idx ≢ i → c'.lines i ≡ c.lines i
    -- What is in the line is on the drive, or the line is marked dirty.
    pub kept : (c'.lines idx).dirty ≡ false → read_sector c.disk lba ≡ some w

  module _ (c c' : PageCache dev) (idx lba : ℕ) (w : Sector) (f : IsFilled c c' idx lba w)
      (v : IsCoherent dev c) (empty : (l : ℕ) → Holds dev c idx l → l ≡ lba)
      (absent : (i : ℕ) → Holds dev c i lba → i ≡ idx) where
    Holds-filled : (i l : ℕ) → idx ≢ i → Holds dev c' i l → Holds dev c i l
    Holds-filled i l ne h = rw (f.others i ne) at h

    filled-Holds : (i l : ℕ) → idx ≢ i → Holds dev c i l → Holds dev c' i l
    filled-Holds i l ne h = rw (f.others i ne) h

    filled-lba : (i l : ℕ) → idx ≢ i → Holds dev c' i l → l ≢ lba
    filled-lba i l ne h e =
        let r = Holds-filled i l ne h in
        let r' : Holds dev c i lba = rw e at r in ne (sym (absent i r'))

    filled_unique : (i j l : ℕ) → Holds dev c' i l → Holds dev c' j l → i ≡ j
    filled_unique i j l h g = elim (ℕ_discrete idx i) [
      | yes e ↦ elim (ℕ_discrete idx j) [
        | yes k ↦ sym e ∙ k
        | no n ↦
            let h' : Holds dev c' idx l = rw (← e) at h in
            absurd (filled-lba j l n g (sym h'.2 ∙ f.held.2))
      ]
      | no m ↦ elim (ℕ_discrete idx j) [
        | yes k ↦
            let g' : Holds dev c' idx l = rw (← k) at g in
            absurd (filled-lba i l m h (sym g'.2 ∙ f.held.2))
        | no n ↦ v.unique i j l (Holds-filled i l m h) (Holds-filled j l n g)
      ]
    ]

    filled-clean :
        (i l : ℕ)
        → Holds dev c' i l
        → (c'.lines i).dirty ≡ false
        → read_sector c'.disk l ≡ some (c'.lines i).words
    filled-clean i l h e = elim (ℕ_discrete idx i) [
      | yes k ↦
          let h' : Holds dev c' idx l = rw (← k) at h in
          let e' : (c'.lines idx).dirty ≡ false = rw (← k) at e in
          rw (← k, f.words, f.disk, sym h'.2 ∙ f.held.2) (f.kept e')
      | no n ↦
          rw (f.others i n, f.disk) (v.clean i l (Holds-filled i l n h) (rw (f.others i n) at e))
    ]

    pub filled-IsCoherent : IsCoherent dev c'
    filled-IsCoherent = record {
      hand_in = rw f.hand v.hand_in;
      unique = filled_unique;
      clean = filled-clean;
    }

    pub contents-filled_self : contents dev c' lba ≡ some w
    contents-filled_self = contents-hit dev c' idx lba filled-IsCoherent f.held ∙ rw f.words refl

    pub contents-filled_ne : (l : ℕ) → lba ≢ l → contents dev c' l ≡ contents dev c l
    contents-filled_ne l ne = elim (contents-cases dev c l) [
      | inl (i, h, e) ↦ elim (ℕ_discrete idx i) [
        | yes k ↦ absurd (ne (sym (empty l (rw (← k) at h))))
        | no n ↦
            contents-hit dev c' i l filled-IsCoherent (filled-Holds i l n h)
            ∙ rw (f.others i n) (sym e)
      ]
      | inr (m, e) ↦
          contents-miss dev c' l (λ j h. elim (ℕ_discrete idx j) [
            | yes k ↦ let h' : Holds dev c' idx l = rw (← k) at h in ne (sym f.held.2 ∙ h'.2)
            | no n ↦ m j (Holds-filled j l n h)
          ])
          ∙ rw f.disk (sym e)
    ]

-- ===== src/PageCache/Read.antt =====
-- `page_cache_read_sector` (page_cache.c): the answer, and the sectors it leaves.
use native.Mathlib.Decide.{ℕ_discrete}
use mathlib.Core.Option.{some, none, Option}
use neuro_spark.Prelude.{ℕ, ◌<◌, ◌≡◌, refl, sym, ◌∙◌, inl, inr, true, false, arith, Option-cases}
use neuro_spark.PageCache.Device.{BlockDevice, IsReliable}
use neuro_spark.PageCache.{
  cache_lines, PageCache, IoStatus, io_ok, no_device, find_line, pick_victim_line, read_found,
  fill_line, count_miss, set_line,
}
use neuro_spark.PageCache.Coherence.{
  Holds, Misses, IsCoherent, contents, contents-hit, contents-miss, find_line-cases,
}
use neuro_spark.PageCache.Victim.{
  IsVictim, pick_after, AllAgree, Agrees-IsCoherent, Agrees-contents,
}
use neuro_spark.PageCache.Fill.{
  IsFilled, filled-IsCoherent, contents-filled_self, contents-filled_ne,
}

module _ (dev : BlockDevice) where
  open dev use {Sector, Disk, read_sector}

  -- What `page_cache_read_sector` answers when the sector shows `o`.
  abbrev pub reply : Option Sector → IoStatus × Option Sector
  reply none = (no_device, none)
  reply (some w) = (io_ok, some w)

  module _ (rel : IsReliable dev) where
    pub empty_line :
        (d : PageCache dev) (idx l : ℕ) → (d.lines idx).valid ≡ false → Holds dev d idx l → ⊥
    empty_line d idx l e h = ground arith

    -- A read of a coherent cache: the answer, and what it leaves.
    pub record Reads (c : PageCache dev) (lba : ℕ) (r : (IoStatus × Option Sector) × PageCache dev)
        : Type 0 where
      pub answer : r.0 ≡ reply (contents dev c lba)
      pub coherent : IsCoherent dev r.1
      pub same : (l : ℕ) → contents dev r.1 l ≡ contents dev c l
      pub flag : r.1.initialized ≡ c.initialized

    read_hit :
        (c : PageCache dev) (lba i : ℕ)
        → IsCoherent dev c
        → Holds dev c i lba
        → Reads c lba (read_found dev c lba (some i))
    unfolding read_found
    read_hit c lba i v h =
        let c' = (read_found dev c lba (some i)).1 in
        let a : AllAgree dev c c' = λ j. record {
          valid = ground arith;
          dirty = λ _. ground arith;
          lba = λ _. ground arith;
          words = λ _. ground arith;
        } in
        let v' = Agrees-IsCoherent dev c c' a refl v.hand_in v in
        record {
          answer = rw (contents-hit dev c i lba v h);
          coherent = v';
          same = λ l. Agrees-contents dev c c' l a refl v';
          flag = refl;
        }

    count_miss-Agrees : (c : PageCache dev) → AllAgree dev c (count_miss dev c)
    count_miss-Agrees c i = record {
      valid = refl;
      dirty = λ _. refl;
      lba = λ _. refl;
      words = λ _. refl;
    }

    -- The victim stays empty.
    drop_line-Agrees :
        (d : PageCache dev) (idx : ℕ)
        → (d.lines idx).valid ≡ false
        → AllAgree dev d (
            set_line dev d idx (record (d.lines idx) { valid = false; dirty = false; ref = false }))
    drop_line-Agrees d idx e i = record {
      valid = ground arith;
      dirty = λ h. ground arith;
      lba = λ h. ground arith;
      words = λ h. ground arith;
    }

    abbrev dropped : PageCache dev → ℕ → PageCache dev
    dropped d idx =
        set_line dev d idx (record (d.lines idx) { valid = false; dirty = false; ref = false })

    abbrev filled : PageCache dev → ℕ → ℕ → Sector → PageCache dev
    filled d idx lba w =
        set_line dev d idx
          (record { valid = true; dirty = false; ref = true; lba = lba; words = w })

    fill_line-none :
        (d : PageCache dev) (idx lba : ℕ)
        → read_sector d.disk lba ≡ none
        → fill_line dev lba (idx, d) ≡ ((no_device, none), dropped d idx)
    unfolding fill_line
    fill_line-none d idx lba e = rw (e, fill_line)

    fill_line-some :
        (d : PageCache dev) (idx lba : ℕ) (w : Sector)
        → read_sector d.disk lba ≡ some w
        → fill_line dev lba (idx, d) ≡ ((io_ok, some w), filled d idx lba w)
    unfolding fill_line
    fill_line-some d idx lba w e = rw (e, fill_line)

    filled-IsFilled :
        (d : PageCache dev) (idx lba : ℕ) (w : Sector)
        → idx < cache_lines
        → read_sector d.disk lba ≡ some w
        → IsFilled dev d (filled d idx lba w) idx lba w
    filled-IsFilled d idx lba w h e = record {
      in_range = h;
      hand = refl;
      disk = refl;
      held = (h, ground arith, ground arith);
      words = ground arith;
      others = λ i n. ground arith;
      kept = λ _. e;
    }

    -- Away from `lba` nothing changes, and there the state already showed `w`.
    pub same_of_filled :
        (c d d' : PageCache dev) (idx lba l : ℕ) (w : Sector)
        → IsVictim dev c (idx, d)
        → ((i : ℕ) → Holds dev d i lba → ⊥)
        → IsFilled dev d d' idx lba w
        → contents dev c lba ≡ some w
        → contents dev d' l ≡ contents dev c l
    same_of_filled c d d' idx lba l w v absent f e =
        let gone = λ (k : ℕ) (h : Holds dev d idx k). empty_line d idx k v.empty h in
        let empty : (k : ℕ) → Holds dev d idx k → k ≡ lba = λ k h. absurd (gone k h) in
        let away : (i : ℕ) → Holds dev d i lba → i ≡ idx = λ i h. absurd (absent i h) in
        elim (ℕ_discrete lba l) [
          | yes q ↦
              rw (← q) (contents-filled_self dev d d' idx lba w f v.coherent empty away ∙ sym e)
          | no n ↦ contents-filled_ne dev d d' idx lba w f v.coherent empty away l n ∙ v.same l
        ]

    fill_line-Reads :
        (c : PageCache dev) (lba : ℕ) (r : ℕ × PageCache dev)
        → IsVictim dev c r
        → Misses dev c lba
        → Reads c lba (fill_line dev lba r)
    fill_line-Reads c lba (idx, d) v m =
        let absent : (i : ℕ) → Holds dev d i lba → ⊥ = λ i h. m i (v.fewer i lba h) in
        let shown : contents dev c lba ≡ read_sector d.disk lba =
          sym (v.same lba) ∙ contents-miss dev d lba absent in
        elim (Option-cases (read_sector d.disk lba)) [
          | inl e ↦
              let a = drop_line-Agrees d idx v.empty in
              let v' =
                Agrees-IsCoherent dev d (dropped d idx) a refl v.coherent.hand_in v.coherent in
              rw (fill_line-none d idx lba e) (record {
                answer = rw (shown ∙ e);
                coherent = v';
                same = λ l. Agrees-contents dev d (dropped d idx) l a refl v' ∙ v.same l;
                flag = v.flag;
              })
          | inr (w, e) ↦
              let f = filled-IsFilled d idx lba w v.in_range e in
              rw (fill_line-some d idx lba w e) (record {
                answer = rw (shown ∙ e);
                coherent =
                    filled-IsCoherent dev d (filled d idx lba w) idx lba w f v.coherent
                      (λ l h. absurd (empty_line d idx l v.empty h)) (λ i h. absurd (absent i h));
                same =
                    λ l. same_of_filled c d (filled d idx lba w) idx lba l w v absent f (shown ∙ e);
                flag = v.flag;
              })
        ]

    pub read_found-Reads :
        (c : PageCache dev) (lba : ℕ)
        → IsCoherent dev c
        → Reads c lba (read_found dev c lba (find_line dev c lba))
    read_found-Reads c lba v = elim (find_line-cases dev c lba) [
      | inl (i, e, h) ↦ rw e (read_hit c lba i v h)
      | inr (e, m) ↦
          unfold read_found in
          rw e (
            fill_line-Reads c lba (pick_victim_line dev (count_miss dev c))
              (pick_after dev rel c (count_miss dev c) (count_miss-Agrees c) refl refl refl v) m)
    ]

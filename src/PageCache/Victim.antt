-- ===== src/PageCache/Victim.antt =====
-- `pick_victim_line` (page_cache.c): what it frees, and that its loop ends by itself.
use native.Mathlib.Decide.{ℕ_discrete}
use neuro_spark.Prelude.{
  ℕ, zero, suc, ◌+◌, ◌<◌, ◌%◌, ◌≡◌, refl, sym, ap, ◌∙◌, ◌≢◌, ◌⊎◌, inl, inr, true, false, arith,
  Bool-cases,
}
use mathlib.Core.Option.{some}
use neuro_spark.PageCache.Device.{BlockDevice, IsReliable}
use neuro_spark.PageCache.{
  CacheLine, cache_lines, PageCache, set_line, flush_line, evict, pick_loop, pick_victim_line,
}
use neuro_spark.PageCache.Coherence.{
  Holds, IsCoherent, contents, contents-cases, contents-hit, contents-miss, flush_line-Holds,
  Misses, flush_line-IsCoherent, contents-flush_line, read-flush_line_self, words-flush_line,
  initialized-flush_line,
}

-- Two lines that are both empty, or differ in the reference bit only.
pub record Agrees {Sector : Type 0} (l l' : CacheLine Sector) : Type 0 where
  pub valid : l'.valid ≡ l.valid
  pub dirty : l.valid ≡ true → l'.dirty ≡ l.dirty
  pub lba : l.valid ≡ true → l'.lba ≡ l.lba
  pub words : l.valid ≡ true → l'.words ≡ l.words

module _ (dev : BlockDevice) where
  open dev use {Sector}

  abbrev pub AllAgree : PageCache dev → PageCache dev → Type 0
  AllAgree c c' = (i : ℕ) → Agrees (c.lines i) (c'.lines i)

  Agrees-Holds :
      (c c' : PageCache dev) (i l : ℕ) → AllAgree c c' → Holds dev c' i l → Holds dev c i l
  Agrees-Holds c c' i l a h =
      let b = a i in let v = sym b.valid ∙ h.1 in (h.0, v, sym (b.lba v) ∙ h.2)

  Holds-Agrees :
      (c c' : PageCache dev) (i l : ℕ) → AllAgree c c' → Holds dev c i l → Holds dev c' i l
  Holds-Agrees c c' i l a h = let b = a i in (h.0, b.valid ∙ h.1, b.lba h.1 ∙ h.2)

  pub Agrees-IsCoherent :
      (c c' : PageCache dev)
      → AllAgree c c'
      → c'.disk ≡ c.disk
      → c'.clock_hand < cache_lines
      → IsCoherent dev c
      → IsCoherent dev c'
  Agrees-IsCoherent c c' a d h v = record {
    hand_in = h;
    unique = λ i j l p q. v.unique i j l (Agrees-Holds c c' i l a p) (Agrees-Holds c c' j l a q);
    clean = λ i l p e.
        let b = a i in
        let q = Agrees-Holds c c' i l a p in
        rw (d, b.words q.1) (v.clean i l q (sym (b.dirty q.1) ∙ e));
  }

  pub Agrees-contents :
      (c c' : PageCache dev) (l : ℕ)
      → AllAgree c c'
      → c'.disk ≡ c.disk
      → IsCoherent dev c'
      → contents dev c' l ≡ contents dev c l
  Agrees-contents c c' l a d v' = elim (contents-cases dev c l) [
    | inl (i, h, e) ↦
        let b = a i in
        contents-hit dev c' i l v' (Holds-Agrees c c' i l a h) ∙ rw (b.words h.1) (sym e)
    | inr (m, e) ↦ contents-miss dev c' l (λ j h. m j (Agrees-Holds c c' j l a h)) ∙ rw d (sym e)
  ]

  -- What a caller of `pick_victim_line` gets: an empty line, and the same sectors as before.
  pub record IsVictim (c : PageCache dev) (r : ℕ × PageCache dev) : Type 0 where
    pub in_range : r.0 < cache_lines
    pub empty : (r.1.lines r.0).valid ≡ false
    pub coherent : IsCoherent dev r.1
    pub same : (l : ℕ) → contents dev r.1 l ≡ contents dev c l
    pub fewer : (i l : ℕ) → Holds dev r.1 i l → Holds dev c i l
    pub flag : r.1.initialized ≡ c.initialized

  module _ (rel : IsReliable dev) where
    -- The line emptied, its words being on the drive.
    evict-Holds :
        (c : PageCache dev) (idx i l : ℕ)
        → Holds dev (evict dev c idx).1 i l
        → (idx ≢ i) × Holds dev (flush_line dev c idx) i l
    unfolding evict
    evict-Holds c idx i l h = elim (ℕ_discrete idx i) [
      | yes e ↦ ground arith
      | no n ↦ (n, (ground arith, ground arith, ground arith))
    ]

    Holds-evict :
        (c : PageCache dev) (idx i l : ℕ)
        → idx ≢ i
        → Holds dev (flush_line dev c idx) i l
        → Holds dev (evict dev c idx).1 i l
    unfolding evict
    Holds-evict c idx i l ne h = ground arith

    line-evict_ne :
        (c : PageCache dev) (idx i : ℕ)
        → idx ≢ i
        → (evict dev c idx).1.lines i ≡ (flush_line dev c idx).lines i
    unfolding evict
    line-evict_ne c idx i ne = ground arith

    evict-IsCoherent :
        (c : PageCache dev) (idx : ℕ) → IsCoherent dev c → IsCoherent dev (evict dev c idx).1
    unfolding evict
    evict-IsCoherent c idx v =
        let w = flush_line-IsCoherent dev rel c idx v in
        record {
          hand_in = w.hand_in;
          unique =
              λ i j l p q. w.unique i j l (evict-Holds c idx i l p).1 (evict-Holds c idx j l q).1;
          clean = λ i l p e.
              let g = evict-Holds c idx i l p in
              let q = line-evict_ne c idx i g.0 in rw q (w.clean i l g.1 (rw q at e));
        }

    contents-evict :
        (c : PageCache dev) (idx l : ℕ)
        → IsCoherent dev c
        → contents dev (evict dev c idx).1 l ≡ contents dev c l
    unfolding evict
    contents-evict c idx l v =
        let w = flush_line-IsCoherent dev rel c idx v in
        let v' = evict-IsCoherent c idx v in
        kept v' w (contents-cases dev (flush_line dev c idx) l)
        ∙ contents-flush_line dev rel c idx l v
      where
        held : {i : ℕ} → Holds dev (flush_line dev c idx) i l → idx ≡ i → Holds dev c idx l
        held {i} h q = let g = flush_line-Holds dev rel c idx i l h in rw (← q) at g

        kept :
            IsCoherent dev (evict dev c idx).1
            → IsCoherent dev (flush_line dev c idx)
            → ((i : ℕ) × Holds dev (flush_line dev c idx) i l
                × (contents dev (flush_line dev c idx) l
                    ≡ some ((flush_line dev c idx).lines i).words))
              ⊎ (Misses dev (flush_line dev c idx) l
                  × (contents dev (flush_line dev c idx) l
                      ≡ dev.read_sector (flush_line dev c idx).disk l))
            → contents dev (evict dev c idx).1 l ≡ contents dev (flush_line dev c idx) l
        kept v' w (inr (m, e)) =
            contents-miss dev (evict dev c idx).1 l (λ j h. m j (evict-Holds c idx j l h).1) ∙ sym e
        kept v' w (inl (i, h, e)) = elim (ℕ_discrete idx i) [
          | no n ↦
              contents-hit dev (evict dev c idx).1 i l v' (Holds-evict c idx i l n h)
              ∙ rw (line-evict_ne c idx i n) (sym e)
          | yes q ↦
              contents-miss dev (evict dev c idx).1 l
                (λ j g. let r = evict-Holds c idx j l g in r.0 (q ∙ w.unique i j l h r.1))
              ∙ read-flush_line_self dev rel c idx l v (held h q)
              ∙ ap some (rw q (sym (words-flush_line dev rel c i i)))
              ∙ sym e
        ]

    evict-IsVictim :
        (c : PageCache dev) (idx : ℕ)
        → idx < cache_lines
        → IsCoherent dev c
        → IsVictim c (evict dev c idx)
    unfolding evict
    evict-IsVictim c idx h v = record {
      in_range = h;
      empty = ground arith;
      coherent = evict-IsCoherent c idx v;
      same = λ l. contents-evict c idx l v;
      fewer = λ i l h. flush_line-Holds dev rel c idx i l (evict-Holds c idx i l h).1;
      flag = initialized-flush_line dev rel c idx;
    }

    IsVictim-trans :
        (c c' : PageCache dev) (r : ℕ × PageCache dev)
        → ((l : ℕ) → contents dev c' l ≡ contents dev c l)
        → ((i l : ℕ) → Holds dev c' i l → Holds dev c i l)
        → c'.initialized ≡ c.initialized
        → IsVictim c' r
        → IsVictim c r
    IsVictim-trans c c' r e k o v = record {
      in_range = v.in_range;
      empty = v.empty;
      coherent = v.coherent;
      same = λ l. v.same l ∙ e l;
      fewer = λ i l h. k i l (v.fewer i l h);
      flag = v.flag ∙ o;
    }

  -- One round's moves of the hand and of a reference bit.
  abbrev advance : PageCache dev → PageCache dev
  advance c = record c { clock_hand = (c.clock_hand + 1) % cache_lines }

  abbrev clear_ref : PageCache dev → PageCache dev
  clear_ref c =
      set_line dev (advance c) c.clock_hand (record (c.lines c.clock_hand) { ref = false })

  clear_ref-AllAgree : (c : PageCache dev) → AllAgree c (clear_ref c)
  clear_ref-AllAgree c i = record {
    valid = ground arith;
    dirty = λ _. ground arith;
    lba = λ _. ground arith;
    words = λ _. ground arith;
  }

  advance-AllAgree : (c : PageCache dev) → AllAgree c (advance c)
  advance-AllAgree c i = record {
    valid = refl;
    dirty = λ _. refl;
    lba = λ _. refl;
    words = λ _. refl;
  }

  pick_loop-empty :
      (n : ℕ) (c : PageCache dev)
      → (c.lines c.clock_hand).valid ≡ false
      → pick_loop dev (suc n) c ≡ (c.clock_hand, advance c)
  unfolding pick_loop
  pick_loop-empty n c e = rw (e, pick_loop)

  pick_loop-ref :
      (n : ℕ) (c : PageCache dev)
      → (c.lines c.clock_hand).valid ≡ true
      → (c.lines c.clock_hand).ref ≡ true
      → pick_loop dev (suc n) c ≡ pick_loop dev n (clear_ref c)
  unfolding pick_loop
  pick_loop-ref n c e r = rw (e, r, pick_loop) (rw e)

  pick_loop-old :
      (n : ℕ) (c : PageCache dev)
      → (c.lines c.clock_hand).valid ≡ true
      → (c.lines c.clock_hand).ref ≡ false
      → pick_loop dev (suc n) c ≡ evict dev (advance c) c.clock_hand
  unfolding pick_loop
  pick_loop-old n c e r = rw (e, r, pick_loop)

  module _ (rel : IsReliable dev) where
    pick_loop-IsVictim :
        (n : ℕ) (c : PageCache dev) → IsCoherent dev c → IsVictim c (pick_loop dev n c)
    pick_loop-IsVictim zero c v = unfold pick_loop in evict-IsVictim rel c c.clock_hand v.hand_in v
    pick_loop-IsVictim (suc n) c v =
        let hand : (c.clock_hand + 1) % cache_lines < cache_lines = omega arith in
        let va = Agrees-IsCoherent c (advance c) (advance-AllAgree c) refl hand v in
        let vr = Agrees-IsCoherent c (clear_ref c) (clear_ref-AllAgree c) refl hand v in
        let sa = λ (l : ℕ). Agrees-contents c (advance c) l (advance-AllAgree c) refl va in
        let fa = λ (i l : ℕ). Agrees-Holds c (advance c) i l (advance-AllAgree c) in
        let fr = λ (i l : ℕ). Agrees-Holds c (clear_ref c) i l (clear_ref-AllAgree c) in
        let sr = λ (l : ℕ). Agrees-contents c (clear_ref c) l (clear_ref-AllAgree c) refl vr in
        elim (Bool-cases (c.lines c.clock_hand).valid) [
          | inr e ↦ rw (pick_loop-empty n c e) (record {
            in_range = v.hand_in;
            empty = e;
            coherent = va;
            same = sa;
            fewer = fa;
            flag = refl;
          })
          | inl e ↦ elim (Bool-cases (c.lines c.clock_hand).ref) [
            | inl r ↦ rw (pick_loop-ref n c e r) (
                IsVictim-trans rel c (clear_ref c) _ sr fr refl
                  (pick_loop-IsVictim n (clear_ref c) vr))
            | inr r ↦ rw (pick_loop-old n c e r) (
                IsVictim-trans rel c (advance c) _ sa fa refl
                  (evict-IsVictim rel (advance c) c.clock_hand v.hand_in va))
          ]
        ]

    -- The victim that is picked once a counter has moved.
    pub pick_after :
        (c c' : PageCache dev)
        → AllAgree c c'
        → c'.disk ≡ c.disk
        → c'.clock_hand ≡ c.clock_hand
        → c'.initialized ≡ c.initialized
        → IsCoherent dev c
        → IsVictim c (pick_victim_line dev c')
    unfolding pick_victim_line
    pick_after c c' a d h o v =
        let v' = Agrees-IsCoherent c c' a d (rw h v.hand_in) v in
        IsVictim-trans rel c c' _ (λ l. Agrees-contents c c' l a d v')
          (λ i l. Agrees-Holds c c' i l a) o (pick_loop-IsVictim 64 c' v')

  -- A line that the hand does not pass by.
  abbrev IsReady : PageCache dev → ℕ → Type 0
  IsReady c t = ((c.lines t).valid ≡ false) ⊎ ((c.lines t).ref ≡ false)

  IsReady-clear_ref : (c : PageCache dev) (t : ℕ) → IsReady c t → IsReady (clear_ref c) t
  IsReady-clear_ref c t (inl e) = inl (ground arith)
  IsReady-clear_ref c t (inr e) = inr (ground arith)

  -- With the hand `k` lines before a line that is ready, `k + 1` rounds are enough.
  pick_loop-rounds :
      (k m n : ℕ) (c : PageCache dev) (t : ℕ)
      → c.clock_hand < cache_lines
      → (c.clock_hand + k) % cache_lines ≡ t
      → IsReady c t
      → k < m
      → k < n
      → pick_loop dev m c ≡ pick_loop dev n c
  pick_loop-rounds k zero n c t h e r a b = absurd (omega arith)
  pick_loop-rounds k (suc m) zero c t h e r a b = absurd (omega arith)
  pick_loop-rounds zero (suc m) (suc n) c t h e r a b =
      let q : t ≡ c.clock_hand = omega arith in
      let r' : IsReady c c.clock_hand = rw q at r in
      elim (Bool-cases (c.lines c.clock_hand).valid) [
        | inr p ↦ pick_loop-empty m c p ∙ sym (pick_loop-empty n c p)
        | inl p ↦
            let o : (c.lines c.clock_hand).ref ≡ false = ground arith in
            pick_loop-old m c p o ∙ sym (pick_loop-old n c p o)
      ]
  pick_loop-rounds (suc k) (suc m) (suc n) c t h e r a b =
      elim (Bool-cases (c.lines c.clock_hand).valid) [
        | inr p ↦ pick_loop-empty m c p ∙ sym (pick_loop-empty n c p)
        | inl p ↦ elim (Bool-cases (c.lines c.clock_hand).ref) [
          | inr o ↦ pick_loop-old m c p o ∙ sym (pick_loop-old n c p o)
          | inl o ↦
              pick_loop-ref m c p o
              ∙ pick_loop-rounds k m n (clear_ref c) t (omega arith) (omega arith)
                  (IsReady-clear_ref c t r) (omega arith) (omega arith)
              ∙ sym (pick_loop-ref n c p o)
        ]
      ]

  first_round :
      (m n : ℕ) (c : PageCache dev)
      → c.clock_hand < cache_lines
      → cache_lines < suc m
      → cache_lines < suc n
      → pick_loop dev (suc m) c ≡ pick_loop dev (suc n) c
  first_round m n c h a b = elim (Bool-cases (c.lines c.clock_hand).valid) [
    | inr p ↦ pick_loop-empty m c p ∙ sym (pick_loop-empty n c p)
    | inl p ↦ elim (Bool-cases (c.lines c.clock_hand).ref) [
      | inr o ↦ pick_loop-old m c p o ∙ sym (pick_loop-old n c p o)
      | inl o ↦
          pick_loop-ref m c p o
          ∙ pick_loop-rounds 31 m n (clear_ref c) c.clock_hand (omega arith) (omega arith)
              (inr (ground arith)) (omega arith) (omega arith)
          ∙ sym (pick_loop-ref n c p o)
    ]
  ]

  -- From any hand inside the table the victim is found within 33 rounds: whatever number of
  -- rounds from 33 on the loop is given, it answers what `pick_victim_line` answers with its 64,
  -- so the fallback behind the loop is never reached.
  pub pick_victim_line-rounds :
      (m : ℕ) (c : PageCache dev)
      → c.clock_hand < cache_lines
      → cache_lines < m
      → pick_loop dev m c ≡ pick_victim_line dev c
  unfolding pick_victim_line
  pick_victim_line-rounds zero c h a = absurd (omega arith)
  pick_victim_line-rounds (suc m) c h a = first_round m 63 c h a (omega arith)

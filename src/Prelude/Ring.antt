-- ===== src/Prelude/Ring.antt =====
-- A ring of `cap` cells in an array: the `n` cells from `h` on, going round at the end.
use native.Mathlib.Nat.{mod-add-mod, mod-eq_of_lt, mod-eq-sub-mod}
use native.Mathlib.Decide.{dec_lt}
use neuro_spark.Prelude.{
  ℕ, zero, suc, ◌+◌, ◌-◌, ◌%◌, ◌<◌, ◌≤◌, ◌≡◌, refl, sym, subst, ap, ◌∙◌, ◌≢◌, ◌⊎◌, inl, inr, List,
  [], ◌∷◌, ◌++◌, arith, update, update_self, update_ne, length, length-append,
}

-- The place `k` cells behind `h`, on either side of the end.
wrapped :
    (cap h k : ℕ) → h < cap → k < cap → ((h + k) % cap ≡ h + k) ⊎ ((h + k) % cap + cap ≡ h + k)
wrapped cap h k a b = elim (dec_lt (h + k) cap) [
  | yes l ↦ inl (mod-eq_of_lt l)
  | no l ↦
      let back : (h + k) % cap ≡ (h + k - cap) % cap = mod-eq-sub-mod (omega arith) in
      let low : (h + k - cap) % cap ≡ h + k - cap = mod-eq_of_lt (omega arith) in
      inr (omega (arith, back, low))
]

places-ne : (cap h j k : ℕ) → h < cap → j < k → k < cap → (h + k) % cap ≢ (h + j) % cap
places-ne cap h j k a l b e = elim (wrapped cap h k a b) [
  | inl p ↦ elim (wrapped cap h j a (omega arith)) [
    | inl q ↦ omega (arith, p, q, e)
    | inr q ↦ omega (arith, p, q, e)
  ]
  | inr p ↦ elim (wrapped cap h j a (omega arith)) [
    | inl q ↦ omega (arith, p, q, e)
    | inr q ↦ omega (arith, p, q, e)
  ]
]

module _ {A : Type 0} (cap : ℕ) where
  abbrev pub window : (ℕ → A) → ℕ → ℕ → List A
  window f h zero = []
  window f h (suc n) = window f h n ++ (f ((h + n) % cap) ∷ [])

  pub length-window : (f : ℕ → A) (h n : ℕ) → length (window f h n) ≡ n
  length-window f h zero = refl
  length-window f h (suc n) =
      length-append (window f h n) (f ((h + n) % cap) ∷ []) ∙ omega (arith, length-window f h n)

  -- Seen from its first cell.
  window-front :
      (f : ℕ → A) (h n : ℕ) → h < cap → window f h (suc n) ≡ f h ∷ window f ((h + 1) % cap) n
  window-front f h zero a = let z : h + 0 ≡ h = omega arith in rw (z, mod-eq_of_lt a) refl
  window-front f h (suc n) a =
      let place : (h + suc n) % cap ≡ ((h + 1) % cap + n) % cap =
        ap (λ k. k % cap) (omega arith) ∙ sym (mod-add-mod (h + 1) cap n) in
      rw (window-front f h n a, place) refl

  -- The code tests the count, `window` matches on it.
  pub window_of_pos :
      (f : ℕ → A) (h n : ℕ)
      → h < cap
      → 0 < n
      → window f h n ≡ f h ∷ window f ((h + 1) % cap) (n - 1)
  window_of_pos f h zero a p = absurd (omega arith)
  window_of_pos f h (suc n) a p =
      let e : n ≡ suc n - 1 = omega arith in
      window-front f h n a ∙ ap (λ k. f h ∷ window f ((h + 1) % cap) k) e

  window-update :
      (f : ℕ → A) (h k : ℕ) (x : A) (n : ℕ)
      → h < cap
      → k < cap
      → n ≤ k
      → window (update f ((h + k) % cap) x) h n ≡ window f h n
  window-update f h k x zero a b l = refl
  window-update f h k x (suc n) a b l =
      let ne = places-ne cap h n k a (omega arith) b in
      rw
        (
          window-update f h k x n a b (omega arith),
          update_ne f ((h + k) % cap) ((h + n) % cap) x ne,
        )
        refl

  window-store :
      (f : ℕ → A) (h n : ℕ) (x : A)
      → h < cap
      → n < cap
      → window (update f ((h + n) % cap) x) h (suc n) ≡ window f h n ++ (x ∷ [])
  window-store f h n x a b =
      let l : n ≤ n = omega arith in
      rw (window-update f h n x n a b l, update_self f ((h + n) % cap) x) refl

  -- A store into the cell behind the last adds to the end.
  pub window-push :
      (f : ℕ → A) (h n i : ℕ) (x : A)
      → h < cap
      → n < cap
      → i ≡ (h + n) % cap
      → window (update f i x) h (suc n) ≡ window f h n ++ (x ∷ [])
  window-push f h n i x a b e =
      subst (λ j. window (update f j x) h (suc n) ≡ window f h n ++ (x ∷ [])) (sym e)
        (window-store f h n x a b)

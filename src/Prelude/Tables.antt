-- ===== src/Prelude/Tables.antt =====
-- A C array as a function from its indices; a store into it, and what a later load reads.
use Prim.Native.Nat.{ℕ, zero, suc, ◌+◌, ◌≤◌, ◌<◌}
use mathlib.Core.Path.{◌≡◌, refl, ap, ◌∙◌}
use native.Mathlib.Decide.{dec_lt}
use mathlib.Core.Logic.{◌≢◌, inl, inr}
use mathlib.Core.Bool.{Bool, true, false}
use mathlib.Core.Option.{Option, none, some}
use native.Mathlib.Omega.{arith}
use neuro_spark.Prelude.Tests.{◌==◌, if◌then◌else◌, Bool-cases, Option-cases}

-- `f[i] = v`.
abbrev pub update {ℓ} : {A : Type ℓ} → (ℕ → A) → ℕ → A → ℕ → A
update f i v j = if i == j then v else f j

pub update_self {ℓ} : {A : Type ℓ} (f : ℕ → A) (i : ℕ) (v : A) → update f i v i ≡ v
update_self f i v = ground arith

pub update_ne {ℓ} : {A : Type ℓ} (f : ℕ → A) (i j : ℕ) (v : A) → i ≢ j → update f i v j ≡ f j
update_ne f i j v h = ground arith

-- `for (i = i; i < i + n; i++) if (p(i)) return i;`
unfoldable pub find_index : (ℕ → Bool) → ℕ → ℕ → Option ℕ
find_index p zero i = none
find_index p (suc n) i = elim (p i) [ true ↦ some i | false ↦ find_index p n (i + 1) ]

-- The scan answers the first index of its range that passes the test.
pub find_index-some :
    (p : ℕ → Bool) (n i : ℕ) {k : ℕ}
    → find_index p n i ≡ some k
    → (i ≤ k) × (k < i + n) × (p k ≡ true) × ((j : ℕ) → i ≤ j → j < k → p j ≡ false)
unfolding find_index
find_index-some p zero i h = cc
find_index-some p (suc n) i {k} h = elim (Bool-cases (p i)) [
  | inl e ↦
      let q : i ≡ k = ground arith in
      (omega arith, omega arith, rw (← q) e, λ j a b. absurd (omega arith))
  | inr e ↦
      let e' : find_index p n (i + 1) ≡ some k = ground arith in
      let r = find_index-some p n (i + 1) e' in
      (
        omega arith,
        omega arith,
        r.2,
        λ j a b. elim (dec_lt i j) [
          | yes q ↦ r.3 j (omega arith) b
          | no q ↦ let w : i ≡ j = omega arith in rw (← w) e
        ],
      )
]

-- The scan fails exactly if no index of its range passes.
pub find_index-none :
    (p : ℕ → Bool) (n i : ℕ) → find_index p n i ≡ none → (j : ℕ) → i ≤ j → j < i + n → p j ≡ false
unfolding find_index
find_index-none p zero i h j a b = absurd (omega arith)
find_index-none p (suc n) i h j a b = elim (Bool-cases (p i)) [
  | inl e ↦ ground arith
  | inr e ↦ elim (dec_lt i j) [
    | yes q ↦ find_index-none p n (i + 1) (ground arith) j (omega arith) (omega arith)
    | no q ↦ let w : i ≡ j = omega arith in rw (← w) e
  ]
]

-- A scan whose first hit is known.
pub find_index_first :
    (p : ℕ → Bool) (n i : ℕ)
    → i < n
    → p i ≡ true
    → ((j : ℕ) → j < i → p j ≡ false)
    → find_index p n 0 ≡ some i
find_index_first p n i l h low = elim (Option-cases (find_index p n 0)) [
  | inl e ↦
      let q : p i ≡ false = find_index-none p n 0 e i (omega arith) (omega arith) in absurd (cc)
  | inr (k, e) ↦
      let r = find_index-some p n 0 e in
      let hit : p k ≡ true = r.2 in
      elim (dec_lt k i) [
        | yes a ↦ let q : p k ≡ false = low k a in absurd (cc)
        | no a ↦ elim (dec_lt i k) [
          | yes b ↦ let q : p i ≡ false = r.3 i (omega arith) b in absurd (cc)
          | no b ↦ let q : k ≡ i = omega arith in e ∙ ap some q
        ]
      ]
]

-- The answer depends on the test within the range alone.
pub find_index-congr :
    (p q : ℕ → Bool) (n i : ℕ)
    → ((j : ℕ) → i ≤ j → j < i + n → p j ≡ q j)
    → find_index p n i ≡ find_index q n i
unfolding find_index
find_index-congr p q zero i h = refl
find_index-congr p q (suc n) i h =
    let rest : find_index p n (i + 1) ≡ find_index q n (i + 1) =
      find_index-congr p q n (i + 1) (λ j a b. h j (omega arith) (omega arith)) in
    ground (arith, h i (omega arith) (omega arith), rest)

pub find_index-head : (p : ℕ → Bool) (n i : ℕ) → p i ≡ true → find_index p (suc n) i ≡ some i
unfolding find_index
find_index-head p n i h = ground arith

-- What holds of the stored value and of the old ones holds of every value after the store.
pub update_keeps {ℓ κ} :
    {A : Type ℓ} (P : A → Type κ) (f : ℕ → A) (i : ℕ) (v : A) (j : ℕ)
    → P v
    → P (f j)
    → P (update f i v j)
update_keeps P f i v j new old = elim (Bool-cases (i == j)) [ inl e ↦ rw e new | inr e ↦ rw e old ]

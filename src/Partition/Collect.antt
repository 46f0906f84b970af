-- ===== src/Partition/Collect.antt =====
-- kernel/partition.c: what the loops of the scans collect, as a list.
use neuro_spark.Prelude.{
  ℕ, zero, suc, ◌+◌, ◌-◌, ◌<◌, ◌≤◌, ◌≡◌, refl, ap, ◌∙◌, inl, inr, arith, ltb, Option, none, some,
  List, [], ◌∷◌, length, take, Option-cases, Bool-cases, update, update_self,
}
use neuro_spark.Prelude.Int.{pos}
use neuro_spark.Partition.{
  PartitionEntry, mbr_entry, mbr_entries, GptHeader, sector_of, gpt_entry, gpt_entries,
}

-- The `n` entries from `k` on.
abbrev pub listed : (ℕ → PartitionEntry) → ℕ → ℕ → List PartitionEntry
listed out k zero = []
listed out k (suc n) = out k ∷ listed out (k + 1) n

-- What `f` answers for the `n` numbers from `i` on, in order, without the `none`.
unfoldable pub somes : (ℕ → Option PartitionEntry) → ℕ → ℕ → List PartitionEntry
somes f i zero = []
somes f i (suc n) = elim (f i) [ none ↦ somes f (i + 1) n | some e ↦ e ∷ somes f (i + 1) n ]

-- `after` is `before` with `es` stored from `count` on.
pub record Filled (count : ℕ) (es : List PartitionEntry) (before after : ℕ → PartitionEntry)
    : Type 0 where
  pub stored : listed after count (length es) ≡ es
  pub below : (j : ℕ) → j < count → after j ≡ before j
  pub above : (j : ℕ) → count + length es ≤ j → after j ≡ before j

pub nothing-Filled : (count : ℕ) (out : ℕ → PartitionEntry) → Filled count [] out out
nothing-Filled count out = record { stored = refl; below = λ j h. refl; above = λ j h. refl }

push-Filled :
    (count : ℕ) (e : PartitionEntry) (es : List PartitionEntry) (before after : ℕ → PartitionEntry)
    → Filled (count + 1) es (update before count e) after
    → Filled count (e ∷ es) before after
push-Filled count e es before after h = record {
  stored =
      ap (λ x. x ∷ listed after (count + 1) (length es))
        (h.below count (omega arith) ∙ update_self before count e)
      ∙ ap (λ xs. e ∷ xs) h.stored;
  below = λ j k. h.below j (omega arith) ∙ ground arith;
  above = λ j k. h.above j (omega arith) ∙ ground arith;
}

pub mbr_entries_lem :
    (b : ℕ → ℕ) (left i count : ℕ) (out : ℕ → PartitionEntry)
    → let es = somes (mbr_entry b) i left in
      let r = mbr_entries b left i count out in (r.0 ≡ count + length es) × Filled count es out r.1
unfolding mbr_entries somes
mbr_entries_lem b zero i count out = (omega arith, nothing-Filled count out)
mbr_entries_lem b (suc left) i count out = elim (Option-cases (mbr_entry b i)) [
  | inl e ↦ rw (e, mbr_entries, somes) (mbr_entries_lem b left (i + 1) count out)
  | inr (x, e) ↦
      let h = mbr_entries_lem b left (i + 1) (count + 1) (update out count x) in
      rw (e, mbr_entries, somes)
        (omega (arith, h.0), push-Filled count x (somes (mbr_entry b) (i + 1) left) out _ h.1)
]

take-nil : (n : ℕ) → take {A = PartitionEntry} n [] ≡ []
take-nil zero = refl
take-nil (suc n) = refl

-- The entry as a function of the drive; a sector that cannot be read has none.
abbrev pub entry_on : (ℕ → Option (ℕ → ℕ)) → GptHeader → ℕ → Option PartitionEntry
entry_on read h i = elim (read (sector_of h i)) [ none ↦ none | some b ↦ gpt_entry h b i ]

pub gpt_entries_lem :
    (read : ℕ → Option (ℕ → ℕ)) (h : GptHeader) (n left i count : ℕ) (out : ℕ → PartitionEntry)
    → ((j : ℕ) → j < i + left → (b : ℕ → ℕ) × (read (sector_of h j) ≡ some b))
    → let es = take (n - count) (somes (entry_on read h) i left) in
      let r = gpt_entries read h n left i count out in
      (r.0 ≡ pos (count + length es)) × Filled count es out r.1
unfolding gpt_entries somes
gpt_entries_lem read h n zero i count out good =
    rw (take-nil (n - count)) (ground arith, nothing-Filled count out)
gpt_entries_lem read h n (suc left) i count out good =
    let (b, g) = good i (omega arith) in
    let later : (j : ℕ) → j < i + 1 + left → (b : ℕ → ℕ) × (read (sector_of h j) ≡ some b) =
      λ j l. good j (omega arith) in
    elim (Bool-cases (ltb count n)) [
      | inr e ↦
          let q : n - count ≡ 0 = ground arith in rw (e, q) (ground arith, nothing-Filled count out)
      | inl e ↦ elim (Option-cases (gpt_entry h b i)) [
        | inl k ↦
            rw (e, g, k, gpt_entries, somes) (gpt_entries_lem read h n left (i + 1) count out later)
        | inr (x, k) ↦
            let q : n - count ≡ suc (n - (count + 1)) = ground arith in
            let rest =
              gpt_entries_lem read h n left (i + 1) (count + 1) (update out count x) later in
            rw (e, g, k, q, gpt_entries, somes)
              (rest.0 ∙ ap pos (omega arith), push-Filled count x _ out _ rest.1)
      ]
    ]

-- ===== src/Partition/Scans.antt =====
-- kernel/partition.c: what the two scans answer.
use neuro_spark.Prelude.{
  ℕ, ◌≤◌, ◌≡◌, refl, ap, ◌∙◌, ◌+◌, ◌⊎◌, inl, inr, false, arith, Option, none, some, length, List,
  [], zero, suc, if◌then◌else◌, ltb, Option-cases, Bool-cases,
}
use neuro_spark.Prelude.Int.{pos, negsuc, ltb_ℤ}
use neuro_spark.Partition.{
  PartitionEntry, mbr_entry, at_most_four, cleared, has_signature, partition_scan_mbr,
}
use neuro_spark.Partition.Reference.{
  Selected, somes-Selected, Holds, Signed, MbrUsed, MbrUnused, mbr_entry-MbrUnused,
  mbr_entry-MbrUsed,
}
use neuro_spark.Partition.Collect.{somes, Filled, nothing-Filled, mbr_entries_lem}

Filled-Holds :
    (n : ℕ) (es : List PartitionEntry) (out after : ℕ → PartitionEntry)
    → length es ≤ n
    → Filled 0 es (cleared n out) after
    → Holds n es out after
Filled-Holds n es out after l f = record {
  stored = f.stored;
  blank = λ j a b. f.above j (omega (arith, a)) ∙ ground arith;
  fits = l;
  outside = λ j a. f.above j (omega (arith, a, l)) ∙ ground arith;
}

length-somes : (f : ℕ → Option PartitionEntry) (i n : ℕ) → length (somes f i n) ≤ n
unfolding somes
length-somes f i zero = omega arith
length-somes f i (suc n) = elim (Option-cases (f i)) [
  | inl e ↦ rw (e, somes) (let h = length-somes f (i + 1) n in omega (arith, h))
  | inr (x, e) ↦ rw (e, somes) (let h = length-somes f (i + 1) n in omega (arith, h))
]

four-le : (n : ℕ) → at_most_four n ≤ n
four-le n = ground arith

-- The scan of an MBR into a table of at least one entry answers -1 if the first sector cannot be
-- read, and 0 without the boot signature, and leaves the table blank; otherwise it answers the
-- number of entries with a kind and a size among the first four, or fewer if the table has fewer,
-- and stores those in order at the beginning of the table, which is blank behind them. It stores
-- nothing outside the table.
pub partition_scan_mbr_lem :
    (read : ℕ → Option (ℕ → ℕ)) (n : ℕ) (out : ℕ → PartitionEntry)
    → 1 ≤ n
    → let r = partition_scan_mbr read (pos n) out in
      ((read 0 ≡ none) × (r.0 ≡ negsuc 0) × Holds n [] out r.1)
      ⊎ ((b : ℕ → ℕ) × (read 0 ≡ some b)
          × (((¬ Signed b) × (r.0 ≡ pos 0) × Holds n [] out r.1)
              ⊎ (Signed b
                  × ((es : List PartitionEntry) × Selected
                        (MbrUsed b)
                        (MbrUnused b)
                        0
                        (if ltb n 4 then n else 4)
                        es
                      × (r.0 ≡ pos (length es))
                      × Holds n es out r.1))))
unfolding partition_scan_mbr
partition_scan_mbr_lem read n out h =
    let g : ltb_ℤ (pos n) (pos 1) ≡ false = ground arith in
    let blank =
      Filled-Holds n [] out (cleared n out) (omega arith) (nothing-Filled 0 (cleared n out)) in
    elim (Option-cases (read 0)) [
      | inl e ↦ inl (e, rw (g, e) refl, rw (g, e) blank)
      | inr (b, e) ↦ inr (
        b,
        e,
        elim (Bool-cases (has_signature b)) [
          | inr k ↦ inl ((λ z. ground (arith, z)), rw (g, e, k) refl, rw (g, e, k) blank)
          | inl k ↦
              let m = mbr_entries_lem b (at_most_four n) 0 0 (cleared n out) in
              let es = somes (mbr_entry b) 0 (at_most_four n) in
              let short = length-somes (mbr_entry b) 0 (at_most_four n) in
              let fits : length es ≤ n = omega (arith, short, four-le n) in
              inr (
                (ground arith, ground arith),
                (
                  es,
                  somes-Selected (MbrUsed b) (MbrUnused b) (mbr_entry b) 0 (at_most_four n)
                      (λ j l. mbr_entry-MbrUnused b j) (λ j e l. mbr_entry-MbrUsed b j e),
                  rw (g, e, k) (ap pos (m.0 ∙ omega arith)),
                  rw (g, e, k) (Filled-Holds n es out _ fits m.1),
                ),
              )
        ],
      )
    ]

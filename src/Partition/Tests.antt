-- ===== src/Partition/Tests.antt =====
-- kernel/partition.c: runs on two small disks.
use neuro_spark.Prelude.{
  ℕ, ◌≡◌, refl, ◌⊎◌, true, arith, ltb, ◌==◌, Option, none, some, List, [], ◌∷◌, length, update,
  if◌then◌else◌,
}
use neuro_spark.Prelude.Int.{pos, negsuc}
use neuro_spark.Partition.{
  PartitionEntry, blank_entry, mbr_entry, mbr_entries, partition_scan_mbr, GptHeader, gpt_header,
  gpt_entry, gpt_entries, zero_bytes, guid_is_zero, scan_gpt, partition_scan_gpt,
}
use neuro_spark.Partition.Reference.{Selected, Holds, Signed, MbrUsed, MbrUnused}
use neuro_spark.Partition.Collect.{listed}
use neuro_spark.Partition.Scans.{partition_scan_mbr_lem}

-- Entries 1 and 3 are used.
abbrev boot_bytes : ℕ → ℕ
boot_bytes =
    update
      (update (update (update (update (update (λ k. 0) 510 0x55) 511 0xAA) 466 0x83) 474 5) 498 7)
      506 9

-- They start at the sectors 2 and 4.
abbrev disk_bytes : ℕ → ℕ
disk_bytes = update (update boot_bytes 470 2) 502 4

abbrev mbr_disk : ℕ → Option (ℕ → ℕ)
mbr_disk lba = if lba == 0 then some disk_bytes else none

abbrev unused : ℕ → PartitionEntry
unused k = record { valid = true; kind = 9; lba_start = 9; sector_count = 9 }

mbr_listed :
    listed (partition_scan_mbr mbr_disk (pos 4) unused).1 0 3
    ≡ record { valid = true; kind = 0x83; lba_start = 2; sector_count = 5 }
      ∷ record { valid = true; kind = 7; lba_start = 4; sector_count = 9 }
      ∷ blank_entry
      ∷ []
unfolding partition_scan_mbr mbr_entries mbr_entry
mbr_listed = refl

-- Only the first three entries are looked at.
mbr_count : (partition_scan_mbr mbr_disk (pos 3) unused).0 ≡ pos 1
unfolding partition_scan_mbr mbr_entries mbr_entry
mbr_count = refl

partition_scan_mbr_lem_example :
    let r = partition_scan_mbr mbr_disk (pos 4) unused in
    ((mbr_disk 0 ≡ none) × (r.0 ≡ negsuc 0) × Holds 4 [] unused r.1)
    ⊎ ((b : ℕ → ℕ) × (mbr_disk 0 ≡ some b)
        × (((¬ Signed b) × (r.0 ≡ pos 0) × Holds 4 [] unused r.1)
            ⊎ (Signed b
                × ((es : List PartitionEntry) × Selected
                      (MbrUsed b)
                      (MbrUnused b)
                      0
                      (if ltb 4 4 then 4 else 4)
                      es
                    × (r.0 ≡ pos (length es))
                    × Holds 4 es unused r.1))))
partition_scan_mbr_lem_example = partition_scan_mbr_lem mbr_disk 4 unused (omega arith)

-- "EFI PART", with 3 entries of 128 bytes from sector 2 on.
abbrev header_bytes : ℕ → ℕ
header_bytes =
    update
      (update
        (update
          (update
            (update
              (update (update (update (update (update (update (λ k. 0) 0 69) 1 70) 2 73) 3 32) 4 80)
                5 65)
              6 82)
            7 84)
          72 2)
        80 3)
      84 128

-- Entry 1 goes from sector 40 to 49.
abbrev table_bytes : ℕ → ℕ
table_bytes = update (update (update (λ k. 0) 144 1) 160 40) 168 49

abbrev gpt_disk : ℕ → Option (ℕ → ℕ)
gpt_disk lba =
    if lba == 0 then some disk_bytes else if lba == 1 then some header_bytes else some table_bytes

abbrev header : GptHeader
header = record { entry_lba = 2; entry_count = 3; entry_size = 128 }

gpt_entries_found :
    listed (partition_scan_gpt gpt_disk (pos 4) unused).1 0 2
    ≡ record { valid = true; kind = 0xEE; lba_start = 40; sector_count = 10 } ∷ blank_entry ∷ []
unfolding partition_scan_gpt scan_gpt gpt_header gpt_entries gpt_entry guid_is_zero zero_bytes
gpt_entries_found = refl

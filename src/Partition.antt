-- ===== src/Partition.antt =====
-- kernel/partition.c: the scans of the two kinds of partition table. The drive is a function from
-- sectors to their bytes, each below 256, where `none` is any status but `DISK_IO_OK`; what the
-- source reads behind the 512 bytes of a sector is what that function says there.
pub mod Collect
pub mod Reference
pub mod Scans
mod Tests
use neuro_spark.Prelude.{
  ℕ, zero, suc, ◌+◌, ◌-◌, ◌*◌, ◌/◌, ◌%◌, ◌^◌, Bool, true, false, ◌&&◌, ◌||◌, not, Option, none,
  some, List, [], ◌∷◌, ltb, ◌==◌, if◌then◌else◌, update,
}
use neuro_spark.Prelude.Int.{ℤ, pos, negsuc, pos_part, ltb_ℤ}

abbrev pub partition_max_entries : ℕ
partition_max_entries = 4

pub record PartitionEntry : Type 0 where
  pub valid : Bool
  pub kind : ℕ
  pub lba_start : ℕ
  pub sector_count : ℕ

-- The pieces do not overlap, so that `|` is the sum.
abbrev pub read_le32 : (ℕ → ℕ) → ℕ → ℕ
read_le32 b p = b p + b (p + 1) * 2 ^ 8 + b (p + 2) * 2 ^ 16 + b (p + 3) * 2 ^ 24

abbrev pub read_le64 : (ℕ → ℕ) → ℕ → ℕ
read_le64 b p = read_le32 b p + read_le32 b (p + 4) * 2 ^ 32

-- The `n` bytes from `p` on are zero.
unfoldable pub zero_bytes : (ℕ → ℕ) → ℕ → ℕ → Bool
zero_bytes b p zero = true
zero_bytes b p (suc n) = b p == 0 && zero_bytes b (p + 1) n

unfoldable pub guid_is_zero : (ℕ → ℕ) → ℕ → Bool
guid_is_zero b p = zero_bytes b p 16

abbrev pub blank_entry : PartitionEntry
blank_entry = record { valid = false; kind = 0; lba_start = 0; sector_count = 0 }

-- The first loop of both scans.
abbrev pub cleared : ℕ → (ℕ → PartitionEntry) → ℕ → PartitionEntry
cleared n out k = if ltb k n then blank_entry else out k

abbrev pub has_signature : (ℕ → ℕ) → Bool
has_signature b = b 510 == 0x55 && b 511 == 0xAA

-- What the body of the loop stores for entry `i`; `none` is `continue`.
unfoldable pub mbr_entry : (ℕ → ℕ) → ℕ → Option PartitionEntry
mbr_entry b i =
    let off = 446 + i * 16 in
    let kind = b (off + 4) in
    let sectors = read_le32 b (off + 12) in
    if kind == 0 || sectors == 0
    then none
    else some (record {
      valid = true;
      kind = kind;
      lba_start = read_le32 b (off + 8);
      sector_count = sectors;
    })

-- The loop, for `left` entries from `i` on.
unfoldable pub mbr_entries : (ℕ → ℕ) → ℕ → ℕ → ℕ → (ℕ → PartitionEntry) → ℕ × (ℕ → PartitionEntry)
mbr_entries b zero i count out = (count, out)
mbr_entries b (suc left) i count out = elim (mbr_entry b i) [
  | none ↦ mbr_entries b left (i + 1) count out
  | some e ↦ mbr_entries b left (i + 1) (count + 1) (update out count e)
]

-- `PARTITION_MAX_ENTRIES` or fewer.
abbrev pub at_most_four : ℕ → ℕ
at_most_four n = if ltb n partition_max_entries then n else partition_max_entries

unfoldable pub partition_scan_mbr :
    (ℕ → Option (ℕ → ℕ)) → ℤ → (ℕ → PartitionEntry) → ℤ × (ℕ → PartitionEntry)
partition_scan_mbr read max_entries out =
    let n = pos_part max_entries in
    let answer : ℤ × (ℕ → PartitionEntry) = elim (read 0) [
      | none ↦ (negsuc 0, cleared n out)
      | some b ↦
          let (count, filled) = mbr_entries b (at_most_four n) 0 0 (cleared n out) in
          if has_signature b then (pos count, filled) else (pos 0, cleared n out)
    ] in
    if ltb_ℤ max_entries (pos 1) then (negsuc 0, out) else answer

pub record GptHeader : Type 0 where
  pub entry_lba : ℕ
  pub entry_count : ℕ
  pub entry_size : ℕ

-- "EFI PART", and a size that fits a sector; `none` is `return 0`.
unfoldable pub gpt_header : (ℕ → ℕ) → Option GptHeader
gpt_header b =
    let size = read_le32 b 84 in
    let signed =
      b 0 == 69
      && b 1 == 70
      && b 2 == 73
      && b 3 == 32
      && b 4 == 80
      && b 5 == 65
      && b 6 == 82
      && b 7 == 84 in
    if signed && not (size == 0) && not (512 / size == 0)
    then some
        (record { entry_lba = read_le32 b 72; entry_count = read_le32 b 80; entry_size = size })
    else none

-- The sector that holds entry `i`; the sum wraps on 32 bits.
abbrev pub sector_of : GptHeader → ℕ → ℕ
sector_of h i = (h.entry_lba + i / (512 / h.entry_size)) % 2 ^ 32

-- What the body of the loop stores for entry `i` of a sector that was read; `none` is `continue`.
unfoldable pub gpt_entry : GptHeader → (ℕ → ℕ) → ℕ → Option PartitionEntry
gpt_entry h b i =
    let off = i % (512 / h.entry_size) * h.entry_size in
    let first = read_le64 b (off + 32) in
    let last = read_le64 b (off + 40) in
    if guid_is_zero b (off + 16) || ltb last first
    then none
    else some (record {
      valid = true;
      kind = 0xEE;
      lba_start = first % 2 ^ 32;
      sector_count = (last - first + 1) % 2 ^ 32;
    })

-- The loop, for `left` entries from `i` on.
unfoldable pub gpt_entries :
    (ℕ → Option (ℕ → ℕ))
    → GptHeader
    → ℕ
    → ℕ
    → ℕ
    → ℕ
    → (ℕ → PartitionEntry)
    → ℤ × (ℕ → PartitionEntry)
gpt_entries read h n zero i count out = (pos count, out)
gpt_entries read h n (suc left) i count out =
    let step : ℤ × (ℕ → PartitionEntry) = elim (read (sector_of h i)) [
      | none ↦ (negsuc 0, out)
      | some b ↦ elim (gpt_entry h b i) [
        | none ↦ gpt_entries read h n left (i + 1) count out
        | some e ↦ gpt_entries read h n left (i + 1) (count + 1) (update out count e)
      ]
    ] in
    if ltb count n then step else (pos count, out)

-- From the sector of the header on.
unfoldable pub scan_gpt : (ℕ → Option (ℕ → ℕ)) → ℕ → (ℕ → PartitionEntry) → ℤ × (ℕ → PartitionEntry)
scan_gpt read n out = elim (read 1) [
  | none ↦ (negsuc 0, out)
  | some b ↦ elim (gpt_header b) [
    | none ↦ (pos 0, out)
    | some h ↦ gpt_entries read h n h.entry_count 0 0 out
  ]
]

unfoldable pub partition_scan_gpt :
    (ℕ → Option (ℕ → ℕ)) → ℤ → (ℕ → PartitionEntry) → ℤ × (ℕ → PartitionEntry)
partition_scan_gpt read max_entries out =
    let n = pos_part max_entries in
    let answer : ℤ × (ℕ → PartitionEntry) = elim (read 0) [
      | none ↦ (negsuc 0, cleared n out)
      | some b ↦ if has_signature b then scan_gpt read n (cleared n out) else (pos 0, cleared n out)
    ] in
    if ltb_ℤ max_entries (pos 1) then (negsuc 0, out) else answer

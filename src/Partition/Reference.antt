-- ===== src/Partition/Reference.antt =====
-- kernel/partition.c: what the two tables say, read off the bytes of the disk.
use neuro_spark.Prelude.{
  ℕ, zero, suc, ◌+◌, ◌-◌, ◌*◌, ◌/◌, ◌%◌, ◌^◌, ◌<◌, ◌≤◌, ◌≡◌, ◌≢◌, refl, ap, sym, ◌∙◌, ◌⊎◌, inl, inr,
  true, false, arith, ◌==◌, Option, none, some, List, [], ◌∷◌, length, Option-cases, Bool-cases,
}
use native.Mathlib.Nat.{le-div_iff_mul-le}
use neuro_spark.Partition.{
  PartitionEntry, read_le32, read_le64, zero_bytes, guid_is_zero, mbr_entry, GptHeader, gpt_header,
  sector_of, gpt_entry,
}
use neuro_spark.Partition.Collect.{listed, somes, entry_on}

-- The number in the `n` bytes from `p` on, the lowest byte first.
unfoldable pub little : (ℕ → ℕ) → ℕ → ℕ → ℕ
little b p zero = 0
little b p (suc n) = little b p n + b (p + n) * 256 ^ n

read_le32_lem : (b : ℕ → ℕ) (p : ℕ) → read_le32 b p ≡ little b p 4
unfolding little
read_le32_lem b p = let z : b (p + 0) ≡ b p = ap b (omega arith) in omega (arith, z)

read_le64_lem : (b : ℕ → ℕ) (p : ℕ) → read_le64 b p ≡ little b p 8
unfolding little
read_le64_lem b p =
    let z : b (p + 0) ≡ b p = ap b (omega arith) in
    let x : b (p + 4 + 1) ≡ b (p + 5) = ap b (omega arith) in
    let y : b (p + 4 + 2) ≡ b (p + 6) = ap b (omega arith) in
    let w : b (p + 4 + 3) ≡ b (p + 7) = ap b (omega arith) in omega (arith, z, x, y, w)

-- Of the `n` places from `i` on, the list holds the entries of those that are used, in order.
abbrev pub Selected :
    (ℕ → PartitionEntry → Type 0) → (ℕ → Type 0) → ℕ → ℕ → List PartitionEntry → Type 0
Selected Used Unused i zero es = es ≡ []
Selected Used Unused i (suc n) es =
    (Unused i × Selected Used Unused (i + 1) n es)
    ⊎ ((e : PartitionEntry) × (rest : List PartitionEntry) × Used i e
        × (es ≡ e ∷ rest)
        × Selected Used Unused (i + 1) n rest)

pub somes-Selected :
    (Used : ℕ → PartitionEntry → Type 0) (Unused : ℕ → Type 0) (f : ℕ → Option PartitionEntry)
    (i n : ℕ)
    → ((j : ℕ) → j < i + n → f j ≡ none → Unused j)
    → ((j : ℕ) (e : PartitionEntry) → j < i + n → f j ≡ some e → Used j e)
    → Selected Used Unused i n (somes f i n)
unfolding somes
somes-Selected Used Unused f i zero a b = refl
somes-Selected Used Unused f i (suc n) a b =
    let rest =
      somes-Selected Used Unused f (i + 1) n (λ j l. a j (omega arith))
        (λ j e l. b j e (omega arith)) in
    elim (Option-cases (f i)) [
      | inl e ↦ rw (e, somes) (inl (a i (omega arith) e, rest))
      | inr (x, e) ↦ rw (e, somes) (inr (x, somes f (i + 1) n, b i x (omega arith) e, refl, rest))
    ]

-- The `n` entries of the table: `es` at the beginning and no entry behind them.
pub record Holds (n : ℕ) (es : List PartitionEntry) (before after : ℕ → PartitionEntry)
    : Type 0 where
  pub stored : listed after 0 (length es) ≡ es
  pub blank :
      (j : ℕ)
      → length es ≤ j
      → j < n
      → after j ≡ record { valid = false; kind = 0; lba_start = 0; sector_count = 0 }
  pub fits : length es ≤ n
  pub outside : (j : ℕ) → n ≤ j → after j ≡ before j

abbrev pub Signed : (ℕ → ℕ) → Type 0
Signed b = (b 510 ≡ 0x55) × (b 511 ≡ 0xAA)

-- Entry `i` of the boot sector has a kind and a size.
pub MbrUsed : (ℕ → ℕ) → ℕ → PartitionEntry → Type 0
MbrUsed b i e =
    let at = 446 + 16 * i in
    (b (at + 4) ≢ 0)
    × (little b (at + 12) 4 ≢ 0)
    × (e ≡ record {
      valid = true;
      kind = b (at + 4);
      lba_start = little b (at + 8) 4;
      sector_count = little b (at + 12) 4;
    })

pub MbrUnused : (ℕ → ℕ) → ℕ → Type 0
MbrUnused b i = let at = 446 + 16 * i in (b (at + 4) ≡ 0) ⊎ (little b (at + 12) 4 ≡ 0)

pub mbr_entry-MbrUnused : (b : ℕ → ℕ) (i : ℕ) → mbr_entry b i ≡ none → MbrUnused b i
unfolding mbr_entry MbrUnused
mbr_entry-MbrUnused b i e =
    let c : 446 + i * 16 ≡ 446 + 16 * i = omega arith in
    let l = read_le32_lem b (446 + 16 * i + 12) in let e' = rw c at e in ground (arith, l, e')

pub mbr_entry-MbrUsed :
    (b : ℕ → ℕ) (i : ℕ) (e : PartitionEntry) → mbr_entry b i ≡ some e → MbrUsed b i e
unfolding mbr_entry MbrUsed
mbr_entry-MbrUsed b i e h =
    let c : 446 + i * 16 ≡ 446 + 16 * i = omega arith in
    let l = read_le32_lem b (446 + 16 * i + 12) in
    let m = read_le32_lem b (446 + 16 * i + 8) in
    let h' = rw c at h in
    (ground (arith, l, m, h'), ground (arith, l, m, h'), ground (arith, l, m, h'))

-- "EFI PART", and where the entries are.
pub record IsGptHeader (b : ℕ → ℕ) (h : GptHeader) : Type 0 where
  pub efi : (b 0 ≡ b'E') × (b 1 ≡ b'F') × (b 2 ≡ b'I') × (b 3 ≡ b' ')
  pub part : (b 4 ≡ b'P') × (b 5 ≡ b'A') × (b 6 ≡ b'R') × (b 7 ≡ b'T')
  pub lba_at : h.entry_lba ≡ little b 72 4
  pub count_at : h.entry_count ≡ little b 80 4
  pub size_at : h.entry_size ≡ little b 84 4
  pub not_empty : 0 < h.entry_size
  pub in_sector : h.entry_size ≤ 512

pub IsGptHeader-gpt_header : (b : ℕ → ℕ) (h : GptHeader) → IsGptHeader b h → gpt_header b ≡ some h
unfolding gpt_header
IsGptHeader-gpt_header b h v =
    let lba : read_le32 b 72 ≡ h.entry_lba = read_le32_lem b 72 ∙ sym v.lba_at in
    let count : read_le32 b 80 ≡ h.entry_count = read_le32_lem b 80 ∙ sym v.count_at in
    let size : read_le32 b 84 ≡ h.entry_size = read_le32_lem b 84 ∙ sym v.size_at in
    let some_fit : 1 ≤ 512 / h.entry_size =
      (le-div_iff_mul-le v.not_empty).1 (let k = v.in_sector in omega (arith, k)) in
    let fits : 1 ≤ 512 / read_le32 b 84 = rw size some_fit in
    let filled = v.not_empty in ground (arith, v.efi, v.part, lba, count, size, fits, filled)

-- The bytes of the sector that holds entry `i`, and where it starts in them.
abbrev pub EntryAt : (ℕ → Option (ℕ → ℕ)) → GptHeader → ℕ → (ℕ → ℕ) → ℕ → Type 0
EntryAt read h i b at =
    let per_sector = 512 / h.entry_size in
    (read ((h.entry_lba + i / per_sector) % 2 ^ 32) ≡ some b) × (at ≡ i % per_sector * h.entry_size)

-- Its kind is not zero, and its sectors are in order.
pub GptUsed : (ℕ → Option (ℕ → ℕ)) → GptHeader → ℕ → PartitionEntry → Type 0
GptUsed read h i e =
    (b : ℕ → ℕ) × (at : ℕ) × EntryAt read h i b at
    × ((k : ℕ) × (k < 16) × (b (at + 16 + k) ≢ 0))
    × (little b (at + 32) 8 ≤ little b (at + 40) 8)
    × (e ≡ record {
      valid = true;
      kind = 0xEE;
      lba_start = little b (at + 32) 8 % 2 ^ 32;
      sector_count = (little b (at + 40) 8 - little b (at + 32) 8 + 1) % 2 ^ 32;
    })

pub GptUnused : (ℕ → Option (ℕ → ℕ)) → GptHeader → ℕ → Type 0
GptUnused read h i =
    (b : ℕ → ℕ) × (at : ℕ) × EntryAt read h i b at
    × (((k : ℕ) → k < 16 → b (at + 16 + k) ≡ 0) ⊎ (little b (at + 40) 8 < little b (at + 32) 8))

zero_bytes-all : (b : ℕ → ℕ) (p n : ℕ) → zero_bytes b p n ≡ true → (k : ℕ) → k < n → b (p + k) ≡ 0
unfolding zero_bytes
zero_bytes-all b p zero e k l = absurd (omega arith)
zero_bytes-all b p (suc n) e zero l = let q : p + 0 ≡ p = omega arith in rw q (ground arith)
zero_bytes-all b p (suc n) e (suc k) l =
    let q : p + suc k ≡ p + 1 + k = omega arith in
    rw q (zero_bytes-all b (p + 1) n (ground arith) k (omega arith))

zero_bytes-some :
    (b : ℕ → ℕ) (p n : ℕ) → zero_bytes b p n ≡ false → (k : ℕ) × (k < n) × (b (p + k) ≢ 0)
unfolding zero_bytes
zero_bytes-some b p zero e = absurd (cc)
zero_bytes-some b p (suc n) e = elim (Bool-cases (b p == 0)) [
  | inl z ↦
      let (k, l, ne) = zero_bytes-some b (p + 1) n (ground arith) in
      let q : p + suc k ≡ p + 1 + k = omega arith in (suc k, omega arith, rw q ne)
  | inr z ↦ let q : p + 0 ≡ p = omega arith in (0, omega arith, rw q (ground arith))
]

pub entry_on-GptUnused :
    (read : ℕ → Option (ℕ → ℕ)) (h : GptHeader) (i : ℕ)
    → ((b : ℕ → ℕ) × (read (sector_of h i) ≡ some b))
    → entry_on read h i ≡ none
    → GptUnused read h i
unfolding gpt_entry guid_is_zero GptUnused
entry_on-GptUnused read h i (b, r) e =
    let at = i % (512 / h.entry_size) * h.entry_size in
    let e' : gpt_entry h b i ≡ none = rw (r, entry_on) at e in
    let first = read_le64_lem b (at + 32) in
    let last = read_le64_lem b (at + 40) in
    (
      b,
      at,
      (r, refl),
      elim (Bool-cases (zero_bytes b (at + 16) 16)) [
        | inl z ↦ inl (zero_bytes-all b (at + 16) 16 z)
        | inr z ↦ inr (ground (arith, e', first, last))
      ],
    )

pub entry_on-GptUsed :
    (read : ℕ → Option (ℕ → ℕ)) (h : GptHeader) (i : ℕ) (e : PartitionEntry)
    → ((b : ℕ → ℕ) × (read (sector_of h i) ≡ some b))
    → entry_on read h i ≡ some e
    → GptUsed read h i e
unfolding gpt_entry guid_is_zero GptUsed
entry_on-GptUsed read h i e (b, r) q =
    let at = i % (512 / h.entry_size) * h.entry_size in
    let q' : gpt_entry h b i ≡ some e = rw (r, entry_on) at q in
    let first = read_le64_lem b (at + 32) in
    let last = read_le64_lem b (at + 40) in
    let filled : zero_bytes b (at + 16) 16 ≡ false = ground arith in
    (
      b,
      at,
      (r, refl),
      zero_bytes-some b (at + 16) 16 filled,
      ground (arith, q', first, last),
      ground (arith, q', first, last),
    )

-- ===== src/RemoteAuth/Transfer.antt =====
-- kernel/remote_auth.c: the four transfers that can be under way.
use neuro_spark.Prelude.{
  ℕ, zero, suc, ◌+◌, ◌<◌, ◌≡◌, ap, ◌≢◌, inl, inr, Bool, true, false, ◌&&◌, not, arith, List, [],
  ◌∷◌, Option, none, some, ltb, ◌==◌, if◌then◌else◌, update, update_ne, find_index, find_index-some,
  find_index-none, find_index-congr, find_index-head, add32, Option-cases,
}

abbrev pub max_transfers : ℕ
max_transfers = 4

pub record Transfer : Type 0 where
  pub active : Bool
  pub transfer_id : ℕ
  pub total_len : ℕ
  pub received_len : ℕ
  pub checksum : ℕ
  pub last_chunk_index : ℕ

-- `transfer_states`.
abbrev pub Transfers : Type 0
Transfers = ℕ → Transfer

abbrev pub first_free : Transfers → Option ℕ
first_free t = find_index (λ i. not (t i).active) max_transfers 0

-- If every slot is in use, slot 0 is taken over.
abbrev pub begin_slot : Option ℕ → ℕ
begin_slot none = 0
begin_slot (some i) = i

pub remote_transfer_begin : ℕ → ℕ → ℕ → Transfers → Transfers
remote_transfer_begin id total checksum t = update t (begin_slot (first_free t)) (record {
  active = true;
  transfer_id = id;
  total_len = total;
  received_len = 0;
  checksum = checksum;
  last_chunk_index = 0;
})

abbrev pub is_transfer : Transfers → ℕ → ℕ → Bool
is_transfer t id i = (t i).active && (t i).transfer_id == id

-- The loop that four functions share.
pub find_transfer : Transfers → ℕ → Option ℕ
find_transfer t id = find_index (is_transfer t id) max_transfers 0

pub progress_at : ℕ → ℕ → Transfers → Option ℕ → Transfers
progress_at chunk_index chunk_len t none = t
progress_at chunk_index chunk_len t (some i) = update t i (record (t i) {
  received_len = add32 (t i).received_len chunk_len;
  last_chunk_index = chunk_index;
})

pub remote_transfer_progress : ℕ → ℕ → ℕ → Transfers → Transfers
unfolding find_transfer progress_at
remote_transfer_progress id chunk_index chunk_len t =
    progress_at chunk_index chunk_len t (find_transfer t id)

abbrev pub resumable : Transfers → Option ℕ → Bool
resumable t none = false
resumable t (some i) = ltb (t i).received_len (t i).total_len

pub remote_transfer_can_resume : ℕ → Transfers → Bool
unfolding find_transfer
remote_transfer_can_resume id t = resumable t (find_transfer t id)

abbrev pub received : Transfers → Option ℕ → ℕ
received t none = 0
received t (some i) = (t i).received_len

pub remote_transfer_resume_offset : ℕ → Transfers → ℕ
unfolding find_transfer
remote_transfer_resume_offset id t = received t (find_transfer t id)

pub complete_at : Transfers → Option ℕ → Transfers
complete_at t none = t
complete_at t (some i) = update t i (record (t i) { active = false })

pub remote_transfer_complete : ℕ → Transfers → Transfers
unfolding find_transfer complete_at
remote_transfer_complete id t = complete_at t (find_transfer t id)

-- The loop of `remote_transfer_get_states`, with room for `room` transfers, `n` slots from `i` on.
pub collect : ℕ → ℕ → ℕ → Transfers → List Transfer
collect room zero i t = []
collect zero (suc n) i t = []
collect (suc room) (suc n) i t =
    if (t i).active then t i ∷ collect room n (i + 1) t else collect (suc room) n (i + 1) t

pub remote_transfer_get_states : ℕ → Transfers → List Transfer
unfolding collect
remote_transfer_get_states max t = collect max max_transfers 0 t

-- No two transfers under way have the same number.
abbrev pub AreDistinct : Transfers → Type 0
AreDistinct t =
    (i j : ℕ)
    → i < 4
    → j < 4
    → (t i).active ≡ true
    → (t j).active ≡ true
    → (t i).transfer_id ≡ (t j).transfer_id
    → i ≡ j

-- With distinct numbers, the search finds whatever slot holds the number.
find_transfer-eq :
    (t : Transfers) (id i : ℕ)
    → AreDistinct t
    → i < 4
    → is_transfer t id i ≡ true
    → find_transfer t id ≡ some i
unfolding find_transfer
find_transfer-eq t id i d h e = elim (Option-cases (find_index (is_transfer t id) 4 0)) [
  | inl n ↦ let f = find_index-none (is_transfer t id) 4 0 n i (omega arith) (omega arith) in cc
  | inr (k, q) ↦
      let f = find_index-some (is_transfer t id) 4 0 q in
      let k_lt : k < 4 = omega arith in
      let g = f.2 in
      let same : k ≡ i = d k i k_lt h (ground arith) (ground arith) (ground arith) in rw (← same) q
]

begin_slot-lt : (t : Transfers) → begin_slot (first_free t) < 4
begin_slot-lt t = elim (Option-cases (first_free t)) [
  | inl n ↦ rw n (omega arith)
  | inr (k, q) ↦ let f = find_index-some (λ i. not (t i).active) 4 0 q in rw q (omega arith)
]

-- A transfer with a number that none under way has starts with nothing received, can be resumed
-- if it has any length, and leaves all numbers distinct.
transfer_begin_lem :
    (id total checksum : ℕ) (t : Transfers)
    → AreDistinct t
    → ((i : ℕ) → i < 4 → is_transfer t id i ≡ false)
    → let t' = remote_transfer_begin id total checksum t in
      AreDistinct t'
      × (remote_transfer_resume_offset id t' ≡ 0)
      × (remote_transfer_can_resume id t' ≡ ltb 0 total)
unfolding remote_transfer_begin remote_transfer_resume_offset remote_transfer_can_resume
transfer_begin_lem id total checksum t d new =
    let k = begin_slot (first_free t) in
    let k_lt : k < 4 = begin_slot-lt t in
    let t' = remote_transfer_begin id total checksum t in
    let distinct : AreDistinct t' = λ i j a b p q e. ground (arith, d i j, new i, new j) in
    let found : find_transfer t' id ≡ some k =
      find_transfer-eq t' id k distinct k_lt (ground arith) in
    (distinct, rw found (ground arith), rw found (ground arith))

-- A change of a slot that is of no other number leaves the other numbers' offset alone.
resume_offset-other :
    (t : Transfers) (i : ℕ) (x : Transfer) (other : ℕ)
    → is_transfer t other i ≡ false
    → is_transfer (update t i x) other i ≡ false
    → remote_transfer_resume_offset other (update t i x) ≡ remote_transfer_resume_offset other t
unfolding remote_transfer_resume_offset find_transfer
resume_offset-other t i x other a b =
    let t' = update t i x in
    let same : find_transfer t' other ≡ find_transfer t other =
      find_index-congr (is_transfer t' other) (is_transfer t other) 4 0 (λ j p q. ground arith) in
    elim (Option-cases (find_transfer t other)) [
      | inl n ↦ rw (same, n)
      | inr (k, q) ↦
          let f = find_index-some (is_transfer t other) 4 0 q in
          let ne : i ≢ k = λ e. ground (arith, f.2) in
          rw (same, q) (ap (λ b. b.received_len) (update_ne t i k x ne))
    ]

-- If the numbers are distinct and the transfer is under way, a chunk adds its length to what is
-- received of it, on 32 bits; the other transfers' offsets stay, and so do the distinct numbers.
transfer_progress_lem :
    (id chunk_index chunk_len i : ℕ) (t : Transfers)
    → AreDistinct t
    → i < 4
    → is_transfer t id i ≡ true
    → let t' = remote_transfer_progress id chunk_index chunk_len t in
      AreDistinct t'
      × (remote_transfer_resume_offset id t' ≡ add32 (remote_transfer_resume_offset id t) chunk_len)
      × ((other : ℕ)
          → id ≢ other
          → remote_transfer_resume_offset other t' ≡ remote_transfer_resume_offset other t)
unfolding remote_transfer_progress remote_transfer_resume_offset progress_at
transfer_progress_lem id chunk_index chunk_len i t d h e =
    let at = find_transfer-eq t id i d h e in
    let x = record (t i) {
      received_len = add32 (t i).received_len chunk_len;
      last_chunk_index = chunk_index;
    } in
    let t' = update t i x in
    let distinct : AreDistinct t' = λ j k a b p q r. ground (arith, d j k) in
    let at' : find_transfer t' id ≡ some i = find_transfer-eq t' id i distinct h (ground arith) in
    rw at (
      distinct,
      rw at' (ground arith),
      λ other n. resume_offset-other t i x other (ground arith) (ground arith),
    )

-- If the numbers are distinct, a transfer that is under way is over once it is complete: nothing
-- is left to resume; the other transfers' offsets stay, and so do the distinct numbers.
transfer_complete_lem :
    (id i : ℕ) (t : Transfers)
    → AreDistinct t
    → i < 4
    → is_transfer t id i ≡ true
    → let t' = remote_transfer_complete id t in
      AreDistinct t'
      × (remote_transfer_can_resume id t' ≡ false)
      × (remote_transfer_resume_offset id t' ≡ 0)
      × ((other : ℕ)
          → id ≢ other
          → remote_transfer_resume_offset other t' ≡ remote_transfer_resume_offset other t)
unfolding remote_transfer_complete remote_transfer_resume_offset remote_transfer_can_resume
    complete_at
transfer_complete_lem id i t d h e =
    let at = find_transfer-eq t id i d h e in
    let x = record (t i) { active = false } in
    let t' = update t i x in
    let distinct : AreDistinct t' = λ j k a b p q r. ground (arith, d j k) in
    let gone : find_transfer t' id ≡ none = elim (Option-cases (find_transfer t' id)) [
      | inl n ↦ n
      | inr (k, q) ↦
          let f = find_index-some (is_transfer t' id) 4 0 q in
          let k_lt : k < 4 = omega arith in absurd (ground (arith, f.2, d k i k_lt h))
    ] in
    rw at (
      distinct,
      rw gone,
      rw gone,
      λ other n. resume_offset-other t i x other (ground arith) (ground arith),
    )

-- A number that is started again while it is under way in slot 0 and another slot is free is
-- given a second slot, which no later call finds: the new transfer counts as received what the
-- old one has received.
transfer_begin_shadowed :
    (id total checksum : ℕ) (t : Transfers) (i : ℕ)
    → is_transfer t id 0 ≡ true
    → first_free t ≡ some i
    → let t' = remote_transfer_begin id total checksum t in
      (remote_transfer_resume_offset id t' ≡ (t 0).received_len)
      × (is_transfer t' id i ≡ true)
      × (i ≢ 0)
unfolding remote_transfer_begin remote_transfer_resume_offset find_transfer
transfer_begin_shadowed id total checksum t i h f =
    let g = find_index-some (λ i. not (t i).active) 4 0 f in
    let ne : i ≢ 0 = λ e. ground (arith, g.2) in
    let t' = remote_transfer_begin id total checksum t in
    let first : is_transfer t' id 0 ≡ true = rw f (ground arith) in
    let found : find_transfer t' id ≡ some 0 = find_index-head (is_transfer t' id) 3 0 first in
    (rw found (rw f (ground arith)), rw f (ground arith), ne)

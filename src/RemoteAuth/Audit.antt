-- ===== src/RemoteAuth/Audit.antt =====
-- kernel/remote_auth.c: the audit log, the last 32 entries in a ring.
use neuro_spark.Prelude.{
  ℕ, zero, suc, ◌+◌, ◌-◌, ◌%◌, ◌≤◌, ◌<◌, ◌≡◌, refl, ap, ◌∙◌, arith, List, [], ◌∷◌, ltb, lt→ltb,
  le→ltb, ◌==◌, if◌then◌else◌, update, update_self, update_ne, take, ◌≢◌,
}

abbrev pub audit_ring_size : ℕ
audit_ring_size = 32

pub record AuditEntry : Type 0 where
  pub tick : ℕ
  pub role : ℕ
  pub request_id : ℕ
  pub nonce : ℕ
  pub cmd_hash : ℕ
  pub status : ℕ
  pub rejected : ℕ

pub record Audit : Type 0 where
  pub ring : ℕ → AuditEntry
  pub head : ℕ
  pub count : ℕ

pub remote_audit_log : AuditEntry → Audit → Audit
remote_audit_log e a = record {
  ring = update a.ring a.head e;
  head = (a.head + 1) % audit_ring_size;
  count = if ltb a.count audit_ring_size then a.count + 1 else a.count;
}

-- `current--`, and from 0 to the last cell.
abbrev pub before : ℕ → ℕ
before i = if i == 0 then audit_ring_size - 1 else i - 1

-- The loop of `remote_audit_get`: `n` entries from `current` on, backwards.
abbrev pub read_back : (ℕ → AuditEntry) → ℕ → ℕ → List AuditEntry
read_back ring zero current = []
read_back ring (suc n) current = ring current ∷ read_back ring n (before current)

pub remote_audit_get : ℕ → Audit → List AuditEntry
remote_audit_get max_count a =
    read_back a.ring (if ltb max_count a.count then max_count else a.count) (before a.head)

pub record IsValid (a : Audit) : Type 0 where
  pub head_in : a.head < 32
  pub count_in : a.count ≤ 32

-- What the log holds, the latest entry first.
abbrev pub entries : Audit → List AuditEntry
entries a = read_back a.ring a.count (before a.head)

take-read_back :
    (ring : ℕ → AuditEntry) (m n i : ℕ)
    → take m (read_back ring n i) ≡ read_back ring (if ltb m n then m else n) i
take-read_back ring zero zero i = refl
take-read_back ring zero (suc n) i = rw (lt→ltb 0 (suc n) (omega arith))
take-read_back ring (suc m) zero i = rw (le→ltb (suc m) 0 (omega arith))
take-read_back ring (suc m) (suc n) i =
    ap (λ l. ring i ∷ l) (take-read_back ring m n (before i)) ∙ push_in
  where
    push_in :
        ring i ∷ read_back ring (if ltb m n then m else n) (before i)
        ≡ read_back ring (if ltb (suc m) (suc n) then suc m else suc n) i
    push_in = ground arith

-- The cells that stand less than 32 steps before `i` are not `h`.
read_back-update :
    (ring : ℕ → AuditEntry) (h n i d : ℕ) (e : AuditEntry)
    → h < 32
    → i < 32
    → (h + d) % 32 ≡ i
    → n ≤ d
    → d < 32
    → read_back (update ring h e) n i ≡ read_back ring n i
read_back-update ring h zero i d e a b p q l = refl
read_back-update ring h (suc n) i d e a b p q l =
    let ne : h ≢ i = λ r. omega arith in
    rw (update_ne ring h i e ne) (
      ap (λ t. ring i ∷ t)
        (read_back-update ring h n (before i) (d - 1) e a (ground arith) (ground arith)
          (omega arith) (omega arith)))

-- With head and count in range, the log is the list of the latest 32 entries: `remote_audit_log`
-- puts an entry in front of it, and keeps them in range.
pub audit_log_refines :
    (e : AuditEntry) (a : Audit)
    → IsValid a
    → IsValid (remote_audit_log e a) × (entries (remote_audit_log e a) ≡ take 32 (e ∷ entries a))
unfolding remote_audit_log
audit_log_refines e a v = (
  record { head_in = omega arith; count_in = ground arith },
  rw (back, size, update_self a.ring a.head e, take-read_back a.ring 31 a.count (before a.head))
      (ap (λ l. e ∷ l)
        (read_back-update a.ring a.head kept (before a.head) 31 e v.head_in (ground arith)
          (ground arith) (ground arith) (omega arith))),
)
  where
    kept : ℕ
    kept = if ltb 31 a.count then 31 else a.count

    back : before ((a.head + 1) % 32) ≡ a.head
    back = let h = v.head_in in ground arith

    size : (if ltb a.count 32 then a.count + 1 else a.count) ≡ suc kept
    size = let h = v.count_in in ground arith

-- `remote_audit_get` answers as much of the front of that list as is asked for.
audit_get_refines : (m : ℕ) (a : Audit) → remote_audit_get m a ≡ take m (entries a)
unfolding remote_audit_get
audit_get_refines m a = rw (take-read_back a.ring m a.count (before a.head))

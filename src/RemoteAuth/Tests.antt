-- ===== src/RemoteAuth/Tests.antt =====
-- kernel/remote_auth.c: a console that signs in, logs and transfers.
use neuro_spark.Prelude.{ℕ, ◌+◌, ◌≤◌, ◌≡◌, refl, ◌≢◌, ◌↔◌, true, false, arith, [], ◌∷◌, take}
use neuro_spark.RemoteAuth.{
  Auth, initial, remote_auth_valid, remote_set_auth, remote_clear_auth, remote_set_token,
  remote_checksum32, hash_from,
}
use neuro_spark.RemoteAuth.Session.{IsValid, Step, Reach, cleared_stays, set_auth_lem}
use neuro_spark.RemoteAuth.Audit.{
  Audit, AuditEntry, entries, remote_audit_log, remote_audit_get, audit_log_refines,
}
use neuro_spark.RemoteAuth.Audit

initial-IsValid : IsValid initial
initial-IsValid = record { role_in = (omega arith, omega arith); seq_in = omega arith }

abbrev token : ℕ
token = 77

abbrev ttl : ℕ
ttl = 50

set_auth_lem_example :
    (remote_auth_valid 150 (remote_set_auth 100 token ttl initial) ≡ true)
    ↔ ((token ≢ 0) × (ttl ≢ 0) × (150 ≤ 100 + ttl))
set_auth_lem_example = set_auth_lem 100 150 token ttl initial initial-IsValid (omega arith)

abbrev signed_in : Auth
signed_in = remote_set_auth 100 77 50 initial

cleared_stays_example :
    remote_auth_valid 120 (remote_set_token 88 (remote_clear_auth signed_in)) ≡ false
cleared_stays_example = cleared_stays signed_in 120 (Reach.next 110 Reach.here (Step.sets_token 88))

-- The hash of no bytes and of "a".
run_checksum : (remote_checksum32 [] ≡ 0x811c9dc5) × (remote_checksum32 (97 ∷ []) ≡ 0xe40c292c)
unfolding remote_checksum32 hash_from
run_checksum = (refl, refl)

abbrev entry : ℕ → AuditEntry
entry t = record {
  tick = t;
  role = 1;
  request_id = t;
  nonce = 0;
  cmd_hash = 0;
  status = 0;
  rejected = 0;
}

abbrev no_entries : Audit
no_entries = record { ring = λ _. entry 0; head = 0; count = 0 }

no_entries-IsValid : Audit.IsValid no_entries
no_entries-IsValid = record { head_in = omega arith; count_in = omega arith }

audit_log_refines_example :
    Audit.IsValid (remote_audit_log (entry 5) no_entries)
    × (entries (remote_audit_log (entry 5) no_entries) ≡ take 32 (entry 5 ∷ entries no_entries))
audit_log_refines_example = audit_log_refines (entry 5) no_entries no_entries-IsValid

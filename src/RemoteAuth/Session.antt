-- ===== src/RemoteAuth/Session.antt =====
-- kernel/remote_auth.c: how long an authorization lasts, and which request numbers are given out.
use neuro_spark.Prelude.{
  ℕ, ◌+◌, ◌≤◌, ◌<◌, ◌≡◌, refl, ◌≢◌, ◌↔◌, true, false, arith, ◌==◌, if◌then◌else◌, inc32, u32,
}
use neuro_spark.RemoteAuth.{
  Auth, remote_next_request_id, remote_next_nonce, remote_seed_nonce_state,
  remote_rotate_session_key, remote_get_session, remote_auth_valid, remote_set_token,
  remote_set_auth, remote_clear_auth, remote_set_role,
}

pub record IsValid (s : Auth) : Type 0 where
  pub role_in : (1 ≤ s.role) × (s.role ≤ 3)
  pub seq_in : s.seq < u32

-- Everything that can be done with the state.
pub data Step (now : ℕ) (s : Auth) : Auth → Type 0 where
  seeds : Step now s (remote_seed_nonce_state s)
  asks_id : Step now s (remote_next_request_id s).1
  asks_nonce : (r : ℕ) → Step now s (remote_next_nonce r s).1
  rotates : Step now s (remote_rotate_session_key now s)
  asks_session : Step now s (remote_get_session now s).1
  sets_token : (t : ℕ) → Step now s (remote_set_token t s)
  clears : Step now s (remote_clear_auth s)
  sets_role : (r : ℕ) → Step now s (remote_set_role r s)

-- Steps at any times, none of which is `remote_set_auth`.
pub data Reach (s : Auth) : Auth → Type 0 where
  here : Reach s s
  next : {t u : Auth} (now : ℕ) → Reach s t → Step now t u → Reach s u

set_auth-IsValid :
    (now token ttl : ℕ) (s : Auth) → IsValid s → IsValid (remote_set_auth now token ttl s)
unfolding remote_set_auth remote_rotate_session_key remote_seed_nonce_state
set_auth-IsValid now token ttl s v = record { role_in = v.role_in; seq_in = omega arith }

Step-IsValid : {now : ℕ} {s t : Auth} → Step now s t → IsValid s → IsValid t
unfolding remote_seed_nonce_state remote_next_request_id remote_next_nonce remote_rotate_session_key
    remote_get_session remote_set_token remote_clear_auth remote_set_role
Step-IsValid seeds v = record { role_in = v.role_in; seq_in = v.seq_in }
Step-IsValid asks_id v = record { role_in = ground arith; seq_in = ground arith }
Step-IsValid (asks_nonce r) v = record { role_in = v.role_in; seq_in = v.seq_in }
Step-IsValid rotates v = record { role_in = v.role_in; seq_in = omega arith }
Step-IsValid asks_session v = record { role_in = ground arith; seq_in = ground arith }
Step-IsValid (sets_token t) v = record { role_in = v.role_in; seq_in = v.seq_in }
Step-IsValid clears v = record { role_in = v.role_in; seq_in = v.seq_in }
Step-IsValid (sets_role r) v = record { role_in = ground arith; seq_in = v.seq_in }

Step-deadline : {now : ℕ} {s t : Auth} → Step now s t → s.auth_deadline ≡ 0 → t.auth_deadline ≡ 0
unfolding remote_seed_nonce_state remote_next_request_id remote_next_nonce remote_rotate_session_key
    remote_get_session remote_set_token remote_clear_auth remote_set_role
Step-deadline seeds e = e
Step-deadline asks_id e = ground arith
Step-deadline (asks_nonce r) e = e
Step-deadline rotates e = e
Step-deadline asks_session e = ground arith
Step-deadline (sets_token t) e = e
Step-deadline clears e = refl
Step-deadline (sets_role r) e = e

Reach-deadline : {s t : Auth} → Reach s t → s.auth_deadline ≡ 0 → t.auth_deadline ≡ 0
Reach-deadline here e = e
Reach-deadline (next now r st) e = Step-deadline st (Reach-deadline r e)

Reach-IsValid : {s t : Auth} → Reach s t → IsValid s → IsValid t
Reach-IsValid here v = v
Reach-IsValid (next now r st) v = Step-IsValid st (Reach-IsValid r v)

-- After `remote_clear_auth` nobody is authorized, at any time and whatever is done, until the next
-- `remote_set_auth`: a new token or role alone does not authorize.
pub cleared_stays :
    (s : Auth) {t : Auth} (now : ℕ)
    → Reach (remote_clear_auth s) t
    → remote_auth_valid now t ≡ false
unfolding remote_clear_auth remote_auth_valid
cleared_stays s now r = let e = Reach-deadline r refl in ground arith

-- From a state with a role and a request number in range, and if the deadline does not wrap, a
-- token authorizes up to its last tick, the deadline's own included, and no longer; the token 0
-- and the lifetime 0 never do.
pub set_auth_lem :
    (now later token ttl : ℕ) (s : Auth)
    → IsValid s
    → now + ttl < u32
    → (remote_auth_valid later (remote_set_auth now token ttl s) ≡ true)
      ↔ ((token ≢ 0) × (ttl ≢ 0) × (later ≤ now + ttl))
unfolding remote_auth_valid remote_set_auth remote_rotate_session_key remote_seed_nonce_state
set_auth_lem now later token ttl s v h = let r = v.role_in in ground arith

-- A lifetime that takes the deadline past the 32-bit counter authorizes nobody, not even at the
-- moment of the call.
set_auth_wraps :
    (now token ttl : ℕ) (s : Auth)
    → now < u32
    → ttl < u32
    → u32 ≤ now + ttl
    → remote_auth_valid now (remote_set_auth now token ttl s) ≡ false
unfolding remote_auth_valid remote_set_auth remote_rotate_session_key remote_seed_nonce_state
set_auth_wraps now token ttl s a b h = ground arith

-- If the counter is in range, request numbers are never 0, and two that are given out one after
-- the other, with no new session between them, are consecutive numbers, but that 1 follows the
-- largest.
next_request_id_lem :
    (s : Auth)
    → IsValid s
    → let (r, s') = remote_next_request_id s in
      let (r', s'') = remote_next_request_id s' in
      (r ≢ 0) × (r < u32) × (r' ≡ (if inc32 r == 0 then 1 else inc32 r))
unfolding remote_next_request_id
next_request_id_lem s v = let h = v.seq_in in (ground arith, ground arith, ground arith)

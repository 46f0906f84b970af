-- ===== src/RemoteAuth.antt =====
-- kernel/remote_auth.c: the token, the session and the role of the remote console. `now` is the
-- kernel's `tick`.
pub mod Audit
pub mod Transfer
pub mod Session
mod Tests
use Prim.Native.Nat.{bit_or, bit_xor}
use neuro_spark.Prelude.{
  ℕ, ◌*◌, ◌/◌, ◌%◌, ◌^◌, Bool, true, false, ◌&&◌, not, List, [], ◌∷◌, ltb, leb, ◌==◌, if◌then◌else◌,
  u32, add32, inc32,
}

abbrev pub role_viewer : ℕ
role_viewer = 1

abbrev pub role_admin : ℕ
role_admin = 3

pub record Auth : Type 0 where
  pub token : ℕ
  pub session : ℕ
  pub auth_deadline : ℕ
  pub key_epoch : ℕ
  pub nonce_state : ℕ
  pub seq : ℕ
  pub role : ℕ

abbrev pub initial : Auth
initial = record {
  token = 0;
  session = 0;
  auth_deadline = 0;
  key_epoch = 0;
  nonce_state = 0;
  seq = 1;
  role = role_viewer;
}

pub hash_from : ℕ → List ℕ → ℕ
hash_from hash [] = hash
hash_from hash (b ∷ bytes) = hash_from (bit_xor hash b * 16777619 % u32) bytes

pub remote_checksum32 : List ℕ → ℕ
remote_checksum32 bytes = hash_from 2166136261 bytes

abbrev pub seed_nonce : ℕ → ℕ
seed_nonce n = if n == 0 then 0xa341316c else n

pub remote_seed_nonce_state : Auth → Auth
remote_seed_nonce_state s = record s {
  nonce_state = seed_nonce (bit_xor (bit_xor (bit_xor s.token s.session) s.key_epoch) 0x9e3779b9);
}

pub remote_next_request_id : Auth → ℕ × Auth
remote_next_request_id s =
    let seq' = inc32 s.seq in
    if s.seq == 0 then (seq', record s { seq = inc32 seq' }) else (s.seq, record s { seq = seq' })

-- The three shifts of the generator, on 32 bits.
abbrev pub xorshift : ℕ → ℕ
xorshift n =
    let a = bit_xor n (n * 2 ^ 13 % u32) in
    let b = bit_xor a (a / 2 ^ 17) in bit_xor b (b * 2 ^ 5 % u32)

pub remote_next_nonce : ℕ → Auth → ℕ × Auth
remote_next_nonce request_id s =
    let mixed = bit_xor (xorshift s.nonce_state) request_id in
    let n = if mixed == 0 then bit_xor 0x7f4a7c15 request_id else mixed in
    (n, record s { nonce_state = n })

pub remote_rotate_session_key : ℕ → Auth → Auth
unfolding remote_seed_nonce_state
remote_rotate_session_key now s =
    let base = bit_xor (bit_xor now s.token) (s.key_epoch * 0x45d9f3b % u32) in
    remote_seed_nonce_state
      (record s { key_epoch = inc32 s.key_epoch; session = bit_or base 1; seq = 1 })

pub remote_get_session : ℕ → Auth → ℕ × Auth
unfolding remote_rotate_session_key
remote_get_session now s =
    let s' = remote_rotate_session_key now s in
    if s.session == 0 then (s'.session, s') else (s.session, s)

-- Also `remote_is_authorized`.
pub remote_auth_valid : ℕ → Auth → Bool
remote_auth_valid now s =
    not (s.token == 0)
    && not (s.auth_deadline == 0)
    && not (ltb s.auth_deadline now)
    && not (ltb s.role role_viewer)
    && not (ltb role_admin s.role)

pub remote_set_token : ℕ → Auth → Auth
unfolding remote_seed_nonce_state
remote_set_token token s = remote_seed_nonce_state (record s { token = token })

pub remote_set_auth : ℕ → ℕ → ℕ → Auth → Auth
unfolding remote_rotate_session_key
remote_set_auth now token ttl_ticks s =
    remote_rotate_session_key now (record s {
      token = token;
      auth_deadline = if ttl_ticks == 0 then 0 else add32 now ttl_ticks;
    })

pub remote_clear_auth : Auth → Auth
remote_clear_auth s = record s { auth_deadline = 0; token = 0 }

pub remote_set_role : ℕ → Auth → Auth
remote_set_role role s = record s {
  role =
      if ltb role role_viewer
      then role_viewer
      else if ltb role_admin role
      then role_admin
      else role;
}

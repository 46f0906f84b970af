-- ===== src/Scheduler/Fifo.antt =====
-- kernel/scheduler.c: an IPC channel is a bounded queue, and a wait queue wakes in order.
use native.Mathlib.Decide.{ℕ_discrete}
use neuro_spark.Prelude.{
  ℕ, suc, ◌+◌, ◌%◌, ◌≤◌, ◌<◌, ◌≡◌, ap, ◌∙◌, ◌≢◌, inl, inr, Bool, true, false, arith, ltb, ◌==◌,
  if◌then◌else◌, update, Bool-cases, ltb→lt, lt→ltb, update_self, update_ne, ==_iff, List, [], ◌∷◌,
  ◌++◌, length, Option, none, some,
}
use neuro_spark.Prelude.Int.{ℤ, pos}
use neuro_spark.Prelude.Ring.{window, length-window, window_of_pos, window-push}
use neuro_spark.Scheduler.Ipc.{
  Channel, Ipc, push, pop, ipc_init_once, ipc_send, ipc_recv, send_on, recv_on,
}

pub record IsRing (ch : Channel) : Type 0 where
  pub head_in : ch.head < 16
  pub count_in : ch.count ≤ 16
  pub tail_at : ch.tail ≡ (ch.head + ch.count) % 16

-- The messages of a channel, oldest first.
abbrev pub messages : Channel → List ℤ
messages ch = window 16 ch.queue ch.head ch.count

messages-push :
    (ch : Channel) (v : ℤ)
    → IsRing ch
    → ch.count < 16
    → IsRing (push ch v) × (messages (push ch v) ≡ messages ch ++ (v ∷ []))
messages-push ch v r h = (
  record { head_in = r.head_in; count_in = omega arith; tail_at = rw r.tail_at (omega arith) },
  let e : ch.count + 1 ≡ suc ch.count = omega arith in
      rw e (window-push 16 ch.queue ch.head ch.count ch.tail v r.head_in h r.tail_at),
)

messages-pop :
    (ch : Channel)
    → IsRing ch
    → 0 < ch.count
    → IsRing (pop ch) × (messages ch ≡ ch.queue ch.head ∷ messages (pop ch))
messages-pop ch r h = (
  record { head_in = omega arith; count_in = omega arith; tail_at = rw r.tail_at (omega arith) },
  window_of_pos 16 ch.queue ch.head ch.count r.head_in h,
)

-- What is promised of a channel: a queue of at most 16 messages.
pub queue_send : List ℤ → ℤ → Bool × List ℤ
queue_send l v = if ltb (length l) 16 then (true, l ++ (v ∷ [])) else (false, l)

pub queue_recv : List ℤ → Option ℤ × List ℤ
queue_recv [] = (none, [])
queue_recv (v ∷ l) = (some v, l)

-- Every channel is a ring once the channels are set up.
pub record IsValid (k : Ipc) : Type 0 where
  pub rings : (c : ℕ) → IsRing ((ipc_init_once k).channels c)

abbrev pub inbox : Ipc → ℕ → List ℤ
inbox k c = messages ((ipc_init_once k).channels c)

pub boot-IsValid : (k : Ipc) → k.initialized ≡ false → IsValid k
unfolding ipc_init_once
boot-IsValid k e = record { rings = λ c. ground arith }

init_twice : (k : Ipc) → ipc_init_once (ipc_init_once k) ≡ ipc_init_once k
unfolding ipc_init_once
init_twice k = ground arith

initialized-init : (k : Ipc) → (ipc_init_once k).initialized ≡ true
unfolding ipc_init_once
initialized-init k = ground arith

init-initialized : (k : Ipc) → k.initialized ≡ true → ipc_init_once k ≡ k
unfolding ipc_init_once
init-initialized k e = rw e

-- What `send_on` does to the channels.
send_on-channels :
    (c : ℕ) (v : ℤ) (k : Ipc)
    → let (sent, k') = send_on c v k in
      (k'.initialized ≡ k.initialized)
      × (sent ≡ ltb (k.channels c).count 16)
      × (k'.channels ≡ (
          if ltb (k.channels c).count 16
          then update k.channels c (push (k.channels c) v)
          else k.channels))
unfolding send_on
send_on-channels c v k = ground arith

recv_on-channels :
    (c : ℕ) (k : Ipc)
    → let (got, k') = recv_on c k in
      (k'.initialized ≡ k.initialized)
      × (got ≡ (
          if (k.channels c).count == 0
          then none
          else some ((k.channels c).queue (k.channels c).head)))
      × (k'.channels ≡ (
          if (k.channels c).count == 0
          then k.channels
          else update k.channels c (pop (k.channels c))))
unfolding recv_on
recv_on-channels c k = ground arith

-- Storing a ring into one cell changes no other cell.
store-IsRing :
    (f g : ℕ → Channel) (c : ℕ) (x : Channel)
    → g ≡ update f c x
    → ((d : ℕ) → IsRing (f d))
    → IsRing x
    → (g c ≡ x) × ((d : ℕ) → c ≢ d → messages (g d) ≡ messages (f d)) × ((d : ℕ) → IsRing (g d))
store-IsRing f g c x e r rx = (
  rw e (update_self f c x),
  λ d n. ap messages (other d n),
  λ d. elim (ℕ_discrete c d) [
    | yes q ↦ rw (← q, e, update_self f c x) rx
    | no n ↦ rw (other d n) (r d)
  ],
)
  where
    other : (d : ℕ) → c ≢ d → g d ≡ f d
    other d n = rw e (update_ne f c d x n)

send_on-refines :
    (c : ℕ) (v : ℤ) (k : Ipc)
    → ((d : ℕ) → IsRing (k.channels d))
    → let (sent, k') = send_on c v k in
      ((sent, messages (k'.channels c)) ≡ queue_send (messages (k.channels c)) v)
      × ((d : ℕ) → c ≢ d → messages (k'.channels d) ≡ messages (k.channels d))
      × ((d : ℕ) → IsRing (k'.channels d))
unfolding queue_send
send_on-refines c v k r = elim (Bool-cases (ltb ch.count 16)) [
  | inl room ↦
      let p = messages-push ch v (r c) (ltb→lt ch.count 16 room) in
      let e' : g ≡ update k.channels c (push ch v) =
        e ∙ ap (λ b. if b then update k.channels c (push ch v) else k.channels) room in
      let (at, other, rings) = store-IsRing k.channels g c (push ch v) e' r p.0 in
      (rw (sent, at, length-messages, room, p.1), other, rings)
  | inr full ↦
      let e' : g ≡ k.channels =
        e ∙ ap (λ b. if b then update k.channels c (push ch v) else k.channels) full in
      (rw (sent, e', length-messages, full), λ d n. rw e', λ d. rw e' (r d))
]
  where
    ch : Channel
    ch = k.channels c

    g : ℕ → Channel
    g = (send_on c v k).1.channels

    sent : (send_on c v k).0 ≡ ltb ch.count 16
    sent = (send_on-channels c v k).1

    e : g ≡ (if ltb ch.count 16 then update k.channels c (push ch v) else k.channels)
    e = (send_on-channels c v k).2

    length-messages : length (messages ch) ≡ ch.count
    length-messages = length-window 16 ch.queue ch.head ch.count

recv_on-refines :
    (c : ℕ) (k : Ipc)
    → ((d : ℕ) → IsRing (k.channels d))
    → let (got, k') = recv_on c k in
      ((got, messages (k'.channels c)) ≡ queue_recv (messages (k.channels c)))
      × ((d : ℕ) → c ≢ d → messages (k'.channels d) ≡ messages (k.channels d))
      × ((d : ℕ) → IsRing (k'.channels d))
unfolding queue_recv
recv_on-refines c k r = elim (Bool-cases (ch.count == 0)) [
  | inl none_left ↦
      let e' : g ≡ k.channels =
        e ∙ ap (λ b. if b then k.channels else update k.channels c (pop ch)) none_left in
      let z : ch.count ≡ 0 = (==_iff ch.count 0).0 none_left in
      let m : messages ch ≡ [] = rw z in
      (rw (got, e', none_left, m), λ d n. rw e', λ d. rw e' (r d))
  | inr some_left ↦
      let p = messages-pop ch (r c) (ground arith) in
      let e' : g ≡ update k.channels c (pop ch) =
        e ∙ ap (λ b. if b then k.channels else update k.channels c (pop ch)) some_left in
      let (at, other, rings) = store-IsRing k.channels g c (pop ch) e' r p.0 in
      (rw (got, at, some_left, p.1), other, rings)
]
  where
    ch : Channel
    ch = k.channels c

    g : ℕ → Channel
    g = (recv_on c k).1.channels

    got : (recv_on c k).0 ≡ (if ch.count == 0 then none else some (ch.queue ch.head))
    got = (recv_on-channels c k).1

    e : g ≡ (if ch.count == 0 then k.channels else update k.channels c (pop ch))
    e = (recv_on-channels c k).2

-- If the channels are rings, `ipc_send` on one of the four adds the message at the end of its
-- queue, or fails and changes no queue if 16 messages wait there; the other channels keep their
-- messages, and all stay rings.
pub ipc_send_refines :
    (c : ℕ) (v : ℤ) (k : Ipc)
    → c < 4
    → IsValid k
    → let (sent, k') = ipc_send (pos c) v k in
      ((sent, inbox k' c) ≡ queue_send (inbox k c) v)
      × ((d : ℕ) → c ≢ d → inbox k' d ≡ inbox k d)
      × IsValid k'
unfolding ipc_send
ipc_send_refines c v k h w =
    let (a, b, r) = send_on-refines c v k0 w.rings in
    rw (lt→ltb c 4 h, same) (a, b, record { rings = λ d. rw same (r d) })
  where
    k0 : Ipc
    k0 = ipc_init_once k

    same : ipc_init_once (send_on c v k0).1 ≡ (send_on c v k0).1
    same = init-initialized (send_on c v k0).1 ((send_on-channels c v k0).0 ∙ initialized-init k)

-- If the channels are rings, `ipc_recv` on one of the four takes the oldest message, or fails and
-- changes no queue if there is none; the other channels keep their messages, and all stay rings.
pub ipc_recv_refines :
    (c : ℕ) (k : Ipc)
    → c < 4
    → IsValid k
    → let (got, k') = ipc_recv (pos c) k in
      ((got, inbox k' c) ≡ queue_recv (inbox k c))
      × ((d : ℕ) → c ≢ d → inbox k' d ≡ inbox k d)
      × IsValid k'
unfolding ipc_recv
ipc_recv_refines c k h w =
    let (a, b, r) = recv_on-refines c k0 w.rings in
    rw (lt→ltb c 4 h, same) (a, b, record { rings = λ d. rw same (r d) })
  where
    k0 : Ipc
    k0 = ipc_init_once k

    same : ipc_init_once (recv_on c k0).1 ≡ (recv_on c k0).1
    same = init-initialized (recv_on c k0).1 ((recv_on-channels c k0).0 ∙ initialized-init k)

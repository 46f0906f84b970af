-- ===== src/Scheduler/Ipc.antt =====
-- kernel/scheduler.c: the four IPC channels.
use neuro_spark.Prelude.{
  ℕ, ◌+◌, ◌-◌, ◌%◌, Bool, true, false, Option, none, some, ltb, leb, ◌==◌, if◌then◌else◌, update,
}
use neuro_spark.Prelude.Int.{ℤ, pos, negsuc}
use neuro_spark.Scheduler.{Sched}
use neuro_spark.Scheduler.WaitQueue.{WaitQueue, wait_queue_init, wait_queue_wake_one}

abbrev pub ipc_channels : ℕ
ipc_channels = 4

abbrev pub queue_capacity : ℕ
queue_capacity = 16

pub record Channel : Type 0 where
  pub queue : ℕ → ℤ
  pub head : ℕ
  pub tail : ℕ
  pub count : ℕ

pub record Ipc : Type 0 where
  pub channels : ℕ → Channel
  pub send_waiters : ℕ → WaitQueue
  pub recv_waiters : ℕ → WaitQueue
  pub initialized : Bool
  pub sched : Sched

abbrev pub empty_channel : Channel
empty_channel = record { queue = λ _. pos 0; head = 0; tail = 0; count = 0 }

-- Only the cells of the four channels are ever looked at.
unfoldable pub ipc_init_once : Ipc → Ipc
ipc_init_once k = if k.initialized then k else record k {
  channels = λ _. empty_channel;
  send_waiters = λ _. wait_queue_init;
  recv_waiters = λ _. wait_queue_init;
  initialized = true;
}

abbrev pub push : Channel → ℤ → Channel
push ch v = record ch {
  queue = update ch.queue ch.tail v;
  tail = (ch.tail + 1) % queue_capacity;
  count = ch.count + 1;
}

abbrev pub pop : Channel → Channel
pop ch = record ch { head = (ch.head + 1) % queue_capacity; count = ch.count - 1 }

-- `if (wake) wait_queue_wake_one(queue);`
unfoldable pub wake_if : Bool → WaitQueue → Sched → WaitQueue × Sched
wake_if wake q s = let (_, q', s') = wait_queue_wake_one q s in if wake then (q', s') else (q, s)

unfoldable pub send_on : ℕ → ℤ → Ipc → Bool × Ipc
send_on c v k =
    let ch = k.channels c in
    let ch' = push ch v in
    let (q, s) = wake_if (ltb 0 ch'.count) (k.recv_waiters c) k.sched in
    if leb queue_capacity ch.count then (false, k) else (
      true,
      record k {
        channels = update k.channels c ch';
        recv_waiters = update k.recv_waiters c q;
        sched = s;
      },
    )

unfoldable pub ipc_send : ℤ → ℤ → Ipc → Bool × Ipc
unfolding send_on
ipc_send (negsuc _) v k = (false, k)
ipc_send (pos c) v k = if ltb c ipc_channels then send_on c v (ipc_init_once k) else (false, k)

unfoldable pub recv_on : ℕ → Ipc → Option ℤ × Ipc
recv_on c k =
    let ch = k.channels c in
    let ch' = pop ch in
    let (q, s) = wake_if (ltb ch'.count queue_capacity) (k.send_waiters c) k.sched in
    if ch.count == 0 then (none, k) else (
      some (ch.queue ch.head),
      record k {
        channels = update k.channels c ch';
        send_waiters = update k.send_waiters c q;
        sched = s;
      },
    )

-- What is stored through `out_value`; `none` is the answer 0.
unfoldable pub ipc_recv : ℤ → Ipc → Option ℤ × Ipc
unfolding recv_on
ipc_recv (negsuc _) k = (none, k)
ipc_recv (pos c) k = if ltb c ipc_channels then recv_on c (ipc_init_once k) else (none, k)

-- `none` is the answer -1.
unfoldable pub ipc_queue_depth : ℤ → Ipc → Option ℕ × Ipc
ipc_queue_depth (negsuc _) k = (none, k)
ipc_queue_depth (pos c) k =
    let k' = ipc_init_once k in
    if ltb c ipc_channels then (some (k'.channels c).count, k') else (none, k)

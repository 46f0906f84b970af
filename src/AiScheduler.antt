-- ===== src/AiScheduler.antt =====
-- kernel/ai_scheduler.c: inference jobs, a queue for each quality of service, and the budgeted
-- drain. The runtime (kernel/ai_runtime.c) is a parameter: a state of its own, and the call
-- `ai_runtime_infer`. `int` values are unbounded here.
pub mod Idle
pub mod Pushed
pub mod Serve
pub mod Submit
pub mod Bench
mod Tests
use Prim.Native.Nat.{bit_xor}
use neuro_spark.Prelude.{
  ℕ, zero, suc, ◌+◌, ◌-◌, ◌*◌, ◌/◌, ◌%◌, Bool, true, false, ◌&&◌, ◌||◌, not, Option, none, some,
  List, ltb, leb, ◌==◌, if◌then◌else◌, update, take, add32, sub32, inc32,
}
use neuro_spark.Prelude.Int.{ℤ, pos, negsuc, ◌+ℤ◌}

abbrev pub queue_cap : ℕ
queue_cap = 64

abbrev pub qos_latency : ℕ
qos_latency = 0

abbrev pub qos_throughput : ℕ
qos_throughput = 1

pub record AiSchedulerStats : Type 0 where
  pub qos_mode : ℕ
  pub budget_pct : ℕ
  pub queue_depth : ℕ
  pub stream_queue_depth : ℕ
  pub batch_queue_depth : ℕ
  pub max_queue_depth : ℕ
  pub submitted : ℕ
  pub completed : ℕ
  pub processed_jobs : ℕ
  pub dropped : ℕ
  pub latency_accum : ℕ
  pub latency_max : ℕ
  pub last_latency : ℕ

-- `out_value` and `done_flag` are addresses in the caller's memory; `none` is the null pointer.
pub record Job : Type 0 where
  pub model_name : List ℕ
  pub input_value : ℤ
  pub seed : ℕ
  pub out_value : Option ℕ
  pub done_flag : Option ℕ
  pub latency : ℕ
  pub in_use : Bool

pub record Queue : Type 0 where
  pub jobs : ℕ → Job
  pub head : ℕ
  pub tail : ℕ

-- Of the callers' memory, the results and the flags that the jobs point to.
pub record Ai (R : Type 0) : Type 0 where
  pub stats : AiSchedulerStats
  pub stream_q : Queue
  pub batch_q : Queue
  pub outs : ℕ → ℤ
  pub flags : ℕ → ℕ
  pub runtime : R

-- A name is its characters up to the NUL.
abbrev pub copy_name16 : List ℕ → List ℕ
copy_name16 name = take 15 name

pub queue_push : Job → Queue → Bool × Queue
queue_push job q =
    let next_tail = (q.tail + 1) % queue_cap in
    if next_tail == q.head then (false, q) else (
      true,
      record q { jobs = update q.jobs q.tail (record job { in_use = true }); tail = next_tail },
    )

pub queue_pop : Queue → Option Job × Queue
queue_pop q =
    let job = q.jobs q.head in
    if q.head == q.tail then (none, q) else (
      some job,
      record q {
        jobs = update q.jobs q.head (record job { in_use = false });
        head = (q.head + 1) % queue_cap;
      },
    )

pub depth_of : Queue → ℕ
depth_of q = if leb q.head q.tail then q.tail - q.head else queue_cap - q.head + q.tail

pub scheduler_budget_jobs : AiSchedulerStats → ℕ
scheduler_budget_jobs g =
    let jobs =
      (if leb 75 g.budget_pct
        then 4
        else if leb 50 g.budget_pct
        then 3
        else if leb 25 g.budget_pct
        then 2
        else 1) in
    if g.qos_mode == qos_throughput then jobs + 1 else jobs

pub estimate_latency : ℕ → ℕ → ℕ → ℕ
estimate_latency mode budget_pct depth =
    (if mode == qos_latency then 2 else 6) + sub32 100 budget_pct / 10 + depth / 2

-- A store through a pointer that may be null.
abbrev pub store {ℓ} : {A : Type ℓ} → Option ℕ → A → (ℕ → A) → ℕ → A
store none v f = f
store (some p) v f = update f p v

abbrev pub drop : {R : Type 0} → Ai R → Ai R
drop s = record s { stats = record s.stats { dropped = inc32 s.stats.dropped } }

pub refresh_queue_depths : {R : Type 0} → Ai R → Ai R
refresh_queue_depths s =
    let a = depth_of s.stream_q in
    let b = depth_of s.batch_q in
    let d = add32 a b in
    record s {
      stats = record s.stats {
        stream_queue_depth = a;
        batch_queue_depth = b;
        queue_depth = d;
        max_queue_depth = if ltb s.stats.max_queue_depth d then d else s.stats.max_queue_depth;
      };
    }

pub ai_scheduler_init : {R : Type 0} → Ai R → Ai R
ai_scheduler_init s =
    let clear = λ (q : Queue). record q {
      jobs = λ i. if ltb i queue_cap then record (q.jobs i) { in_use = false } else q.jobs i;
      head = 0;
      tail = 0;
    } in
    record s {
      stats = record {
        qos_mode = qos_latency;
        budget_pct = 50;
        queue_depth = 0;
        stream_queue_depth = 0;
        batch_queue_depth = 0;
        max_queue_depth = 0;
        submitted = 0;
        completed = 0;
        processed_jobs = 0;
        dropped = 0;
        latency_accum = 0;
        latency_max = 0;
        last_latency = 0;
      };
      stream_q = clear s.stream_q;
      batch_q = clear s.batch_q;
    }

pub ai_scheduler_set_qos : {R : Type 0} → ℕ → ℕ → Ai R → Bool × Ai R
ai_scheduler_set_qos mode budget_pct s =
    if not (mode == qos_latency) && not (mode == qos_throughput)
      || budget_pct == 0
      || ltb 100 budget_pct
    then (false, s)
    else (true, record s { stats = record s.stats { qos_mode = mode; budget_pct = budget_pct } })

abbrev pub pop_stream : {R : Type 0} → Ai R → Option Job × Ai R
pop_stream s = let (job, q) = queue_pop s.stream_q in (job, record s { stream_q = q })

abbrev pub pop_batch : {R : Type 0} → Ai R → Option Job × Ai R
pop_batch s = let (job, q) = queue_pop s.batch_q in (job, record s { batch_q = q })

-- The first answer if it is a job, else the second.
abbrev pub or_else : {R : Type 0} → Option Job × Ai R → Option Job × Ai R → Option Job × Ai R
or_else (some job, s) other = (some job, s)
or_else (none, s) other = other

-- The queue that is served first, if it holds a job, else the other.
pub next_job : {R : Type 0} → Ai R → Option Job × Ai R
next_job s =
    if s.stats.qos_mode == qos_latency
    then or_else (pop_stream s) (pop_batch s)
    else or_else (pop_batch s) (pop_stream s)

abbrev pub note_latency : ℕ → AiSchedulerStats → AiSchedulerStats
note_latency l g = record g {
  last_latency = l;
  latency_accum = add32 g.latency_accum l;
  latency_max = if ltb g.latency_max l then l else g.latency_max;
}

-- The job goes into the queue of the quality of service in force.
pub enqueue_job : {R : Type 0} → Job → Ai R → Bool × Ai R
unfolding queue_push
enqueue_job job s =
    let latency_mode = s.stats.qos_mode == qos_latency in
    let (pushed, q) = queue_push job (if latency_mode then s.stream_q else s.batch_q) in
    (pushed, if latency_mode then record s { stream_q = q } else record s { batch_q = q })

-- The counters behind the push: the depths, and the latency that is estimated from them.
pub note_submission : {R : Type 0} → Ai R → Ai R
unfolding refresh_queue_depths estimate_latency
note_submission s0 =
    let s = refresh_queue_depths s0 in
    let g = s.stats in
    record s { stats = note_latency (estimate_latency g.qos_mode g.budget_pct g.queue_depth) g }

module _ {R : Type 0} (infer : List ℕ → ℤ → ℕ → R → Option ℤ × R) where
  -- What `process_one_job` does with the runtime's answer.
  pub finish_job : Job → Option ℤ × R → Ai R → Ai R
  finish_job job (none, r) s =
      drop (record s { runtime = r; flags = store job.done_flag 1 s.flags })
  finish_job job (some out, r) s = record s {
    runtime = r;
    outs = store job.out_value out s.outs;
    flags = store job.done_flag 1 s.flags;
    stats = record s.stats {
      completed = inc32 s.stats.completed;
      processed_jobs = inc32 s.stats.processed_jobs;
    };
  }

  pub process_one_job : Job → Ai R → Ai R
  unfolding finish_job
  process_one_job job s = finish_job job (infer job.model_name job.input_value job.seed s.runtime) s

  -- The loop of `drain_queues`, with `n` jobs of the budget left.
  pub drain_loop : ℕ → Ai R → Ai R
  unfolding next_job process_one_job
  drain_loop zero s = s
  drain_loop (suc n) s =
      let (got, s') = next_job s in
      elim got [ none ↦ s' | some job ↦ drain_loop n (process_one_job job s') ]

  pub drain_queues : ℕ → Ai R → Ai R
  unfolding drain_loop refresh_queue_depths
  drain_queues budget s = refresh_queue_depths (drain_loop budget s)

  -- `while (!done && spin_budget > 0u)`, `done` being the flag at `done`.
  pub spin : ℕ → ℕ → Ai R → Ai R
  unfolding drain_queues
  spin done zero s = s
  spin done (suc n) s = elim (s.flags done == 0) [
    | true ↦ spin done n (drain_queues (scheduler_budget_jobs s.stats) s)
    | false ↦ s
  ]

  -- The part of `ai_scheduler_submit_infer` behind the queue's test.
  pub run_job : Job → ℕ → Ai R → Bool × Ai R
  unfolding enqueue_job spin note_submission
  run_job job done s0 =
      let s = record s0 { stats = record s0.stats { submitted = inc32 s0.stats.submitted } } in
      let (pushed, s1) = enqueue_job job s in
      let s2 = spin done (queue_cap * 2) (note_submission s1) in
      if not pushed
      then (false, drop s)
      else if s2.flags done == 0
      then (false, drop s2)
      else (true, s2)

  -- `done` is where the local of that name stands, `now` is `scheduler_now_ticks()`.
  pub ai_scheduler_submit_infer : ℕ → ℕ → Option (List ℕ) → ℤ → ℕ → Option ℕ → Ai R → Bool × Ai R
  unfolding run_job refresh_queue_depths
  ai_scheduler_submit_infer now done (some name) input seed (some out) s =
      let s0 = refresh_queue_depths (record s { flags = update s.flags done 0 }) in
      let job : Job = record {
        model_name = copy_name16 name;
        input_value = input;
        seed = bit_xor seed now;
        out_value = some out;
        done_flag = some done;
        latency = 0;
        in_use = true;
      } in
      let ran = run_job job done s0 in
      if leb (queue_cap - 1) s0.stats.queue_depth then (false, drop s0) else ran
  ai_scheduler_submit_infer now done none input seed out s = (false, drop s)
  ai_scheduler_submit_infer now done (some name) input seed none s = (false, drop s)

-- ===== src/AiScheduler/Pushed.antt =====
-- kernel/ai_scheduler.c: a job is pushed into an empty queue.
use neuro_spark.Prelude.{ℕ, ◌+◌, ◌≡◌, refl, ap, true, false, arith, some, leb, add32}
use neuro_spark.AiScheduler.{
  Ai, Job, queue_push, queue_pop, depth_of, estimate_latency, refresh_queue_depths, next_job,
  enqueue_job, note_submission,
}
use neuro_spark.AiScheduler.Idle.{IsIdle, queued}

-- One job waits, and it is served next.
pub record HoldsOne {R : Type 0} (job : Job) (s : Ai R) : Type 0 where
  pub got : (next_job s).0 ≡ some job
  pub leaves : IsIdle (next_job s).1
  pub depth : depth_of s.stream_q + depth_of s.batch_q ≡ 1
  pub outs_at : (next_job s).1.outs ≡ s.outs
  pub runtime_at : (next_job s).1.runtime ≡ s.runtime
  pub stats_at : (next_job s).1.stats ≡ s.stats

pub enqueue_job-HoldsOne :
    {R : Type 0} (job : Job) (s : Ai R)
    → IsIdle s
    → let (pushed, s') = enqueue_job job s in
      (pushed ≡ true)
      × HoldsOne (queued job) s'
      × (s'.stats ≡ s.stats)
      × (s'.outs ≡ s.outs)
      × (s'.runtime ≡ s.runtime)
      × (s'.flags ≡ s.flags)
unfolding enqueue_job next_job queue_push queue_pop depth_of
enqueue_job-HoldsOne job s v =
    let a = v.stream_empty in
    let b = v.batch_empty in
    (
      ground arith,
      record {
        got = ground arith;
        leaves = record {
          stream_empty = ground arith;
          batch_empty = ground arith;
          mode_in = ground (arith, v.mode_in);
          budget_in = ground (arith, v.budget_in);
        };
        depth = ground arith;
        outs_at = ground arith;
        runtime_at = ground arith;
        stats_at = ground arith;
      },
      ground arith,
      ground arith,
      ground arith,
      ground arith,
    )

pub note_submission-HoldsOne :
    {R : Type 0} (job : Job) (s : Ai R)
    → HoldsOne job s
    → let s' = note_submission s in
      HoldsOne job s'
      × (s'.stats.last_latency ≡ estimate_latency s.stats.qos_mode s.stats.budget_pct 1)
unfolding note_submission refresh_queue_depths next_job
note_submission-HoldsOne job s h =
    let d = h.depth in
    let v = h.leaves in
    (
      record {
        got = ground (arith, h.got);
        leaves = record {
          stream_empty = ground (arith, v.stream_empty);
          batch_empty = ground (arith, v.batch_empty);
          mode_in = ground (arith, v.mode_in);
          budget_in = ground (arith, v.budget_in);
        };
        depth = d;
        outs_at = ground (arith, h.outs_at);
        runtime_at = ground (arith, h.runtime_at);
        stats_at = ground (arith, h.stats_at);
      },
      ground arith,
    )

pub note_submission-Kept :
    {R : Type 0} (s1 s : Ai R)
    → s1.stats ≡ s.stats
    → let g = (note_submission s1).stats in
      (g.qos_mode ≡ s.stats.qos_mode)
      × (g.budget_pct ≡ s.stats.budget_pct)
      × (g.completed ≡ s.stats.completed)
      × (g.dropped ≡ s.stats.dropped)
unfolding note_submission refresh_queue_depths
note_submission-Kept s1 s e = (
  ap (λ g. g.qos_mode) e,
  ap (λ g. g.budget_pct) e,
  ap (λ g. g.completed) e,
  ap (λ g. g.dropped) e,
)

pub note_submission-flags :
    {R : Type 0} (s : Ai R) (done : ℕ) → (note_submission s).flags done ≡ s.flags done
unfolding note_submission refresh_queue_depths
note_submission-flags s done = refl

pub note_submission-memory :
    {R : Type 0} (s : Ai R)
    → ((note_submission s).outs ≡ s.outs) × ((note_submission s).runtime ≡ s.runtime)
unfolding note_submission refresh_queue_depths
note_submission-memory s = (refl, refl)

pub depth-idle :
    {R : Type 0} (s : Ai R)
    → IsIdle s
    → leb 63 (add32 (depth_of s.stream_q) (depth_of s.batch_q)) ≡ false
unfolding depth_of
depth-idle s v = ground (arith, v.stream_empty, v.batch_empty)

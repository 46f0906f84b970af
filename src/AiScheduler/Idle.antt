-- ===== src/AiScheduler/Idle.antt =====
-- kernel/ai_scheduler.c: between the calls no job is queued, and each call completes its own job.
use neuro_spark.Prelude.{ℕ, suc, ◌-◌, ◌≤◌, ◌<◌, ◌≡◌, refl, true, arith, none}
use neuro_spark.AiScheduler.{
  Ai, Job, AiSchedulerStats, queue_pop, scheduler_budget_jobs, refresh_queue_depths, next_job,
  ai_scheduler_init, ai_scheduler_set_qos,
}

-- No job waits, and the settings are those that `ai_scheduler_set_qos` lets through.
pub record IsIdle {R : Type 0} (s : Ai R) : Type 0 where
  pub stream_empty : (s.stream_q.head < 64) × (s.stream_q.tail ≡ s.stream_q.head)
  pub batch_empty : (s.batch_q.head < 64) × (s.batch_q.tail ≡ s.batch_q.head)
  pub mode_in : s.stats.qos_mode ≤ 1
  pub budget_in : (1 ≤ s.stats.budget_pct) × (s.stats.budget_pct ≤ 100)

pub init-IsIdle : {R : Type 0} (s : Ai R) → IsIdle (ai_scheduler_init s)
unfolding ai_scheduler_init
init-IsIdle s = record {
  stream_empty = (omega arith, refl);
  batch_empty = (omega arith, refl);
  mode_in = omega arith;
  budget_in = (omega arith, omega arith);
}

set_qos-IsIdle :
    {R : Type 0} (mode pct : ℕ) (s : Ai R) → IsIdle s → IsIdle (ai_scheduler_set_qos mode pct s).1
unfolding ai_scheduler_set_qos
set_qos-IsIdle mode pct s v = record {
  stream_empty = ground (arith, v.stream_empty);
  batch_empty = ground (arith, v.batch_empty);
  mode_in = ground (arith, v.mode_in);
  budget_in = ground (arith, v.budget_in);
}

-- With both queues empty there is nothing to serve.
pub next_job-idle : {R : Type 0} (s : Ai R) → IsIdle s → next_job s ≡ (none, s)
unfolding next_job queue_pop
next_job-idle s v = ground (arith, v.stream_empty, v.batch_empty)

abbrev pub queued : Job → Job
queued job = record job { in_use = true }

-- What one call leaves of the settings.
abbrev pub SameSettings : {R : Type 0} → Ai R → Ai R → Type 0
SameSettings s s' =
    (s'.stats.qos_mode ≡ s.stats.qos_mode) × (s'.stats.budget_pct ≡ s.stats.budget_pct)

pub refresh-IsIdle : {R : Type 0} (s : Ai R) → IsIdle s → IsIdle (refresh_queue_depths s)
unfolding refresh_queue_depths
refresh-IsIdle s v = record {
  stream_empty = v.stream_empty;
  batch_empty = v.batch_empty;
  mode_in = v.mode_in;
  budget_in = v.budget_in;
}

pub budget-pos : (g : AiSchedulerStats) → (b : ℕ) × (scheduler_budget_jobs g ≡ suc b)
unfolding scheduler_budget_jobs
budget-pos g = (scheduler_budget_jobs g - 1, ground arith)

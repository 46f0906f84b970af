-- ===== src/AiScheduler/Tests.antt =====
-- kernel/ai_scheduler.c: a runtime that echoes its input, and one that always fails.
use Prim.Native.Nat.{bit_xor}
use neuro_spark.Prelude.{ℕ, ◌+◌, ◌≡◌, true, false, Option, none, some, List, [], ◌∷◌}
use neuro_spark.Prelude.Int.{ℤ, pos}
use neuro_spark.AiScheduler.{
  Ai, Job, Queue, ai_scheduler_init, ai_scheduler_submit_infer, estimate_latency,
}
use neuro_spark.AiScheduler.Idle.{IsIdle, SameSettings, init-IsIdle}
use neuro_spark.AiScheduler.Serve.{written, counted}
use neuro_spark.AiScheduler.Submit.{submit_infer_lem}

abbrev echo : List ℕ → ℤ → ℕ → ℕ → Option ℤ × ℕ
echo name input seed calls = (some input, calls + 1)

abbrev no_job : Job
no_job = record {
  model_name = [];
  input_value = pos 0;
  seed = 0;
  out_value = none;
  done_flag = none;
  latency = 0;
  in_use = false;
}

abbrev no_queue : Queue
no_queue = record { jobs = λ _. no_job; head = 0; tail = 0 }

abbrev zeroed : Ai ℕ
zeroed = record {
  stats = record {
    qos_mode = 0;
    budget_pct = 0;
    queue_depth = 0;
    stream_queue_depth = 0;
    batch_queue_depth = 0;
    max_queue_depth = 0;
    submitted = 0;
    completed = 0;
    processed_jobs = 0;
    dropped = 0;
    latency_accum = 0;
    latency_max = 0;
    last_latency = 0;
  };
  stream_q = no_queue;
  batch_q = no_queue;
  outs = λ _. pos 0;
  flags = λ _. 0;
  runtime = 0;
}

abbrev started : Ai ℕ
started = ai_scheduler_init zeroed

submit_infer_lem_example :
    let (ok, s') =
      ai_scheduler_submit_infer echo 5 100 (some (7 ∷ [])) (pos 42) 3 (some 8) started in
    let a = echo (7 ∷ []) (pos 42) (bit_xor 3 5) started.runtime in
    (ok ≡ true)
    × IsIdle s'
    × (s'.outs ≡ written a.0 8 started.outs)
    × (s'.runtime ≡ a.1)
    × SameSettings started s'
    × (s'.stats.last_latency ≡ estimate_latency started.stats.qos_mode started.stats.budget_pct 1)
    × ((s'.stats.completed, s'.stats.dropped)
        ≡ counted a.0 (started.stats.completed, started.stats.dropped))
submit_infer_lem_example =
    submit_infer_lem echo 5 100 (7 ∷ []) (pos 42) 3 8 started (init-IsIdle zeroed)

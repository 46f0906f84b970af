-- ===== src/AiScheduler/Serve.antt =====
-- kernel/ai_scheduler.c: the drain serves the one job that waits.
use neuro_spark.Prelude.{
  ℕ, zero, suc, ◌≡◌, refl, subst, sym, ap, ◌∙◌, Option, none, some, List, update, inc32,
  update_self,
}
use neuro_spark.Prelude.Int.{ℤ}
use neuro_spark.AiScheduler.{
  Ai, Job, scheduler_budget_jobs, refresh_queue_depths, next_job, finish_job, process_one_job,
  drain_loop, drain_queues, spin,
}
use neuro_spark.AiScheduler.Idle.{IsIdle, SameSettings, next_job-idle, refresh-IsIdle, budget-pos}

-- What is left in the result's cell: a failed inference writes nothing.
abbrev pub written : Option ℤ → ℕ → (ℕ → ℤ) → ℕ → ℤ
written none out outs = outs
written (some v) out outs = update outs out v

-- An answer counts as completed, a failure as dropped.
abbrev pub counted : Option ℤ → ℕ × ℕ → ℕ × ℕ
counted none (completed, dropped) = (completed, inc32 dropped)
counted (some v) (completed, dropped) = (inc32 completed, dropped)

-- The job whose result belongs at `out` and whose flag stands at `done` has got the answer `a`.
pub record Served {R : Type 0} (a : Option ℤ × R) (out done : ℕ) (s s' : Ai R) : Type 0 where
  pub idle : IsIdle s'
  pub flag : s'.flags done ≡ 1
  pub result : s'.outs ≡ written a.0 out s.outs
  pub runtime_at : s'.runtime ≡ a.1
  pub settings : SameSettings s s'
  pub latency_at : s'.stats.last_latency ≡ s.stats.last_latency
  pub counts :
      (s'.stats.completed, s'.stats.dropped) ≡ counted a.0 (s.stats.completed, s.stats.dropped)

module _ {R : Type 0} (infer : List ℕ → ℤ → ℕ → R → Option ℤ × R) where
  drain_loop-none :
      (n : ℕ) (s s' : Ai R) → next_job s ≡ (none, s') → drain_loop infer (suc n) s ≡ s'
  unfolding drain_loop
  drain_loop-none n s s' g =
      let a : (next_job s).0 ≡ none = ap (λ p. p.0) g in
      let b : (next_job s).1 ≡ s' = ap (λ p. p.1) g in rw (a, drain_loop) b

  drain_loop-some :
      (n : ℕ) (s s' : Ai R) (job : Job)
      → next_job s ≡ (some job, s')
      → drain_loop infer (suc n) s ≡ drain_loop infer n (process_one_job infer job s')
  unfolding drain_loop
  drain_loop-some n s s' job g =
      let a : (next_job s).0 ≡ some job = ap (λ p. p.0) g in
      let b : (next_job s).1 ≡ s' = ap (λ p. p.1) g in
      rw (a, drain_loop) (ap (λ t. drain_loop infer n (process_one_job infer job t)) b)

  drain_loop-idle : (n : ℕ) (s : Ai R) → IsIdle s → drain_loop infer n s ≡ s
  unfolding drain_loop
  drain_loop-idle zero s v = refl
  drain_loop-idle (suc n) s v = drain_loop-none n s s (next_job-idle s v)

  finish_job-Served :
      (job : Job) (out done : ℕ) (s : Ai R) (a : Option ℤ × R)
      → job.out_value ≡ some out
      → job.done_flag ≡ some done
      → IsIdle s
      → Served a out done s (finish_job infer job a s)
  unfolding finish_job
  finish_job-Served job out done s (none, r) e f v = record {
    idle = record {
      stream_empty = v.stream_empty;
      batch_empty = v.batch_empty;
      mode_in = v.mode_in;
      budget_in = v.budget_in;
    };
    flag = rw f (update_self s.flags done 1);
    result = refl;
    runtime_at = refl;
    settings = (refl, refl);
    latency_at = refl;
    counts = refl;
  }
  finish_job-Served job out done s (some x, r) e f v = record {
    idle = record {
      stream_empty = v.stream_empty;
      batch_empty = v.batch_empty;
      mode_in = v.mode_in;
      budget_in = v.budget_in;
    };
    flag = rw f (update_self s.flags done 1);
    result = rw e;
    runtime_at = refl;
    settings = (refl, refl);
    latency_at = refl;
    counts = refl;
  }

  Served-refresh :
      (a : Option ℤ × R) (out done : ℕ) (s s' : Ai R)
      → Served a out done s s'
      → Served a out done s (refresh_queue_depths s')
  unfolding refresh_queue_depths
  Served-refresh a out done s s' v = record {
    idle = refresh-IsIdle s' v.idle;
    flag = v.flag;
    result = v.result;
    runtime_at = v.runtime_at;
    settings = v.settings;
    latency_at = v.latency_at;
    counts = v.counts;
  }

  -- The budget is 1 at least, so one drain serves the job.
  drain_queues-Served :
      (job : Job) (out done n : ℕ) (s s' : Ai R)
      → job.out_value ≡ some out
      → job.done_flag ≡ some done
      → next_job s ≡ (some job, s')
      → IsIdle s'
      → Served
          (infer job.model_name job.input_value job.seed s'.runtime)
          out
          done
          s'
          (drain_queues infer (suc n) s)
  unfolding drain_queues process_one_job
  drain_queues-Served job out done n s s' e f g v =
      let a = infer job.model_name job.input_value job.seed s'.runtime in
      let w = finish_job-Served job out done s' a e f v in
      let k : drain_loop infer (suc n) s ≡ finish_job infer job a s' =
        drain_loop-some n s s' job g ∙ drain_loop-idle n (finish_job infer job a s') w.idle in
      subst (λ t. Served a out done s' (refresh_queue_depths t)) (sym k)
        (Served-refresh a out done s' (finish_job infer job a s') w)

  spin-done : (done n : ℕ) (s : Ai R) → s.flags done ≡ 1 → spin infer done n s ≡ s
  unfolding spin
  spin-done done zero s e = refl
  spin-done done (suc n) s e = rw (e, spin) refl

  -- So the loop that waits for the flag stops after one round.
  pub spin-Served :
      (job : Job) (out done n : ℕ) (s s' : Ai R)
      → s.flags done ≡ 0
      → job.out_value ≡ some out
      → job.done_flag ≡ some done
      → next_job s ≡ (some job, s')
      → IsIdle s'
      → Served
          (infer job.model_name job.input_value job.seed s'.runtime)
          out
          done
          s'
          (spin infer done (suc n) s)
  unfolding spin
  spin-Served job out done n s s' z e f g v =
      let a = infer job.model_name job.input_value job.seed s'.runtime in
      let (b, k) = budget-pos s.stats in
      let w = drain_queues-Served job out done b s s' e f g v in
      let d = drain_queues infer (scheduler_budget_jobs s.stats) s in
      let w' : Served a out done s' d = rw k w in
      let r : spin infer done (suc n) s ≡ d = rw (z, spin) (spin-done done n d w'.flag) in
      subst (Served a out done s') (sym r) w'

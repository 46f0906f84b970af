-- ===== src/AiScheduler/Submit.antt =====
-- kernel/ai_scheduler.c: `ai_scheduler_submit_infer` completes its own job.
use Prim.Native.Nat.{bit_xor}
use neuro_spark.Prelude.{
  ℕ, ◌≡◌, refl, subst, ap, ◌∙◌, true, false, Option, some, List, leb, update, take, inc32,
  update_self,
}
use neuro_spark.Prelude.Int.{ℤ}
use neuro_spark.AiScheduler.{
  Ai, Job, AiSchedulerStats, estimate_latency, refresh_queue_depths, next_job, enqueue_job,
  note_submission, spin, run_job, ai_scheduler_submit_infer,
}
use neuro_spark.AiScheduler.Idle.{IsIdle, SameSettings, queued}
use neuro_spark.AiScheduler.Pushed.{
  HoldsOne, enqueue_job-HoldsOne, note_submission-HoldsOne, note_submission-Kept,
  note_submission-flags, note_submission-memory, depth-idle,
}
use neuro_spark.AiScheduler.Serve.{Served, written, counted, spin-Served}

abbrev tally_of : AiSchedulerStats → ℕ × ℕ
tally_of g = (g.completed, g.dropped)

module _ {R : Type 0} (infer : List ℕ → ℤ → ℕ → R → Option ℤ × R) where
  run_job-Served :
      (job : Job) (out done : ℕ) (s : Ai R)
      → job.out_value ≡ some out
      → job.done_flag ≡ some done
      → s.flags done ≡ 0
      → IsIdle s
      → let (ok, s') = run_job infer job done s in
        (ok ≡ true)
        × IsIdle s'
        × (s'.outs ≡ written (infer job.model_name job.input_value job.seed s.runtime).0 out s.outs)
        × (s'.runtime ≡ (infer job.model_name job.input_value job.seed s.runtime).1)
        × SameSettings s s'
        × (s'.stats.last_latency ≡ estimate_latency s.stats.qos_mode s.stats.budget_pct 1)
        × ((s'.stats.completed, s'.stats.dropped)
            ≡ counted
                (infer job.model_name job.input_value job.seed s.runtime).0
                (s.stats.completed, s.stats.dropped))
  unfolding run_job
  run_job-Served job out done s0 e f z v = rw ran (
    refl,
    w.idle,
    w.result ∙ ap (written a.0 out) kept.0,
    w.runtime_at,
    (
      w.settings.0 ∙ ap (λ g. g.qos_mode) stats ∙ noted.0,
      w.settings.1 ∙ ap (λ g. g.budget_pct) stats ∙ noted.1,
    ),
    w.latency_at ∙ ap (λ g. g.last_latency) stats ∙ latency,
    w.counts ∙ ap (counted a.0) tallies,
  )
    where
      a : Option ℤ × R
      a = infer job.model_name job.input_value job.seed s0.runtime

      s : Ai R
      s = record s0 { stats = record s0.stats { submitted = inc32 s0.stats.submitted } }

      idle : IsIdle s
      idle = record {
        stream_empty = v.stream_empty;
        batch_empty = v.batch_empty;
        mode_in = v.mode_in;
        budget_in = v.budget_in;
      }

      s1 : Ai R
      s1 = (enqueue_job job s).1

      pushed : (enqueue_job job s).0 ≡ true
      pushed = (enqueue_job-HoldsOne job s idle).0

      u : Ai R
      u = note_submission s1

      holds : HoldsOne (queued job) u
      holds = (note_submission-HoldsOne (queued job) s1 (enqueue_job-HoldsOne job s idle).1).0

      t : Ai R
      t = (next_job u).1

      next : next_job u ≡ (some (queued job), t)
      next = ap (λ g. (g, t)) holds.got

      stats : t.stats ≡ u.stats
      stats = holds.stats_at

      -- The counters of the note do not touch these.
      noted :
          (u.stats.qos_mode ≡ s0.stats.qos_mode)
          × (u.stats.budget_pct ≡ s0.stats.budget_pct)
          × (u.stats.completed ≡ s0.stats.completed)
          × (u.stats.dropped ≡ s0.stats.dropped)
      noted = note_submission-Kept s1 s (enqueue_job-HoldsOne job s idle).2

      kept : (t.outs ≡ s0.outs) × (t.runtime ≡ s0.runtime)
      kept = (
        holds.outs_at ∙ (note_submission-memory s1).0 ∙ (enqueue_job-HoldsOne job s idle).3,
        holds.runtime_at ∙ (note_submission-memory s1).1 ∙ (enqueue_job-HoldsOne job s idle).4,
      )

      unflagged : u.flags done ≡ 0
      unflagged =
          note_submission-flags s1 done ∙ ap (λ g. g done) (enqueue_job-HoldsOne job s idle).5 ∙ z

      w : Served a out done t (spin infer done 128 u)
      w =
          subst
            (λ r.
              Served (infer job.model_name job.input_value job.seed r) out done t
                (spin infer done 128 u))
            kept.1 (spin-Served infer (queued job) out done 127 u t unflagged e f next holds.leaves)

      tallies : tally_of t.stats ≡ tally_of s0.stats
      tallies = rw (stats, noted.2, noted.3) refl

      latency : u.stats.last_latency ≡ estimate_latency s0.stats.qos_mode s0.stats.budget_pct 1
      latency =
          (note_submission-HoldsOne (queued job) s1 (enqueue_job-HoldsOne job s idle).1).1
          ∙ ap (λ g. estimate_latency g.qos_mode g.budget_pct 1) (enqueue_job-HoldsOne job s idle).2

      ran : run_job infer job done s0 ≡ (true, spin infer done 128 u)
      ran = rw (pushed, w.flag)

  -- With no job waiting and settings that `ai_scheduler_set_qos` lets through,
  -- `ai_scheduler_submit_infer` answers 1 and leaves no job behind, whose flag would lie in the
  -- frame that has ended. It calls the runtime once and stores the result if there is one; a
  -- failed inference is answered by 1 as well, and counted as dropped. The latency that it notes
  -- is the estimate for a queue of one job.
  pub submit_infer_lem :
      (now done : ℕ) (name : List ℕ) (input : ℤ) (seed out : ℕ) (s : Ai R)
      → IsIdle s
      → let (ok, s') =
          ai_scheduler_submit_infer infer now done (some name) input seed (some out) s in
        let a = infer (take 15 name) input (bit_xor seed now) s.runtime in
        (ok ≡ true)
        × IsIdle s'
        × (s'.outs ≡ written a.0 out s.outs)
        × (s'.runtime ≡ a.1)
        × SameSettings s s'
        × (s'.stats.last_latency ≡ estimate_latency s.stats.qos_mode s.stats.budget_pct 1)
        × ((s'.stats.completed, s'.stats.dropped)
            ≡ counted a.0 (s.stats.completed, s.stats.dropped))
  unfolding ai_scheduler_submit_infer refresh_queue_depths
  submit_infer_lem now done name input seed out s v =
      rw free (run_job-Served job out done s0 refl refl (update_self s.flags done 0) idle)
    where
      job : Job
      job = record {
        model_name = take 15 name;
        input_value = input;
        seed = bit_xor seed now;
        out_value = some out;
        done_flag = some done;
        latency = 0;
        in_use = true;
      }

      s0 : Ai R
      s0 = refresh_queue_depths (record s { flags = update s.flags done 0 })

      idle : IsIdle s0
      idle = record {
        stream_empty = v.stream_empty;
        batch_empty = v.batch_empty;
        mode_in = v.mode_in;
        budget_in = v.budget_in;
      }

      free : leb 63 s0.stats.queue_depth ≡ false
      free = depth-idle s v

-- ===== src/AiScheduler/Bench.antt =====
-- kernel/ai_scheduler.c: the benchmark, and what it measures.
use native.Mathlib.Nat.{mul-le-mul, mul-div_cancel_left}
use neuro_spark.Prelude.{
  ℕ, zero, suc, ◌+◌, ◌*◌, ◌/◌, ◌≤◌, ◌<◌, ◌≡◌, refl, subst, ◌∙◌, true, arith, Option, some, List,
  ◌==◌, if◌then◌else◌, update, add32, Bool, ◌||◌, ltb, inc32, none,
}
use neuro_spark.Prelude.Int.{ℤ, pos, ◌+ℤ◌, wrap_int}
use neuro_spark.AiScheduler.{
  drain_queues, Ai, AiSchedulerStats, estimate_latency, ai_scheduler_submit_infer,
}
use neuro_spark.AiScheduler.Idle.{IsIdle}
use neuro_spark.AiScheduler.Submit.{submit_infer_lem}

-- The counters of the benchmark's loop.
pub record Tally : Type 0 where
  pub ok : ℕ
  pub lat_sum : ℕ
  pub lat_max : ℕ

abbrev pub no_rounds : Tally
no_rounds = record { ok = 0; lat_sum = 0; lat_max = 0 }

abbrev pub tally_round : Bool → AiSchedulerStats → Tally → Tally
tally_round done g t =
    let l = g.last_latency in
    if done
    then record {
      ok = inc32 t.ok;
      lat_sum = add32 t.lat_sum l;
      lat_max = if ltb t.lat_max l then l else t.lat_max;
    }
    else t

module _ {R : Type 0} (infer : List ℕ → ℤ → ℕ → R → Option ℤ × R) where
  -- The loop of the benchmark, `n` rounds from round `i` on; its `out` stands at `out`.
  pub bench_loop : (ℕ → ℕ) → ℕ → ℕ → List ℕ → ℤ → ℕ → ℕ → ℕ → Tally → Ai R → Tally × Ai R
  bench_loop clock done out name input seed zero i t s = (t, s)
  bench_loop clock done out name input seed (suc n) i t s =
      let s0 = record s { outs = update s.outs out (pos 0) } in
      let (ok, s') =
        ai_scheduler_submit_infer infer (clock i) done (some name) (wrap_int (input +ℤ pos i))
          (add32 seed i) (some out) s0 in
      bench_loop clock done out name input seed n (i + 1) (tally_round ok s'.stats t) s'

  -- The answers stored for `out_ok`, `out_avg_latency` and `out_max_latency`. `clock i` is the
  -- tick at which round `i` begins.
  pub ai_scheduler_run_bench :
      (ℕ → ℕ) → ℕ → ℕ → Option (List ℕ) → ℤ → ℤ → ℕ → Ai R → Option (ℕ × ℕ × ℕ) × Ai R
  unfolding bench_loop
  ai_scheduler_run_bench clock done out (some name) (pos rounds) input seed s =
      let (t, s1) = bench_loop clock done out name input seed rounds 0 no_rounds s in
      let s2 = drain_queues infer 1024 s1 in
      if rounds == 0 || ltb 4096 rounds
      then (none, s)
      else (some (t.ok, if t.ok == 0 then 0 else t.lat_sum / t.ok, t.lat_max), s2)
  ai_scheduler_run_bench clock done out name rounds input seed s = (none, s)

-- `k` rounds have succeeded, each with the latency `l`.
record Tallied (l k : ℕ) (t : Tally) : Type 0 where
  ok_at : t.ok ≡ k
  sum_at : t.lat_sum ≡ k * l
  max_at : t.lat_max ≡ (if k == 0 then 0 else l)

estimate-le : (mode pct : ℕ) → 1 ≤ pct → pct ≤ 100 → estimate_latency mode pct 1 ≤ 15
unfolding estimate_latency
estimate-le mode pct a b = ground arith

tally_round-Tallied :
    (l k : ℕ) (g : AiSchedulerStats) (t : Tally)
    → l ≤ 15
    → k < 4096
    → g.last_latency ≡ l
    → Tallied l k t
    → Tallied l (k + 1) (tally_round true g t)
tally_round-Tallied l k g t a b e v =
    let small : k * l ≤ 4096 * 15 = let b' : k ≤ 4096 = omega arith in mul-le-mul b' a in
    let more : (k + 1) * l ≡ k * l + l = omega arith in
    record {
      ok_at = ground (arith, v.ok_at);
      sum_at = rw (more, v.sum_at, e) (omega arith);
      max_at = ground (arith, v.max_at);
    }

module _ {R : Type 0} (infer : List ℕ → ℤ → ℕ → R → Option ℤ × R) where
  bench_loop-Tallied :
      (clock : ℕ → ℕ) (done out : ℕ) (name : List ℕ) (input : ℤ) (seed l n i k : ℕ) (t : Tally)
      (s : Ai R)
      → IsIdle s
      → estimate_latency s.stats.qos_mode s.stats.budget_pct 1 ≡ l
      → k + n ≤ 4096
      → Tallied l k t
      → let (t', s') = bench_loop infer clock done out name input seed n i t s in
        Tallied l (k + n) t' × IsIdle s'
  unfolding bench_loop
  bench_loop-Tallied clock done out name input seed l zero i k t s v e h w =
      let z : k ≡ k + 0 = omega arith in (subst (λ m. Tallied l m t) z w, v)
  bench_loop-Tallied clock done out name input seed l (suc n) i k t s v e h w =
      let z : k + 1 + n ≡ k + suc n = omega arith in
      let q =
        submit_infer_lem infer (clock i) done name (wrap_int (input +ℤ pos i)) (add32 seed i) out s0
          idle in
      let again : estimate_latency s'.stats.qos_mode s'.stats.budget_pct 1 ≡ l =
        rw (q.4.0, q.4.1) e in
      let go =
        bench_loop-Tallied clock done out name input seed l n (i + 1) (k + 1)
          (tally_round true s'.stats t) s' q.1 again (omega arith)
          (tally_round-Tallied l k s'.stats t l_le (omega arith) (q.5 ∙ e) w) in
      let r =
        bench_loop infer clock done out name input seed n (i + 1) (tally_round true s'.stats t)
          s' in
      rw (q.0, bench_loop) (subst (λ m. Tallied l m r.0) z go.0, go.1)
    where
      s0 : Ai R
      s0 = record s { outs = update s.outs out (pos 0) }

      idle : IsIdle s0
      idle = record {
        stream_empty = v.stream_empty;
        batch_empty = v.batch_empty;
        mode_in = v.mode_in;
        budget_in = v.budget_in;
      }

      s' : Ai R
      s' =
          (ai_scheduler_submit_infer infer (clock i) done (some name) (wrap_int (input +ℤ pos i))
            (add32 seed i) (some out) s0).1

      l_le : l ≤ 15
      l_le = rw (← e) (estimate-le _ _ v.budget_in.0 v.budget_in.1)

  -- From an idle scheduler, a benchmark of 1 to 4096 rounds reports that every round has
  -- succeeded, even if the runtime has failed in all, and as average and largest latency the
  -- constant that the settings determine: nothing is measured.
  run_bench_lem :
      (clock : ℕ → ℕ) (done out : ℕ) (name : List ℕ) (rounds : ℕ) (input : ℤ) (seed : ℕ) (s : Ai R)
      → IsIdle s
      → 1 ≤ rounds
      → rounds ≤ 4096
      → let l = estimate_latency s.stats.qos_mode s.stats.budget_pct 1 in
        (ai_scheduler_run_bench infer clock done out (some name) (pos rounds) input seed s).0
        ≡ some (rounds, l, l)
  unfolding ai_scheduler_run_bench
  run_bench_lem clock done out name rounds input seed s v a b =
      let l = estimate_latency s.stats.qos_mode s.stats.budget_pct 1 in
      let start : Tallied l 0 no_rounds = record {
        ok_at = refl;
        sum_at = omega arith;
        max_at = refl;
      } in
      let w =
        (bench_loop-Tallied clock done out name input seed l rounds 0 0 no_rounds s v refl
          (omega arith) start).0 in
      let z : 0 + rounds ≡ rounds = omega arith in
      let avg : rounds * l / rounds ≡ l = mul-div_cancel_left l a in
      let r = bench_loop infer clock done out name input seed rounds 0 no_rounds s in
      let w' = subst (λ m. Tallied l m r.0) z w in
      ground (arith, w'.ok_at, w'.sum_at, w'.max_at, avg)

-- ===== src/ModelManager/Restore.antt =====
-- kernel/model_manager.c: a manifest restores the settings that it was captured from.
use neuro_spark.Prelude.{ℕ, ◌<◌, ◌≡◌, refl, true, false, some, arith, ltb}
use neuro_spark.Prelude.Int.{ℤ, pos, ltb_ℤ, to_word, to_int}
use neuro_spark.ModelManager.{Models, clamp_i32}
use neuro_spark.ModelManager.Manifest.{
  kind_of, params_of, model_manifest_capture, model_manifest_apply,
}
use neuro_spark.ModelManager.Ranges.{Within, InRange, IsValid}

clamp-id : (v lo hi : ℤ) → Within lo hi v → clamp_i32 v lo hi ≡ v
unfolding clamp_i32
clamp-id v lo hi h = ground arith

kind_of-to_word : (k : ℤ) → Within (pos 0) (pos 2) k → kind_of (to_word k) ≡ k
unfolding kind_of to_word to_int
kind_of-to_word k h = ground arith

params_of-capture :
    (s : Models) (t n : ℕ)
    → InRange (s.params t n)
    → params_of (model_manifest_capture s) t n ≡ s.params t n
unfolding params_of model_manifest_capture
params_of-capture s t n h =
    let p = s.params t n in
    rw
      (
        clamp-id p.tau (pos 1) (pos 8) h.tau_in,
        clamp-id p.refractory_ticks (pos 1) (pos 40) h.refractory_in,
        clamp-id p.adaptation_step (pos 10) (pos 600) h.adaptation_in,
        clamp-id p.learning_rate (pos 1) (pos 80) h.rate_in,
        clamp-id p.weight_min (pos 1) (pos 2000) h.min_in,
        clamp-id p.weight_max (pos 10) (pos 4000) h.max_in,
      )
      (let f : ltb_ℤ p.weight_max p.weight_min ≡ false = ground (arith, h) in rw f refl)

-- Applying, to whatever state, a manifest that was captured from valid settings succeeds and
-- restores them: the kinds of both tasks, whether learning by timing is on, and the parameters of
-- every neuron. It leaves the neurons alone.
pub apply-capture :
    (s s' : Models)
    → IsValid s
    → let r = model_manifest_apply (some (model_manifest_capture s)) s' in
      (r.0 ≡ true)
      × (r.1.stdp_enabled ≡ s.stdp_enabled)
      × ((t : ℕ) → t < 2 → r.1.task_model t ≡ s.task_model t)
      × ((t n : ℕ) → t < 2 → n < 5 → r.1.params t n ≡ s.params t n)
      × (r.1.neurons ≡ s'.neurons)
unfolding model_manifest_apply model_manifest_capture
apply-capture s s' v = (
  refl,
  ground arith,
  λ t a. let f : ltb t 2 ≡ true = ground arith in rw f (kind_of-to_word _ (v.kinds t a)),
  λ t n a b.
      let f : ltb t 2 ≡ true = ground arith in
      let g : ltb n 5 ≡ true = ground arith in
      rw (f, g) (params_of-capture s t n (v.ranges t n a b)),
  refl,
)

-- ===== src/ModelManager/Manifest.antt =====
-- kernel/model_manager.c: the manifest that stores the settings, and applying one.
use neuro_spark.Prelude.{
  ℕ, Bool, true, false, ◌||◌, not, Option, none, some, ltb, ◌==◌, if◌then◌else◌,
}
use neuro_spark.Prelude.Int.{ℤ, pos, ltb_ℤ, to_word, to_int}
use neuro_spark.ModelManager.{
  Models, ModelNeuronParams, model_kind_lif, model_kind_stdp, model_task_count, in_tables,
  clamp_i32,
}

pub record ModelManifestData : Type 0 where
  pub version : ℕ
  pub stdp_enabled : ℕ
  pub task_model : ℕ → ℕ
  pub tau : ℕ → ℕ → ℤ
  pub refractory_ticks : ℕ → ℕ → ℤ
  pub adaptation_step : ℕ → ℕ → ℤ
  pub learning_rate : ℕ → ℕ → ℤ
  pub weight_min : ℕ → ℕ → ℤ
  pub weight_max : ℕ → ℕ → ℤ

unfoldable pub model_manifest_capture : Models → ModelManifestData
model_manifest_capture s = record {
  version = 1;
  stdp_enabled = if s.stdp_enabled then 1 else 0;
  task_model = λ t. to_word (s.task_model t);
  tau = λ t n. (s.params t n).tau;
  refractory_ticks = λ t n. (s.params t n).refractory_ticks;
  adaptation_step = λ t n. (s.params t n).adaptation_step;
  learning_rate = λ t n. (s.params t n).learning_rate;
  weight_min = λ t n. (s.params t n).weight_min;
  weight_max = λ t n. (s.params t n).weight_max;
}

unfoldable pub kind_of : ℕ → ℤ
unfolding to_int
kind_of w =
    let tm = to_int w in
    if ltb_ℤ tm model_kind_lif || ltb_ℤ model_kind_stdp tm then model_kind_lif else tm

-- The parameters of neuron `n` of task `t` as the loop stores them.
unfoldable pub params_of : ModelManifestData → ℕ → ℕ → ModelNeuronParams
params_of m t n =
    let low = clamp_i32 (m.weight_min t n) (pos 1) (pos 2000) in
    let high = clamp_i32 (m.weight_max t n) (pos 10) (pos 4000) in
    record {
      tau = clamp_i32 (m.tau t n) (pos 1) (pos 8);
      refractory_ticks = clamp_i32 (m.refractory_ticks t n) (pos 1) (pos 40);
      adaptation_step = clamp_i32 (m.adaptation_step t n) (pos 10) (pos 600);
      learning_rate = clamp_i32 (m.learning_rate t n) (pos 1) (pos 80);
      weight_min = if ltb_ℤ high low then high else low;
      weight_max = high;
    }

-- `none` is the null pointer.
unfoldable pub model_manifest_apply : Option ModelManifestData → Models → Bool × Models
model_manifest_apply none s = (false, s)
model_manifest_apply (some m) s = if not (m.version == 1) then (false, s) else (
  true,
  record s {
    stdp_enabled = not (m.stdp_enabled == 0);
    task_model = λ t. if ltb t model_task_count then kind_of (m.task_model t) else s.task_model t;
    params = λ t n. if in_tables t n then params_of m t n else s.params t n;
  },
)

-- ===== src/ModelManager/Tests.antt =====
-- kernel/model_manager.c: runs on settings after start-up.
use neuro_spark.Prelude.{ℕ, ◌<◌, ◌≡◌, refl, true, ◌||◌, ◌⊎◌, some, arith}
use neuro_spark.Prelude.Int.{ℤ, pos, negsuc, ◌+ℤ◌, ◌≤ℤ◌, ltb_ℤ}
use neuro_spark.Vfs.{int_eq, str_eq}
use neuro_spark.ModelManager.{
  Models, Neuron, default_params, model_manager_init, model_select, model_set_param, model_name,
  span, set_tasks, set_neurons, set_one, str_eq_local, clamp_i32, div_int, model_kind_stdp,
  text_stdp, text_wmin,
}
use neuro_spark.ModelManager.Gains.{
  model_adjust_base_gain, model_get_refractory_ticks, model_get_threshold_raise_step,
  model_get_threshold_decay_step,
}
use neuro_spark.ModelManager.Spike.{put_weight, model_on_spike}
use neuro_spark.ModelManager.Manifest.{model_manifest_capture, model_manifest_apply}
use neuro_spark.ModelManager.Ranges.{
  Within, IsValid, Reach, here, next, selects, sets_param, spikes, reached-IsValid,
}
use neuro_spark.ModelManager.Restore.{apply-capture}
use neuro_spark.ModelManager.Weights.{at_least_one, model_on_spike_lem, answers_bounded}

abbrev resting_neuron : Neuron
resting_neuron = record {
  voltage = pos 100;
  spike_count = pos 0;
  id = pos 0;
  synaptic_weight = pos 1999;
  refractory_timer = pos 0;
  dynamic_threshold = pos 150;
}

abbrev blank : Models
blank = record {
  task_model = λ t. negsuc 6;
  stdp_enabled = true;
  params = λ t n. record default_params { tau = negsuc 3 };
  neurons = λ p n. resting_neuron;
}

abbrev started : Models
started = model_manager_init blank

abbrev selected : Models
selected = (model_select (pos 0) (some text_stdp) started).1

-- A lower limit above the upper one is cut to it.
abbrev tuned : Models
tuned = (model_set_param (negsuc 0) (pos 2) (some text_wmin) (pos 5000) selected).1

abbrev fired : Models
fired = model_on_spike (pos 0) (pos 1) (pos 2) tuned

name_selected : model_name (pos 0) tuned ≡ text_stdp
unfolding model_name model_manager_init model_select model_set_param span set_tasks set_neurons
    set_one str_eq_local str_eq
name_selected = refl

min_tuned : (tuned.params 1 2).weight_min ≡ pos 2000
unfolding model_manager_init model_select model_set_param span set_tasks set_neurons set_one
    str_eq_local str_eq clamp_i32
min_tuned = refl

weight_fired :
    ((model_on_spike (pos 0) (pos 1) (pos 2) started).neurons 1 2).synaptic_weight ≡ pos 2000
unfolding model_manager_init model_on_spike div_int ◌+ℤ◌
weight_fired = refl

abbrev session : Reach started fired
session =
    next
      (next (next here (selects (pos 0) (some text_stdp)))
        (sets_param (negsuc 0) (pos 2) (some text_wmin) (pos 5000)))
      (spikes (pos 0) (pos 1) (pos 2))

reached-IsValid_example : IsValid fired
reached-IsValid_example = reached-IsValid blank session

apply-capture_example :
    let r = model_manifest_apply (some (model_manifest_capture tuned)) blank in
    (r.0 ≡ true)
    × (r.1.stdp_enabled ≡ tuned.stdp_enabled)
    × ((t : ℕ) → t < 2 → r.1.task_model t ≡ tuned.task_model t)
    × ((t n : ℕ) → t < 2 → n < 5 → r.1.params t n ≡ tuned.params t n)
    × (r.1.neurons ≡ blank.neurons)
apply-capture_example = apply-capture tuned blank (
    reached-IsValid blank (
      next (next here (selects (pos 0) (some text_stdp)))
        (sets_param (negsuc 0) (pos 2) (some text_wmin) (pos 5000))))

model_on_spike_lem_example :
    let p = started.params 1 2 in
    let w = (started.neurons 0 2).synaptic_weight in
    (w' : ℤ) × (model_on_spike (pos 1) (pos 0) (pos 2) started ≡ put_weight 0 2 w' started)
    × Within p.weight_min p.weight_max w'
    × (((started.stdp_enabled || int_eq (started.task_model 1) model_kind_stdp) ≡ true)
        ⊎ ((ltb_ℤ p.weight_max w ≡ true) ⊎ (w ≤ℤ w')))
model_on_spike_lem_example =
    model_on_spike_lem started 1 0 2 (omega arith) (omega arith) (omega arith)
      (reached-IsValid blank here)

answers_bounded_example :
    Within
      (pos 1)
      (at_least_one (pos 90) +ℤ pos 26)
      (model_adjust_base_gain (pos 0) (pos 2) (pos 90) 6 fired)
    × Within (pos 1) (pos 40) (model_get_refractory_ticks (pos 0) (pos 2) fired)
    × Within (pos 10) (pos 600) (model_get_threshold_raise_step (pos 0) (pos 2) fired)
    × Within (pos 35) (pos 100) (model_get_threshold_decay_step (pos 0) (pos 2) fired).0
answers_bounded_example =
    answers_bounded fired 0 2 6 (pos 90) (omega arith) (omega arith) (omega arith)
      (reached-IsValid blank session)

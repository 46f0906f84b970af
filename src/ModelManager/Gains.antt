-- ===== src/ModelManager/Gains.antt =====
-- kernel/model_manager.c: what the parameters do to the gain, the refractory time and the
-- thresholds of a neuron.
use neuro_spark.Prelude.{ℕ, Bool, ◌||◌, ◌==◌, ◌%◌, if◌then◌else◌}
use neuro_spark.Prelude.Int.{ℤ, pos, pos_part, ◌+ℤ◌, ltb_ℤ, wrap_int}
use neuro_spark.Vfs.{out_of_range, int_eq}
use neuro_spark.ModelManager.{
  Models, model_kind_lif, model_kind_adapt, model_kind_stdp, model_task_count, model_neuron_count,
  div_int, put_params,
}

-- A task or a neuron that the tables do not have.
abbrev pub no_such : ℤ → ℤ → Bool
no_such task_id neuron_id =
    out_of_range task_id model_task_count || out_of_range neuron_id model_neuron_count

-- `x <= 0`.
abbrev pub not_positive : ℤ → Bool
not_positive x = ltb_ℤ x (pos 1)

-- A gain that overflows, which C leaves undefined, wraps on 32 bits.
unfoldable pub model_adjust_base_gain : ℤ → ℤ → ℤ → ℕ → Models → ℤ
model_adjust_base_gain task_id neuron_id base_gain tick s =
    let kind = s.task_model (pos_part task_id) in
    let p = s.params (pos_part task_id) (pos_part neuron_id) in
    let tau = if not_positive p.tau then pos 1 else p.tau in
    let slowed = div_int base_gain (pos_part tau) in
    let gain = if ltb_ℤ slowed (pos 1) then pos 1 else slowed in
    if no_such task_id neuron_id
    then base_gain
    else if int_eq kind model_kind_adapt
    then wrap_int (gain +ℤ div_int p.adaptation_step 40)
    else if int_eq kind model_kind_stdp
    then (if tick % 3 == 0 then wrap_int (gain +ℤ div_int p.learning_rate 3) else gain)
    else gain

unfoldable pub model_get_refractory_ticks : ℤ → ℤ → Models → ℤ
model_get_refractory_ticks task_id neuron_id s =
    let v = (s.params (pos_part task_id) (pos_part neuron_id)).refractory_ticks in
    if no_such task_id neuron_id then pos 10 else if not_positive v then pos 10 else v

unfoldable pub model_get_threshold_raise_step : ℤ → ℤ → Models → ℤ
model_get_threshold_raise_step task_id neuron_id s =
    let kind = s.task_model (pos_part task_id) in
    let p = s.params (pos_part task_id) (pos_part neuron_id) in
    let step = if not_positive p.adaptation_step then pos 200 else p.adaptation_step in
    let half = div_int step 2 in
    if no_such task_id neuron_id
    then pos 200
    else if int_eq kind model_kind_lif
    then (if ltb_ℤ half (pos 40) then pos 40 else half)
    else step

-- This one mends parameters that are not positive in the table.
unfoldable pub model_get_threshold_decay_step : ℤ → ℤ → Models → ℤ × Models
model_get_threshold_decay_step task_id neuron_id s =
    let t = pos_part task_id in
    let n = pos_part neuron_id in
    let kind = s.task_model t in
    let p = s.params t n in
    let p' = record p {
      adaptation_step = if not_positive p.adaptation_step then pos 200 else p.adaptation_step;
      learning_rate = if not_positive p.learning_rate then pos 10 else p.learning_rate;
    } in
    let step =
      if int_eq kind model_kind_lif
      then pos 35
      else if int_eq kind model_kind_stdp
      then pos 45 +ℤ div_int p'.learning_rate 8
      else pos 50 +ℤ div_int p'.adaptation_step 12 in
    if no_such task_id neuron_id then (pos 50, s) else (step, put_params t n p' s)

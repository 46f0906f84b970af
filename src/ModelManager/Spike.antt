-- ===== src/ModelManager/Spike.antt =====
-- kernel/model_manager.c: `model_on_spike`, the learning step of a neuron that fired.
use neuro_spark.Prelude.{ℕ, ◌+◌, ◌-◌, ◌%◌, ◌||◌, if◌then◌else◌, update}
use neuro_spark.Prelude.Int.{ℤ, pos, pos_part, ◌+ℤ◌, ◌-ℤ◌, ltb_ℤ}
use neuro_spark.Vfs.{out_of_range, int_eq}
use neuro_spark.ModelManager.{
  Models, Neuron, ModelNeuronParams, model_kind_lif, model_kind_stdp, model_task_count,
  model_neuron_count, div_int,
}
use neuro_spark.ModelManager.Gains.{no_such, not_positive}

-- How much is learned: half of it by a LIF neuron, and 1 at least.
unfoldable pub learned : ℤ → ℤ → ℤ
learned kind rate =
    let lr = if not_positive rate then pos 1 else rate in
    let half = div_int lr 2 in
    if int_eq kind model_kind_lif then (if ltb_ℤ half (pos 1) then pos 1 else half) else lr

-- The weight by what the neighbours before and behind do.
unfoldable pub paired : ℤ → Neuron → Neuron → ℤ → ℤ
paired lr prev_n next_n w =
    let w' = if ltb_ℤ (div_int prev_n.dynamic_threshold 2) prev_n.voltage then w +ℤ lr else w in
    if ltb_ℤ next_n.voltage (div_int next_n.dynamic_threshold 4) then w' -ℤ div_int lr 2 else w'

-- The two tests at the end.
unfoldable pub bounded : ModelNeuronParams → ℤ → ℤ
bounded p w =
    let w' = if ltb_ℤ w p.weight_min then p.weight_min else w in
    if ltb_ℤ p.weight_max w' then p.weight_max else w'

abbrev pub put_weight : ℕ → ℕ → ℤ → Models → Models
put_weight pixel n w s = record s {
  neurons =
      update s.neurons pixel
        (update (s.neurons pixel) n (record (s.neurons pixel n) { synaptic_weight = w }));
}

unfoldable pub model_on_spike : ℤ → ℤ → ℤ → Models → Models
unfolding learned paired bounded
model_on_spike task_id pixel_id neuron_id s =
    let t = pos_part task_id in
    let pixel = pos_part pixel_id in
    let i = pos_part neuron_id in
    let kind = s.task_model t in
    let p = s.params t i in
    let lr = learned kind p.learning_rate in
    let prev = (i + model_neuron_count - 1) % model_neuron_count in
    let next = (i + 1) % model_neuron_count in
    let w = (s.neurons pixel i).synaptic_weight +ℤ lr in
    let w' =
      if s.stdp_enabled || int_eq kind model_kind_stdp
      then paired lr (s.neurons pixel prev) (s.neurons pixel next) w
      else w in
    if no_such task_id neuron_id || out_of_range pixel_id model_task_count
    then s
    else put_weight pixel i (bounded p w') s

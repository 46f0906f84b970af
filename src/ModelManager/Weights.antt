-- ===== src/ModelManager/Weights.antt =====
-- kernel/model_manager.c: what a spike does to the weights, and the bounds of the answers.
use neuro_spark.Prelude.{
  ◌^◌, ℕ, ◌+◌, ◌-◌, ◌%◌, ◌<◌, ◌≡◌, refl, ◌⊎◌, inl, inr, true, false, arith, ◌||◌, ◌==◌, leb,
  if◌then◌else◌, Bool-cases,
}
use neuro_spark.Prelude.Int.{
  ℤ, pos, negsuc, pos_part, ◌+ℤ◌, ◌≤ℤ◌, ltb_ℤ, +ℤ_parts, int_laws, wrap_int, wrap_int-id,
}
use native.Mathlib.Nat.{div-le_self}
use neuro_spark.Vfs.{int_eq}
use neuro_spark.ModelManager.{Models, ModelNeuronParams, model_kind_adapt, model_kind_stdp, div_int}
use neuro_spark.ModelManager.Gains.{
  model_adjust_base_gain, model_get_refractory_ticks, model_get_threshold_raise_step,
  model_get_threshold_decay_step,
}
use neuro_spark.ModelManager.Spike.{put_weight, learned, paired, bounded, model_on_spike}
use neuro_spark.ModelManager.Ranges.{Within, InRange, IsValid}

bounded-Within :
    (p : ModelNeuronParams) (w : ℤ)
    → p.weight_min ≤ℤ p.weight_max
    → Within p.weight_min p.weight_max (bounded p w)
unfolding bounded
bounded-Within p w h = ground arith

bounded_above : (p : ModelNeuronParams) (v w : ℤ) → v ≤ℤ w → v ≤ℤ p.weight_max → v ≤ℤ bounded p w
unfolding bounded
bounded_above p v w h k = ground arith

learned_positive : (kind rate : ℤ) → pos 1 ≤ℤ learned kind rate
unfolding learned
learned_positive kind rate = ground arith

-- From valid settings, a spike of a neuron that the tables have stores one weight for it and
-- changes nothing else. The weight is between the smallest and the largest that are set for the
-- neuron, and not below the old one, unless learning by timing is on, or is the kind of the task,
-- or the old weight was above the largest.
pub model_on_spike_lem :
    (s : Models) (t pixel i : ℕ)
    → t < 2
    → pixel < 2
    → i < 5
    → IsValid s
    → let p = s.params t i in
      let w = (s.neurons pixel i).synaptic_weight in
      (w' : ℤ) × (model_on_spike (pos t) (pos pixel) (pos i) s ≡ put_weight pixel i w' s)
      × Within p.weight_min p.weight_max w'
      × (((s.stdp_enabled || int_eq (s.task_model t) model_kind_stdp) ≡ true)
          ⊎ ((ltb_ℤ p.weight_max w ≡ true) ⊎ (w ≤ℤ w')))
unfolding model_on_spike
model_on_spike_lem s t pixel i a b c v =
    let p = s.params t i in
    let in_order = (v.ranges t i a c).ordered in
    let w = (s.neurons pixel i).synaptic_weight in
    let lr = learned (s.task_model t) p.learning_rate in
    let more = learned_positive (s.task_model t) p.learning_rate in
    let both =
      paired lr (s.neurons pixel ((i + 5 - 1) % 5)) (s.neurons pixel ((i + 1) % 5)) (w +ℤ lr) in
    let e : leb 2 t ≡ false = ground arith in
    let f : leb 5 i ≡ false = ground arith in
    let g : leb 2 pixel ≡ false = ground arith in
    elim (Bool-cases (s.stdp_enabled || int_eq (s.task_model t) model_kind_stdp)) [
      | inl q ↦ (bounded p both, rw (e, f, g, q) refl, bounded-Within p both in_order, inl q)
      | inr q ↦ (
        bounded p (w +ℤ lr),
        rw (e, f, g, q) refl,
        bounded-Within p (w +ℤ lr) in_order,
        inr (elim (Bool-cases (ltb_ℤ p.weight_max w)) [
          | inl k ↦ inl k
          | inr k ↦ inr (bounded_above p w (w +ℤ lr) (omega (int_laws, more)) (ground (arith, k)))
        ]),
      )
    ]

-- The gain that is at least 1.
abbrev pub at_least_one : ℤ → ℤ
at_least_one g = if ltb_ℤ g (pos 1) then pos 1 else g

-- Dividing does not make the gain larger.
slowed_lem : (g : ℤ) (d : ℕ) → Within (pos 1) (at_least_one g) (at_least_one (div_int g d))
unfolding div_int
slowed_lem (pos n) d = let q = div-le_self n d in ground (arith, q)
slowed_lem (negsuc n) d = ground arith

rate_lem : (z : ℤ) → Within (pos 1) (pos 80) z → Within (pos 0) (pos 26) (div_int z 3)
unfolding div_int
rate_lem z h = ground (arith, h)

adaptation_lem : (z : ℤ) → Within (pos 10) (pos 600) z → Within (pos 0) (pos 15) (div_int z 40)
unfolding div_int
adaptation_lem z h = ground (arith, h)

sum-Within :
    (top gain more : ℤ)
    → Within (pos 1) top gain
    → Within (pos 0) (pos 26) more
    → Within (pos 1) (top +ℤ pos 26) (gain +ℤ more)
sum-Within top gain more h k =
    let p = +ℤ_parts gain more in
    let q = +ℤ_parts top (pos 26) in (omega (arith, h, k, p, q), omega (arith, h, k, p, q))

-- Such a sum does not overflow if the gain leaves room for it.
wrapped-Within :
    (top gain more : ℤ)
    → top ≤ℤ pos (2 ^ 31 - 27)
    → Within (pos 1) top gain
    → Within (pos 0) (pos 26) more
    → Within (pos 1) (top +ℤ pos 26) (wrap_int (gain +ℤ more))
wrapped-Within top gain more room h k =
    let w = sum-Within top gain more h k in
    let q = +ℤ_parts top (pos 26) in
    let same : wrap_int (gain +ℤ more) ≡ gain +ℤ more =
      wrap_int-id (gain +ℤ more) (omega (arith, w), omega (arith, room, w, q)) in
    rw same w

plain-Within : (top gain : ℤ) → Within (pos 1) top gain → Within (pos 1) (top +ℤ pos 26) gain
plain-Within top gain h = let q = +ℤ_parts top (pos 26) in (omega (arith, h), omega (arith, h, q))

gain_lem :
    (s : Models) (t i tick : ℕ) (g : ℤ)
    → t < 2
    → i < 5
    → g ≤ℤ pos (2 ^ 31 - 27)
    → InRange (s.params t i)
    → Within (pos 1) (at_least_one g +ℤ pos 26) (model_adjust_base_gain (pos t) (pos i) g tick s)
unfolding model_adjust_base_gain
gain_lem s t i tick g a c m h =
    let p = s.params t i in
    let slow = slowed_lem g (pos_part p.tau) in
    let r = rate_lem p.learning_rate h.rate_in in
    let x = adaptation_lem p.adaptation_step h.adaptation_in in
    let pt : ltb_ℤ p.tau (pos 1) ≡ false = let k = h.tau_in in ground (arith, k) in
    let e : leb 2 t ≡ false = ground arith in
    let f : leb 5 i ≡ false = ground arith in
    let gain = at_least_one (div_int g (pos_part p.tau)) in
    let top = at_least_one g in
    let room : top ≤ℤ pos (2 ^ 31 - 27) = ground (arith, m) in
    rw (e, f, pt)
      (elim (Bool-cases (int_eq (s.task_model t) model_kind_adapt)) [
        | inl q ↦ rw q (
            wrapped-Within top gain (div_int p.adaptation_step 40) room slow
              (omega (arith, x), omega (arith, x)))
        | inr q ↦ rw q (elim (Bool-cases (int_eq (s.task_model t) model_kind_stdp)) [
          | inr k ↦ rw k (plain-Within top gain slow)
          | inl k ↦ rw k (elim (Bool-cases (tick % 3 == 0)) [
            | inl z ↦ rw z (wrapped-Within top gain (div_int p.learning_rate 3) room slow r)
            | inr z ↦ rw z (plain-Within top gain slow)
          ])
        ])
      ])

raise_lem :
    (s : Models) (t i : ℕ)
    → t < 2
    → i < 5
    → InRange (s.params t i)
    → Within (pos 10) (pos 600) (model_get_threshold_raise_step (pos t) (pos i) s)
unfolding model_get_threshold_raise_step div_int
raise_lem s t i a c h = let k = h.adaptation_in in ground (arith, k)

decay_lem :
    (s : Models) (t i : ℕ)
    → t < 2
    → i < 5
    → InRange (s.params t i)
    → Within (pos 35) (pos 100) (model_get_threshold_decay_step (pos t) (pos i) s).0
unfolding model_get_threshold_decay_step div_int ◌+ℤ◌
decay_lem s t i a c h = let k = h.adaptation_in in let r = h.rate_in in ground (arith, k, r)

refractory_lem :
    (s : Models) (t i : ℕ)
    → t < 2
    → i < 5
    → InRange (s.params t i)
    → Within (pos 1) (pos 40) (model_get_refractory_ticks (pos t) (pos i) s)
unfolding model_get_refractory_ticks
refractory_lem s t i a c h = let k = h.refractory_in in ground (arith, k)

-- For every neuron that the tables have, and a gain that is at most 2^31 - 27, so that adding to it
-- does not overflow, the answers from valid settings are in range: the gain is at least 1, and at most 26 more than the larger of 1 and the gain that is given; the refractory
-- time is between 1 and 40; the step that raises a threshold between 10 and 600, and the step that
-- lowers it between 35 and 100.
pub answers_bounded :
    (s : Models) (t i tick : ℕ) (g : ℤ)
    → t < 2
    → i < 5
    → g ≤ℤ pos (2 ^ 31 - 27)
    → IsValid s
    → Within (pos 1) (at_least_one g +ℤ pos 26) (model_adjust_base_gain (pos t) (pos i) g tick s)
      × Within (pos 1) (pos 40) (model_get_refractory_ticks (pos t) (pos i) s)
      × Within (pos 10) (pos 600) (model_get_threshold_raise_step (pos t) (pos i) s)
      × Within (pos 35) (pos 100) (model_get_threshold_decay_step (pos t) (pos i) s).0
answers_bounded s t i tick g a c m v =
    let h = v.ranges t i a c in
    (
      gain_lem s t i tick g a c m h,
      refractory_lem s t i a c h,
      raise_lem s t i a c h,
      decay_lem s t i a c h,
    )

-- ===== src/ModelManager/Ranges.antt =====
-- kernel/model_manager.c: whatever is called, the settings stay in their ranges.
use neuro_spark.Prelude.{
  ℕ, zero, suc, ◌+◌, ◌<◌, ◌≤◌, ◌==◌, ltb, ◌||◌, ◌≡◌, sym, subst, inl, inr, true, Option, none, some,
  arith, List, Option-cases, Bool-cases,
}
use neuro_spark.Prelude.Int.{ℤ, pos, pos_part, ◌≤ℤ◌}
use neuro_spark.Vfs.{out_of_range}
use neuro_spark.ModelManager.{
  Models, ModelNeuronParams, clamp_i32, model_name_to_kind, model_manager_init, model_select,
  set_one, set_neurons, set_tasks, put_params, model_set_param, model_set_stdp, default_params,
  span, is_empty,
}
use neuro_spark.ModelManager.Gains.{no_such, model_get_threshold_decay_step}
use neuro_spark.ModelManager.Spike.{model_on_spike}
use neuro_spark.ModelManager.Manifest.{ModelManifestData, params_of, kind_of, model_manifest_apply}

abbrev pub Within : ℤ → ℤ → ℤ → Type 0
Within lo hi v = (lo ≤ℤ v) × (v ≤ℤ hi)

-- The ranges that `model_set_param` and `model_manifest_apply` enforce.
pub record InRange (p : ModelNeuronParams) : Type 0 where
  pub tau_in : Within (pos 1) (pos 8) p.tau
  pub refractory_in : Within (pos 1) (pos 40) p.refractory_ticks
  pub adaptation_in : Within (pos 10) (pos 600) p.adaptation_step
  pub rate_in : Within (pos 1) (pos 80) p.learning_rate
  pub min_in : Within (pos 1) (pos 2000) p.weight_min
  pub max_in : Within (pos 10) (pos 4000) p.weight_max
  pub ordered : p.weight_min ≤ℤ p.weight_max

pub record IsValid (s : Models) : Type 0 where
  pub kinds : (t : ℕ) → t < 2 → Within (pos 0) (pos 2) (s.task_model t)
  pub ranges : (t n : ℕ) → t < 2 → n < 5 → InRange (s.params t n)

clamp-Within : (v lo hi : ℤ) → lo ≤ℤ hi → Within lo hi (clamp_i32 v lo hi)
unfolding clamp_i32
clamp-Within v lo hi h = ground arith

set_one-InRange :
    (key : Option (List ℕ)) (v : ℤ) (p q : ModelNeuronParams)
    → InRange p
    → set_one key v p ≡ some q
    → InRange q
unfolding set_one
set_one-InRange key v p q h e =
    let t = clamp-Within v (pos 1) (pos 8) (omega arith) in
    let r = clamp-Within v (pos 1) (pos 40) (omega arith) in
    let a = clamp-Within v (pos 10) (pos 600) (omega arith) in
    let l = clamp-Within v (pos 1) (pos 80) (omega arith) in
    let i = clamp-Within v (pos 1) (pos 2000) (omega arith) in
    let x = clamp-Within v (pos 10) (pos 4000) (omega arith) in
    record {
      tau_in = ground (arith, h, t);
      refractory_in = ground (arith, h, r);
      adaptation_in = ground (arith, h, a);
      rate_in = ground (arith, h, l);
      min_in = ground (arith, h, i);
      max_in = ground (arith, h, x);
      ordered = ground (arith, h, i, x);
    }

default-InRange : InRange default_params
default-InRange = record {
  tau_in = (omega arith, omega arith);
  refractory_in = (omega arith, omega arith);
  adaptation_in = (omega arith, omega arith);
  rate_in = (omega arith, omega arith);
  min_in = (omega arith, omega arith);
  max_in = (omega arith, omega arith);
  ordered = omega arith;
}

params_of-InRange : (m : ModelManifestData) (t n : ℕ) → InRange (params_of m t n)
unfolding params_of
params_of-InRange m t n =
    let i = clamp-Within (m.weight_min t n) (pos 1) (pos 2000) (omega arith) in
    let x = clamp-Within (m.weight_max t n) (pos 10) (pos 4000) (omega arith) in
    record {
      tau_in = clamp-Within _ _ _ (omega arith);
      refractory_in = clamp-Within _ _ _ (omega arith);
      adaptation_in = clamp-Within _ _ _ (omega arith);
      rate_in = clamp-Within _ _ _ (omega arith);
      min_in = ground (arith, i, x);
      max_in = x;
      ordered = ground (arith, i, x);
    }

kind_of_lem : (w : ℕ) → Within (pos 0) (pos 2) (kind_of w)
unfolding kind_of
kind_of_lem w = ground arith

put-IsValid :
    (t n : ℕ) (p : ModelNeuronParams) (s : Models)
    → InRange p
    → IsValid s
    → IsValid (put_params t n p s)
put-IsValid t n p s h v = record {
  kinds = v.kinds;
  ranges = λ t' n' a b. elim (Bool-cases (t == t')) [
    | inl e ↦ rw e (elim (Bool-cases (n == n')) [
      | inl q ↦ rw q h
      | inr q ↦ rw q (let same : t ≡ t' = ground arith in rw same (v.ranges t' n' a b))
    ])
    | inr e ↦ rw e (v.ranges t' n' a b)
  ];
}

set_neurons-IsValid :
    (key : Option (List ℕ)) (value : ℤ) (t n count : ℕ) (s : Models)
    → t < 2
    → n + count ≤ 5
    → IsValid s
    → IsValid (set_neurons key value t n count s).1
unfolding set_neurons
set_neurons-IsValid key value t n zero s a b v = v
set_neurons-IsValid key value t n (suc count) s a b v =
    elim (Option-cases (set_one key value (s.params t n))) [
      | inl e ↦ rw (e, set_neurons) v
      | inr (p, e) ↦
          rw (e, set_neurons)
            (set_neurons-IsValid key value t (n + 1) count (put_params t n p s) a (omega arith) (
              put-IsValid t n p s
                (set_one-InRange key value (s.params t n) p (v.ranges t n a (omega arith)) e) v))
    ]

set_tasks-IsValid :
    (key : Option (List ℕ)) (value : ℤ) (t n many count : ℕ) (s : Models)
    → t + count ≤ 2
    → n + many ≤ 5
    → IsValid s
    → IsValid (set_tasks key value t (n, many) count s).1
unfolding set_tasks
set_tasks-IsValid key value t n many zero s a b v = v
set_tasks-IsValid key value t n many (suc count) s a b v =
    let here = set_neurons-IsValid key value t n many s (omega arith) b v in
    elim (Bool-cases (set_neurons key value t n many s).0) [
      | inl e ↦ rw e (set_tasks-IsValid key value (t + 1) n many count _ (omega arith) b here)
      | inr e ↦ rw e here
    ]

-- Every span lies in its table.
span_lem : (z : ℤ) (limit a k : ℕ) → span z limit ≡ some (a, k) → a + k ≤ limit
unfolding span
span_lem z limit a k e = ground arith

set_param-IsValid :
    (task neuron : ℤ) (key : Option (List ℕ)) (value : ℤ) (s : Models)
    → IsValid s
    → IsValid (model_set_param task neuron key value s).1
unfolding model_set_param
set_param-IsValid task neuron key value s v = elim (Bool-cases (is_empty key)) [
  | inl e ↦ rw e v
  | inr e ↦ rw e (elim (Option-cases (span task 2)) [
    | inl q ↦ rw q v
    | inr ((t, tasks), q) ↦ rw q (elim (Option-cases (span neuron 5)) [
      | inl r ↦ rw r v
      | inr ((n, many), r) ↦ rw r (
          set_tasks-IsValid key value t n many tasks s (span_lem task 2 t tasks q)
            (span_lem neuron 5 n many r) v)
    ])
  ])
]

select-params :
    (task : ℤ) (name : Option (List ℕ)) (s : Models)
    → (model_select task name s).1.params ≡ s.params
unfolding model_select
select-params task name s = ground arith

select-IsValid :
    (task : ℤ) (name : Option (List ℕ)) (s : Models)
    → IsValid s
    → IsValid (model_select task name s).1
unfolding model_select model_name_to_kind
select-IsValid task name s v = record {
  kinds = λ t h. let k = v.kinds t h in ground (arith, k);
  ranges =
      λ t n a b. subst (λ f. InRange (f t n)) (sym (select-params task name s)) (v.ranges t n a b);
}

init-IsValid : (s : Models) → IsValid (model_manager_init s)
unfolding model_manager_init
init-IsValid s = record {
  kinds = λ t h. ground arith;
  ranges = λ t n a b.
      let f : ltb t 2 ≡ true = ground arith in
      let g : ltb n 5 ≡ true = ground arith in rw (f, g) default-InRange;
}

apply-IsValid :
    (m : Option ModelManifestData) (s : Models) → IsValid s → IsValid (model_manifest_apply m s).1
unfolding model_manifest_apply
apply-IsValid none s v = v
apply-IsValid (some m) s v = elim (Bool-cases (m.version == 1)) [
  | inl e ↦ rw e (record {
    kinds = λ t h. let f : ltb t 2 ≡ true = ground arith in rw f (kind_of_lem (m.task_model t));
    ranges = λ t n a b.
        let f : ltb t 2 ≡ true = ground arith in
        let g : ltb n 5 ≡ true = ground arith in rw (f, g) (params_of-InRange m t n);
  })
  | inr e ↦ rw e v
]

decay-IsValid :
    (task neuron : ℤ) (s : Models)
    → IsValid s
    → IsValid (model_get_threshold_decay_step task neuron s).1
unfolding model_get_threshold_decay_step
decay-IsValid task neuron s v = elim (Bool-cases (no_such task neuron)) [
  | inl e ↦ rw e v
  | inr e ↦
      let a : pos_part task < 2 = ground arith in
      let b : pos_part neuron < 5 = ground arith in
      let h = v.ranges (pos_part task) (pos_part neuron) a b in
      rw e (
        put-IsValid (pos_part task) (pos_part neuron) _ s
          (record {
            tau_in = h.tau_in;
            refractory_in = h.refractory_in;
            adaptation_in = ground (arith, h);
            rate_in = ground (arith, h);
            min_in = h.min_in;
            max_in = h.max_in;
            ordered = h.ordered;
          })
          v)
]

spike-IsValid :
    (task pixel neuron : ℤ) (s : Models) → IsValid s → IsValid (model_on_spike task pixel neuron s)
unfolding model_on_spike
spike-IsValid task pixel neuron s v =
    elim (Bool-cases (no_such task neuron || out_of_range pixel 2)) [
      | inl e ↦ rw e v
      | inr e ↦ rw e (record { kinds = v.kinds; ranges = v.ranges })
    ]

-- The calls that change the state.
pub data Step (s : Models) : Models → Type 0 where
  selects : (task : ℤ) (name : Option (List ℕ)) → Step s (model_select task name s).1
  sets_param :
      (task neuron : ℤ) (key : Option (List ℕ)) (value : ℤ)
      → Step s (model_set_param task neuron key value s).1
  sets_stdp : (enabled : ℤ) → Step s (model_set_stdp enabled s)
  decays : (task neuron : ℤ) → Step s (model_get_threshold_decay_step task neuron s).1
  spikes : (task pixel neuron : ℤ) → Step s (model_on_spike task pixel neuron s)
  applies : (m : Option ModelManifestData) → Step s (model_manifest_apply m s).1

pub data Reach (s : Models) : Models → Type 0 where
  here : Reach s s
  next : {t u : Models} → Reach s t → Step t u → Reach s u

Step-IsValid : {s t : Models} → Step s t → IsValid s → IsValid t
unfolding model_set_stdp
Step-IsValid {s} (selects task name) v = select-IsValid task name s v
Step-IsValid {s} (sets_param task neuron key value) v = set_param-IsValid task neuron key value s v
Step-IsValid {s} (sets_stdp enabled) v = record { kinds = v.kinds; ranges = v.ranges }
Step-IsValid {s} (decays task neuron) v = decay-IsValid task neuron s v
Step-IsValid {s} (spikes task pixel neuron) v = spike-IsValid task pixel neuron s v
Step-IsValid {s} (applies m) v = apply-IsValid m s v

-- After `model_manager_init`, whatever is selected, set, applied or learned, and with whatever
-- arguments: the kind of each of the two tasks is one of the three, and every parameter of their
-- neurons is in its range, with a smallest weight that is not above the largest.
pub reached-IsValid : (s : Models) {t : Models} → Reach (model_manager_init s) t → IsValid t
reached-IsValid s here = init-IsValid s
reached-IsValid s (next r st) = Step-IsValid st (reached-IsValid s r)

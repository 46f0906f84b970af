-- ===== src/ModelManager.antt =====
-- kernel/model_manager.c: the neuron models of the two tasks, their parameters, what a spike does
-- to a weight, and the manifest that stores the settings. A name is its characters up to the NUL;
-- `none` is the null pointer.
pub mod Gains
pub mod Spike
pub mod Manifest
pub mod Ranges
pub mod Restore
pub mod Weights
mod Tests
use neuro_spark.Prelude.{
  ℕ, zero, suc, ◌+◌, ◌-◌, ◌/◌, ◌%◌, ◌^◌, Bool, true, false, ◌&&◌, ◌||◌, not, List, [], ◌∷◌, Option,
  none, some, ltb, ◌==◌, if◌then◌else◌, update,
}
use neuro_spark.Prelude.Int.{ℤ, pos, negsuc, pos_part, sub_ℕ, ◌+ℤ◌, ◌-ℤ◌, ltb_ℤ}
use neuro_spark.Vfs.{is_neg, out_of_range, int_eq, str_eq}

abbrev pub model_kind_lif : ℤ
model_kind_lif = pos 0

abbrev pub model_kind_adapt : ℤ
model_kind_adapt = pos 1

abbrev pub model_kind_stdp : ℤ
model_kind_stdp = pos 2

abbrev pub model_task_count : ℕ
model_task_count = 2

abbrev pub model_neuron_count : ℕ
model_neuron_count = 5

pub record Neuron : Type 0 where
  pub voltage : ℤ
  pub spike_count : ℤ
  pub id : ℤ
  pub synaptic_weight : ℤ
  pub refractory_timer : ℤ
  pub dynamic_threshold : ℤ

pub record ModelNeuronParams : Type 0 where
  pub tau : ℤ
  pub refractory_ticks : ℤ
  pub adaptation_step : ℤ
  pub learning_rate : ℤ
  pub weight_min : ℤ
  pub weight_max : ℤ

-- The file's variables and the neurons of kernel/kernel.c by pixel and number. `stdp_enabled` is
-- an `int` that only ever holds 0 or 1.
pub record Models : Type 0 where
  pub task_model : ℕ → ℤ
  pub stdp_enabled : Bool
  pub params : ℕ → ℕ → ModelNeuronParams
  pub neurons : ℕ → ℕ → Neuron

-- Two strings that are compared are equal if neither is null and the loop of `str_eq` says so.
unfoldable pub str_eq_local : Option (List ℕ) → List ℕ → Bool
str_eq_local none b = false
str_eq_local (some a) b = str_eq a b

unfoldable pub clamp_i32 : ℤ → ℤ → ℤ → ℤ
clamp_i32 value lo hi = if ltb_ℤ value lo then lo else if ltb_ℤ hi value then hi else value

-- `a / d` for a positive `d`: C rounds towards 0.
unfoldable pub div_int : ℤ → ℕ → ℤ
div_int (pos n) d = pos (n / d)
div_int (negsuc n) d = sub_ℕ 0 (suc n / d)

abbrev pub text_lif : List ℕ
text_lif = 108 ∷ 105 ∷ 102 ∷ []

abbrev pub text_adapt : List ℕ
text_adapt = 97 ∷ 100 ∷ 97 ∷ 112 ∷ 116 ∷ []

abbrev pub text_stdp : List ℕ
text_stdp = 115 ∷ 116 ∷ 100 ∷ 112 ∷ []

abbrev pub text_na : List ℕ
text_na = 110 ∷ 97 ∷ []

abbrev pub text_tau : List ℕ
text_tau = 116 ∷ 97 ∷ 117 ∷ []

abbrev pub text_ref : List ℕ
text_ref = 114 ∷ 101 ∷ 102 ∷ []

abbrev pub text_refractory : List ℕ
text_refractory = 114 ∷ 101 ∷ 102 ∷ 114 ∷ 97 ∷ 99 ∷ 116 ∷ 111 ∷ 114 ∷ 121 ∷ []

abbrev pub text_astp : List ℕ
text_astp = 97 ∷ 115 ∷ 116 ∷ 112 ∷ []

abbrev pub text_lr : List ℕ
text_lr = 108 ∷ 114 ∷ []

abbrev pub text_learn : List ℕ
text_learn = 108 ∷ 101 ∷ 97 ∷ 114 ∷ 110 ∷ []

abbrev pub text_wmin : List ℕ
text_wmin = 119 ∷ 109 ∷ 105 ∷ 110 ∷ []

abbrev pub text_wmax : List ℕ
text_wmax = 119 ∷ 109 ∷ 97 ∷ 120 ∷ []

unfoldable pub model_name_to_kind : Option (List ℕ) → ℤ
model_name_to_kind name =
    if str_eq_local name text_lif
    then model_kind_lif
    else if str_eq_local name text_adapt
    then model_kind_adapt
    else if str_eq_local name text_stdp
    then model_kind_stdp
    else negsuc 0

-- The two loops write the 2 times 5 entries.
abbrev pub in_tables : ℕ → ℕ → Bool
in_tables t n = ltb t model_task_count && ltb n model_neuron_count

abbrev pub default_params : ModelNeuronParams
default_params = record {
  tau = pos 1;
  refractory_ticks = pos 10;
  adaptation_step = pos 200;
  learning_rate = pos 10;
  weight_min = pos 50;
  weight_max = pos 2000;
}

unfoldable pub model_manager_init : Models → Models
model_manager_init s = record s {
  stdp_enabled = false;
  task_model = update (update s.task_model 0 model_kind_lif) 1 model_kind_adapt;
  params = λ t n. if in_tables t n then default_params else s.params t n;
}

-- A negative task stands for all.
unfoldable pub model_select : ℤ → Option (List ℕ) → Models → Bool × Models
unfolding model_name_to_kind
model_select task_id name s =
    let kind = model_name_to_kind name in
    if is_neg kind
    then (false, s)
    else if is_neg task_id
    then (
      true,
      record s { task_model = λ t. if ltb t model_task_count then kind else s.task_model t },
    )
    else if out_of_range task_id model_task_count
    then (false, s)
    else (true, record s { task_model = update s.task_model (pos_part task_id) kind })

pub model_name : ℤ → Models → List ℕ
model_name task_id s =
    let kind = s.task_model (pos_part task_id) in
    if out_of_range task_id model_task_count
    then text_na
    else if int_eq kind model_kind_lif
    then text_lif
    else if int_eq kind model_kind_adapt
    then text_adapt
    else if int_eq kind model_kind_stdp
    then text_stdp
    else text_na

-- The body of the loops of `model_set_param`; `none` is `return 0`.
unfoldable pub set_one : Option (List ℕ) → ℤ → ModelNeuronParams → Option ModelNeuronParams
set_one key value p =
    let low = clamp_i32 value (pos 1) (pos 2000) in
    let high = clamp_i32 value (pos 10) (pos 4000) in
    if str_eq_local key text_tau
    then some (record p { tau = clamp_i32 value (pos 1) (pos 8) })
    else if str_eq_local key text_refractory || str_eq_local key text_ref
    then some (record p { refractory_ticks = clamp_i32 value (pos 1) (pos 40) })
    else if str_eq_local key text_adapt || str_eq_local key text_astp
    then some (record p { adaptation_step = clamp_i32 value (pos 10) (pos 600) })
    else if str_eq_local key text_lr || str_eq_local key text_learn
    then some (record p { learning_rate = clamp_i32 value (pos 1) (pos 80) })
    else if str_eq_local key text_wmin
    then some (record p { weight_min = if ltb_ℤ p.weight_max low then p.weight_max else low })
    else if str_eq_local key text_wmax
    then some (record p { weight_max = if ltb_ℤ high p.weight_min then p.weight_min else high })
    else none

abbrev pub put_params : ℕ → ℕ → ModelNeuronParams → Models → Models
put_params t n p s = record s { params = update s.params t (update (s.params t) n p) }

-- The inner loop, for `count` neurons of task `t` from `n` on.
unfoldable pub set_neurons : Option (List ℕ) → ℤ → ℕ → ℕ → ℕ → Models → Bool × Models
set_neurons key value t n zero s = (true, s)
set_neurons key value t n (suc count) s = elim (set_one key value (s.params t n)) [
  | none ↦ (false, s)
  | some p ↦ set_neurons key value t (n + 1) count (put_params t n p s)
]

-- The outer loop, for `count` tasks from `t` on.
unfoldable pub set_tasks : Option (List ℕ) → ℤ → ℕ → ℕ × ℕ → ℕ → Models → Bool × Models
set_tasks key value t (n, many) zero s = (true, s)
set_tasks key value t (n, many) (suc count) s =
    let (ok, s') = set_neurons key value t n many s in
    let rest = set_tasks key value (t + 1) (n, many) count s' in if ok then rest else (false, s')

-- The first index and the number of them; a negative number stands for all `limit`.
unfoldable pub span : ℤ → ℕ → Option (ℕ × ℕ)
span (negsuc k) limit = some (0, limit)
span (pos i) limit = if ltb i limit then some (i, 1) else none

abbrev pub is_empty : Option (List ℕ) → Bool
is_empty none = true
is_empty (some []) = true
is_empty (some (c ∷ cs)) = false

unfoldable pub model_set_param : ℤ → ℤ → Option (List ℕ) → ℤ → Models → Bool × Models
model_set_param task_id neuron_id key value s =
    let answer : Bool × Models = elim (span task_id model_task_count) [
      | none ↦ (false, s)
      | some (t, tasks) ↦ elim (span neuron_id model_neuron_count) [
        | none ↦ (false, s)
        | some ns ↦ set_tasks key value t ns tasks s
      ]
    ] in
    if is_empty key then (false, s) else answer

unfoldable pub model_set_stdp : ℤ → Models → Models
model_set_stdp enabled s = record s { stdp_enabled = not (int_eq enabled (pos 0)) }

pub model_get_stdp : Models → Bool
model_get_stdp s = s.stdp_enabled

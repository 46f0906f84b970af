-- ===== src/Neuro.antt =====
-- kernel/neuromorphic/driver_core.c: the simulated neurons behind the neuromorphic calls.
pub mod Membrane
mod Tests
use neuro_spark.Prelude.{
  ℕ, ◌*◌, Bool, true, false, ◌||◌, List, [], ◌∷◌, Option, none, some, ltb, ◌==◌, if◌then◌else◌,
  update,
}
use neuro_spark.Prelude.Int.{ℤ, pos, negsuc, ◌+ℤ◌, ◌-ℤ◌, ltb_ℤ}

abbrev pub max_sim_neurons : ℕ
max_sim_neurons = 1024

abbrev pub backend_simulator : ℕ
backend_simulator = 0

abbrev pub backend_external : ℕ
backend_external = 1

-- The resting potential, -65.
abbrev pub resting : ℤ
resting = negsuc 64

pub record Neuro : Type 0 where
  pub current_backend : ℕ
  pub sim_membrane : ℕ → ℤ
  pub sim_last_spike : ℕ → ℕ

pub neuro_init : Neuro → Neuro
neuro_init s = record {
  current_backend = backend_simulator;
  sim_membrane = λ i. if ltb i max_sim_neurons then resting else s.sim_membrane i;
  sim_last_spike = λ i. if ltb i max_sim_neurons then 0 else s.sim_last_spike i;
}

pub neuro_set_backend : ℕ → Neuro → Bool × Neuro
neuro_set_backend backend_id s =
    if backend_id == backend_simulator || backend_id == backend_external
    then (true, record s { current_backend = backend_id })
    else (false, s)

pub record NeuroCaps : Type 0 where
  pub backend_id : ℕ
  pub max_neurons : ℕ
  pub max_synapses : ℕ
  pub supports_plasticity : Bool
  pub max_spike_rate_hz : ℕ
  pub name : List ℕ

-- "Software Simulator Backend".
abbrev pub simulator_name : List ℕ
simulator_name =
    83 ∷ 111 ∷ 102 ∷ 116 ∷ 119 ∷ 97 ∷ 114 ∷ 101 ∷ 32 ∷ 83 ∷ 105 ∷ 109 ∷ 117 ∷ 108 ∷ 97 ∷ 116 ∷ 111
    ∷ 114 ∷ 32 ∷ 66 ∷ 97 ∷ 99 ∷ 107 ∷ 101 ∷ 110 ∷ 100 ∷ []

-- "External Hardware (Offline)".
abbrev pub external_name : List ℕ
external_name =
    69 ∷ 120 ∷ 116 ∷ 101 ∷ 114 ∷ 110 ∷ 97 ∷ 108 ∷ 32 ∷ 72 ∷ 97 ∷ 114 ∷ 100 ∷ 119 ∷ 97 ∷ 114 ∷ 101
    ∷ 32 ∷ 40 ∷ 79 ∷ 102 ∷ 102 ∷ 108 ∷ 105 ∷ 110 ∷ 101 ∷ 41 ∷ []

pub neuro_get_caps : Neuro → NeuroCaps
neuro_get_caps s =
    if s.current_backend == backend_simulator
    then record {
      backend_id = s.current_backend;
      max_neurons = max_sim_neurons;
      max_synapses = max_sim_neurons * 100;
      supports_plasticity = true;
      max_spike_rate_hz = 1000;
      name = simulator_name;
    }
    else record {
      backend_id = s.current_backend;
      max_neurons = 0;
      max_synapses = 0;
      supports_plasticity = false;
      max_spike_rate_hz = 0;
      name = external_name;
    }

-- A synaptic weight of 15, and the reset above the threshold.
pub excited : ℤ → ℤ
excited v = let w = v +ℤ pos 15 in if ltb_ℤ (pos 30) w then resting else w

pub neuro_inject_spike : ℕ → ℕ → Neuro → Bool × Neuro
unfolding excited
neuro_inject_spike neuron_id timestamp s =
    if s.current_backend == backend_external
    then (false, s)
    else if ltb neuron_id max_sim_neurons
    then (
      true,
      record s {
        sim_membrane = update s.sim_membrane neuron_id (excited (s.sim_membrane neuron_id));
        sim_last_spike = update s.sim_last_spike neuron_id timestamp;
      },
    )
    else (false, s)

-- A read lets the potential decay by 1.
pub decayed : ℤ → ℤ
decayed v = if ltb_ℤ resting v then v -ℤ pos 1 else v

-- What is stored through `out_voltage`; `none` is the answer 0.
pub neuro_read_membrane : ℕ → Neuro → Option ℤ × Neuro
unfolding decayed
neuro_read_membrane neuron_id s =
    let v = decayed (s.sim_membrane neuron_id) in
    if s.current_backend == backend_external
    then (none, s)
    else if ltb neuron_id max_sim_neurons
    then (some v, record s { sim_membrane = update s.sim_membrane neuron_id v })
    else (none, s)

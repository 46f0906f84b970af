-- ===== src/Neuro/Membrane.antt =====
-- kernel/neuromorphic/driver_core.c: every potential stays between rest and threshold.
use neuro_spark.Prelude.{ℕ, ◌<◌, arith}
use neuro_spark.Prelude.Int.{ℤ, pos, negsuc, ◌+ℤ◌, ◌-ℤ◌, ◌≤ℤ◌}
use neuro_spark.Neuro.{
  Neuro, neuro_init, neuro_set_backend, excited, neuro_inject_spike, decayed, neuro_read_membrane,
}

-- From -65 to 30.
pub IsPotential : ℤ → Type 0
IsPotential v = (negsuc 64 ≤ℤ v) × (v ≤ℤ pos 30)

excited-IsPotential : (v : ℤ) → IsPotential v → IsPotential (excited v)
unfolding excited IsPotential ◌+ℤ◌
excited-IsPotential v h = ground arith

decayed-IsPotential : (v : ℤ) → IsPotential v → IsPotential (decayed v)
unfolding decayed IsPotential ◌-ℤ◌
decayed-IsPotential v h = ground arith

pub IsValid : Neuro → Type 0
IsValid s = (i : ℕ) → i < 1024 → IsPotential (s.sim_membrane i)

-- The calls that change the state.
pub data Step (s : Neuro) : Neuro → Type 0 where
  inits : Step s (neuro_init s)
  sets_backend : (b : ℕ) → Step s (neuro_set_backend b s).1
  injects : (i t : ℕ) → Step s (neuro_inject_spike i t s).1
  reads : (i : ℕ) → Step s (neuro_read_membrane i s).1

pub data Reach (s : Neuro) : Neuro → Type 0 where
  here : Reach s s
  next : {t u : Neuro} → Reach s t → Step t u → Reach s u

init-IsValid : (s : Neuro) → IsValid (neuro_init s)
unfolding neuro_init IsValid IsPotential
init-IsValid s i h = ground arith

Step-IsValid : {s t : Neuro} → Step s t → IsValid s → IsValid t
unfolding neuro_set_backend neuro_inject_spike neuro_read_membrane IsValid
Step-IsValid {s} inits v = init-IsValid s
Step-IsValid {s} (sets_backend b) v = λ i h. ground (arith, v i h)
Step-IsValid {s} (injects k t) v =
    λ i h. ground (arith, v i h, excited-IsPotential (s.sim_membrane i) (v i h))
Step-IsValid {s} (reads k) v =
    λ i h. ground (arith, v i h, decayed-IsPotential (s.sim_membrane i) (v i h))

Reach-IsValid : {s t : Neuro} → Reach s t → IsValid s → IsValid t
Reach-IsValid here v = v
Reach-IsValid (next r st) v = Step-IsValid st (Reach-IsValid r v)

-- After `neuro_init`, whatever is called, the potential of every simulated neuron is between -65
-- and 30.
pub potentials_bounded :
    (s : Neuro) {t : Neuro}
    → Reach (neuro_init s) t
    → (i : ℕ) → i < 1024
    → IsPotential (t.sim_membrane i)
unfolding IsValid
potentials_bounded s r i h = Reach-IsValid r (init-IsValid s) i h

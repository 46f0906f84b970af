-- ===== src/Neuro/Tests.antt =====
-- kernel/neuromorphic/driver_core.c: a neuron that is excited and read.
use neuro_spark.Prelude.{arith}
use neuro_spark.Prelude.Int.{pos}
use neuro_spark.Neuro.{Neuro, neuro_init, neuro_inject_spike, neuro_read_membrane}
use neuro_spark.Neuro.Membrane.{IsPotential, Step, Reach, potentials_bounded}

abbrev garbage : Neuro
garbage = record { current_backend = 7; sim_membrane = λ _. pos 99; sim_last_spike = λ _. 3 }

potentials_bounded_example :
    IsPotential
      ((neuro_read_membrane 5 (neuro_inject_spike 5 100 (neuro_init garbage)).1).1.sim_membrane 5)
potentials_bounded_example =
    potentials_bounded garbage
      (Reach.next (Reach.next Reach.here (Step.injects 5 100)) (Step.reads 5)) 5 (omega arith)

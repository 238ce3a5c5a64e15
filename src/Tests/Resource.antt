-- ===== src/Tests/Resource.antt =====
-- Two calibrations with reads between them.
use quantum_runtime.Prelude.{◌≡◌, refl, [], ◌∷◌, List, none, some}
use quantum_runtime.Calibration.{CalibrationResult}
use quantum_runtime.Resource.{
  Manager, new_manager, Step, begin, publish, read, Observation, seen, step, run_steps,
}
use quantum_runtime.Resource.Register.{IsRegister, run_steps-IsRegister}

abbrev pub measured : CalibrationResult
measured = record {
  schema = "s";
  best_workers = 4;
  copy_rate = 10;
  read_rate = 10;
  bandwidth_class = "low";
  samples = [];
  checksum = 0;
}

abbrev faster : CalibrationResult
faster = record measured { best_workers = 8 }

abbrev calls : List Step
calls = begin measured ∷ read ∷ publish ∷ begin faster ∷ read ∷ []

abbrev observed : List Observation
observed = seen none ∷ seen (some measured) ∷ []

abbrev after : Manager
after = record { last = some measured; calibrating = some faster }

calls-run : run_steps calls new_manager ≡ some (observed, after)
unfolding run_steps step new_manager
calls-run = refl

run_steps-IsRegister_example : IsRegister calls new_manager after observed
run_steps-IsRegister_example = run_steps-IsRegister calls observed after calls-run

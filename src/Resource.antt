-- ===== src/Resource.antt =====
-- The resource manager (internal/resourcecontrol/manager.go), which the handlers call at the same time:
-- it calibrates one host at a time, keeps the last result, and plans with it. A step is a part of a
-- call between two of its locks. What `hostprofile.Discover` and `calibration.Run` give is an input.
pub mod Register
use quantum_runtime.Prelude.{ℕ, String, List, [], ◌∷◌, ◌++◌, Option, none, some, Result}
use quantum_runtime.Host.Profile.{HostProfile}
use quantum_runtime.Calibration.{CalibrationResult}
use quantum_runtime.Placement.Types.{Plan, Request}
use quantum_runtime.Placement.Build.{RequestError, build}

-- `last`, and the result of the call of `Calibrate` that holds `calibrationMu`.
pub record Manager : Type 0 where
  pub last : Option CalibrationResult
  pub calibrating : Option CalibrationResult

-- `New`.
unfoldable pub new_manager : Manager
new_manager = record { last = none; calibrating = none }

-- `begin` locks `calibrationMu` and measures; `publish` stores the result and unlocks; `read` is
-- `LastCalibration`; `make_plan` is `Plan`, on the host that it discovered.
pub data Step : Type 0 where
  begin : CalibrationResult → Step
  publish read : Step
  make_plan : HostProfile → Request → Step

-- What a caller gets.
pub data Observation : Type 0 where
  seen : Option CalibrationResult → Observation
  planned : Option CalibrationResult → Result RequestError Plan → Observation

abbrev pub class_of : Option CalibrationResult → Option String
class_of none = none
class_of (some result) = some result.bandwidth_class

-- The observation of a plan with this last result.
unfoldable pub plan_with : Option CalibrationResult → HostProfile → Request → Observation
plan_with last host request = planned last (build host (class_of last) request)

abbrev pub begun :
    Manager → CalibrationResult → Option CalibrationResult → Option (List Observation × Manager)
begun m result none = some ([], record m { calibrating = some result })
begun m result (some other) = none

abbrev pub published : Manager → Option CalibrationResult → Option (List Observation × Manager)
published m none = none
published m (some result) = some ([], record { last = some result; calibrating = none })

-- `none` where the step has to wait for a lock, or does not belong to a call.
unfoldable pub step : Step → Manager → Option (List Observation × Manager)
step (begin result) m = begun m result m.calibrating
step publish m = published m m.calibrating
step read m = some (seen m.last ∷ [], m)
step (make_plan host request) m = some (plan_with m.last host request ∷ [], m)

abbrev pub prefixed :
    List Observation → Option (List Observation × Manager) → Option (List Observation × Manager)
prefixed first none = none
prefixed first (some (rest, after)) = some (first ++ rest, after)

abbrev pub and_then :
    (Manager → Option (List Observation × Manager))
    → Option (List Observation × Manager)
    → Option (List Observation × Manager)
and_then next none = none
and_then next (some (first, m)) = prefixed first (next m)

-- The steps of all calls, in the order in which they happen.
unfoldable pub run_steps : List Step → Manager → Option (List Observation × Manager)
run_steps [] m = some ([], m)
run_steps (s ∷ steps) m = and_then (run_steps steps) (step s m)

-- ===== src/Resource/Register.antt =====
-- To its callers, the resource manager (internal/resourcecontrol/manager.go) is a register that holds
-- the last calibration.
use mathlib.Core.List.{append-nil}
use quantum_runtime.Prelude.{◌≡◌, sym, ◌∙◌, ap, List, [], ◌∷◌, ◌++◌, Option, none, some}
use quantum_runtime.Host.Profile.{HostProfile}
use quantum_runtime.Calibration.{CalibrationResult}
use quantum_runtime.Placement.Types.{Request}
use quantum_runtime.Resource.{
  Manager, new_manager, Step, begin, publish, read, make_plan, Observation, seen, plan_with,
  prefixed, step, run_steps,
}

-- The operations of the register, each of which happens at once.
pub data Operation : Type 0 where
  write : CalibrationResult → Operation
  look : Operation
  plan : HostProfile → Request → Operation

-- What the operations observe, from the result that the register holds.
unfoldable pub observe : List Operation → Option CalibrationResult → List Observation
observe [] held = []
observe (write result ∷ os) held = observe os (some result)
observe (look ∷ os) held = seen held ∷ observe os held
observe (plan host request ∷ os) held = plan_with held host request ∷ observe os held

-- What the register holds behind the operations.
unfoldable pub held_after : List Operation → Option CalibrationResult → Option CalibrationResult
held_after [] held = held
held_after (write result ∷ os) held = held_after os (some result)
held_after (look ∷ os) held = held_after os held
held_after (plan host request ∷ os) held = held_after os held

-- The results that are written.
unfoldable pub written : List Operation → List CalibrationResult
written [] = []
written (write result ∷ os) = result ∷ written os
written (look ∷ os) = written os
written (plan host request ∷ os) = written os

-- The results of the calibrations that begin.
unfoldable pub begun_results : List Step → List CalibrationResult
begun_results [] = []
begun_results (begin result ∷ steps) = result ∷ begun_results steps
begun_results (publish ∷ steps) = begun_results steps
begun_results (read ∷ steps) = begun_results steps
begun_results (make_plan host request ∷ steps) = begun_results steps

abbrev pub pending : Option CalibrationResult → List CalibrationResult
pending none = []
pending (some result) = result ∷ []

-- The steps look like the operations, and write what they began, in that order, but for a calibration
-- that is not over.
pub record IsRegister (steps : List Step) (before after : Manager) (observed : List Observation)
    : Type 0 where
  pub operations : List Operation
  pub same : observed ≡ observe operations before.last
  pub holds : after.last ≡ held_after operations before.last
  pub ordered :
      pending before.calibrating ++ begun_results steps
      ≡ written operations ++ pending after.calibrating

some_eq : {A : Type 0} {a b : A} → some a ≡ some b → a ≡ b
some_eq e = cc

prefixed-some :
    (first : List Observation) (o : Option (List Observation × Manager))
    (observed : List Observation) (after : Manager)
    → prefixed first o ≡ some (observed, after)
    → (rest : List Observation) × (o ≡ some (rest, after)) × (first ++ rest ≡ observed)
prefixed-some first none observed after h = cc
prefixed-some first (some (rest, m)) observed after h =
    let same = some_eq h in
    (
      rest,
      ap (λ (m : Manager). some (rest, m)) (ap (λ (x : List Observation × Manager). x.1) same),
      ap (λ (x : List Observation × Manager). x.0) same,
    )

steps-IsRegister :
    (steps : List Step) (last calibrating : Option CalibrationResult) (observed : List Observation)
    (after : Manager)
    → run_steps steps (record { last = last; calibrating = calibrating }) ≡ some (observed, after)
    → IsRegister steps (record { last = last; calibrating = calibrating }) after observed
unfolding run_steps step observe held_after written begun_results
steps-IsRegister [] last calibrating observed after h =
    let same = some_eq h in
    record {
      operations = [];
      same = sym (ap (λ (x : List Observation × Manager). x.0) same);
      holds = sym (ap (λ (x : List Observation × Manager). x.1.last) same);
      ordered =
          append-nil (pending calibrating)
          ∙ ap (λ (x : List Observation × Manager). pending x.1.calibrating) same;
    }
steps-IsRegister (begin r ∷ steps) last (some other) observed after h = cc
steps-IsRegister (begin r ∷ steps) last none observed after h =
    let (rest, later, is) = prefixed-some [] _ observed after h in
    let ih = steps-IsRegister steps last (some r) rest after later in
    record {
      operations = ih.operations;
      same = sym is ∙ ih.same;
      holds = ih.holds;
      ordered = ih.ordered;
    }
steps-IsRegister (publish ∷ steps) last none observed after h = cc
steps-IsRegister (publish ∷ steps) last (some r) observed after h =
    let (rest, later, is) = prefixed-some [] _ observed after h in
    let ih = steps-IsRegister steps (some r) none rest after later in
    record {
      operations = write r ∷ ih.operations;
      same = sym is ∙ ih.same;
      holds = ih.holds;
      ordered = ap (λ x. r ∷ x) ih.ordered;
    }
steps-IsRegister (read ∷ steps) last calibrating observed after h =
    let (rest, later, is) = prefixed-some (seen last ∷ []) _ observed after h in
    let ih = steps-IsRegister steps last calibrating rest after later in
    record {
      operations = look ∷ ih.operations;
      same = sym is ∙ ap (λ x. seen last ∷ x) ih.same;
      holds = ih.holds;
      ordered = ih.ordered;
    }
steps-IsRegister (make_plan host request ∷ steps) last calibrating observed after h =
    let (rest, later, is) = prefixed-some (plan_with last host request ∷ []) _ observed after h in
    let ih = steps-IsRegister steps last calibrating rest after later in
    record {
      operations = plan host request ∷ ih.operations;
      same = sym is ∙ ap (λ x. plan_with last host request ∷ x) ih.same;
      holds = ih.holds;
      ordered = ih.ordered;
    }

-- However the calls are interleaved, their callers observe what the operations of a register give in
-- some order, a plan being built with the last result that was written; and the results that are
-- written are those of the calibrations in the order in which they began, but for one that is not over.
pub run_steps-IsRegister :
    (steps : List Step) (observed : List Observation) (after : Manager)
    → run_steps steps new_manager ≡ some (observed, after)
    → IsRegister steps new_manager after observed
unfolding new_manager
run_steps-IsRegister steps observed after h = steps-IsRegister steps none none observed after h

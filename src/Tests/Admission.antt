-- ===== src/Tests/Admission.antt =====
-- An admission without the operator's evidence.
use quantum_runtime.Prelude.{◌≡◌, refl, ◌↔◌, ◌⊎◌, List, [], ◌∷◌, true, false, none, some, ok}
use quantum_runtime.Samples.{
  lenient, workstation, guest_limits, dense_model, plain_profile, no_evidence,
}
use quantum_runtime.Prelude.Text.{trim_space, to_lower}
use quantum_runtime.Tests.Manifests.{dense_model-valid}
use quantum_runtime.Host.Profile.{validate_host}
use quantum_runtime.Host.Limits.{validate_limits}
use quantum_runtime.Deployment.{validate_profile}
use quantum_runtime.Admission.{
  admitted, needs_operator_evidence, AdmissionResult, OperatorEvidence, is_fail, is_unknown, Check,
  fail, unknown, text, decide, check_inputs, admission_result, evaluate,
}
use quantum_runtime.Admission.Decide.{has_mandatory, decision_of, decide_lem}
use quantum_runtime.Admission.Evaluate.{
  Meets, Accepted, evaluate-ok_iff, evaluate-decision, evaluate-memory_class,
}

abbrev answer : AdmissionResult
answer = admission_result plain_profile workstation guest_limits dense_model no_evidence

answered :
    evaluate plain_profile workstation guest_limits dense_model no_evidence lenient ≡ ok answer
unfolding evaluate check_inputs validate_host validate_limits validate_profile trim_space to_lower
answered = rw dense_model-valid refl

abbrev fast_memory : OperatorEvidence
fast_memory = record no_evidence { memory_class = "ddr5" }

abbrev fast_answer : AdmissionResult
fast_answer = admission_result plain_profile workstation guest_limits dense_model fast_memory

fast_answered :
    evaluate plain_profile workstation guest_limits dense_model fast_memory lenient ≡ ok fast_answer
unfolding evaluate check_inputs validate_host validate_limits validate_profile trim_space to_lower
fast_answered = rw dense_model-valid refl

evaluate-ok_iff_example :
    ((res : AdmissionResult) × (evaluate plain_profile workstation guest_limits dense_model
          no_evidence lenient
        ≡ ok res))
    ↔ Accepted plain_profile workstation guest_limits dense_model no_evidence lenient
evaluate-ok_iff_example =
    evaluate-ok_iff plain_profile workstation guest_limits dense_model no_evidence lenient

evaluate-decision_example :
    ((answer.decision ≡ admitted) ↔ (
      Meets plain_profile workstation guest_limits dense_model no_evidence
      × ((true ≡ false) ⊎ (no_evidence.ecc_verified ≡ some true))))
    × ((answer.decision ≡ needs_operator_evidence) ↔ (
        Meets plain_profile workstation guest_limits dense_model no_evidence
        × (true ≡ true)
        × (no_evidence.ecc_verified ≡ none)))
evaluate-decision_example =
    evaluate-decision plain_profile workstation guest_limits dense_model no_evidence lenient answer
      answered

evaluate-memory_class_example : fast_answer.decision ≡ answer.decision
evaluate-memory_class_example =
    evaluate-memory_class plain_profile workstation guest_limits dense_model no_evidence "ddr5"
      lenient answer fast_answer answered fast_answered

-- An optional check that fails before a mandatory one that is unknown.
abbrev two_checks : List Check
two_checks =
    record {
      id = "optional";
      mandatory = false;
      state = fail;
      required = text "";
      observed = text "";
      source = "";
    }
    ∷ record {
      id = "mandatory";
      mandatory = true;
      state = unknown;
      required = text "";
      observed = text "";
      source = "";
    }
    ∷ []

decide_lem_example :
    decide two_checks
    ≡ decision_of (has_mandatory is_fail two_checks) (has_mandatory is_unknown two_checks)
decide_lem_example = decide_lem two_checks

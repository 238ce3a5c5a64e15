-- ===== src/Admission.antt =====
-- The admission decision (internal/admission/admission.go): `Evaluate` lists checks of a deployment
-- profile against a host, its limits, a model and the operator's evidence, and `decide` reads the
-- decision off that list. `Required` and `Observed` of a check are of the type `Value`.
pub mod Decide
pub mod Evaluate
use quantum_runtime.Prelude.{
  ℕ, String, List, [], ◌∷◌, ◌++◌, Bool, true, false, not, ◌&&◌, ◌||◌, Option, none, some, Result,
  ok, err, ◌>>=◌, ◌>>◌, fail_if, wrap_err, ltb, leb, ◌==◌, string_eq, if◌then◌else◌, length,
}
use quantum_runtime.Prelude.Int.{ℤ, pos, ltb_ℤ, leb_ℤ}
use quantum_runtime.Prelude.Text.{trim_space, to_lower}
use quantum_runtime.External.{External}
use quantum_runtime.Host.Profile.{HostProfile, AcceleratorProfile, ProfileError, validate_host}
use quantum_runtime.Host.Limits.{Limits, LimitsError, validate_limits}
use quantum_runtime.Deployment.{DeploymentProfile, DeploymentError, validate_profile}
use quantum_runtime.Manifest.Types.{Manifest}
use quantum_runtime.Manifest.Validate.{ManifestError, validate_manifest}

abbrev pub schema_version : String
schema_version = "quantum.runtime/admission-result/v1alpha1"

pub data Decision : Type 0 where
  admitted rejected needs_operator_evidence : Decision

pub data CheckState : Type 0 where
  pass fail unknown preference_miss advisory : CheckState

pub data Value : Type 0 where
  text : String → Value
  number : ℕ → Value
  integer : ℤ → Value
  flag : Bool → Value
  range : (minimum maximum_visible : ℤ) → Value

pub record OperatorEvidence : Type 0 where
  pub ecc_verified : Option Bool
  pub memory_class : String
  pub dedicated_physical_cores : ℤ
  pub core_budget : ℤ

pub record Check : Type 0 where
  pub id : String
  pub mandatory : Bool
  pub state : CheckState
  pub required : Value
  pub observed : Value
  pub source : String

pub record AdmissionResult : Type 0 where
  pub schema : String
  pub decision : Decision
  pub profile_id : String
  pub canonical_model_id : String
  pub checks : List Check

pub data AdmissionError : Type 0 where
  profile_invalid : DeploymentError → AdmissionError
  host_invalid : ProfileError → AdmissionError
  limits_invalid : LimitsError → AdmissionError
  model_invalid : ManifestError → AdmissionError
  evidence_negative : AdmissionError

abbrev pub is_fail : CheckState → Bool
is_fail fail = true
is_fail _ = false

abbrev pub is_unknown : CheckState → Bool
is_unknown unknown = true
is_unknown _ = false

-- The loop of `decide`, with its variable unknownMandatory. A check that is not mandatory is skipped.
unfoldable pub decide_from : Bool → List Check → Decision
decide_from seen_unknown [] = if seen_unknown then needs_operator_evidence else admitted
decide_from seen_unknown (c ∷ cs) =
    let rest = decide_from (seen_unknown || (c.mandatory && is_unknown c.state)) cs in
    if c.mandatory && is_fail c.state then rejected else rest

unfoldable pub decide : List Check → Decision
unfolding decide_from
decide checks = decide_from false checks

unfoldable pub boolean_check : String → Bool → Bool → Value → Value → String → Check
boolean_check id mandatory passed required observed source = record {
  id = id;
  mandatory = mandatory;
  state = if passed then pass else fail;
  required = required;
  observed = observed;
  source = source;
}

abbrev pub has_items {ℓ} : {A : Type ℓ} → List A → Bool
has_items [] = false
has_items (x ∷ xs) = true

unfoldable pub accelerator_state : DeploymentProfile → HostProfile → CheckState
accelerator_state profile host =
    if not profile.hardware.accelerator_required
    then pass
    else if has_items host.accelerators
    then pass
    else fail

abbrev pub required_architecture : DeploymentProfile → String
required_architecture profile = to_lower (trim_space profile.architecture_class)

abbrev pub observed_architecture : Manifest → String
observed_architecture model = to_lower (trim_space model.model.architecture_class)

unfoldable pub architecture_pass : DeploymentProfile → Manifest → Bool
architecture_pass profile model =
    required_architecture profile == "any"
    || observed_architecture model == required_architecture profile

unfoldable pub memory_pass : DeploymentProfile → HostProfile → Bool
memory_pass profile host = leb profile.hardware.memory.minimum_bytes host.memory.total_bytes

-- `physicalCores`: the operator's figure where it is positive.
abbrev pub has_dedicated : OperatorEvidence → Bool
has_dedicated evidence = ltb_ℤ (pos 0) evidence.dedicated_physical_cores

unfoldable pub physical_cores : HostProfile → OperatorEvidence → ℤ
physical_cores host evidence =
    if has_dedicated evidence then evidence.dedicated_physical_cores else host.cpu.physical_cores

unfoldable pub cores_pass : DeploymentProfile → HostProfile → OperatorEvidence → Bool
cores_pass profile host evidence =
    leb_ℤ profile.hardware.cpu.minimum_physical_cores (physical_cores host evidence)

-- `effectiveBudget`.
abbrev pub has_budget : OperatorEvidence → Bool
has_budget evidence = ltb_ℤ (pos 0) evidence.core_budget

unfoldable pub effective_budget : Limits → OperatorEvidence → ℤ
effective_budget limits evidence =
    if has_budget evidence then evidence.core_budget else limits.effective_logical_cpus

unfoldable pub budget_pass : DeploymentProfile → Limits → OperatorEvidence → Bool
budget_pass profile limits evidence =
    leb_ℤ profile.hardware.cpu.minimum_physical_cores (effective_budget limits evidence)
    && leb_ℤ (effective_budget limits evidence) limits.effective_logical_cpus

abbrev pub ecc_state : Option Bool → CheckState
ecc_state none = unknown
ecc_state (some verified) = if verified then pass else fail

abbrev ecc_observed : Option Bool → Value
ecc_observed none = text "unknown"
ecc_observed (some verified) = flag verified

unfoldable pub ecc_check : OperatorEvidence → Check
ecc_check evidence = record {
  id = "hardware.memory.ecc";
  mandatory = true;
  state = ecc_state evidence.ecc_verified;
  required = flag true;
  observed = ecc_observed evidence.ecc_verified;
  source = "operator_evidence";
}

abbrev pub preferred : DeploymentProfile → String
preferred profile = to_lower (trim_space profile.hardware.memory.preferred_class)

abbrev observed_class : OperatorEvidence → String
observed_class evidence = to_lower (trim_space evidence.memory_class)

unfoldable pub preference_check : DeploymentProfile → OperatorEvidence → Check
preference_check profile evidence = record {
  id = "hardware.memory.preferred_class";
  mandatory = false;
  state =
      if observed_class evidence == ""
      then unknown
      else if observed_class evidence == preferred profile
      then pass
      else preference_miss;
  required = text (preferred profile);
  observed =
      if observed_class evidence == "" then text "unknown" else text (observed_class evidence);
  source = "operator_evidence";
}

unfoldable pub accelerator_check : DeploymentProfile → HostProfile → Check
accelerator_check profile host = record {
  id = "hardware.accelerator.required";
  mandatory = profile.hardware.accelerator_required;
  state = accelerator_state profile host;
  required = flag profile.hardware.accelerator_required;
  observed = number (length host.accelerators);
  source = "host_profile";
}

unfoldable pub clock_check : DeploymentProfile → Check
clock_check profile = record {
  id = "hardware.cpu.reference_clock_mhz";
  mandatory = false;
  state = advisory;
  required = integer profile.hardware.cpu.reference_min_clock_mhz;
  observed = text "not_used_for_admission";
  source = "profile_reference";
}

-- `if test { result.Checks = append(result.Checks, check) }`.
abbrev pub check_if : Bool → Check → List Check
check_if test check = if test then check ∷ [] else []

module _ (profile : DeploymentProfile) (host : HostProfile) (limits : Limits) (model : Manifest)
    (evidence : OperatorEvidence) where
  -- The four checks that `Evaluate` always makes.
  unfoldable pub first_checks : List Check
  first_checks =
      boolean_check "model.architecture_class" true (architecture_pass profile model)
        (text (required_architecture profile)) (text (observed_architecture model)) "model_manifest"
      ∷ boolean_check "hardware.memory.minimum_bytes" true (memory_pass profile host)
          (number profile.hardware.memory.minimum_bytes) (number host.memory.total_bytes)
          "host_profile"
      ∷ boolean_check "hardware.cpu.minimum_physical_cores" true (cores_pass profile host evidence)
          (integer profile.hardware.cpu.minimum_physical_cores)
          (integer (physical_cores host evidence))
          (if has_dedicated evidence then "operator_evidence" else "host_topology")
      ∷ boolean_check "hardware.cpu.runtime_budget" true (budget_pass profile limits evidence)
          (range profile.hardware.cpu.minimum_physical_cores limits.effective_logical_cpus)
          (integer (effective_budget limits evidence))
          (if has_budget evidence then "operator_core_budget" else "process_affinity/cgroup")
      ∷ []

  -- The checks behind them, some of which depend on the profile.
  unfoldable pub last_checks : List Check
  last_checks =
      check_if profile.hardware.memory.ecc_required (ecc_check evidence)
      ++ (check_if (not (preferred profile == "")) (preference_check profile evidence)
          ++ (accelerator_check profile host
              ∷ check_if (ltb_ℤ (pos 0) profile.hardware.cpu.reference_min_clock_mhz)
                  (clock_check profile)))

  -- `result.Checks`, in the order in which `Evaluate` appends.
  unfoldable pub all_checks : List Check
  all_checks = first_checks ++ last_checks

  -- The early returns of `Evaluate`.
  unfoldable pub check_inputs : External → Result AdmissionError (Unit {0})
  check_inputs ext = do
    wrap_err profile_invalid (validate_profile profile)
    wrap_err host_invalid (validate_host host)
    wrap_err limits_invalid (validate_limits limits)
    wrap_err model_invalid (validate_manifest ext model)
    fail_if (ltb_ℤ evidence.dedicated_physical_cores (pos 0) || ltb_ℤ evidence.core_budget (pos 0))
        evidence_negative

  -- What is returned behind them.
  unfoldable pub admission_result : AdmissionResult
  admission_result = record {
    schema = schema_version;
    decision = decide all_checks;
    profile_id = profile.id;
    canonical_model_id = model.id;
    checks = all_checks;
  }

  unfoldable pub evaluate : External → Result AdmissionError AdmissionResult
  evaluate ext = do check_inputs ext; ok admission_result

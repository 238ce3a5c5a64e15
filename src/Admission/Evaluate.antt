-- ===== src/Admission/Evaluate.antt =====
-- What a decision of `Evaluate` (internal/admission/admission.go) says of the profile, the host, the
-- limits, the model and the evidence.
use text.Mathlib.TextEquality.{eq_iff}
use quantum_runtime.Prelude.{
  String, ◌≤◌, ◌≡◌, sym, ◌∙◌, ◌↔◌, ◌⊎◌, ◌++◌, Bool, true, false, not, ◌&&◌, ◌||◌, none, some, ok,
  >>=-eq-ok, wrap_err, wrap_err-ok, string_eq, arith,
}
use quantum_runtime.Prelude.Int.{pos, ◌≤ℤ◌}
use quantum_runtime.External.{External}
use quantum_runtime.Host.Profile.{HostProfile, validate_host}
use quantum_runtime.Host.Limits.{Limits, validate_limits}
use quantum_runtime.Deployment.{DeploymentProfile, validate_profile}
use quantum_runtime.Manifest.Types.{Manifest}
use quantum_runtime.Manifest.Validate.{validate_manifest}
use quantum_runtime.Admission.{
  admitted, needs_operator_evidence, OperatorEvidence, AdmissionResult, profile_invalid,
  host_invalid, limits_invalid, model_invalid, is_fail, is_unknown, decide, boolean_check,
  has_items, accelerator_state, required_architecture, observed_architecture, architecture_pass,
  memory_pass, physical_cores, cores_pass, effective_budget, budget_pass, ecc_state, ecc_check,
  preference_check, accelerator_check, clock_check, first_checks, last_checks, all_checks,
  check_inputs, admission_result, evaluate,
}
use quantum_runtime.Admission.Decide.{has_mandatory, has_mandatory-append, decision_of, decide_lem}

module _ (profile : DeploymentProfile) (host : HostProfile) (limits : Limits) (model : Manifest)
    (evidence : OperatorEvidence) where
  -- What a profile asks for, apart from ECC memory.
  pub record Meets : Type 0 where
    pub architecture :
        (required_architecture profile ≡ "any")
        ⊎ (observed_architecture model ≡ required_architecture profile)
    pub memory : profile.hardware.memory.minimum_bytes ≤ host.memory.total_bytes
    pub cores : profile.hardware.cpu.minimum_physical_cores ≤ℤ physical_cores host evidence
    pub budget : profile.hardware.cpu.minimum_physical_cores ≤ℤ effective_budget limits evidence
    pub budget_visible : effective_budget limits evidence ≤ℤ limits.effective_logical_cpus
    pub accelerator :
        (profile.hardware.accelerator_required ≡ false) ⊎ (has_items host.accelerators ≡ true)

  -- The five tests behind `Meets`.
  abbrev meets : Bool
  meets =
      architecture_pass profile model
      && memory_pass profile host
      && cores_pass profile host evidence
      && budget_pass profile limits evidence
      && (not profile.hardware.accelerator_required || has_items host.accelerators)

  Meets-meets : Meets → meets ≡ true
  unfolding architecture_pass memory_pass cores_pass budget_pass
  Meets-meets m = ground (
    arith,
    m.architecture,
    m.memory,
    m.cores,
    m.budget,
    m.budget_visible,
    m.accelerator,
    eq_iff (required_architecture profile) "any",
    eq_iff (observed_architecture model) (required_architecture profile),
  )

  meets-Meets : meets ≡ true → Meets
  unfolding architecture_pass memory_pass cores_pass budget_pass
  meets-Meets h = record {
    architecture = ground (
      arith,
      eq_iff (required_architecture profile) "any",
      eq_iff (observed_architecture model) (required_architecture profile),
    );
    memory = ground arith;
    cores = ground arith;
    budget = ground arith;
    budget_visible = ground arith;
    accelerator = ground arith;
  }

  first_fail :
      has_mandatory is_fail (first_checks profile host limits model evidence)
      ≡ not (
          architecture_pass profile model
          && memory_pass profile host
          && cores_pass profile host evidence
          && budget_pass profile limits evidence)
  unfolding has_mandatory first_checks boolean_check
  first_fail = ground arith

  first_unknown : has_mandatory is_unknown (first_checks profile host limits model evidence) ≡ false
  unfolding has_mandatory first_checks boolean_check
  first_unknown = ground arith

  last_fail : has_mandatory is_fail (last_checks profile host limits model evidence) ≡ (
      (profile.hardware.memory.ecc_required && is_fail (ecc_state evidence.ecc_verified))
      || (profile.hardware.accelerator_required && not (has_items host.accelerators)))
  unfolding has_mandatory last_checks ecc_check preference_check accelerator_check clock_check
      accelerator_state
  last_fail = ground arith

  last_unknown :
      has_mandatory is_unknown (last_checks profile host limits model evidence)
      ≡ (profile.hardware.memory.ecc_required && is_unknown (ecc_state evidence.ecc_verified))
  unfolding has_mandatory last_checks ecc_check preference_check accelerator_check clock_check
      accelerator_state
  last_unknown = ground arith

  -- The decision as a function of the test and of the state of the ECC check.
  decide-all_checks :
      decide (all_checks profile host limits model evidence)
      ≡ decision_of
          (not meets
            || (profile.hardware.memory.ecc_required && is_fail (ecc_state evidence.ecc_verified)))
          (profile.hardware.memory.ecc_required && is_unknown (ecc_state evidence.ecc_verified))
  unfolding all_checks
  decide-all_checks =
      let first = first_checks profile host limits model evidence in
      let last = last_checks profile host limits model evidence in
      rw
        (
          decide_lem (first ++ last),
          has_mandatory-append is_fail first last,
          has_mandatory-append is_unknown first last,
          first_fail,
          first_unknown,
          last_fail,
          last_unknown,
        )
        (ground arith)

  decided_admitted : (decide (all_checks profile host limits model evidence) ≡ admitted) ↔ (
      Meets
      × ((profile.hardware.memory.ecc_required ≡ false) ⊎ (evidence.ecc_verified ≡ some true)))
  decided_admitted = (
    λ d. (meets-Meets (ground (arith, decide-all_checks)), ground (arith, decide-all_checks)),
    λ (m, ecc). ground (arith, decide-all_checks, Meets-meets m, ecc),
  )

  decided_needs_evidence :
      (decide (all_checks profile host limits model evidence) ≡ needs_operator_evidence)
      ↔ (Meets × (profile.hardware.memory.ecc_required ≡ true) × (evidence.ecc_verified ≡ none))
  decided_needs_evidence = (
    λ d. (
      meets-Meets (ground (arith, decide-all_checks)),
      ground (arith, decide-all_checks),
      ground (arith, decide-all_checks),
    ),
    λ (m, required, missing). ground (arith, decide-all_checks, Meets-meets m),
  )

  evaluate-eq_ok :
      (ext : External) (res : AdmissionResult)
      → evaluate profile host limits model evidence ext ≡ ok res
      → res.decision ≡ decide (all_checks profile host limits model evidence)
  unfolding evaluate admission_result
  evaluate-eq_ok ext res h =
      let (_, _, e) = >>=-eq-ok (check_inputs profile host limits model evidence ext) _ h in
      ground (arith, e)

  -- What the early returns let through.
  abbrev pub Accepted : External → Type 0
  Accepted ext =
      (validate_profile profile ≡ ok tt)
      × (validate_host host ≡ ok tt)
      × (validate_limits limits ≡ ok tt)
      × (validate_manifest ext model ≡ ok tt)
      × (pos 0 ≤ℤ evidence.dedicated_physical_cores)
      × (pos 0 ≤ℤ evidence.core_budget)

  check_inputs-Accepted :
      (ext : External) → check_inputs profile host limits model evidence ext ≡ ok tt → Accepted ext
  unfolding check_inputs
  check_inputs-Accepted ext h =
      let (_, h1, k1) = >>=-eq-ok (wrap_err profile_invalid (validate_profile profile)) _ h in
      let (_, h2, k2) = >>=-eq-ok (wrap_err host_invalid (validate_host host)) _ k1 in
      let (_, h3, k3) = >>=-eq-ok (wrap_err limits_invalid (validate_limits limits)) _ k2 in
      let (_, h4, k4) = >>=-eq-ok (wrap_err model_invalid (validate_manifest ext model)) _ k3 in
      (
        wrap_err-ok _ _ h1,
        wrap_err-ok _ _ h2,
        wrap_err-ok _ _ h3,
        wrap_err-ok _ _ h4,
        ground (arith, k4),
        ground (arith, k4),
      )

  Accepted-check_inputs :
      (ext : External) → Accepted ext → check_inputs profile host limits model evidence ext ≡ ok tt
  unfolding check_inputs
  Accepted-check_inputs ext (p, h, l, m, d, b) = rw (p, h, l, m) (ground arith)

  -- `Evaluate` returns a result exactly if the profile, the host, the limits and the model all pass
  -- their validation and neither core figure of the evidence is negative.
  pub evaluate-ok_iff :
      (ext : External)
      → ((res : AdmissionResult) × (evaluate profile host limits model evidence ext ≡ ok res))
        ↔ Accepted ext
  unfolding evaluate
  evaluate-ok_iff ext = (
    λ (res, h).
        let (_, e, _) = >>=-eq-ok (check_inputs profile host limits model evidence ext) _ h in
        check_inputs-Accepted ext e,
    λ accepted. (
      admission_result profile host limits model evidence,
      rw (Accepted-check_inputs ext accepted),
    ),
  )

-- `Evaluate` admits exactly if the model's architecture class is the profile's or the profile takes
-- any, the host's memory, cores and CPU budget reach the profile's minimum, the budget is within the
-- visible CPUs, an accelerator is there if one is required, and ECC is verified if it is required.
-- It asks for operator evidence exactly if all of that holds but for ECC, which is required and of
-- which the operator has said nothing.
pub evaluate-decision :
    (profile : DeploymentProfile) (host : HostProfile) (limits : Limits) (model : Manifest)
    (evidence : OperatorEvidence) (ext : External) (res : AdmissionResult)
    → evaluate profile host limits model evidence ext ≡ ok res
    → ((res.decision ≡ admitted) ↔ (
        Meets profile host limits model evidence
        × ((profile.hardware.memory.ecc_required ≡ false) ⊎ (evidence.ecc_verified ≡ some true))))
      × ((res.decision ≡ needs_operator_evidence) ↔ (
          Meets profile host limits model evidence
          × (profile.hardware.memory.ecc_required ≡ true)
          × (evidence.ecc_verified ≡ none)))
evaluate-decision profile host limits model evidence ext res h =
    rw (evaluate-eq_ok profile host limits model evidence ext res h) (
      decided_admitted profile host limits model evidence,
      decided_needs_evidence profile host limits model evidence,
    )

-- The memory class that the operator reports is a preference: whatever it is, the decision of
-- `Evaluate` is the same.
pub evaluate-memory_class :
    (profile : DeploymentProfile) (host : HostProfile) (limits : Limits) (model : Manifest)
    (evidence : OperatorEvidence) (class : String) (ext : External) (res res' : AdmissionResult)
    → evaluate profile host limits model evidence ext ≡ ok res
    → evaluate profile host limits model (record evidence { memory_class = class }) ext ≡ ok res'
    → res'.decision ≡ res.decision
unfolding cores_pass budget_pass architecture_pass effective_budget physical_cores
evaluate-memory_class profile host limits model evidence class ext res res' h h' =
    let changed = record evidence { memory_class = class } in
    evaluate-eq_ok profile host limits model changed ext res' h'
    ∙ decide-all_checks profile host limits model changed
    ∙ sym (decide-all_checks profile host limits model evidence)
    ∙ sym (evaluate-eq_ok profile host limits model evidence ext res h)

-- ===== src/Http/Extensions.antt =====
-- The handlers of the deployment and the resource routes of the HTTP server
-- (internal/httpapi/deployment_routes.go and internal/httpapi/resource_routes.go).
use quantum_runtime.Prelude.{String, [], ◌∷◌, Option, none, some, Result, ok, err, if◌then◌else◌}
use quantum_runtime.Prelude.Int.{ltb_ℤ}
use quantum_runtime.Prelude.Text.{trim_space}
use quantum_runtime.Registry.{lookup_model}
use quantum_runtime.Manifest.Types.{Manifest}
use quantum_runtime.Host.Profile.{ProfileError, validate_host}
use quantum_runtime.Host.Limits.{LimitsError, validate_limits}
use quantum_runtime.Deployment.{DeploymentProfile, lookup_profile, list_profiles}
use quantum_runtime.Admission.{OperatorEvidence, AdmissionError, AdmissionResult, evaluate}
use quantum_runtime.Benchmark.{BenchmarkRequest, BenchmarkError, BenchmarkPlan, build_benchmark}
use quantum_runtime.Placement.Types.{Plan}
use quantum_runtime.Placement.Types as Placement
use quantum_runtime.Placement.Build.{RequestError, build}
use quantum_runtime.Resource.{class_of}
use quantum_runtime.Http.Types.{
  Request, Server, deployment_profiles, admitted, benchmark, host_profile, calibrated, placed,
  Outcome, write_error, write_json, guarded,
}

unfoldable pub handle_deployment_profiles : Server → Request → Outcome
handle_deployment_profiles s r =
    guarded s r "GET" (write_json (deployment_profiles (list_profiles s.profiles)))

-- The check of the declared length of a body, in front of what decodes it.
abbrev pub sized : Server → Request → Outcome → Outcome
sized s r outcome =
    if ltb_ℤ s.config.request_body_limit r.content_length
    then write_error 413 "request_too_large"
    else outcome

abbrev pub evaluated : Server → Result AdmissionError AdmissionResult → Outcome
evaluated s (ok result) = write_json (admitted s.host s.limits result)
evaluated s (err problem) = write_error 400 "admission_failed"

abbrev pub admit_model : Server → DeploymentProfile → OperatorEvidence → Option Manifest → Outcome
admit_model s profile evidence none = write_error 404 "model_not_found"
admit_model s profile evidence (some m) =
    evaluated s (evaluate profile s.host s.limits m evidence s.external)

abbrev pub admit_profile : Server → String → OperatorEvidence → Option DeploymentProfile → Outcome
admit_profile s model evidence none = write_error 404 "deployment_profile_not_found"
admit_profile s model evidence (some profile) =
    admit_model s profile evidence (lookup_model s.registry (trim_space model))

abbrev pub admit : Server → Option (String × String × OperatorEvidence) → Outcome
admit s none = write_error 400 "invalid_admission_request"
admit s (some (profile, model, evidence)) =
    admit_profile s model evidence (lookup_profile s.profiles (trim_space profile))

unfoldable pub handle_admission : Server → Request → Outcome
handle_admission s r =
    guarded s r "POST" (sized s r (admit s (s.decode_admission s.config.request_body_limit r)))

abbrev pub planned_benchmark : Server → Manifest → Result BenchmarkError BenchmarkPlan → Outcome
planned_benchmark s m (ok plan) = write_json (benchmark m.id s.limits plan)
planned_benchmark s m (err problem) = write_error 400 "invalid_benchmark_plan_request"

abbrev pub benchmark_model : Server → BenchmarkRequest → Option Manifest → Outcome
benchmark_model s request none = write_error 404 "model_not_found"
benchmark_model s request (some m) = planned_benchmark s m (build_benchmark s.limits request)

abbrev pub plan_benchmark : Server → Option (String × BenchmarkRequest) → Outcome
plan_benchmark s none = write_error 400 "invalid_benchmark_plan_request"
plan_benchmark s (some (model, request)) =
    benchmark_model s request (lookup_model s.registry (trim_space model))

unfoldable pub handle_benchmark_plan : Server → Request → Outcome
handle_benchmark_plan s r =
    guarded s r "POST"
      (sized s r (plan_benchmark s (s.decode_benchmark s.config.request_body_limit r)))

abbrev pub with_limits : Server → Result LimitsError (Unit {0}) → Outcome
with_limits s (ok valid) = write_json (host_profile s.host s.limits s.resources.last)
with_limits s (err problem) = write_error 500 "invalid_host_limits"

abbrev pub with_host : Server → Result ProfileError (Unit {0}) → Outcome
with_host s (ok valid) = with_limits s (validate_limits s.limits)
with_host s (err problem) = write_error 500 "invalid_host_profile"

unfoldable pub handle_host_profile : Server → Request → Outcome
handle_host_profile s r = guarded s r "GET" (with_host s (validate_host s.host))

abbrev pub report_calibration : Server → Result ProfileError (Unit {0}) → Outcome
report_calibration s (ok valid) = write_json (calibrated s.host s.limits s.measured)
report_calibration s (err problem) = write_error 500 "invalid_host_profile"

-- The calibration is run, and kept, before the host is checked.
unfoldable pub handle_host_calibration : Server → Request → Outcome
handle_host_calibration s r =
    guarded s r "POST"
      (record (report_calibration s (validate_host s.host)) { calibrations = s.measured ∷ [] })

abbrev pub place_on : Server → Plan → Result ProfileError (Unit {0}) → Outcome
place_on s plan (ok valid) = write_json (placed s.host s.limits s.resources.last plan)
place_on s plan (err problem) = write_error 500 "invalid_host_profile"

abbrev pub place_plan : Server → Result RequestError Plan → Outcome
place_plan s (ok plan) = place_on s plan (validate_host s.host)
place_plan s (err problem) = write_error 400 "invalid_placement_request"

abbrev pub place : Server → Option Placement.Request → Outcome
place s none = write_error 400 "invalid_placement_request"
place s (some request) = place_plan s (build s.host (class_of s.resources.last) request)

unfoldable pub handle_placement : Server → Request → Outcome
handle_placement s r =
    guarded s r "POST" (sized s r (place s (s.decode_placement s.config.request_body_limit r)))

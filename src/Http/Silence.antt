-- ===== src/Http/Silence.antt =====
-- The handlers of the HTTP server (internal/httpapi) that pass nothing on to the backend.
use quantum_runtime.Prelude.{
  String, ◌≡◌, refl, inl, inr, List, [], Bool, true, false, Option, none, some, Result, ok, err,
  ◌==◌, string_eq, if◌then◌else◌, Bool-cases,
}
use quantum_runtime.Prelude.Text.{trim_space}
use quantum_runtime.Manifest.Types.{Manifest}
use quantum_runtime.Backend.{Descriptor, ContractError}
use quantum_runtime.Router.{
  RoutePlan, RouteError, registry_required, backend_invalid, model_not_found, no_compatible_backend,
  Router,
}
use quantum_runtime.Http.Types.{Request, Server, Upstream, Outcome, authorized, guarded}
use quantum_runtime.Http.Handlers.{
  handle_health, handle_ready, readiness, checked, listed, planned, routed, route_decoded,
  handle_route, inspected, handle_model_inspect,
}
use quantum_runtime.Host.Profile.{ProfileError}
use quantum_runtime.Host.Limits.{LimitsError}
use quantum_runtime.Deployment.{DeploymentProfile}
use quantum_runtime.Admission.{OperatorEvidence, AdmissionError, AdmissionResult}
use quantum_runtime.Benchmark.{BenchmarkRequest, BenchmarkError, BenchmarkPlan}
use quantum_runtime.Placement.Types.{Plan}
use quantum_runtime.Placement.Types as Placement
use quantum_runtime.Placement.Build.{RequestError}
use quantum_runtime.Http.Extensions.{
  sized, evaluated, admit_model, admit_profile, admit, handle_admission, planned_benchmark,
  benchmark_model, plan_benchmark, handle_benchmark_plan, with_limits, with_host,
  handle_host_profile, report_calibration, handle_host_calibration, place_on, place_plan, place,
  handle_placement,
}

module _ (s : Server) (r : Request) where
  pub guarded-silent :
      (method : String) (o : Outcome) → o.forwarded ≡ [] → (guarded s r method o).forwarded ≡ []
  unfolding guarded
  guarded-silent method o e = elim (Bool-cases (r.method == method)) [
    | inl is ↦ elim (Bool-cases (authorized s r)) [
      | inl allowed ↦ rw is (rw allowed e)
      | inr denied ↦ rw is (rw denied refl)
    ]
    | inr other ↦ rw other refl
  ]

  pub readiness-silent : (u : Option Upstream) → (readiness u).forwarded ≡ []
  readiness-silent none = refl
  readiness-silent (some u) = elim (Bool-cases u.is_ready) [ inl e ↦ rw e refl | inr e ↦ rw e refl ]

  pub handle_health-silent : (handle_health s r).forwarded ≡ []
  unfolding handle_health
  handle_health-silent = elim (Bool-cases (r.method == "GET")) [
    | inl e ↦ rw e refl
    | inr e ↦ rw e refl
  ]

  pub handle_ready-silent : (handle_ready s r).forwarded ≡ []
  unfolding handle_ready
  handle_ready-silent = elim (Bool-cases (r.method == "GET")) [
    | inl e ↦ rw e (readiness-silent s.upstream)
    | inr e ↦ rw e refl
  ]

  pub checked-silent :
      (d : Descriptor) (v : Result ContractError (Unit {0})) → (checked d v).forwarded ≡ []
  checked-silent d (ok v) = refl
  checked-silent d (err x) = refl

  pub listed-silent : (u : Option Upstream) → (listed u).forwarded ≡ []
  listed-silent none = refl
  listed-silent (some u) = checked-silent u.descriptor _

  pub planned-silent : (p : Result RouteError RoutePlan) → (planned p).forwarded ≡ []
  planned-silent (ok p) = refl
  planned-silent (err (model_not_found i)) = refl
  planned-silent (err (no_compatible_backend i)) = refl
  planned-silent (err registry_required) = refl
  planned-silent (err (backend_invalid i x)) = refl

  pub routed-silent :
      (identifier : String) (required : List String) (p : Result RouteError Router)
      → (routed identifier required p).forwarded ≡ []
  routed-silent identifier required (ok router) = planned-silent _
  routed-silent identifier required (err x) = refl

  pub route_decoded-silent :
      (o : Option (String × List String)) → (route_decoded s o).forwarded ≡ []
  route_decoded-silent none = refl
  route_decoded-silent (some (identifier, required)) =
      elim (Bool-cases (trim_space identifier == "")) [
        | inl e ↦ rw e refl
        | inr e ↦ rw e (routed-silent identifier required _)
      ]

  pub inspected-silent :
      (identifier : String) (o : Option Manifest) → (inspected identifier o).forwarded ≡ []
  inspected-silent identifier none = refl
  inspected-silent identifier (some m) = refl

  pub if-silent :
      (b : Bool) (o o' : Outcome)
      → o.forwarded ≡ []
      → o'.forwarded ≡ []
      → (if b then o else o').forwarded ≡ []
  if-silent true o o' e e' = e
  if-silent false o o' e e' = e'

  pub handle_model_inspect-silent : (rest : String) → (handle_model_inspect s r rest).forwarded ≡ []
  unfolding handle_model_inspect
  handle_model_inspect-silent rest =
      guarded-silent "GET" _ (if-silent _ _ _ refl (inspected-silent _ _))

  pub handle_route-silent : (handle_route s r).forwarded ≡ []
  unfolding handle_route
  handle_route-silent = guarded-silent "POST" _ (if-silent _ _ _ refl (route_decoded-silent _))

  sized-silent : (o : Outcome) → o.forwarded ≡ [] → (sized s r o).forwarded ≡ []
  sized-silent o e = if-silent _ _ _ refl e

  evaluated-silent :
      (result : Result AdmissionError AdmissionResult) → (evaluated s result).forwarded ≡ []
  evaluated-silent (ok result) = refl
  evaluated-silent (err x) = refl

  admit_model-silent :
      (profile : DeploymentProfile) (evidence : OperatorEvidence) (m : Option Manifest)
      → (admit_model s profile evidence m).forwarded ≡ []
  admit_model-silent profile evidence none = refl
  admit_model-silent profile evidence (some m) = evaluated-silent _

  admit_profile-silent :
      (model : String) (evidence : OperatorEvidence) (profile : Option DeploymentProfile)
      → (admit_profile s model evidence profile).forwarded ≡ []
  admit_profile-silent model evidence none = refl
  admit_profile-silent model evidence (some profile) = admit_model-silent profile evidence _

  admit-silent : (o : Option (String × String × OperatorEvidence)) → (admit s o).forwarded ≡ []
  admit-silent none = refl
  admit-silent (some (profile, model, evidence)) = admit_profile-silent model evidence _

  pub handle_admission-silent : (handle_admission s r).forwarded ≡ []
  unfolding handle_admission
  handle_admission-silent = guarded-silent "POST" _ (sized-silent _ (admit-silent _))

  planned_benchmark-silent :
      (m : Manifest) (result : Result BenchmarkError BenchmarkPlan)
      → (planned_benchmark s m result).forwarded ≡ []
  planned_benchmark-silent m (ok plan) = refl
  planned_benchmark-silent m (err x) = refl

  benchmark_model-silent :
      (request : BenchmarkRequest) (m : Option Manifest)
      → (benchmark_model s request m).forwarded ≡ []
  benchmark_model-silent request none = refl
  benchmark_model-silent request (some m) = planned_benchmark-silent m _

  plan_benchmark-silent :
      (o : Option (String × BenchmarkRequest)) → (plan_benchmark s o).forwarded ≡ []
  plan_benchmark-silent none = refl
  plan_benchmark-silent (some (model, request)) = benchmark_model-silent request _

  pub handle_benchmark_plan-silent : (handle_benchmark_plan s r).forwarded ≡ []
  unfolding handle_benchmark_plan
  handle_benchmark_plan-silent = guarded-silent "POST" _ (sized-silent _ (plan_benchmark-silent _))

  with_limits-silent : (v : Result LimitsError (Unit {0})) → (with_limits s v).forwarded ≡ []
  with_limits-silent (ok v) = refl
  with_limits-silent (err x) = refl

  with_host-silent : (v : Result ProfileError (Unit {0})) → (with_host s v).forwarded ≡ []
  with_host-silent (ok v) = with_limits-silent _
  with_host-silent (err x) = refl

  pub handle_host_profile-silent : (handle_host_profile s r).forwarded ≡ []
  unfolding handle_host_profile
  handle_host_profile-silent = guarded-silent "GET" _ (with_host-silent _)

  report_calibration-silent :
      (v : Result ProfileError (Unit {0})) → (report_calibration s v).forwarded ≡ []
  report_calibration-silent (ok v) = refl
  report_calibration-silent (err x) = refl

  pub handle_host_calibration-silent : (handle_host_calibration s r).forwarded ≡ []
  unfolding handle_host_calibration
  handle_host_calibration-silent = guarded-silent "POST" _ (report_calibration-silent _)

  place_on-silent :
      (plan : Plan) (v : Result ProfileError (Unit {0})) → (place_on s plan v).forwarded ≡ []
  place_on-silent plan (ok v) = refl
  place_on-silent plan (err x) = refl

  place_plan-silent : (p : Result RequestError Plan) → (place_plan s p).forwarded ≡ []
  place_plan-silent (ok p) = place_on-silent p _
  place_plan-silent (err x) = refl

  place-silent : (o : Option Placement.Request) → (place s o).forwarded ≡ []
  place-silent none = refl
  place-silent (some request) = place_plan-silent _

  pub handle_placement-silent : (handle_placement s r).forwarded ≡ []
  unfolding handle_placement
  handle_placement-silent = guarded-silent "POST" _ (sized-silent _ (place-silent _))

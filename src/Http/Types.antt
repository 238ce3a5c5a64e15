-- ===== src/Http/Types.antt =====
-- Requests, replies and the state of the HTTP server (internal/httpapi/server.go), and the checks that
-- its handlers share.
use quantum_runtime.Prelude.{
  ℕ, String, List, [], ◌∷◌, Bool, true, false, not, Option, none, some, ◌==◌, string_eq,
  if◌then◌else◌,
}
use quantum_runtime.Prelude.Int.{ℤ}
use quantum_runtime.Prelude.Text.{trim_space, after_prefix}
use quantum_runtime.Config.{Config}
use quantum_runtime.Registry.{Registry, Entry}
use quantum_runtime.Manifest.Types.{Manifest}
use quantum_runtime.Backend.{Descriptor}
use quantum_runtime.External.{External}
use quantum_runtime.Host.Profile.{HostProfile}
use quantum_runtime.Host.Limits.{Limits}
use quantum_runtime.Deployment.{DeploymentProfile, ProfileRegistry}
use quantum_runtime.Admission.{OperatorEvidence, AdmissionResult}
use quantum_runtime.Benchmark.{BenchmarkRequest, BenchmarkPlan}
use quantum_runtime.Calibration.{CalibrationResult}
use quantum_runtime.Placement.Types.{Plan}
use quantum_runtime.Placement.Types as Placement
use quantum_runtime.Resource.{Manager}
use quantum_runtime.Policy.{Policy}
use quantum_runtime.Upstream.{Ledger, LedgerEntry}
use quantum_runtime.Router.{RoutePlan}

-- What the handlers read of a request; `authorization` is the header of that name.
pub record Request : Type 0 where
  pub method : String
  pub path : String
  pub content_length : ℤ
  pub authorization : String

pub record BuildInfo : Type 0 where
  pub version : String
  pub commit : String
  pub build_date : String

pub record Response : Type 0 where
  pub status : ℕ
  pub headers : List (String × String)
  pub body : String

-- What `Do` of a backend returns: a response, or an error that the handler tells apart.
pub data Performed : Type 0 where
  answered : Response → Performed
  body_too_large timed_out failed : Performed

-- The backend (`backendcontract.Backend`); `perform` is `Do`, which reads at most so many bytes of the
-- body, under a timeout.
pub record Upstream : Type 0 where
  pub descriptor : Descriptor
  pub is_ready : Bool
  pub perform : (limit timeout : ℤ) → Request → Performed

-- The server, with the embedded data that its handlers read, and the decoders of `encoding/json`.
pub record Server : Type 0 where
  pub config : Config
  pub upstream : Option Upstream
  pub build : BuildInfo
  pub registry : Registry
  pub policies : List Policy
  pub ledger : Ledger
  pub profiles : ProfileRegistry
  pub external : External
  -- What `hostprofile.Discover`, `hostlimits.Discover` and `calibration.Run` give.
  pub host : HostProfile
  pub limits : Limits
  pub measured : CalibrationResult
  -- The state of `runtimeResources`.
  pub resources : Manager
  -- The requests of the other handlers that decode a body, read up to the limit.
  pub decode_admission : (limit : ℤ) → Request → Option (String × String × OperatorEvidence)
  pub decode_benchmark : (limit : ℤ) → Request → Option (String × BenchmarkRequest)
  pub decode_placement : (limit : ℤ) → Request → Option Placement.Request
  -- The model and the capabilities of a route request, read up to the limit; `none` for an error.
  pub decode_route : (limit : ℤ) → Request → Option (String × List String)

-- The bodies of the answers, but for their constants.
pub data Payload : Type 0 where
  alive : (version : String) → Payload
  ready : (backend : String) → Payload
  runtime : BuildInfo → Option Descriptor → Payload
  capabilities : Option Descriptor → (model_mutation : Bool) → Payload
  backends : List Descriptor → Payload
  plan : RoutePlan → Payload
  model_policies : List Policy → Payload
  upstreams : (entries latest_known_good : List LedgerEntry) → Payload
  models : List Entry → Payload
  model : (requested_identifier : String) → Manifest → Payload
  deployment_profiles : List DeploymentProfile → Payload
  admitted : HostProfile → Limits → AdmissionResult → Payload
  benchmark : (canonical_model_id : String) → Limits → BenchmarkPlan → Payload
  host_profile : HostProfile → Limits → (last : Option CalibrationResult) → Payload
  calibrated : HostProfile → Limits → CalibrationResult → Payload
  placed : HostProfile → Limits → (last : Option CalibrationResult) → Plan → Payload

-- An error has a status, a code, and the headers that are set for it.
pub data Reply : Type 0 where
  refused : (status : ℕ) (code : String) (headers : List (String × String)) → Reply
  served : Payload → Reply
  relayed : Response → Reply

-- The requests that reached the backend, the calibrations that were run, and the reply.
pub record Outcome : Type 0 where
  pub forwarded : List Request
  pub calibrations : List CalibrationResult
  pub reply : Reply

abbrev pub reply_only : Reply → Outcome
reply_only reply = record { forwarded = []; calibrations = []; reply = reply }

abbrev pub write_error : ℕ → String → Outcome
write_error status code = reply_only (refused status code [])

abbrev pub write_json : Payload → Outcome
write_json payload = reply_only (served payload)

abbrev pub write_unauthorized : Outcome
write_unauthorized =
    reply_only
      (refused 401 "unauthorized" (("WWW-Authenticate", "Bearer realm=\"Quantum Runtime\"") ∷ []))

abbrev pub write_method_not_allowed : String → Outcome
write_method_not_allowed allowed =
    reply_only (refused 405 "method_not_allowed" (("Allow", allowed) ∷ []))

pub record RoutePolicy : Type 0 where
  pub method : String
  pub mutation : Bool

abbrev pub reads : String → RoutePolicy
reads method = record { method = method; mutation = false }

abbrev pub mutates : String → RoutePolicy
mutates method = record { method = method; mutation = true }

unfoldable pub compatibility_routes : List (String × RoutePolicy)
compatibility_routes =
    ("/api/chat", reads "POST")
    ∷ ("/api/generate", reads "POST")
    ∷ ("/api/embed", reads "POST")
    ∷ ("/api/embeddings", reads "POST")
    ∷ ("/api/tags", reads "GET")
    ∷ ("/api/show", reads "POST")
    ∷ ("/api/ps", reads "GET")
    ∷ ("/api/version", reads "GET")
    ∷ ("/api/pull", mutates "POST")
    ∷ ("/api/create", mutates "POST")
    ∷ ("/api/copy", mutates "POST")
    ∷ ("/api/delete", mutates "DELETE")
    ∷ []

-- `subtleEqual` on what is behind the prefix.
abbrev pub is_token : String → Option String → Bool
is_token token none = false
is_token token (some provided) = trim_space provided == token

unfoldable pub authorized : Server → Request → Bool
authorized s r =
    let token = trim_space s.config.auth_token in
    if token == ""
    then true
    else is_token token (after_prefix "Bearer " (trim_space r.authorization))

-- The two checks that most handlers begin with.
unfoldable pub guarded : Server → Request → String → Outcome → Outcome
guarded s r method outcome =
    if not (r.method == method)
    then write_method_not_allowed method
    else if not (authorized s r)
    then write_unauthorized
    else outcome

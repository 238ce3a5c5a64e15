-- ===== src/Http/Handlers.antt =====
-- The handlers of the HTTP server (internal/httpapi/server.go and internal/httpapi/registry_routes.go).
use quantum_runtime.Prelude.{
  String, List, [], ◌∷◌, not, ◌&&◌, Option, none, some, Result, ok, err, ◌==◌, string_eq,
  if◌then◌else◌,
}
use quantum_runtime.Prelude.Int.{ltb_ℤ}
use quantum_runtime.Prelude.Text.{trim_space}
use quantum_runtime.Registry.{lookup, lookup_model, list_models}
use quantum_runtime.Manifest.Types.{Manifest}
use quantum_runtime.Backend.{Descriptor, ContractError, validate_descriptor}
use quantum_runtime.Upstream.{latest_known_good}
use quantum_runtime.Router.{
  RoutePlan, RouteError, model_not_found, no_compatible_backend, Router, new_router, route,
}
use quantum_runtime.Http.Types.{
  Request, Performed, Upstream, Server, Reply, Outcome, write_error, write_json,
  write_method_not_allowed, RoutePolicy, compatibility_routes, guarded, refused, relayed, alive,
  ready, runtime, capabilities, backends, plan, model_policies, upstreams, models, model, answered,
  body_too_large, timed_out, failed,
}

abbrev pub descriptor_of : Option Upstream → Option Descriptor
descriptor_of none = none
descriptor_of (some u) = some u.descriptor

abbrev pub descriptors : Option Upstream → List Descriptor
descriptors none = []
descriptors (some u) = u.descriptor ∷ []

unfoldable pub handle_health : Server → Request → Outcome
handle_health s r =
    if not (r.method == "GET")
    then write_method_not_allowed "GET"
    else write_json (alive s.build.version)

abbrev pub readiness : Option Upstream → Outcome
readiness none = write_error 503 "upstream_unavailable"
readiness (some u) =
    if not u.is_ready
    then write_error 503 "upstream_unavailable"
    else write_json (ready u.descriptor.kind)

unfoldable pub handle_ready : Server → Request → Outcome
handle_ready s r =
    if not (r.method == "GET") then write_method_not_allowed "GET" else readiness s.upstream

unfoldable pub handle_runtime : Server → Request → Outcome
handle_runtime s r = guarded s r "GET" (write_json (runtime s.build (descriptor_of s.upstream)))

unfoldable pub handle_capabilities : Server → Request → Outcome
handle_capabilities s r =
    guarded s r "GET"
      (write_json (capabilities (descriptor_of s.upstream) s.config.allow_model_mutation))

abbrev pub checked : Descriptor → Result ContractError (Unit {0}) → Outcome
checked descriptor (ok valid) = write_json (backends (descriptor ∷ []))
checked descriptor (err problem) = write_error 500 "invalid_backend_descriptor"

abbrev pub listed : Option Upstream → Outcome
listed none = write_json (backends [])
listed (some u) = checked u.descriptor (validate_descriptor u.descriptor)

unfoldable pub handle_backends : Server → Request → Outcome
handle_backends s r = guarded s r "GET" (listed s.upstream)

abbrev pub planned : Result RouteError RoutePlan → Outcome
planned (ok p) = write_json (plan p)
planned (err (model_not_found identifier)) = write_error 404 "model_not_found"
planned (err (no_compatible_backend id)) = write_error 422 "no_compatible_backend"
planned (err _) = write_error 500 "route_failed"

abbrev pub routed : String → List String → Result RouteError Router → Outcome
routed identifier required (err problem) = write_error 500 "router_unavailable"
routed identifier required (ok router) = planned (route router identifier required)

abbrev pub route_decoded : Server → Option (String × List String) → Outcome
route_decoded s none = write_error 400 "invalid_route_request"
route_decoded s (some (identifier, required)) =
    if trim_space identifier == ""
    then write_error 400 "invalid_route_request"
    else routed identifier required
        (new_router (some s.registry) (descriptors s.upstream) s.policies)

unfoldable pub handle_route : Server → Request → Outcome
handle_route s r = guarded s r "POST" (
    if ltb_ℤ s.config.request_body_limit r.content_length
    then write_error 413 "request_too_large"
    else route_decoded s (s.decode_route s.config.request_body_limit r))

unfoldable pub handle_model_policies : Server → Request → Outcome
handle_model_policies s r = guarded s r "GET" (write_json (model_policies s.policies))

unfoldable pub handle_upstreams : Server → Request → Outcome
handle_upstreams s r =
    guarded s r "GET" (write_json (upstreams s.ledger.entries (latest_known_good s.ledger)))

unfoldable pub handle_model_list : Server → Request → Outcome
handle_model_list s r = guarded s r "GET" (write_json (models (list_models s.registry)))

abbrev pub inspected : String → Option Manifest → Outcome
inspected identifier none = write_error 404 "model_not_found"
inspected identifier (some m) = write_json (model identifier m)

-- The handler of a path `/v1/models/...`, with what is behind that prefix.
unfoldable pub handle_model_inspect : Server → Request → String → Outcome
handle_model_inspect s r rest = guarded s r "GET" (
    let identifier = trim_space rest in
    if identifier == ""
    then write_error 404 "model_not_found"
    else inspected identifier (lookup_model s.registry identifier))

-- What `handleCompatibility` makes of the backend's result.
abbrev pub relay : Performed → Reply
relay (answered response) = relayed response
relay body_too_large = refused 413 "request_too_large" []
relay timed_out = refused 504 "upstream_timeout" []
relay failed = refused 502 "upstream_error" []

abbrev pub forward : Server → Request → Option Upstream → Outcome
forward s r none = write_error 503 "upstream_unavailable"
forward s r (some u) =
    if ltb_ℤ s.config.request_body_limit r.content_length
    then write_error 413 "request_too_large"
    else record {
      forwarded = r ∷ [];
      calibrations = [];
      reply = relay (u.perform s.config.request_body_limit s.config.upstream_timeout r);
    }

abbrev pub compatible : Server → Request → Option RoutePolicy → Outcome
compatible s r none = write_error 404 "unsupported_compatibility_route"
compatible s r (some policy) = guarded s r policy.method (
    if policy.mutation && not s.config.allow_model_mutation
    then write_error 403 "model_mutation_disabled"
    else forward s r s.upstream)

unfoldable pub handle_compatibility : Server → Request → Outcome
handle_compatibility s r = compatible s r (lookup r.path compatibility_routes)

unfoldable pub handle_not_found : Server → Request → Outcome
handle_not_found s r = write_error 404 "not_found"

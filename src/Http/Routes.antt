-- ===== src/Http/Routes.antt =====
-- Which handler a request comes to (internal/httpapi/server.go, registry_routes.go,
-- deployment_routes.go and resource_routes.go there), on a path that `http.ServeMux` does not redirect.
use quantum_runtime.Prelude.{
  String, List, [], ◌∷◌, Option, none, some, ◌==◌, string_eq, if◌then◌else◌,
}
use quantum_runtime.Prelude.Text.{after_prefix}
use quantum_runtime.Registry.{lookup}
use quantum_runtime.Http.Types.{Request, Server, Outcome}
use quantum_runtime.Http.Handlers.{
  handle_health, handle_ready, handle_runtime, handle_capabilities, handle_backends, handle_route,
  handle_model_policies, handle_upstreams, handle_model_list, handle_model_inspect,
  handle_compatibility, handle_not_found,
}
use quantum_runtime.Http.Extensions.{
  handle_deployment_profiles, handle_admission, handle_benchmark_plan, handle_host_profile,
  handle_host_calibration, handle_placement,
}

-- The routes of `routes` with one path each.
unfoldable pub exact_routes : List (String × (Server → Request → Outcome))
exact_routes =
    ("/healthz", handle_health)
    ∷ ("/readyz", handle_ready)
    ∷ ("/v1/runtime", handle_runtime)
    ∷ ("/v1/capabilities", handle_capabilities)
    ∷ ("/v1/backends", handle_backends)
    ∷ ("/v1/route", handle_route)
    ∷ ("/v1/model-policies", handle_model_policies)
    ∷ ("/v1/upstreams", handle_upstreams)
    ∷ []

abbrev pub or_compatibility : Server → Request → Option String → Outcome
or_compatibility s r none = handle_not_found s r
or_compatibility s r (some rest) = handle_compatibility s r

-- The handler that was found, or else what comes next.
abbrev pub handled : Server → Request → Outcome → Option (Server → Request → Outcome) → Outcome
handled s r next none = next
handled s r next (some handler) = handler s r

-- The mux of `routes`.
unfoldable pub serve_mux : Server → Request → Outcome
serve_mux s r =
    handled s r (or_compatibility s r (after_prefix "/api/" r.path)) (lookup r.path exact_routes)

abbrev pub or_next : Server → Request → Option String → Outcome
or_next s r none = serve_mux s r
or_next s r (some rest) = handle_model_inspect s r rest

-- The routes of the registry, and then those of the mux.
unfoldable pub serve_registry : Server → Request → Outcome
serve_registry s r =
    if r.path == "/v1/models"
    then handle_model_list s r
    else or_next s r (after_prefix "/v1/models/" r.path)

-- The deployment routes and the resource routes.
unfoldable pub extension_routes : List (String × (Server → Request → Outcome))
extension_routes =
    ("/v1/deployment-profiles", handle_deployment_profiles)
    ∷ ("/v1/admission", handle_admission)
    ∷ ("/v1/benchmark-plan", handle_benchmark_plan)
    ∷ ("/v1/host", handle_host_profile)
    ∷ ("/v1/host/calibrate", handle_host_calibration)
    ∷ ("/v1/placement", handle_placement)
    ∷ []

unfoldable pub serve : Server → Request → Outcome
serve s r = handled s r (serve_registry s r) (lookup r.path extension_routes)

-- ===== src/Http/Guards.antt =====
-- What the HTTP server (internal/httpapi/server.go) does without valid credentials.
use quantum_runtime.Prelude.{
  String, ◌≡◌, ◌≢◌, refl, sym, inl, inr, List, [], ◌∷◌, Bool, true, false, Option, none, some, ok,
  ◌==◌, string_eq, All, Bool-cases,
}
use text.Mathlib.TextEquality.{eq_iff}
use quantum_runtime.Prelude.Text.{trim_space, after_prefix}
use quantum_runtime.External.{External}
use quantum_runtime.Config.{Parsers, is_loopback_listen_address, load_with}
use quantum_runtime.Config.Laws.{load_with-IsSafe}
use quantum_runtime.Registry.{lookup}
use quantum_runtime.Http.Types.{
  Request, Server, Reply, refused, Outcome, RoutePolicy, is_token, authorized, guarded,
}
use quantum_runtime.Http.Handlers.{
  handle_runtime, handle_capabilities, handle_backends, handle_route, handle_model_policies,
  handle_upstreams, handle_model_list, handle_model_inspect, compatible, handle_compatibility,
  handle_not_found,
}
use quantum_runtime.Http.Extensions.{
  handle_deployment_profiles, handle_admission, handle_benchmark_plan, handle_host_profile,
  handle_host_calibration, handle_placement,
}
use quantum_runtime.Http.Routes.{
  exact_routes, or_compatibility, handled, serve_mux, or_next, serve_registry, extension_routes,
  serve,
}

abbrev pub is_refusal : Reply → Bool
is_refusal (refused status code headers) = true
is_refusal _ = false

-- Nothing reaches the backend, nothing is calibrated, and the reply is an error.
abbrev pub IsClosed : Outcome → Type 0
IsClosed o = (o.forwarded ≡ []) × (o.calibrations ≡ []) × (is_refusal o.reply ≡ true)

module _ (s : Server) (r : Request) (denied : authorized s r ≡ false) where
  guarded-IsClosed : (method : String) (o : Outcome) → IsClosed (guarded s r method o)
  unfolding guarded
  guarded-IsClosed method o = elim (Bool-cases (r.method == method)) [
    | inl e ↦ rw e (rw denied (refl, refl, refl))
    | inr e ↦ rw e (refl, refl, refl)
  ]

  compatible-IsClosed : (policy : Option RoutePolicy) → IsClosed (compatible s r policy)
  compatible-IsClosed none = (refl, refl, refl)
  compatible-IsClosed (some policy) = guarded-IsClosed policy.method _

  or_compatibility-IsClosed : (o : Option String) → IsClosed (or_compatibility s r o)
  unfolding handle_compatibility handle_not_found
  or_compatibility-IsClosed none = (refl, refl, refl)
  or_compatibility-IsClosed (some rest) = compatible-IsClosed _

  -- Where each handler of a table is closed at its own path, the table is closed if what comes next is.
  table-IsClosed :
      (next : Outcome) (routes : List (String × (Server → Request → Outcome)))
      → All
          (λ (entry : String × (Server → Request → Outcome)).
            r.path ≡ entry.0 → IsClosed (entry.1 s r))
          routes
      → IsClosed next
      → IsClosed (handled s r next (lookup r.path routes))
  unfolding lookup
  table-IsClosed next [] h closed = closed
  table-IsClosed next ((path, handler) ∷ routes) h closed = elim (Bool-cases (path == r.path)) [
    | inl e ↦ rw e (h.0 (sym ((eq_iff path r.path).0 e)))
    | inr e ↦ rw e (table-IsClosed next routes h.1 closed)
  ]

  serve_mux-IsClosed : r.path ≢ "/healthz" → r.path ≢ "/readyz" → IsClosed (serve_mux s r)
  unfolding serve_mux exact_routes handle_runtime handle_capabilities handle_backends handle_route
      handle_model_policies handle_upstreams
  serve_mux-IsClosed health ready =
      table-IsClosed _ exact_routes
        (
          λ e. absurd (health e),
          (
            λ e. absurd (ready e),
            (
              λ e. guarded-IsClosed "GET" _,
              (
                λ e. guarded-IsClosed "GET" _,
                (
                  λ e. guarded-IsClosed "GET" _,
                  (
                    λ e. guarded-IsClosed "POST" _,
                    (λ e. guarded-IsClosed "GET" _, (λ e. guarded-IsClosed "GET" _, tt)),
                  ),
                ),
              ),
            ),
          ),
        )
        (or_compatibility-IsClosed _)

  or_next-IsClosed :
      (o : Option String) → r.path ≢ "/healthz" → r.path ≢ "/readyz" → IsClosed (or_next s r o)
  unfolding handle_model_inspect
  or_next-IsClosed none health ready = serve_mux-IsClosed health ready
  or_next-IsClosed (some rest) health ready = guarded-IsClosed "GET" _

  serve_registry-IsClosed : r.path ≢ "/healthz" → r.path ≢ "/readyz" → IsClosed (serve_registry s r)
  unfolding serve_registry handle_model_list
  serve_registry-IsClosed health ready = elim (Bool-cases (r.path == "/v1/models")) [
    | inl e ↦ rw e (guarded-IsClosed "GET" _)
    | inr e ↦ rw e (or_next-IsClosed _ health ready)
  ]

  serve-IsClosed : r.path ≢ "/healthz" → r.path ≢ "/readyz" → IsClosed (serve s r)
  unfolding serve extension_routes handle_deployment_profiles handle_admission handle_benchmark_plan
      handle_host_profile handle_host_calibration handle_placement
  serve-IsClosed health ready =
      table-IsClosed _ extension_routes
        (
          λ e. guarded-IsClosed "GET" _,
          (
            λ e. guarded-IsClosed "POST" _,
            (
              λ e. guarded-IsClosed "POST" _,
              (
                λ e. guarded-IsClosed "GET" _,
                (λ e. guarded-IsClosed "POST" _, (λ e. guarded-IsClosed "POST" _, tt)),
              ),
            ),
          ),
        )
        (serve_registry-IsClosed health ready)

authorized-false :
    (s : Server) (r : Request)
    → trim_space s.config.auth_token ≢ ""
    → is_token
        (trim_space s.config.auth_token)
        (after_prefix "Bearer " (trim_space r.authorization))
      ≡ false
    → authorized s r ≡ false
unfolding authorized
authorized-false s r token wrong = elim (Bool-cases (trim_space s.config.auth_token == "")) [
  | inl e ↦ absurd (token ((eq_iff _ _).0 e))
  | inr e ↦ rw e wrong
]

-- A server whose configuration was loaded from the environment and whose address is not a loopback
-- address: a request without the configured bearer token is refused, reaches no backend and starts no
-- calibration, unless it asks for the health or the readiness.
pub serve-load_with :
    (ps : Parsers) (ext : External) (getenv : String → String) (s : Server) (r : Request)
    → load_with ps ext (some getenv) ≡ ok s.config
    → is_loopback_listen_address ps s.config.listen_address ≡ false
    → is_token
        (trim_space s.config.auth_token)
        (after_prefix "Bearer " (trim_space r.authorization))
      ≡ false
    → r.path ≢ "/healthz"
    → r.path ≢ "/readyz"
    → IsClosed (serve s r)
serve-load_with ps ext getenv s r loaded outside wrong health ready =
    let safe = load_with-IsSafe ps ext getenv s.config loaded in
    serve-IsClosed s r (authorized-false s r (safe.token outside) wrong) health ready

-- ===== src/Http/Forwarding.antt =====
-- Which requests the HTTP server (internal/httpapi/server.go) passes on to the backend.
use quantum_runtime.Prelude.{
  String, ◌≡◌, refl, inl, inr, List, [], ◌∷◌, Bool, true, false, not, ◌&&◌, Option, none, some,
  ◌==◌, string_eq, if◌then◌else◌, All, Bool-cases,
}
use text.Mathlib.TextEquality.{eq_iff}
use quantum_runtime.Prelude.Int.{ltb_ℤ}
use quantum_runtime.Prelude.Text.{after_prefix}
use quantum_runtime.Registry.{lookup}
use quantum_runtime.Http.Types.{
  Request, Server, Upstream, Outcome, RoutePolicy, compatibility_routes, authorized, guarded,
  write_error, write_unauthorized, write_method_not_allowed,
}
use quantum_runtime.Http.Handlers.{
  handle_runtime, handle_capabilities, handle_backends, handle_model_policies, handle_upstreams,
  handle_model_list, handle_model_inspect, forward, compatible, handle_compatibility,
  handle_not_found,
}
use quantum_runtime.Http.Routes.{
  exact_routes, or_compatibility, handled, serve_mux, or_next, serve_registry, extension_routes,
  serve,
}
use quantum_runtime.Http.Extensions.{handle_deployment_profiles}
use quantum_runtime.Http.Silence.{
  guarded-silent, handle_health-silent, handle_ready-silent, listed-silent,
  handle_model_inspect-silent, handle_route-silent, handle_admission-silent,
  handle_benchmark_plan-silent, handle_host_profile-silent, handle_host_calibration-silent,
  handle_placement-silent,
}

-- The requests that reached the backend are this one, and it passed every check.
pub record IsForwarded (s : Server) (r : Request) (requests : List Request) : Type 0 where
  pub once : requests ≡ r ∷ []
  pub policy : RoutePolicy
  pub listed : lookup r.path compatibility_routes ≡ some policy
  pub method : r.method ≡ policy.method
  pub is_authorized : authorized s r ≡ true
  pub allowed : policy.mutation ≡ true → s.config.allow_model_mutation ≡ true
  pub within : ltb_ℤ s.config.request_body_limit r.content_length ≡ false

module _ (s : Server) (r : Request) where
  abbrev IsChecked : Outcome → Type 0
  IsChecked o =
      (x : Request) (xs : List Request) → o.forwarded ≡ x ∷ xs → IsForwarded s r o.forwarded

  silent : (o : Outcome) → o.forwarded ≡ [] → IsChecked o
  silent o e x xs h = cc (e, h)

  if-IsChecked :
      (b : Bool) (o o' : Outcome)
      → (b ≡ true → IsChecked o)
      → (b ≡ false → IsChecked o')
      → IsChecked (if b then o else o')
  if-IsChecked true o o' h h' = h refl
  if-IsChecked false o o' h h' = h' refl

  not-false : (b : Bool) → not b ≡ false → b ≡ true
  not-false true e = refl
  not-false false e = cc

  guarded-IsChecked :
      (method : String) (o : Outcome)
      → (r.method ≡ method → authorized s r ≡ true → IsChecked o)
      → IsChecked (guarded s r method o)
  unfolding guarded
  guarded-IsChecked method o h =
      if-IsChecked _ _ _ (λ e. silent (write_method_not_allowed method) refl)
        (λ e.
          if-IsChecked _ _ _ (λ e'. silent write_unauthorized refl)
            (λ e'. h ((eq_iff r.method method).0 (not-false _ e)) (not-false _ e')))

  forward-IsChecked :
      (u : Option Upstream) (policy : RoutePolicy)
      → lookup r.path compatibility_routes ≡ some policy
      → r.method ≡ policy.method
      → authorized s r ≡ true
      → (policy.mutation ≡ true → s.config.allow_model_mutation ≡ true)
      → IsChecked (forward s r u)
  forward-IsChecked none policy found same is_authorized allowed =
      silent (write_error 503 "upstream_unavailable") refl
  forward-IsChecked (some u) policy found same is_authorized allowed =
      if-IsChecked _ _ _ (λ e. silent (write_error 413 "request_too_large") refl)
        (λ e x xs h. record {
          once = refl;
          policy = policy;
          listed = found;
          method = same;
          is_authorized = is_authorized;
          allowed = allowed;
          within = e;
        })

  compatible-IsChecked :
      (o : Option RoutePolicy)
      → lookup r.path compatibility_routes ≡ o
      → IsChecked (compatible s r o)
  compatible-IsChecked none found = silent (write_error 404 "unsupported_compatibility_route") refl
  compatible-IsChecked (some policy) found =
      guarded-IsChecked policy.method _ (λ same is_authorized.
        if-IsChecked _ _ _ (λ e. silent (write_error 403 "model_mutation_disabled") refl)
          (λ e.
            forward-IsChecked s.upstream policy found same is_authorized
              (allowed policy.mutation s.config.allow_model_mutation e)))
    where
      allowed : (b c : Bool) → (b && not c) ≡ false → b ≡ true → c ≡ true
      allowed true c e t = not-false c e
      allowed false c e t = cc

  or_compatibility-IsChecked : (o : Option String) → IsChecked (or_compatibility s r o)
  unfolding handle_compatibility handle_not_found
  or_compatibility-IsChecked none = silent (handle_not_found s r) refl
  or_compatibility-IsChecked (some rest) = compatible-IsChecked _ refl

  table-IsChecked :
      (next : Outcome) (routes : List (String × (Server → Request → Outcome)))
      → All (λ (entry : String × (Server → Request → Outcome)). (entry.1 s r).forwarded ≡ []) routes
      → IsChecked next
      → IsChecked (handled s r next (lookup r.path routes))
  unfolding lookup
  table-IsChecked next [] h checked_next = checked_next
  table-IsChecked next ((path, handler) ∷ routes) h checked_next =
      elim (Bool-cases (path == r.path)) [
        | inl e ↦ rw e (silent (handler s r) h.0)
        | inr e ↦ rw e (table-IsChecked next routes h.1 checked_next)
      ]

  serve_mux-IsChecked : IsChecked (serve_mux s r)
  unfolding serve_mux exact_routes handle_runtime handle_capabilities handle_backends
      handle_model_policies handle_upstreams
  serve_mux-IsChecked =
      table-IsChecked _ exact_routes
        (
          handle_health-silent s r,
          (
            handle_ready-silent s r,
            (
              guarded-silent s r "GET" _ refl,
              (
                guarded-silent s r "GET" _ refl,
                (
                  guarded-silent s r "GET" _ (listed-silent s r _),
                  (
                    handle_route-silent s r,
                    (guarded-silent s r "GET" _ refl, (guarded-silent s r "GET" _ refl, tt)),
                  ),
                ),
              ),
            ),
          ),
        )
        (or_compatibility-IsChecked _)

  or_next-IsChecked : (o : Option String) → IsChecked (or_next s r o)
  or_next-IsChecked none = serve_mux-IsChecked
  or_next-IsChecked (some rest) =
      silent (handle_model_inspect s r rest) (handle_model_inspect-silent s r rest)

  serve_registry-IsChecked : IsChecked (serve_registry s r)
  unfolding serve_registry handle_model_list
  serve_registry-IsChecked =
      if-IsChecked (r.path == "/v1/models") (handle_model_list s r)
        (or_next s r (after_prefix "/v1/models/" r.path))
        (λ e. silent (handle_model_list s r) (guarded-silent s r "GET" _ refl))
        (λ e. or_next-IsChecked _)

  -- A request that reaches the backend does so once, and only if its path is a compatibility route, its
  -- method is the route's, it is authorized, a route that changes models is allowed by the
  -- configuration, and its declared length is within the limit.
  pub serve-IsForwarded :
      (x : Request) (xs : List Request)
      → (serve s r).forwarded ≡ x ∷ xs
      → IsForwarded s r (serve s r).forwarded
  unfolding serve extension_routes handle_deployment_profiles
  serve-IsForwarded =
      table-IsChecked _ extension_routes
        (
          guarded-silent s r "GET" _ refl,
          (
            handle_admission-silent s r,
            (
              handle_benchmark_plan-silent s r,
              (
                handle_host_profile-silent s r,
                (handle_host_calibration-silent s r, (handle_placement-silent s r, tt)),
              ),
            ),
          ),
        )
        serve_registry-IsChecked

-- ===== src/Tests/Router.antt =====
-- Routes over two models and two backends, of which one is disabled.
use mathlib.Core.List.{Memᴰ, Perm}
use quantum_runtime.Prelude.{
  ◌≡◌, refl, ◌↔◌, List, [], ◌∷◌, true, some, ok, err, All, contains, String,
}
use quantum_runtime.Prelude.Sorting.{sort}
use quantum_runtime.Prelude.Text.{trim_space}
use quantum_runtime.Samples.{lenient, dense_model, server, disabled_server, gemma_policy}
use quantum_runtime.Registry.{lookup, lookup_model}
use quantum_runtime.Backend.{
  valid_support, is_supported, check_supports, check_formats, named_supports, named_states,
  validate_capabilities, valid_token, validate_descriptor, capability_state,
}
use quantum_runtime.Backend.Laws.{capability_state-IsValid}
use quantum_runtime.Policy.{match_policies}
use quantum_runtime.Policy.Laws.{IsFor, match_policies_iff}
use quantum_runtime.Router.{
  RoutePlan, Router, model_not_found, no_compatible_backend, check_backends, new_router,
  candidate_of, collect_candidates, candidate_artifacts, model_supports, requirements_satisfied,
  collect_requirements, normalized_requirements, is_compatible, first_match, pick, route_plan,
  route,
}
use quantum_runtime.Router.Soundness.{Unfit}
use quantum_runtime.Router.Routes.{
  IsRouted, route-IsRouted, route-no_backend_iff, route-not_found_iff,
}
use quantum_runtime.Router.Construction.{new_router-IsBuilt}
use quantum_runtime.Registry.Naming.{IsUnnamed}
use quantum_runtime.Tests.Registry.{models, two_models, two_models-built}

abbrev router : Router
router = record {
  registry = two_models;
  backends = disabled_server ∷ server ∷ [];
  policies = gemma_policy ∷ [];
}

server_valid : validate_descriptor server ≡ ok tt
unfolding validate_descriptor validate_capabilities check_supports check_formats valid_support
    is_supported named_supports valid_token trim_space contains
server_valid = refl

router_made :
    new_router (some two_models) (server ∷ disabled_server ∷ []) (gemma_policy ∷ []) ≡ ok router
unfolding new_router check_backends validate_descriptor validate_capabilities check_supports
    check_formats valid_support is_supported named_supports valid_token trim_space contains sort
router_made = refl

abbrev tools : List String
tools = "tools.calling" ∷ "" ∷ "architecture.dense" ∷ "tools.calling" ∷ []

abbrev plan : RoutePlan
plan =
    route_plan router "gemma" (normalized_requirements tools) dense_model
      (record { backend_kind = "llama.cpp"; uri = "file:///models/a.gguf" }) server

gemma_found : lookup_model router.registry "gemma" ≡ some dense_model
unfolding lookup_model lookup
gemma_found = refl

routed : route router "gemma" tools ≡ ok plan
unfolding route lookup_model lookup pick first_match is_compatible requirements_satisfied
    model_supports capability_state named_states candidate_artifacts collect_candidates candidate_of
    normalized_requirements collect_requirements sort contains route_plan
routed = refl

route-IsRouted_example : IsRouted router "gemma" tools plan
route-IsRouted_example = route-IsRouted router "gemma" tools plan routed

route-no_backend_iff_example :
    (route router "gemma" ("reranking" ∷ []) ≡ err (no_compatible_backend dense_model.id))
    ↔ All
        (λ a.
          Unfit dense_model
            (normalized_requirements ("reranking" ∷ []))
            router.backends
            (candidate_of dense_model a))
        dense_model.artifacts
route-no_backend_iff_example =
    route-no_backend_iff router "gemma" ("reranking" ∷ []) dense_model gemma_found

route-not_found_iff_example :
    (route router "gpt" tools ≡ err (model_not_found "gpt")) ↔ All (IsUnnamed "gpt") models
route-not_found_iff_example = route-not_found_iff router "gpt" tools lenient models two_models-built

new_router-IsBuilt_example :
    (router.registry ≡ two_models)
    × (router.policies ≡ gemma_policy ∷ [])
    × Perm router.backends (server ∷ disabled_server ∷ [])
    × All (λ d. validate_descriptor d ≡ ok tt) router.backends
new_router-IsBuilt_example =
    new_router-IsBuilt two_models (server ∷ disabled_server ∷ []) (gemma_policy ∷ []) router
      router_made

capability_state-IsValid_example :
    valid_support (capability_state server.capabilities "reasoning.control") ≡ true
capability_state-IsValid_example = capability_state-IsValid server "reasoning.control" server_valid

match_policies_iff_example :
    Memᴰ gemma_policy (match_policies (gemma_policy ∷ []) "gemma" "4b" "llama.cpp")
    ↔ (Memᴰ gemma_policy (gemma_policy ∷ []) × IsFor "gemma" "4b" "llama.cpp" gemma_policy)
match_policies_iff_example =
    match_policies_iff (gemma_policy ∷ []) "gemma" "4b" "llama.cpp" gemma_policy

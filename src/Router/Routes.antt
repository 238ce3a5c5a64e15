-- ===== src/Router/Routes.antt =====
-- What a plan and an error of `Route` (internal/backendrouter/router.go) say.
use mathlib.Core.List.{Memᴰ}
use text.Mathlib.TextEquality.{eq_iff}
use quantum_runtime.Prelude.{
  String, ◌≡◌, refl, sym, ap, ◌∙◌, ◌≢◌, ◌↔◌, ◌⊎◌, inl, inr, List, true, false, ◌==◌, string_eq,
  Option, none, some, ok, err, ok_injective, All, All-at, Option-cases, arith,
}
use quantum_runtime.Manifest.Types.{Manifest}
use quantum_runtime.External.{External}
use quantum_runtime.Registry.{lookup_model, new_registry}
use quantum_runtime.Registry.Naming.{IsUnnamed, lookup_model-none_iff}
use quantum_runtime.Backend.{Descriptor}
use quantum_runtime.Router.{
  RoutePlan, Router, model_not_found, no_compatible_backend, ArtifactCandidate, candidate_of,
  candidate_artifacts, requirements_satisfied, normalized_requirements, is_compatible, pick,
  route_plan, planned, route_model, route,
}
use quantum_runtime.Router.Requirements.{
  Supports, requirements_satisfied_iff, normalized_requirements-All,
}
use quantum_runtime.Router.Soundness.{Fits, pick-some, Unfit, pick-none}
use quantum_runtime.Router.Candidates.{
  IsFrom, candidate_artifacts-All, candidate_artifacts-Kept, candidate_artifacts-IsFrom,
}

-- What the plan of a route stands for: a model that the registry finds, an artifact of it, and a
-- backend of the router that runs the artifact's format, is in service, and supports, as the model
-- does, each capability that was asked for.
pub record IsRouted (r : Router) (identifier : String) (capabilities : List String)
    (plan : RoutePlan) : Type 0 where
  pub model : Manifest
  pub candidate : ArtifactCandidate
  pub backend : Descriptor
  pub found : lookup_model r.registry identifier ≡ some model
  pub from_artifact : IsFrom model candidate
  pub registered : Memᴰ backend r.backends
  pub same_kind : backend.kind ≡ candidate.backend_kind
  pub enabled : backend.state ≢ "disabled"
  pub available : backend.state ≢ "unavailable"
  pub supports : All (λ name. (name ≡ "") ⊎ Supports model backend name) capabilities
  pub planned_as :
      plan ≡ route_plan r identifier (normalized_requirements capabilities) model candidate backend

not_state : (s t : String) → (s == t) ≡ false → s ≢ t
not_state s t h same = ground (arith, eq_iff s t)

module _ (r : Router) (identifier : String) (capabilities : List String) (plan : RoutePlan) where
  IsRouted-Fits :
      (m : Manifest) (found : ArtifactCandidate × Descriptor)
      → lookup_model r.registry identifier ≡ some m
      → Fits m (normalized_requirements capabilities) r.backends (candidate_artifacts m) found
      → route_plan r identifier (normalized_requirements capabilities) m found.0 found.1 ≡ plan
      → IsRouted r identifier capabilities plan
  unfolding is_compatible
  IsRouted-Fits m (c, d) e (from, registered, fits) same =
      let names = normalized_requirements capabilities in
      let satisfied : requirements_satisfied m d names ≡ true = ground (arith, fits) in
      let supports = (requirements_satisfied_iff m d names).0 satisfied in
      record {
        model = m;
        candidate = c;
        backend = d;
        found = e;
        from_artifact = All-at (IsFrom m) (candidate_artifacts-IsFrom m) from;
        registered = registered;
        same_kind = (eq_iff d.kind c.backend_kind).0 (ground (arith, fits));
        enabled = not_state d.state "disabled" (ground (arith, fits));
        available = not_state d.state "unavailable" (ground (arith, fits));
        supports = normalized_requirements-All (Supports m d) capabilities supports;
        planned_as = sym same;
      }

  planned-IsRouted :
      (m : Manifest) (picked : Option (ArtifactCandidate × Descriptor))
      → lookup_model r.registry identifier ≡ some m
      → pick m (normalized_requirements capabilities) r.backends (candidate_artifacts m) ≡ picked
      → planned r identifier (normalized_requirements capabilities) m picked ≡ ok plan
      → IsRouted r identifier capabilities plan
  planned-IsRouted m none e p h = absurd (cc)
  planned-IsRouted m (some found) e p h =
      let names = normalized_requirements capabilities in
      let fits = pick-some m names r.backends (candidate_artifacts m) found p in
      IsRouted-Fits m found e fits (ok_injective h)

  route_model-IsRouted :
      (model : Option Manifest)
      → lookup_model r.registry identifier ≡ model
      → route_model r identifier (normalized_requirements capabilities) model ≡ ok plan
      → IsRouted r identifier capabilities plan
  route_model-IsRouted none e h = absurd (cc)
  route_model-IsRouted (some m) e h = planned-IsRouted m _ e refl h

  -- Whenever `Route` returns a plan, the plan names a model that the registry finds, one of the
  -- model's artifacts, and a backend of the router of that artifact's kind that is neither disabled
  -- nor unavailable, and model and backend both support every capability that was asked for and
  -- is not the empty name.
  pub route-IsRouted :
      route r identifier capabilities ≡ ok plan → IsRouted r identifier capabilities plan
  unfolding route
  route-IsRouted h = route_model-IsRouted (lookup_model r.registry identifier) refl h

module _ (r : Router) (identifier : String) (capabilities : List String) where
  planned_missed :
      (m : Manifest) (picked : Option (ArtifactCandidate × Descriptor))
      → (planned r identifier (normalized_requirements capabilities) m picked
          ≡ err (no_compatible_backend m.id))
        ↔ (picked ≡ none)
  planned_missed m none = (λ h. refl, λ h. refl)
  planned_missed m (some found) = (λ h. absurd (cc), λ h. absurd (cc))

  -- If the registry finds a model, `Route` reports that there is no compatible backend exactly if no
  -- backend of the router is compatible with any of the model's artifacts: in no other case is a
  -- model without a route.
  pub route-no_backend_iff :
      (m : Manifest)
      → lookup_model r.registry identifier ≡ some m
      → (route r identifier capabilities ≡ err (no_compatible_backend m.id))
        ↔ All
            (λ a. Unfit m (normalized_requirements capabilities) r.backends (candidate_of m a))
            m.artifacts
  unfolding route
  route-no_backend_iff m found =
      let names = normalized_requirements capabilities in
      let (to, from) = planned_missed m (pick m names r.backends (candidate_artifacts m)) in
      let (all, missed) = pick-none m names r.backends (candidate_artifacts m) in
      rw found (
        λ h. candidate_artifacts-All (Unfit m names r.backends) m (all (to h)),
        λ h. from (missed (candidate_artifacts-Kept (Unfit m names r.backends) m h)),
      )

  planned-found :
      (m : Manifest) (picked : Option (ArtifactCandidate × Descriptor))
      → planned r identifier (normalized_requirements capabilities) m picked
        ≢ err (model_not_found identifier)
  planned-found m none h = cc
  planned-found m (some found) h = cc

  route-missing_iff :
      (route r identifier capabilities ≡ err (model_not_found identifier))
      ↔ (lookup_model r.registry identifier ≡ none)
  unfolding route
  route-missing_iff = elim (Option-cases (lookup_model r.registry identifier)) [
    | inl missing ↦ (λ h. missing, λ h. rw missing refl)
    | inr (m, found) ↦ (
      λ h. absurd (planned-found m _ (sym (ap (route_model r identifier _) found) ∙ h)),
      λ h. absurd (cc),
    )
  ]

  -- With a registry that `New` built, `Route` reports that the model is not found exactly if none of
  -- the given manifests has the identifier as its id or among its aliases.
  pub route-not_found_iff :
      (ext : External) (ms : List Manifest)
      → new_registry ext ms ≡ ok r.registry
      → (route r identifier capabilities ≡ err (model_not_found identifier))
        ↔ All (IsUnnamed identifier) ms
  route-not_found_iff ext ms built =
      let (to, from) = route-missing_iff in
      let (unnamed, missing) = lookup_model-none_iff ext ms r.registry identifier built in
      (λ h. unnamed (to h), λ h. from (missing h))

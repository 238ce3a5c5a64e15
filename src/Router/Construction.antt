-- ===== src/Router/Construction.antt =====
-- What `New` (internal/backendrouter/router.go) guarantees of a router.
use mathlib.Core.List.{Perm}
use quantum_runtime.Prelude.{
  ◌≡◌, refl, subst, List, [], ◌∷◌, some, ok, >>-ok, ok_injective, wrap_err, wrap_err-ok, All,
}
use quantum_runtime.Prelude.Sorting.{sort-perm, All-sort}
use quantum_runtime.Registry.{Registry}
use quantum_runtime.Backend.{Descriptor, validate_descriptor}
use quantum_runtime.Policy.{Policy}
use quantum_runtime.Router.{Router, backend_invalid, check_backends, descriptor_leb, new_router}

check_backends-All :
    (ds : List Descriptor) → check_backends ds ≡ ok tt → All (λ d. validate_descriptor d ≡ ok tt) ds
unfolding check_backends
check_backends-All [] h = tt
check_backends-All (d ∷ ds) h =
    let (first, rest) =
      >>-ok (wrap_err (backend_invalid d.id) (validate_descriptor d)) (check_backends ds) h in
    (wrap_err-ok (backend_invalid d.id) (validate_descriptor d) first, check_backends-All ds rest)

module _ (g : Registry) (ds : List Descriptor) (ps : List Policy) (r : Router) where
  -- A router that `New` returns holds the registry and the policies it was given, and the given
  -- backends in some order, each of which passes validation.
  pub new_router-IsBuilt :
      new_router (some g) ds ps ≡ ok r
      → (r.registry ≡ g)
        × (r.policies ≡ ps)
        × Perm r.backends ds
        × All (λ d. validate_descriptor d ≡ ok tt) r.backends
  unfolding new_router
  new_router-IsBuilt h =
      let (checked, made) = >>-ok (check_backends ds) _ h in
      let valid = All-sort descriptor_leb _ ds (check_backends-All ds checked) in
      let built = ok_injective made in
      subst
        (λ (x : Router).
          (x.registry ≡ g)
          × (x.policies ≡ ps)
          × Perm x.backends ds
          × All (λ d. validate_descriptor d ≡ ok tt) x.backends)
        built (refl, refl, sort-perm descriptor_leb ds, valid)

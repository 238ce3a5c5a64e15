-- ===== src/Registry.antt =====
-- The model registry (internal/modelregistry/registry.go): manifests by canonical id and by alias.
-- A Go map is the list of its entries, the newest first.
pub mod Invariant
pub mod Build
pub mod Lookup
pub mod Naming
use quantum_runtime.Prelude.{
  ℕ, String, List, [], ◌∷◌, ◌++◌, map, Bool, Option, none, some, Result, ok, err, ◌>>=◌, ◌>>◌,
  fail_if, wrap_err, ◌==◌, string_eq, if◌then◌else◌, length,
}
use quantum_runtime.Prelude.Text.{str_leb}
use quantum_runtime.Prelude.Sorting.{sort}
use quantum_runtime.External.{External}
use quantum_runtime.Manifest.Types.{Manifest, State, zero_manifest}
use quantum_runtime.Manifest.Validate.{ManifestError, validate_manifest}
use quantum_runtime.Manifest.Names.{capability_names}

unfoldable pub lookup {ℓ} : {V : Type ℓ} → String → List (String × V) → Option V
lookup k [] = none
lookup k ((j, v) ∷ m) = if j == k then some v else lookup k m

pub record Registry : Type 0 where
  pub by_id : List (String × Manifest)
  pub aliases : List (String × String)
  pub ordered : List String

pub record Entry : Type 0 where
  pub id : String
  pub display_name : String
  pub aliases : List String
  pub backend : String
  pub capabilities : List String
  pub state : State

pub data RegistryError : Type 0 where
  manifest_invalid : String → ManifestError → RegistryError
  duplicate_id : String → RegistryError
  id_conflicts_alias : (id owner : String) → RegistryError
  alias_conflicts_id : String → RegistryError
  alias_owned : (alias owner : String) → RegistryError

-- `if _, exists := m[k]; exists { return error }`.
abbrev pub fail_if_present :
    {V : Type 0} → Option V → (V → RegistryError) → Result RegistryError (Unit {0})
fail_if_present none e = ok tt
fail_if_present (some v) e = err (e v)

-- The inner loop of `New`, over the aliases of one manifest.
unfoldable pub add_aliases : String → List String → Registry → Result RegistryError Registry
add_aliases id [] r = ok r
add_aliases id (alias ∷ rest) r = do
  fail_if_present (lookup alias r.by_id) (λ _. alias_conflicts_id alias)
  fail_if_present (lookup alias r.aliases) (λ owner. alias_owned alias owner)
  add_aliases id rest (record r { aliases = (alias, id) ∷ r.aliases })

-- The body of the outer loop of `New`.
unfoldable pub add_manifest : External → Registry → Manifest → Result RegistryError Registry
add_manifest ext r m = do
  wrap_err (manifest_invalid m.id) (validate_manifest ext m)
  fail_if_present (lookup m.id r.by_id) (λ _. duplicate_id m.id)
  fail_if_present (lookup m.id r.aliases) (λ owner. id_conflicts_alias m.id owner)
  add_aliases m.id m.aliases
      (record r { by_id = (m.id, m) ∷ r.by_id; ordered = r.ordered ++ m.id ∷ [] })

unfoldable pub add_manifests : External → Registry → List Manifest → Result RegistryError Registry
add_manifests ext r [] = ok r
add_manifests ext r (m ∷ ms) = do r' ← add_manifest ext r m; add_manifests ext r' ms

abbrev pub empty : Registry
empty = record { by_id = []; aliases = []; ordered = [] }

unfoldable pub new_registry : External → List Manifest → Result RegistryError Registry
new_registry ext manifests = do
  r ← add_manifests ext empty manifests
  ok (record r { ordered = sort str_leb r.ordered })

unfoldable pub lookup_model : Registry → String → Option Manifest
lookup_model r identifier = elim (lookup identifier r.by_id) [
  | some m ↦ some m
  | none ↦ elim (lookup identifier r.aliases) [
    | none ↦ none
    | some canonical ↦ lookup canonical r.by_id
  ]
]

-- The body of the loop of `List`.
unfoldable pub entry_of : Manifest → Entry
entry_of m = record {
  id = m.id;
  display_name = m.display_name;
  aliases = m.aliases;
  backend = m.backend_type;
  capabilities = capability_names m.capabilities;
  state = m.state;
}

-- `r.byID[id]`, with the zero manifest for a missing id.
abbrev pub or_zero : Option Manifest → Manifest
or_zero none = zero_manifest
or_zero (some m) = m

unfoldable pub list_models : Registry → List Entry
unfolding entry_of
list_models r = map (λ id. entry_of (or_zero (lookup id r.by_id))) r.ordered

unfoldable pub registry_len : Registry → ℕ
registry_len r = length r.ordered

-- ===== src/Registry/Lookup.antt =====
-- `Lookup`, `List` and `Len` (internal/modelregistry/registry.go) on a registry that `New` returned.
use quantum_runtime.Prelude.{
  String, ◌≡◌, refl, sym, ap, ◌∙◌, ◌⊎◌, inl, inr, List, [], ◌∷◌, none, some, ok, subst, string_eq,
  map, length, length-map, All, All-mono, arith, Option-cases,
}
use quantum_runtime.Prelude.Text.{str_leb}
use quantum_runtime.External.{External}
use quantum_runtime.Manifest.Types.{Manifest}
use quantum_runtime.Manifest.Validate.{validate_manifest}
use quantum_runtime.Registry.{lookup, Registry, new_registry, lookup_model}
use mathlib.Core.List.{Perm}
use mathlib.Core.List.Perm
use quantum_runtime.Prelude.Sorting.{sort-perm, length-sort}
use quantum_runtime.Registry.{entry_of, or_zero, list_models, registry_len}
use quantum_runtime.Registry.Build.{IsNamed, IsBuilt, new_registry-IsBuilt}

lookup_model_id :
    (r : Registry) (k : String) {m : Manifest}
    → lookup k r.by_id ≡ some m
    → lookup_model r k ≡ some m
unfolding lookup_model
lookup_model_id r k h = ground arith

lookup_model_alias :
    (r : Registry) (k id : String) {m : Manifest}
    → lookup k r.by_id ≡ none
    → lookup k r.aliases ≡ some id
    → lookup id r.by_id ≡ some m
    → lookup_model r k ≡ some m
unfolding lookup_model
lookup_model_alias r k id no_id owner h = ground arith

pub lookup_model-cases :
    (r : Registry) (k : String) {m : Manifest}
    → lookup_model r k ≡ some m
    → (lookup k r.by_id ≡ some m)
      ⊎ ((id : String) × (lookup k r.aliases ≡ some id) × (lookup id r.by_id ≡ some m))
unfolding lookup_model
lookup_model-cases r k h = elim (Option-cases (lookup k r.by_id)) [
  | inr (n, e) ↦ inl (ground arith)
  | inl no_id ↦ elim (Option-cases (lookup k r.aliases)) [
    | inr (id, e) ↦ inr (id, e, ground arith)
    | inl no_alias ↦ absurd (ground arith)
  ]
]

-- A manifest is found under its id and under each of its aliases.
abbrev pub IsFound : Registry → Manifest → Type 0
IsFound r m =
    (lookup_model r m.id ≡ some m) × All (λ alias. lookup_model r alias ≡ some m) m.aliases

module _ {ext : External} {ms : List Manifest} {r : Registry} (b : IsBuilt ext ms r) where
  alias-IsFree : (k id : String) → lookup k r.aliases ≡ some id → lookup k r.by_id ≡ none
  alias-IsFree k id h = elim (Option-cases (lookup k r.by_id)) [
    | inl free ↦ free
    | inr (n, e) ↦ cc (b.consistent.disjoint k n e)
  ]

  IsNamed-IsFound : (m : Manifest) → IsNamed r m → IsFound r m
  IsNamed-IsFound m (named, found) = (
    lookup_model_id r m.id named,
    All-mono m.aliases
        (λ alias h. lookup_model_alias r alias m.id (alias-IsFree alias m.id h) h named) found,
  )

-- In a registry that `New` returns, every manifest that was given is found under its canonical id
-- and under each of its aliases.
pub new_registry-IsFound :
    (ext : External) (ms : List Manifest) (r : Registry)
    → new_registry ext ms ≡ ok r
    → All (IsFound r) ms
new_registry-IsFound ext ms r h =
    let b = new_registry-IsBuilt ext ms r h in All-mono ms (IsNamed-IsFound b) b.all_named

-- Whatever `Lookup` finds in a registry that `New` returns has passed validation, and it is found
-- again under its own id. The identifier is either its id, which is then no alias of the registry, or
-- an alias that leads to its id, which is then no id of the registry.
pub lookup_model-IsValid :
    (ext : External) (ms : List Manifest) (r : Registry) (identifier : String) (m : Manifest)
    → new_registry ext ms ≡ ok r
    → lookup_model r identifier ≡ some m
    → (validate_manifest ext m ≡ ok tt)
      × (lookup_model r m.id ≡ some m)
      × (((m.id ≡ identifier) × (lookup identifier r.aliases ≡ none))
          ⊎ ((lookup identifier r.aliases ≡ some m.id) × (lookup identifier r.by_id ≡ none)))
lookup_model-IsValid ext ms r k m h found =
    let b = new_registry-IsBuilt ext ms r h in
    let c = b.consistent in
    let named_at = λ (j : String) (same : m.id ≡ j) (e : lookup j r.by_id ≡ some m).
      lookup_model_id r m.id (subst (λ x. lookup x r.by_id ≡ some m) (sym same) e) in
    elim (lookup_model-cases r k found) [
      | inl e ↦
          let same : m.id ≡ k = c.keyed k m e in
          (c.valid k m e, named_at k same e, inl (same, c.disjoint k m e))
      | inr (id, owner, e) ↦
          let same : m.id ≡ id = c.keyed id m e in
          (
            c.valid id m e,
            named_at id same e,
            inr (owner ∙ ap some (sym same), alias-IsFree b k id owner),
          )
    ]

-- `Len` of a registry that `New` returns is the number of manifests that were given.
registry_len-length :
    (ext : External) (ms : List Manifest) (r : Registry)
    → new_registry ext ms ≡ ok r
    → registry_len r ≡ length ms
unfolding registry_len
registry_len-length ext ms r h =
    let b = new_registry-IsBuilt ext ms r h in
    ap length b.listed ∙ length-sort str_leb (map (λ m. m.id) ms) ∙ length-map ms (λ m. m.id)

entries_of_named :
    (r : Registry) (ms : List Manifest)
    → All (IsNamed r) ms
    → map (λ id. entry_of (or_zero (lookup id r.by_id))) (map (λ m. m.id) ms) ≡ map entry_of ms
entries_of_named r [] h = refl
entries_of_named r (m ∷ ms) ((named, _), h) = cc (ap or_zero named, entries_of_named r ms h)

-- `List` of a registry that `New` returns holds exactly one entry for each manifest that was given,
-- and `Len` is their number.
pub list_models-perm :
    (ext : External) (ms : List Manifest) (r : Registry)
    → new_registry ext ms ≡ ok r
    → Perm (list_models r) (map entry_of ms) × (registry_len r ≡ length ms)
unfolding list_models
list_models-perm ext ms r h =
    let b = new_registry-IsBuilt ext ms r h in
    let perm : Perm (map (λ id. entry_of (or_zero (lookup id r.by_id))) r.ordered)
        (map entry_of ms) =
      rw (b.listed, ← entries_of_named r ms b.all_named)
        (Perm.map _ (sort-perm str_leb (map (λ m. m.id) ms))) in
    (perm, registry_len-length ext ms r h)

-- ===== src/Registry/Naming.antt =====
-- Which identifiers a registry that `New` (internal/modelregistry/registry.go) returns does not find.
use text.Mathlib.TextEquality.{eq_iff}
use quantum_runtime.Prelude.{
  String, ◌≡◌, ◌≢◌, ◌↔◌, refl, sym, ◌∙◌, ap, inl, inr, List, [], ◌∷◌, none, some, ok, >>=-eq-ok,
  ok_injective, subst, ◌==◌, string_eq, wrap_err, All, All-mono, Bool-cases, Option-cases,
}
use quantum_runtime.External.{External}
use quantum_runtime.Manifest.Types.{Manifest}
use quantum_runtime.Manifest.Validate.{validate_manifest}
use quantum_runtime.Registry.{
  lookup, Registry, manifest_invalid, fail_if_present, add_aliases, add_manifest, add_manifests,
  empty, new_registry, lookup_model,
}
use quantum_runtime.Registry.Invariant.{lookup_cons}
use quantum_runtime.Registry.Lookup.{IsFound, lookup_model-cases, new_registry-IsFound}

-- The manifest has the name neither as its id nor as an alias.
abbrev pub IsUnnamed : String → Manifest → Type 0
IsUnnamed name m = (m.id ≢ name) × All (λ alias. alias ≢ name) m.aliases

-- Neither map of the registry has the name.
record IsMissing (name : String) (r : Registry) : Type 0 where
  no_id : lookup name r.by_id ≡ none
  no_alias : lookup name r.aliases ≡ none

lookup_other :
    {V : Type 0} (k j : String) (v : V) (m : List (String × V))
    → j ≢ k
    → lookup k m ≡ none
    → lookup k ((j, v) ∷ m) ≡ none
lookup_other k j v m other missing = elim (Bool-cases (j == k)) [
  | inl e ↦ absurd (other ((eq_iff j k).0 e))
  | inr e ↦ rw (lookup_cons k j v m, e) missing
]

add_aliases-IsMissing :
    (name id : String) (aliases : List String) (r s : Registry)
    → All (λ alias. alias ≢ name) aliases
    → IsMissing name r
    → add_aliases id aliases r ≡ ok s
    → IsMissing name s
unfolding add_aliases
add_aliases-IsMissing name id [] r s others missing h =
    subst (IsMissing name) (ok_injective h) missing
add_aliases-IsMissing name id (alias ∷ rest) r s (other, others) missing h =
    let (_, _, h1) = >>=-eq-ok (fail_if_present (lookup alias r.by_id) _) _ h in
    let (_, _, h2) = >>=-eq-ok (fail_if_present (lookup alias r.aliases) _) _ h1 in
    add_aliases-IsMissing name id rest _ s others
      (record {
        no_id = missing.no_id;
        no_alias = lookup_other name alias id r.aliases other missing.no_alias;
      })
      h2

add_manifest-IsMissing :
    (ext : External) (name : String) (m : Manifest) (r s : Registry)
    → IsUnnamed name m
    → IsMissing name r
    → add_manifest ext r m ≡ ok s
    → IsMissing name s
unfolding add_manifest
add_manifest-IsMissing ext name m r s (other, others) missing h =
    let (_, _, h1) = >>=-eq-ok (wrap_err (manifest_invalid m.id) (validate_manifest ext m)) _ h in
    let (_, _, h2) = >>=-eq-ok (fail_if_present (lookup m.id r.by_id) _) _ h1 in
    let (_, _, h3) = >>=-eq-ok (fail_if_present (lookup m.id r.aliases) _) _ h2 in
    add_aliases-IsMissing name m.id m.aliases _ s others
      (record {
        no_id = lookup_other name m.id m r.by_id other missing.no_id;
        no_alias = missing.no_alias;
      })
      h3

add_manifests-IsMissing :
    (ext : External) (name : String) (ms : List Manifest) (r s : Registry)
    → All (IsUnnamed name) ms
    → IsMissing name r
    → add_manifests ext r ms ≡ ok s
    → IsMissing name s
unfolding add_manifests
add_manifests-IsMissing ext name [] r s others missing h =
    subst (IsMissing name) (ok_injective h) missing
add_manifests-IsMissing ext name (m ∷ ms) r s (other, others) missing h =
    let (next, added, h1) = >>=-eq-ok (add_manifest ext r m) _ h in
    add_manifests-IsMissing ext name ms next s others
      (add_manifest-IsMissing ext name m r next other missing added) h1

new_registry-IsMissing :
    (ext : External) (name : String) (ms : List Manifest) (r : Registry)
    → new_registry ext ms ≡ ok r
    → All (IsUnnamed name) ms
    → IsMissing name r
unfolding new_registry lookup
new_registry-IsMissing ext name ms r h others =
    let (s, added, last) = >>=-eq-ok (add_manifests ext empty ms) _ h in
    let missing =
      add_manifests-IsMissing ext name ms empty s others (record { no_id = refl; no_alias = refl })
        added in
    subst (IsMissing name) (ok_injective last)
      (record { no_id = missing.no_id; no_alias = missing.no_alias })

IsMissing-none : (name : String) (r : Registry) → IsMissing name r → lookup_model r name ≡ none
IsMissing-none name r missing = elim (Option-cases (lookup_model r name)) [
  | inl e ↦ e
  | inr (m, e) ↦ elim (lookup_model-cases r name e) [
    | inl found ↦ absurd (some_none (sym missing.no_id ∙ found))
    | inr (id, found, _) ↦ absurd (some_none (sym missing.no_alias ∙ found))
  ]
]
  where
    some_none : {A : Type 0} {a : A} → none ≡ some a → ⊥
    some_none e = cc

-- A registry finds no manifest under a name exactly if none of the given manifests has that name.
pub lookup_model-none_iff :
    (ext : External) (ms : List Manifest) (r : Registry) (name : String)
    → new_registry ext ms ≡ ok r
    → (lookup_model r name ≡ none) ↔ All (IsUnnamed name) ms
lookup_model-none_iff ext ms r name h = (
  λ missing. All-mono ms (unnamed missing) (new_registry-IsFound ext ms r h),
  λ others. IsMissing-none name r (new_registry-IsMissing ext name ms r h others),
)
  where
    other :
        {m : Manifest} (k : String)
        → lookup_model r name ≡ none
        → lookup_model r k ≡ some m
        → k ≢ name
    other k missing found e = let same = ap (lookup_model r) e in cc

    unnamed : lookup_model r name ≡ none → (m : Manifest) → IsFound r m → IsUnnamed name m
    unnamed missing m (id, aliases) = (
      other m.id missing id,
      All-mono m.aliases (λ alias found. other alias missing found) aliases,
    )

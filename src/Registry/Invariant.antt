-- ===== src/Registry/Invariant.antt =====
-- What holds of every registry that `New` (internal/modelregistry/registry.go) returns.
use text.Mathlib.TextEquality.{eq_iff}
use quantum_runtime.Prelude.{
  String, ◌≡◌, refl, inl, inr, List, [], ◌∷◌, Option, none, some, ok, >>=-eq-ok, ok_injective,
  subst, ◌==◌, string_eq, if◌then◌else◌, All, arith, Bool-cases,
}
use quantum_runtime.External.{External}
use quantum_runtime.Manifest.Types.{Manifest}
use quantum_runtime.Manifest.Validate.{validate_manifest}
use quantum_runtime.Registry.{lookup, Registry, RegistryError, fail_if_present, add_aliases}

module _ {ℓ} {V : Type ℓ} where
  -- A new entry in front: what is found under each key.
  pub lookup_cons :
      (k j : String) (v : V) (m : List (String × V))
      → lookup k ((j, v) ∷ m) ≡ (if j == k then some v else lookup k m)
  unfolding lookup
  lookup_cons k j v m = refl

  -- An entry under a key that was missing changes nothing that was found.
  pub lookup_fresh :
      (k j : String) (v w : V) (m : List (String × V))
      → lookup j m ≡ none
      → lookup k m ≡ some w
      → lookup k ((j, v) ∷ m) ≡ some w
  unfolding lookup
  lookup_fresh k j v w m fresh found = ground (arith, eq_iff j k)

  pub lookup_self : (k : String) (v : V) (m : List (String × V)) → lookup k ((k, v) ∷ m) ≡ some v
  unfolding lookup
  lookup_self k v m = ground (arith, eq_iff k k)

-- Identifiers name one thing: ids and aliases are disjoint, and every alias leads to a manifest.
pub record IsConsistent (ext : External) (r : Registry) : Type 0 where
  pub keyed : (k : String) (m : Manifest) → lookup k r.by_id ≡ some m → m.id ≡ k
  pub valid :
      (k : String) (m : Manifest) → lookup k r.by_id ≡ some m → validate_manifest ext m ≡ ok tt
  pub disjoint : (k : String) (m : Manifest) → lookup k r.by_id ≡ some m → lookup k r.aliases ≡ none
  pub resolved :
      (k id : String) → lookup k r.aliases ≡ some id → (m : Manifest) × (lookup id r.by_id ≡ some m)

-- A later registry finds all that an earlier one found.
pub record Extends (r s : Registry) : Type 0 where
  pub ids_kept : (k : String) (m : Manifest) → lookup k r.by_id ≡ some m → lookup k s.by_id ≡ some m
  pub aliases_kept : (k id : String) → lookup k r.aliases ≡ some id → lookup k s.aliases ≡ some id

pub Extends-refl : (r : Registry) → Extends r r
Extends-refl r = record { ids_kept = λ k m h. h; aliases_kept = λ k id h. h }

pub Extends-trans : {r s t : Registry} → Extends r s → Extends s t → Extends r t
Extends-trans h g = record {
  ids_kept = λ k m e. g.ids_kept k m (h.ids_kept k m e);
  aliases_kept = λ k id e. g.aliases_kept k id (h.aliases_kept k id e);
}

pub fail_if_present-ok :
    {V : Type 0} (o : Option V) (e : V → RegistryError) → fail_if_present o e ≡ ok tt → o ≡ none
fail_if_present-ok none e h = refl
fail_if_present-ok (some v) e h = cc

-- One alias more.
abbrev with_alias : String → String → Registry → Registry
with_alias alias id r = record r { aliases = (alias, id) ∷ r.aliases }

module _ {ext : External} {r : Registry} (c : IsConsistent ext r) where
  module _ (alias id : String) {m : Manifest} (here : lookup id r.by_id ≡ some m)
      (free_id : lookup alias r.by_id ≡ none) where
    with_alias-disjoint :
        (k : String) (n : Manifest)
        → lookup k r.by_id ≡ some n
        → lookup k ((alias, id) ∷ r.aliases) ≡ none
    with_alias-disjoint k n h =
        ground (arith, lookup_cons k alias id r.aliases, eq_iff alias k, c.disjoint k n h)

    with_alias-resolved :
        (k j : String)
        → lookup k ((alias, id) ∷ r.aliases) ≡ some j
        → (n : Manifest) × (lookup j r.by_id ≡ some n)
    with_alias-resolved k j h = elim (Bool-cases (alias == k)) [
      | inl same ↦ (m, ground (arith, lookup_cons k alias id r.aliases))
      | inr other ↦ c.resolved k j (ground (arith, lookup_cons k alias id r.aliases))
    ]

    with_alias-IsConsistent : IsConsistent ext (with_alias alias id r)
    with_alias-IsConsistent = record {
      keyed = c.keyed;
      valid = c.valid;
      disjoint = with_alias-disjoint;
      resolved = with_alias-resolved;
    }

  with_alias-Extends :
      {alias id : String} → lookup alias r.aliases ≡ none → Extends r (with_alias alias id r)
  with_alias-Extends {alias} {id} free_alias = record {
    ids_kept = λ k m h. h;
    aliases_kept = λ k j h. lookup_fresh k alias id j r.aliases free_alias h;
  }

-- What a successful run of the inner loop gives.
pub record AliasesAdded (ext : External) (id : String) (aliases : List String) (r s : Registry)
    : Type 0 where
  pub consistent : IsConsistent ext s
  pub extends : Extends r s
  pub ids_same : s.by_id ≡ r.by_id
  pub ordered_same : s.ordered ≡ r.ordered
  pub found : All (λ alias. lookup alias s.aliases ≡ some id) aliases

pub add_aliases-AliasesAdded :
    (ext : External) (id : String) (aliases : List String) (r s : Registry) (m : Manifest)
    → IsConsistent ext r
    → lookup id r.by_id ≡ some m
    → add_aliases id aliases r ≡ ok s
    → AliasesAdded ext id aliases r s
unfolding add_aliases
add_aliases-AliasesAdded ext id [] r s m c here h =
    subst (AliasesAdded ext id [] r) (ok_injective h) (record {
      consistent = c;
      extends = Extends-refl r;
      ids_same = refl;
      ordered_same = refl;
      found = tt;
    })
add_aliases-AliasesAdded ext id (alias ∷ rest) r s m c here h =
    let (_, free_id, h1) = >>=-eq-ok (fail_if_present (lookup alias r.by_id) _) _ h in
    let (_, free_alias, h2) = >>=-eq-ok (fail_if_present (lookup alias r.aliases) _) _ h1 in
    let new = with_alias alias id r in
    let added =
      add_aliases-AliasesAdded ext id rest new s m
        (with_alias-IsConsistent c alias id here (fail_if_present-ok _ _ free_id)) here h2 in
    record {
      consistent = added.consistent;
      extends =
          Extends-trans (with_alias-Extends c (fail_if_present-ok _ _ free_alias)) added.extends;
      ids_same = added.ids_same;
      ordered_same = added.ordered_same;
      found = (added.extends.aliases_kept alias id (lookup_self alias id r.aliases), added.found);
    }

-- ===== src/Registry/Build.antt =====
-- The outer loop of `New` (internal/modelregistry/registry.go): what holds of the registry after it.
use mathlib.Core.List.{append-nil, append_assoc}
use text.Mathlib.TextEquality.{eq_iff}
use quantum_runtime.Prelude.{
  String, ◌≡◌, refl, sym, ap, ◌∙◌, inl, inr, List, [], ◌∷◌, ◌++◌, none, some, ok, >>=-eq-ok,
  ok_injective, subst, wrap_err, wrap_err-ok, ◌==◌, string_eq, map, All, All-mono, arith,
  Bool-cases,
}
use quantum_runtime.Prelude.Text.{str_leb}
use quantum_runtime.Prelude.Sorting.{sort}
use quantum_runtime.External.{External}
use quantum_runtime.Manifest.Types.{Manifest}
use quantum_runtime.Manifest.Validate.{validate_manifest}
use quantum_runtime.Registry.{
  lookup, Registry, manifest_invalid, fail_if_present, add_manifest, add_manifests, empty,
  new_registry,
}
use quantum_runtime.Registry.Invariant.{
  lookup_cons, lookup_fresh, lookup_self, IsConsistent, Extends, Extends-refl, Extends-trans,
  fail_if_present-ok, add_aliases-AliasesAdded,
}

-- One manifest more.
abbrev with_manifest : Manifest → Registry → Registry
with_manifest m r = record r { by_id = (m.id, m) ∷ r.by_id; ordered = r.ordered ++ m.id ∷ [] }

module _ {ext : External} {r : Registry} (c : IsConsistent ext r) (m : Manifest)
    (ok_manifest : validate_manifest ext m ≡ ok tt) (free_id : lookup m.id r.by_id ≡ none)
    (free_alias : lookup m.id r.aliases ≡ none) where
  with_manifest-keyed :
      (k : String) (n : Manifest) → lookup k ((m.id, m) ∷ r.by_id) ≡ some n → n.id ≡ k
  with_manifest-keyed k n h =
      ground (arith, lookup_cons k m.id m r.by_id, eq_iff m.id k, c.keyed k n)

  with_manifest-valid :
      (k : String) (n : Manifest)
      → lookup k ((m.id, m) ∷ r.by_id) ≡ some n
      → validate_manifest ext n ≡ ok tt
  with_manifest-valid k n h = elim (Bool-cases (m.id == k)) [
    | inl same ↦
        let e : m ≡ n = ground (arith, lookup_cons k m.id m r.by_id) in
        subst (λ x. validate_manifest ext x ≡ ok tt) e ok_manifest
    | inr other ↦ c.valid k n (ground (arith, lookup_cons k m.id m r.by_id))
  ]

  with_manifest-disjoint :
      (k : String) (n : Manifest)
      → lookup k ((m.id, m) ∷ r.by_id) ≡ some n
      → lookup k r.aliases ≡ none
  with_manifest-disjoint k n h = elim (Bool-cases (m.id == k)) [
    | inl same ↦ rw (← (eq_iff m.id k).0 same) free_alias
    | inr other ↦ c.disjoint k n (ground (arith, lookup_cons k m.id m r.by_id))
  ]

  with_manifest-resolved :
      (k id : String)
      → lookup k r.aliases ≡ some id
      → (n : Manifest) × (lookup id ((m.id, m) ∷ r.by_id) ≡ some n)
  with_manifest-resolved k id h =
      let (n, e) = c.resolved k id h in (n, lookup_fresh id m.id m n r.by_id free_id e)

  with_manifest-IsConsistent : IsConsistent ext (with_manifest m r)
  with_manifest-IsConsistent = record {
    keyed = with_manifest-keyed;
    valid = with_manifest-valid;
    disjoint = with_manifest-disjoint;
    resolved = with_manifest-resolved;
  }

  with_manifest-Extends : Extends r (with_manifest m r)
  with_manifest-Extends = record {
    ids_kept = λ k n h. lookup_fresh k m.id m n r.by_id free_id h;
    aliases_kept = λ k id h. h;
  }

-- What a successful round of the outer loop gives.
record ManifestAdded (ext : External) (m : Manifest) (r s : Registry) : Type 0 where
  consistent : IsConsistent ext s
  extends : Extends r s
  named : lookup m.id s.by_id ≡ some m
  found : All (λ alias. lookup alias s.aliases ≡ some m.id) m.aliases
  longer : s.ordered ≡ r.ordered ++ m.id ∷ []

add_manifest-ManifestAdded :
    (ext : External) (r s : Registry) (m : Manifest)
    → IsConsistent ext r
    → add_manifest ext r m ≡ ok s
    → ManifestAdded ext m r s
unfolding add_manifest
add_manifest-ManifestAdded ext r s m c h =
    let (_, checked, h1) =
      >>=-eq-ok (wrap_err (manifest_invalid m.id) (validate_manifest ext m)) _ h in
    let (_, free_id, h2) = >>=-eq-ok (fail_if_present (lookup m.id r.by_id) _) _ h1 in
    let (_, free_alias, h3) = >>=-eq-ok (fail_if_present (lookup m.id r.aliases) _) _ h2 in
    let is_free = fail_if_present-ok (lookup m.id r.by_id) _ free_id in
    let new = with_manifest m r in
    let good =
      with_manifest-IsConsistent c m (wrap_err-ok _ _ checked) is_free
        (fail_if_present-ok _ _ free_alias) in
    let here = lookup_self m.id m r.by_id in
    let added = add_aliases-AliasesAdded ext m.id m.aliases new s m good here h3 in
    record {
      consistent = added.consistent;
      extends =
          Extends-trans
            (with_manifest-Extends c m (wrap_err-ok _ _ checked) is_free
              (fail_if_present-ok _ _ free_alias))
            added.extends;
      named = added.extends.ids_kept m.id m here;
      found = added.found;
      longer = added.ordered_same;
    }

-- The entries of a manifest are in the maps.
abbrev pub IsNamed : Registry → Manifest → Type 0
IsNamed r m =
    (lookup m.id r.by_id ≡ some m) × All (λ alias. lookup alias r.aliases ≡ some m.id) m.aliases

Extends-IsNamed : {r s : Registry} → Extends r s → (m : Manifest) → IsNamed r m → IsNamed s m
Extends-IsNamed x m (named, found) =
    (x.ids_kept m.id m named, All-mono m.aliases (λ alias h. x.aliases_kept alias m.id h) found)

record ManifestsAdded (ext : External) (ms : List Manifest) (r s : Registry) : Type 0 where
  consistent : IsConsistent ext s
  extends : Extends r s
  all_named : All (IsNamed s) ms
  listed : s.ordered ≡ r.ordered ++ map (λ m. m.id) ms

add_manifests-ManifestsAdded :
    (ext : External) (ms : List Manifest) (r s : Registry)
    → IsConsistent ext r
    → add_manifests ext r ms ≡ ok s
    → ManifestsAdded ext ms r s
unfolding add_manifests
add_manifests-ManifestsAdded ext [] r s c h =
    subst (ManifestsAdded ext [] r) (ok_injective h) (record {
      consistent = c;
      extends = Extends-refl r;
      all_named = tt;
      listed = sym (append-nil r.ordered);
    })
add_manifests-ManifestsAdded ext (m ∷ ms) r s c h =
    let (t, first, later) = >>=-eq-ok (add_manifest ext r m) _ h in
    let one = add_manifest-ManifestAdded ext r t m c first in
    let more = add_manifests-ManifestsAdded ext ms t s one.consistent later in
    record {
      consistent = more.consistent;
      extends = Extends-trans one.extends more.extends;
      all_named = (Extends-IsNamed more.extends m (one.named, one.found), more.all_named);
      listed =
          more.listed
          ∙ ap (λ xs. xs ++ map (λ x. x.id) ms) one.longer
          ∙ append_assoc r.ordered (m.id ∷ []) (map (λ x. x.id) ms);
    }

empty-IsConsistent : (ext : External) → IsConsistent ext empty
unfolding lookup
empty-IsConsistent ext = record {
  keyed = λ k m h. cc;
  valid = λ k m h. cc;
  disjoint = λ k m h. refl;
  resolved = λ k id h. absurd (cc);
}

-- What `New` gives, before and after it sorts the ids.
pub record IsBuilt (ext : External) (ms : List Manifest) (r : Registry) : Type 0 where
  pub consistent : IsConsistent ext r
  pub all_named : All (IsNamed r) ms
  pub listed : r.ordered ≡ sort str_leb (map (λ m. m.id) ms)

pub new_registry-IsBuilt :
    (ext : External) (ms : List Manifest) (r : Registry)
    → new_registry ext ms ≡ ok r
    → IsBuilt ext ms r
unfolding new_registry
new_registry-IsBuilt ext ms r h =
    let (s, added, last) = >>=-eq-ok (add_manifests ext empty ms) _ h in
    let a = add_manifests-ManifestsAdded ext ms empty s (empty-IsConsistent ext) added in
    subst (IsBuilt ext ms) (ok_injective last) (record {
      consistent = record {
        keyed = a.consistent.keyed;
        valid = a.consistent.valid;
        disjoint = a.consistent.disjoint;
        resolved = a.consistent.resolved;
      };
      all_named = a.all_named;
      listed = ap (sort str_leb) a.listed;
    })

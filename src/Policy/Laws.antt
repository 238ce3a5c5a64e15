-- ===== src/Policy/Laws.antt =====
-- Which policies `Match` (internal/modelpolicy/policy.go) returns.
use mathlib.Core.List.{Memᴰ}
use text.Mathlib.TextEquality.{eq_iff}
use quantum_runtime.Prelude.{
  String, ◌≡◌, refl, sym, subst, ◌↔◌, ◌⊎◌, inl, inr, List, [], ◌∷◌, true, ◌||◌, ◌==◌, string_eq,
  Bool-cases, Memᴰ-cons, filter, filter_sound, filter_complete, arith,
}
use quantum_runtime.Prelude.Sorting.{Memᴰ-sort_iff}
use quantum_runtime.Policy.{Policy, has_variant, matches_policy, policy_leb, match_policies}

-- The policy is for the family and the backend kind, and names the variant or the wildcard.
pub record IsFor (family variant kind : String) (p : Policy) : Type 0 where
  pub same_family : p.model_family ≡ family
  pub same_kind : p.backend_kind ≡ kind
  pub covers : Memᴰ variant p.variants ⊎ Memᴰ "*" p.variants

has_variant_mem :
    (variant : String) (vs : List String)
    → has_variant variant vs ≡ true
    → Memᴰ variant vs ⊎ Memᴰ "*" vs
unfolding has_variant
has_variant_mem variant [] h = cc
has_variant_mem variant (v ∷ vs) h = elim (Bool-cases (v == variant)) [
  | inl e ↦ inl (Memᴰ.head (sym ((eq_iff v variant).0 e)))
  | inr e ↦ elim (Bool-cases (v == "*")) [
    | inl wild ↦ inr (Memᴰ.head (sym ((eq_iff v "*").0 wild)))
    | inr named ↦ elim (has_variant_mem variant vs (ground arith)) [
      | inl m ↦ inl (Memᴰ.tail m)
      | inr m ↦ inr (Memᴰ.tail m)
    ]
  ]
]

has_variant-here :
    (variant name : String) (vs : List String)
    → Memᴰ name vs
    → ((name == variant) || (name == "*")) ≡ true
    → has_variant variant vs ≡ true
unfolding has_variant
has_variant-here variant name [] m h = elim m [ ]
has_variant-here variant name (v ∷ vs) m h = elim (Memᴰ-cons m) [
  | inl same ↦
      let hit = subst (λ n. ((n == variant) || (n == "*")) ≡ true) same h in ground (arith, hit)
  | inr rest ↦ ground (arith, has_variant-here variant name vs rest h)
]

has_variant_iff :
    (variant : String) (vs : List String)
    → (has_variant variant vs ≡ true) ↔ (Memᴰ variant vs ⊎ Memᴰ "*" vs)
has_variant_iff variant vs = (
  has_variant_mem variant vs,
  λ h. elim h [
    | inl m ↦
        has_variant-here variant variant vs m (ground (arith, (eq_iff variant variant).1 refl))
    | inr m ↦ has_variant-here variant "*" vs m (ground (arith, (eq_iff "*" "*").1 refl))
  ],
)

matches_policy_iff :
    (family variant kind : String) (p : Policy)
    → (matches_policy family variant kind p ≡ true) ↔ IsFor family variant kind p
unfolding matches_policy
matches_policy_iff family variant kind p =
    let (to, from) = has_variant_iff variant p.variants in
    (
      λ h. record {
        same_family = (eq_iff p.model_family family).0 (ground arith);
        same_kind = (eq_iff p.backend_kind kind).0 (ground arith);
        covers = to (ground arith);
      },
      λ h. ground (
        arith,
        (eq_iff p.model_family family).1 h.same_family,
        (eq_iff p.backend_kind kind).1 h.same_kind,
        from h.covers,
      ),
    )

-- `Match` returns exactly those of the given policies that are for the model family and the backend
-- kind and that name the variant or the wildcard.
pub match_policies_iff :
    (ps : List Policy) (family variant kind : String) (p : Policy)
    → Memᴰ p (match_policies ps family variant kind) ↔ (Memᴰ p ps × IsFor family variant kind p)
unfolding match_policies
match_policies_iff ps family variant kind p =
    let test = matches_policy family variant kind in
    let (from_sort, to_sort) = Memᴰ-sort_iff policy_leb p (filter test ps) in
    let (to, from) = matches_policy_iff family variant kind p in
    (
      λ m. let (listed, good) = filter_sound test p ps (from_sort m) in (listed, to good),
      λ (listed, good). to_sort (filter_complete test p ps listed (from good)),
    )

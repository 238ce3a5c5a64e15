-- ===== src/Router/Requirements.antt =====
-- What `normalizedRequirements` and `requirementsSatisfied` (internal/backendrouter/router.go) keep of
-- the capabilities that a caller asks for.
use text.Mathlib.TextEquality.{eq_iff}
use quantum_runtime.Prelude.{
  String, ◌≡◌, refl, ◌≢◌, ◌↔◌, ◌⊎◌, inl, inr, List, [], ◌∷◌, Bool, true, false, ◌||◌, ◌==◌,
  string_eq, contains, contains-All, All, All-mono, Bool-cases, arith, subst,
}
use quantum_runtime.Prelude.Text.{str_leb}
use quantum_runtime.Prelude.Sorting.{All-of_sort}
use quantum_runtime.Manifest.Types.{Manifest}
use quantum_runtime.Backend.{Descriptor, capability_state}
use quantum_runtime.Router.{
  model_supports, is_usable, requirements_satisfied, collect_requirements, normalized_requirements,
}

contains_tail :
    (v : String) (seen : List String) (w : String)
    → contains (v ∷ seen) w ≡ false
    → contains seen w ≡ false
unfolding contains
contains_tail v seen w h = ground arith

-- The model has the capability and the backend supports it, perhaps under conditions.
pub record Supports (m : Manifest) (d : Descriptor) (name : String) : Type 0 where
  pub by_model : model_supports m name ≡ true
  pub by_backend : is_usable (capability_state d.capabilities name) ≡ true

pub requirements_satisfied_iff :
    (m : Manifest) (d : Descriptor) (names : List String)
    → (requirements_satisfied m d names ≡ true) ↔ All (Supports m d) names
unfolding requirements_satisfied
requirements_satisfied_iff m d [] = (λ h. tt, λ h. refl)
requirements_satisfied_iff m d (name ∷ names) =
    let (to, from) = requirements_satisfied_iff m d names in
    (
      λ h. (record { by_model = ground arith; by_backend = ground arith }, to (ground arith)),
      λ (s, rest). ground (arith, s.by_model, s.by_backend, from rest),
    )

-- One round of the loop, by what its test says.
module _ (v : String) (vs seen : List String) where
  abbrev is_skipped : Bool
  is_skipped = v == "" || contains seen v

  collect_requirements_skip :
      is_skipped ≡ true → collect_requirements seen (v ∷ vs) ≡ collect_requirements seen vs
  unfolding collect_requirements
  collect_requirements_skip h = rw h

  collect_requirements_keep :
      is_skipped ≡ false
      → collect_requirements seen (v ∷ vs) ≡ v ∷ collect_requirements (v ∷ seen) vs
  unfolding collect_requirements
  collect_requirements_keep h = rw h

module _ {κ} (P : String → Type κ) where
  skipped-cases :
      (v : String) (vs seen : List String)
      → is_skipped v vs seen ≡ true
      → All P seen
      → (v ≡ "") ⊎ P v
  skipped-cases v vs seen h k = elim (Bool-cases (v == "")) [
    | inl empty ↦ inl ((eq_iff v "").0 empty)
    | inr named ↦ inr (contains-All P seen v (rw named at h) k)
  ]

  -- What holds of all that is kept holds of all that was asked for, but for empty names.
  collect_requirements-All :
      (vs seen : List String)
      → All P (collect_requirements seen vs)
      → All P seen
      → All (λ v. (v ≡ "") ⊎ P v) vs
  collect_requirements-All [] seen h k = tt
  collect_requirements-All (v ∷ vs) seen h k = elim (Bool-cases (is_skipped v vs seen)) [
    | inl e ↦
        let h' = subst (All P) (collect_requirements_skip v vs seen e) h in
        (skipped-cases v vs seen e k, collect_requirements-All vs seen h' k)
    | inr e ↦
        let h' = subst (All P) (collect_requirements_keep v vs seen e) h in
        (inr h'.0, collect_requirements-All vs (v ∷ seen) h'.1 (h'.0, k))
  ]

  collect_requirements-Kept :
      (vs seen : List String) → All P vs → All P (collect_requirements seen vs)
  unfolding collect_requirements
  collect_requirements-Kept [] seen h = tt
  collect_requirements-Kept (v ∷ vs) seen h = elim (Bool-cases (is_skipped v vs seen)) [
    | inl e ↦ rw e (collect_requirements-Kept vs seen h.1)
    | inr e ↦ rw e (h.0, collect_requirements-Kept vs (v ∷ seen) h.1)
  ]

  -- A property holds of all normalized requirements exactly if it holds of every name that was asked
  -- for and is not empty.
  pub normalized_requirements-All :
      (vs : List String) → All P (normalized_requirements vs) → All (λ v. (v ≡ "") ⊎ P v) vs
  unfolding normalized_requirements
  normalized_requirements-All vs h =
      collect_requirements-All vs [] (All-of_sort str_leb P (collect_requirements [] vs) h) tt

collect_requirements-NonEmpty :
    (vs seen : List String) → All (λ v. v ≢ "") (collect_requirements seen vs)
unfolding collect_requirements
collect_requirements-NonEmpty [] seen = tt
collect_requirements-NonEmpty (v ∷ vs) seen = elim (Bool-cases (is_skipped v vs seen)) [
  | inl e ↦ rw e (collect_requirements-NonEmpty vs seen)
  | inr e ↦ rw e (λ empty. ground (arith, eq_iff v ""), collect_requirements-NonEmpty vs (v ∷ seen))
]

collect_requirements-Fresh :
    (vs seen : List String) → All (λ v. contains seen v ≡ false) (collect_requirements seen vs)
unfolding collect_requirements
collect_requirements-Fresh [] seen = tt
collect_requirements-Fresh (v ∷ vs) seen = elim (Bool-cases (is_skipped v vs seen)) [
  | inl e ↦ rw e (collect_requirements-Fresh vs seen)
  | inr e ↦ rw e (
    ground arith,
    All-mono _ (λ w h. contains_tail v seen w h) (collect_requirements-Fresh vs (v ∷ seen)),
  )
]

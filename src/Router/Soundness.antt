-- ===== src/Router/Soundness.antt =====
-- What a plan or an error of `Route` (internal/backendrouter/router.go) says.
use mathlib.Core.List.{Memᴰ}
use quantum_runtime.Prelude.{
  String, ◌≡◌, refl, sym, ap, ◌∙◌, subst, ◌↔◌, inl, inr, List, [], ◌∷◌, Bool, true, false,
  string_eq, Option, none, some, All, Bool-cases, Option-cases, arith,
}
use quantum_runtime.Manifest.Types.{Manifest}
use quantum_runtime.Backend.{Descriptor}
use quantum_runtime.Router.{ArtifactCandidate, is_compatible, first_match, pick_or, pick}

module _ {ℓ} {A : Type ℓ} (p : A → Bool) where
  first_match-some : (xs : List A) {x : A} → first_match p xs ≡ some x → (p x ≡ true) × Memᴰ x xs
  unfolding first_match
  first_match-some [] {x} h = absurd (cc)
  first_match-some (y ∷ xs) {x} h = elim (Bool-cases (p y)) [
    | inl hit ↦
        let same : y ≡ x = ground (arith, h) in
        (subst (λ z. p z ≡ true) same hit, Memᴰ.head (sym same))
    | inr miss ↦ let (q, m) = first_match-some xs (rw miss at h) in (q, Memᴰ.tail m)
  ]

  first_match-none : (xs : List A) → (first_match p xs ≡ none) ↔ All (λ x. p x ≡ false) xs
  unfolding first_match
  first_match-none [] = (λ h. tt, λ h. refl)
  first_match-none (y ∷ xs) =
      let (to, from) = first_match-none xs in
      (λ h. (ground arith, to (ground arith)), λ (miss, rest). ground (arith, miss, from rest))

some_eq : {A : Type 0} {x y : A} → Path (Option A) (some x) (some y) → x ≡ y
some_eq h = cc

module _ (m : Manifest) (required : List String) (backends : List Descriptor) where
  pick_miss :
      (c : ArtifactCandidate) (cs : List ArtifactCandidate)
      → first_match (is_compatible m required c) backends ≡ none
      → pick m required backends (c ∷ cs) ≡ pick m required backends cs
  unfolding pick
  pick_miss c cs h = ap (pick_or c (pick m required backends cs)) h

  pick_hit :
      (c : ArtifactCandidate) (cs : List ArtifactCandidate) (d : Descriptor)
      → first_match (is_compatible m required c) backends ≡ some d
      → pick m required backends (c ∷ cs) ≡ some (c, d)
  unfolding pick
  pick_hit c cs d h = ap (pick_or c (pick m required backends cs)) h

  -- What the pair that the nested loop finds satisfies.
  abbrev pub Fits : List ArtifactCandidate → ArtifactCandidate × Descriptor → Type 0
  Fits cs (c, d) = Memᴰ c cs × Memᴰ d backends × (is_compatible m required c d ≡ true)

  pub pick-some :
      (cs : List ArtifactCandidate) (found : ArtifactCandidate × Descriptor)
      → pick m required backends cs ≡ some found
      → Fits cs found
  unfolding pick
  pick-some [] found h = absurd (cc)
  pick-some (x ∷ cs) found h =
      elim (Option-cases (first_match (is_compatible m required x) backends)) [
        | inl missed ↦
            let (c, d, fits) = pick-some cs found (sym (pick_miss x cs missed) ∙ h) in
            (Memᴰ.tail c, d, fits)
        | inr (y, e) ↦
            let (fits, d) = first_match-some (is_compatible m required x) backends e in
            let same = some_eq (sym (pick_hit x cs y e) ∙ h) in
            subst (Fits (x ∷ cs)) same (Memᴰ.head refl, d, fits)
      ]

  -- No backend fits the candidate.
  abbrev pub Unfit : ArtifactCandidate → Type 0
  Unfit c = All (λ d. is_compatible m required c d ≡ false) backends

  pub pick-none :
      (cs : List ArtifactCandidate) → (pick m required backends cs ≡ none) ↔ All Unfit cs
  unfolding pick
  pick-none [] = (λ h. tt, λ h. refl)
  pick-none (x ∷ cs) =
      let (to, from) = pick-none cs in
      let (no_backend, missing) = first_match-none (is_compatible m required x) backends in
      elim (Option-cases (first_match (is_compatible m required x) backends)) [
        | inl missed ↦ (
          λ h. (no_backend missed, to (sym (pick_miss x cs missed) ∙ h)),
          λ h. pick_miss x cs missed ∙ from h.1,
        )
        | inr (y, e) ↦ (
          λ h. let e' = pick_hit x cs y e in absurd (cc),
          λ h. let e' = missing h.0 in absurd (cc),
        )
      ]

-- ===== src/Router/Candidates.antt =====
-- What `candidateArtifacts` (internal/backendrouter/router.go) keeps of a manifest's artifacts.
use text.Mathlib.TextEquality.{eq_iff}
use mathlib.Core.List.{Memᴰ}
use quantum_runtime.Prelude.{
  ◌≡◌, refl, subst, List, [], ◌∷◌, true, false, ◌&&◌, ◌==◌, string_eq, All, All-mono, All-Memᴰ_self,
  Bool-cases, inl, inr, arith,
}
use quantum_runtime.Prelude.Sorting.{All-sort, All-of_sort}
use quantum_runtime.Manifest.Types.{Manifest, Artifact}
use quantum_runtime.Router.{
  ArtifactCandidate, has_candidate, candidate_of, collect_candidates, candidate_leb,
  candidate_artifacts,
}

same_candidate :
    (x c : ArtifactCandidate) → (x.backend_kind == c.backend_kind && x.uri == c.uri) ≡ true → x ≡ c
same_candidate x c h =
    let kinds = (eq_iff x.backend_kind c.backend_kind).0 (ground arith) in
    let uris = (eq_iff x.uri c.uri).0 (ground arith) in
    λ i. record { backend_kind = kinds i; uri = uris i }

module _ {κ} (P : ArtifactCandidate → Type κ) where
  has_candidate-All :
      (seen : List ArtifactCandidate) (c : ArtifactCandidate)
      → has_candidate seen c ≡ true
      → All P seen
      → P c
  has_candidate-All [] c h k = absurd (cc)
  has_candidate-All (x ∷ xs) c h k =
      elim (Bool-cases (x.backend_kind == c.backend_kind && x.uri == c.uri)) [
        | inl e ↦ subst P (same_candidate x c e) k.0
        | inr e ↦ has_candidate-All xs c (rw e at h) k.1
      ]

module _ (m : Manifest) (a : Artifact) (rest : List Artifact) (seen : List ArtifactCandidate) where
  collect_skip :
      has_candidate seen (candidate_of m a) ≡ true
      → collect_candidates m seen (a ∷ rest) ≡ collect_candidates m seen rest
  unfolding collect_candidates
  collect_skip h = rw h

  collect_keep :
      has_candidate seen (candidate_of m a) ≡ false
      → collect_candidates m seen (a ∷ rest)
        ≡ candidate_of m a ∷ collect_candidates m (candidate_of m a ∷ seen) rest
  unfolding collect_candidates
  collect_keep h = rw h

module _ {κ} (P : ArtifactCandidate → Type κ) (m : Manifest) where
  collect_candidates-All :
      (artifacts : List Artifact) (seen : List ArtifactCandidate)
      → All P (collect_candidates m seen artifacts)
      → All P seen
      → All (λ a. P (candidate_of m a)) artifacts
  collect_candidates-All [] seen h k = tt
  collect_candidates-All (a ∷ rest) seen h k =
      elim (Bool-cases (has_candidate seen (candidate_of m a))) [
        | inl e ↦
            let h' = subst (All P) (collect_skip m a rest seen e) h in
            (has_candidate-All P seen (candidate_of m a) e k, collect_candidates-All rest seen h' k)
        | inr e ↦
            let h' = subst (All P) (collect_keep m a rest seen e) h in
            (h'.0, collect_candidates-All rest (candidate_of m a ∷ seen) h'.1 (h'.0, k))
      ]

  collect_candidates-Kept :
      (artifacts : List Artifact) (seen : List ArtifactCandidate)
      → All (λ a. P (candidate_of m a)) artifacts
      → All P (collect_candidates m seen artifacts)
  unfolding collect_candidates
  collect_candidates-Kept [] seen h = tt
  collect_candidates-Kept (a ∷ rest) seen h =
      elim (Bool-cases (has_candidate seen (candidate_of m a))) [
        | inl e ↦ rw e (collect_candidates-Kept rest seen h.1)
        | inr e ↦ rw e (h.0, collect_candidates-Kept rest (candidate_of m a ∷ seen) h.1)
      ]

  pub candidate_artifacts-All :
      All P (candidate_artifacts m) → All (λ a. P (candidate_of m a)) m.artifacts
  unfolding candidate_artifacts
  candidate_artifacts-All h =
      let all = All-of_sort candidate_leb P (collect_candidates m [] m.artifacts) h in
      collect_candidates-All m.artifacts [] all tt

  pub candidate_artifacts-Kept :
      All (λ a. P (candidate_of m a)) m.artifacts → All P (candidate_artifacts m)
  unfolding candidate_artifacts
  candidate_artifacts-Kept h =
      All-sort candidate_leb P (collect_candidates m [] m.artifacts)
        (collect_candidates-Kept m.artifacts [] h)

-- The candidate is made from an artifact of the manifest.
pub record IsFrom (m : Manifest) (c : ArtifactCandidate) : Type 0 where
  pub artifact : Artifact
  pub listed : Memᴰ artifact m.artifacts
  pub made : candidate_of m artifact ≡ c

the_source : (m : Manifest) (a : Artifact) → Memᴰ a m.artifacts → IsFrom m (candidate_of m a)
the_source m a here = record { artifact = a; listed = here; made = refl }

pub candidate_artifacts-IsFrom : (m : Manifest) → All (IsFrom m) (candidate_artifacts m)
candidate_artifacts-IsFrom m =
    let listed = All-Memᴰ_self m.artifacts in
    candidate_artifacts-Kept (IsFrom m) m (All-mono m.artifacts (the_source m) listed)

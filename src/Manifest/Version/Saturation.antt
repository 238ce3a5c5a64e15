-- ===== src/Manifest/Version/Saturation.antt =====
-- Numeric prerelease identifiers of 2^64 and more under `compareVersion`
-- (internal/modelmanifest/manifest.go), which drops the range error of `strconv.ParseUint`.
use Prim.Native.Nat.{Ordering}
use text.Mathlib.TextEquality.{eq_iff}
use quantum_runtime.Prelude.{
  ℕ, String, ◌≡◌, refl, sym, ◌∙◌, ◌≢◌, ◌≤◌, List, [], ◌∷◌, ◌++◌, true, ◌==◌, string_eq, Bool-cases,
  inl, inr, arith,
}
use quantum_runtime.Prelude.Words.{u64_mod}
use quantum_runtime.Prelude.Text.{digits_value}
use quantum_runtime.Manifest.Version.{
  SemanticVersion, is_numeric, parse_uint, parse_uint_or_max, compare_identifier,
  compare_prerelease, compare_release, compare_version,
}

-- A numeric identifier that does not fit 64 bits.
pub record IsHuge (s : String) : Type 0 where
  pub numeric : is_numeric s ≡ true
  pub huge : u64_mod ≤ digits_value 0 s

parse_uint_or_max-huge : (s : String) → IsHuge s → parse_uint_or_max s ≡ 18446744073709551615
unfolding parse_uint_or_max parse_uint
parse_uint_or_max-huge s h = ground (arith, h.huge)

compare_identifier-huge :
    (l r : String) → IsHuge l → IsHuge r → compare_identifier l r ≡ Ordering.gt
unfolding compare_identifier
compare_identifier-huge l r hl hr =
    rw (hl.numeric, hr.numeric, parse_uint_or_max-huge l hl, parse_uint_or_max-huge r hr) refl

compare_prerelease-huge :
    (l r : String) (ls rs : List String)
    → l ≢ r
    → IsHuge l
    → IsHuge r
    → compare_prerelease (l ∷ ls) (r ∷ rs) ≡ Ordering.gt
unfolding compare_prerelease
compare_prerelease-huge l r ls rs differ hl hr = elim (Bool-cases (l == r)) [
  | inl e ↦ absurd (differ ((eq_iff l r).0 e))
  | inr e ↦ rw e (compare_identifier-huge l r hl hr)
]

-- Behind a common part.
compare_prerelease-common :
    (common ls rs : List String)
    → compare_prerelease (common ++ ls) (common ++ rs) ≡ compare_prerelease ls rs
unfolding compare_prerelease
compare_prerelease-common [] ls rs = refl
compare_prerelease-common (x ∷ common) ls rs =
    rw ((eq_iff x x).1 refl) (compare_prerelease-common common ls rs)

compare_release-common :
    (common : List String) (l r : String) (ls rs : List String)
    → compare_release (common ++ l ∷ ls) (common ++ r ∷ rs) ≡ compare_prerelease (l ∷ ls) (r ∷ rs)
unfolding compare_release
compare_release-common [] l r ls rs = refl
compare_release-common (x ∷ common) l r ls rs =
    compare_prerelease-common (x ∷ common) (l ∷ ls) (r ∷ rs)

abbrev pub version : ℕ → ℕ → ℕ → List String → SemanticVersion
version a b c prerelease = record { major = a; minor = b; patch = c; prerelease = prerelease }

same_core :
    (a b c : ℕ) (ls rs : List String)
    → compare_version (version a b c ls) (version a b c rs) ≡ compare_release ls rs
unfolding compare_version
same_core a b c ls rs = ground arith

-- Two versions with the same three numbers, whose prereleases agree up to a place where they have two
-- different numeric identifiers of at least 2^64, whatever follows there, compare as `gt` in both
-- directions, so that `compareVersion` is no order on them.
pub compare_version-saturated :
    (a b c : ℕ) (common : List String) (l r : String) (ls rs : List String)
    → l ≢ r
    → IsHuge l
    → IsHuge r
    → (compare_version (version a b c (common ++ l ∷ ls)) (version a b c (common ++ r ∷ rs))
        ≡ Ordering.gt)
      × (compare_version (version a b c (common ++ r ∷ rs)) (version a b c (common ++ l ∷ ls))
          ≡ Ordering.gt)
compare_version-saturated a b c common l r ls rs differ hl hr = (
  same_core a b c (common ++ l ∷ ls) (common ++ r ∷ rs)
      ∙ compare_release-common common l r ls rs
      ∙ compare_prerelease-huge l r ls rs differ hl hr,
  same_core a b c (common ++ r ∷ rs) (common ++ l ∷ ls)
      ∙ compare_release-common common r l rs ls
      ∙ compare_prerelease-huge r l rs ls (λ e. differ (sym e)) hr hl,
)

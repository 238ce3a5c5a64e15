-- ===== src/Manifest/Version/Order.antt =====
-- The laws of `compareVersion` (internal/modelmanifest/manifest.go).
use Prim.Native.Nat.{Ordering}
use text.Mathlib.TextEquality.{eq_iff}
use text.Mathlib.TextPositions.{eq_refl}
use quantum_runtime.Prelude.{◌≡◌, refl, ◌≢◌, ◌↔◌, String, List, [], ◌∷◌, string_eq, arith}
use quantum_runtime.Manifest.Version.{
  SemanticVersion, compare_identifier, compare_prerelease, compare_release, compare_version,
}

-- Two identifiers that differ are never equal to the comparison.
compare_identifier-ne-eq : (l r : String) → compare_identifier l r ≢ Ordering.eq
unfolding compare_identifier
compare_identifier-ne-eq l r h = ground arith

compare_prerelease_refl : (ls : List String) → compare_prerelease ls ls ≡ Ordering.eq
unfolding compare_prerelease
compare_prerelease_refl [] = refl
compare_prerelease_refl (l ∷ ls) = rw (eq_refl l) (compare_prerelease_refl ls)

eq_of_compare_prerelease : (ls rs : List String) → compare_prerelease ls rs ≡ Ordering.eq → ls ≡ rs
unfolding compare_prerelease
eq_of_compare_prerelease [] [] h = refl
eq_of_compare_prerelease [] (r ∷ rs) h = ground arith
eq_of_compare_prerelease (l ∷ ls) [] h = ground arith
eq_of_compare_prerelease (l ∷ ls) (r ∷ rs) h =
    ground (arith, eq_iff l r, compare_identifier-ne-eq l r, eq_of_compare_prerelease ls rs)

compare_release_refl : (ls : List String) → compare_release ls ls ≡ Ordering.eq
unfolding compare_release
compare_release_refl [] = refl
compare_release_refl (l ∷ ls) = compare_prerelease_refl (l ∷ ls)

eq_of_compare_release : (ls rs : List String) → compare_release ls rs ≡ Ordering.eq → ls ≡ rs
unfolding compare_release
eq_of_compare_release [] [] h = refl
eq_of_compare_release [] (r ∷ rs) h = ground arith
eq_of_compare_release (l ∷ ls) [] h = ground arith
eq_of_compare_release (l ∷ ls) (r ∷ rs) h = eq_of_compare_prerelease (l ∷ ls) (r ∷ rs) h

-- `compareVersion` calls two versions equal exactly if all their parts are.
pub compare_version-eq_iff :
    (left right : SemanticVersion)
    → (compare_version left right ≡ Ordering.eq) ↔ (
        (left.major ≡ right.major)
        × (left.minor ≡ right.minor)
        × (left.patch ≡ right.patch)
        × (left.prerelease ≡ right.prerelease))
unfolding compare_version
compare_version-eq_iff left right = (
  λ h. ground (arith, eq_of_compare_release left.prerelease right.prerelease),
  λ (major, minor, patch, prerelease).
      ground (arith, compare_release_refl left.prerelease, prerelease),
)

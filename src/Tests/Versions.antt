-- ===== src/Tests/Versions.antt =====
-- Versions that are compared.
use text.Mathlib.TextEquality.{eq_iff}
use quantum_runtime.Prelude.{◌≡◌, refl, ◌≢◌, ◌↔◌, [], ◌∷◌, String, string_eq, arith}
use quantum_runtime.Prelude.Text.{all_chars, digits_value}
use quantum_runtime.Manifest.Version.Saturation.{IsHuge, version, compare_version-saturated}
use Prim.Native.Nat.{Ordering}
use quantum_runtime.Manifest.Version.{SemanticVersion, is_numeric, compare_version}
use quantum_runtime.Manifest.Version.Order.{compare_version-eq_iff}

abbrev candidate : SemanticVersion
candidate = record { major = 1; minor = 2; patch = 0; prerelease = "rc" ∷ "1" ∷ [] }

abbrev final : SemanticVersion
final = record candidate { prerelease = [] }

compare_version-eq_iff_example : (compare_version candidate final ≡ Ordering.eq) ↔ (
    (candidate.major ≡ final.major)
    × (candidate.minor ≡ final.minor)
    × (candidate.patch ≡ final.patch)
    × (candidate.prerelease ≡ final.prerelease))
compare_version-eq_iff_example = compare_version-eq_iff candidate final

abbrev first_build : String
first_build = "18446744073709551616"

abbrev second_build : String
second_build = "18446744073709551617"

builds_differ : first_build ≢ second_build
builds_differ same = ground (arith, (eq_iff first_build second_build).1 same)

first_build-IsHuge : IsHuge first_build
unfolding is_numeric all_chars digits_value
first_build-IsHuge = record { numeric = refl; huge = omega arith }

second_build-IsHuge : IsHuge second_build
unfolding is_numeric all_chars digits_value
second_build-IsHuge = record { numeric = refl; huge = omega arith }

compare_version-saturated_example :
    (compare_version
        (version 1 0 0 ("alpha" ∷ first_build ∷ []))
        (version 1 0 0 ("alpha" ∷ second_build ∷ []))
      ≡ Ordering.gt)
    × (compare_version
          (version 1 0 0 ("alpha" ∷ second_build ∷ []))
          (version 1 0 0 ("alpha" ∷ first_build ∷ []))
        ≡ Ordering.gt)
compare_version-saturated_example =
    compare_version-saturated 1 0 0 ("alpha" ∷ []) first_build second_build [] [] builds_differ
      first_build-IsHuge second_build-IsHuge

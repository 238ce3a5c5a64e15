-- ===== src/Manifest/Version.antt =====
-- Semantic versions: `parseVersion`, `compareVersion` and `isNumeric` of
-- internal/modelmanifest/manifest.go. The integer results -1, 0 and 1 are `lt`, `eq` and `gt`.
pub mod Order
pub mod Saturation
use Prim.Native.Nat.{Ordering, compare}
use Prim.Native.String.{len}
use quantum_runtime.Prelude.{
  ℕ, zero, suc, ◌<◌, String, List, [], ◌∷◌, Bool, true, false, not, ◌&&◌, ◌||◌, Option, none, some,
  Result, ok, err, ◌>>=◌, ◌>>◌, fail_if, ltb, leb, nat_eqb, ◌==◌, string_eq, if◌then◌else◌,
}
use quantum_runtime.Prelude.Words.{u64_mod}
use quantum_runtime.Prelude.Text.{
  all_chars, split_on, cut_at, digits_value, starts_with_zero, is_digit, is_alnum, str_ltb,
}

pub record SemanticVersion : Type 0 where
  pub major : ℕ
  pub minor : ℕ
  pub patch : ℕ
  pub prerelease : List String

pub data VersionError : Type 0 where
  unsupported leading_zero_component invalid_component : VersionError
  empty_identifier leading_zero_identifier : VersionError

unfoldable pub is_numeric : String → Bool
unfolding all_chars
is_numeric value = not (value == "") && all_chars is_digit value

-- `strconv.ParseUint` on a text of digits: `none` is its range error, with which it returns 2^64 - 1.
unfoldable pub parse_uint : String → Option ℕ
unfolding digits_value
parse_uint s = if ltb (digits_value 0 s) u64_mod then some (digits_value 0 s) else none

-- The value of `n, _ := strconv.ParseUint(s, 10, 64)`.
unfoldable pub parse_uint_or_max : String → ℕ
unfolding parse_uint
parse_uint_or_max s = elim (parse_uint s) [ none ↦ 18446744073709551615 | some n ↦ n ]

-- `versionPattern`: three numbers with dots, and a suffix behind the first dash.
is_suffix_char : ℕ → Bool
is_suffix_char c = is_alnum c || nat_eqb c b'.' || nat_eqb c b'-'

abbrev three_numeric : List String → Bool
three_numeric (a ∷ b ∷ c ∷ []) = is_numeric a && is_numeric b && is_numeric c
three_numeric _ = false

abbrev is_suffix : Option String → Bool
is_suffix none = true
is_suffix (some s) = not (s == "") && all_chars is_suffix_char s

unfoldable pub version_pattern : String → Bool
unfolding is_numeric split_on cut_at is_suffix_char
version_pattern value =
    let (core, suffix) = cut_at b'-' value in three_numeric (split_on b'.' core) && is_suffix suffix

-- One round of the loop over the three components.
unfoldable pub parse_component : String → Result VersionError ℕ
unfolding parse_uint
parse_component part = do
  fail_if (ltb 1 (len part) && starts_with_zero part) leading_zero_component
  elim (parse_uint part) [ none ↦ err invalid_component | some n ↦ ok n ]

-- The loop over the prerelease identifiers.
unfoldable pub check_identifiers : List String → Result VersionError (Unit {0})
unfolding is_numeric
check_identifiers [] = ok tt
check_identifiers (identifier ∷ rest) = do
  fail_if (identifier == "") empty_identifier
  fail_if (is_numeric identifier && ltb 1 (len identifier) && starts_with_zero identifier)
      leading_zero_identifier
  check_identifiers rest

unfoldable pub parse_core : List String → List String → Result VersionError SemanticVersion
unfolding parse_component
parse_core (a ∷ b ∷ c ∷ []) prerelease = do
  major ← parse_component a
  minor ← parse_component b
  patch ← parse_component c
  ok (record { major = major; minor = minor; patch = patch; prerelease = prerelease })
parse_core _ prerelease = err unsupported

abbrev identifiers : Option String → List String
identifiers none = []
identifiers (some suffix) = split_on b'.' suffix

unfoldable pub parse_version : String → Result VersionError SemanticVersion
unfolding version_pattern parse_core check_identifiers split_on cut_at
parse_version value =
    let (core, suffix) = cut_at b'-' value in
    do
      fail_if (not (version_pattern value)) unsupported
      parsed ← parse_core (split_on b'.' core) (identifiers suffix)
      check_identifiers (identifiers suffix)
      ok parsed

-- The `switch` on two identifiers that differ.
unfoldable pub compare_identifier : String → String → Ordering
unfolding is_numeric parse_uint_or_max
compare_identifier l r =
    if is_numeric l
    then (if is_numeric r
        then (if ltb (parse_uint_or_max l) (parse_uint_or_max r) then Ordering.lt else Ordering.gt)
        else Ordering.lt)
    else if is_numeric r
    then Ordering.gt
    else if str_ltb l r
    then Ordering.lt
    else Ordering.gt

-- The loop over the common places of two prereleases, and the comparison of their lengths after it.
unfoldable pub compare_prerelease : List String → List String → Ordering
unfolding compare_identifier
compare_prerelease [] [] = Ordering.eq
compare_prerelease [] (r ∷ rs) = Ordering.lt
compare_prerelease (l ∷ ls) [] = Ordering.gt
compare_prerelease (l ∷ ls) (r ∷ rs) =
    let rest = compare_prerelease ls rs in if l == r then rest else compare_identifier l r

-- The two tests for a version without a prerelease, which is the higher one.
unfoldable pub compare_release : List String → List String → Ordering
unfolding compare_prerelease
compare_release [] [] = Ordering.eq
compare_release [] (r ∷ rs) = Ordering.gt
compare_release (l ∷ ls) [] = Ordering.lt
compare_release (l ∷ ls) (r ∷ rs) = compare_prerelease (l ∷ ls) (r ∷ rs)

abbrev then_compare : Ordering → Ordering → Ordering
then_compare Ordering.eq rest = rest
then_compare o rest = o

unfoldable pub compare_version : SemanticVersion → SemanticVersion → Ordering
unfolding compare_release
compare_version left right = then_compare (compare left.major right.major) (
    then_compare (compare left.minor right.minor) (
      then_compare (compare left.patch right.patch)
        (compare_release left.prerelease right.prerelease)))

-- ===== src/Policy.antt =====
-- Model policies (internal/modelpolicy/policy.go): the record, its validation, and the policies that
-- match a model and a backend. `Builtin` decodes embedded JSON files and is not modelled.
pub mod Laws
use quantum_runtime.Prelude.{
  String, List, [], ◌∷◌, Bool, true, false, not, ◌&&◌, ◌||◌, Result, ok, err, ◌>>=◌, ◌>>◌, fail_if,
  ◌==◌, string_eq, if◌then◌else◌, contains, filter,
}
use quantum_runtime.Prelude.Int.{ℤ, pos, ltb_ℤ}
use quantum_runtime.Prelude.Text.{trim_space, str_leb}
use quantum_runtime.Prelude.Sorting.{sort}
use quantum_runtime.External.{External}

abbrev pub schema_version : String
schema_version = "quantum.runtime/model-policy/v1alpha1"

pub record ContextPolicy : Type 0 where
  pub backend_managed : Bool
  pub override_supported : Bool
  pub override_verified : Bool
  pub native_max : ℤ

-- `Value` is the raw JSON as a text; it is empty if absent.
pub record ParameterRule : Type 0 where
  pub name : String
  pub class : String
  pub value : String

pub record Policy : Type 0 where
  pub schema : String
  pub id : String
  pub model_family : String
  pub variants : List String
  pub backend_kind : String
  pub hardware_class : String
  pub renderer : String
  pub parser : String
  pub context : ContextPolicy
  pub parameters : List ParameterRule
  pub observed_date : String
  pub sources : List String
  pub notes : String

pub data PolicyError : Type 0 where
  schema_mismatch identity_required variants_missing native_max_negative : PolicyError
  override_unsupported variant_empty : PolicyError
  variant_duplicated : String → PolicyError
  parameter_empty : PolicyError
  parameter_duplicated parameter_class_invalid parameter_value_invalid : String → PolicyError
  observed_date_invalid sources_missing : PolicyError

abbrev pub is_empty : List String → Bool
is_empty [] = true
is_empty (x ∷ xs) = false

unfoldable pub check_variants : List String → List String → Result PolicyError (Unit {0})
check_variants seen [] = ok tt
check_variants seen (v ∷ vs) = do
  fail_if (trim_space v == "") variant_empty
  fail_if (contains seen v) (variant_duplicated v)
  check_variants (v ∷ seen) vs

abbrev pub parameter_classes : List String
parameter_classes = "required" ∷ "known-good" ∷ "optional" ∷ "blocked-unverified" ∷ []

unfoldable pub check_parameters :
    External → List String → List ParameterRule → Result PolicyError (Unit {0})
check_parameters ext seen [] = ok tt
check_parameters ext seen (p ∷ ps) = do
  fail_if (trim_space p.name == "") parameter_empty
  fail_if (contains seen p.name) (parameter_duplicated p.name)
  fail_if (not (contains parameter_classes p.class)) (parameter_class_invalid p.name)
  fail_if (not (p.value == "") && not (ext.is_json p.value)) (parameter_value_invalid p.name)
  check_parameters ext (p.name ∷ seen) ps

unfoldable pub validate_policy : External → Policy → Result PolicyError (Unit {0})
validate_policy ext p = do
  fail_if (not (p.schema == schema_version)) schema_mismatch
  fail_if
      (trim_space p.id == "" || trim_space p.model_family == "" || trim_space p.backend_kind == "")
      identity_required
  fail_if (is_empty p.variants) variants_missing
  fail_if (ltb_ℤ p.context.native_max (pos 0)) native_max_negative
  fail_if (p.context.override_verified && not p.context.override_supported) override_unsupported
  check_variants [] p.variants
  check_parameters ext [] p.parameters
  fail_if (not (ext.is_date p.observed_date)) observed_date_invalid
  fail_if (is_empty p.sources) sources_missing

-- The inner loop of `Match`: some variant is the one asked for or the wildcard.
unfoldable pub has_variant : String → List String → Bool
has_variant variant [] = false
has_variant variant (v ∷ vs) = v == variant || v == "*" || has_variant variant vs

unfoldable pub matches_policy : String → String → String → Policy → Bool
matches_policy family variant kind p =
    p.model_family == family && p.backend_kind == kind && has_variant variant p.variants

abbrev pub policy_leb : Policy → Policy → Bool
policy_leb a b = str_leb a.id b.id

-- `Match`.
unfoldable pub match_policies : List Policy → String → String → String → List Policy
match_policies policies family variant kind =
    sort policy_leb (filter (matches_policy family variant kind) policies)

-- ===== src/Deployment.antt =====
-- Deployment profiles (internal/deploymentprofile/profile.go): the record, its validation and the
-- registry of the built-in profiles. `Builtin` decodes embedded JSON files; what it does with each
-- decoded profile is `add_profile`.
use quantum_runtime.Prelude.{
  ℕ, String, List, [], ◌∷◌, ◌++◌, map, Bool, false, not, ◌&&◌, Option, none, some, Result, ok, err,
  ◌>>=◌, ◌>>◌, fail_if, ◌==◌, nat_eq, string_eq, length,
}
use quantum_runtime.Prelude.Int.{ℤ, pos, ltb_ℤ}
use quantum_runtime.Prelude.Text.{trim_space, to_lower, str_leb}
use quantum_runtime.Prelude.Sorting.{sort}
use quantum_runtime.Registry.{lookup}

abbrev pub schema_version : String
schema_version = "quantum.runtime/deployment-profile/v1alpha1"

pub record MemoryRequirements : Type 0 where
  pub minimum_bytes : ℕ
  pub ecc_required : Bool
  pub preferred_class : String

pub record CpuRequirements : Type 0 where
  pub minimum_physical_cores : ℤ
  pub reference_min_clock_mhz : ℤ

pub record HardwareRequirements : Type 0 where
  pub memory : MemoryRequirements
  pub cpu : CpuRequirements
  pub accelerator_required : Bool

-- `ModelRequirements` has one field, the architecture class.
pub record DeploymentProfile : Type 0 where
  pub schema : String
  pub id : String
  pub display_name : String
  pub tier : String
  pub description : String
  pub hardware : HardwareRequirements
  pub architecture_class : String

pub data DeploymentError : Type 0 where
  schema_mismatch id_required name_required tier_unsupported : DeploymentError
  memory_not_positive cores_not_positive clock_negative class_unsupported : DeploymentError
  duplicate_profile : String → DeploymentError
  no_profiles : DeploymentError

unfoldable pub validate_profile : DeploymentProfile → Result DeploymentError (Unit {0})
validate_profile p = do
  fail_if (not (p.schema == schema_version)) schema_mismatch
  fail_if (trim_space p.id == "") id_required
  fail_if (trim_space p.display_name == "") name_required
  fail_if
      (not (p.tier == "production")
        && not (p.tier == "compatibility")
        && not (p.tier == "experimental"))
      tier_unsupported
  fail_if (p.hardware.memory.minimum_bytes == 0) memory_not_positive
  fail_if (ltb_ℤ p.hardware.cpu.minimum_physical_cores (pos 1)) cores_not_positive
  fail_if (ltb_ℤ p.hardware.cpu.reference_min_clock_mhz (pos 0)) clock_negative
  fail_if
      (not (to_lower (trim_space p.architecture_class) == "dense")
        && not (to_lower (trim_space p.architecture_class) == "moe")
        && not (to_lower (trim_space p.architecture_class) == "any"))
      class_unsupported

pub record ProfileRegistry : Type 0 where
  pub by_id : List (String × DeploymentProfile)
  pub ordered : List String

abbrev fail_if_known : Option DeploymentProfile → String → Result DeploymentError (Unit {0})
fail_if_known none id = ok tt
fail_if_known (some p) id = err (duplicate_profile id)

-- The end of the loop body of `Builtin`, on a decoded profile.
unfoldable pub add_profile :
    ProfileRegistry → DeploymentProfile → Result DeploymentError ProfileRegistry
add_profile r p = do
  validate_profile p
  fail_if_known (lookup p.id r.by_id) p.id
  ok (record r { by_id = (p.id, p) ∷ r.by_id; ordered = r.ordered ++ p.id ∷ [] })

unfoldable pub add_profiles :
    ProfileRegistry → List DeploymentProfile → Result DeploymentError ProfileRegistry
add_profiles r [] = ok r
add_profiles r (p ∷ ps) = do r' ← add_profile r p; add_profiles r' ps

abbrev is_empty : List String → Bool
is_empty [] = Bool.true
is_empty (x ∷ xs) = false

unfoldable pub builtin_profiles : List DeploymentProfile → Result DeploymentError ProfileRegistry
builtin_profiles ps = do
  r ← add_profiles (record { by_id = []; ordered = [] }) ps
  fail_if (is_empty r.ordered) no_profiles
  ok (record r { ordered = sort str_leb r.ordered })

unfoldable pub lookup_profile : ProfileRegistry → String → Option DeploymentProfile
lookup_profile r id = lookup (trim_space id) r.by_id

-- `r.byID[id]`, which is the zero value at a missing key.
abbrev pub zero_profile : DeploymentProfile
zero_profile = record {
  schema = "";
  id = "";
  display_name = "";
  tier = "";
  description = "";
  hardware = record {
    memory = record { minimum_bytes = 0; ecc_required = false; preferred_class = "" };
    cpu = record { minimum_physical_cores = pos 0; reference_min_clock_mhz = pos 0 };
    accelerator_required = false;
  };
  architecture_class = "";
}

abbrev pub or_zero_profile : Option DeploymentProfile → DeploymentProfile
or_zero_profile none = zero_profile
or_zero_profile (some p) = p

unfoldable pub list_profiles : ProfileRegistry → List DeploymentProfile
list_profiles r = map (λ id. or_zero_profile (lookup id r.by_id)) r.ordered

unfoldable pub profiles_len : ProfileRegistry → ℕ
profiles_len r = length r.ordered

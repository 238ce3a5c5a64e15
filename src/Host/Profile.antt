-- ===== src/Host/Profile.antt =====
-- The host profile (internal/hostprofile/profile.go): its records and its validation. The discovery
-- from /proc and /sys reads files and is not modelled, nor is the lookup of a CPU feature. The
-- collection time, which nothing computes with, is left out of the record.
use quantum_runtime.Prelude.{
  ℕ, String, List, Bool, Option, ◌&&◌, ◌||◌, not, ◌==◌, string_eq, Result, ◌>>◌, fail_if, ltb,
}
use quantum_runtime.Prelude.Int.{ℤ, pos, ltb_ℤ, leb_ℤ}

pub record CpuProfile : Type 0 where
  pub vendor_id : String
  pub model_name : String
  pub physical_cores : ℤ
  pub logical_cores : ℤ
  pub threads_per_core : ℤ
  pub features : List String

pub record MemoryProfile : Type 0 where
  pub total_bytes : ℕ
  pub available_bytes : ℕ
  pub huge_page_size_bytes : ℕ
  pub huge_pages_total : ℕ
  pub huge_pages_free : ℕ

pub record NumaNode : Type 0 where
  pub id : ℤ
  pub cpu_list : String
  pub memory_bytes : ℕ
  pub free_bytes : ℕ

pub record NumaProfile : Type 0 where
  pub count : ℤ
  pub nodes : List NumaNode

pub record StorageProfile : Type 0 where
  pub device : String
  pub kind : String
  pub size_bytes : ℕ
  pub rotational : Bool
  pub numa_node : Option ℤ

pub record AcceleratorProfile : Type 0 where
  pub kind : String
  pub vendor : String
  pub device : String
  pub vram_bytes : ℕ
  pub numa_node : Option ℤ

pub record HostProfile : Type 0 where
  pub schema_version : String
  pub os : String
  pub arch : String
  pub cpu : CpuProfile
  pub numa : NumaProfile
  pub memory : MemoryProfile
  pub storage : List StorageProfile
  pub accelerators : List AcceleratorProfile
  pub warnings : List String

abbrev pub schema_version : String
schema_version = "quantum.runtime/host-profile/v1alpha1"

pub data ProfileError : Type 0 where
  unexpected_schema logical_not_positive physical_invalid available_exceeds_total : ProfileError

unfoldable pub validate_host : HostProfile → Result ProfileError (Unit {0})
validate_host p = do
  fail_if (not (p.schema_version == schema_version)) unexpected_schema
  fail_if (leb_ℤ p.cpu.logical_cores (pos 0)) logical_not_positive
  fail_if (leb_ℤ p.cpu.physical_cores (pos 0) || ltb_ℤ p.cpu.logical_cores p.cpu.physical_cores)
      physical_invalid
  fail_if (ltb 0 p.memory.total_bytes && ltb p.memory.total_bytes p.memory.available_bytes)
      available_exceeds_total

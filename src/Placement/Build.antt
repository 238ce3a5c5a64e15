-- ===== src/Placement/Build.antt =====
-- `Build` of internal/placement/placement.go: the checks of the request, the memory figures, and
-- the three plans.
use quantum_runtime.Prelude.{
  ℕ, ◌+◌, ◌-◌, ◌/◌, List, [], ◌∷◌, ◌++◌, Bool, true, false, ◌&&◌, ◌==◌, nat_eq, ltb, leb,
  if◌then◌else◌, Option, none, some, Result, ok, ◌>>◌, fail_if, String, string_eq,
}
use quantum_runtime.Prelude.Words.{u64}
use quantum_runtime.Host.Profile.{HostProfile, AcceleratorProfile}
use quantum_runtime.Placement.Types.{
  model_weights, moe_experts, kv_cache, prefix_cache, projector, workspace, Request, Plan, cpu_only,
  hybrid_candidate, capacity_exceeded, fits_in_ram, accelerator_available, hot_does_not_fit,
  no_accelerator, hybrid_pre_activation_placement, moe_expert_offload, kv_cache_placement,
  low_memory_bandwidth, Requirement,
}
use quantum_runtime.Placement.Allocate.{
  Allocation, allocate_whole, allocate_split, assign_hot_to_ram, assign_unplaced, assign_cold,
}

abbrev pub schema_version : String
schema_version = "quantum.runtime/placement-plan/v1alpha1"

pub data RequestError : Type 0 where
  model_bytes_zero nvme_budget_required : RequestError
  cold_exceeds_budget : (cold budget : ℕ) → RequestError

unfoldable pub validate_request : Request → Result RequestError (Unit {0})
validate_request req = do
  fail_if (req.model_bytes == 0) model_bytes_zero
  fail_if (req.allow_nvme_cold_tier && ltb 0 req.cold_bytes && req.nvme_budget_bytes == 0)
      nvme_budget_required
  fail_if (ltb req.nvme_budget_bytes req.cold_bytes && req.allow_nvme_cold_tier)
      (cold_exceeds_budget req.cold_bytes req.nvme_budget_bytes)

abbrev pub two_gib : ℕ
two_gib = 2147483648

unfoldable pub default_reserve : ℕ → ℕ
default_reserve total =
    if total == 0 then two_gib else if ltb (total / 5) two_gib then two_gib else total / 5

-- `availableRAM`, `reserve` and `usableRAM` of `Build`.
unfoldable pub usable_ram : HostProfile → Request → ℕ
unfolding default_reserve
usable_ram host req =
    let available =
      if host.memory.available_bytes == 0
      then host.memory.total_bytes
      else host.memory.available_bytes in
    let reserve =
      if req.reserve_ram_bytes == 0
      then default_reserve host.memory.total_bytes
      else req.reserve_ram_bytes in
    if ltb reserve available then available - reserve else 0

-- The loop for `bestVRAM`.
unfoldable pub best_vram_from : ℕ → List AcceleratorProfile → ℕ
best_vram_from best [] = best
best_vram_from best (acc ∷ accs) =
    best_vram_from (if ltb best acc.vram_bytes then acc.vram_bytes else best) accs

unfoldable pub best_vram : HostProfile → ℕ
unfolding best_vram_from
best_vram host = best_vram_from 0 host.accelerators

-- `hot`: five sums of `uint64`, each of which wraps.
unfoldable pub hot_bytes : Request → ℕ
hot_bytes req = u64 (
    u64 (
      u64 (
        u64 (u64 (req.model_bytes + req.moe_expert_bytes) + req.kv_cache_bytes)
        + req.prefix_cache_bytes)
      + req.projector_bytes)
    + req.workspace_bytes)

-- The plan before a decision. Go starts with an empty decision; each branch overwrites it.
unfoldable pub empty_plan : HostProfile → Request → Plan
empty_plan host req = record {
  schema_version = schema_version;
  decision = capacity_exceeded;
  reason = no_accelerator;
  cpu_first = true;
  ram = record { available_bytes = usable_ram host req; assigned_bytes = 0 };
  vram = record { available_bytes = best_vram host; assigned_bytes = 0 };
  nvme = record {
    available_bytes = if req.allow_nvme_cold_tier then req.nvme_budget_bytes else 0;
    assigned_bytes = 0;
  };
  classes = [];
  requirements = [];
  warnings = [];
}

-- `calibrationResult != nil && calibrationResult.MemoryBandwidthClass == "low"`. Of the calibration
-- only the class is read.
abbrev pub is_low_bandwidth : Option String → Bool
is_low_bandwidth none = false
is_low_bandwidth (some class) = class == "low"

unfoldable pub warn_low_bandwidth : Option String → Plan → Plan
warn_low_bandwidth bandwidth plan =
    if is_low_bandwidth bandwidth
    then record plan { warnings = plan.warnings ++ low_memory_bandwidth ∷ [] }
    else plan

unfoldable pub cpu_only_plan : Option String → Request → Plan → Plan
cpu_only_plan bandwidth req plan =
    let decided = record plan { decision = cpu_only; reason = fits_in_ram } in
    warn_low_bandwidth bandwidth (assign_cold req (assign_hot_to_ram req decided))

-- The six calls of the hybrid branch.
unfoldable pub allocate_all : Request → Allocation → Allocation
allocate_all req a =
    let a1 = allocate_whole kv_cache req.kv_cache_bytes a in
    let a2 = allocate_whole projector req.projector_bytes a1 in
    let a3 = allocate_split model_weights req.model_bytes a2 in
    let a4 = allocate_split moe_experts req.moe_expert_bytes a3 in
    let a5 = allocate_whole prefix_cache req.prefix_cache_bytes a4 in
    allocate_whole workspace req.workspace_bytes a5

unfoldable pub hybrid_requirements : Request → Plan → List Requirement
hybrid_requirements req plan =
    plan.requirements
    ++ hybrid_pre_activation_placement
      ∷ ((if ltb 0 req.moe_expert_bytes then moe_expert_offload ∷ [] else [])
          ++ (if ltb 0 req.kv_cache_bytes && ltb 0 plan.vram.assigned_bytes
              then kv_cache_placement ∷ []
              else []))

abbrev pub start_allocation : Plan → Allocation
start_allocation plan = record {
  plan = record plan { decision = hybrid_candidate; reason = accelerator_available };
  remaining_vram = plan.vram.available_bytes;
  remaining_ram = plan.ram.available_bytes;
  is_unplaced = false;
}

-- `if unplaced { plan.Decision = "capacity_exceeded"; ... }`.
unfoldable pub decide_hybrid : Allocation → Plan
decide_hybrid a =
    if a.is_unplaced
    then record (a.plan) { decision = capacity_exceeded; reason = hot_does_not_fit }
    else a.plan

unfoldable pub hybrid_plan : Request → Plan → Plan
hybrid_plan req plan =
    let p = decide_hybrid (allocate_all req (start_allocation plan)) in
    assign_cold req (record p { requirements = hybrid_requirements req p })

unfoldable pub exceeded_plan : Request → Plan → Plan
exceeded_plan req plan =
    assign_cold req
      (assign_unplaced req (record plan { decision = capacity_exceeded; reason = no_accelerator }))

unfoldable pub make_plan : HostProfile → Option String → Request → Plan
make_plan host bandwidth req =
    let plan = empty_plan host req in
    if leb (hot_bytes req) (usable_ram host req)
    then cpu_only_plan bandwidth req plan
    else if req.allow_acceleration && ltb 0 (best_vram host)
    then hybrid_plan req plan
    else exceeded_plan req plan

unfoldable pub build : HostProfile → Option String → Request → Result RequestError Plan
build host bandwidth req = do validate_request req; ok (make_plan host bandwidth req)

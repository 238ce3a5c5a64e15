-- ===== src/Placement/Allocate.antt =====
-- The steps that put the bytes of one class on a tier: `allocateWhole`, `allocateSplit`,
-- `assignHotToRAM`, `assignUnplaced` and `assignCold` of internal/placement/placement.go. The
-- variables that they take by pointer are the fields of `Allocation`.
use Prim.Native.Nat.{min}
use quantum_runtime.Prelude.{
  ℕ, ◌+◌, ◌-◌, List, [], ◌∷◌, ◌++◌, Bool, true, ◌==◌, nat_eq, ltb, leb, if◌then◌else◌, ◌&&◌,
}
use quantum_runtime.Prelude.Words.{u64}
use quantum_runtime.Placement.Types.{
  Class, model_weights, moe_experts, kv_cache, prefix_cache, projector, workspace,
  cold_weights_or_cache, Tier, ram, vram, nvme, unplaced, Request, TierAllocation, ClassPlacement,
  Plan, explicit_nvme_cold_tier, cold_tier_disabled,
}

abbrev pub placed : Class → Tier → ℕ → ClassPlacement
placed class tier bytes = record { class = class; tier = tier; bytes = bytes }

-- `plan.Classes = append(plan.Classes, c)`.
abbrev pub append_class : ClassPlacement → Plan → Plan
append_class c plan = record plan { classes = plan.classes ++ c ∷ [] }

-- `AssignedBytes += bytes` on each tier, which wraps.
abbrev pub assign : ℕ → TierAllocation → TierAllocation
assign bytes t = record t { assigned_bytes = u64 (t.assigned_bytes + bytes) }

-- The plan with the local variables remainingVRAM, remainingRAM and unplaced of `Build`.
pub record Allocation : Type 0 where
  pub plan : Plan
  pub remaining_vram : ℕ
  pub remaining_ram : ℕ
  pub is_unplaced : Bool

abbrev pub put_vram : Class → ℕ → Allocation → Allocation
put_vram class bytes a = record a {
  remaining_vram = a.remaining_vram - bytes;
  plan = record (append_class (placed class vram bytes) a.plan) { vram = assign bytes a.plan.vram };
}

abbrev pub put_ram : Class → ℕ → Allocation → Allocation
put_ram class bytes a = record a {
  remaining_ram = a.remaining_ram - bytes;
  plan = record (append_class (placed class ram bytes) a.plan) { ram = assign bytes a.plan.ram };
}

abbrev pub put_unplaced : Class → ℕ → Allocation → Allocation
put_unplaced class bytes a = record a {
  is_unplaced = true;
  plan = append_class (placed class unplaced bytes) a.plan;
}

unfoldable pub allocate_whole : Class → ℕ → Allocation → Allocation
allocate_whole class bytes a =
    if bytes == 0
    then a
    else if leb bytes a.remaining_vram
    then put_vram class bytes a
    else if leb bytes a.remaining_ram
    then put_ram class bytes a
    else put_unplaced class bytes a

-- The three stages of `allocateSplit`: what fits into VRAM, what fits into RAM, and the rest.
unfoldable pub split_vram : Class → ℕ → Allocation → Allocation
split_vram class bytes a =
    let to_vram = min bytes a.remaining_vram in
    if ltb 0 to_vram then put_vram class to_vram a else a

unfoldable pub split_ram : Class → ℕ → Allocation → Allocation
split_ram class bytes a =
    let to_ram = min bytes a.remaining_ram in if ltb 0 to_ram then put_ram class to_ram a else a

unfoldable pub split_rest : Class → ℕ → Allocation → Allocation
split_rest class bytes a = if ltb 0 bytes then put_unplaced class bytes a else a

unfoldable pub allocate_split : Class → ℕ → Allocation → Allocation
allocate_split class bytes a =
    let b = split_vram class bytes a in
    let rest = bytes - min bytes a.remaining_vram in
    let c = split_ram class rest b in
    if bytes == 0 then a else split_rest class (rest - min rest b.remaining_ram) c

-- The six hot classes in the order in which the CPU-only and the exceeded plan list them.
abbrev pub hot_classes : Tier → Request → List ClassPlacement
hot_classes t req =
    placed model_weights t req.model_bytes
    ∷ placed moe_experts t req.moe_expert_bytes
    ∷ placed kv_cache t req.kv_cache_bytes
    ∷ placed prefix_cache t req.prefix_cache_bytes
    ∷ placed projector t req.projector_bytes
    ∷ placed workspace t req.workspace_bytes
    ∷ []

-- The body of the loop of `assignHotToRAM`.
unfoldable pub assign_to_ram : ClassPlacement → Plan → Plan
assign_to_ram c plan =
    if c.bytes == 0 then plan else record (append_class c plan) { ram = assign c.bytes plan.ram }

unfoldable pub assign_each_to_ram : List ClassPlacement → Plan → Plan
assign_each_to_ram [] plan = plan
assign_each_to_ram (c ∷ cs) plan = assign_each_to_ram cs (assign_to_ram c plan)

unfoldable pub assign_hot_to_ram : Request → Plan → Plan
assign_hot_to_ram req plan = assign_each_to_ram (hot_classes ram req) plan

-- The body of the loop of `assignUnplaced`.
unfoldable pub append_used : ClassPlacement → Plan → Plan
append_used c plan = if ltb 0 c.bytes then append_class c plan else plan

unfoldable pub append_each : List ClassPlacement → Plan → Plan
append_each [] plan = plan
append_each (c ∷ cs) plan = append_each cs (append_used c plan)

unfoldable pub assign_unplaced : Request → Plan → Plan
assign_unplaced req plan = append_each (hot_classes unplaced req) plan

unfoldable pub assign_cold : Request → Plan → Plan
assign_cold req plan =
    if req.cold_bytes == 0
    then plan
    else if req.allow_nvme_cold_tier && leb req.cold_bytes req.nvme_budget_bytes
    then record (append_class (placed cold_weights_or_cache nvme req.cold_bytes) plan) {
      nvme = assign req.cold_bytes plan.nvme;
      requirements = plan.requirements ++ explicit_nvme_cold_tier ∷ [];
    }
    else record (append_class (placed cold_weights_or_cache unplaced req.cold_bytes) plan) {
      warnings = plan.warnings ++ cold_tier_disabled ∷ [];
    }

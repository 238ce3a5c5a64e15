-- ===== src/Placement/Types.antt =====
-- The data of internal/placement/placement.go. The texts that the planner writes from a fixed
-- choice (decisions, reasons, classes, tiers, requirements, warnings) are constructors.
use quantum_runtime.Prelude.{ℕ, ◌+◌, String, List, [], ◌∷◌, Bool, ◌==◌, nat_eq, if◌then◌else◌}

pub data Decision : Type 0 where
  cpu_only hybrid_candidate capacity_exceeded : Decision

pub data Reason : Type 0 where
  fits_in_ram accelerator_available hot_does_not_fit no_accelerator : Reason

pub data Class : Type 0 where
  model_weights moe_experts kv_cache prefix_cache projector workspace cold_weights_or_cache : Class

pub data Tier : Type 0 where
  ram vram nvme unplaced : Tier

pub data Requirement : Type 0 where
  hybrid_pre_activation_placement moe_expert_offload kv_cache_placement : Requirement
  explicit_nvme_cold_tier : Requirement

pub data Warning : Type 0 where
  low_memory_bandwidth cold_tier_disabled : Warning

pub record Request : Type 0 where
  pub model_bytes : ℕ
  pub moe_expert_bytes : ℕ
  pub kv_cache_bytes : ℕ
  pub prefix_cache_bytes : ℕ
  pub projector_bytes : ℕ
  pub workspace_bytes : ℕ
  pub cold_bytes : ℕ
  pub allow_acceleration : Bool
  pub allow_nvme_cold_tier : Bool
  pub nvme_budget_bytes : ℕ
  pub reserve_ram_bytes : ℕ

pub record TierAllocation : Type 0 where
  pub available_bytes : ℕ
  pub assigned_bytes : ℕ

pub record ClassPlacement : Type 0 where
  pub class : Class
  pub tier : Tier
  pub bytes : ℕ

pub record Plan : Type 0 where
  pub schema_version : String
  pub decision : Decision
  pub reason : Reason
  pub cpu_first : Bool
  pub ram : TierAllocation
  pub vram : TierAllocation
  pub nvme : TierAllocation
  pub classes : List ClassPlacement
  pub requirements : List Requirement
  pub warnings : List Warning

-- Constructors compared by their place in the declaration.
abbrev pub tier_rank : Tier → ℕ
tier_rank ram = 0
tier_rank vram = 1
tier_rank nvme = 2
tier_rank unplaced = 3

abbrev pub class_rank : Class → ℕ
class_rank model_weights = 0
class_rank moe_experts = 1
class_rank kv_cache = 2
class_rank prefix_cache = 3
class_rank projector = 4
class_rank workspace = 5
class_rank cold_weights_or_cache = 6

-- The bytes that a list of placements puts on a tier, and the bytes that it holds of a class.
unfoldable pub tier_bytes : Tier → List ClassPlacement → ℕ
tier_bytes t [] = 0
tier_bytes t (c ∷ cs) = (if tier_rank c.tier == tier_rank t then c.bytes else 0) + tier_bytes t cs

unfoldable pub class_bytes : Class → List ClassPlacement → ℕ
class_bytes k [] = 0
class_bytes k (c ∷ cs) =
    (if class_rank c.class == class_rank k then c.bytes else 0) + class_bytes k cs

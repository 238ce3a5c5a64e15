-- ===== src/Placement/Steps.antt =====
-- What the loops over the hot classes and `assignCold` (internal/placement/placement.go) do to a
-- plan: the sums that they add, and the fields that they leave alone.
use quantum_runtime.Prelude.{
  ℕ, ◌+◌, ◌≤◌, ◌<◌, ◌≡◌, ◌∙◌, List, [], ◌∷◌, true, ◌==◌, nat_eq, if◌then◌else◌, arith,
}
use quantum_runtime.Prelude.Words.{u64_mod}
use quantum_runtime.Placement.Types.{
  Class, model_weights, moe_experts, kv_cache, prefix_cache, projector, workspace,
  cold_weights_or_cache, Tier, ram, vram, nvme, unplaced, tier_rank, Request, ClassPlacement, Plan,
  tier_bytes, class_bytes,
}
use quantum_runtime.Placement.Allocate.{
  hot_classes, assign_to_ram, assign_each_to_ram, append_used, append_each, assign_cold,
}
use quantum_runtime.Placement.Ledger.{
  tier_bytes_snoc, class_bytes_snoc, tier_bytes-append, class_bytes-append, of_class,
}

-- The bytes that a request asks for in a class.
unfoldable pub requested : Class → Request → ℕ
requested model_weights req = req.model_bytes
requested moe_experts req = req.moe_expert_bytes
requested kv_cache req = req.kv_cache_bytes
requested prefix_cache req = req.prefix_cache_bytes
requested projector req = req.projector_bytes
requested workspace req = req.workspace_bytes
requested cold_weights_or_cache req = req.cold_bytes

-- The hot working set as a sum that does not wrap.
abbrev pub total_hot : Request → ℕ
total_hot req =
    req.model_bytes + req.moe_expert_bytes + req.kv_cache_bytes + req.prefix_cache_bytes
    + req.projector_bytes + req.workspace_bytes

-- The hot part of a class, as the loops list it.
pub class_bytes-hot_classes :
    (k : Class) (t : Tier) (req : Request)
    → class_bytes k (hot_classes t req) + of_class k cold_weights_or_cache req.cold_bytes
      ≡ requested k req
unfolding class_bytes requested
class_bytes-hot_classes model_weights t req = omega arith
class_bytes-hot_classes _ t req = omega arith

pub tier_bytes-hot_classes :
    (t u : Tier) (req : Request)
    → tier_bytes t (hot_classes u req) ≡ (if tier_rank u == tier_rank t then total_hot req else 0)
unfolding tier_bytes
tier_bytes-hot_classes t u req = ground arith

-- The fields of a plan that a loop over classes leaves alone.
pub record SameFrame (p q : Plan) : Type 0 where
  pub decision_same : q.decision ≡ p.decision
  pub ram_available_same : q.ram.available_bytes ≡ p.ram.available_bytes
  pub vram_same : q.vram ≡ p.vram
  pub nvme_same : q.nvme ≡ p.nvme
  pub requirements_same : q.requirements ≡ p.requirements

SameFrame-trans : {p q r : Plan} → SameFrame p q → SameFrame q r → SameFrame p r
SameFrame-trans h k = record {
  decision_same = k.decision_same ∙ h.decision_same;
  ram_available_same = k.ram_available_same ∙ h.ram_available_same;
  vram_same = k.vram_same ∙ h.vram_same;
  nvme_same = k.nvme_same ∙ h.nvme_same;
  requirements_same = k.requirements_same ∙ h.requirements_same;
}

assign_to_ram-SameFrame : (c : ClassPlacement) (p : Plan) → SameFrame p (assign_to_ram c p)
unfolding assign_to_ram
assign_to_ram-SameFrame c p = ground arith

pub assign_each_to_ram-SameFrame :
    (cs : List ClassPlacement) (p : Plan) → SameFrame p (assign_each_to_ram cs p)
unfolding assign_each_to_ram
assign_each_to_ram-SameFrame [] p = ground arith
assign_each_to_ram-SameFrame (c ∷ cs) p =
    SameFrame-trans (assign_to_ram-SameFrame c p) (assign_each_to_ram-SameFrame cs _)

append_used-SameFrame : (c : ClassPlacement) (p : Plan) → SameFrame p (append_used c p)
unfolding append_used
append_used-SameFrame c p = ground arith

pub append_each-SameFrame : (cs : List ClassPlacement) (p : Plan) → SameFrame p (append_each cs p)
unfolding append_each
append_each-SameFrame [] p = ground arith
append_each-SameFrame (c ∷ cs) p =
    SameFrame-trans (append_used-SameFrame c p) (append_each-SameFrame cs _)

-- The sums over the classes grow by the sums over the list that is walked: bytes that are 0 are
-- left out of the plan and of no weight in the sums.
class_bytes-assign_to_ram :
    (k : Class) (c : ClassPlacement) (p : Plan)
    → class_bytes k (assign_to_ram c p).classes ≡ class_bytes k p.classes + class_bytes k (c ∷ [])
unfolding assign_to_ram class_bytes
class_bytes-assign_to_ram k c p = ground (arith, class_bytes-append k p.classes (c ∷ []))

tier_bytes-assign_to_ram :
    (t : Tier) (c : ClassPlacement) (p : Plan)
    → tier_bytes t (assign_to_ram c p).classes ≡ tier_bytes t p.classes + tier_bytes t (c ∷ [])
unfolding assign_to_ram tier_bytes
tier_bytes-assign_to_ram t c p = ground (arith, tier_bytes-append t p.classes (c ∷ []))

pub class_bytes-assign_each_to_ram :
    (k : Class) (cs : List ClassPlacement) (p : Plan)
    → class_bytes k (assign_each_to_ram cs p).classes ≡ class_bytes k p.classes + class_bytes k cs
unfolding assign_each_to_ram class_bytes
class_bytes-assign_each_to_ram k [] p = omega arith
class_bytes-assign_each_to_ram k (c ∷ cs) p = omega (
  arith,
  class_bytes-assign_each_to_ram k cs (assign_to_ram c p),
  class_bytes-assign_to_ram k c p,
)

pub tier_bytes-assign_each_to_ram :
    (t : Tier) (cs : List ClassPlacement) (p : Plan)
    → tier_bytes t (assign_each_to_ram cs p).classes ≡ tier_bytes t p.classes + tier_bytes t cs
unfolding assign_each_to_ram tier_bytes
tier_bytes-assign_each_to_ram t [] p = omega arith
tier_bytes-assign_each_to_ram t (c ∷ cs) p =
    omega (
      arith,
      tier_bytes-assign_each_to_ram t cs (assign_to_ram c p),
      tier_bytes-assign_to_ram t c p,
    )

class_bytes-append_used :
    (k : Class) (c : ClassPlacement) (p : Plan)
    → class_bytes k (append_used c p).classes ≡ class_bytes k p.classes + class_bytes k (c ∷ [])
unfolding append_used class_bytes
class_bytes-append_used k c p = ground (arith, class_bytes-append k p.classes (c ∷ []))

tier_bytes-append_used :
    (t : Tier) (c : ClassPlacement) (p : Plan)
    → tier_bytes t (append_used c p).classes ≡ tier_bytes t p.classes + tier_bytes t (c ∷ [])
unfolding append_used tier_bytes
tier_bytes-append_used t c p = ground (arith, tier_bytes-append t p.classes (c ∷ []))

pub class_bytes-append_each :
    (k : Class) (cs : List ClassPlacement) (p : Plan)
    → class_bytes k (append_each cs p).classes ≡ class_bytes k p.classes + class_bytes k cs
unfolding append_each class_bytes
class_bytes-append_each k [] p = omega arith
class_bytes-append_each k (c ∷ cs) p =
    omega (arith, class_bytes-append_each k cs (append_used c p), class_bytes-append_used k c p)

pub tier_bytes-append_each :
    (t : Tier) (cs : List ClassPlacement) (p : Plan)
    → tier_bytes t (append_each cs p).classes ≡ tier_bytes t p.classes + tier_bytes t cs
unfolding append_each tier_bytes
tier_bytes-append_each t [] p = omega arith
tier_bytes-append_each t (c ∷ cs) p =
    omega (arith, tier_bytes-append_each t cs (append_used c p), tier_bytes-append_used t c p)

-- The bytes of a list of placements, on whatever tier.
unfoldable pub all_bytes : List ClassPlacement → ℕ
all_bytes [] = 0
all_bytes (c ∷ cs) = c.bytes + all_bytes cs

assigned-assign_to_ram :
    (c : ClassPlacement) (p : Plan)
    → p.ram.assigned_bytes + c.bytes < u64_mod
    → (assign_to_ram c p).ram.assigned_bytes ≡ p.ram.assigned_bytes + c.bytes
unfolding assign_to_ram
assigned-assign_to_ram c p small = ground arith

-- The RAM counter grows by the bytes of the list, as long as the sum is a word.
pub assigned-assign_each_to_ram :
    (cs : List ClassPlacement) (p : Plan)
    → p.ram.assigned_bytes + all_bytes cs < u64_mod
    → (assign_each_to_ram cs p).ram.assigned_bytes ≡ p.ram.assigned_bytes + all_bytes cs
unfolding assign_each_to_ram all_bytes
assigned-assign_each_to_ram [] p small = omega arith
assigned-assign_each_to_ram (c ∷ cs) p small =
    let step : (assign_to_ram c p).ram.assigned_bytes ≡ p.ram.assigned_bytes + c.bytes =
      assigned-assign_to_ram c p (omega arith) in
    omega (arith, assigned-assign_each_to_ram cs (assign_to_ram c p) (omega arith))

-- `assignCold` adds the cold bytes to their class.
pub class_bytes-assign_cold :
    (k : Class) (req : Request) (p : Plan)
    → class_bytes k (assign_cold req p).classes
      ≡ class_bytes k p.classes + of_class k cold_weights_or_cache req.cold_bytes
unfolding assign_cold
class_bytes-assign_cold k req p = ground (
  arith,
  class_bytes_snoc k cold_weights_or_cache nvme req.cold_bytes p.classes,
  class_bytes_snoc k cold_weights_or_cache unplaced req.cold_bytes p.classes,
)

-- The cold bytes that a valid request leaves without a tier, and those that go to NVMe.
abbrev pub unplaced_cold : Request → ℕ
unplaced_cold req = if req.allow_nvme_cold_tier then 0 else req.cold_bytes

abbrev pub nvme_cold : Request → ℕ
nvme_cold req = if req.allow_nvme_cold_tier then req.cold_bytes else 0

-- What `assignCold` does for a request whose cold bytes fit the NVMe budget where it is enabled.
pub record ColdAssigned (req : Request) (p q : Plan) : Type 0 where
  pub cold_decision : q.decision ≡ p.decision
  pub cold_ram : q.ram ≡ p.ram
  pub cold_vram : q.vram ≡ p.vram
  pub cold_nvme_available : q.nvme.available_bytes ≡ p.nvme.available_bytes
  pub cold_ram_bytes : tier_bytes ram q.classes ≡ tier_bytes ram p.classes
  pub cold_vram_bytes : tier_bytes vram q.classes ≡ tier_bytes vram p.classes
  pub cold_nvme_bytes : tier_bytes nvme q.classes ≡ tier_bytes nvme p.classes + nvme_cold req
  pub cold_unplaced :
      tier_bytes unplaced q.classes ≡ tier_bytes unplaced p.classes + unplaced_cold req

pub assign_cold-ColdAssigned :
    (req : Request) (p : Plan)
    → (req.allow_nvme_cold_tier ≡ true → req.cold_bytes ≤ req.nvme_budget_bytes)
    → ColdAssigned req p (assign_cold req p)
unfolding assign_cold
assign_cold-ColdAssigned req p fits = ground (
  arith,
  tier_bytes_snoc ram nvme cold_weights_or_cache req.cold_bytes p.classes,
  tier_bytes_snoc vram nvme cold_weights_or_cache req.cold_bytes p.classes,
  tier_bytes_snoc nvme nvme cold_weights_or_cache req.cold_bytes p.classes,
  tier_bytes_snoc unplaced nvme cold_weights_or_cache req.cold_bytes p.classes,
  tier_bytes_snoc ram unplaced cold_weights_or_cache req.cold_bytes p.classes,
  tier_bytes_snoc vram unplaced cold_weights_or_cache req.cold_bytes p.classes,
  tier_bytes_snoc nvme unplaced cold_weights_or_cache req.cold_bytes p.classes,
  tier_bytes_snoc unplaced unplaced cold_weights_or_cache req.cold_bytes p.classes,
)

-- The NVMe counter shows the cold bytes that went there.
pub assigned-assign_cold :
    (req : Request) (p : Plan)
    → (req.allow_nvme_cold_tier ≡ true → req.cold_bytes ≤ req.nvme_budget_bytes)
    → p.nvme.assigned_bytes ≡ 0
    → req.cold_bytes < u64_mod
    → (assign_cold req p).nvme.assigned_bytes ≡ nvme_cold req
unfolding assign_cold
assigned-assign_cold req p fits fresh small = ground arith

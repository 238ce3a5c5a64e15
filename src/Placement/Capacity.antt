-- ===== src/Placement/Capacity.antt =====
-- The capacities of the tiers and the decision in the plan that `Build`
-- (internal/placement/placement.go) returns.
use quantum_runtime.Prelude.{
  ℕ, ◌≤◌, ◌<◌, ◌≡◌, refl, sym, ◌∙◌, ◌≢◌, ◌↔◌, inl, inr, List, [], ◌∷◌, ◌&&◌, String, nat_eq, leb,
  ltb, if◌then◌else◌, arith, Option, ok, Bool-cases, All, leb→le,
}
use quantum_runtime.Prelude.Words.{u64, u64_mod}
use quantum_runtime.Host.Profile.{HostProfile, AcceleratorProfile}
use quantum_runtime.Placement.Types.{
  model_weights, moe_experts, kv_cache, prefix_cache, projector, workspace, Tier, ram, vram, nvme,
  unplaced, Request, ClassPlacement, Plan, cpu_only, hybrid_candidate, capacity_exceeded,
  fits_in_ram, no_accelerator, tier_bytes,
}
use quantum_runtime.Placement.Allocate.{
  Allocation, hot_classes, assign_hot_to_ram, append_used, append_each, assign_unplaced,
  assign_cold,
}
use quantum_runtime.Placement.Build.{
  is_low_bandwidth, usable_ram, best_vram, best_vram_from, hot_bytes, empty_plan,
  warn_low_bandwidth, cpu_only_plan, start_allocation, allocate_all, hybrid_requirements,
  decide_hybrid, hybrid_plan, exceeded_plan, make_plan, build,
}
use quantum_runtime.Placement.Ledger.{
  IsBalanced, allocate_whole-IsBalanced, allocate_split-IsBalanced,
}
use quantum_runtime.Placement.Steps.{
  total_hot, assign_each_to_ram-SameFrame, append_each-SameFrame, tier_bytes-assign_each_to_ram,
  tier_bytes-append_each, all_bytes, assigned-assign_each_to_ram, unplaced_cold, nvme_cold,
  ColdAssigned, assign_cold-ColdAssigned, assigned-assign_cold,
}
use quantum_runtime.Placement.Conservation.{IsValidRequest, build-cases}

-- The memory figures of a host are `uint64` values.
pub record IsWordHost (host : HostProfile) : Type 0 where
  pub total_word : host.memory.total_bytes < u64_mod
  pub available_word : host.memory.available_bytes < u64_mod
  pub vram_words : All (λ (acc : AcceleratorProfile). acc.vram_bytes < u64_mod) host.accelerators

pub usable_ram_word :
    (host : HostProfile) (req : Request) → IsWordHost host → usable_ram host req < u64_mod
unfolding usable_ram
usable_ram_word host req w = ground (arith, w.total_word, w.available_word)

best_vram_from_word :
    (accs : List AcceleratorProfile) (best : ℕ)
    → best < u64_mod
    → All (λ (acc : AcceleratorProfile). acc.vram_bytes < u64_mod) accs
    → best_vram_from best accs < u64_mod
unfolding best_vram_from
best_vram_from_word [] best small h = small
best_vram_from_word (acc ∷ accs) best small h = best_vram_from_word accs _ (ground (arith, h.0)) h.1

best_vram_word : (host : HostProfile) → IsWordHost host → best_vram host < u64_mod
unfolding best_vram
best_vram_word host w = best_vram_from_word host.accelerators 0 (omega arith) w.vram_words

pub hot_bytes_exact : (req : Request) → total_hot req < u64_mod → hot_bytes req ≡ total_hot req
unfolding hot_bytes
hot_bytes_exact req small = omega arith

pub hot_bytes_wraps : (req : Request) → hot_bytes req ≡ u64 (total_hot req)
unfolding hot_bytes
hot_bytes_wraps req = omega arith

module _ {v r n : ℕ} (v_word : v < u64_mod) (r_word : r < u64_mod) (req : Request) where
  allocate_all-IsBalanced :
      (a : Allocation) → IsBalanced v r n a → IsBalanced v r n (allocate_all req a)
  unfolding allocate_all
  allocate_all-IsBalanced a h =
      let whole = allocate_whole-IsBalanced v_word r_word in
      let split = allocate_split-IsBalanced v_word r_word in
      let h2 = whole projector _ _ (whole kv_cache _ a h) in
      let h4 = split moe_experts _ _ (split model_weights _ _ h2) in
      whole workspace _ _ (whole prefix_cache _ _ h4)

module _ (host : HostProfile) (req : Request) where
  abbrev pub cold_budget : ℕ
  cold_budget = if req.allow_nvme_cold_tier then req.nvme_budget_bytes else 0

  start-IsBalanced :
      IsBalanced
        (best_vram host)
        (usable_ram host req)
        cold_budget
        (start_allocation (empty_plan host req))
  unfolding empty_plan tier_bytes
  start-IsBalanced = ground arith

  pub allocated-IsBalanced :
      IsWordHost host
      → IsBalanced
          (best_vram host)
          (usable_ram host req)
          cold_budget
          (allocate_all req (start_allocation (empty_plan host req)))
  allocated-IsBalanced w =
      allocate_all-IsBalanced (best_vram_word host w) (usable_ram_word host req w) req _
        start-IsBalanced

-- What a plan keeps of the capacities it was made for: each tier's counter is the sum over the
-- classes on it and is within the tier's capacity, and the decision is `capacity_exceeded` exactly
-- if some bytes other than the cold ones are on no tier.
pub record IsSafe (host : HostProfile) (req : Request) (plan : Plan) : Type 0 where
  pub ram_available : plan.ram.available_bytes ≡ usable_ram host req
  pub vram_available : plan.vram.available_bytes ≡ best_vram host
  pub ram_counted : tier_bytes ram plan.classes ≡ plan.ram.assigned_bytes
  pub vram_counted : tier_bytes vram plan.classes ≡ plan.vram.assigned_bytes
  pub nvme_counted : tier_bytes nvme plan.classes ≡ plan.nvme.assigned_bytes
  pub ram_fits : plan.ram.assigned_bytes ≤ plan.ram.available_bytes
  pub vram_fits : plan.vram.assigned_bytes ≤ plan.vram.available_bytes
  pub nvme_fits : plan.nvme.assigned_bytes ≤ plan.nvme.available_bytes
  pub decided :
      (plan.decision ≡ capacity_exceeded) ↔ (unplaced_cold req < tier_bytes unplaced plan.classes)

-- The same before `assignCold`, with the NVMe tier untouched.
record IsHotSafe (host : HostProfile) (req : Request) (plan : Plan) : Type 0 where
  ram_available : plan.ram.available_bytes ≡ usable_ram host req
  vram_available : plan.vram.available_bytes ≡ best_vram host
  ram_counted : tier_bytes ram plan.classes ≡ plan.ram.assigned_bytes
  vram_counted : tier_bytes vram plan.classes ≡ plan.vram.assigned_bytes
  nvme_unused : tier_bytes nvme plan.classes ≡ 0
  nvme_fresh : plan.nvme.assigned_bytes ≡ 0
  nvme_budget :
      plan.nvme.available_bytes ≡ (if req.allow_nvme_cold_tier then req.nvme_budget_bytes else 0)
  ram_fits : plan.ram.assigned_bytes ≤ plan.ram.available_bytes
  vram_fits : plan.vram.assigned_bytes ≤ plan.vram.available_bytes
  decided : (plan.decision ≡ capacity_exceeded) ↔ (0 < tier_bytes unplaced plan.classes)

ColdAssigned-IsSafe :
    (host : HostProfile) (req : Request) (p q : Plan)
    → IsValidRequest req
    → IsHotSafe host req p
    → ColdAssigned req p q
    → q.nvme.assigned_bytes ≡ nvme_cold req
    → IsSafe host req q
ColdAssigned-IsSafe host req p q valid h c counted = record {
  ram_available = ground (arith, h.ram_available, c.cold_ram);
  vram_available = ground (arith, h.vram_available, c.cold_vram);
  ram_counted = ground (arith, h.ram_counted, c.cold_ram, c.cold_ram_bytes);
  vram_counted = ground (arith, h.vram_counted, c.cold_vram, c.cold_vram_bytes);
  nvme_counted = ground (arith, h.nvme_unused, c.cold_nvme_bytes);
  ram_fits = ground (arith, h.ram_fits, c.cold_ram);
  vram_fits = ground (arith, h.vram_fits, c.cold_vram);
  nvme_fits = ground (arith, h.nvme_budget, c.cold_nvme_available, valid.cold_fits);
  decided = (
    λ d.
        let e : p.decision ≡ capacity_exceeded = cc (c.cold_decision) in
        omega (arith, h.decided.0 e, c.cold_unplaced),
    λ more. c.cold_decision ∙ h.decided.1 (omega (arith, c.cold_unplaced)),
  );
}

warn_low_bandwidth-IsSafe :
    (host : HostProfile) (req : Request) (bandwidth : Option String) (p : Plan)
    → IsSafe host req p
    → IsSafe host req (warn_low_bandwidth bandwidth p)
unfolding warn_low_bandwidth
warn_low_bandwidth-IsSafe host req bandwidth p s = elim (Bool-cases (is_low_bandwidth bandwidth)) [
  | inl low ↦ rw low (record {
    ram_available = s.ram_available;
    vram_available = s.vram_available;
    ram_counted = s.ram_counted;
    vram_counted = s.vram_counted;
    nvme_counted = s.nvme_counted;
    ram_fits = s.ram_fits;
    vram_fits = s.vram_fits;
    nvme_fits = s.nvme_fits;
    decided = s.decided;
  })
  | inr other ↦ rw other s
]

-- `assign_unplaced` leaves the RAM counters alone too.
append_used-SameRam : (c : ClassPlacement) (p : Plan) → (append_used c p).ram ≡ p.ram
unfolding append_used
append_used-SameRam c p = ground arith

append_each-SameRam : (cs : List ClassPlacement) (p : Plan) → (append_each cs p).ram ≡ p.ram
unfolding append_each
append_each-SameRam [] p = refl
append_each-SameRam (c ∷ cs) p = append_each-SameRam cs (append_used c p) ∙ append_used-SameRam c p

all_bytes-hot_classes : (t : Tier) (req : Request) → all_bytes (hot_classes t req) ≡ total_hot req
unfolding all_bytes
all_bytes-hot_classes t req = omega arith

hybrid≢exceeded : hybrid_candidate ≢ capacity_exceeded
hybrid≢exceeded = ground arith

module _ (host : HostProfile) (req : Request) (w : IsWordHost host) (valid : IsValidRequest req)
    (cold_word : req.cold_bytes < u64_mod) where
  assign_cold-IsSafe : (p : Plan) → IsHotSafe host req p → IsSafe host req (assign_cold req p)
  assign_cold-IsSafe p h =
      ColdAssigned-IsSafe host req p (assign_cold req p) valid h
        (assign_cold-ColdAssigned req p valid.cold_fits)
        (assigned-assign_cold req p valid.cold_fits h.nvme_fresh cold_word)

  hot_in_ram-IsHotSafe :
      total_hot req ≤ usable_ram host req
      → IsHotSafe host req (
          assign_hot_to_ram req
            (record (empty_plan host req) { decision = cpu_only; reason = fits_in_ram }))
  unfolding assign_hot_to_ram empty_plan tier_bytes
  hot_in_ram-IsHotSafe fits =
      let p = record (empty_plan host req) { decision = cpu_only; reason = fits_in_ram } in
      let cs = hot_classes ram req in
      let frame = assign_each_to_ram-SameFrame cs p in
      let sum = all_bytes-hot_classes ram req in
      let small = usable_ram_word host req w in
      let counted = assigned-assign_each_to_ram cs p (omega arith) in
      let none_unplaced = tier_bytes-assign_each_to_ram unplaced cs p in
      record {
        ram_available = ground (arith, frame.ram_available_same);
        vram_available = ground (arith, frame.vram_same);
        ram_counted = omega (arith, tier_bytes-assign_each_to_ram ram cs p);
        vram_counted = ground (arith, frame.vram_same, tier_bytes-assign_each_to_ram vram cs p);
        nvme_unused = omega (arith, tier_bytes-assign_each_to_ram nvme cs p);
        nvme_fresh = ground (arith, frame.nvme_same);
        nvme_budget = ground (arith, frame.nvme_same);
        ram_fits = omega (arith, frame.ram_available_same);
        vram_fits = ground (arith, frame.vram_same);
        decided = (λ d. cc (frame.decision_same), λ more. absurd (omega arith));
      }

  cpu_only_plan-IsSafe :
      (bandwidth : Option String)
      → total_hot req ≤ usable_ram host req
      → IsSafe host req (cpu_only_plan bandwidth req (empty_plan host req))
  unfolding cpu_only_plan
  cpu_only_plan-IsSafe bandwidth fits =
      warn_low_bandwidth-IsSafe host req bandwidth _
        (assign_cold-IsSafe _ (hot_in_ram-IsHotSafe fits))

  none_placed-IsHotSafe : IsHotSafe host req (
      assign_unplaced req
        (record (empty_plan host req) { decision = capacity_exceeded; reason = no_accelerator }))
  unfolding assign_unplaced empty_plan tier_bytes
  none_placed-IsHotSafe =
      let p = record (empty_plan host req) {
        decision = capacity_exceeded;
        reason = no_accelerator;
      } in
      let cs = hot_classes unplaced req in
      let frame = append_each-SameFrame cs p in
      let same = append_each-SameRam cs p in
      record {
        ram_available = ground (arith, same);
        vram_available = ground (arith, frame.vram_same);
        ram_counted = ground (arith, same, tier_bytes-append_each ram cs p);
        vram_counted = ground (arith, frame.vram_same, tier_bytes-append_each vram cs p);
        nvme_unused = omega (arith, tier_bytes-append_each nvme cs p);
        nvme_fresh = ground (arith, frame.nvme_same);
        nvme_budget = ground (arith, frame.nvme_same);
        ram_fits = ground (arith, same);
        vram_fits = ground (arith, frame.vram_same);
        decided = (
          λ d. omega (arith, valid.has_model, tier_bytes-append_each unplaced cs p),
          λ more. frame.decision_same,
        );
      }

  exceeded_plan-IsSafe : IsSafe host req (exceeded_plan req (empty_plan host req))
  unfolding exceeded_plan
  exceeded_plan-IsSafe = assign_cold-IsSafe _ none_placed-IsHotSafe

  decide_hybrid-IsHotSafe :
      (a : Allocation)
      → IsBalanced (best_vram host) (usable_ram host req) (cold_budget host req) a
      → IsHotSafe host req
          (record (decide_hybrid a) { requirements = hybrid_requirements req (decide_hybrid a) })
  unfolding decide_hybrid
  decide_hybrid-IsHotSafe a b = elim (Bool-cases a.is_unplaced) [
    | inl short ↦ rw short (record {
      ram_available = b.ram_available;
      vram_available = b.vram_available;
      ram_counted = b.ram_sum;
      vram_counted = b.vram_sum;
      nvme_unused = b.nvme_unused;
      nvme_fresh = b.nvme_fresh;
      nvme_budget = b.nvme_budget;
      ram_fits = omega (arith, b.ram_kept, b.ram_available);
      vram_fits = omega (arith, b.vram_kept, b.vram_available);
      decided = (λ d. b.some_unplaced short, λ more. refl);
    })
    | inr enough ↦ rw enough (record {
      ram_available = b.ram_available;
      vram_available = b.vram_available;
      ram_counted = b.ram_sum;
      vram_counted = b.vram_sum;
      nvme_unused = b.nvme_unused;
      nvme_fresh = b.nvme_fresh;
      nvme_budget = b.nvme_budget;
      ram_fits = omega (arith, b.ram_kept, b.ram_available);
      vram_fits = omega (arith, b.vram_kept, b.vram_available);
      decided = (
        λ d. absurd (hybrid≢exceeded (sym b.undecided ∙ d)),
        λ more. absurd (omega (arith, b.all_placed enough)),
      );
    })
  ]

  hybrid_plan-IsSafe : IsSafe host req (hybrid_plan req (empty_plan host req))
  unfolding hybrid_plan
  hybrid_plan-IsSafe =
      assign_cold-IsSafe _ (decide_hybrid-IsHotSafe _ (allocated-IsBalanced host req w))

  make_plan-IsSafe :
      (bandwidth : Option String)
      → total_hot req < u64_mod
      → IsSafe host req (make_plan host bandwidth req)
  unfolding make_plan
  make_plan-IsSafe bandwidth small = elim (Bool-cases (leb (hot_bytes req) (usable_ram host req))) [
    | inl fits ↦
        let within : total_hot req ≤ usable_ram host req =
          omega (arith, leb→le _ _ fits, hot_bytes_exact req small) in
        rw fits (cpu_only_plan-IsSafe bandwidth within)
    | inr big ↦ elim (Bool-cases (req.allow_acceleration && ltb 0 (best_vram host))) [
      | inl accelerated ↦ rw (big, accelerated) hybrid_plan-IsSafe
      | inr bare ↦ rw (big, bare) exceeded_plan-IsSafe
    ]
  ]

-- If the host's figures and the request's cold bytes are 64-bit words and the hot working set does
-- not pass 2^64, then in every plan that `Build` returns the counter of each tier is the sum over
-- the classes placed on it, no tier is assigned more than it has, RAM and VRAM have what the host
-- leaves, and the decision is `capacity_exceeded` exactly if some hot bytes are on no tier.
pub build-IsSafe :
    (host : HostProfile) (bandwidth : Option String) (req : Request) (plan : Plan)
    → IsWordHost host
    → req.cold_bytes < u64_mod
    → total_hot req < u64_mod
    → build host bandwidth req ≡ ok plan
    → IsSafe host req plan
build-IsSafe host bandwidth req plan w cold_word small h =
    let (valid, e) = build-cases host bandwidth req h in
    rw e (make_plan-IsSafe host req w valid cold_word bandwidth small)

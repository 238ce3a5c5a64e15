-- ===== src/Placement/Decisions.antt =====
-- Which decision `Build` (internal/placement/placement.go) takes, and what its 64-bit sum of the
-- hot working set does to that decision.
use quantum_runtime.Prelude.{
  ℕ, ◌+◌, ◌/◌, ◌≤◌, ◌<◌, ◌≡◌, sym, ◌∙◌, ap, ◌≢◌, ◌↔◌, inl, inr, String, List, [], ◌∷◌, ◌==◌, nat_eq,
  leb, ltb, if◌then◌else◌, arith, Option, ok, Bool-cases, All,
}
use quantum_runtime.Prelude.Words.{u64, u64_mod}
use quantum_runtime.Host.Profile.{HostProfile, AcceleratorProfile}
use quantum_runtime.Placement.Types.{
  ram, unplaced, Request, Plan, cpu_only, capacity_exceeded, fits_in_ram, tier_bytes,
}
use quantum_runtime.Placement.Allocate.{
  hot_classes, assign_each_to_ram, assign_hot_to_ram, assign_unplaced, assign_cold,
}
use quantum_runtime.Placement.Build.{
  two_gib, usable_ram, best_vram, best_vram_from, hot_bytes, empty_plan, warn_low_bandwidth,
  cpu_only_plan, decide_hybrid, hybrid_plan, exceeded_plan, make_plan, build,
}
use quantum_runtime.Placement.Steps.{
  total_hot, tier_bytes-assign_each_to_ram, assign_each_to_ram-SameFrame, append_each-SameFrame,
  assign_cold-ColdAssigned,
}
use quantum_runtime.Placement.Conservation.{
  IsValidRequest, IsValidRequest-validate_request, build-cases,
}
use quantum_runtime.Placement.Capacity.{
  IsWordHost, usable_ram_word, hot_bytes_exact, hot_bytes_wraps, allocated-IsBalanced,
}

-- `Build` returns a plan exactly for the requests with some model bytes whose cold bytes fit the
-- NVMe budget where the NVMe tier is enabled; for every other request it returns an error.
pub build-ok_iff :
    (host : HostProfile) (bandwidth : Option String) (req : Request)
    → ((plan : Plan) × (build host bandwidth req ≡ ok plan)) ↔ IsValidRequest req
unfolding build
build-ok_iff host bandwidth req = (
  λ (plan, h). (build-cases host bandwidth req h).0,
  λ valid. (make_plan host bandwidth req, rw (IsValidRequest-validate_request req valid)),
)

decision-warn_low_bandwidth :
    (bandwidth : Option String) (p : Plan)
    → ((warn_low_bandwidth bandwidth p).decision ≡ p.decision)
      × ((warn_low_bandwidth bandwidth p).classes ≡ p.classes)
unfolding warn_low_bandwidth
decision-warn_low_bandwidth bandwidth p = ground arith

module _ (req : Request) (valid : IsValidRequest req) where
  decision-assign_cold : (p : Plan) → (assign_cold req p).decision ≡ p.decision
  decision-assign_cold p = (assign_cold-ColdAssigned req p valid.cold_fits).cold_decision

  decision-cpu_only_plan :
      (bandwidth : Option String) (p : Plan) → (cpu_only_plan bandwidth req p).decision ≡ cpu_only
  unfolding cpu_only_plan assign_hot_to_ram
  decision-cpu_only_plan bandwidth p =
      let decided = record p { decision = cpu_only; reason = fits_in_ram } in
      (decision-warn_low_bandwidth bandwidth _).0
      ∙ decision-assign_cold _
      ∙ (assign_each_to_ram-SameFrame (hot_classes ram req) decided).decision_same

  decision-exceeded_plan : (p : Plan) → (exceeded_plan req p).decision ≡ capacity_exceeded
  unfolding exceeded_plan assign_unplaced
  decision-exceeded_plan p =
      decision-assign_cold _ ∙ (append_each-SameFrame (hot_classes unplaced req) _).decision_same

  decision-hybrid_plan :
      (host : HostProfile)
      → IsWordHost host
      → (hybrid_plan req (empty_plan host req)).decision ≢ cpu_only
  unfolding hybrid_plan decide_hybrid
  decision-hybrid_plan host w d =
      let e = sym (decision-assign_cold _) ∙ d in
      let b = allocated-IsBalanced host req w in ground (arith, b.undecided, e)

  tier_bytes-cpu_only_plan :
      (bandwidth : Option String) (host : HostProfile)
      → tier_bytes ram (cpu_only_plan bandwidth req (empty_plan host req)).classes ≡ total_hot req
  unfolding cpu_only_plan assign_hot_to_ram empty_plan tier_bytes
  tier_bytes-cpu_only_plan bandwidth host =
      let decided = record (empty_plan host req) { decision = cpu_only; reason = fits_in_ram } in
      let cs = hot_classes ram req in
      let p = assign_each_to_ram cs decided in
      omega (
        arith,
        ap (tier_bytes ram) (decision-warn_low_bandwidth bandwidth (assign_cold req p)).1,
        (assign_cold-ColdAssigned req p valid.cold_fits).cold_ram_bytes,
        tier_bytes-assign_each_to_ram ram cs decided,
      )

  -- The decision rests on the 64-bit sum.
  decision-make_plan :
      (host : HostProfile) (bandwidth : Option String)
      → IsWordHost host
      → ((make_plan host bandwidth req).decision ≡ cpu_only) ↔ (hot_bytes req ≤ usable_ram host req)
  unfolding make_plan
  decision-make_plan host bandwidth w =
      let p = empty_plan host req in
      ground (
        arith,
        decision-cpu_only_plan bandwidth p,
        decision-hybrid_plan host w,
        decision-exceeded_plan p,
      )

-- For a hot working set below 2^64 the plan is `cpu_only` exactly if the whole set fits the usable
-- RAM.
pub decision-cpu_only_iff :
    (host : HostProfile) (bandwidth : Option String) (req : Request) (plan : Plan)
    → IsWordHost host
    → total_hot req < u64_mod
    → build host bandwidth req ≡ ok plan
    → (plan.decision ≡ cpu_only) ↔ (total_hot req ≤ usable_ram host req)
decision-cpu_only_iff host bandwidth req plan w small h =
    let (valid, e) = build-cases host bandwidth req h in
    rw (e, ← hot_bytes_exact req small) (decision-make_plan req valid host bandwidth w)

cpu_only-make_plan :
    (req : Request) (host : HostProfile) (bandwidth : Option String)
    → hot_bytes req ≤ usable_ram host req
    → make_plan host bandwidth req ≡ cpu_only_plan bandwidth req (empty_plan host req)
unfolding make_plan
cpu_only-make_plan req host bandwidth fits =
    elim (Bool-cases (leb (hot_bytes req) (usable_ram host req))) [
      | inl yes_fits ↦ rw yes_fits
      | inr no_fit ↦ absurd (ground arith)
    ]

-- The 64-bit sum hides a working set that no RAM could hold: a valid request whose hot bytes pass
-- 2^64 but whose wrapped sum fits the usable RAM gets a `cpu_only` plan, although the bytes that the
-- plan places in RAM exceed the usable RAM.
pub build_overflow :
    (host : HostProfile) (bandwidth : Option String) (req : Request)
    → IsWordHost host
    → IsValidRequest req
    → u64_mod ≤ total_hot req
    → u64 (total_hot req) ≤ usable_ram host req
    → (plan : Plan) × (build host bandwidth req ≡ ok plan)
      × (plan.decision ≡ cpu_only)
      × (usable_ram host req < tier_bytes ram plan.classes)
build_overflow host bandwidth req w valid big fits =
    let fits' : hot_bytes req ≤ usable_ram host req = rw (hot_bytes_wraps req) fits in
    let (plan, h) = (build-ok_iff host bandwidth req).1 valid in
    let (_, e) = build-cases host bandwidth req h in
    (
      plan,
      h,
      rw e ((decision-make_plan req valid host bandwidth w).1 fits'),
      rw (e, cpu_only-make_plan req host bandwidth fits')
          (omega
            (arith, tier_bytes-cpu_only_plan req valid bandwidth host, usable_ram_word host req w)),
    )

best_vram_from_bounds :
    (accs : List AcceleratorProfile) (best : ℕ)
    → (best ≤ best_vram_from best accs)
      × All (λ (acc : AcceleratorProfile). acc.vram_bytes ≤ best_vram_from best accs) accs
unfolding best_vram_from
best_vram_from_bounds [] best = (omega arith, tt)
best_vram_from_bounds (acc ∷ accs) best =
    let (above, all) =
      best_vram_from_bounds accs (if ltb best acc.vram_bytes then acc.vram_bytes else best) in
    (ground (arith, above), (ground (arith, above), all))

best_vram_from_least :
    (accs : List AcceleratorProfile) (best m : ℕ)
    → best ≤ m
    → All (λ (acc : AcceleratorProfile). acc.vram_bytes ≤ m) accs
    → best_vram_from best accs ≤ m
unfolding best_vram_from
best_vram_from_least [] best m h all = h
best_vram_from_least (acc ∷ accs) best m h all =
    best_vram_from_least accs _ m (ground (arith, all.0)) all.1

-- The loop over the accelerators finds the largest VRAM: no accelerator has more, and every bound
-- on all of them bounds it.
pub best_vram-max :
    (host : HostProfile)
    → All (λ (acc : AcceleratorProfile). acc.vram_bytes ≤ best_vram host) host.accelerators
      × ((m : ℕ)
          → All (λ (acc : AcceleratorProfile). acc.vram_bytes ≤ m) host.accelerators
          → best_vram host ≤ m)
unfolding best_vram
best_vram-max host = (
  (best_vram_from_bounds host.accelerators 0).1,
  λ m all. best_vram_from_least host.accelerators 0 m (omega arith) all,
)

-- Without an explicit reserve, a plan that has any usable RAM leaves at least 2 GiB and at least a
-- fifth of the total memory out of it.
pub usable_ram-reserve :
    (host : HostProfile) (req : Request)
    → req.reserve_ram_bytes ≡ 0
    → 0 < usable_ram host req
    → let available =
        if host.memory.available_bytes == 0
        then host.memory.total_bytes
        else host.memory.available_bytes in
      (usable_ram host req + two_gib ≤ available)
      × (usable_ram host req + host.memory.total_bytes / 5 ≤ available)
unfolding usable_ram
usable_ram-reserve host req none_asked some_left = ground arith

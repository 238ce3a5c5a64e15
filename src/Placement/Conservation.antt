-- ===== src/Placement/Conservation.antt =====
-- The checks of a request, and where the bytes of a request stand in the plan that `Build`
-- (internal/placement/placement.go) returns.
use quantum_runtime.Prelude.{
  ◌+◌, ◌≤◌, ◌<◌, ◌≡◌, ap, true, String, nat_eq, arith, Option, ok, >>=-eq-ok,
}
use quantum_runtime.Host.Profile.{HostProfile}
use quantum_runtime.Placement.Types.{
  Class, model_weights, moe_experts, kv_cache, prefix_cache, projector, workspace,
  cold_weights_or_cache, ram, unplaced, Request, Plan, cpu_only, capacity_exceeded, fits_in_ram,
  no_accelerator, class_bytes,
}
use quantum_runtime.Placement.Allocate.{
  Allocation, allocate_whole, allocate_split, hot_classes, assign_each_to_ram, assign_hot_to_ram,
  append_each, assign_unplaced,
}
use quantum_runtime.Placement.Build.{
  validate_request, empty_plan, warn_low_bandwidth, cpu_only_plan, start_allocation, allocate_all,
  hybrid_requirements, decide_hybrid, hybrid_plan, exceeded_plan, make_plan, build,
}
use quantum_runtime.Placement.Ledger.{
  class_bytes-allocate_whole, class_bytes-allocate_split, of_class,
}
use quantum_runtime.Placement.Steps.{
  requested, class_bytes-hot_classes, class_bytes-assign_each_to_ram, class_bytes-append_each,
  class_bytes-assign_cold,
}

-- The checks of a request, as conditions on it.
pub record IsValidRequest (req : Request) : Type 0 where
  pub has_model : 0 < req.model_bytes
  pub cold_fits : req.allow_nvme_cold_tier ≡ true → req.cold_bytes ≤ req.nvme_budget_bytes

pub validate_request-IsValidRequest :
    (req : Request) → validate_request req ≡ ok tt → IsValidRequest req
unfolding validate_request
validate_request-IsValidRequest req h = ground arith

pub IsValidRequest-validate_request :
    (req : Request) → IsValidRequest req → validate_request req ≡ ok tt
unfolding validate_request
IsValidRequest-validate_request req v = ground arith

pub build-cases :
    (host : HostProfile) (bandwidth : Option String) (req : Request) {plan : Plan}
    → build host bandwidth req ≡ ok plan
    → IsValidRequest req × (plan ≡ make_plan host bandwidth req)
unfolding build
build-cases host bandwidth req h =
    let (done, valid, e) = >>=-eq-ok (validate_request req) _ h in
    (validate_request-IsValidRequest req valid, cc)

of_class_total :
    (k : Class) (req : Request)
    → of_class k model_weights req.model_bytes
        + of_class k moe_experts req.moe_expert_bytes
        + of_class k kv_cache req.kv_cache_bytes
        + of_class k prefix_cache req.prefix_cache_bytes
        + of_class k projector req.projector_bytes
        + of_class k workspace req.workspace_bytes
        + of_class k cold_weights_or_cache req.cold_bytes
      ≡ requested k req
unfolding requested
of_class_total model_weights req = omega arith
of_class_total _ req = omega arith

classes-decide_hybrid : (a : Allocation) → (decide_hybrid a).classes ≡ a.plan.classes
unfolding decide_hybrid
classes-decide_hybrid a = ground arith

module _ (k : Class) (req : Request) where
  class_bytes-allocate_all :
      (a : Allocation)
      → class_bytes k (allocate_all req a).plan.classes
          + of_class k cold_weights_or_cache req.cold_bytes
        ≡ class_bytes k a.plan.classes + requested k req
  unfolding allocate_all
  class_bytes-allocate_all a =
      let a1 = allocate_whole kv_cache req.kv_cache_bytes a in
      let a2 = allocate_whole projector req.projector_bytes a1 in
      let a3 = allocate_split model_weights req.model_bytes a2 in
      let a4 = allocate_split moe_experts req.moe_expert_bytes a3 in
      let a5 = allocate_whole prefix_cache req.prefix_cache_bytes a4 in
      omega (
        arith,
        class_bytes-allocate_whole k kv_cache req.kv_cache_bytes a,
        class_bytes-allocate_whole k projector req.projector_bytes a1,
        class_bytes-allocate_split k model_weights req.model_bytes a2,
        class_bytes-allocate_split k moe_experts req.moe_expert_bytes a3,
        class_bytes-allocate_whole k prefix_cache req.prefix_cache_bytes a4,
        class_bytes-allocate_whole k workspace req.workspace_bytes a5,
        of_class_total k req,
      )

  class_bytes-cpu_only_plan :
      (bandwidth : Option String) (p : Plan)
      → class_bytes k (cpu_only_plan bandwidth req p).classes
        ≡ class_bytes k p.classes + requested k req
  unfolding cpu_only_plan warn_low_bandwidth assign_hot_to_ram
  class_bytes-cpu_only_plan bandwidth p =
      let decided = record p { decision = cpu_only; reason = fits_in_ram } in
      ground (
        arith,
        class_bytes-assign_cold k req (assign_each_to_ram (hot_classes ram req) decided),
        class_bytes-assign_each_to_ram k (hot_classes ram req) decided,
        class_bytes-hot_classes k ram req,
      )

  class_bytes-exceeded_plan :
      (p : Plan)
      → class_bytes k (exceeded_plan req p).classes ≡ class_bytes k p.classes + requested k req
  unfolding exceeded_plan assign_unplaced
  class_bytes-exceeded_plan p =
      let decided = record p { decision = capacity_exceeded; reason = no_accelerator } in
      omega (
        arith,
        class_bytes-assign_cold k req (append_each (hot_classes unplaced req) decided),
        class_bytes-append_each k (hot_classes unplaced req) decided,
        class_bytes-hot_classes k unplaced req,
      )

  class_bytes-hybrid_plan :
      (p : Plan)
      → class_bytes k (hybrid_plan req p).classes ≡ class_bytes k p.classes + requested k req
  unfolding hybrid_plan
  class_bytes-hybrid_plan p =
      let a = allocate_all req (start_allocation p) in
      let d = decide_hybrid a in
      omega (
        arith,
        class_bytes-assign_cold k req (record d { requirements = hybrid_requirements req d }),
        ap (class_bytes k) (classes-decide_hybrid a),
        class_bytes-allocate_all (start_allocation p),
      )

  class_bytes-make_plan :
      (host : HostProfile) (bandwidth : Option String)
      → class_bytes k (make_plan host bandwidth req).classes ≡ requested k req
  unfolding make_plan empty_plan class_bytes
  class_bytes-make_plan host bandwidth =
      let p = empty_plan host req in
      ground (
        arith,
        class_bytes-cpu_only_plan bandwidth p,
        class_bytes-hybrid_plan p,
        class_bytes-exceeded_plan p,
      )

-- Every plan that `Build` returns lists, for each of the seven classes, placements that add up to
-- exactly the bytes that the request asks for in that class, on every branch.
pub build_conserves :
    (host : HostProfile) (bandwidth : Option String) (req : Request) (plan : Plan) (k : Class)
    → build host bandwidth req ≡ ok plan
    → class_bytes k plan.classes ≡ requested k req
build_conserves host bandwidth req plan k h =
    rw (build-cases host bandwidth req h).1 (class_bytes-make_plan k req host bandwidth)

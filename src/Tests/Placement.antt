-- ===== src/Tests/Placement.antt =====
-- Placement plans of a workstation.
use quantum_runtime.Prelude.{ℕ, ◌+◌, ◌/◌, ◌≤◌, ◌<◌, ◌≡◌, refl, ◌↔◌, true, none, ok, All, arith}
use quantum_runtime.Prelude.Words.{u64_mod, u64}
use quantum_runtime.Host.Profile.{AcceleratorProfile}
use quantum_runtime.Samples.{workstation}
use quantum_runtime.Placement.Types.{
  Request, Plan, cpu_only, kv_cache, ram, class_bytes, tier_bytes,
}
use quantum_runtime.Placement.Build.{
  validate_request, usable_ram, best_vram, make_plan, build, two_gib,
}
use quantum_runtime.Placement.Steps.{requested, total_hot}
use quantum_runtime.Placement.Capacity.{IsWordHost, IsSafe, build-IsSafe}
use quantum_runtime.Placement.Conservation.{IsValidRequest, build_conserves}
use quantum_runtime.Placement.Decisions.{
  build-ok_iff, decision-cpu_only_iff, build_overflow, best_vram-max, usable_ram-reserve,
}

-- 10 GiB of weights and 1 GiB of KV cache, which is more than the usable RAM, and 5 GiB on disk.
abbrev hybrid_request : Request
hybrid_request = record {
  model_bytes = 10737418240;
  moe_expert_bytes = 0;
  kv_cache_bytes = 1073741824;
  prefix_cache_bytes = 0;
  projector_bytes = 0;
  workspace_bytes = 0;
  cold_bytes = 5368709120;
  allow_acceleration = true;
  allow_nvme_cold_tier = true;
  nvme_budget_bytes = 10737418240;
  reserve_ram_bytes = 0;
}

abbrev hybrid : Plan
hybrid = make_plan workstation none hybrid_request

-- Two sizes whose sum wraps to 1 GiB.
abbrev wrapping_request : Request
wrapping_request = record hybrid_request {
  model_bytes = 18446744073709551615;
  kv_cache_bytes = 1073741825;
  cold_bytes = 0;
}

hybrid_built : build workstation none hybrid_request ≡ ok hybrid
unfolding build validate_request
hybrid_built = refl

workstation-IsWordHost : IsWordHost workstation
workstation-IsWordHost = record {
  total_word = omega arith;
  available_word = omega arith;
  vram_words = (omega arith, tt);
}

hybrid_small : total_hot hybrid_request < u64_mod
hybrid_small = omega arith

build-IsSafe_example : IsSafe workstation hybrid_request hybrid
build-IsSafe_example =
    build-IsSafe workstation none hybrid_request hybrid workstation-IsWordHost (omega arith)
      hybrid_small hybrid_built

build_conserves_example : class_bytes kv_cache hybrid.classes ≡ requested kv_cache hybrid_request
build_conserves_example =
    build_conserves workstation none hybrid_request hybrid kv_cache hybrid_built

build-ok_iff_example :
    ((plan : Plan) × (build workstation none hybrid_request ≡ ok plan))
    ↔ IsValidRequest hybrid_request
build-ok_iff_example = build-ok_iff workstation none hybrid_request

decision-cpu_only_iff_example :
    (hybrid.decision ≡ cpu_only)
    ↔ (total_hot hybrid_request ≤ usable_ram workstation hybrid_request)
decision-cpu_only_iff_example =
    decision-cpu_only_iff workstation none hybrid_request hybrid workstation-IsWordHost hybrid_small
      hybrid_built

abbrev wrapping_plan : Plan
wrapping_plan = make_plan workstation none wrapping_request

wrapping_built : build workstation none wrapping_request ≡ ok wrapping_plan
unfolding build validate_request
wrapping_built = refl

wrapping-IsValid : IsValidRequest wrapping_request
wrapping-IsValid =
    (build-ok_iff workstation none wrapping_request).0 (wrapping_plan, wrapping_built)

wrapping_big : u64_mod ≤ total_hot wrapping_request
wrapping_big = omega arith

wrapping_fits : u64 (total_hot wrapping_request) ≤ usable_ram workstation wrapping_request
unfolding usable_ram
wrapping_fits = omega arith

build_overflow_example :
    (plan : Plan) × (build workstation none wrapping_request ≡ ok plan)
    × (plan.decision ≡ cpu_only)
    × (usable_ram workstation wrapping_request < tier_bytes ram plan.classes)
build_overflow_example =
    build_overflow workstation none wrapping_request workstation-IsWordHost wrapping-IsValid
      wrapping_big wrapping_fits

best_vram-max_example :
    All
      (λ (acc : AcceleratorProfile). acc.vram_bytes ≤ best_vram workstation)
      workstation.accelerators
    × ((m : ℕ)
        → All (λ (acc : AcceleratorProfile). acc.vram_bytes ≤ m) workstation.accelerators
        → best_vram workstation ≤ m)
best_vram-max_example = best_vram-max workstation

some_usable : 0 < usable_ram workstation hybrid_request
unfolding usable_ram
some_usable = omega arith

usable_ram-reserve_example :
    (usable_ram workstation hybrid_request + two_gib ≤ 12884901888)
    × (usable_ram workstation hybrid_request + 17179869184 / 5 ≤ 12884901888)
usable_ram-reserve_example = usable_ram-reserve workstation hybrid_request refl some_usable

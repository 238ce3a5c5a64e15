-- ===== src/Tests/Benchmark.antt =====
-- The benchmark of twelve CPUs of which two are reserved.
use quantum_runtime.Prelude.{◌≡◌, refl, true, ok}
use quantum_runtime.Prelude.Int.{pos, ◌-ℤ◌}
use quantum_runtime.Samples.{guest_limits}
use quantum_runtime.Host.Limits.{validate_limits}
use quantum_runtime.Benchmark.{
  BenchmarkRequest, BenchmarkPlan, benchmark_plan, check_request, build_benchmark,
}
use quantum_runtime.Benchmark.Candidates.{IsWithinReserve, build_benchmark-IsWithinReserve}

abbrev reserving : BenchmarkRequest
reserving = record {
  core_budget = pos 8;
  reserve_system_cores = pos 2;
  minimum_workers = pos 0;
  include_full_host_comparison = true;
}

abbrev reserved_plan : BenchmarkPlan
reserved_plan = benchmark_plan guest_limits reserving

reserved_built : build_benchmark guest_limits reserving ≡ ok reserved_plan
unfolding build_benchmark check_request validate_limits ◌-ℤ◌
reserved_built = refl

build_benchmark-IsWithinReserve_example : IsWithinReserve guest_limits reserving reserved_plan
build_benchmark-IsWithinReserve_example =
    build_benchmark-IsWithinReserve guest_limits reserving reserved_plan reserved_built

-- ===== src/Benchmark.antt =====
-- The plan of a benchmark (internal/benchmarkplan/plan.go): which thread counts are measured. The two
-- fixed notes of a plan are left out.
pub mod Candidates
use quantum_runtime.Prelude.{
  String, List, [], ◌∷◌, Bool, true, false, ◌&&◌, ◌||◌, Result, ok, err, ◌>>=◌, ◌>>◌, fail_if,
  wrap_err, if◌then◌else◌,
}
use quantum_runtime.Prelude.Int.{ℤ, pos, ◌-ℤ◌, ltb_ℤ, leb_ℤ, eqb_ℤ}
use quantum_runtime.Prelude.Sorting.{sort}
use quantum_runtime.Host.Limits.{Limits, LimitsError, validate_limits}

abbrev pub schema_version : String
schema_version = "quantum.runtime/model-benchmark-plan/v1alpha1"

pub record BenchmarkRequest : Type 0 where
  pub core_budget : ℤ
  pub reserve_system_cores : ℤ
  pub minimum_workers : ℤ
  pub include_full_host_comparison : Bool

pub data Mode : Type 0 where
  production full_host_comparison : Mode

pub record Candidate : Type 0 where
  pub workers : ℤ
  pub mode : Mode

pub record BenchmarkPlan : Type 0 where
  pub schema : String
  pub effective_host_cpus : ℤ
  pub production_max_workers : ℤ
  pub reserved_system_cores : ℤ
  pub candidates : List Candidate

pub data BenchmarkError : Type 0 where
  limits_invalid : LimitsError → BenchmarkError
  cores_negative reserve_exhausts budget_exceeds : BenchmarkError

-- `effective - req.ReserveSystemCores`.
abbrev pub unreserved : Limits → BenchmarkRequest → ℤ
unreserved limits req = limits.effective_logical_cpus -ℤ req.reserve_system_cores

-- `productionMax` behind the core budget.
unfoldable pub production_max : Limits → BenchmarkRequest → ℤ
production_max limits req =
    if ltb_ℤ (pos 0) req.core_budget && ltb_ℤ req.core_budget (unreserved limits req)
    then req.core_budget
    else unreserved limits req

unfoldable pub minimum_workers_of : ℤ → BenchmarkRequest → ℤ
minimum_workers_of max req =
    let minimum = if eqb_ℤ req.minimum_workers (pos 0) then pos 4 else req.minimum_workers in
    if ltb_ℤ max minimum then max else minimum

abbrev pub canonical : List ℤ
canonical =
    pos 1
    ∷ pos 2
    ∷ pos 4
    ∷ pos 8
    ∷ pos 12
    ∷ pos 16
    ∷ pos 20
    ∷ pos 24
    ∷ pos 32
    ∷ pos 48
    ∷ pos 64
    ∷ pos 96
    ∷ pos 128
    ∷ pos 192
    ∷ []

abbrev pub candidate : ℤ → Mode → Candidate
candidate workers mode = record { workers = workers; mode = mode }

-- `set[workers] = mode`, which overwrites.
unfoldable pub set_mode : ℤ → Mode → List Candidate → List Candidate
set_mode w mode [] = candidate w mode ∷ []
set_mode w mode (c ∷ cs) =
    let rest = set_mode w mode cs in if eqb_ℤ c.workers w then candidate w mode ∷ cs else c ∷ rest

-- The loop over the canonical counts.
unfoldable pub add_canonical : ℤ → ℤ → List ℤ → List Candidate → List Candidate
add_canonical minimum max [] set = set
add_canonical minimum max (w ∷ ws) set =
    add_canonical minimum max ws
      (if leb_ℤ minimum w && leb_ℤ w max then set_mode w production set else set)

unfoldable pub candidate_set : ℤ → ℤ → BenchmarkRequest → List Candidate
candidate_set effective max req =
    let set =
      set_mode max production (add_canonical (minimum_workers_of max req) max canonical []) in
    if req.include_full_host_comparison && ltb_ℤ max effective
    then set_mode effective full_host_comparison set
    else set

abbrev pub workers_leb : Candidate → Candidate → Bool
workers_leb a b = leb_ℤ a.workers b.workers

unfoldable pub benchmark_plan : Limits → BenchmarkRequest → BenchmarkPlan
benchmark_plan limits req = record {
  schema = schema_version;
  effective_host_cpus = limits.effective_logical_cpus;
  production_max_workers = production_max limits req;
  reserved_system_cores = req.reserve_system_cores;
  candidates =
      sort workers_leb
        (candidate_set limits.effective_logical_cpus (production_max limits req) req);
}

-- The early returns of `Build`.
unfoldable pub check_request : Limits → BenchmarkRequest → Result BenchmarkError (Unit {0})
check_request limits req = do
  wrap_err limits_invalid (validate_limits limits)
  fail_if
      (ltb_ℤ req.core_budget (pos 0)
        || ltb_ℤ req.reserve_system_cores (pos 0)
        || ltb_ℤ req.minimum_workers (pos 0))
      cores_negative
  fail_if (ltb_ℤ (unreserved limits req) (pos 1)) reserve_exhausts
  fail_if (ltb_ℤ (pos 0) req.core_budget && ltb_ℤ limits.effective_logical_cpus req.core_budget)
      budget_exceeds

-- `Build`.
unfoldable pub build_benchmark : Limits → BenchmarkRequest → Result BenchmarkError BenchmarkPlan
build_benchmark limits req = do check_request limits req; ok (benchmark_plan limits req)

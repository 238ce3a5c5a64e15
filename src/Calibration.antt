-- ===== src/Calibration.antt =====
-- The calibration of the host's memory (internal/calibration/calibration.go): the worker counts that
-- are tried, the loop over them, and the class of a bandwidth. What a measurement yields, a run of
-- threads against the clock, is a parameter, and so is the count of CPUs that the Go runtime reports;
-- the two times of the result are left out.
pub mod Workers
pub mod Best
use Prim.Native.Nat.{min, max}
use quantum_runtime.Prelude.{
  ℕ, ◌+◌, ◌*◌, ◌/◌, String, List, [], ◌∷◌, ◌++◌, Bool, true, false, ltb, leb, ◌==◌, nat_eq,
  if◌then◌else◌, length, contains,
}
use quantum_runtime.Prelude.Int.{ℤ, pos, pos_part, ltb_ℤ, leb_ℤ}
use quantum_runtime.Prelude.Words.{u64}
use quantum_runtime.Prelude.Sorting.{sort}
use quantum_runtime.Host.Profile.{HostProfile}

abbrev pub schema_version : String
schema_version = "quantum.runtime/host-calibration/v1alpha1"

pub record Sample : Type 0 where
  pub workers : ℕ
  pub copy_rate : ℕ
  pub read_rate : ℕ

pub record CalibrationResult : Type 0 where
  pub schema : String
  pub best_workers : ℕ
  pub copy_rate : ℕ
  pub read_rate : ℕ
  pub bandwidth_class : String
  pub samples : List Sample
  pub checksum : ℕ

-- `set[n] = struct{}{}`.
unfoldable pub add_size : ℕ → List ℕ → List ℕ
add_size n set = if contains set n then set else n ∷ set

abbrev pub worker_sizes : List ℕ
worker_sizes = 2 ∷ 4 ∷ 8 ∷ 16 ∷ 32 ∷ 64 ∷ []

-- The loop over the sizes.
unfoldable pub add_sizes : ℕ → List ℕ → List ℕ → List ℕ
add_sizes physical [] set = set
add_sizes physical (n ∷ ns) set =
    add_sizes physical ns (if leb n physical then add_size n set else set)

-- The two clamps of `workerCandidates`.
abbrev pub physical_workers : ℤ → ℕ
physical_workers physical = if ltb_ℤ physical (pos 1) then 1 else pos_part physical

abbrev pub logical_workers : ℤ → ℤ → ℕ
logical_workers physical logical =
    if ltb_ℤ logical (pos (physical_workers physical))
    then physical_workers physical
    else pos_part logical

unfoldable pub worker_set : ℕ → ℕ → List ℕ
worker_set physical logical =
    let set = add_size physical (add_sizes physical worker_sizes (1 ∷ [])) in
    if ltb physical logical then add_size logical set else set

unfoldable pub worker_candidates : ℤ → ℤ → List ℕ
worker_candidates physical logical =
    sort leb (worker_set (physical_workers physical) (logical_workers physical logical))

unfoldable pub classify_bandwidth : ℕ → String
classify_bandwidth rate =
    if leb (100 * 1073741824) rate
    then "very_high"
    else if leb (50 * 1073741824) rate
    then "high"
    else if leb (20 * 1073741824) rate
    then "medium"
    else if ltb 0 rate
    then "low"
    else "unknown"

-- What `measureParallelCopy` and `measureParallelRead` return, and whether the context has ended
-- after them.
pub record Measurement : Type 0 where
  pub copied : ℕ
  pub read : ℕ
  pub sum : ℕ
  pub cancelled : Bool

-- The result with the variable bestScore of `Run`.
pub record Progress : Type 0 where
  pub best_score : ℕ
  pub result : CalibrationResult

abbrev pub sample_of : ℕ → Measurement → Sample
sample_of workers m = record { workers = workers; copy_rate = m.copied; read_rate = m.read }

abbrev pub score : Sample → ℕ
score s = min s.copy_rate s.read_rate

-- `result.Samples = append(...)` and `result.Checksum += checksum`, which wraps.
abbrev pub append_sample : Sample → ℕ → CalibrationResult → CalibrationResult
append_sample s sum r = record r {
  samples = r.samples ++ s ∷ [];
  checksum = u64 (r.checksum + sum);
}

-- The body of the loop of `Run`.
unfoldable pub record_sample : ℕ → Measurement → Progress → Progress
record_sample workers m p =
    let s = sample_of workers m in
    let appended = append_sample s m.sum p.result in
    if ltb p.best_score (score s)
    then record {
      best_score = score s;
      result = record appended { best_workers = workers; copy_rate = m.copied; read_rate = m.read };
    }
    else record p { result = appended }

unfoldable pub run_samples : (ℕ → Measurement) → List ℕ → Progress → Progress
run_samples measure [] p = p
run_samples measure (w ∷ ws) p =
    let p' = record_sample w (measure w) p in
    let rest = run_samples measure ws p' in if (measure w).cancelled then p' else rest

-- The budget in nanoseconds: 250 ms by default, and at most two seconds.
unfoldable pub budget_within : ℤ → ℕ
budget_within budget =
    if leb_ℤ budget (pos 0)
    then 250000000
    else if ltb_ℤ (pos 2000000000) budget
    then 2000000000
    else pos_part budget

unfoldable pub per_sample : ℕ → ℕ → ℕ
per_sample budget count =
    let share = budget / count in if ltb share 20000000 then 20000000 else share

abbrev pub or_num_cpu : ℤ → ℤ → ℤ
or_num_cpu num_cpu cores = if leb_ℤ cores (pos 0) then num_cpu else cores

abbrev pub start : Progress
start = record {
  best_score = 0;
  result = record {
    schema = schema_version;
    best_workers = 0;
    copy_rate = 0;
    read_rate = 0;
    bandwidth_class = "";
    samples = [];
    checksum = 0;
  };
}

-- `Run`: `measure workers budget` is the measurement with so many workers and half the sample's
-- budget for each of its two parts.
unfoldable pub run : ℤ → (ℕ → ℕ → Measurement) → HostProfile → ℤ → CalibrationResult
run num_cpu measure host budget =
    let physical = or_num_cpu num_cpu host.cpu.physical_cores in
    let logical = or_num_cpu num_cpu host.cpu.logical_cores in
    let candidates = worker_candidates physical logical in
    let part = per_sample (budget_within budget) (length candidates) / 2 in
    let r = (run_samples (λ w. measure w part) candidates start).result in
    record r { bandwidth_class = classify_bandwidth (max r.copy_rate r.read_rate) }

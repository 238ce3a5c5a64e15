-- ===== src/Tests/Calibration.antt =====
-- A calibration of a host with six physical and twelve logical cores.
use mathlib.Core.List.{Memᴰ}
use quantum_runtime.Prelude.{ℕ, ◌*◌, ◌≤◌, false, All, if◌then◌else◌, ltb}
use quantum_runtime.Prelude.Int.{pos}
use quantum_runtime.Samples.{workstation}
use quantum_runtime.Calibration.{
  Measurement, physical_workers, logical_workers, worker_candidates, run,
}
use quantum_runtime.Calibration.Workers.{worker_candidates-bounds}
use quantum_runtime.Calibration.Best.{IsBest, run-IsBest}

-- The rate grows with the workers up to eight of them and is halved above.
abbrev measure : ℕ → ℕ → Measurement
measure workers budget = record {
  copied = if ltb 8 workers then 4294967296 else workers * 1073741824;
  read = if ltb 8 workers then 4294967296 else workers * 2147483648;
  sum = workers;
  cancelled = false;
}

run-IsBest_example : IsBest (run (pos 4) measure workstation (pos 0))
run-IsBest_example = run-IsBest (pos 4) measure workstation (pos 0)

worker_candidates-bounds_example :
    All (λ n. (1 ≤ n) × (n ≤ logical_workers (pos 6) (pos 12))) (worker_candidates (pos 6) (pos 12))
    × Memᴰ (physical_workers (pos 6)) (worker_candidates (pos 6) (pos 12))
    × Memᴰ (logical_workers (pos 6) (pos 12)) (worker_candidates (pos 6) (pos 12))
worker_candidates-bounds_example = worker_candidates-bounds (pos 6) (pos 12)

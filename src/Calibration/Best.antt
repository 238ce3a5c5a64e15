-- ===== src/Calibration/Best.antt =====
-- What the loop of `Run` (internal/calibration/calibration.go) reports as the best.
use mathlib.Core.List.{Memᴰ}
use quantum_runtime.Prelude.{
  ℕ, ◌≤◌, ◌≡◌, refl, List, [], ◌∷◌, ltb, ◌⊎◌, inl, inr, All, All-mono, All-append, Bool-cases,
  Memᴰ-append_left, Memᴰ-append_right, arith,
}
use quantum_runtime.Prelude.Int.{ℤ}
use quantum_runtime.Host.Profile.{HostProfile}
use quantum_runtime.Calibration.{
  Sample, CalibrationResult, Measurement, Progress, sample_of, score, record_sample, run_samples,
  start, run,
}

-- The sample that the best figures of a result stand for.
abbrev pub best_sample : CalibrationResult → Sample
best_sample r = record {
  workers = r.best_workers;
  copy_rate = r.copy_rate;
  read_rate = r.read_rate;
}

-- No sample scores above the best, and the best is one of the samples unless its score is 0.
pub record IsBest (r : CalibrationResult) : Type 0 where
  pub bounds : All (λ s. score s ≤ score (best_sample r)) r.samples
  pub sampled : (score (best_sample r) ≡ 0) ⊎ Memᴰ (best_sample r) r.samples

pub record IsTracked (p : Progress) : Type 0 where
  pub tracked : p.best_score ≡ score (best_sample p.result)
  pub best : IsBest p.result

record_sample-IsTracked :
    (workers : ℕ) (m : Measurement) (p : Progress)
    → IsTracked p
    → IsTracked (record_sample workers m p)
unfolding record_sample
record_sample-IsTracked workers m p h =
    let s = sample_of workers m in
    elim (Bool-cases (ltb p.best_score (score s))) [
      | inl e ↦ rw e (record {
        tracked = refl;
        best = record {
          bounds =
              All-append _ p.result.samples (s ∷ [])
                (All-mono p.result.samples (λ x below. ground (arith, below, h.tracked, e))
                  h.best.bounds)
                (omega arith, tt);
          sampled = inr (Memᴰ-append_right p.result.samples (Memᴰ.head refl));
        };
      })
      | inr e ↦ rw e (record {
        tracked = h.tracked;
        best = record {
          bounds =
              All-append _ p.result.samples (s ∷ []) h.best.bounds
                (ground (arith, h.tracked, e), tt);
          sampled = elim h.best.sampled [
            | inl none_scored ↦ inl none_scored
            | inr m ↦ inr (Memᴰ-append_left (s ∷ []) m)
          ];
        };
      })
    ]

run_samples-IsTracked :
    (measure : ℕ → Measurement) (ws : List ℕ) (p : Progress)
    → IsTracked p
    → IsTracked (run_samples measure ws p)
unfolding run_samples record_sample
run_samples-IsTracked measure [] p h = h
run_samples-IsTracked measure (w ∷ ws) p h =
    let h' = record_sample-IsTracked w (measure w) p h in
    elim (Bool-cases ((measure w).cancelled)) [
      | inl e ↦ rw e h'
      | inr e ↦ rw e (run_samples-IsTracked measure ws (record_sample w (measure w) p) h')
    ]

start-IsTracked : IsTracked start
start-IsTracked = record { tracked = refl; best = record { bounds = tt; sampled = inl refl } }

-- Whatever is measured, and wherever the run is cancelled: no sample of the result of `Run` has both
-- rates above the smaller of the two that the result reports, and the reported workers and rates are
-- those of one of its samples unless the smaller reported rate is 0.
pub run-IsBest :
    (num_cpu : ℤ) (measure : ℕ → ℕ → Measurement) (host : HostProfile) (budget : ℤ)
    → IsBest (run num_cpu measure host budget)
unfolding run
run-IsBest num_cpu measure host budget =
    let tracked = run_samples-IsTracked _ _ start start-IsTracked in
    record { bounds = tracked.best.bounds; sampled = tracked.best.sampled }

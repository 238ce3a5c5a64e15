-- ===== src/Benchmark/Candidates.antt =====
-- Which thread counts a benchmark plan (internal/benchmarkplan/plan.go) holds.
use mathlib.Core.List.{Memᴰ}
use quantum_runtime.Prelude.{
  ◌≡◌, refl, sym, List, [], ◌∷◌, Bool, false, ◌&&◌, ok, >>-ok, ok_injective, inl, inr, All,
  Memᴰ-cons, subst, Bool-cases, arith,
}
use quantum_runtime.Prelude.Int.{ℤ, pos, ◌≤ℤ◌, ltb_ℤ, leb_ℤ, eqb_ℤ}
use quantum_runtime.Prelude.Sorting.{All-sort, Memᴰ-sort_iff}
use quantum_runtime.Host.Limits.{Limits}
use quantum_runtime.Benchmark.{
  BenchmarkRequest, Mode, production, full_host_comparison, Candidate, BenchmarkPlan, unreserved,
  production_max, minimum_workers_of, canonical, candidate, set_mode, add_canonical, candidate_set,
  workers_leb, benchmark_plan, check_request, build_benchmark,
}

-- The most workers that a candidate may have by its mode.
abbrev pub mode_max : ℤ → ℤ → Mode → ℤ
mode_max effective max production = max
mode_max effective max full_host_comparison = effective

-- At least one worker, and at most what the mode allows.
abbrev pub IsAllowed : ℤ → ℤ → Candidate → Type 0
IsAllowed effective max c = (pos 1 ≤ℤ c.workers) × (c.workers ≤ℤ mode_max effective max c.mode)

module _ (P : Candidate → Type 0) where
  set_mode-All :
      (w : ℤ) (mode : Mode) (set : List Candidate)
      → P (candidate w mode)
      → All P set
      → All P (set_mode w mode set)
  unfolding set_mode
  set_mode-All w mode [] p h = (p, tt)
  set_mode-All w mode (c ∷ cs) p h = elim (Bool-cases (eqb_ℤ c.workers w)) [
    | inl e ↦ rw e (p, h.1)
    | inr e ↦ rw e (h.0, set_mode-All w mode cs p h.1)
  ]

set_mode-Memᴰ :
    (w : ℤ) (mode : Mode) (set : List Candidate) → Memᴰ (candidate w mode) (set_mode w mode set)
unfolding set_mode
set_mode-Memᴰ w mode [] = Memᴰ.head refl
set_mode-Memᴰ w mode (c ∷ cs) = elim (Bool-cases (eqb_ℤ c.workers w)) [
  | inl e ↦ rw e (Memᴰ.head refl)
  | inr e ↦ rw e (Memᴰ.tail (set_mode-Memᴰ w mode cs))
]

set_mode-keeps :
    (w : ℤ) (mode : Mode) (c : Candidate) (set : List Candidate)
    → eqb_ℤ c.workers w ≡ false
    → Memᴰ c set
    → Memᴰ c (set_mode w mode set)
unfolding set_mode
set_mode-keeps w mode c [] other m = elim m [ ]
set_mode-keeps w mode c (x ∷ xs) other m = elim (Memᴰ-cons m) [
  | inl same ↦
      let other' = subst (λ (y : Candidate). eqb_ℤ y.workers w ≡ false) same other in
      rw other' (Memᴰ.head same)
  | inr rest ↦ elim (Bool-cases (eqb_ℤ x.workers w)) [
    | inl e ↦ rw e (Memᴰ.tail rest)
    | inr e ↦ rw e (Memᴰ.tail (set_mode-keeps w mode c xs other rest))
  ]
]

module _ (limits : Limits) (req : BenchmarkRequest) where
  abbrev is_budgeted : Bool
  is_budgeted = ltb_ℤ (pos 0) req.core_budget && ltb_ℤ req.core_budget (unreserved limits req)

  production_max-positive : pos 1 ≤ℤ unreserved limits req → pos 1 ≤ℤ production_max limits req
  unfolding production_max
  production_max-positive h = elim (Bool-cases is_budgeted) [
    | inl e ↦ rw e (ground arith)
    | inr e ↦ rw e h
  ]

  production_max-reserve : production_max limits req ≤ℤ unreserved limits req
  unfolding production_max
  production_max-reserve = elim (Bool-cases is_budgeted) [
    | inl e ↦ rw e (ground arith)
    | inr e ↦ rw e (ground arith)
  ]

  production_max-budget : pos 1 ≤ℤ req.core_budget → production_max limits req ≤ℤ req.core_budget
  unfolding production_max
  production_max-budget h = elim (Bool-cases is_budgeted) [
    | inl e ↦ rw e (ground arith)
    | inr e ↦ rw e (ground arith)
  ]

add_canonical-All :
    (effective minimum max : ℤ) (ws : List ℤ) (set : List Candidate)
    → All (λ w. pos 1 ≤ℤ w) ws
    → All (IsAllowed effective max) set
    → All (IsAllowed effective max) (add_canonical minimum max ws set)
unfolding add_canonical
add_canonical-All effective minimum max [] set k h = h
add_canonical-All effective minimum max (w ∷ ws) set k h =
    elim (Bool-cases (leb_ℤ minimum w && leb_ℤ w max)) [
      | inl e ↦
          let added =
            set_mode-All (IsAllowed effective max) w production set (k.0, ground arith) h in
          rw e (add_canonical-All effective minimum max ws (set_mode w production set) k.1 added)
      | inr e ↦ rw e (add_canonical-All effective minimum max ws set k.1 h)
    ]

canonical-positive : All (λ w. pos 1 ≤ℤ w) canonical
canonical-positive = ground arith

module _ (effective max : ℤ) (req : BenchmarkRequest) (some_core : pos 1 ≤ℤ max) where
  candidate_set-All : All (IsAllowed effective max) (candidate_set effective max req)
  unfolding candidate_set
  candidate_set-All =
      let base = add_canonical (minimum_workers_of max req) max canonical [] in
      let counted =
        add_canonical-All effective (minimum_workers_of max req) max canonical [] canonical-positive
          tt in
      let with_max =
        set_mode-All (IsAllowed effective max) max production base (some_core, ground arith)
          counted in
      elim (Bool-cases (req.include_full_host_comparison && ltb_ℤ max effective)) [
        | inl e ↦ rw e (
            set_mode-All (IsAllowed effective max) effective full_host_comparison
              (set_mode max production base) (ground (arith, some_core), ground arith) with_max)
        | inr e ↦ rw e with_max
      ]

  candidate_set-max : Memᴰ (candidate max production) (candidate_set effective max req)
  unfolding candidate_set
  candidate_set-max =
      let base = add_canonical (minimum_workers_of max req) max canonical [] in
      let here = set_mode-Memᴰ max production base in
      elim (Bool-cases (req.include_full_host_comparison && ltb_ℤ max effective)) [
        | inl e ↦ rw e (
            set_mode-keeps effective full_host_comparison (candidate max production)
              (set_mode max production base) (ground arith) here)
        | inr e ↦ rw e here
      ]

-- What a plan of a benchmark promises.
pub record IsWithinReserve (limits : Limits) (req : BenchmarkRequest) (plan : BenchmarkPlan)
    : Type 0 where
  pub some_core : pos 1 ≤ℤ plan.production_max_workers
  pub within_reserve : plan.production_max_workers ≤ℤ unreserved limits req
  pub within_budget : pos 1 ≤ℤ req.core_budget → plan.production_max_workers ≤ℤ req.core_budget
  pub allowed :
      All (IsAllowed limits.effective_logical_cpus plan.production_max_workers) plan.candidates
  pub measures_max : Memᴰ (candidate plan.production_max_workers production) plan.candidates

benchmark_plan-IsWithinReserve :
    (limits : Limits) (req : BenchmarkRequest)
    → pos 1 ≤ℤ unreserved limits req
    → IsWithinReserve limits req (benchmark_plan limits req)
unfolding benchmark_plan
benchmark_plan-IsWithinReserve limits req some_left =
    let effective = limits.effective_logical_cpus in
    let max = production_max limits req in
    let some_core = production_max-positive limits req some_left in
    record {
      some_core = some_core;
      within_reserve = production_max-reserve limits req;
      within_budget = production_max-budget limits req;
      allowed =
          All-sort workers_leb (IsAllowed effective max) (candidate_set effective max req)
            (candidate_set-All effective max req some_core);
      measures_max =
          (Memᴰ-sort_iff workers_leb (candidate max production) (candidate_set effective max req)).1
            (candidate_set-max effective max req some_core);
    }

build_benchmark-cases :
    (limits : Limits) (req : BenchmarkRequest) (plan : BenchmarkPlan)
    → build_benchmark limits req ≡ ok plan
    → (pos 1 ≤ℤ unreserved limits req) × (plan ≡ benchmark_plan limits req)
unfolding build_benchmark check_request
build_benchmark-cases limits req plan h =
    let (checked, made) = >>-ok (check_request limits req) (ok (benchmark_plan limits req)) h in
    (ground arith, sym (ok_injective made))

-- In every plan that `Build` returns there is a production maximum of at least one worker, which
-- leaves the reserved cores free and is within the core budget where one is given; each production
-- candidate is within it, each comparison candidate within the effective CPUs, all have at least one
-- worker, and the production maximum is itself measured.
pub build_benchmark-IsWithinReserve :
    (limits : Limits) (req : BenchmarkRequest) (plan : BenchmarkPlan)
    → build_benchmark limits req ≡ ok plan
    → IsWithinReserve limits req plan
build_benchmark-IsWithinReserve limits req plan h =
    let (some_left, same) = build_benchmark-cases limits req plan h in
    subst (IsWithinReserve limits req) (sym same)
      (benchmark_plan-IsWithinReserve limits req some_left)

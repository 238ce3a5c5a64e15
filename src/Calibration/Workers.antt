-- ===== src/Calibration/Workers.antt =====
-- Which worker counts `workerCandidates` (internal/calibration/calibration.go) offers.
use mathlib.Core.List.{Memᴰ}
use quantum_runtime.Prelude.{
  ℕ, ◌≤◌, ◌≡◌, refl, List, [], ◌∷◌, true, ltb, leb, ◌==◌, nat_eq, contains, inl, inr, All, All-mono,
  subst, Bool-cases, arith,
}
use quantum_runtime.Prelude.Int.{ℤ}
use quantum_runtime.Prelude.Sorting.{All-sort, Memᴰ-sort_iff}
use quantum_runtime.Calibration.{
  add_size, worker_sizes, add_sizes, physical_workers, logical_workers, worker_set,
  worker_candidates,
}

contains-Memᴰ : (set : List ℕ) (n : ℕ) → contains set n ≡ true → Memᴰ n set
unfolding contains
contains-Memᴰ [] n h = cc
contains-Memᴰ (x ∷ xs) n h = elim (Bool-cases (x == n)) [
  | inl e ↦ Memᴰ.head (ground arith)
  | inr e ↦ Memᴰ.tail (contains-Memᴰ xs n (ground arith))
]

add_size-Memᴰ : (n : ℕ) (set : List ℕ) → Memᴰ n (add_size n set)
unfolding add_size
add_size-Memᴰ n set = elim (Bool-cases (contains set n)) [
  | inl e ↦ rw e (contains-Memᴰ set n e)
  | inr e ↦ rw e (Memᴰ.head refl)
]

add_size-keeps : (m n : ℕ) (set : List ℕ) → Memᴰ m set → Memᴰ m (add_size n set)
unfolding add_size
add_size-keeps m n set h = elim (Bool-cases (contains set n)) [
  | inl e ↦ rw e h
  | inr e ↦ rw e (Memᴰ.tail h)
]

module _ (P : ℕ → Type 0) where
  add_size-All : (n : ℕ) (set : List ℕ) → P n → All P set → All P (add_size n set)
  unfolding add_size
  add_size-All n set p h = elim (Bool-cases (contains set n)) [
    | inl e ↦ rw e h
    | inr e ↦ rw e (p, h)
  ]

-- The sizes that pass the test are positive and at most the physical cores.
add_sizes-All :
    (physical : ℕ) (ns set : List ℕ)
    → All (λ n. 1 ≤ n) ns
    → All (λ n. (1 ≤ n) × (n ≤ physical)) set
    → All (λ n. (1 ≤ n) × (n ≤ physical)) (add_sizes physical ns set)
unfolding add_sizes
add_sizes-All physical [] set k h = h
add_sizes-All physical (n ∷ ns) set k h = elim (Bool-cases (leb n physical)) [
  | inl e ↦
      let added = add_size-All (λ n. (1 ≤ n) × (n ≤ physical)) n set (k.0, ground arith) h in
      rw e (add_sizes-All physical ns (add_size n set) k.1 added)
  | inr e ↦ rw e (add_sizes-All physical ns set k.1 h)
]

≤-trans : {a b c : ℕ} → a ≤ b → b ≤ c → a ≤ c
≤-trans h k = omega arith

-- A worker count from 1 to the bound.
abbrev IsWithin : ℕ → ℕ → Type 0
IsWithin bound n = (1 ≤ n) × (n ≤ bound)

worker_sizes-positive : All (λ n. 1 ≤ n) worker_sizes
worker_sizes-positive =
    (omega arith, (omega arith, (omega arith, (omega arith, (omega arith, (omega arith, tt))))))

worker_set-All :
    (physical logical : ℕ)
    → 1 ≤ physical
    → physical ≤ logical
    → All (λ n. (1 ≤ n) × (n ≤ logical)) (worker_set physical logical)
unfolding worker_set
worker_set-All physical logical some_core below =
    let top : IsWithin logical logical = (≤-trans some_core below, omega arith) in
    let sizes = add_sizes physical worker_sizes (1 ∷ []) in
    let within =
      add_sizes-All physical worker_sizes (1 ∷ []) worker_sizes-positive
        ((omega arith, some_core), tt) in
    let wider = All-mono sizes (λ n (one, h). (one, ≤-trans h below)) within in
    let both = add_size-All (IsWithin logical) physical sizes (some_core, below) wider in
    elim (Bool-cases (ltb physical logical)) [
      | inl e ↦ rw e (add_size-All (IsWithin logical) logical (add_size physical sizes) top both)
      | inr e ↦ rw e both
    ]

worker_set-physical : (physical logical : ℕ) → Memᴰ physical (worker_set physical logical)
unfolding worker_set
worker_set-physical physical logical =
    let here = add_size-Memᴰ physical (add_sizes physical worker_sizes (1 ∷ [])) in
    elim (Bool-cases (ltb physical logical)) [
      | inl e ↦ rw e (add_size-keeps physical logical _ here)
      | inr e ↦ rw e here
    ]

worker_set-logical :
    (physical logical : ℕ) → physical ≤ logical → Memᴰ logical (worker_set physical logical)
unfolding worker_set
worker_set-logical physical logical below =
    let set = add_size physical (add_sizes physical worker_sizes (1 ∷ [])) in
    elim (Bool-cases (ltb physical logical)) [
      | inl e ↦ rw e (add_size-Memᴰ logical set)
      | inr e ↦
          let same : physical ≡ logical = ground arith in
          rw e (
            subst (λ n. Memᴰ n set) same
              (add_size-Memᴰ physical (add_sizes physical worker_sizes (1 ∷ []))))
    ]

clamped :
    (physical logical : ℤ)
    → (1 ≤ physical_workers physical)
      × (physical_workers physical ≤ logical_workers physical logical)
clamped physical logical = ground arith

-- Whatever the two core counts are, also if they are 0 or negative, each worker count that is tried
-- is at least 1 and at most the clamped logical cores, and the clamped physical and logical core
-- counts are both tried.
pub worker_candidates-bounds :
    (physical logical : ℤ)
    → All
        (λ n. (1 ≤ n) × (n ≤ logical_workers physical logical))
        (worker_candidates physical logical)
      × Memᴰ (physical_workers physical) (worker_candidates physical logical)
      × Memᴰ (logical_workers physical logical) (worker_candidates physical logical)
unfolding worker_candidates
worker_candidates-bounds physical logical =
    let p = physical_workers physical in
    let l = logical_workers physical logical in
    let (some_core, below) = clamped physical logical in
    (
      All-sort leb _ (worker_set p l) (worker_set-All p l some_core below),
      (Memᴰ-sort_iff leb p (worker_set p l)).1 (worker_set-physical p l),
      (Memᴰ-sort_iff leb l (worker_set p l)).1 (worker_set-logical p l below),
    )

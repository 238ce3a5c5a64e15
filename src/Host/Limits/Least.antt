-- ===== src/Host/Limits/Least.antt =====
-- What `positiveMin` (internal/hostlimits/limits.go) returns.
use mathlib.Core.List.{Memᴰ}
use quantum_runtime.Prelude.{
  ◌≡◌, refl, ◌⊎◌, inl, inr, List, [], ◌∷◌, filter, filter_sound, filter_complete, All, All-mono,
  All-at, Bool-cases, arith,
}
use quantum_runtime.Prelude.Int.{ℤ, pos, ◌≤ℤ◌, ltb_ℤ, leb_ℤ}
use quantum_runtime.Prelude.Sorting.{
  sort, insert_sorted, All-insert_sorted, All-sort, Memᴰ-sort_iff,
}
use quantum_runtime.Host.Limits.{positives, first_or_zero, positive_min}

-- No item is below the first.
abbrev IsLeast : List ℤ → Type 0
IsLeast vs = All (λ v. first_or_zero vs ≤ℤ v) vs

insert_sorted-first : (a : ℤ) (vs : List ℤ) → IsLeast vs → IsLeast (insert_sorted leb_ℤ a vs)
unfolding insert_sorted
insert_sorted-first a [] h = (ground arith, tt)
insert_sorted-first a (x ∷ xs) h = elim (Bool-cases (leb_ℤ a x)) [
  | inl e ↦
      rw e (ground arith, (ground arith, All-mono xs (λ y below. ground (arith, below, e)) h.1))
  | inr e ↦ rw e (ground arith, All-insert_sorted leb_ℤ (λ y. x ≤ℤ y) a xs (ground arith) h.1)
]

sort-first : (vs : List ℤ) → IsLeast (sort leb_ℤ vs)
unfolding sort
sort-first [] = tt
sort-first (v ∷ vs) = insert_sorted-first v (sort leb_ℤ vs) (sort-first vs)

first_or_zero-positive :
    (vs : List ℤ) (v : ℤ) → All (λ w. pos 1 ≤ℤ w) vs → Memᴰ v vs → pos 1 ≤ℤ first_or_zero vs
first_or_zero-positive [] v h m = elim m [ ]
first_or_zero-positive (x ∷ xs) v h m = h.0

first_or_zero-cases : (vs : List ℤ) → (first_or_zero vs ≡ pos 0) ⊎ Memᴰ (first_or_zero vs) vs
first_or_zero-cases [] = inl refl
first_or_zero-cases (x ∷ xs) = inr (Memᴰ.head refl)

positives-All : (vs : List ℤ) → All (λ w. pos 1 ≤ℤ w) (positives vs)
unfolding positives filter
positives-All [] = tt
positives-All (v ∷ vs) = elim (Bool-cases (ltb_ℤ (pos 0) v)) [
  | inl e ↦ rw e (ground arith, positives-All vs)
  | inr e ↦ rw e (positives-All vs)
]

-- `positiveMin` returns 0 or one of its arguments, and where some argument is positive it returns a
-- positive number that is at most each positive argument.
pub positive_min-least :
    (vs : List ℤ)
    → ((positive_min vs ≡ pos 0) ⊎ Memᴰ (positive_min vs) vs)
      × ((v : ℤ) → Memᴰ v vs → pos 1 ≤ℤ v → (pos 1 ≤ℤ positive_min vs) × (positive_min vs ≤ℤ v))
unfolding positive_min positives
positive_min-least vs =
    let test = λ (v : ℤ). ltb_ℤ (pos 0) v in
    let sorted = sort leb_ℤ (filter test vs) in
    (
      elim (first_or_zero-cases sorted) [
        | inl none_positive ↦ inl none_positive
        | inr m ↦
            let listed = (Memᴰ-sort_iff leb_ℤ (first_or_zero sorted) (filter test vs)).0 m in
            inr (filter_sound test (first_or_zero sorted) vs listed).0
      ],
      λ v m positive.
          let kept = filter_complete test v vs m (ground (arith, positive)) in
          let here = (Memᴰ-sort_iff leb_ℤ v (filter test vs)).1 kept in
          (
            first_or_zero-positive sorted v
                (All-sort leb_ℤ (λ w. pos 1 ≤ℤ w) (filter test vs) (positives-All vs)) here,
            All-at (λ w. first_or_zero sorted ≤ℤ w) (sort-first (filter test vs)) here,
          ),
    )

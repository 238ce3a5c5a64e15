-- ===== src/Prelude/Sorting.antt =====
-- `sort.Strings`, `sort.Ints` and `sort.Slice` by insertion, over a Boolean order `le`: an item goes
-- in front of the first that it is not above, so equal items keep their order.
use Prim.Native.Nat.{suc}
use mathlib.Core.Path.{◌≡◌, refl, ap, ◌∙◌, subst}
use mathlib.Core.Bool.{Bool}
use mathlib.Core.List.{List, [], ◌∷◌, Perm, Memᴰ}
use mathlib.Core.List.Perm
use native.Mathlib.Omega.{arith}
use quantum_runtime.Prelude.Tests.{if◌then◌else◌, Bool-cases}
use mathlib.Core.Logic.{◌↔◌, inl, inr}
use quantum_runtime.Prelude.Lists.{All, All-at, All-Memᴰ_self, length}

module _ {ℓ} {A : Type ℓ} (le : A → A → Bool) where
  unfoldable pub insert_sorted : A → List A → List A
  insert_sorted a [] = a ∷ []
  insert_sorted a (x ∷ xs) = if le a x then a ∷ x ∷ xs else x ∷ insert_sorted a xs

  unfoldable pub sort : List A → List A
  unfolding insert_sorted
  sort [] = []
  sort (x ∷ xs) = insert_sorted x (sort xs)

  pub insert_sorted-perm : (a : A) (xs : List A) → Perm (insert_sorted a xs) (a ∷ xs)
  unfolding insert_sorted
  insert_sorted-perm a [] = Perm.refl (a ∷ [])
  insert_sorted-perm a (x ∷ xs) = elim (Bool-cases (le a x)) [
    | inl below ↦ rw below (Perm.refl (a ∷ x ∷ xs))
    | inr above ↦ rw above (Perm.trans (Perm.cons x (insert_sorted-perm a xs)) (Perm.swap a x xs))
  ]

  pub sort-perm : (xs : List A) → Perm (sort xs) xs
  unfolding sort
  sort-perm [] = Perm.refl []
  sort-perm (x ∷ xs) = Perm.trans (insert_sorted-perm x (sort xs)) (Perm.cons x (sort-perm xs))

  length-insert_sorted : (a : A) (xs : List A) → length (insert_sorted a xs) ≡ suc (length xs)
  unfolding insert_sorted
  length-insert_sorted a [] = refl
  length-insert_sorted a (x ∷ xs) = ground (arith, length-insert_sorted a xs)

  pub length-sort : (xs : List A) → length (sort xs) ≡ length xs
  unfolding sort
  length-sort [] = refl
  length-sort (x ∷ xs) = length-insert_sorted x (sort xs) ∙ ap suc (length-sort xs)

  pub All-insert_sorted {κ} :
      (P : A → Type κ) (a : A) (xs : List A) → P a → All P xs → All P (insert_sorted a xs)
  unfolding insert_sorted
  All-insert_sorted P a [] p h = (p, tt)
  All-insert_sorted P a (x ∷ xs) p h = elim (Bool-cases (le a x)) [
    | inl below ↦ rw below (p, h)
    | inr above ↦ rw above (h.0, All-insert_sorted P a xs p h.1)
  ]

  pub All-sort {κ} : (P : A → Type κ) (xs : List A) → All P xs → All P (sort xs)
  unfolding sort
  All-sort P [] h = tt
  All-sort P (x ∷ xs) h = All-insert_sorted P x (sort xs) h.0 (All-sort P xs h.1)

  All-of_insert_sorted {κ} :
      (P : A → Type κ) (a : A) (xs : List A) → All P (insert_sorted a xs) → P a × All P xs
  unfolding insert_sorted
  All-of_insert_sorted P a [] h = h
  All-of_insert_sorted P a (x ∷ xs) h = elim (Bool-cases (le a x)) [
    | inl below ↦ subst (λ b. All P (if b then a ∷ x ∷ xs else x ∷ insert_sorted a xs)) below h
    | inr above ↦
        let h' = subst (λ b. All P (if b then a ∷ x ∷ xs else x ∷ insert_sorted a xs)) above h in
        let (p, rest) = All-of_insert_sorted P a xs h'.1 in (p, (h'.0, rest))
  ]

  pub All-of_sort {κ} : (P : A → Type κ) (xs : List A) → All P (sort xs) → All P xs
  unfolding sort
  All-of_sort P [] h = tt
  All-of_sort P (x ∷ xs) h =
      let (p, rest) = All-of_insert_sorted P x (sort xs) h in (p, All-of_sort P xs rest)

  pub Memᴰ-sort_iff : (a : A) (xs : List A) → Memᴰ a (sort xs) ↔ Memᴰ a xs
  Memᴰ-sort_iff a xs = (
    λ m. All-at (λ x. Memᴰ x xs) (All-sort (λ x. Memᴰ x xs) xs (All-Memᴰ_self xs)) m,
    λ m.
        let self = All-Memᴰ_self (sort xs) in
        All-at (λ x. Memᴰ x (sort xs)) (All-of_sort (λ x. Memᴰ x (sort xs)) xs self) m,
  )

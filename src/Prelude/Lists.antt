-- ===== src/Prelude/Lists.antt =====
-- Lists measured by native numbers, membership tests, and predicates on all members.
use Prim.Native.Nat.{ℕ, suc, ◌+◌}
use mathlib.Core.Path.{◌≡◌, refl, sym, ap, subst}
use mathlib.Core.Bool.{Bool, true, false, ◌||◌}
use mathlib.Core.List.{List, [], ◌∷◌, ◌++◌, map, Memᴰ}
use native.Mathlib.Omega.{arith}
use mathlib.Core.Logic.{◌⊎◌, inl, inr}
use quantum_runtime.Prelude.Tests.{Eq, ◌==◌, Bool-cases, if◌then◌else◌}

module _ {ℓ} {A : Type ℓ} where
  -- Go's `len`.
  abbrev pub length : List A → ℕ
  length [] = 0
  length (x ∷ xs) = suc (length xs)

  pub length-append : (xs ys : List A) → length (xs ++ ys) ≡ length xs + length ys
  length-append [] ys = omega arith
  length-append (x ∷ xs) ys = omega (arith, length-append xs ys)

  abbrev pub All {κ} : (A → Type κ) → List A → Type κ
  All P [] = Unit
  All P (x ∷ xs) = P x × All P xs

  pub All-append {κ} : (P : A → Type κ) (xs ys : List A) → All P xs → All P ys → All P (xs ++ ys)
  All-append P [] ys h k = k
  All-append P (x ∷ xs) ys h k = (h.0, All-append P xs ys h.1 k)

module _ {ℓ κ} {A : Type ℓ} {B : Type κ} where
  pub length-map : (xs : List A) (f : A → B) → length (map f xs) ≡ length xs
  length-map [] f = refl
  length-map (x ∷ xs) f = ap suc (length-map xs f)

module _ {ℓ κ μ} {A : Type ℓ} {P : A → Type κ} {Q : A → Type μ} where
  pub All-mono : (xs : List A) → ((x : A) → P x → Q x) → All P xs → All Q xs
  All-mono [] f h = tt
  All-mono (x ∷ xs) f h = (f x h.0, All-mono xs f h.1)

-- A Go set `map[T]struct{}` is the list of its keys; this is the test `_, exists := seen[key]`.
module _ {ℓ} {A : Type ℓ} ⦃e : Eq A⦄ where
  unfoldable pub contains : List A → A → Bool
  contains [] a = false
  contains (x ∷ xs) a = x == a || contains xs a

  pub contains-All {κ} :
      (P : A → Type κ) (xs : List A) (a : A) → contains xs a ≡ true → All P xs → P a
  unfolding contains
  contains-All P [] a h all = cc
  contains-All P (x ∷ xs) a h all = elim (Bool-cases (x == a)) [
    | inl same ↦ subst P ((e.same_iff x a).0 same) all.0
    | inr other ↦ contains-All P xs a (ground arith) all.1
  ]

  -- A list that contains no item twice.
  abbrev pub IsDistinct : List A → Type 0
  IsDistinct [] = Unit
  IsDistinct (x ∷ xs) = (contains xs x ≡ false) × IsDistinct xs

module _ {ℓ} {A : Type ℓ} where
  All-Memᴰ_cons : (x : A) (xs ys : List A) → All (λ y. Memᴰ y xs) ys → All (λ y. Memᴰ y (x ∷ xs)) ys
  All-Memᴰ_cons x xs ys h = All-mono ys (λ y m. Memᴰ.tail m) h

  pub All-Memᴰ_self : (xs : List A) → All (λ x. Memᴰ x xs) xs
  All-Memᴰ_self [] = tt
  All-Memᴰ_self (x ∷ xs) = (Memᴰ.head refl, All-Memᴰ_cons x xs xs (All-Memᴰ_self xs))

pub All-at {ℓ κ} : {A : Type ℓ} (P : A → Type κ) {x : A} {xs : List A} → All P xs → Memᴰ x xs → P x
All-at P {xs = []} h m = elim m [ ]
All-at P {xs = x ∷ xs} h (Memᴰ.head same) = subst P (sym same) h.0
All-at P {xs = x ∷ xs} h (Memᴰ.tail m) = All-at P h.1 m

pub Memᴰ-cons {ℓ} : {A : Type ℓ} {a x : A} {xs : List A} → Memᴰ a (x ∷ xs) → (a ≡ x) ⊎ Memᴰ a xs
Memᴰ-cons (Memᴰ.head same) = inl same
Memᴰ-cons (Memᴰ.tail m) = inr m

-- The loop that appends the items that pass a test.
unfoldable pub filter {ℓ} : {A : Type ℓ} → (A → Bool) → List A → List A
filter test [] = []
filter test (x ∷ xs) = let rest = filter test xs in if test x then x ∷ rest else rest

module _ {ℓ} {A : Type ℓ} (test : A → Bool) (p : A) where
  pub filter_sound : (qs : List A) → Memᴰ p (filter test qs) → Memᴰ p qs × (test p ≡ true)
  unfolding filter
  filter_sound [] m = elim m [ ]
  filter_sound (q ∷ qs) m = elim (Bool-cases (test q)) [
    | inl e ↦
        let m' = subst (λ b. Memᴰ p (if b then q ∷ filter test qs else filter test qs)) e m in
        elim (Memᴰ-cons m') [
          | inl same ↦ (Memᴰ.head same, subst (λ x. test x ≡ true) (sym same) e)
          | inr rest ↦ let (listed, good) = filter_sound qs rest in (Memᴰ.tail listed, good)
        ]
    | inr e ↦
        let m' = subst (λ b. Memᴰ p (if b then q ∷ filter test qs else filter test qs)) e m in
        let (listed, good) = filter_sound qs m' in (Memᴰ.tail listed, good)
  ]

  pub filter_complete : (qs : List A) → Memᴰ p qs → test p ≡ true → Memᴰ p (filter test qs)
  unfolding filter
  filter_complete [] m good = elim m [ ]
  filter_complete (q ∷ qs) m good = elim (Bool-cases (test q)) [
    | inl e ↦ rw e (elim (Memᴰ-cons m) [
      | inl same ↦ Memᴰ.head same
      | inr rest ↦ Memᴰ.tail (filter_complete qs rest good)
    ])
    | inr e ↦ rw e (elim (Memᴰ-cons m) [
      | inl same ↦ let good' = subst (λ x. test x ≡ true) same good in absurd (cc)
      | inr rest ↦ filter_complete qs rest good
    ])
  ]

module _ {ℓ} {A : Type ℓ} {a : A} where
  pub Memᴰ-append_left : {xs : List A} (ys : List A) → Memᴰ a xs → Memᴰ a (xs ++ ys)
  Memᴰ-append_left {xs = []} ys m = elim m [ ]
  Memᴰ-append_left {xs = x ∷ xs} ys (Memᴰ.head same) = Memᴰ.head same
  Memᴰ-append_left {xs = x ∷ xs} ys (Memᴰ.tail m) = Memᴰ.tail (Memᴰ-append_left ys m)

  pub Memᴰ-append_right : (xs : List A) {ys : List A} → Memᴰ a ys → Memᴰ a (xs ++ ys)
  Memᴰ-append_right [] m = m
  Memᴰ-append_right (x ∷ xs) m = Memᴰ.tail (Memᴰ-append_right xs m)

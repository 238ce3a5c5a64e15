-- ===== src/Prelude/Results.antt =====
-- A Go pair `(value, error)` is a `Result`: a caller reads the value only where the error is nil.
use mathlib.Core.Path.{◌≡◌, refl}
use mathlib.Core.Logic.{◌⊎◌, inl, inr}
use mathlib.Core.Bool.{Bool, true, false}

pub data Result (E : Type 0) (A : Type 0) : Type 0 where
  ok : A → Result E A
  err : E → Result E A

module _ {E : Type 0} where
  -- `if test { return error }`.
  abbrev pub fail_if : Bool → E → Result E (Unit {0})
  fail_if true e = err e
  fail_if false e = ok tt

  -- `if err != nil { return err }` behind a call.
  infixl 5 ◌>>=◌ ◌>>◌
  abbrev pub ◌>>=◌ : {A B : Type 0} → Result E A → (A → Result E B) → Result E B
  ok value >>= next = next value
  err failure >>= next = err failure

  abbrev pub ◌>>◌ : {B : Type 0} → Result E (Unit {0}) → Result E B → Result E B
  first >> rest = first >>= λ _. rest

  pub >>=-eq-ok :
      {A B : Type 0} (first : Result E A) (next : A → Result E B) {result : B}
      → (first >>= next) ≡ ok result
      → (value : A) × (first ≡ ok value) × (next value ≡ ok result)
  >>=-eq-ok (ok value) next h = (value, refl, h)
  >>=-eq-ok (err failure) next h = cc

  pub ok_injective : {A : Type 0} {a b : A} → Path (Result E A) (ok a) (ok b) → a ≡ b
  ok_injective h = cc

  -- `fmt.Errorf("...: %w", err)`: a caller's error that carries the callee's.
  abbrev pub wrap_err : {F A : Type 0} → (E → F) → Result E A → Result F A
  wrap_err f (ok a) = ok a
  wrap_err f (err e) = err (f e)

pub Result-cases :
    {E A : Type 0} (r : Result E A) → ((a : A) × (r ≡ ok a)) ⊎ ((e : E) × (r ≡ err e))
Result-cases (ok a) = inl (a, refl)
Result-cases (err e) = inr (e, refl)

pub wrap_err-ok :
    {E F A : Type 0} (f : E → F) (r : Result E A) {a : A} → wrap_err f r ≡ ok a → r ≡ ok a
wrap_err-ok f (ok b) h = cc
wrap_err-ok f (err e) h = cc

pub >>-ok :
    {E A : Type 0} (m : Result E (Unit {0})) (k : Result E A) {a : A}
    → (m >> k) ≡ ok a
    → (m ≡ ok tt) × (k ≡ ok a)
>>-ok (ok tt) k h = (refl, h)
>>-ok (err e) k h = cc

-- ===== src/Installer/Frame.antt =====
-- Which paths the steps of the installer (internal/installer/installer.go) leave alone.
pub mod Storage
pub mod Install
use quantum_runtime.Prelude.{
  String, ◌≡◌, ◌≢◌, refl, sym, ◌∙◌, List, [], ◌∷◌, Bool, true, false, Option, none, some, Result,
  ok, err, ◌==◌, string_eq, if◌then◌else◌, inl, inr, Bool-cases, arith,
}
use text.Mathlib.TextEquality.{eq_iff}
use quantum_runtime.Installer.System.{
  File, Disk, put, Event, Stage, InstallError, Machine, World, Action, continue, ◌>>=◌, ◌>>◌,
  return, throw, refuse_if, wrap, at_stage, ignore, is_ok, succeeded, cleanup, deferring, handle,
  on_error, set_file, attempt, execute,
}

-- Whatever the step returns, the file at the path is what it was.
pub record Frame (p : String) {A : Type 0} (m : Action A) : Type 0 where
  pub same : (w : World) → (m w).1.disk p ≡ w.disk p

-- No command changes the file at the path.
pub record IsUntouched (mc : Machine) (p : String) : Type 0 where
  pub leaves :
      (events : List Event) (arguments : List String) (d : Disk)
      → mc.effect events arguments d p ≡ d p

pub put_other : (p path : String) (f : Option File) (d : Disk) → p ≢ path → put path f d p ≡ d p
put_other p path f d other = elim (Bool-cases (p == path)) [
  | inl e ↦ absurd (other ((eq_iff p path).0 e))
  | inr e ↦ rw e refl
]

pub put_here : (path : String) (f : Option File) (d : Disk) → put path f d path ≡ f
put_here path f d = rw ((eq_iff path path).1 refl) refl

module _ {p : String} {A B : Type 0} where
  continue-Frame :
      (k : A → Action B) (r : Result InstallError A × World)
      → ((a : A) → Frame p (k a))
      → (continue k r).1.disk p ≡ r.1.disk p
  continue-Frame k (ok a, w) h = (h a).same w
  continue-Frame k (err e, w) h = refl

  pub Frame->>= :
      {m : Action A} {k : A → Action B} → Frame p m → ((a : A) → Frame p (k a)) → Frame p (m >>= k)
  unfolding ◌>>=◌
  Frame->>= {m} {k} h h' = record { same = λ w. continue-Frame k (m w) h' ∙ h.same w }

module _ {p : String} {B : Type 0} where
  pub Frame->> : {m : Action (Unit {0})} {k : Action B} → Frame p m → Frame p k → Frame p (m >> k)
  unfolding ◌>>◌
  Frame->> h h' = Frame->>= h (λ u. h')

module _ {p : String} {A : Type 0} where
  pub Frame-return : (a : A) → Frame p (return a)
  unfolding return
  Frame-return a = record { same = λ w. refl }

  pub Frame-throw : (e : InstallError) → Frame p (throw {A = A} e)
  unfolding throw
  Frame-throw e = record { same = λ w. refl }

  wrap-Frame :
      (f : InstallError → InstallError) (r : Result InstallError A × World)
      → (wrap f r).1.disk p ≡ r.1.disk p
  wrap-Frame f (ok a, w) = refl
  wrap-Frame f (err e, w) = refl

  pub Frame-at_stage : (stage : Stage) {m : Action A} → Frame p m → Frame p (at_stage stage m)
  unfolding at_stage
  Frame-at_stage stage {m} h = record { same = λ w. wrap-Frame _ (m w) ∙ h.same w }

  pub Frame-ignore : {m : Action A} → Frame p m → Frame p (ignore m)
  unfolding ignore
  Frame-ignore h = record { same = λ w. h.same w }

  is_ok-Frame : (r : Result InstallError A × World) → (is_ok r).1.disk p ≡ r.1.disk p
  is_ok-Frame (ok a, w) = refl
  is_ok-Frame (err e, w) = refl

  pub Frame-succeeded : {m : Action A} → Frame p m → Frame p (succeeded m)
  unfolding succeeded
  Frame-succeeded {m} h = record { same = λ w. is_ok-Frame (m w) ∙ h.same w }

  pub Frame-deferring :
      {after : Action (Unit {0})} {m : Action A}
      → Frame p after
      → Frame p m
      → Frame p (deferring after m)
  unfolding deferring
  Frame-deferring {m} h h' = record { same = λ w. h.same (m w).1 ∙ h'.same w }

  handle-Frame :
      (handler : InstallError → Action A) (r : Result InstallError A × World)
      → ((e : InstallError) → Frame p (handler e))
      → (handle handler r).1.disk p ≡ r.1.disk p
  handle-Frame handler (ok a, w) h = refl
  handle-Frame handler (err e, w) h = (h e).same w

  pub Frame-on_error :
      {handler : InstallError → Action A} {m : Action A}
      → ((e : InstallError) → Frame p (handler e))
      → Frame p m
      → Frame p (on_error handler m)
  unfolding on_error
  Frame-on_error {handler} {m} h h' = record {
    same = λ w. handle-Frame handler (m w) h ∙ h'.same w;
  }

  pub Frame-if : (b : Bool) {m n : Action A} → Frame p m → Frame p n → Frame p (if b then m else n)
  Frame-if true h h' = h
  Frame-if false h h' = h'

module _ {p : String} where
  pub Frame-refuse_if : (test : Bool) (e : InstallError) → Frame p (refuse_if test e)
  unfolding refuse_if
  Frame-refuse_if test e = record { same = λ w. refl }

  pub Frame-set_file :
      {path : String} (f : Disk → Option File) → p ≢ path → Frame p (set_file path f)
  unfolding set_file
  Frame-set_file {path} f other = record { same = λ w. put_other p path (f w.disk) w.disk other }

  pub Frame-attempt : (mc : Machine) (event : Event) → Frame p (attempt mc event)
  unfolding attempt
  Frame-attempt mc event = record { same = λ w. refl }

  pub Frame-execute :
      (mc : Machine) (arguments : List String) → IsUntouched mc p → Frame p (execute mc arguments)
  unfolding execute
  Frame-execute mc arguments h = record { same = λ w. h.leaves w.events arguments w.disk }

module _ {p : String} {A : Type 0} where
  -- What stands behind a guard counts only if the guard passes.
  pub Frame-guarded :
      (test : Bool) (e : InstallError) {m : Action A}
      → (test ≡ false → Frame p m)
      → Frame p (refuse_if test e >> m)
  unfolding refuse_if ◌>>◌ ◌>>=◌
  Frame-guarded true e h = record { same = λ w. refl }
  Frame-guarded false e h = record { same = λ w. (h refl).same w }

pub ruleset frames = (
  Frame->>=, Frame->>, Frame-return, Frame-throw, Frame-at_stage, Frame-ignore, Frame-succeeded,
  Frame-deferring, Frame-on_error, Frame-if, Frame-refuse_if, Frame-set_file, Frame-attempt,
  Frame-execute,
)

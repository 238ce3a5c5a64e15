-- ===== src/Installer/Leads.antt =====
-- What holds of the disk behind a step of the installer (internal/installer/installer.go) that
-- succeeds.
use quantum_runtime.Prelude.{
  String, ◌≡◌, refl, sym, ◌∙◌, subst, Bool, true, false, Option, Result, ok, err, if◌then◌else◌,
}
use quantum_runtime.Installer.System.{
  File, Disk, put, Event, Stage, InstallError, Machine, World, Action, continue, ◌>>=◌, ◌>>◌, throw,
  wrap, at_stage, deferring, handle, on_error, set_file, attempt,
}
use quantum_runtime.Installer.Frame.{Frame, put_here}

-- From a disk with `P`, the step ends on a disk with `Q`, if it succeeds.
pub record Leads (P Q : Disk → Type 0) {A : Type 0} (m : Action A) : Type 0 where
  pub leads : (w : World) → P w.disk → (a : A) → (m w).0 ≡ ok a → Q (m w).1.disk

abbrev pub Anything : Disk → Type 0
Anything d = Unit {0}

-- The file at the path.
abbrev pub At : String → Option File → Disk → Type 0
At p f d = d p ≡ f

module _ {Q R : Disk → Type 0} {A B : Type 0} where
  continue-Leads :
      (k : A → Action B) (r : Result InstallError A × World)
      → ((a : A) → r.0 ≡ ok a → Q r.1.disk)
      → ((a : A) → Leads Q R (k a))
      → (b : B) → (continue k r).0 ≡ ok b
      → R (continue k r).1.disk
  continue-Leads k (ok a, w) q h b e = (h a).leads w (q a refl) b e
  continue-Leads k (err x, w) q h b e = cc

module _ {A : Type 0} where
  wrap-ok :
      (f : InstallError → InstallError) (r : Result InstallError A × World) (a : A)
      → (wrap f r).0 ≡ ok a
      → (r.0 ≡ ok a) × ((wrap f r).1 ≡ r.1)
  wrap-ok f (ok b, w) a e = (e, refl)
  wrap-ok f (err x, w) a e = cc

pub at_stage-ok :
    {A : Type 0} (stage : Stage) (m : Action A) (w : World) (a : A)
    → (at_stage stage m w).0 ≡ ok a
    → (m w).0 ≡ ok a
unfolding at_stage
at_stage-ok stage m w a e = (wrap-ok _ (m w) a e).0

module _ {Q : Disk → Type 0} {A : Type 0} where
  handle-Leads :
      (handler : InstallError → Action A) (r : Result InstallError A × World)
      → ((a : A) → r.0 ≡ ok a → Q r.1.disk)
      → ((x : InstallError) → Leads Anything Q (handler x))
      → (a : A) → (handle handler r).0 ≡ ok a
      → Q (handle handler r).1.disk
  handle-Leads handler (ok b, w) q h a e = q a e
  handle-Leads handler (err x, w) q h a e = (h x).leads w tt a e

module _ {P Q R : Disk → Type 0} {A B : Type 0} where
  pub Leads->>= :
      {m : Action A} {k : A → Action B}
      → Leads P Q m
      → ((a : A) → Leads Q R (k a))
      → Leads P R (m >>= k)
  unfolding ◌>>=◌
  Leads->>= {m} {k} h h' = record { leads = λ w p b e. continue-Leads k (m w) (h.leads w p) h' b e }

module _ {P Q R : Disk → Type 0} {B : Type 0} where
  pub Leads->> :
      {m : Action (Unit {0})} {k : Action B} → Leads P Q m → Leads Q R k → Leads P R (m >> k)
  unfolding ◌>>◌
  Leads->> h h' = Leads->>= h (λ u. h')

module _ {P Q : Disk → Type 0} {A : Type 0} where
  pub Leads-at_stage : (stage : Stage) {m : Action A} → Leads P Q m → Leads P Q (at_stage stage m)
  unfolding at_stage
  Leads-at_stage stage {m} h = record {
    leads = λ w p a e.
        let (e', same) = wrap-ok _ (m w) a e in subst (λ v. Q v.disk) (sym same) (h.leads w p a e');
  }

  -- A step that fails has nothing to show.
  pub Leads-throw : (e : InstallError) → Leads P Q (throw {A = A} e)
  unfolding throw
  Leads-throw x = record { leads = λ w p a e. cc }

  pub Leads-if :
      (b : Bool) {m n : Action A} → Leads P Q m → Leads P Q n → Leads P Q (if b then m else n)
  Leads-if true h h' = h
  Leads-if false h h' = h'

  pub Leads-on_error :
      {handler : InstallError → Action A} {m : Action A}
      → ((x : InstallError) → Leads Anything Q (handler x))
      → Leads P Q m
      → Leads P Q (on_error handler m)
  unfolding on_error
  Leads-on_error {handler} {m} h h' = record {
    leads = λ w p a e. handle-Leads handler (m w) (h'.leads w p) h a e;
  }

pub Leads-Anything : {P : Disk → Type 0} {A : Type 0} {m : Action A} → Leads P Anything m
Leads-Anything = record { leads = λ w p a e. tt }

module _ {p : String} {f : Option File} {A : Type 0} where
  -- A step that leaves the path alone.
  pub Leads-Frame : {m : Action A} → Frame p m → Leads (At p f) (At p f) m
  Leads-Frame {m} h = record { leads = λ w at a e. h.same w ∙ at }

  pub Leads-deferring :
      {P : Disk → Type 0} {after : Action (Unit {0})} {m : Action A}
      → Frame p after
      → Leads P (At p f) m
      → Leads P (At p f) (deferring after m)
  unfolding deferring
  Leads-deferring {P} {after} {m} h h' = record {
    leads = λ w q a e. h.same (m w).1 ∙ h'.leads w q a e;
  }

  -- What holds without a condition holds from any disk.
  pub Leads-weaken :
      {P : Disk → Type 0} {m : Action A} → Leads Anything (At p f) m → Leads P (At p f) m
  Leads-weaken h = record { leads = λ w q a e. h.leads w tt a e }

pub Leads-set_file :
    {P : Disk → Type 0} (path : String) {f : Disk → Option File} {g : Option File}
    → ((d : Disk) → P d → f d ≡ g)
    → Leads P (At path g) (set_file path f)
unfolding set_file
Leads-set_file path {f} h = record {
  leads = λ w q a e. put_here path (f w.disk) w.disk ∙ h w.disk q;
}

pub Leads-attempt :
    {P : Disk → Type 0} (mc : Machine) (event : Event) → Leads P P (attempt mc event)
unfolding attempt
Leads-attempt mc event = record { leads = λ w q a e. q }

pub Leads-put :
    {P Q : Disk → Type 0} (path : String) (f : Disk → Option File)
    → ((d : Disk) → P d → Q (put path (f d) d))
    → Leads P Q (set_file path f)
unfolding set_file
Leads-put path f h = record { leads = λ w q a e. h w.disk q }

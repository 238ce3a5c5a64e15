-- ===== src/Installer/Rollback.antt =====
-- What is left on the disk behind an installation (`Install`, internal/installer/installer.go) that
-- fails.
use quantum_runtime.Prelude.{
  String, [], ◌∷◌, ◌≡◌, ◌≢◌, refl, sym, ◌∙◌, subst, ap, Bool, true, false, Option, none, some,
  Result, ok, err, ok_injective, ◌⊎◌, inl, inr, ◌==◌, string_eq, Bool-cases,
}
use text.Mathlib.TextEquality.{eq_iff}
use quantum_runtime.Installer.System.{
  File, Disk, read, stat, InstallError, rollback_failed, capturing, Machine, World, Action,
  continue, ◌>>=◌, ◌>>◌, return, throw, at_stage, ignore, on_error, handle, attempt, execute,
}
use quantum_runtime.Installer.Storage.{
  Layout, Snapshot, is_there, read_existing, read_optional, capture_snapshot, restore_snapshot,
}
use quantum_runtime.Installer.Setup.{Manager}
use quantum_runtime.Installer.Install.{
  InstallOptions, config_ownership, rolled_back, reset_service, rollback, install, install_files,
  check_install,
}
use quantum_runtime.Installer.Frame.{
  IsUntouched, Frame->>, Frame-execute, Frame-ignore, Frame-at_stage,
}
use quantum_runtime.Installer.Frame.Storage.{IsStable, Frame-read_optional, Frame-capture_snapshot}
use quantum_runtime.Installer.Frame.Install.{
  Frame-reset_service, Frame-rolled_back, Frame-check_install, Frame-config_ownership,
  Frame-install_files,
}
use quantum_runtime.Installer.Leads.{at_stage-ok}
use quantum_runtime.Installer.Snapshots.{
  snapshot_of, IsManagedPath, restore_snapshot-keeps, restore_snapshot-At,
}

abbrev pub is_rollback_failure : InstallError → Bool
is_rollback_failure (rollback_failed cause failure) = true
is_rollback_failure _ = false

module _ {A B : Type 0} where
  -- A sequence that succeeds went through both steps.
  pub continue-ok :
      (k : A → Action B) (r : Result InstallError A × World) (b : B)
      → (continue k r).0 ≡ ok b
      → (a : A) × (r.0 ≡ ok a) × ((k a r.1).0 ≡ ok b)
  continue-ok k (ok a, w) b e = (a, refl, e)
  continue-ok k (err x, w) b e = cc

  -- A sequence whose first step succeeds is its second step.
  pub continue-eq :
      (k : A → Action B) (r : Result InstallError A × World) (a : A)
      → r.0 ≡ ok a
      → continue k r ≡ k a r.1
  continue-eq k (ok b, w) a e = rw (ok_injective e) refl
  continue-eq k (err x, w) a e = cc

module _ (mc : Machine) where
  read_existing-ok :
      (path : String) (f : Option File) (w : World) (a : Option File)
      → (read_existing mc path f w).0 ≡ ok a
      → f ≡ a
  unfolding read_existing return ◌>>◌ ◌>>=◌
  read_existing-ok path none w a e = ok_injective e
  read_existing-ok path (some f) w a e =
      ok_injective (continue-ok _ (attempt mc (read path) w) a e).2

  read_optional-ok :
      (d : Disk) (path : String) (w : World) (a : Option File)
      → w.disk path ≡ d path
      → (read_optional mc path w).0 ≡ ok a
      → d path ≡ a
  unfolding read_optional ◌>>◌ ◌>>=◌
  read_optional-ok d path w a same e =
      sym same
      ∙ read_existing-ok path (w.disk path) _ a (continue-ok _ (attempt mc (stat path) w) a e).2

  read_next :
      {B : Type 0} (d : Disk) (path : String) (k : Option File → Action B) (w : World) (b : B)
      → ((p : String) → w.disk p ≡ d p)
      → ((read_optional mc path >>= k) w).0 ≡ ok b
      → (v : World) × ((p : String) → v.disk p ≡ d p) × ((k (d path) v).0 ≡ ok b)
  unfolding ◌>>=◌
  read_next d path k w b same e =
      let (f, e1, e2) = continue-ok k (read_optional mc path w) b e in
      let v = (read_optional mc path w).1 in
      (
        v,
        λ p. (Frame-read_optional {p = p} mc path).same w ∙ same p,
        subst (λ f. (k f v).0 ≡ ok b) (sym (read_optional-ok d path w f (same path) e1)) e2,
      )

  pub capture_snapshot-ok :
      (l : Layout) (w : World) (old : Snapshot)
      → (capture_snapshot mc l w).0 ≡ ok old
      → snapshot_of l w.disk ≡ old
  unfolding capture_snapshot return
  capture_snapshot-ok l w old e =
      let (w1, same1, e1) = read_next w.disk l.binary _ w old (λ p. refl) e in
      let (w2, same2, e2) = read_next w.disk l.config _ w1 old same1 e1 in
      let (w3, same3, e3) = read_next w.disk l.unit _ w2 old same2 e2 in
      let (w4, same4, e4) = read_next w.disk l.marker _ w3 old same3 e3 in ok_injective e4

  rolled_back-ok :
      (cause : InstallError) (r : Result InstallError (Unit {0})) (w : World) (e : InstallError)
      → (rolled_back mc cause r w).0 ≡ err e
      → is_rollback_failure e ≡ false
      → r ≡ ok tt
  unfolding throw
  rolled_back-ok cause (ok u) w e h n = refl
  rolled_back-ok cause (err x) w e h n = cc

  reset_service-ok : (old : Snapshot) (w : World) → (reset_service mc old w).0 ≡ ok tt
  unfolding ignore
  reset_service-ok old w = elim (Bool-cases (is_there old.old_marker)) [
    | inl e ↦ rw e refl
    | inr e ↦ rw e refl
  ]

  -- `rollback` reports what it made of the restoration.
  rollback-err :
      (l : Layout) (old : Snapshot) (cause : InstallError) (w : World) (e : InstallError)
      → (rollback mc l old cause w).0 ≡ err e
      → is_rollback_failure e ≡ false
      → (restore_snapshot mc l old w).0 ≡ ok tt
  unfolding rollback ◌>>◌ ◌>>=◌ ignore
  rollback-err l old cause w e h n =
      let r = restore_snapshot mc l old w in
      let w1 = (execute mc ("systemctl" ∷ "daemon-reload" ∷ []) r.1).1 in
      let passed =
        continue-eq (λ u. rolled_back mc cause r.0) (reset_service mc old w1) tt
          (reset_service-ok old w1) in
      rolled_back-ok cause r.0 (reset_service mc old w1).1 e (sym (ap (λ x. x.0) passed) ∙ h) n

  Frame-rollback :
      (l : Layout) (old : Snapshot) (cause : InstallError) (w : World) (p : String)
      → IsUntouched mc p
      → (rollback mc l old cause w).1.disk p ≡ (restore_snapshot mc l old w).1.disk p
  unfolding rollback
  Frame-rollback l old cause w p h =
      let r = restore_snapshot mc l old w in
      (Frame->> {p = p} (Frame-ignore (Frame-execute mc _ h))
          (Frame->> (Frame-reset_service mc old h) (Frame-rolled_back mc cause r.0))).same
        r.1

  -- A rollback whose restoration succeeds brings the managed files back, and leaves the others alone.
  pub rollback-At :
      (l : Layout) (d : Disk) (p : String) (cause : InstallError) (w : World) (e : InstallError)
      → IsStable mc p
      → IsManagedPath l p ⊎ (w.disk p ≡ d p)
      → (rollback mc l (snapshot_of l d) cause w).0 ≡ err e
      → is_rollback_failure e ≡ false
      → (rollback mc l (snapshot_of l d) cause w).1.disk p ≡ d p
  rollback-At l d p cause w e stable (inl here) h n =
      Frame-rollback l (snapshot_of l d) cause w p stable.untouched
      ∙ (restore_snapshot-At mc l d p stable here).leads w tt tt (rollback-err l _ cause w e h n)
  rollback-At l d p cause w e stable (inr same) h n =
      Frame-rollback l (snapshot_of l d) cause w p stable.untouched
      ∙ (restore_snapshot-keeps mc l d p stable).leads w same tt (rollback-err l _ cause w e h n)

module _ (p : String) (f : Option File) where
  -- A result whose error leaves the file at the path, unless a rollback failed.
  abbrev Undone : {A : Type 0} → Result InstallError A × World → Type 0
  Undone r = (e : InstallError) → r.0 ≡ err e → is_rollback_failure e ≡ false → r.1.disk p ≡ f

  continue-Undone :
      {A B : Type 0} (k : A → Action B) (r : Result InstallError A × World)
      → r.1.disk p ≡ f
      → ((a : A) → r.0 ≡ ok a → Undone (k a r.1))
      → Undone (continue k r)
  continue-Undone k (ok a, w) same h e failed n = h a refl e failed n
  continue-Undone k (err x, w) same h e failed n = same

  handle-Undone :
      {A : Type 0} (handler : InstallError → Action A) (r : Result InstallError A × World)
      → ((x : InstallError) → Undone (handler x r.1))
      → Undone (handle handler r)
  handle-Undone handler (ok a, w) h e failed n = cc
  handle-Undone handler (err x, w) h e failed n = h x e failed n

module _ (mc : Machine) (p : String) where
  abbrev pub IsElsewhere : Layout → Type 0
  IsElsewhere l = (p ≢ l.binary) × (p ≢ l.config) × (p ≢ l.unit) × (p ≢ l.marker)

  pub managed_cases : (l : Layout) → IsManagedPath l p ⊎ IsElsewhere l
  managed_cases l = elim (Bool-cases (p == l.binary)) [
    | inl e ↦ inl (inl ((eq_iff p _).0 e))
    | inr b ↦ elim (Bool-cases (p == l.config)) [
      | inl e ↦ inl (inr (inl ((eq_iff p _).0 e)))
      | inr c ↦ elim (Bool-cases (p == l.unit)) [
        | inl e ↦ inl (inr (inr (inl ((eq_iff p _).0 e))))
        | inr u ↦ elim (Bool-cases (p == l.marker)) [
          | inl e ↦ inl (inr (inr (inr ((eq_iff p _).0 e))))
          | inr k ↦ inr (not_eq b, not_eq c, not_eq u, not_eq k)
        ]
      ]
    ]
  ]
    where
      not_eq : {q : String} → (p == q) ≡ false → p ≢ q
      not_eq {q} h e = cc ((eq_iff p q).1 e, h)

  -- The steps that are rolled back, at each path.
  rolled_back-Undone :
      (m : Manager) (options : InstallOptions) (old : Snapshot) (owned : Bool) (d : Disk)
      (v : World)
      → IsStable mc p
      → v.disk p ≡ d p
      → snapshot_of m.layout d ≡ old
      → Undone p
          (d p)
          (on_error (rollback mc m.layout old) (install_files mc m options old owned) v)
  unfolding on_error
  rolled_back-Undone m options old owned d v stable same taken =
      handle-Undone p (d p) (rollback mc m.layout old) (install_files mc m options old owned v)
        (λ x.
          subst (λ s. Undone p (d p) (rollback mc m.layout s x (files v))) taken
            (λ e. rollback-At mc m.layout d p x (files v) e stable (here_or_same)))
    where
      files : World → World
      files v = (install_files mc m options old owned v).1

      here_or_same : IsManagedPath m.layout p ⊎ ((files v).disk p ≡ d p)
      here_or_same = elim (managed_cases m.layout) [
        | inl here ↦ inl here
        | inr (b, c, u, k) ↦
            inr ((Frame-install_files mc m options old owned stable b c u k).same v ∙ same)
      ]

  -- An installation that fails leaves the file at a path as it was, be it one of the managed files or
  -- not, unless the error says that the rollback failed too. The path is none that `os.CreateTemp`
  -- chooses for a temporary file, and its file is none that a command changes: what `groupadd`,
  -- `useradd` and `systemctl` write is not spoken of.
  pub install-undone :
      (m : Manager) (options : InstallOptions) (w : World) (e : InstallError)
      → IsStable mc p
      → (install mc m options w).0 ≡ err e
      → is_rollback_failure e ≡ false
      → (install mc m options w).1.disk p ≡ w.disk p
  unfolding install ◌>>◌ ◌>>=◌
  install-undone m options w e stable =
      let checked = check_install mc m options w in
      let taken = at_stage capturing (capture_snapshot mc m.layout) checked.1 in
      let same_checked = (Frame-check_install mc m options).same w in
      let same_taken =
        (Frame-at_stage {p = p} capturing (Frame-capture_snapshot mc m.layout)).same checked.1
        ∙ same_checked in
      continue-Undone p (w.disk p) _ checked same_checked
        (λ u passed. continue-Undone p (w.disk p) _ taken same_taken (λ old captured.
          continue-Undone p (w.disk p) _ (config_ownership mc m.layout old taken.1)
            ((Frame-config_ownership mc m.layout old).same taken.1 ∙ same_taken)
            (λ owned known.
              let before = config_ownership mc m.layout old taken.1 in
              subst
                (λ f. Undone p f (
                  on_error (rollback mc m.layout old) (install_files mc m options old owned)
                    before.1))
                same_checked
                (rolled_back-Undone m options old owned checked.1.disk before.1 stable
                  ((Frame-config_ownership mc m.layout old).same taken.1
                    ∙ (Frame-at_stage {p = p} capturing (Frame-capture_snapshot mc m.layout)).same
                        checked.1)
                  (capture_snapshot-ok mc m.layout checked.1 old (
                    at_stage-ok capturing (capture_snapshot mc m.layout) checked.1 old
                      captured))))))
        e

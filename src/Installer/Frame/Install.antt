-- ===== src/Installer/Frame/Install.antt =====
-- Which paths the steps of `Install`, `Repair` and `Uninstall` (internal/installer/installer.go) leave
-- alone.
use quantum_runtime.Prelude.{
  ℕ, zero, suc, String, ◌≡◌, ◌≢◌, ◌∙◌, List, [], ◌∷◌, Bool, false, Option, none, some, Result, ok,
  err, ◌==◌, string_eq, inl, inr, not, ◌&&◌, Bool-cases,
}
use text.Mathlib.TextEquality.{eq_iff}
use quantum_runtime.Installer.System.{stat, pause, InstallError, Machine, Marker, not_exist}
use quantum_runtime.Installer.Storage.{Layout, Snapshot, is_there}
use quantum_runtime.Installer.Setup.{
  Manager, runtime_ownership, ollama_status, preflight, ensure_identity, wait_rounds, wait_ready,
}
use quantum_runtime.Installer.Install.{
  InstallOptions, decoded, read_marker, stat_existing, config_ownership, encoded, marker_text,
  create_config, start_if, install_files, check_install, rolled_back, reset_service, remove_managed,
}
use quantum_runtime.Installer.Frame.{
  Frame, IsUntouched, Frame->>, Frame-return, Frame-throw, Frame-attempt, Frame-if, Frame-on_error,
  Frame-guarded, frames,
}
use quantum_runtime.Installer.Frame.Storage.{
  IsStable, Frame-read_file, Frame-write_atomic, Frame-copy_atomic, Frame-remove_if_exists,
  Frame-file_exists,
}

module _ {p : String} (mc : Machine) where
  pub Frame-runtime_ownership : (l : Layout) → Frame p (runtime_ownership mc l)
  unfolding runtime_ownership
  Frame-runtime_ownership l = search (frames, Frame-file_exists) depth 20

  pub Frame-ollama_status : (m : Manager) → Frame p (ollama_status mc m)
  unfolding ollama_status
  Frame-ollama_status m = search frames

  pub Frame-preflight : (m : Manager) → Frame p (preflight mc m)
  unfolding preflight
  Frame-preflight m = search (frames, Frame-runtime_ownership, Frame-ollama_status) depth 20

  pub Frame-ensure_identity : IsUntouched mc p → Frame p (ensure_identity mc)
  unfolding ensure_identity
  Frame-ensure_identity h = search (frames, h) depth 20

  Frame-wait_rounds : (m : Manager) (n : ℕ) (e : InstallError) → Frame p (wait_rounds mc m n e)
  unfolding wait_rounds
  Frame-wait_rounds m zero e = Frame-throw e
  Frame-wait_rounds m (suc n) e =
      Frame-on_error (λ x. Frame->> (Frame-attempt mc pause) (Frame-wait_rounds m n x))
        (search frames)

  Frame-wait_ready : (m : Manager) → Frame p (wait_ready mc m)
  unfolding wait_ready
  Frame-wait_ready m = Frame-wait_rounds m _ _

  Frame-decoded : (marker : Option Marker) → Frame p (decoded mc marker)
  Frame-decoded none = Frame-throw _
  Frame-decoded (some marker) = Frame-return marker

  pub Frame-read_marker : (path : String) → Frame p (read_marker mc path)
  unfolding read_marker
  Frame-read_marker path = search (frames, Frame-read_file, Frame-decoded) depth 20

  pub Frame-stat_existing : (path : String) → Frame p (stat_existing mc path)
  Frame-stat_existing path = record {
    same = λ w.
        (Frame->> (Frame-attempt mc (stat path)) (
            Frame-if (is_there (w.disk path)) (Frame-return tt)
              (Frame-throw (not_exist path)))).same
          w;
  }

  pub Frame-config_ownership : (l : Layout) (old : Snapshot) → Frame p (config_ownership mc l old)
  Frame-config_ownership l old = search (frames, Frame-read_marker) depth 20

  pub Frame-check_install :
      (m : Manager) (options : InstallOptions) → Frame p (check_install mc m options)
  unfolding check_install
  Frame-check_install m options = search (frames, Frame-stat_existing, Frame-preflight) depth 30

  Frame-encoded : (text : Option String) → Frame p (encoded mc text)
  Frame-encoded none = Frame-throw _
  Frame-encoded (some text) = Frame-return _

  pub Frame-marker_text : (m : Manager) (owned : Bool) → Frame p (marker_text mc m owned)
  Frame-marker_text m owned = record { same = λ w. (Frame-encoded _).same w }

  pub Frame-create_config :
      (l : Layout) (old : Snapshot)
      → IsStable mc p
      → p ≢ l.config
      → Frame p (create_config mc l old)
  Frame-create_config l old stable h = search (frames, Frame-write_atomic, stable, h)

  pub Frame-start_if :
      (m : Manager) (start : Bool) → IsUntouched mc p → Frame p (start_if mc m start)
  Frame-start_if m start h = search (frames, Frame-wait_ready, h)

  pub Frame-install_files :
      (m : Manager) (options : InstallOptions) (old : Snapshot) (owned : Bool)
      → IsStable mc p
      → p ≢ m.layout.binary
      → p ≢ m.layout.config
      → p ≢ m.layout.unit
      → p ≢ m.layout.marker
      → Frame p (install_files mc m options old owned)
  unfolding install_files
  Frame-install_files m options old owned stable b c u k =
      search
        (
          frames, Frame-ensure_identity, Frame-copy_atomic, Frame-write_atomic, Frame-create_config,
          Frame-marker_text, Frame-start_if, stable, stable.untouched, b, c, u, k,
        )
        depth 40

  pub Frame-reset_service : (old : Snapshot) → IsUntouched mc p → Frame p (reset_service mc old)
  Frame-reset_service old h = search (frames, h)

  pub Frame-rolled_back :
      (cause : InstallError) (r : Result InstallError (Unit {0})) → Frame p (rolled_back mc cause r)
  Frame-rolled_back cause (ok u) = Frame-throw cause
  Frame-rolled_back cause (err x) = Frame-throw _

  pub Frame-remove_managed :
      (l : Layout) (paths : List String)
      → p ≢ l.binary
      → p ≢ l.unit
      → Frame p (remove_managed mc l paths)
  unfolding remove_managed
  Frame-remove_managed l [] b u = Frame-return tt
  Frame-remove_managed l (path ∷ paths) b u = Frame-guarded _ _ (λ passed.
      Frame->> (Frame-remove_if_exists mc (λ e. unexpected path e passed))
        (Frame-remove_managed l paths b u))
    where
      unexpected : (q : String) → p ≡ q → (not (q == l.binary) && not (q == l.unit)) ≡ false → ⊥
      unexpected q e passed = elim (Bool-cases (q == l.binary)) [
        | inl same ↦ b (e ∙ (eq_iff q l.binary).0 same)
        | inr other ↦ elim (Bool-cases (q == l.unit)) [
          | inl same ↦ u (e ∙ (eq_iff q l.unit).0 same)
          | inr other' ↦ cc (passed, other, other')
        ]
      ]

-- ===== src/Installer/Installed.antt =====
-- What an installation or a repair (`Install` and `Repair`, internal/installer/installer.go) that
-- succeeds leaves on the disk.
use quantum_runtime.Prelude.{
  String, [], ◌∷◌, ◌≡◌, ◌≢◌, refl, sym, ◌∙◌, subst, ap, Bool, not, Option, none, some, Result, ok,
  err, ok_injective, string_eq,
}
use mathlib.Core.Option
use quantum_runtime.Installer.System.{
  File, Disk, InstallError, capturing, Machine, Marker, World, Action, ◌>>=◌, ◌>>◌, ignore, execute,
  reading_marker, return, throw, at_stage, on_error, handle,
}
use quantum_runtime.Installer.Storage.{
  Layout, Snapshot, content_of, is_there, capture_snapshot, restore_snapshot, read_file,
}
use quantum_runtime.Installer.Setup.{Manager}
use quantum_runtime.Installer.Install.{
  InstallOptions, systemd_unit, config_ownership, decoded, read_marker, rolled_back, reset_service,
  rollback, install, install_files, check_install,
}
use quantum_runtime.Installer.Frame.{Frame, IsUntouched, Frame-at_stage}
use quantum_runtime.Installer.Frame.Storage.{IsStable, Frame-capture_snapshot}
use quantum_runtime.Installer.Frame.Install.{
  Frame-check_install, Frame-config_ownership, Frame-install_files,
}
use quantum_runtime.Installer.Leads.{at_stage-ok}
use quantum_runtime.Installer.Snapshots.{snapshot_of}
use quantum_runtime.Installer.Rollback.{continue-ok, continue-eq, capture_snapshot-ok}
use quantum_runtime.Installer.Outcome.{
  IsApart, IsMarked, kept_config, read_file-ok, install_files-binary, install_files-config,
  install_files-unit, install_files-marker,
}

-- A step that leaves every path alone leaves the disk.
pub same_disk :
    {A : Type 0} (m : Action A) (w : World) → ((p : String) → Frame p m) → (m w).1.disk ≡ w.disk
same_disk m w h i p = (h p).same w i

-- Whether `Install` takes the configuration for its own, of the files at the marker's and at the
-- configuration's path; `none` where the marker cannot be decoded.
abbrev pub owned_by : Machine → (marker config : Option File) → Option Bool
owned_by mc none config = some (not (is_there config))
owned_by mc (some f) config =
    Option.map (λ (previous : Marker). previous.config_owned) (mc.decode f.content)

-- The disk behind an installation, of the disk before it.
pub record IsInstalled (mc : Machine) (m : Manager) (options : InstallOptions) (before after : Disk)
    : Type 0 where
  pub binary :
      after m.layout.binary
      ≡ some (record { content = content_of (before options.runtime_binary); mode = 493 })
  pub config : after m.layout.config ≡ kept_config (before m.layout.config)
  pub unit : after m.layout.unit ≡ some (record { content = systemd_unit; mode = 420 })
  pub owned : Bool
  pub takes : owned_by mc (before m.layout.marker) (before m.layout.config) ≡ some owned
  pub marker : IsMarked mc m owned (after m.layout.marker)
  pub others :
      (p : String)
      → IsStable mc p
      → p ≢ m.layout.binary
      → p ≢ m.layout.config
      → p ≢ m.layout.unit
      → p ≢ m.layout.marker
      → after p ≡ before p

module _ (mc : Machine) where
  rolled_back-fails :
      (cause : InstallError) (r : Result InstallError (Unit {0})) (w : World) (u : Unit {0})
      → (rolled_back mc cause r w).0 ≢ ok u
  unfolding throw
  rolled_back-fails cause (ok u) w u' e = cc
  rolled_back-fails cause (err x) w u' e = cc

  rollback-fails :
      (l : Layout) (old : Snapshot) (cause : InstallError) (w : World) (u : Unit {0})
      → (rollback mc l old cause w).0 ≢ ok u
  unfolding rollback ◌>>◌ ◌>>=◌ ignore
  rollback-fails l old cause w u e =
      let r = restore_snapshot mc l old w in
      let w1 = (execute mc ("systemctl" ∷ "daemon-reload" ∷ []) r.1).1 in
      rolled_back-fails cause r.0 _ u
        (continue-ok (λ u. rolled_back mc cause r.0) (reset_service mc old w1) u e).2

  handle-ok :
      (handler : InstallError → Action (Unit {0})) (r : Result InstallError (Unit {0}) × World)
      (u : Unit {0})
      → ((x : InstallError) (w : World) → (handler x w).0 ≢ ok u)
      → (handle handler r).0 ≡ ok u
      → (r.0 ≡ ok u) × (handle handler r ≡ r)
  handle-ok handler (ok v, w) u h e = (e, refl)
  handle-ok handler (err x, w) u h e = absurd (h x w e)

  decoded-ok : (o : Option Marker) (w : World) (k : Marker) → (decoded mc o w).0 ≡ ok k → o ≡ some k
  unfolding return throw
  decoded-ok none w k e = cc
  decoded-ok (some j) w k e = ap some (ok_injective e)

  pub read_marker-ok :
      (path : String) (w : World) (k : Marker)
      → (read_marker mc path w).0 ≡ ok k
      → (f : File) × (w.disk path ≡ some f) × (mc.decode f.content ≡ some k)
  unfolding read_marker ◌>>=◌
  read_marker-ok path w k e =
      let r = at_stage reading_marker (read_file mc path) w in
      let (f, found, next) = continue-ok (λ (f : File). decoded mc (mc.decode f.content)) r k e in
      (
        f,
        read_file-ok mc path w f (at_stage-ok reading_marker (read_file mc path) w f found),
        decoded-ok _ _ k next,
      )

  config_ownership-ok :
      (l : Layout) (binary config unit marker : Option File) (v : World) (owned : Bool)
      → v.disk l.marker ≡ marker
      → (config_ownership mc l
          (record {
            old_binary = binary;
            old_config = config;
            old_unit = unit;
            old_marker = marker;
          })
          v).0
        ≡ ok owned
      → owned_by mc marker config ≡ some owned
  unfolding return ◌>>=◌
  config_ownership-ok l binary config unit none v owned same e = ap some (ok_injective e)
  config_ownership-ok l binary config unit (some f) v owned same e =
      let (k, e1, e2) =
        continue-ok (λ (previous : Marker). return previous.config_owned)
          (read_marker mc l.marker v) owned e in
      let (g, found, is) = read_marker-ok l.marker v k e1 in
      let f_is_g = sym same ∙ found in cc (f_is_g, is, ok_injective e2)

  -- The steps behind the checks and the snapshot, of an installation that succeeds.
  abbrev pub IsRun : Manager → InstallOptions → World → Unit {0} → Snapshot → Type 0
  IsRun m options w u old =
      (owned : Bool) × (v : World) × (v.disk ≡ w.disk)
      × (owned_by mc old.old_marker old.old_config ≡ some owned)
      × ((install_files mc m options old owned v).0 ≡ ok u)
      × ((install mc m options w).1 ≡ (install_files mc m options old owned v).1)

  pub install-ok :
      (m : Manager) (options : InstallOptions) (w : World) (u : Unit {0})
      → (install mc m options w).0 ≡ ok u
      → IsRun m options w u (snapshot_of m.layout w.disk)
  unfolding install ◌>>◌ ◌>>=◌ on_error
  install-ok m options w u e =
      let r1 = check_install mc m options w in
      let (_, passed, e1) = continue-ok _ r1 u e in
      let r2 = at_stage capturing (capture_snapshot mc m.layout) r1.1 in
      let (old, captured, e2) = continue-ok _ r2 u e1 in
      let r3 = config_ownership mc m.layout old r2.1 in
      let (owned, known, e3) = continue-ok _ r3 u e2 in
      let r4 = install_files mc m options old owned r3.1 in
      let (done, last) =
        handle-ok (rollback mc m.layout old) r4 u (λ x v. rollback-fails m.layout old x v u) e3 in
      let same1 =
        same_disk (check_install mc m options) w (λ p. Frame-check_install mc m options) in
      let same2 =
        same_disk (at_stage capturing (capture_snapshot mc m.layout)) r1.1
          (λ p. Frame-at_stage capturing (Frame-capture_snapshot mc m.layout))
        ∙ same1 in
      let same3 =
        same_disk (config_ownership mc m.layout old) r2.1
          (λ p. Frame-config_ownership mc m.layout old)
        ∙ same2 in
      let taken =
        ap (snapshot_of m.layout) (sym same1)
        ∙ capture_snapshot-ok mc m.layout r1.1 old
            (at_stage-ok capturing (capture_snapshot mc m.layout) r1.1 old captured) in
      subst (IsRun m options w u) (sym taken) (
        owned,
        r3.1,
        same3,
        config_ownership-ok m.layout old.old_binary old.old_config old.old_unit old.old_marker r2.1
            owned
            (ap (λ (d : Disk). d m.layout.marker) same2 ∙ ap (λ (s : Snapshot). s.old_marker) taken)
            known,
        done,
        ap (λ r. r.1)
            (continue-eq _ r1 _ passed
              ∙ continue-eq _ r2 old captured
              ∙ continue-eq _ r3 owned known
              ∙ last),
      )

  -- An installation that succeeds, where the four managed paths differ, none is chosen for a
  -- temporary file, and no command changes a file there or the given binary: the binary is the file that was given, a configuration that was there is kept
  -- and else the default one is written, the unit is written, the marker says whether the
  -- configuration is the installer's (as the last marker said, or if there was none, whether there
  -- was no configuration), and every other path that is chosen for no temporary file and that no command
  -- changes is unchanged.
  pub install-IsInstalled :
      (m : Manager) (options : InstallOptions) (w : World)
      → IsApart mc m.layout
      → IsUntouched mc options.runtime_binary
      → (install mc m options w).0 ≡ ok tt
      → IsInstalled mc m options w.disk (install mc m options w).1.disk
  install-IsInstalled m options w apart kept e =
      let old = snapshot_of m.layout w.disk in
      let (owned, v, same, takes, done, last) = install-ok m options w tt e in
      let at = λ (p : String). ap (λ (d : Disk). d p) same in
      subst (λ (x : World). IsInstalled mc m options w.disk x.disk) (sym last)
        (record {
          binary =
              (install_files-binary mc m options old owned _ kept apart).leads v (at _) tt done;
          config =
              (install_files-config mc m options old owned _ refl apart).leads v (at _) tt done;
          unit = (install_files-unit mc m options old owned apart).leads v tt tt done;
          owned = owned;
          takes = takes;
          marker = (install_files-marker mc m options old owned apart).leads v tt tt done;
          others = λ p stable b c u k.
              (Frame-install_files mc m options old owned stable b c u k).same v ∙ at p;
        })

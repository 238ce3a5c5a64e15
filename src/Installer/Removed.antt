-- ===== src/Installer/Removed.antt =====
-- Removing an installation (`Uninstall`, internal/installer/installer.go), and what is left of one
-- that was made before.
use quantum_runtime.Prelude.{
  String, List, ◌∷◌, ◌≡◌, refl, sym, ◌∙◌, subst, ap, Bool, true, false, Option, some, Result, ok,
  ok_injective, string_eq, if◌then◌else◌,
}
use quantum_runtime.Installer.System.{
  File, Disk, Event, stat, InstallError, Machine, Marker, World, Action, ◌>>=◌, ◌>>◌, return,
}
use quantum_runtime.Installer.Storage.{Layout, is_there, file_exists}
use quantum_runtime.Installer.Setup.{
  ComponentStatus, ownership_of, runtime_ownership, managed, Manager,
}
use quantum_runtime.Installer.Install.{
  read_marker, check_root, uninstall_managed, uninstall_owned, uninstall,
}
use quantum_runtime.Installer.Frame.{Frame, IsUntouched, Frame-refuse_if}
use quantum_runtime.Installer.Frame.Install.{Frame-read_marker, Frame-runtime_ownership}
use quantum_runtime.Installer.Rollback.{continue-ok, continue-eq}
use quantum_runtime.Installer.Installed.{read_marker-ok, same_disk}
use quantum_runtime.Installer.Removal.{
  IsRemoved, removal, removal-marker, removal-files, removal-config, Frame-removal,
}

-- Asking for a file's data does not fail but for a file that is not there.
abbrev pub IsVisible : Machine → Type 0
IsVisible mc = (events : List Event) (path : String) → mc.succeeds events (stat path) ≡ true

module _ {A B : Type 0} where
  -- A sequence that succeeds, whose first step leaves the disk alone.
  pub next_same :
      (m : Action A) (k : A → Action B) (w : World) (b : B)
      → ((p : String) → Frame p m)
      → ((m >>= k) w).0 ≡ ok b
      → (a : A) × (v : World) × (v.disk ≡ w.disk)
        × ((m w).0 ≡ ok a)
        × ((k a v).0 ≡ ok b)
        × ((m >>= k) w ≡ k a v)
  unfolding ◌>>=◌
  next_same m k w b h e =
      let (a, e1, e2) = continue-ok k (m w) b e in
      (a, (m w).1, same_disk m w h, e1, e2, continue-eq k (m w) a e1)

module _ (mc : Machine) where
  -- What the three files say of the ownership.
  pub runtime_ownership-ok :
      (l : Layout) (w : World) (s : ComponentStatus)
      → IsVisible mc
      → (runtime_ownership mc l w).0 ≡ ok s
      → ownership_of
          (is_there (w.disk l.marker))
          (is_there (w.disk l.binary))
          (is_there (w.disk l.unit))
        ≡ s
  unfolding runtime_ownership file_exists return ◌>>=◌
  runtime_ownership-ok l w s visible e =
      let es = w.events in
      cc (
        seen es l.marker (w.disk l.marker),
        seen (stat l.marker ∷ es) l.binary (w.disk l.binary),
        seen (stat l.binary ∷ stat l.marker ∷ es) l.unit (w.disk l.unit),
        ok_injective e,
      )
    where
      seen :
          (events : List Event) (path : String) (f : Option File)
          → (if mc.succeeds events (stat path) then is_there f else false) ≡ is_there f
      seen events path f = rw (visible events path) refl

  ownership_managed :
      (s : ComponentStatus) (f : File) (marker : Option File) (binary unit : Bool)
      → marker ≡ some f
      → ownership_of (is_there marker) binary unit ≡ s
      → s.ownership ≡ managed
  unfolding ownership_of
  ownership_managed s f marker binary unit there is =
      ap (λ (s : ComponentStatus). s.ownership) (sym is) ∙ rw there refl

  removed :
      (l : Layout) (purge : Bool) (w : World) (f : File)
      → IsUntouched mc l.marker
      → IsUntouched mc l.config
      → w.disk l.marker ≡ some f
      → (uninstall_managed mc l purge w).0 ≡ ok tt
      → (k : Marker) × (mc.decode f.content ≡ some k)
        × IsRemoved mc l purge k w.disk (uninstall_managed mc l purge w).1.disk
  unfolding uninstall_managed
  removed l purge w f kept_marker kept_config here e =
      let (k, v, same, found, done, last) =
        next_same (read_marker mc l.marker) (removal mc l purge) w tt
          (λ p. Frame-read_marker mc l.marker) e in
      let (g, there, decoded) = read_marker-ok mc l.marker w k found in
      let at = λ (p : String). ap (λ (d : Disk). d p) same in
      (
        k,
        cc (here, there, decoded),
        subst
            (λ (r : Result InstallError (Unit {0}) × World). IsRemoved mc l purge k w.disk r.1.disk)
            (sym last)
            (record {
              marker = (removal-marker mc l purge k kept_marker).leads v tt tt done;
              files = λ p h listed. (removal-files mc l purge k p h listed).leads v tt tt done;
              config = λ b u m.
                  (removal-config mc l purge k _ kept_config b u m).leads v (at l.config) tt done;
              others = λ p h b c u m. (Frame-removal mc l purge k h b c u m).same v ∙ at p;
            }),
      )

  -- A removal that succeeds where the marker is there, on a machine where asking for a file's data
  -- does not fail and no command changes the files of the marker and the configuration: the marker
  -- could be decoded and is gone, each of the files that it lists and that no command changes is
  -- gone, a configuration at a path of its own is gone if that was asked for and the installer owns
  -- it and else is unchanged, and a file at none of the four managed paths that no command changes
  -- is unchanged.
  pub uninstall-IsRemoved :
      (m : Manager) (purge : Bool) (w : World) (f : File)
      → IsVisible mc
      → IsUntouched mc m.layout.marker
      → IsUntouched mc m.layout.config
      → w.disk m.layout.marker ≡ some f
      → (uninstall mc m purge w).0 ≡ ok tt
      → (k : Marker) × (mc.decode f.content ≡ some k)
        × IsRemoved mc m.layout purge k w.disk (uninstall mc m purge w).1.disk
  unfolding uninstall ◌>>◌
  uninstall-IsRemoved m purge w f visible kept_marker kept_config here e =
      let (_, v1, same1, _, e1, last1) =
        next_same (check_root mc m) _ w tt (λ p. Frame-refuse_if _ _) e in
      let (s, v2, same2, found, e2, last2) =
        next_same (runtime_ownership mc m.layout)
          (λ (s : ComponentStatus). uninstall_owned mc m.layout purge s.ownership) v1 tt
          (λ p. Frame-runtime_ownership mc m.layout) e1 in
      let at1 = ap (λ (d : Disk). d m.layout.marker) same1 ∙ here in
      let owned =
        ownership_managed s f _ _ _ at1 (runtime_ownership-ok m.layout v1 s visible found) in
      let (k, decodes, gone) =
        removed m.layout purge v2 f kept_marker kept_config
          (ap (λ (d : Disk). d m.layout.marker) same2 ∙ at1)
          (subst (λ o. (uninstall_owned mc m.layout purge o v2).0 ≡ ok tt) owned e2) in
      let last = last1 ∙ last2 ∙ ap (λ o. uninstall_owned mc m.layout purge o v2) owned in
      (
        k,
        decodes,
        subst (λ d. IsRemoved mc m.layout purge k d (uninstall mc m purge w).1.disk) (same2 ∙ same1)
            (subst
              (λ (r : Result InstallError (Unit {0}) × World).
                IsRemoved mc m.layout purge k v2.disk r.1.disk)
              (sym last) gone),
      )

-- ===== src/Installer/Outcome.antt =====
-- What an installation (`Install`, internal/installer/installer.go) that succeeds leaves at each of the
-- managed paths.
use Prim.Native.String.{◌++◌ as ◌<>◌}
use quantum_runtime.Prelude.{
  String, ℕ, List, [], ◌∷◌, ◌≡◌, ◌≢◌, refl, sym, ◌∙◌, subst, ap, Bool, Option, none, some, ok,
  ok_injective, string_eq,
}
use quantum_runtime.Installer.System.{
  File, Disk, Event, read, encoding_marker, Machine, Marker, World, Action, ◌>>=◌, ◌>>◌, return,
  throw, at_stage, attempt,
}
use quantum_runtime.Installer.Storage.{
  Layout, Snapshot, content_of, read_found, read_file, copy_atomic,
}
use quantum_runtime.Installer.Setup.{Manager}
use quantum_runtime.Installer.Install.{
  InstallOptions, systemd_unit, default_environment, encoded, marker_text, create_config,
  install_files,
}
use quantum_runtime.Installer.Frame.{
  IsUntouched, Frame-attempt, Frame-at_stage, Frame-return, frames,
}
use quantum_runtime.Installer.Frame.Storage.{IsStable, Frame-copy_atomic, Frame-write_atomic}
use quantum_runtime.Installer.Frame.Install.{
  Frame-ensure_identity, Frame-create_config, Frame-marker_text, Frame-start_if,
}
use quantum_runtime.Installer.Leads.{
  Leads, Anything, At, Leads-Anything, Leads->>, Leads-at_stage, Leads-Frame, Leads-weaken,
  at_stage-ok,
}
use quantum_runtime.Installer.Snapshots.{write_atomic-At}
use quantum_runtime.Installer.Rollback.{continue-ok, continue-eq}

-- The managed paths are four different ones, none is chosen for a temporary file, and no
-- command changes a file there.
pub record IsApart (mc : Machine) (l : Layout) : Type 0 where
  pub binary_config : l.binary ≢ l.config
  pub binary_unit : l.binary ≢ l.unit
  pub binary_marker : l.binary ≢ l.marker
  pub config_unit : l.config ≢ l.unit
  pub config_marker : l.config ≢ l.marker
  pub unit_marker : l.unit ≢ l.marker
  pub stable_binary : IsStable mc l.binary
  pub stable_config : IsStable mc l.config
  pub stable_unit : IsStable mc l.unit
  pub stable_marker : IsStable mc l.marker

-- What `Install` leaves as the configuration, of what was there.
abbrev pub kept_config : Option File → Option File
kept_config none = some (record { content = default_environment; mode = 416 })
kept_config (some f) = some f

-- The ownership marker of an installation.
abbrev pub marker_of : Manager → (owned : Bool) (time : String) → Marker
marker_of m owned time = record {
  version = m.version;
  managed_files = m.layout.binary ∷ m.layout.unit ∷ [];
  config_owned = owned;
  installed_at = time;
}

-- The marker file holds the marker, as it was at one time.
abbrev pub IsMarked : Machine → Manager → (owned : Bool) → Option File → Type 0
IsMarked mc m owned f =
    (events : List Event) × (text : String) × (mc.encode (marker_of m owned (mc.now events))
      ≡ some text)
    × (f ≡ some (record { content = text <> "\n"; mode = 384 }))

pub flip : {a b : String} → a ≢ b → b ≢ a
flip h e = h (sym e)

-- What a step leads to from any disk, it leads to behind any step.
pub anyway :
    {Q : Disk → Type 0} {B : Type 0} (m : Action (Unit {0})) {k : Action B}
    → Leads Anything Q k
    → Leads Anything Q (m >> k)
anyway m h = Leads->> Leads-Anything h

module _ (mc : Machine) where
  -- A step that gives a value, and what is done with it.
  pub leads_by :
      {A B : Type 0} (R : Disk → Type 0) (m : Action A) (k : A → Action B) (w : World) (b : B)
      → ((m >>= k) w).0 ≡ ok b
      → ((a : A) → (m w).0 ≡ ok a → (k a (m w).1).0 ≡ ok b → R (k a (m w).1).1.disk)
      → R ((m >>= k) w).1.disk
  unfolding ◌>>=◌
  leads_by R m k w b e h =
      let (a, e1, e2) = continue-ok k (m w) b e in
      subst (λ r. R r.1.disk) (sym (continue-eq k (m w) a e1)) (h a e1 e2)

  read_found-ok :
      (path : String) (o : Option File) (w : World) (f : File)
      → (read_found path o w).0 ≡ ok f
      → o ≡ some f
  unfolding read_found return throw
  read_found-ok path none w f e = cc
  read_found-ok path (some g) w f e = ap some (ok_injective e)

  pub read_file-ok :
      (path : String) (w : World) (f : File) → (read_file mc path w).0 ≡ ok f → w.disk path ≡ some f
  unfolding read_file ◌>>◌ ◌>>=◌
  read_file-ok path w f e =
      read_found-ok path (w.disk path) _ f (continue-ok _ (attempt mc (read path) w) f e).2

  copy_atomic-At :
      (source path : String) (mode : ℕ) (f : Option File)
      → IsStable mc path
      → Leads
          (At source f)
          (At path (some (record { content = content_of f; mode = mode })))
          (copy_atomic mc source path mode)
  unfolding copy_atomic
  copy_atomic-At source path mode f stable = record {
    leads = λ w at u e.
        leads_by (At path (some (record { content = content_of f; mode = mode })))
          (read_file mc source) _ w u e
          (λ g found written.
            (write_atomic-At mc path g.content mode stable).leads _ tt u written
            ∙ ap (λ o. some (record { content = content_of o; mode = mode }))
                (sym (read_file-ok source w g found) ∙ at));
  }

  module _ (m : Manager) (options : InstallOptions) (old : Snapshot) (owned : Bool) where
    pub install_files-binary :
        (f : Option File)
        → IsUntouched mc options.runtime_binary
        → IsApart mc m.layout
        → Leads
            (At options.runtime_binary f)
            (At m.layout.binary (some (record { content = content_of f; mode = 493 })))
            (install_files mc m options old owned)
    unfolding install_files
    install_files-binary f kept apart = Leads->> (Leads-Frame (Frame-ensure_identity mc kept)) (
        Leads->> (Leads-Frame (Frame-at_stage _ (Frame-attempt mc _))) (
          Leads->> (Leads-Frame (Frame-at_stage _ (Frame-attempt mc _))) (
            Leads->> (Leads-at_stage _ (copy_atomic-At _ m.layout.binary 493 f apart.stable_binary))
              (Leads-Frame (
                search
                  (
                    frames, Frame-write_atomic, Frame-create_config, Frame-marker_text,
                    Frame-start_if, apart.stable_binary, apart.stable_binary.untouched,
                    apart.binary_config, apart.binary_unit, apart.binary_marker,
                  )
                  depth 40)))))

    create_config-At :
        (o : Option File)
        → old.old_config ≡ o
        → IsStable mc m.layout.config
        → Leads
            (At m.layout.config o)
            (At m.layout.config (kept_config o))
            (create_config mc m.layout old)
    create_config-At none e stable =
        rw e (Leads-weaken (Leads-at_stage _ (write_atomic-At mc _ default_environment 416 stable)))
    create_config-At (some f) e stable = rw e (Leads-Frame (Frame-return tt))

    pub install_files-config :
        (o : Option File)
        → old.old_config ≡ o
        → IsApart mc m.layout
        → Leads
            (At m.layout.config o)
            (At m.layout.config (kept_config o))
            (install_files mc m options old owned)
    unfolding install_files
    install_files-config o e apart =
        Leads->> (Leads-Frame (Frame-ensure_identity mc apart.stable_config.untouched)) (
          Leads->> (Leads-Frame (Frame-at_stage _ (Frame-attempt mc _))) (
            Leads->> (Leads-Frame (Frame-at_stage _ (Frame-attempt mc _))) (
              Leads->>
                (Leads-Frame (
                  Frame-at_stage _
                    (Frame-copy_atomic mc _ _ apart.stable_config (flip apart.binary_config))))
                (Leads->> (create_config-At o e apart.stable_config) (
                  Leads-Frame (
                    search
                      (
                        frames, Frame-write_atomic, Frame-marker_text, Frame-start_if,
                        apart.stable_config, apart.stable_config.untouched, apart.config_unit,
                        apart.config_marker,
                      )
                      depth 40))))))

    pub install_files-unit :
        IsApart mc m.layout
        → Leads Anything
            (At m.layout.unit (some (record { content = systemd_unit; mode = 420 })))
            (install_files mc m options old owned)
    unfolding install_files
    install_files-unit apart = anyway _ (
        anyway _ (
          anyway _ (
            anyway _ (
              anyway _ (
                Leads->>
                  (Leads-at_stage _ (write_atomic-At mc _ systemd_unit 420 apart.stable_unit))
                  (Leads-Frame (
                    search
                      (
                        frames, Frame-write_atomic, Frame-marker_text, Frame-start_if,
                        apart.stable_unit, apart.stable_unit.untouched, apart.unit_marker,
                      )
                      depth 40)))))))

    encoded-ok :
        (o : Option String) (w : World) (text : String)
        → (encoded mc o w).0 ≡ ok text
        → (t : String) × (o ≡ some t) × (t <> "\n" ≡ text)
    unfolding return throw
    encoded-ok none w text e = cc
    encoded-ok (some t) w text e = (t, refl, ok_injective e)

    pub install_files-marker :
        IsApart mc m.layout
        → Leads Anything
            (λ d. IsMarked mc m owned (d m.layout.marker))
            (install_files mc m options old owned)
    unfolding install_files
    install_files-marker apart = anyway _ (
        anyway _ (
          anyway _ (
            anyway _ (
              anyway _ (
                anyway _ (record {
                  leads = λ w u b e.
                      leads_by (λ d. IsMarked mc m owned (d m.layout.marker))
                        (at_stage encoding_marker (marker_text mc m owned)) _ w b e
                        (λ text made written.
                          let (t, from, is) =
                            encoded-ok _ w text
                              (at_stage-ok encoding_marker (marker_text mc m owned) w text made) in
                          (
                            w.events,
                            t,
                            from,
                            (Leads->>
                                    (Leads-at_stage _
                                      (write_atomic-At mc _ text 384 apart.stable_marker))
                                    (Leads-Frame (
                                      search (
                                        frames, Frame-start_if, apart.stable_marker.untouched,
                                      )))).leads
                                  _ tt b written
                                ∙ ap (λ t. some (record { content = t; mode = 384 })) (sym is),
                          ));
                }))))))

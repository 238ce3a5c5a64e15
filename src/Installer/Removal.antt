-- ===== src/Installer/Removal.antt =====
-- What removing an installation (`Uninstall`, internal/installer/installer.go) leaves on the disk.
use quantum_runtime.Prelude.{
  String, List, [], ◌∷◌, ◌≡◌, ◌≢◌, subst, Bool, true, false, ◌&&◌, Option, none, inl, inr, ◌==◌,
  string_eq, Bool-cases, if◌then◌else◌,
}
use mathlib.Core.List.{Memᴰ}
use text.Mathlib.TextEquality.{eq_iff}
use quantum_runtime.Installer.System.{File, Disk, Machine, Marker, Action, ◌>>◌, ignore}
use quantum_runtime.Installer.Storage.{Layout, remove_if_exists}
use quantum_runtime.Installer.Setup.{service_name}
use quantum_runtime.Installer.Install.{systemctl, remove_managed, purge_if}
use quantum_runtime.Installer.Frame.{
  Frame, IsUntouched, Frame-execute, Frame-ignore, Frame-return, Frame-refuse_if, frames,
}
use quantum_runtime.Installer.Frame.Storage.{Frame-remove_if_exists}
use quantum_runtime.Installer.Frame.Install.{Frame-remove_managed}
use quantum_runtime.Installer.Leads.{
  Leads, Anything, At, Leads->>, Leads-if, Leads-Frame, Leads-weaken,
}
use quantum_runtime.Installer.Snapshots.{remove_if_exists-At}
use quantum_runtime.Installer.Outcome.{anyway}

module _ (mc : Machine) (p : String) where
  -- A path without a file stays without one.
  remove_if_exists-keeps :
      (path : String) → Leads (At p none) (At p none) (remove_if_exists mc path)
  remove_if_exists-keeps path = elim (Bool-cases (p == path)) [
    | inl e ↦ Leads-weaken (
        subst (λ q. Leads Anything (At p none) (remove_if_exists mc q)) ((eq_iff p path).0 e)
          (remove_if_exists-At mc p))
    | inr e ↦ Leads-Frame (Frame-remove_if_exists mc (λ same. cc ((eq_iff p path).1 same, e)))
  ]

  remove_managed-keeps :
      (l : Layout) (paths : List String) → Leads (At p none) (At p none) (remove_managed mc l paths)
  unfolding remove_managed
  remove_managed-keeps l [] = Leads-Frame (Frame-return tt)
  remove_managed-keeps l (path ∷ paths) =
      Leads->> (Leads-Frame (Frame-refuse_if _ _))
        (Leads->> (remove_if_exists-keeps path) (remove_managed-keeps l paths))

  remove_managed-At :
      (l : Layout) (paths : List String)
      → Memᴰ p paths
      → Leads Anything (At p none) (remove_managed mc l paths)
  unfolding remove_managed
  remove_managed-At l [] h = elim h [ ]
  remove_managed-At l (path ∷ paths) (Memᴰ.head e) = anyway _ (
      Leads->>
        (subst (λ q. Leads Anything (At p none) (remove_if_exists mc q)) e
          (remove_if_exists-At mc p))
        (remove_managed-keeps l paths))
  remove_managed-At l (path ∷ paths) (Memᴰ.tail h) =
      anyway _ (anyway _ (remove_managed-At l paths h))

  purge_if-keeps :
      (test : Bool) (path : String) → Leads (At p none) (At p none) (purge_if mc test path)
  purge_if-keeps test path =
      Leads-if test (remove_if_exists-keeps path) (Leads-Frame (Frame-return tt))

-- The disk behind a removal, of the disk before it and of the marker that stood there.
pub record IsRemoved (mc : Machine) (l : Layout) (purge : Bool) (k : Marker) (before after : Disk)
    : Type 0 where
  pub marker : after l.marker ≡ none
  pub files : (p : String) → IsUntouched mc p → Memᴰ p k.managed_files → after p ≡ none
  pub config :
      l.config ≢ l.binary
      → l.config ≢ l.unit
      → l.config ≢ l.marker
      → after l.config ≡ (if purge && k.config_owned then none else before l.config)
  pub others :
      (p : String)
      → IsUntouched mc p
      → p ≢ l.binary
      → p ≢ l.config
      → p ≢ l.unit
      → p ≢ l.marker
      → after p ≡ before p

module _ (mc : Machine) (l : Layout) (purge : Bool) where
  -- What `Uninstall` does with the marker.
  abbrev pub removal : Marker → Action (Unit {0})
  removal k = do
    ignore (systemctl mc ("disable" ∷ "--now" ∷ service_name ∷ []))
    remove_managed mc l k.managed_files
    purge_if mc (purge && k.config_owned) l.config
    remove_if_exists mc l.marker
    ignore (systemctl mc ("daemon-reload" ∷ []))

  Leads-reload :
      {p : String} {f : Option File}
      → IsUntouched mc p
      → Leads (At p f) (At p f) (ignore (systemctl mc ("daemon-reload" ∷ [])))
  Leads-reload h = Leads-Frame (Frame-ignore (Frame-execute mc _ h))

  pub removal-marker :
      (k : Marker) → IsUntouched mc l.marker → Leads Anything (At l.marker none) (removal k)
  removal-marker k h =
      anyway _ (anyway _ (anyway _ (Leads->> (remove_if_exists-At mc l.marker) (Leads-reload h))))

  pub removal-files :
      (k : Marker) (p : String)
      → IsUntouched mc p
      → Memᴰ p k.managed_files
      → Leads Anything (At p none) (removal k)
  removal-files k p free h = anyway _ (
      Leads->> (remove_managed-At mc p l k.managed_files h) (
        Leads->> (purge_if-keeps mc p _ l.config)
          (Leads->> (remove_if_exists-keeps mc p l.marker) (Leads-reload free))))

  purge_if-At :
      (test : Bool) (f : Option File)
      → Leads (At l.config f) (At l.config (if test then none else f)) (purge_if mc test l.config)
  purge_if-At true f = Leads-weaken (remove_if_exists-At mc l.config)
  purge_if-At false f = Leads-Frame (Frame-return tt)

  pub removal-config :
      (k : Marker) (f : Option File)
      → IsUntouched mc l.config
      → l.config ≢ l.binary
      → l.config ≢ l.unit
      → l.config ≢ l.marker
      → Leads
          (At l.config f)
          (At l.config (if purge && k.config_owned then none else f))
          (removal k)
  removal-config k f h b u m = Leads->> (Leads-Frame (Frame-ignore (Frame-execute mc _ h))) (
      Leads->> (Leads-Frame (Frame-remove_managed mc l k.managed_files b u)) (
        Leads->> (purge_if-At _ f)
          (Leads->> (Leads-Frame (Frame-remove_if_exists mc m)) (Leads-reload h))))

  pub Frame-removal :
      {p : String} (k : Marker)
      → IsUntouched mc p
      → p ≢ l.binary
      → p ≢ l.config
      → p ≢ l.unit
      → p ≢ l.marker
      → Frame p (removal k)
  Frame-removal k h b c u m =
      search (frames, Frame-remove_managed, Frame-remove_if_exists, h, b, c, u, m) depth 20

-- ===== src/Installer/Snapshots.antt =====
-- What the file operations of the installer (internal/installer/installer.go) lead to: an atomic
-- write, a removal, a snapshot and its restoration.
use quantum_runtime.Prelude.{
  ℕ, String, ◌≡◌, ◌≢◌, refl, subst, ap, Option, none, some, ◌⊎◌, inl, inr, ◌==◌, string_eq,
  Bool-cases,
}
use text.Mathlib.TextEquality.{eq_iff}
use quantum_runtime.Installer.System.{File, Disk, Event, Machine, ignore}
use quantum_runtime.Installer.Storage.{
  Layout, Snapshot, content_of, move, or_close, with_temp, fill_temp, write_atomic,
  remove_if_exists, restore_file, restore_snapshot,
}
use quantum_runtime.Installer.Frame.{Frame-set_file, put_here}
use quantum_runtime.Installer.Frame.Storage.{IsStable, Frame-remove_temp, Frame-restore_file}
use quantum_runtime.Installer.Leads.{
  Leads, Anything, Leads-Anything, At, Leads->>, Leads-throw, Leads-on_error, Leads-Frame,
  Leads-deferring, Leads-weaken, Leads-set_file, Leads-attempt, Leads-put,
}

abbrev pub snapshot_of : Layout → Disk → Snapshot
snapshot_of l d = record {
  old_binary = d l.binary;
  old_config = d l.config;
  old_unit = d l.unit;
  old_marker = d l.marker;
}

abbrev pub IsManagedPath : Layout → String → Type 0
IsManagedPath l p = (p ≡ l.binary) ⊎ (p ≡ l.config) ⊎ (p ≡ l.unit) ⊎ (p ≡ l.marker)

module _ (mc : Machine) where
  Leads-or_close :
      {P : Disk → Type 0} (temp : String) (event : Event) → Leads P P (or_close mc temp event)
  unfolding or_close ignore
  Leads-or_close temp event =
      Leads-on_error (λ x. Leads->> {Q = Anything} Leads-Anything (Leads-throw x))
        (Leads-attempt mc event)

  Leads-move :
      {f : Option File} {temp path : String}
      → path ≢ temp
      → Leads (At temp f) (At path f) (move temp path)
  unfolding move
  Leads-move other = Leads->> (Leads-set_file _ (λ d at. at)) (Leads-Frame (Frame-set_file _ other))

  fill_temp-At :
      (temp path content : String) (mode : ℕ)
      → path ≢ temp
      → Leads Anything
          (At path (some (record { content = content; mode = mode })))
          (fill_temp mc temp path content mode)
  unfolding fill_temp
  fill_temp-At temp path content mode other = Leads->> (Leads-or_close temp _) (
      Leads->> {Q = λ d. content_of (d temp) ≡ content}
        (Leads-put _ _ (λ d u. ap content_of (put_here temp _ d)))
        (Leads->> (Leads-or_close temp _) (
          Leads->>
            (Leads-set_file temp (λ d e. ap (λ c. some (record { content = c; mode = mode })) e))
            (Leads->> (Leads-or_close temp _)
              (Leads->> (Leads-attempt mc _) (Leads->> (Leads-attempt mc _) (Leads-move other)))))))

  pub write_atomic-At :
      (path content : String) (mode : ℕ)
      → IsStable mc path
      → Leads Anything
          (At path (some (record { content = content; mode = mode })))
          (write_atomic mc path content mode)
  unfolding write_atomic with_temp
  write_atomic-At path content mode stable = Leads->> (Leads-attempt mc _) (record {
    leads = λ w p a e.
        let temp = mc.temp_name w.events (mc.directory_of path) in
        let other = stable.unnamed w.events (mc.directory_of path) in
        (Leads->> {P = Anything} (Leads-attempt mc _) (
            Leads->> {Q = Anything} Leads-Anything (
              Leads-deferring (Frame-remove_temp mc other)
                (fill_temp-At temp path content mode other)))).leads
          w tt a e;
  })

  pub remove_if_exists-At :
      (path : String) → Leads Anything (At path none) (remove_if_exists mc path)
  unfolding remove_if_exists
  remove_if_exists-At path = Leads->> (Leads-attempt mc _) (Leads-set_file path (λ d u. refl))

  restore_file-At :
      (path : String) (f : Option File)
      → IsStable mc path
      → Leads Anything (At path f) (restore_file mc path f)
  unfolding restore_file
  restore_file-At path none stable = remove_if_exists-At path
  restore_file-At path (some f) stable = write_atomic-At path f.content f.mode stable

  -- The body of the loop, run on what a disk held, brings its path back.
  restore_file-here :
      (d : Disk) (p path : String)
      → p ≡ path
      → IsStable mc p
      → Leads Anything (At p (d p)) (restore_file mc path (d path))
  restore_file-here d p path e stable =
      subst (λ q. Leads Anything (At p (d p)) (restore_file mc q (d q))) e
        (restore_file-At p (d p) stable)

  -- It changes no path that holds what it held.
  restore_file-keeps :
      (d : Disk) (p path : String)
      → IsStable mc p
      → Leads (At p (d p)) (At p (d p)) (restore_file mc path (d path))
  restore_file-keeps d p path stable = elim (Bool-cases (p == path)) [
    | inl e ↦ Leads-weaken (restore_file-here d p path ((eq_iff p path).0 e) stable)
    | inr e ↦
        Leads-Frame (Frame-restore_file mc (d path) stable (λ same. cc ((eq_iff p path).1 same, e)))
  ]

  pub restore_snapshot-keeps :
      (l : Layout) (d : Disk) (p : String)
      → IsStable mc p
      → Leads (At p (d p)) (At p (d p)) (restore_snapshot mc l (snapshot_of l d))
  unfolding restore_snapshot
  restore_snapshot-keeps l d p stable = Leads->> (restore_file-keeps d p _ stable) (
      Leads->> (restore_file-keeps d p _ stable)
        (Leads->> (restore_file-keeps d p _ stable) (restore_file-keeps d p _ stable)))

  -- The file of a managed path comes back, whatever became of it.
  pub restore_snapshot-At :
      (l : Layout) (d : Disk) (p : String)
      → IsStable mc p
      → IsManagedPath l p
      → Leads Anything (At p (d p)) (restore_snapshot mc l (snapshot_of l d))
  unfolding restore_snapshot
  restore_snapshot-At l d p stable (inl e) = Leads->> (restore_file-here d p _ e stable) (
      Leads->> (restore_file-keeps d p _ stable)
        (Leads->> (restore_file-keeps d p _ stable) (restore_file-keeps d p _ stable)))
  restore_snapshot-At l d p stable (inr (inl e)) = Leads->> {Q = Anything} Leads-Anything (
      Leads->> (restore_file-here d p _ e stable)
        (Leads->> (restore_file-keeps d p _ stable) (restore_file-keeps d p _ stable)))
  restore_snapshot-At l d p stable (inr (inr (inl e))) = Leads->> {Q = Anything} Leads-Anything (
      Leads->> {Q = Anything} Leads-Anything
        (Leads->> (restore_file-here d p _ e stable) (restore_file-keeps d p _ stable)))
  restore_snapshot-At l d p stable (inr (inr (inr e))) = Leads->> {Q = Anything} Leads-Anything (
      Leads->> {Q = Anything} Leads-Anything
        (Leads->> {Q = Anything} Leads-Anything (restore_file-here d p _ e stable)))

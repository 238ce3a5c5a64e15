-- ===== src/Installer/Storage.antt =====
-- The file operations of the installer (internal/installer/installer.go): atomic writes, removal, and
-- the snapshot of the managed files.
use quantum_runtime.Prelude.{
  ℕ, String, ◌∷◌, Bool, true, false, Option, none, some, ok, string_eq, if◌then◌else◌,
}
use quantum_runtime.Installer.System.{
  File, Disk, Event, make_directory, stat, read, remove, sync, close, create_temp, write, chmod,
  rename, not_exist, Machine, Action, ◌>>=◌, ◌>>◌, return, throw, ignore, deferring, on_error,
  set_file, attempt,
}

pub record Layout : Type 0 where
  pub root : String
  pub binary : String
  pub config_directory : String
  pub config : String
  pub unit : String
  pub marker : String

-- Each managed file, or `none` where it does not exist.
pub record Snapshot : Type 0 where
  pub old_binary : Option File
  pub old_config : Option File
  pub old_unit : Option File
  pub old_marker : Option File

abbrev pub content_of : Option File → String
content_of none = ""
content_of (some f) = f.content

abbrev pub mode_of : Option File → ℕ
mode_of none = 384
mode_of (some f) = f.mode

abbrev pub with_content : String → String → Disk → Option File
with_content path content d = some (record { content = content; mode = mode_of (d path) })

abbrev pub with_mode : String → ℕ → Disk → Option File
with_mode path mode d = some (record { content = content_of (d path); mode = mode })

-- The disk after `os.Rename` of one file.
unfoldable pub move : String → String → Action (Unit {0})
move source target = do set_file target (λ d. d source); set_file source (λ d. none)

abbrev pub is_there : Option File → Bool
is_there none = false
is_there (some f) = true

unfoldable pub read_found : String → Option File → Action File
read_found path none = throw (not_exist path)
read_found path (some f) = return f

module _ (mc : Machine) where
  -- A step on the open temporary file, which is closed if the step fails.
  unfoldable pub or_close : String → Event → Action (Unit {0})
  or_close temp event =
      on_error (λ e. ignore (attempt mc (close temp)) >> throw e) (attempt mc event)

  -- `os.CreateTemp`, an empty file under a new name that only the owner can read, and what is done
  -- with that name behind it.
  unfoldable pub with_temp : String → (String → Action (Unit {0})) → Action (Unit {0})
  with_temp directory k w =
      let name = mc.temp_name w.events directory in
      (do
        attempt mc (create_temp directory)
        set_file name (λ d. some (record { content = ""; mode = 384 }))
        k name)
        w

  -- `os.Remove` of the temporary file.
  unfoldable pub remove_temp : String → Action (Unit {0})
  remove_temp temp = do attempt mc (remove temp); set_file temp (λ d. none)

  -- What `writeAtomic` does behind `os.CreateTemp`.
  unfoldable pub fill_temp : String → String → String → ℕ → Action (Unit {0})
  fill_temp temp path content mode = do
    or_close temp (write temp content)
    set_file temp (with_content temp content)
    or_close temp (chmod temp mode)
    set_file temp (with_mode temp mode)
    or_close temp (sync temp)
    attempt mc (close temp)
    attempt mc (rename temp path)
    move temp path

  unfoldable pub write_atomic : String → String → ℕ → Action (Unit {0})
  write_atomic path content mode = do
    attempt mc (make_directory (mc.directory_of path) 493)
    with_temp (mc.directory_of path)
        (λ temp. deferring (remove_temp temp) (fill_temp temp path content mode))

  -- `os.ReadFile`.
  unfoldable pub read_file : String → Action File
  read_file path w = (attempt mc (read path) >> read_found path (w.disk path)) w

  unfoldable pub copy_atomic : String → String → ℕ → Action (Unit {0})
  copy_atomic source destination mode = do
    f ← read_file source
    write_atomic destination f.content mode

  -- `os.Remove`, where a file that does not exist is no error.
  unfoldable pub remove_if_exists : String → Action (Unit {0})
  remove_if_exists path = do attempt mc (remove path); set_file path (λ d. none)

  unfoldable pub read_existing : String → Option File → Action (Option File)
  read_existing path none = return none
  read_existing path (some f) = attempt mc (read path) >> return (some f)

  unfoldable pub read_optional : String → Action (Option File)
  read_optional path w = (attempt mc (stat path) >> read_existing path (w.disk path)) w

  unfoldable pub capture_snapshot : Layout → Action Snapshot
  capture_snapshot l = do
    binary ← read_optional l.binary
    config ← read_optional l.config
    unit ← read_optional l.unit
    marker ← read_optional l.marker
    return
        (record { old_binary = binary; old_config = config; old_unit = unit; old_marker = marker })

  -- The body of the loop of `restoreSnapshot`.
  unfoldable pub restore_file : String → Option File → Action (Unit {0})
  restore_file path none = remove_if_exists path
  restore_file path (some f) = write_atomic path f.content f.mode

  unfoldable pub restore_snapshot : Layout → Snapshot → Action (Unit {0})
  restore_snapshot l old = do
    restore_file l.binary old.old_binary
    restore_file l.config old.old_config
    restore_file l.unit old.old_unit
    restore_file l.marker old.old_marker

  -- `fileExists`.
  unfoldable pub file_exists : String → Action Bool
  file_exists path w = (
    ok (if mc.succeeds w.events (stat path) then is_there (w.disk path) else false),
    record w { events = stat path ∷ w.events },
  )

-- ===== src/Installer/System.antt =====
-- The machine that the installer (internal/installer/installer.go) acts on: the disk, and the calls of
-- the operating system, of commands and of HTTP probes, each of which may fail. Whether a call
-- succeeds is up to the machine, which sees all earlier calls. A failing call of the operating system
-- leaves the disk as it was; a command may change any file, whether it fails or not, but for the
-- commands that only report.
use quantum_runtime.Prelude.{
  ℕ, String, List, ◌∷◌, Bool, true, false, Option, Result, ok, err, ◌==◌, string_eq, if◌then◌else◌,
}

-- A regular file, with its permission bits.
pub record File : Type 0 where
  pub content : String
  pub mode : ℕ

abbrev pub Disk : Type 0
Disk = String → Option File

abbrev pub put : String → Option File → Disk → Disk
put path file disk p = if p == path then file else disk p

pub data Event : Type 0 where
  make_directory : (path : String) (mode : ℕ) → Event
  stat read remove sync close : (path : String) → Event
  create_temp : (directory : String) → Event
  write : (path content : String) → Event
  chmod : (path : String) (mode : ℕ) → Event
  rename : (from_path to_path : String) → Event
  run : List String → Event
  probe : (url : String) → Event
  pause : Event

pub data Stage : Type 0 where
  inspecting capturing reading_marker decoding_marker creating_group creating_user : Stage
  making_binary_directory making_config_directory installing_binary creating_config : Stage
  installing_unit encoding_marker writing_marker reloading enabling activating : Stage

pub data InstallError : Type 0 where
  call_failed : Event → InstallError
  not_exist : String → InstallError
  during : Stage → InstallError → InstallError
  root_required binary_required not_regular systemd_required ollama_not_ready : InstallError
  externally_owned not_managed not_ready encoding_failed decoding_failed : InstallError
  unexpected_path : String → InstallError
  rollback_failed : (cause failure : InstallError) → InstallError

pub record Marker : Type 0 where
  pub version : String
  pub managed_files : List String
  pub config_owned : Bool
  pub installed_at : String

-- What the operating system answers, and the functions of `path/filepath`, `encoding/json` and
-- `time` that the installer calls.
pub record Machine : Type 0 where
  pub succeeds : List Event → Event → Bool
  -- What a command leaves of the disk, of the calls before it and of its arguments.
  pub effect : List Event → List String → Disk → Disk
  -- The name that `os.CreateTemp` chooses in a directory.
  pub temp_name : List Event → String → String
  -- `info.Mode().IsRegular()`.
  pub is_regular : String → Bool
  -- `os.Geteuid() == 0`.
  pub is_root : Bool
  -- `m.Now().UTC().Format(time.RFC3339)`.
  pub now : List Event → String
  -- `filepath.Dir` and `filepath.Join` of two parts.
  pub directory_of : String → String
  pub join : String → String → String
  -- `json.MarshalIndent` and `json.Unmarshal`.
  pub encode : Marker → Option String
  pub decode : String → Option Marker

-- The calls that were made, the newest first.
pub record World : Type 0 where
  pub disk : Disk
  pub events : List Event

abbrev pub Action : Type 0 → Type 0
Action A = World → Result InstallError A × World

-- `if err != nil { return err }` behind a step.
abbrev pub continue :
    {A B : Type 0} → (A → Action B) → Result InstallError A × World → Result InstallError B × World
continue k (ok a, w) = k a w
continue k (err e, w) = (err e, w)

infixl 5 ◌>>=◌ ◌>>◌
unfoldable pub ◌>>=◌ : {A B : Type 0} → Action A → (A → Action B) → Action B
(m >>= k) w = continue k (m w)

unfoldable pub ◌>>◌ : {B : Type 0} → Action (Unit {0}) → Action B → Action B
m >> k = m >>= λ _. k

unfoldable pub return : {A : Type 0} → A → Action A
return a w = (ok a, w)

unfoldable pub throw : {A : Type 0} → InstallError → Action A
throw e w = (err e, w)

unfoldable pub refuse_if : Bool → InstallError → Action (Unit {0})
refuse_if test e w = (if test then err e else ok tt, w)

-- An error that says at which stage it arose.
abbrev pub wrap :
    {A : Type 0}
    → (InstallError → InstallError)
    → Result InstallError A × World
    → Result InstallError A × World
wrap f (ok a, w) = (ok a, w)
wrap f (err e, w) = (err (f e), w)

unfoldable pub at_stage : {A : Type 0} → Stage → Action A → Action A
at_stage stage m w = wrap (during stage) (m w)

-- A step whose result is dropped, as in `_, _ = ...`.
unfoldable pub ignore : {A : Type 0} → Action A → Action (Unit {0})
ignore m w = (ok tt, (m w).1)

-- `err == nil` of a step.
abbrev pub is_ok : {A : Type 0} → Result InstallError A × World → Result InstallError Bool × World
is_ok (ok a, w) = (ok true, w)
is_ok (err e, w) = (ok false, w)

unfoldable pub succeeded : {A : Type 0} → Action A → Action Bool
succeeded m w = is_ok (m w)

-- `defer`: the cleanup runs behind the step whatever its result, and its own result is dropped.
abbrev pub cleanup :
    {A : Type 0} → Action (Unit {0}) → Result InstallError A × World → Result InstallError A × World
cleanup after (r, w) = (r, (after w).1)

unfoldable pub deferring : {A : Type 0} → Action (Unit {0}) → Action A → Action A
deferring after m w = cleanup after (m w)

-- A handler that runs behind an error and returns an error in its place.
abbrev pub handle :
    {A : Type 0}
    → (InstallError → Action A)
    → Result InstallError A × World
    → Result InstallError A × World
handle handler (ok a, w) = (ok a, w)
handle handler (err e, w) = handler e w

unfoldable pub on_error : {A : Type 0} → (InstallError → Action A) → Action A → Action A
on_error handler m w = handle handler (m w)

-- The disk after a call that writes or removes the file at one path.
unfoldable pub set_file : String → (Disk → Option File) → Action (Unit {0})
set_file path f w = (ok tt, record w { disk = put path (f w.disk) w.disk })

module _ (mc : Machine) where
  unfoldable pub attempt : Event → Action (Unit {0})
  attempt event w = (
    if mc.succeeds w.events event then ok tt else err (call_failed event),
    record w { events = event ∷ w.events },
  )

  -- `Runner.Run` of a command that only reports: `systemctl --version`, `getent`, `id`.
  abbrev pub query : List String → Action (Unit {0})
  query arguments = attempt (run arguments)

  -- `Runner.Run` of any other command.
  unfoldable pub execute : List String → Action (Unit {0})
  execute arguments w = (
    if mc.succeeds w.events (run arguments) then ok tt else err (call_failed (run arguments)),
    record { disk = mc.effect w.events arguments w.disk; events = run arguments ∷ w.events },
  )

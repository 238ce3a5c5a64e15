-- ===== src/Tests/Installer.antt =====
-- A machine on which an installation succeeds, one on which the new binary cannot be moved to its
-- place, and one on which the service comes up at the second round.
use Prim.Native.String.{◌++◌ as ◌<>◌}
use quantum_runtime.Prelude.{
  String, ◌≡◌, refl, sym, ap, List, [], ◌∷◌, ◌+◌, ◌≤◌, Bool, true, false, not, ◌&&◌, Option, none,
  some, ok, err, ◌==◌, string_eq, if◌then◌else◌, length,
}
use quantum_runtime.Prelude.Text.{trim_space, trim_slashes, unlines}
use text.Mathlib.TextEquality.{eq_iff}
use quantum_runtime.Installer.System.{
  Event, put, rename, call_failed, during, installing_binary, Machine, Marker, World, ◌>>=◌, ◌>>◌,
  return, throw, refuse_if, at_stage, ignore, succeeded, deferring, on_error, set_file, attempt,
  execute,
}
use quantum_runtime.Installer.Storage.{
  Layout, move, read_found, or_close, with_temp, remove_temp, fill_temp, write_atomic, read_file,
  copy_atomic, remove_if_exists, read_existing, read_optional, capture_snapshot, restore_file,
  restore_snapshot, file_exists,
}
use quantum_runtime.Installer.Setup.{
  Manager, ownership_of, assess, runtime_ownership, ollama_status, preflight, ensure_identity,
  wait_rounds, wait_ready,
}
use quantum_runtime.Installer.Install.{
  systemd_unit, default_environment, InstallOptions, read_marker, rollback, install_files,
  check_install, install, remove_managed, uninstall_managed, uninstall,
}
use quantum_runtime.Installer.Frame.{IsUntouched}
use quantum_runtime.Installer.Frame.Storage.{IsStable}
use quantum_runtime.Installer.Rollback.{install-undone}
use quantum_runtime.Installer.Outcome.{IsApart}
use quantum_runtime.Installer.Installed.{IsInstalled, install-IsInstalled}
use quantum_runtime.Installer.Removal.{IsRemoved}
use quantum_runtime.Installer.Removed.{uninstall-IsRemoved}
use quantum_runtime.Installer.Roundtrip.{uninstall-install}
use quantum_runtime.Installer.Ready.{IsReady, wait_ready_ends}

abbrev layout : Layout
layout = record {
  root = "/";
  binary = "bin";
  config_directory = "etc";
  config = "env";
  unit = "unit";
  marker = "marker";
}

abbrev first_marker : Marker
first_marker = record {
  version = "1.0";
  managed_files = "bin" ∷ "unit" ∷ [];
  config_owned = true;
  installed_at = "noon";
}

-- The one marker that this machine can encode is the first one.
abbrev encode_files : List String → Option String
encode_files (a ∷ b ∷ []) = if a == "bin" && b == "unit" then some "{}" else none
encode_files _ = none

abbrev encode_owned : Bool → List String → Option String
encode_owned true files = encode_files files
encode_owned false files = none

abbrev encode_marker : Marker → Option String
encode_marker k =
    if k.version == "1.0" && k.installed_at == "noon"
    then encode_owned k.config_owned k.managed_files
    else none

abbrev machine : (List Event → Event → Bool) → Machine
machine succeeds = record {
  succeeds = succeeds;
  effect =
      λ events arguments. put "passwd" (some (record { content = "quantum-runtime"; mode = 420 }));
  temp_name = λ events directory. "temp";
  is_regular = λ path. true;
  is_root = true;
  now = λ events. "noon";
  directory_of = λ path. "etc";
  join = λ a b. a <> b;
  encode = encode_marker;
  decode = λ text. if text == "{}\n" then some first_marker else none;
}

abbrev sound : Machine
sound = machine (λ events event. true)

abbrev is_rename : Event → Bool
is_rename (rename a b) = true
is_rename _ = false

abbrev full : Machine
full = machine (λ events event. not (is_rename event))

abbrev manager : Manager
manager = record {
  layout = layout;
  version = "1.0";
  runtime_url = "";
  ollama_url = "";
  require_root = true;
}

abbrev options : InstallOptions
options = record { runtime_binary = "new"; start_service = true }

abbrev start : World
start = record {
  disk = λ path. if path == "new" then some (record { content = "ELF"; mode = 420 }) else none;
  events = [];
}

abbrev installed : World
installed = (install sound manager options start).1

install-full :
    (install full manager options start).0
    ≡ err (during installing_binary (call_failed (rename "temp" "bin")))
unfolding install check_install preflight runtime_ownership file_exists ollama_status assess
    ownership_of capture_snapshot read_optional read_existing install_files ensure_identity
    copy_atomic read_file read_found write_atomic with_temp fill_temp remove_temp or_close move
    rollback restore_snapshot restore_file remove_if_exists trim_space trim_slashes ◌>>=◌ ◌>>◌
    return throw refuse_if at_stage ignore succeeded deferring on_error set_file attempt execute
install-full = refl

-- On these machines every command writes the list of users, and nothing else.
untouched :
    (succeeds : List Event → Event → Bool) (p : String)
    → (p == "passwd") ≡ false
    → IsUntouched (machine succeeds) p
untouched succeeds p h = record { leaves = λ events arguments d. rw h refl }

stable :
    (succeeds : List Event → Event → Bool) (p : String)
    → (p == "passwd") ≡ false
    → (p == "temp") ≡ false
    → IsStable (machine succeeds) p
stable succeeds p h h' = record {
  unnamed = λ events directory e. cc ((eq_iff p "temp").1 e, h');
  untouched = untouched succeeds p h;
}

install-undone_example : (install full manager options start).1.disk "bin" ≡ none
install-undone_example =
    install-undone full "bin" manager options start
      (during installing_binary (call_failed (rename "temp" "bin")))
      (stable (λ events event. not (is_rename event)) "bin" refl refl) install-full refl

apart : IsApart sound layout
apart = record {
  binary_config = λ e. cc ((eq_iff "bin" "env").1 e);
  binary_unit = λ e. cc ((eq_iff "bin" "unit").1 e);
  binary_marker = λ e. cc ((eq_iff "bin" "marker").1 e);
  config_unit = λ e. cc ((eq_iff "env" "unit").1 e);
  config_marker = λ e. cc ((eq_iff "env" "marker").1 e);
  unit_marker = λ e. cc ((eq_iff "unit" "marker").1 e);
  stable_binary = stable (λ events event. true) "bin" refl refl;
  stable_config = stable (λ events event. true) "env" refl refl;
  stable_unit = stable (λ events event. true) "unit" refl refl;
  stable_marker = stable (λ events event. true) "marker" refl refl;
}

install-sound : (install sound manager options start).0 ≡ ok tt
unfolding install check_install preflight runtime_ownership file_exists ollama_status assess
    ownership_of capture_snapshot read_optional read_existing install_files ensure_identity
    copy_atomic read_file read_found write_atomic with_temp fill_temp remove_temp or_close move
    wait_ready wait_rounds trim_space trim_slashes systemd_unit default_environment unlines ◌>>=◌
    ◌>>◌ return throw refuse_if at_stage ignore succeeded deferring on_error set_file attempt
    execute
install-sound = refl

install-IsInstalled_example : IsInstalled sound manager options start.disk installed.disk
install-IsInstalled_example =
    install-IsInstalled sound manager options start apart
      (untouched (λ events event. true) "new" refl) install-sound

installed-marker : installed.disk "marker" ≡ some (record { content = "{}\n"; mode = 384 })
unfolding install check_install preflight runtime_ownership file_exists ollama_status assess
    ownership_of capture_snapshot read_optional read_existing install_files ensure_identity
    copy_atomic read_file read_found write_atomic with_temp fill_temp remove_temp or_close move
    wait_ready wait_rounds trim_space trim_slashes systemd_unit default_environment unlines ◌>>=◌
    ◌>>◌ return throw refuse_if at_stage ignore succeeded deferring on_error set_file attempt
    execute
installed-marker = refl

uninstall-sound : (uninstall sound manager true installed).0 ≡ ok tt
unfolding install check_install preflight runtime_ownership file_exists ollama_status assess
    ownership_of capture_snapshot read_optional read_existing install_files ensure_identity
    copy_atomic read_file read_found write_atomic with_temp fill_temp remove_temp or_close move
    wait_ready wait_rounds trim_space trim_slashes systemd_unit default_environment unlines
    read_marker remove_managed remove_if_exists uninstall_managed uninstall ◌>>=◌ ◌>>◌ return throw
    refuse_if at_stage ignore succeeded deferring on_error set_file attempt execute
uninstall-sound = refl

uninstall-IsRemoved_example :
    (k : Marker) × (sound.decode "{}\n" ≡ some k)
    × IsRemoved sound layout true k installed.disk (uninstall sound manager true installed).1.disk
uninstall-IsRemoved_example =
    uninstall-IsRemoved sound manager true installed (record { content = "{}\n"; mode = 384 })
      (λ events path. refl) (untouched (λ events event. true) "marker" refl)
      (untouched (λ events event. true) "env" refl) installed-marker uninstall-sound

if_both :
    (x y : Bool) (o : Option String) (text : String)
    → (if x && y then o else none) ≡ some text
    → (x ≡ true) × (y ≡ true) × (o ≡ some text)
if_both true true o text e = (refl, refl, e)
if_both true false o text e = cc
if_both false y o text e = cc

-- The only marker that can be encoded is the one that is decoded.
encode_files-ok :
    (files : List String) (text : String)
    → encode_files files ≡ some text
    → (files ≡ "bin" ∷ "unit" ∷ []) × (text ≡ "{}")
encode_files-ok (a ∷ b ∷ []) text e =
    let (x, y, z) = if_both (a == "bin") (b == "unit") (some "{}") text e in
    (cc ((eq_iff a "bin").0 x, (eq_iff b "unit").0 y), cc z)
encode_files-ok [] text e = cc
encode_files-ok (a ∷ []) text e = cc
encode_files-ok (a ∷ b ∷ c ∷ d) text e = cc

encode_owned-ok :
    (owned : Bool) (files : List String) (text : String)
    → encode_owned owned files ≡ some text
    → (owned ≡ true) × (files ≡ "bin" ∷ "unit" ∷ []) × (text ≡ "{}")
encode_owned-ok true files text e = let (x, y) = encode_files-ok files text e in (refl, x, y)
encode_owned-ok false files text e = cc

decode-encode_marker :
    (k : Marker) (text : String) → sound.encode k ≡ some text → sound.decode (text <> "\n") ≡ some k
decode-encode_marker k text e =
    let (version, time, rest) = if_both (k.version == "1.0") (k.installed_at == "noon") _ text e in
    let (owned, files, is) = encode_owned-ok k.config_owned k.managed_files text rest in
    rw is (
      ap some (λ i. record {
        version = sym ((eq_iff k.version "1.0").0 version) i;
        managed_files = sym files i;
        config_owned = sym owned i;
        installed_at = sym ((eq_iff k.installed_at "noon").0 time) i;
      }))

uninstall-install_example : (uninstall sound manager true installed).1.disk "bin" ≡ start.disk "bin"
uninstall-install_example =
    uninstall-install sound manager options start "bin" apart (λ events path. refl)
      decode-encode_marker (stable (λ events event. true) "bin" refl refl)
      (untouched (λ events event. true) "new" refl) refl install-sound uninstall-sound

-- The first round finds the service unhealthy.
abbrev is_first : List Event → Bool
is_first [] = true
is_first _ = false

abbrev slow : Machine
slow = machine (λ events event. not (is_first events))

wait_ready_ends_example :
    (length (wait_ready slow manager start).1.events ≤ 60 + 0)
    × ((wait_ready slow manager start).0 ≡ ok tt
        → IsReady slow manager (wait_ready slow manager start).1.events)
wait_ready_ends_example = wait_ready_ends slow manager start

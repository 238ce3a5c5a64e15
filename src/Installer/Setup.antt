-- ===== src/Installer/Setup.antt =====
-- The operations of the installer (internal/installer/installer.go) but for installing and
-- uninstalling: the layout, the ownership of what is installed, the preflight, the status, and the
-- texts that are written.
use Prim.Native.String.{◌++◌ as ◌<>◌}
use quantum_runtime.Prelude.{
  ℕ, zero, suc, String, List, [], ◌∷◌, ◌++◌, Bool, true, false, not, ◌&&◌, ◌||◌, ◌==◌, string_eq,
  if◌then◌else◌,
}
use quantum_runtime.Prelude.Text.{trim_slashes}
use quantum_runtime.Installer.System.{
  probe, pause, creating_group, creating_user, InstallError, not_ready, Machine, Action, ◌>>=◌,
  ◌>>◌, return, throw, at_stage, succeeded, on_error, attempt, query, execute,
}
use quantum_runtime.Installer.Storage.{Layout, file_exists}

abbrev pub service_name : String
service_name = "quantum-runtime.service"

abbrev pub runtime_user : String
runtime_user = "quantum-runtime"

abbrev pub runtime_group : String
runtime_group = "quantum-runtime"

pub data Ownership : Type 0 where
  managed external disabled : Ownership

pub record ComponentStatus : Type 0 where
  pub id : String
  pub ownership : Ownership
  pub available : Bool
  pub detail : String

pub record Preflight : Type 0 where
  pub systemd_available : Bool
  pub ollama : ComponentStatus
  pub runtime : ComponentStatus
  pub can_install : Bool
  pub warnings : List String

pub record Status : Type 0 where
  pub runtime : ComponentStatus
  pub ollama : ComponentStatus
  pub health : Bool
  pub ready : Bool

-- `Manager`, whose functions are those of the machine.
pub record Manager : Type 0 where
  pub layout : Layout
  pub version : String
  pub runtime_url : String
  pub ollama_url : String
  pub require_root : Bool

-- `NewLayout`; `strings.TrimPrefix(path, "/")` is written out in each path.
unfoldable pub new_layout : Machine → String → Layout
new_layout mc root =
    let join =
      λ (path rest : String). if root == "" || root == "/" then path else mc.join root rest in
    record {
      root = root;
      binary = join "/usr/local/bin/quantum-runtime" "usr/local/bin/quantum-runtime";
      config_directory = join "/etc/quantum-runtime" "etc/quantum-runtime";
      config =
          join "/etc/quantum-runtime/quantum-runtime.env" "etc/quantum-runtime/quantum-runtime.env";
      unit =
          join "/etc/systemd/system/quantum-runtime.service"
            "etc/systemd/system/quantum-runtime.service";
      marker = join "/etc/quantum-runtime/.managed.json" "etc/quantum-runtime/.managed.json";
    }

-- The two addresses of `normalize`.
abbrev pub runtime_url_of : Manager → String
runtime_url_of m = if m.runtime_url == "" then "http://127.0.0.1:11450" else m.runtime_url

abbrev pub ollama_url_of : Manager → String
ollama_url_of m = if m.ollama_url == "" then "http://127.0.0.1:11434" else m.ollama_url

abbrev pub health_url : Manager → String
health_url m = trim_slashes (runtime_url_of m) <> "/healthz"

abbrev pub ready_url : Manager → String
ready_url m = trim_slashes (runtime_url_of m) <> "/readyz"

abbrev pub version_url : Manager → String
version_url m = trim_slashes (ollama_url_of m) <> "/api/version"

abbrev pub component : String → Ownership → Bool → String → ComponentStatus
component id ownership available detail = record {
  id = id;
  ownership = ownership;
  available = available;
  detail = detail;
}

-- The `switch` of `runtimeOwnership`.
unfoldable pub ownership_of : (marker binary unit : Bool) → ComponentStatus
ownership_of marker binary unit =
    if marker
    then component "quantum-runtime" managed (binary && unit) service_name
    else if binary || unit
    then component "quantum-runtime" external true
        "existing files are not owned by the Quantum Runtime installer"
    else component "quantum-runtime" disabled false ""

abbrev pub is_external : Ownership → Bool
is_external external = true
is_external _ = false

abbrev pub is_disabled : Ownership → Bool
is_disabled disabled = true
is_disabled _ = false

abbrev pub warning_if : Bool → String → List String
warning_if test text = if test then text ∷ [] else []

-- The result of `Preflight`, of what it observed.
unfoldable pub assess : (runtime ollama : ComponentStatus) (systemd : Bool) → Preflight
assess runtime ollama systemd = record {
  systemd_available = systemd;
  ollama = ollama;
  runtime = runtime;
  can_install = systemd && ollama.available && not (is_external runtime.ownership);
  warnings =
      warning_if (not systemd) "systemctl is not available"
      ++ (warning_if (is_disabled ollama.ownership)
            "Ollama adoption backend is not reachable on the configured local endpoint"
          ++ warning_if (is_external runtime.ownership)
              "existing Quantum Runtime files are not owned by this installer");
}

module _ (mc : Machine) where
  unfoldable pub runtime_ownership : Layout → Action ComponentStatus
  runtime_ownership l = do
    marker ← file_exists mc l.marker
    binary ← file_exists mc l.binary
    unit ← file_exists mc l.unit
    return (ownership_of marker binary unit)

  unfoldable pub ollama_status : Manager → Action ComponentStatus
  ollama_status m = do
    reachable ← succeeded (attempt mc (probe (version_url m)))
    return (
        if reachable
        then component "ollama" external true (version_url m)
        else component "ollama" disabled false (version_url m))

  unfoldable pub preflight : Manager → Action Preflight
  preflight m = do
    runtime ← runtime_ownership m.layout
    ollama ← ollama_status m
    systemd ← succeeded (query mc ("systemctl" ∷ "--version" ∷ []))
    return (assess runtime ollama systemd)

  unfoldable pub status : Manager → Action Status
  status m = do
    runtime ← runtime_ownership m.layout
    ollama ← ollama_status m
    health ← succeeded (attempt mc (probe (health_url m)))
    ready ← succeeded (attempt mc (probe (ready_url m)))
    return (record { runtime = runtime; ollama = ollama; health = health; ready = ready })

  -- `if _, err := run(test); err != nil { if _, err := run(create) ... }`.
  abbrev pub create_if : Bool → Action (Unit {0}) → Action (Unit {0})
  create_if present create = if present then return tt else create

  unfoldable pub ensure_identity : Action (Unit {0})
  ensure_identity = do
    group ← succeeded (query mc ("getent" ∷ "group" ∷ runtime_group ∷ []))
    create_if group
        (at_stage creating_group (execute mc ("groupadd" ∷ "--system" ∷ runtime_group ∷ [])))
    user ← succeeded (query mc ("id" ∷ "-u" ∷ runtime_user ∷ []))
    create_if user (
        at_stage creating_user (
          execute mc (
            "useradd" ∷ "--system" ∷ "--gid" ∷ runtime_group ∷ "--home-dir"
            ∷ "/var/lib/quantum-runtime" ∷ "--shell" ∷ "/usr/sbin/nologin" ∷ runtime_user ∷ [])))

  -- The loop of `waitReady`, by the attempts that are left; `last` is the last error. A pause that
  -- fails is the end of the context.
  unfoldable pub wait_rounds : Manager → ℕ → InstallError → Action (Unit {0})
  wait_rounds m zero last = throw last
  wait_rounds m (suc n) last =
      on_error (λ e. attempt mc pause >> wait_rounds m n e)
        (attempt mc (probe (health_url m)) >> attempt mc (probe (ready_url m)))

  unfoldable pub wait_ready : Manager → Action (Unit {0})
  wait_ready m = wait_rounds m 20 not_ready

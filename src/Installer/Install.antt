-- ===== src/Installer/Install.antt =====
-- `Install`, `Repair` and `Uninstall` of internal/installer/installer.go, and the files that they
-- write.
use Prim.Native.String.{◌++◌ as ◌<>◌}
use quantum_runtime.Prelude.{
  String, List, [], ◌∷◌, Bool, true, false, not, ◌&&◌, Option, none, some, Result, ok, err, ◌==◌,
  string_eq, if◌then◌else◌,
}
use quantum_runtime.Prelude.Text.{trim_space, unlines}
use quantum_runtime.Installer.System.{
  make_directory, stat, inspecting, capturing, reading_marker, decoding_marker,
  making_binary_directory, making_config_directory, installing_binary, creating_config,
  installing_unit, encoding_marker, writing_marker, reloading, enabling, activating, InstallError,
  not_exist, during, root_required, binary_required, not_regular, systemd_required,
  ollama_not_ready, externally_owned, not_managed, encoding_failed, decoding_failed,
  unexpected_path, rollback_failed, Marker, Machine, Action, ◌>>=◌, ◌>>◌, return, throw, refuse_if,
  at_stage, ignore, on_error, attempt, execute,
}
use quantum_runtime.Installer.Storage.{
  Layout, Snapshot, is_there, read_file, copy_atomic, write_atomic, remove_if_exists,
  capture_snapshot, restore_snapshot,
}
use quantum_runtime.Installer.Setup.{
  service_name, Ownership, managed, external, disabled, is_external, Manager, runtime_ownership,
  preflight, ensure_identity, wait_ready,
}

unfoldable pub systemd_unit : String
unfolding unlines
systemd_unit = unlines (
    "[Unit]" ∷ "Description=Quantum Runtime local AI service"
    ∷ "Documentation=https://github.com/Starlight-Unit-Studio/Quantum-Runtime"
    ∷ "After=network-online.target ollama.service" ∷ "Wants=network-online.target" ∷ ""
    ∷ "[Service]" ∷ "Type=simple" ∷ "User=quantum-runtime" ∷ "Group=quantum-runtime"
    ∷ "EnvironmentFile=/etc/quantum-runtime/quantum-runtime.env"
    ∷ "ExecStart=/usr/local/bin/quantum-runtime" ∷ "Restart=on-failure" ∷ "RestartSec=3s"
    ∷ "TimeoutStartSec=60s" ∷ "TimeoutStopSec=30s" ∷ "UMask=0077" ∷ "NoNewPrivileges=true"
    ∷ "PrivateTmp=true" ∷ "PrivateDevices=true" ∷ "ProtectSystem=strict" ∷ "ProtectHome=true"
    ∷ "ProtectKernelTunables=true" ∷ "ProtectKernelModules=true" ∷ "ProtectKernelLogs=true"
    ∷ "ProtectControlGroups=true" ∷ "ProtectClock=true" ∷ "RestrictSUIDSGID=true"
    ∷ "LockPersonality=true" ∷ "RestrictRealtime=true" ∷ "CapabilityBoundingSet="
    ∷ "AmbientCapabilities=" ∷ "RestrictAddressFamilies=AF_UNIX AF_INET AF_INET6"
    ∷ "SystemCallArchitectures=native" ∷ "" ∷ "[Install]" ∷ "WantedBy=multi-user.target" ∷ [])

unfoldable pub default_environment : String
unfolding unlines
default_environment = unlines (
    "# Quantum Runtime managed defaults. Existing files are preserved during updates."
    ∷ "QUANTUM_RUNTIME_LISTEN=127.0.0.1:11450" ∷ "QUANTUM_RUNTIME_OLLAMA_URL=http://127.0.0.1:11434"
    ∷ "QUANTUM_RUNTIME_UPSTREAM_TIMEOUT=15m" ∷ "QUANTUM_RUNTIME_MAX_REQUEST_BYTES=134217728"
    ∷ "QUANTUM_RUNTIME_ALLOW_MODEL_MUTATION=false" ∷ [])

-- `CoreUIProfile`; `none` stands for the error.
unfoldable pub core_ui_profile : String → Option String
unfolding unlines
core_ui_profile mode =
    if mode == "runtime"
    then some (
        unlines (
          "COREUI_OLLAMA_URL=http://127.0.0.1:11450/api/chat"
          ∷ "STU_EMBER_OLLAMA_URL=http://127.0.0.1:11450/api/chat" ∷ []))
    else if mode == "ollama"
    then some (
        unlines (
          "COREUI_OLLAMA_URL=http://127.0.0.1:11434/api/chat"
          ∷ "STU_EMBER_OLLAMA_URL=http://127.0.0.1:11434/api/chat" ∷ []))
    else none

pub record InstallOptions : Type 0 where
  pub runtime_binary : String
  pub start_service : Bool

module _ (mc : Machine) where
  abbrev pub systemctl : List String → Action (Unit {0})
  systemctl arguments = execute mc ("systemctl" ∷ arguments)

  abbrev pub check_root : Manager → Action (Unit {0})
  check_root m = refuse_if (m.require_root && not mc.is_root) root_required

  abbrev pub decoded : Option Marker → Action Marker
  decoded none = throw (during decoding_marker decoding_failed)
  decoded (some marker) = return marker

  unfoldable pub read_marker : String → Action Marker
  read_marker path = do
    f ← at_stage reading_marker (read_file mc path)
    decoded (mc.decode f.content)

  -- `os.Stat` of a file that must exist.
  abbrev pub stat_existing : String → Action (Unit {0})
  stat_existing path w =
      (attempt mc (stat path)
          >> (if is_there (w.disk path) then return tt else throw (not_exist path)))
        w

  -- `configOwned`.
  abbrev pub config_ownership : Layout → Snapshot → Action Bool
  config_ownership l old =
      if is_there old.old_marker
      then (read_marker l.marker >>= λ previous. return previous.config_owned)
      else return (not (is_there old.old_config))

  -- What `rollback` returns of the result of the restore.
  abbrev pub rolled_back : InstallError → Result InstallError (Unit {0}) → Action (Unit {0})
  rolled_back cause (ok u) = throw cause
  rolled_back cause (err failure) = throw (rollback_failed cause failure)

  abbrev pub reset_service : Snapshot → Action (Unit {0})
  reset_service old =
      if is_there old.old_marker
      then ignore (systemctl ("restart" ∷ service_name ∷ []))
      else ignore (systemctl ("disable" ∷ "--now" ∷ service_name ∷ []))

  -- The closure `rollback`.
  unfoldable pub rollback : Layout → Snapshot → InstallError → Action (Unit {0})
  rollback l old cause w =
      let restored = restore_snapshot mc l old w in
      (do
        ignore (systemctl ("daemon-reload" ∷ []))
        reset_service old
        rolled_back cause restored.0)
        restored.1

  abbrev pub encoded : Option String → Action String
  encoded none = throw encoding_failed
  encoded (some text) = return (text <> "\n")

  -- The ownership marker, with its last line feed.
  abbrev pub marker_text : Manager → Bool → Action String
  marker_text m owned w =
      encoded
        (mc.encode (record {
          version = m.version;
          managed_files = m.layout.binary ∷ m.layout.unit ∷ [];
          config_owned = owned;
          installed_at = mc.now w.events;
        }))
        w

  abbrev pub create_config : Layout → Snapshot → Action (Unit {0})
  create_config l old =
      if is_there old.old_config
      then return tt
      else at_stage creating_config (write_atomic mc l.config default_environment 416)

  abbrev pub start_if : Manager → Bool → Action (Unit {0})
  start_if m start =
      if start
      then (at_stage enabling (systemctl ("enable" ∷ "--now" ∷ service_name ∷ []))
          >> at_stage activating (wait_ready mc m))
      else return tt

  -- The steps of `Install` whose errors are passed to `rollback`.
  unfoldable pub install_files : Manager → InstallOptions → Snapshot → Bool → Action (Unit {0})
  install_files m options old owned = do
    ensure_identity mc
    at_stage making_binary_directory
        (attempt mc (make_directory (mc.directory_of m.layout.binary) 493))
    at_stage making_config_directory (attempt mc (make_directory m.layout.config_directory 488))
    at_stage installing_binary (copy_atomic mc options.runtime_binary m.layout.binary 493)
    create_config m.layout old
    at_stage installing_unit (write_atomic mc m.layout.unit systemd_unit 420)
    text ← at_stage encoding_marker (marker_text m owned)
    at_stage writing_marker (write_atomic mc m.layout.marker text 384)
    at_stage reloading (systemctl ("daemon-reload" ∷ []))
    start_if m options.start_service

  -- The steps of `Install` before the snapshot, which write nothing.
  unfoldable pub check_install : Manager → InstallOptions → Action (Unit {0})
  check_install m options = do
    check_root m
    refuse_if (trim_space options.runtime_binary == "") binary_required
    at_stage inspecting (stat_existing options.runtime_binary)
    refuse_if (not (mc.is_regular options.runtime_binary)) not_regular
    found ← preflight mc m
    refuse_if (not found.systemd_available) systemd_required
    refuse_if (not found.ollama.available) ollama_not_ready
    refuse_if (is_external found.runtime.ownership) externally_owned

  unfoldable pub install : Manager → InstallOptions → Action (Unit {0})
  install m options = do
    check_install m options
    old ← at_stage capturing (capture_snapshot mc m.layout)
    owned ← config_ownership m.layout old
    on_error (rollback m.layout old) (install_files m options old owned)

  abbrev pub is_managed : Ownership → Bool
  is_managed managed = true
  is_managed _ = false

  unfoldable pub repair : Manager → InstallOptions → Action (Unit {0})
  repair m options = do
    runtime ← runtime_ownership mc m.layout
    refuse_if (not (is_managed runtime.ownership)) not_managed
    install m options

  -- The loop over the managed files of the marker.
  unfoldable pub remove_managed : Layout → List String → Action (Unit {0})
  remove_managed l [] = return tt
  remove_managed l (path ∷ paths) = do
    refuse_if (not (path == l.binary) && not (path == l.unit)) (unexpected_path path)
    remove_if_exists mc path
    remove_managed l paths

  abbrev pub purge_if : Bool → String → Action (Unit {0})
  purge_if test path = if test then remove_if_exists mc path else return tt

  -- `Uninstall` of an instance that the installer manages.
  unfoldable pub uninstall_managed : Layout → Bool → Action (Unit {0})
  uninstall_managed l purge_config = do
    marker ← read_marker l.marker
    ignore (systemctl ("disable" ∷ "--now" ∷ service_name ∷ []))
    remove_managed l marker.managed_files
    purge_if (purge_config && marker.config_owned) l.config
    remove_if_exists mc l.marker
    ignore (systemctl ("daemon-reload" ∷ []))

  abbrev pub uninstall_owned : Layout → Bool → Ownership → Action (Unit {0})
  uninstall_owned l purge_config disabled = return tt
  uninstall_owned l purge_config external = throw externally_owned
  uninstall_owned l purge_config managed = uninstall_managed l purge_config

  unfoldable pub uninstall : Manager → Bool → Action (Unit {0})
  uninstall m purge_config = do
    check_root m
    runtime ← runtime_ownership mc m.layout
    uninstall_owned m.layout purge_config runtime.ownership

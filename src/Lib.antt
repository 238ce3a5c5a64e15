-- ===== src/Lib.antt =====
-- Quantum Runtime decides, on one host, which model may run, where its bytes go, and which backend
-- serves it. This library models the deciding packages of the program, and states what they
-- promise.
--
-- The parts. A manifest (internal/modelmanifest) describes a model; the registry
-- (internal/modelregistry) holds the valid manifests under their ids and aliases. A descriptor
-- (internal/backendcontract) says what a backend can do, a policy (internal/modelpolicy) says what
-- is known of a model on a backend, and the router (internal/backendrouter) picks, for an
-- identifier and a list of capabilities, the backend that serves it. A host profile
-- (internal/hostprofile), the limits of the process (internal/hostlimits) and a deployment profile
-- (internal/deploymentprofile) go into the admission decision (internal/admission). The planner
-- (internal/placement) distributes the bytes of a model over RAM, VRAM and NVMe; it takes the
-- bandwidth class that the calibration (internal/calibration) measured; the benchmark plan
-- (internal/benchmarkplan) lists the thread counts that are measured under the limits. The ledger
-- (internal/upstreamledger) lists the tested upstreams.
--
-- The resource manager (internal/resourcecontrol) calibrates and plans for concurrent callers.
--
-- Around them: the configuration (internal/config) is read from the environment; the HTTP server
-- (internal/httpapi) checks each request against it, answers from the registry, the router and the
-- ledger, and passes the compatibility routes on to the backend, which is the proxy for Ollama
-- (internal/ollama) or the adapter for llama.cpp (internal/llamacpp); the installer
-- (internal/installer) puts the program on a machine and takes it away again.
--
-- The files, with the source each models:
--   Prelude       shared helpers: lists, tests, errors, integers, texts, sorting
--   External      the standard library's parsers that the program calls, as a record of functions
--   Host          Host/Profile: internal/hostprofile/profile.go; Host/Limits:
--                 internal/hostlimits/limits.go
--   Placement     internal/placement/placement.go: Types and Allocate and Build model it; Steps,
--                 Ledger, Conservation, Capacity and Decisions prove
--   Manifest      internal/modelmanifest/manifest.go: Types, Validate, Version, Names
--   Registry      internal/modelregistry/registry.go
--   Deployment    internal/deploymentprofile/profile.go
--   Admission     internal/admission/admission.go
--   Backend       internal/backendcontract/contract.go
--   Policy        internal/modelpolicy/policy.go
--   Router        internal/backendrouter/router.go
--   Upstream      internal/upstreamledger/ledger.go
--   Calibration   internal/calibration/calibration.go
--   Benchmark     internal/benchmarkplan/plan.go
--   Config        internal/config/config.go
--   Http          internal/httpapi: Types, Handlers (server.go, registry_routes.go), Extensions
--                 (deployment_routes.go, resource_routes.go) and Routes model it; Guards, Silence
--                 and Forwarding prove
--   Ollama        internal/ollama/proxy.go; Headers: the headers that it copies and sends; Laws and Sent
--                 prove
--   Llama         internal/llamacpp/client.go: Adapter, Requests and Stream model it; Chunks, Ending
--                 and Forwarding prove
--   Resource      internal/resourcecontrol/manager.go; Register states what its callers observe
--   Installer     internal/installer/installer.go: System, Storage, Setup and Install model it; Frame,
--                 Leads, Snapshots, Rollback, Outcome, Installed, Removal, Removed, Roundtrip and
--                 Ready prove
--   Samples       concrete hosts, manifests and backends; Tests applies the theorems to them
--
-- Conventions. A Go function that returns a value and an error is a function into `Result`, with
-- one constructor for each error; the names of operations are those of the source in snake_case
-- (`Build` is `build`, `allocateWhole` is `allocate_whole`; `New` is `new_registry` or
-- `new_router`). A variable that a Go function takes by pointer is a field of a state that is
-- passed on. A map is the list of its entries, the newest first; a set is the list of its keys. A
-- uint64 is a natural number whose sums wrap by `% 2 ^ 64` where the source adds; an int is an
-- integer without bounds, since the parts that are modelled only compare ints and subtract one
-- non-negative int from another. Every loop goes over a list, so it is structural recursion and
-- needs no fuel; the loop over a CPU range goes over the number of its rounds. `sort.Slice` is an
-- insertion sort, which leaves equal items in their order.
--
-- The installer acts on a machine: a disk, which maps paths to files, and a list of the calls that
-- were made. Each call of the operating system, of a command or of a probe succeeds or fails as the
-- machine says, which sees all calls before it. A call of the operating system that fails changes no
-- file, and a file that is removed and does not exist is no failure. What a command makes of the disk
-- is a parameter, so that `groupadd`, `useradd` and `systemctl` may write any file, whether they fail
-- or not; only `systemctl --version`, `getent` and `id`, which report, change none. The theorems speak
-- of the files that no command changes, and need the managed files to be among them: the users, the
-- groups and the links of systemd are not brought back by a rollback, nor by a removal.
-- Directories, owners and the contents of other processes are no part of the disk. `waitReady` is a
-- recursion on the number of its rounds, 20 as in the source. In the HTTP server the backend is a
-- record of functions, and a handler returns its reply with the requests that it passed on. The
-- resource manager's state changes in steps, one for each part of a call between its locks. In the
-- adapter for llama.cpp a stream is the list of its lines, and the text that a raw JSON value is decoded
-- to and encoded again is a parameter, since that need not be the same text.
--
-- Not modelled: the request identifiers and the logging of internal/httpapi, the HTTP clients of
-- internal/llamacpp and internal/ollama, the commands, what reads /proc, /sys and embedded JSON,
-- and the detail texts of checks and errors. The parsers of net/url, net, time, strconv and
-- encoding/json are parameters; what a theorem needs of them is among its hypotheses.
pub mod Prelude
pub mod External
pub mod Host
pub mod Placement
pub mod Manifest
pub mod Registry
pub mod Deployment
pub mod Admission
pub mod Backend
pub mod Policy
pub mod Router
pub mod Upstream
pub mod Calibration
pub mod Config
pub mod Http
pub mod Llama
pub mod Resource
pub mod Ollama
pub mod Benchmark
pub mod Installer
pub mod Samples
pub mod Tests

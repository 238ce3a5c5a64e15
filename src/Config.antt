-- ===== src/Config.antt =====
-- The configuration of the service (internal/config/config.go): it is read from the environment, with
-- defaults, and checked.
pub mod Laws
use quantum_runtime.Prelude.{
  ℕ, String, Bool, true, false, not, ◌&&◌, Option, none, some, Result, ok, err, ◌>>=◌, ◌>>◌,
  fail_if, ◌==◌, string_eq, if◌then◌else◌,
}
use quantum_runtime.Prelude.Int.{ℤ, pos, ltb_ℤ, leb_ℤ}
use quantum_runtime.Prelude.Text.{trim_space, to_lower, equal_fold, trim_brackets}
use quantum_runtime.External.{External, Url}

-- The parsers of `time`, `strconv` and `net`, with `none` for an error.
pub record Parsers : Type 0 where
  pub parse_duration : String → Option ℤ
  pub parse_int : String → Option ℤ
  pub parse_bool : String → Option Bool
  -- The host of `net.SplitHostPort`.
  pub split_host_port : String → Option String
  -- Whether `net.ParseIP` gives an address for which `IsLoopback` holds.
  pub is_loopback_ip : String → Bool

pub data ConfigError : Type 0 where
  no_environment listen_empty model_missing timeout_not_positive limit_too_small : ConfigError
  token_missing : ConfigError
  backend_unknown : String → ConfigError
  not_parsed : (variable : String) → ConfigError
  url_missing url_scheme url_host url_credentials : (name : String) → ConfigError

-- A duration is a number of nanoseconds.
pub record Config : Type 0 where
  pub listen_address : String
  pub backend : String
  pub upstream_url : Option Url
  pub llama_cpp_url : Option Url
  pub llama_cpp_model : String
  pub llama_cpp_api_key : String
  pub upstream_timeout : ℤ
  pub request_body_limit : ℤ
  pub allow_model_mutation : Bool
  pub auth_token : String

abbrev pub default_listen_address : String
default_listen_address = "127.0.0.1:11450"

abbrev pub default_backend : String
default_backend = "ollama"

abbrev pub default_upstream_url : String
default_upstream_url = "http://127.0.0.1:11434"

abbrev pub default_llama_cpp_url : String
default_llama_cpp_url = "http://127.0.0.1:8080"

abbrev pub default_upstream_timeout : ℤ
default_upstream_timeout = pos 900000000000

abbrev pub default_request_body_limit : ℤ
default_request_body_limit = pos 134217728

unfoldable pub value_or_default : String → String → String
value_or_default value fallback = if trim_space value == "" then fallback else trim_space value

-- `durationOrDefault`, `int64OrDefault` and `boolOrDefault`, with the parser of each.
unfoldable pub parsed_or_default : {A : Type 0} → (String → Option A) → String → A → Option A
parsed_or_default parse value fallback =
    if trim_space value == "" then some fallback else parse (trim_space value)

abbrev pub or_error : {A : Type 0} → String → Option A → Result ConfigError A
or_error variable none = err (not_parsed variable)
or_error variable (some a) = ok a

unfoldable pub validate_http_url : String → Option Url → Result ConfigError (Unit {0})
validate_http_url name none = err (url_missing name)
validate_http_url name (some u) = do
  fail_if (not (u.scheme == "http") && not (u.scheme == "https")) (url_scheme name)
  fail_if (u.host == "") (url_host name)
  fail_if u.has_user (url_credentials name)

module _ (ps : Parsers) where
  abbrev pub is_loopback_host : Option String → Bool
  is_loopback_host none = false
  is_loopback_host (some part) =
      let host = trim_space (trim_brackets part) in
      if equal_fold host "localhost" then true else ps.is_loopback_ip host

  unfoldable pub is_loopback_listen_address : String → Bool
  is_loopback_listen_address address = is_loopback_host (ps.split_host_port address)

  unfoldable pub validate_config : Config → Result ConfigError (Unit {0})
  validate_config c = do
    fail_if (trim_space c.listen_address == "") listen_empty
    fail_if (not (c.backend == "ollama") && not (c.backend == "llama.cpp"))
        (backend_unknown c.backend)
    validate_http_url "Ollama upstream" c.upstream_url
    validate_http_url "llama.cpp upstream" c.llama_cpp_url
    fail_if (c.backend == "llama.cpp" && trim_space c.llama_cpp_model == "") model_missing
    fail_if (leb_ℤ c.upstream_timeout (pos 0)) timeout_not_positive
    fail_if (ltb_ℤ c.request_body_limit (pos 1048576)) limit_too_small
    fail_if (not (is_loopback_listen_address c.listen_address) && trim_space c.auth_token == "")
        token_missing

  -- `LoadWith` behind the parsers, in the order of the source.
  abbrev pub load_from :
      (String → String)
      → Option Url
      → Option Url
      → Option ℤ
      → Option ℤ
      → Option Bool
      → Result ConfigError Config
  load_from getenv upstream_url llama_url timeout limit mutation = do
    upstream ← or_error "QUANTUM_RUNTIME_OLLAMA_URL" upstream_url
    llama ← or_error "QUANTUM_RUNTIME_LLAMA_CPP_URL" llama_url
    upstream_timeout ← or_error "QUANTUM_RUNTIME_UPSTREAM_TIMEOUT" timeout
    body_limit ← or_error "QUANTUM_RUNTIME_MAX_REQUEST_BYTES" limit
    allow_mutation ← or_error "QUANTUM_RUNTIME_ALLOW_MODEL_MUTATION" mutation
    let c : Config = record {
      listen_address = value_or_default (getenv "QUANTUM_RUNTIME_LISTEN") default_listen_address;
      backend = to_lower (value_or_default (getenv "QUANTUM_RUNTIME_BACKEND") default_backend);
      upstream_url = some upstream;
      llama_cpp_url = some llama;
      llama_cpp_model = trim_space (getenv "QUANTUM_RUNTIME_LLAMA_CPP_MODEL");
      llama_cpp_api_key = trim_space (getenv "QUANTUM_RUNTIME_LLAMA_CPP_API_KEY");
      upstream_timeout = upstream_timeout;
      request_body_limit = body_limit;
      allow_model_mutation = allow_mutation;
      auth_token = trim_space (getenv "QUANTUM_RUNTIME_AUTH_TOKEN");
    }
    validate_config c
    ok c

  -- `LoadWith`, of the reader of the environment.
  unfoldable pub load_with : External → Option (String → String) → Result ConfigError Config
  load_with ext none = err no_environment
  load_with ext (some getenv) =
      load_from getenv
        (ext.parse_url
          (value_or_default (getenv "QUANTUM_RUNTIME_OLLAMA_URL") default_upstream_url))
        (ext.parse_url
          (value_or_default (getenv "QUANTUM_RUNTIME_LLAMA_CPP_URL") default_llama_cpp_url))
        (parsed_or_default ps.parse_duration (getenv "QUANTUM_RUNTIME_UPSTREAM_TIMEOUT")
          default_upstream_timeout)
        (parsed_or_default ps.parse_int (getenv "QUANTUM_RUNTIME_MAX_REQUEST_BYTES")
          default_request_body_limit)
        (parsed_or_default ps.parse_bool (getenv "QUANTUM_RUNTIME_ALLOW_MODEL_MUTATION") false)

-- ===== src/Tests/Services.antt =====
-- A server that is open to the network, the requests that it gets, and what the two backends make of
-- them.
use Prim.Native.String.{◌++◌ as ◌<>◌}
use mathlib.Core.List.{Memᴰ}
use quantum_runtime.Prelude.{
  String, ◌≡◌, refl, ◌↔◌, ◌⊎◌, List, [], ◌∷◌, true, false, Option, none, some, ok, ◌==◌, string_eq,
  if◌then◌else◌, contains,
}
use quantum_runtime.Prelude.Int.{pos}
use quantum_runtime.Prelude.Sorting.{sort}
use quantum_runtime.Prelude.Text.{trim_space, to_lower, equal_fold, trim_brackets, after_prefix}
use text.Mathlib.TextEquality.{eq_iff}
use quantum_runtime.External.{External}
use quantum_runtime.Samples.{lenient, workstation, guest_limits}
use quantum_runtime.Config.{
  Parsers, Config, value_or_default, parsed_or_default, validate_http_url,
  is_loopback_listen_address, validate_config, load_with,
}
use quantum_runtime.Config.Laws.{IsSafe, load_with-IsSafe}
use quantum_runtime.Tests.Resource.{measured}
use quantum_runtime.Registry.{empty, lookup}
use quantum_runtime.Backend.{validate_descriptor}
use quantum_runtime.Http.Types.{
  Request, Server, Upstream, answered, served, backends, compatibility_routes, is_token, authorized,
  guarded,
}
use quantum_runtime.Http.Handlers.{handle_backends, handle_compatibility}
use quantum_runtime.Http.Routes.{exact_routes, serve_mux, serve_registry, extension_routes, serve}
use quantum_runtime.Http.Guards.{IsClosed, serve-load_with}
use quantum_runtime.Http.Forwarding.{IsForwarded, serve-IsForwarded}
use quantum_runtime.Ollama.{proxy_descriptor}
use quantum_runtime.Ollama.Laws.{handle_backends-proxy_descriptor}
use quantum_runtime.Ollama.Headers.{Header, request_headers}
use quantum_runtime.Ollama.Sent.{IsForwardable, IsGiven, request_headers_iff}
use quantum_runtime.Llama.Stream.{
  Pipe, Choice, closed, raw_provided, raw_present, translate_chat_stream,
}
use quantum_runtime.Llama.Chunks.{parts_of, parts_of_lines, has_last}
use quantum_runtime.Llama.Ending.{translate_chat_stream_lem}
use quantum_runtime.Llama.Requests.{
  ChatRequest, Forwarded, validate_requested_model, convert_options, apply_safe_options,
  convert_messages, chat_forwarded, do_chat,
}
use quantum_runtime.Llama.Forwarding.{IsTranslated, do_chat-IsTranslated}

abbrev parsers : Parsers
parsers = record {
  parse_duration = λ text. none;
  parse_int = λ text. none;
  parse_bool = λ text. none;
  split_host_port = λ text. if text == "0.0.0.0:11450" then some "0.0.0.0" else none;
  is_loopback_ip = λ host. host == "127.0.0.1";
}

abbrev urls : External
urls = record lenient {
  parse_url = λ text. some (record { scheme = "http"; host = "127.0.0.1"; has_user = false });
}

abbrev environment : String → String
environment name =
    if name == "QUANTUM_RUNTIME_LISTEN"
    then "0.0.0.0:11450"
    else if name == "QUANTUM_RUNTIME_AUTH_TOKEN"
    then "secret"
    else ""

abbrev open_config : Config
open_config = record {
  listen_address = "0.0.0.0:11450";
  backend = "ollama";
  upstream_url = some (record { scheme = "http"; host = "127.0.0.1"; has_user = false });
  llama_cpp_url = some (record { scheme = "http"; host = "127.0.0.1"; has_user = false });
  llama_cpp_model = "";
  llama_cpp_api_key = "";
  upstream_timeout = pos 900000000000;
  request_body_limit = pos 134217728;
  allow_model_mutation = false;
  auth_token = "secret";
}

open_config-loaded : load_with parsers urls (some environment) ≡ ok open_config
unfolding load_with value_or_default parsed_or_default validate_config validate_http_url
    is_loopback_listen_address trim_space to_lower equal_fold trim_brackets
open_config-loaded = refl

load_with-IsSafe_example : IsSafe parsers open_config
load_with-IsSafe_example = load_with-IsSafe parsers urls environment open_config open_config-loaded

abbrev proxy : Upstream
proxy = record {
  descriptor = proxy_descriptor "1.0";
  is_ready = true;
  perform = λ limit timeout r. answered (record { status = 200; headers = []; body = "{}" });
}

abbrev server : Server
server = record {
  config = open_config;
  upstream = some proxy;
  build = record { version = "1.0"; commit = "c"; build_date = "d" };
  registry = empty;
  policies = [];
  ledger = record { schema = ""; entries = [] };
  profiles = record { by_id = []; ordered = [] };
  external = urls;
  host = workstation;
  limits = guest_limits;
  measured = measured;
  resources = record { last = none; calibrating = none };
  decode_admission = λ limit r. none;
  decode_benchmark = λ limit r. none;
  decode_placement = λ limit r. none;
  decode_route = λ limit r. none;
}

abbrev stranger : Request
stranger = record {
  method = "POST";
  path = "/api/chat";
  content_length = pos 2;
  authorization = "Bearer guess";
}

abbrev friend : Request
friend = record stranger { authorization = "Bearer secret" }

stranger-outside : is_loopback_listen_address parsers open_config.listen_address ≡ false
unfolding is_loopback_listen_address trim_space equal_fold trim_brackets
stranger-outside = refl

stranger-token :
    is_token
      (trim_space open_config.auth_token)
      (after_prefix "Bearer " (trim_space stranger.authorization))
    ≡ false
unfolding trim_space after_prefix
stranger-token = refl

serve-load_with_example : IsClosed (serve server stranger)
serve-load_with_example =
    serve-load_with parsers urls environment server stranger open_config-loaded stranger-outside
      stranger-token (λ e. cc ((eq_iff "/api/chat" "/healthz").1 e))
      (λ e. cc ((eq_iff "/api/chat" "/readyz").1 e))

friend-forwarded : (serve server friend).forwarded ≡ friend ∷ []
unfolding serve serve_registry extension_routes serve_mux exact_routes handle_compatibility
    compatibility_routes guarded authorized lookup after_prefix trim_space
friend-forwarded = refl

serve-IsForwarded_example : IsForwarded server friend (serve server friend).forwarded
serve-IsForwarded_example = serve-IsForwarded server friend friend [] friend-forwarded

abbrev lister : Request
lister = record friend { method = "GET"; path = "/v1/backends" }

lister-authorized : authorized server lister ≡ true
unfolding authorized after_prefix trim_space
lister-authorized = refl

handle_backends-proxy_descriptor_example :
    (validate_descriptor (proxy_descriptor "1.0") ≡ ok tt)
    × ((handle_backends server lister).reply ≡ served (backends (proxy_descriptor "1.0" ∷ [])))
handle_backends-proxy_descriptor_example =
    handle_backends-proxy_descriptor "1.0" server lister proxy refl refl refl lister-authorized

abbrev headers : Header
headers = ("Accept", "text/plain" ∷ []) ∷ ("Cookie", "id=1" ∷ []) ∷ []

request_headers_iff_example :
    Memᴰ ("Cookie", "id=1") (request_headers (λ key. key) "1.0" headers) ↔ (
      (◌≡◌ {A = String} "Cookie" "User-Agent"
        × ◌≡◌ {A = String} "id=1" ("Quantum-Runtime/" <> "1.0" <> " (Ollama compatibility)"))
      ⊎ (IsForwardable "Cookie" × IsGiven (λ key. key) headers "Cookie" "id=1"))
request_headers_iff_example = request_headers_iff (λ key. key) "1.0" headers "Cookie" "id=1"

abbrev word : Choice
word = record {
  content = "hi";
  reasoning_content = "";
  reasoning = "";
  tool_calls = "";
  finish_reason = none;
}

abbrev pipe : Pipe
pipe = record {
  decode_chunk = λ text. if text == "1" then some (word ∷ []) else none;
  takes = λ written chunk. true;
}

abbrev events : List String
events = "data: 1" ∷ ": comment" ∷ "data: [DONE]" ∷ []

translate_chat_stream_lem_example :
    (parts_of (translate_chat_stream pipe false events).chunks ≡ parts_of_lines pipe events)
    × ((translate_chat_stream pipe false events).closing ≡ closed
        → has_last (translate_chat_stream pipe false events).chunks ≡ true)
translate_chat_stream_lem_example =
    translate_chat_stream_lem pipe (λ written chunk. refl) false events

-- A float64 holds no odd number beyond 2^53.
abbrev reencode : String → Option String
reencode raw = if raw == "9007199254740993" then some "9007199254740992" else some raw

abbrev question : ChatRequest
question = record {
  model = "m";
  messages = record { role = "user"; content = "hi"; images = []; tool_calls = "" } ∷ [];
  stream = none;
  options = ("top_k", "9007199254740993") ∷ [];
  format = "";
  tools = "";
  think = "";
}

abbrev translated : Forwarded
translated = chat_forwarded "m" (("user", "hi") ∷ []) true (("top_k", "9007199254740992") ∷ [])

question-translated : do_chat reencode "m" (some question) ≡ ok translated
unfolding do_chat validate_requested_model convert_messages apply_safe_options convert_options
    raw_present raw_provided trim_space contains sort
question-translated = refl

do_chat-IsTranslated_example : IsTranslated reencode "m" question translated
do_chat-IsTranslated_example =
    do_chat-IsTranslated reencode "m" question translated question-translated

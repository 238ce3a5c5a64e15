-- ===== src/Ollama.antt =====
-- The proxy for Ollama (internal/ollama/proxy.go): what it declares of itself, and the path and the
-- headers of the requests that it passes on.
pub mod Headers
pub mod Sent
pub mod Laws
use Prim.Native.String.{◌++◌ as ◌<>◌}
use quantum_runtime.Prelude.{
  String, List, [], ◌∷◌, Bool, true, false, Option, none, some, ◌==◌, string_eq, if◌then◌else◌,
}
use quantum_runtime.Prelude.Int.{pos}
use quantum_runtime.Prelude.Text.{trim_space, after_prefix, trim_suffix_slash}
use quantum_runtime.Backend.{
  Descriptor, BackendCapabilities, contract_version, supported, unsupported, conditional, unknown,
}

abbrev pub or_whole : String → Option String → String
or_whole s none = s
or_whole s (some rest) = rest

-- `joinURLPath`.
unfoldable pub join_url_path : String → String → String
join_url_path base_path request_path =
    let base = trim_suffix_slash base_path in
    let request = "/" <> or_whole request_path (after_prefix "/" request_path) in
    if base == "" then request else base <> request

abbrev pub proxy_version : String → String
proxy_version version = if trim_space version == "" then "development" else version

unfoldable pub proxy_capabilities : BackendCapabilities
proxy_capabilities = record {
  text = conditional;
  architecture = record { dense = conditional; moe = conditional };
  moe = record { expert_offload = conditional; expert_parallel = unknown };
  quantization_formats = [];
  speculative = record { mtp = conditional; draft_model = conditional };
  cache = record { kv_offload = conditional; prompt_cache = conditional };
  multimodal = record { vision = conditional; audio = conditional };
  embeddings = conditional;
  reranking = unknown;
  reasoning_control = conditional;
  tools = record { calling = conditional; streaming = unknown };
  structured_output = conditional;
  streaming = record { content = supported; reasoning = conditional; tool_arguments = unknown };
  placement = record { cpu = supported; gpu = conditional; hybrid = conditional };
  context = record {
    backend_managed = true;
    override_supported = conditional;
    override_verified = false;
    native_max = pos 0;
  };
}

-- `Descriptor` of a proxy with this version.
unfoldable pub proxy_descriptor : String → Descriptor
proxy_descriptor version = record {
  contract = contract_version;
  id = "ollama";
  kind = "ollama-adapter";
  adapter_version = proxy_version version;
  execution_mode = "external";
  state = "unknown";
  capabilities = proxy_capabilities;
}

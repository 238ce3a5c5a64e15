-- ===== src/Backend.antt =====
-- The backend contract (internal/backendcontract/contract.go): what a backend declares of itself, the
-- checks of a declaration, and the lookup of a capability by its name. The `Backend` interface is a
-- record of functions in Http/Types.
pub mod Laws
use Prim.Native.Char.{code}
use Prim.Native.String.{len}
use quantum_runtime.Prelude.{
  ℕ, String, List, [], ◌∷◌, map, Bool, true, false, not, ◌&&◌, ◌||◌, Option, none, some, Result, ok,
  err, ◌>>=◌, ◌>>◌, fail_if, ltb, nat_eqb, ◌==◌, string_eq, if◌then◌else◌, contains,
}
use quantum_runtime.Prelude.Int.{ℤ, pos, ltb_ℤ}
use quantum_runtime.Prelude.Text.{trim_space, matches, is_lower, is_digit, str_leb}
use quantum_runtime.Prelude.Sorting.{sort}
use quantum_runtime.Registry.{lookup}

abbrev pub contract_version : String
contract_version = "quantum.runtime/backend/v1alpha1"

-- `Support`, a string type with four valid values.
pub data Support : Type 0 where
  supported unsupported conditional unknown : Support
  other : String → Support

pub record ArchitectureCapabilities : Type 0 where
  pub dense : Support
  pub moe : Support

pub record MoeCapabilities : Type 0 where
  pub expert_offload : Support
  pub expert_parallel : Support

pub record SpeculativeCapabilities : Type 0 where
  pub mtp : Support
  pub draft_model : Support

pub record CacheCapabilities : Type 0 where
  pub kv_offload : Support
  pub prompt_cache : Support

pub record MultimodalCapabilities : Type 0 where
  pub vision : Support
  pub audio : Support

pub record ToolCapabilities : Type 0 where
  pub calling : Support
  pub streaming : Support

pub record StreamingCapabilities : Type 0 where
  pub content : Support
  pub reasoning : Support
  pub tool_arguments : Support

pub record PlacementCapabilities : Type 0 where
  pub cpu : Support
  pub gpu : Support
  pub hybrid : Support

pub record ContextCapabilities : Type 0 where
  pub backend_managed : Bool
  pub override_supported : Support
  pub override_verified : Bool
  pub native_max : ℤ

pub record BackendCapabilities : Type 0 where
  pub text : Support
  pub architecture : ArchitectureCapabilities
  pub moe : MoeCapabilities
  pub quantization_formats : List String
  pub speculative : SpeculativeCapabilities
  pub cache : CacheCapabilities
  pub multimodal : MultimodalCapabilities
  pub embeddings : Support
  pub reranking : Support
  pub reasoning_control : Support
  pub tools : ToolCapabilities
  pub structured_output : Support
  pub streaming : StreamingCapabilities
  pub placement : PlacementCapabilities
  pub context : ContextCapabilities

pub record Descriptor : Type 0 where
  pub contract : String
  pub id : String
  pub kind : String
  pub adapter_version : String
  pub execution_mode : String
  pub state : String
  pub capabilities : BackendCapabilities

pub data ContractError : Type 0 where
  contract_mismatch id_invalid kind_invalid adapter_version_required : ContractError
  execution_mode_invalid state_invalid : ContractError
  support_invalid : String → ContractError
  native_max_negative override_not_supported format_empty : ContractError
  format_duplicated : String → ContractError

-- The table of `Capabilities.Validate`.
unfoldable pub named_supports : BackendCapabilities → List (String × Support)
named_supports c =
    ("text", c.text)
    ∷ ("architecture.dense", c.architecture.dense)
    ∷ ("architecture.moe", c.architecture.moe)
    ∷ ("moe.expert_offload", c.moe.expert_offload)
    ∷ ("moe.expert_parallel", c.moe.expert_parallel)
    ∷ ("speculative.mtp", c.speculative.mtp)
    ∷ ("speculative.draft_model", c.speculative.draft_model)
    ∷ ("cache.kv_offload", c.cache.kv_offload)
    ∷ ("cache.prompt_cache", c.cache.prompt_cache)
    ∷ ("multimodal.vision", c.multimodal.vision)
    ∷ ("multimodal.audio", c.multimodal.audio)
    ∷ ("embeddings", c.embeddings)
    ∷ ("reranking", c.reranking)
    ∷ ("reasoning.control", c.reasoning_control)
    ∷ ("tools.calling", c.tools.calling)
    ∷ ("tools.streaming", c.tools.streaming)
    ∷ ("structured_output", c.structured_output)
    ∷ ("streaming.content", c.streaming.content)
    ∷ ("streaming.reasoning", c.streaming.reasoning)
    ∷ ("streaming.tool_arguments", c.streaming.tool_arguments)
    ∷ ("placement.cpu", c.placement.cpu)
    ∷ ("placement.gpu", c.placement.gpu)
    ∷ ("placement.hybrid", c.placement.hybrid)
    ∷ ("context.override", c.context.override_supported)
    ∷ []

unfoldable pub valid_support : Support → Bool
valid_support (other value) = false
valid_support _ = true

unfoldable pub is_supported : Support → Bool
is_supported supported = true
is_supported _ = false

unfoldable pub check_supports : List (String × Support) → Result ContractError (Unit {0})
check_supports [] = ok tt
check_supports ((name, value) ∷ rest) = do
  fail_if (not (valid_support value)) (support_invalid name)
  check_supports rest

unfoldable pub check_formats : List String → List String → Result ContractError (Unit {0})
check_formats seen [] = ok tt
check_formats seen (format ∷ rest) = do
  fail_if (trim_space format == "") format_empty
  fail_if (contains seen (trim_space format)) (format_duplicated (trim_space format))
  check_formats (trim_space format ∷ seen) rest

unfoldable pub validate_capabilities : BackendCapabilities → Result ContractError (Unit {0})
validate_capabilities c = do
  check_supports (named_supports c)
  fail_if (ltb_ℤ c.context.native_max (pos 0)) native_max_negative
  fail_if (c.context.override_verified && not (is_supported c.context.override_supported))
      override_not_supported
  check_formats [] c.quantization_formats

is_token_rest : ℕ → Bool
is_token_rest c = is_lower c || is_digit c || nat_eqb c b'.' || nat_eqb c b'_' || nat_eqb c b'-'

-- `validToken`: not empty, at most 128 bytes, and no dot, underscore or dash in front.
unfoldable pub valid_token : String → Bool
unfolding matches is_token_rest
valid_token = matches (λ c. is_lower c || is_digit c) is_token_rest 127

abbrev pub backend_kinds : List String
backend_kinds = "ollama-adapter" ∷ "llama.cpp" ∷ "mlx" ∷ "vllm" ∷ "external" ∷ []

abbrev pub execution_modes : List String
execution_modes = "external" ∷ "process" ∷ "library" ∷ []

abbrev pub backend_states : List String
backend_states = "ready" ∷ "unknown" ∷ "unavailable" ∷ "disabled" ∷ []

unfoldable pub validate_descriptor : Descriptor → Result ContractError (Unit {0})
validate_descriptor d = do
  fail_if (not (d.contract == contract_version)) contract_mismatch
  fail_if (not (valid_token d.id)) id_invalid
  fail_if (not (contains backend_kinds d.kind)) kind_invalid
  fail_if (trim_space d.adapter_version == "") adapter_version_required
  fail_if (not (contains execution_modes d.execution_mode)) execution_mode_invalid
  fail_if (not (contains backend_states d.state)) state_invalid
  validate_capabilities d.capabilities

abbrev or_unknown : Option Support → Support
or_unknown none = unknown
or_unknown (some value) = value

-- The cases of the `switch` of `Capabilities.State`.
unfoldable pub named_states : BackendCapabilities → List (String × Support)
named_states c =
    ("inference.text", c.text)
    ∷ ("architecture.dense", c.architecture.dense)
    ∷ ("architecture.moe", c.architecture.moe)
    ∷ ("moe.expert_offload", c.moe.expert_offload)
    ∷ ("moe.expert_parallel", c.moe.expert_parallel)
    ∷ ("speculative.mtp", c.speculative.mtp)
    ∷ ("speculative.draft_model", c.speculative.draft_model)
    ∷ ("cache.kv_offload", c.cache.kv_offload)
    ∷ ("cache.prompt_cache", c.cache.prompt_cache)
    ∷ ("multimodal.vision", c.multimodal.vision)
    ∷ ("multimodal.audio", c.multimodal.audio)
    ∷ ("embeddings", c.embeddings)
    ∷ ("reranking", c.reranking)
    ∷ ("reasoning.control", c.reasoning_control)
    ∷ ("tools.calling", c.tools.calling)
    ∷ ("tools.streaming", c.tools.streaming)
    ∷ ("structured_output", c.structured_output)
    ∷ ("streaming.content", c.streaming.content)
    ∷ ("streaming.reasoning", c.streaming.reasoning)
    ∷ ("streaming.tool_arguments", c.streaming.tool_arguments)
    ∷ ("placement.cpu", c.placement.cpu)
    ∷ ("placement.gpu", c.placement.gpu)
    ∷ ("placement.hybrid", c.placement.hybrid)
    ∷ ("context.override", c.context.override_supported)
    ∷ []

-- `Capabilities.State`.
unfoldable pub capability_state : BackendCapabilities → String → Support
capability_state c name = or_unknown (lookup name (named_states c))

unfoldable pub declared_names : BackendCapabilities → List String
declared_names c = sort str_leb (
    "inference.text" ∷ "architecture.dense" ∷ "architecture.moe" ∷ "moe.expert_offload"
    ∷ "moe.expert_parallel" ∷ "speculative.mtp" ∷ "speculative.draft_model" ∷ "cache.kv_offload"
    ∷ "cache.prompt_cache" ∷ "multimodal.vision" ∷ "multimodal.audio" ∷ "embeddings" ∷ "reranking"
    ∷ "reasoning.control" ∷ "tools.calling" ∷ "tools.streaming" ∷ "structured_output"
    ∷ "streaming.content" ∷ "streaming.reasoning" ∷ "streaming.tool_arguments" ∷ "placement.cpu"
    ∷ "placement.gpu" ∷ "placement.hybrid" ∷ "context.override" ∷ [])

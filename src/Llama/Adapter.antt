-- ===== src/Llama/Adapter.antt =====
-- The adapter for llama.cpp (internal/llamacpp/client.go): what it declares of itself, which operation
-- a path asks for, and how single responses are translated. A decoded response is the input.
use quantum_runtime.Prelude.{
  String, List, [], ◌∷◌, map, Bool, true, false, not, ◌||◌, Result, ok, err, ◌>>◌, fail_if, ◌==◌,
  string_eq, if◌then◌else◌,
}
use quantum_runtime.Prelude.Int.{ℤ, pos, leb_ℤ}
use quantum_runtime.Prelude.Sorting.{sort}
use quantum_runtime.Backend.{
  Descriptor, BackendCapabilities, contract_version, supported, unsupported, conditional, unknown,
}
use quantum_runtime.Llama.Stream.{or_else}

unfoldable pub client_capabilities : BackendCapabilities
client_capabilities = record {
  text = supported;
  architecture = record { dense = conditional; moe = conditional };
  moe = record { expert_offload = conditional; expert_parallel = unknown };
  quantization_formats = "gguf" ∷ [];
  speculative = record { mtp = unknown; draft_model = conditional };
  cache = record { kv_offload = supported; prompt_cache = conditional };
  multimodal = record { vision = unsupported; audio = unsupported };
  embeddings = conditional;
  reranking = unsupported;
  reasoning_control = unsupported;
  tools = record { calling = unsupported; streaming = unsupported };
  structured_output = unsupported;
  streaming = record { content = supported; reasoning = conditional; tool_arguments = unsupported };
  placement = record { cpu = supported; gpu = conditional; hybrid = conditional };
  context = record {
    backend_managed = true;
    override_supported = unsupported;
    override_verified = false;
    native_max = pos 0;
  };
}

-- `Descriptor` of a client with this version.
unfoldable pub client_descriptor : String → Descriptor
client_descriptor version = record {
  contract = contract_version;
  id = "llama.cpp";
  kind = "llama.cpp";
  adapter_version = version;
  execution_mode = "external";
  state = "unknown";
  capabilities = client_capabilities;
}

pub data ClientError : Type 0 where
  not_configured model_not_configured no_choices no_vectors : ClientError

-- `validate`, of whether there are an address and a client, and of the model.
unfoldable pub validate_client : Bool → String → Result ClientError (Unit {0})
validate_client configured model = do
  fail_if (not configured) not_configured
  fail_if (model == "") model_not_configured

-- The operation that `Do` chooses by the path.
pub data Operation : Type 0 where
  chat generate embeddings tags show processes version mutation no_route : Operation

unfoldable pub operation_of : String → Operation
operation_of path =
    if path == "/api/chat"
    then chat
    else if path == "/api/generate"
    then generate
    else if path == "/api/embed" || path == "/api/embeddings"
    then embeddings
    else if path == "/api/tags"
    then tags
    else if path == "/api/show"
    then show
    else if path == "/api/ps"
    then processes
    else if path == "/api/version"
    then version
    else if path == "/api/pull"
        || path == "/api/create"
        || path == "/api/copy"
        || path == "/api/delete"
    then mutation
    else no_route

-- A choice of a response to a chat.
pub record ChatChoice : Type 0 where
  pub content : String
  pub reasoning_content : String
  pub reasoning : String
  pub finish_reason : String

-- What a client is sent: an empty `thinking` or `done_reason` is left out of the JSON object.
pub record ChatAnswer : Type 0 where
  pub model : String
  pub content : String
  pub thinking : String
  pub done_reason : String
  pub prompt_eval_count : ℤ
  pub eval_count : ℤ

unfoldable pub translate_chat_response :
    String → (prompt_tokens completion_tokens : ℤ) → List ChatChoice → Result ClientError ChatAnswer
translate_chat_response model prompt_tokens completion_tokens [] = err no_choices
translate_chat_response model prompt_tokens completion_tokens (c ∷ cs) = ok (record {
  model = model;
  content = c.content;
  thinking = or_else c.reasoning_content c.reasoning;
  done_reason = c.finish_reason;
  prompt_eval_count = prompt_tokens;
  eval_count = completion_tokens;
})

-- A choice of a response to a completion, and what a client is sent.
pub record TextChoice : Type 0 where
  pub text : String
  pub finish_reason : String

pub record TextAnswer : Type 0 where
  pub model : String
  pub response : String
  pub done_reason : String
  pub prompt_eval_count : ℤ
  pub eval_count : ℤ

unfoldable pub translate_generate_response :
    String → (prompt_tokens completion_tokens : ℤ) → List TextChoice → Result ClientError TextAnswer
translate_generate_response model prompt_tokens completion_tokens [] = err no_choices
translate_generate_response model prompt_tokens completion_tokens (c ∷ cs) = ok (record {
  model = model;
  response = c.text;
  done_reason = c.finish_reason;
  prompt_eval_count = prompt_tokens;
  eval_count = completion_tokens;
})

module _ (Vector : Type 0) where
  -- An item of a response to a request for embeddings, with its index.
  abbrev pub Item : Type 0
  Item = ℤ × Vector

  pub data EmbeddingAnswer : Type 0 where
    one : Vector → EmbeddingAnswer
    all : (model : String) (vectors : List Vector) (prompt_eval_count : ℤ) → EmbeddingAnswer

  abbrev pub index_leb : Item → Item → Bool
  index_leb a b = leb_ℤ a.0 b.0

  abbrev pub first_vector : List Vector → Result ClientError EmbeddingAnswer
  first_vector [] = err no_vectors
  first_vector (v ∷ vs) = ok (one v)

  -- What `doEmbeddings` makes of the items, sorted by their indices.
  unfoldable pub translate_embeddings :
      (path model : String) (prompt_tokens : ℤ) → List Item → Result ClientError EmbeddingAnswer
  translate_embeddings path model prompt_tokens items =
      let vectors = map (λ (i : Item). i.1) (sort index_leb items) in
      if path == "/api/embeddings"
      then first_vector vectors
      else ok (all model vectors prompt_tokens)

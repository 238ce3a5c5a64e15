-- ===== src/Llama/Requests.antt =====
-- The requests of the adapter for llama.cpp (internal/llamacpp/client.go): which of them it refuses,
-- answers itself, or passes on, and what it passes on. What `encoding/json` decodes of a body is the
-- input here.
use quantum_runtime.Prelude.{
  ℕ, String, List, [], ◌∷◌, Bool, true, false, not, ◌&&◌, Option, none, some, Result, ok, err,
  ◌>>=◌, ◌>>◌, fail_if, ◌==◌, string_eq, if◌then◌else◌, contains,
}
use quantum_runtime.Prelude.Sorting.{sort}
use quantum_runtime.Prelude.Text.{trim_space, str_leb}
use quantum_runtime.Llama.Stream.{raw_provided, raw_present}

pub record Message : Type 0 where
  pub role : String
  pub content : String
  pub images : List String
  pub tool_calls : String

-- A raw JSON value is its text, the empty one where it is missing.
pub record ChatRequest : Type 0 where
  pub model : String
  pub messages : List Message
  pub stream : Option Bool
  pub options : List (String × String)
  pub format : String
  pub tools : String
  pub think : String

pub record GenerateRequest : Type 0 where
  pub model : String
  pub prompt : String
  pub stream : Option Bool
  pub options : List (String × String)
  pub images : List String
  pub format : String

pub record EmbedRequest : Type 0 where
  pub model : String
  pub input : String
  pub prompt : String
  pub options : List (String × String)

-- An answer that the adapter gives itself; each has an HTTP status.
pub data Refusal : Type 0 where
  invalid_json model_required messages_required input_required input_invalid : Refusal
  wrong_model : String → Refusal
  unsupported : String → Refusal
  invalid_option : String → Refusal
  not_implemented unknown_route : Refusal

abbrev pub status_of : Refusal → ℕ
status_of invalid_json = 400
status_of model_required = 400
status_of messages_required = 400
status_of input_required = 400
status_of input_invalid = 400
status_of (invalid_option key) = 400
status_of (wrong_model requested) = 404
status_of unknown_route = 404
status_of (unsupported message) = 422
status_of not_implemented = 501

-- What is sent to llama.cpp: the path, the model, the input, and the options with the texts that
-- their values are encoded to.
pub data Input : Type 0 where
  messages : List (String × String) → Input
  prompt : String → Input
  embedding : (encoded : String) → Input

pub record Forwarded : Type 0 where
  pub path : String
  pub model : String
  pub input : Input
  pub stream : Bool
  pub options : List (String × String)

module _ (model : String) where
  unfoldable pub validate_requested_model : String → Result Refusal (Unit {0})
  validate_requested_model raw = do
    fail_if (trim_space raw == "") model_required
    fail_if (not (trim_space raw == model)) (wrong_model (trim_space raw))

-- The options that are passed on; each keeps its name.
abbrev pub allowed_options : List String
allowed_options = "temperature" ∷ "top_p" ∷ "top_k" ∷ []

abbrev pub option_leb : String × String → String × String → Bool
option_leb a b = str_leb a.0 b.0

-- A raw value that is decoded and encoded again; `none` stands for a text that cannot be decoded.
abbrev pub value_of : String → Option String → Result Refusal String
value_of key none = err (invalid_option key)
value_of key (some value) = ok value

-- `reencode` is `json.Unmarshal` into an `any` and then `json.Marshal`: the text that is sent for a
-- raw value, in which a number, say, is what a float64 holds of it.
module _ (reencode : String → Option String) where
  -- The loop of `applySafeOptions`, over the keys in their order.
  unfoldable pub convert_options : List (String × String) → Result Refusal (List (String × String))
  convert_options [] = ok []
  convert_options ((key, raw) ∷ options) = do
    fail_if (not (contains allowed_options key)) (unsupported key)
    value ← value_of key (reencode raw)
    rest ← convert_options options
    ok ((key, value) ∷ rest)

  -- `applySafeOptions`: the options that go into the payload, as they are encoded with it.
  unfoldable pub apply_safe_options :
      List (String × String) → Result Refusal (List (String × String))
  apply_safe_options options = convert_options (sort option_leb options)

abbrev pub is_empty {ℓ} : {A : Type ℓ} → List A → Bool
is_empty [] = true
is_empty (x ∷ xs) = false

abbrev pub streams : Option Bool → Bool
streams none = true
streams (some stream) = stream

-- The loop over the messages of `doChat`.
unfoldable pub convert_messages : List Message → Result Refusal (List (String × String))
convert_messages [] = ok []
convert_messages (m ∷ ms) = do
  fail_if (not (m.role == "system") && not (m.role == "user") && not (m.role == "assistant"))
      (unsupported "roles")
  fail_if (not (is_empty m.images)) (unsupported "multimodal.vision")
  fail_if (raw_present m.tool_calls) (unsupported "tool call history")
  rest ← convert_messages ms
  ok ((m.role, m.content) ∷ rest)

abbrev pub chat_forwarded :
    String → List (String × String) → Bool → List (String × String) → Forwarded
chat_forwarded model converted stream options = record {
  path = "/v1/chat/completions";
  model = model;
  input = messages converted;
  stream = stream;
  options = options;
}

abbrev pub embedding_value : Option String → Result Refusal Input
embedding_value none = err input_invalid
embedding_value (some value) = ok (embedding value)

module _ (reencode : String → Option String) (model : String) where
  -- `doChat` up to the request that it sends.
  unfoldable pub do_chat : Option ChatRequest → Result Refusal Forwarded
  do_chat none = err invalid_json
  do_chat (some input) = do
    validate_requested_model model input.model
    fail_if (is_empty input.messages) messages_required
    fail_if (raw_present input.tools) (unsupported "tools.calling")
    fail_if (raw_provided input.think) (unsupported "reasoning.control")
    fail_if (raw_present input.format) (unsupported "structured_output")
    converted ← convert_messages input.messages
    options ← apply_safe_options reencode input.options
    ok (chat_forwarded model converted (streams input.stream) options)

  -- `doGenerate` up to the request that it sends.
  unfoldable pub do_generate : Option GenerateRequest → Result Refusal Forwarded
  do_generate none = err invalid_json
  do_generate (some input) = do
    validate_requested_model model input.model
    fail_if (not (is_empty input.images)) (unsupported "multimodal.vision")
    fail_if (raw_present input.format) (unsupported "structured_output")
    options ← apply_safe_options reencode input.options
    ok (record {
      path = "/v1/completions";
      model = model;
      input = prompt input.prompt;
      stream = streams input.stream;
      options = options;
    })

  -- The input of an embedding, by the path; a prompt is quoted by `encoding/json`.
  abbrev pub embedding_input :
      (quote : String → String) → String → EmbedRequest → Result Refusal Input
  embedding_input quote path input =
      if path == "/api/embeddings"
      then ok (embedding (quote input.prompt))
      else (fail_if (not (raw_present input.input)) input_required
          >> embedding_value (reencode input.input))

  -- `doEmbeddings` up to the request that it sends.
  unfoldable pub do_embeddings :
      (quote : String → String) → String → Option EmbedRequest → Result Refusal Forwarded
  do_embeddings quote path none = err invalid_json
  do_embeddings quote path (some input) = do
    validate_requested_model model input.model
    fail_if (not (is_empty input.options)) (unsupported "embedding options")
    converted ← embedding_input quote path input
    ok (record {
      path = "/v1/embeddings";
      model = model;
      input = converted;
      stream = false;
      options = [];
    })

-- ===== src/Llama/Forwarding.antt =====
-- What the adapter for llama.cpp (internal/llamacpp/client.go) passes on.
use quantum_runtime.Prelude.{
  String, ◌≡◌, ◌≢◌, refl, sym, ◌∙◌, ap, subst, ◌⊎◌, inl, inr, List, [], ◌∷◌, map, Bool, true, false,
  not, ◌&&◌, Option, none, some, ok, ok_injective, >>-ok, >>=-eq-ok, fail_if, ◌>>=◌, contains,
  contains-All, ◌==◌, string_eq, All, Bool-cases,
}
use text.Mathlib.TextEquality.{eq_iff}
use quantum_runtime.Prelude.Sorting.{sort}
use quantum_runtime.Prelude.Text.{trim_space}
use quantum_runtime.Llama.Stream.{raw_provided, raw_present}
use quantum_runtime.Llama.Requests.{
  Message, ChatRequest, Refusal, messages, Forwarded, validate_requested_model, allowed_options,
  option_leb, value_of, convert_options, apply_safe_options, is_empty, streams, chat_forwarded,
  unsupported, messages_required, convert_messages, do_chat,
}

-- A message that llama.cpp is given as it is.
pub record IsPlain (m : Message) : Type 0 where
  pub role : (m.role ≡ "system") ⊎ (m.role ≡ "user") ⊎ (m.role ≡ "assistant")
  pub images : m.images ≡ []
  pub tool_calls : raw_present m.tool_calls ≡ false

abbrev pub pair_of : Message → String × String
pair_of m = (m.role, m.content)

-- The options that both servers read alike.
abbrev pub IsSafeOption : String → Type 0
IsSafeOption key = (key ≡ "temperature") ⊎ (key ≡ "top_p") ⊎ (key ≡ "top_k")

-- The texts that values are encoded to, where they are known.
abbrev pub encoded : List (String × String) → List (String × Option String)
encoded = map (λ o. (o.0, some o.1))

abbrev pub encoded_again :
    (String → Option String) → List (String × String) → List (String × Option String)
encoded_again reencode = map (λ o. (o.0, reencode o.1))

-- A request of a chat that is passed on, and what is passed on.
pub record IsTranslated (reencode : String → Option String) (model : String) (input : ChatRequest)
    (f : Forwarded) : Type 0 where
  pub requested : trim_space input.model ≡ model
  pub for_model : f.model ≡ model
  pub some_messages : input.messages ≢ []
  pub plain : All IsPlain input.messages
  pub kept : f.input ≡ messages (map pair_of input.messages)
  pub tools : raw_present input.tools ≡ false
  pub think : raw_provided input.think ≡ false
  pub format : raw_present input.format ≡ false
  pub options : encoded f.options ≡ encoded_again reencode (sort option_leb input.options)
  pub allowed : All (λ (o : String × String). IsSafeOption o.0) f.options
  pub streamed : f.stream ≡ streams input.stream

not-true : (b : Bool) → not b ≡ false → b ≡ true
not-true true e = refl
not-true false e = cc

fail_if-ok : (b : Bool) (x : Refusal) (u : Unit {0}) → fail_if b x ≡ ok u → b ≡ false
fail_if-ok true x u h = cc
fail_if-ok false x u h = refl

is_empty-nil : {A : Type 0} (xs : List A) → is_empty xs ≡ true → xs ≡ []
is_empty-nil [] e = refl
is_empty-nil (x ∷ xs) e = cc

nonempty_list : {A : Type 0} (xs : List A) → is_empty xs ≡ false → xs ≢ []
nonempty_list [] e = cc
nonempty_list (x ∷ xs) e = λ same. cc

validate_requested_model-ok :
    (model raw : String) → validate_requested_model model raw ≡ ok tt → trim_space raw ≡ model
unfolding validate_requested_model
validate_requested_model-ok model raw h =
    let (present, same) = >>-ok _ _ h in (eq_iff _ _).0 (not-true _ (fail_if-ok _ _ tt same))

one_of_roles :
    (r : String)
    → (not (r == "system") && not (r == "user") && not (r == "assistant")) ≡ false
    → (r ≡ "system") ⊎ (r ≡ "user") ⊎ (r ≡ "assistant")
one_of_roles r h = elim (Bool-cases (r == "system")) [
  | inl e ↦ inl ((eq_iff r _).0 e)
  | inr a ↦ elim (Bool-cases (r == "user")) [
    | inl e ↦ inr (inl ((eq_iff r _).0 e))
    | inr b ↦ elim (Bool-cases (r == "assistant")) [
      | inl e ↦ inr (inr ((eq_iff r _).0 e))
      | inr c ↦ cc (h, a, b, c)
    ]
  ]
]

convert_messages-ok :
    (ms : List Message) (out : List (String × String))
    → convert_messages ms ≡ ok out
    → All IsPlain ms × (map pair_of ms ≡ out)
unfolding convert_messages
convert_messages-ok [] out h = (tt, ok_injective h)
convert_messages-ok (m ∷ ms) out h =
    let (role, h1) = >>-ok _ _ h in
    let (images, h2) = >>-ok _ _ h1 in
    let (calls, h3) = >>-ok _ _ h2 in
    let (rest, found, is) = >>=-eq-ok (convert_messages ms) _ h3 in
    let (plain, same) = convert_messages-ok ms rest found in
    (
      (
        record {
          role = one_of_roles m.role (fail_if-ok _ _ tt role);
          images = is_empty-nil m.images (not-true _ (fail_if-ok _ _ tt images));
          tool_calls = fail_if-ok _ _ tt calls;
        },
        plain,
      ),
      ap (λ x. (m.role, m.content) ∷ x) same ∙ ok_injective is,
    )

allowed_options-IsSafeOption :
    (key : String) → contains allowed_options key ≡ true → IsSafeOption key
allowed_options-IsSafeOption key h =
    contains-All IsSafeOption allowed_options key h
      (inl refl, (inr (inl refl), (inr (inr refl), tt)))

value_of-ok :
    (key : String) (o : Option String) (value : String) → value_of key o ≡ ok value → some value ≡ o
value_of-ok key none value h = cc
value_of-ok key (some v) value h = ap some (sym (ok_injective h))

module _ (reencode : String → Option String) where
  convert_options-ok :
      (options out : List (String × String))
      → convert_options reencode options ≡ ok out
      → (encoded out ≡ encoded_again reencode options)
        × All (λ (o : String × String). IsSafeOption o.0) out
  unfolding convert_options
  convert_options-ok [] out h =
      subst
        (λ (out : List (String × String)).
          (encoded out ≡ []) × All (λ (o : String × String). IsSafeOption o.0) out)
        (ok_injective h) (refl, tt)
  convert_options-ok ((key, raw) ∷ options) out h =
      let (allowed, h1) = >>-ok _ _ h in
      let (value, known, h2) = >>=-eq-ok (value_of key (reencode raw)) _ h1 in
      let (rest, converted, h3) = >>=-eq-ok (convert_options reencode options) _ h2 in
      let (same, safe) = convert_options-ok options rest converted in
      subst
        (λ (out : List (String × String)).
          (encoded out ≡ (key, reencode raw) ∷ encoded_again reencode options)
          × All (λ (o : String × String). IsSafeOption o.0) out)
        {x = (key, value) ∷ rest} (ok_injective h3)
        (
          ap (λ (o : Option String). (key, o) ∷ encoded rest)
                (value_of-ok key (reencode raw) value known)
              ∙ ap (λ (os : List (String × Option String)). (key, reencode raw) ∷ os) same,
          (allowed_options-IsSafeOption key (not-true _ (fail_if-ok _ _ tt allowed)), safe),
        )

  -- A chat request that is passed on to llama.cpp asks for the configured model, has only messages and
  -- options that the adapter can translate, and asks for no tools, no reasoning and no format; its
  -- messages are passed on in their order, and its options, each of which is `temperature`, `top_p` or
  -- `top_k`, sorted by their keys, with the texts that their values are encoded to again.
  pub do_chat-IsTranslated :
      (model : String) (input : ChatRequest) (f : Forwarded)
      → do_chat reencode model (some input) ≡ ok f
      → IsTranslated reencode model input f
  unfolding do_chat apply_safe_options
  do_chat-IsTranslated model input f h =
      let (validated, h1) = >>-ok (validate_requested_model model input.model) _ h in
      let (nonempty, h2) = >>-ok (fail_if (is_empty input.messages) messages_required) _ h1 in
      let (tools, h3) =
        >>-ok (fail_if (raw_present input.tools) (unsupported "tools.calling")) _ h2 in
      let (think, h4) =
        >>-ok (fail_if (raw_provided input.think) (unsupported "reasoning.control")) _ h3 in
      let (format, h5) =
        >>-ok (fail_if (raw_present input.format) (unsupported "structured_output")) _ h4 in
      let sent = λ (converted options : List (String × String)).
        chat_forwarded model converted (streams input.stream) options in
      let (converted, found, h6) =
        >>=-eq-ok (convert_messages input.messages)
          (λ converted.
            apply_safe_options reencode input.options >>= λ options. ok (sent converted options))
          h5 in
      let (options, safe, h7) =
        >>=-eq-ok (apply_safe_options reencode input.options)
          (λ options. ok (sent converted options)) h6 in
      let (plain, kept) = convert_messages-ok input.messages converted found in
      let (sorted, allowed) = convert_options-ok (sort option_leb input.options) options safe in
      subst (IsTranslated reencode model input) (ok_injective h7) (record {
        requested = validate_requested_model-ok model input.model validated;
        for_model = refl;
        some_messages = nonempty_list input.messages (fail_if-ok _ _ tt nonempty);
        plain = plain;
        kept = ap messages (sym kept);
        tools = fail_if-ok _ _ tt tools;
        think = fail_if-ok _ _ tt think;
        format = fail_if-ok _ _ tt format;
        options = sorted;
        allowed = allowed;
        streamed = refl;
      })

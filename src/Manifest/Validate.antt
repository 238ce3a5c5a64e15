-- ===== src/Manifest/Validate.antt =====
-- The checks of a manifest: `Manifest.Validate` and the functions that it calls
-- (internal/modelmanifest/manifest.go). Each error text is a constructor.
use Prim.Native.Nat.{Ordering}
use Prim.Native.Char.{code}
use Prim.Native.String.{len}
use quantum_runtime.Prelude.{
  ℕ, String, List, [], ◌∷◌, Bool, true, false, not, ◌&&◌, ◌||◌, Option, none, some, Result, ok,
  ◌>>=◌, ◌>>◌, fail_if, wrap_err, ltb, leb, nat_eqb, ◌==◌, string_eq, if◌then◌else◌, contains,
}
use quantum_runtime.Prelude.Int.{pos, ltb_ℤ}
use quantum_runtime.Prelude.Text.{
  trim_space, equal_fold, matches, all_chars, is_lower, is_digit, is_alnum,
}
use quantum_runtime.External.{Url, External}
use quantum_runtime.Manifest.Types.{
  schema_version, Source, Artifact, ExpertTopology, Model, Capabilities, Compatibility, PersonaRef,
  State, Provenance, Manifest,
}
use quantum_runtime.Manifest.Version.{VersionError, SemanticVersion, parse_version, compare_version}

pub data ManifestError : Type 0 where
  schema_mismatch id_invalid display_name_length : ManifestError
  alias_invalid alias_duplicated : String → ManifestError
  provider_invalid reference_length revision_length revision_unresolved : ManifestError
  backend_unsupported : String → ManifestError
  artifacts_missing : ManifestError
  artifact_uri_invalid artifact_duplicated artifact_digest_invalid : String → ManifestError
  artifact_digest_missing artifact_format_invalid artifact_role_invalid : String → ManifestError
  architecture_invalid architecture_class_invalid parameter_class_invalid : ManifestError
  quantization_invalid context_window_range parameters_negative active_exceeds_total : ManifestError
  experts_require_moe experts_invalid native_max_negative override_unsupported : ManifestError
  no_capability tool_streaming_without_tools : ManifestError
  min_version_invalid max_version_invalid : VersionError → ManifestError
  max_below_min persona_package_invalid : ManifestError
  persona_version_invalid : VersionError → ManifestError
  persona_digest_invalid install_invalid verification_invalid lifecycle_invalid : ManifestError
  failed_active publisher_length source_url_invalid license_ref_length : ManifestError
  retrieved_at_invalid : ManifestError

abbrev pub Check : Type 0
Check = Result ManifestError (Unit {0})

is_id_rest : ℕ → Bool
is_id_rest c = is_lower c || is_digit c || nat_eqb c b'.' || nat_eqb c b'_' || nat_eqb c b'-'

is_alias_rest : ℕ → Bool
is_alias_rest c =
    is_alnum c
    || nat_eqb c b'.'
    || nat_eqb c b'_'
    || nat_eqb c b':'
    || nat_eqb c b'/'
    || nat_eqb c b'-'

is_label_rest : ℕ → Bool
is_label_rest c = is_alnum c || nat_eqb c b'.' || nat_eqb c b'_' || nat_eqb c b'+' || nat_eqb c b'-'

unfoldable pub canonical_id_pattern : String → Bool
unfolding matches is_id_rest
canonical_id_pattern = matches (λ c. is_lower c || is_digit c) is_id_rest 127

unfoldable pub alias_pattern : String → Bool
unfolding matches is_alias_rest
alias_pattern = matches is_alnum is_alias_rest 159

unfoldable pub label_pattern : String → Bool
unfolding matches is_label_rest
label_pattern = matches is_alnum is_label_rest 79

-- The rest of a text behind a prefix.
strip_prefix : String → String → Option String
strip_prefix String.[] s = some s
strip_prefix (String.◌∷◌ p ps) String.[] = none
strip_prefix (String.◌∷◌ p ps) (String.◌∷◌ c s) =
    if nat_eqb (code p) (code c) then strip_prefix ps s else none

is_hex_digits : Option String → Bool
unfolding all_chars
is_hex_digits none = false
is_hex_digits (some s) =
    all_chars (λ c. (leb b'a' c && leb c b'f') || is_digit c) s && nat_eqb (len s) 64

unfoldable pub digest_pattern : String → Bool
unfolding strip_prefix is_hex_digits
digest_pattern s = is_hex_digits (strip_prefix "sha256:" s)

-- `strings.ContainsAny(s, "\r\n\t ")`.
unfoldable pub has_blank : String → Bool
unfolding all_chars
has_blank s =
    not (all_chars (λ c. not (nat_eqb c 13 || nat_eqb c 10 || nat_eqb c 9 || nat_eqb c 32)) s)

-- A text that is required and no longer than `max` bytes.
unfoldable pub is_filled : ℕ → String → Bool
is_filled max s = not (trim_space s == "" || ltb max (len s))

-- The loop over the aliases; `seen` begins with the canonical id.
unfoldable pub check_aliases : List String → List String → Check
check_aliases seen [] = ok tt
check_aliases seen (alias ∷ rest) = do
  fail_if (not (alias_pattern alias)) (alias_invalid alias)
  fail_if (contains seen alias) (alias_duplicated alias)
  check_aliases (alias ∷ seen) rest

unfoldable pub validate_aliases : String → List String → Check
validate_aliases id aliases = check_aliases (id ∷ []) aliases

unfoldable pub validate_source : Source → String → Check
validate_source source verification = do
  fail_if (not (label_pattern source.provider)) provider_invalid
  fail_if (not (is_filled 300 source.reference)) reference_length
  fail_if (not (is_filled 200 source.revision)) revision_length
  fail_if (verification == "verified" && equal_fold source.revision "unresolved")
      revision_unresolved

abbrev pub backend_types : List String
backend_types =
    "ollama-adapter" ∷ "llama.cpp" ∷ "mlx" ∷ "vllm" ∷ "gguf" ∷ "safetensors" ∷ "external" ∷ []

unfoldable pub validate_backend : String → Check
validate_backend type = fail_if (not (contains backend_types type)) (backend_unsupported type)

-- The map key of an artifact, `Backend + "\x00" + URI`, as the pair of its parts. The two agree where
-- no URI or backend holds a zero byte.
abbrev pub has_key : List Artifact → Artifact → Bool
has_key [] a = false
has_key (x ∷ xs) a = (x.backend == a.backend && x.uri == a.uri) || has_key xs a

unfoldable pub is_uri : External → String → Bool
is_uri ext uri = elim (ext.parse_url uri) [
  | none ↦ false
  | some url ↦ not (url.scheme == "" || has_blank uri)
]

-- The body of the loop over the artifacts, with the artifacts before it.
unfoldable pub check_artifact : External → String → List Artifact → Artifact → Check
check_artifact ext verification seen a = do
  fail_if (not (is_uri ext a.uri)) (artifact_uri_invalid a.uri)
  fail_if (has_key seen a) (artifact_duplicated a.uri)
  fail_if (not (a.sha256 == "") && not (digest_pattern a.sha256)) (artifact_digest_invalid a.uri)
  fail_if (verification == "verified" && a.sha256 == "") (artifact_digest_missing a.uri)
  if a.backend == "" then ok tt else validate_backend a.backend
  fail_if (not (a.format == "") && not (label_pattern a.format)) (artifact_format_invalid a.uri)
  fail_if (not (a.role == "") && not (label_pattern a.role)) (artifact_role_invalid a.uri)

unfoldable pub check_artifacts : External → String → List Artifact → List Artifact → Check
check_artifacts ext verification seen [] = ok tt
check_artifacts ext verification seen (a ∷ rest) = do
  check_artifact ext verification seen a
  check_artifacts ext verification (a ∷ seen) rest

abbrev pub is_empty {ℓ} : {A : Type ℓ} → List A → Bool
is_empty [] = true
is_empty (x ∷ xs) = false

unfoldable pub validate_artifacts : External → List Artifact → String → Check
validate_artifacts ext artifacts verification = do
  fail_if (is_empty artifacts) artifacts_missing
  check_artifacts ext verification [] artifacts

unfoldable pub validate_experts : String → Option ExpertTopology → Check
validate_experts class none = ok tt
validate_experts class (some e) = do
  fail_if (not (class == "moe")) experts_require_moe
  fail_if
      (ltb_ℤ e.total (pos 1)
        || ltb_ℤ e.active (pos 1)
        || ltb_ℤ e.total e.active
        || ltb_ℤ e.shared (pos 0)
        || ltb_ℤ e.total e.shared)
      experts_invalid

abbrev pub architecture_classes : List String
architecture_classes = "dense" ∷ "moe" ∷ "unknown" ∷ []

unfoldable pub validate_model : Model → Check
validate_model m = do
  fail_if (not (label_pattern m.architecture)) architecture_invalid
  fail_if
      (not (m.architecture_class == "") && not (contains architecture_classes m.architecture_class))
      architecture_class_invalid
  fail_if (not (label_pattern m.parameter_class)) parameter_class_invalid
  fail_if (not (label_pattern m.quantization)) quantization_invalid
  fail_if (ltb_ℤ m.context_window (pos 1) || ltb_ℤ (pos 10000000) m.context_window)
      context_window_range
  fail_if (ltb_ℤ m.total_parameters_b (pos 0) || ltb_ℤ m.active_parameters_b (pos 0))
      parameters_negative
  fail_if (ltb_ℤ (pos 0) m.total_parameters_b && ltb_ℤ m.total_parameters_b m.active_parameters_b)
      active_exceeds_total
  validate_experts m.architecture_class m.experts
  fail_if (ltb_ℤ m.context_policy.native_max (pos 0)) native_max_negative
  fail_if (m.context_policy.override_verified && not m.context_policy.override_supported)
      override_unsupported

abbrev pub is_lt : Ordering → Bool
is_lt Ordering.lt = true
is_lt _ = false

unfoldable pub check_max_version : String → SemanticVersion → Check
check_max_version text min = do
  max ← wrap_err max_version_invalid (parse_version text)
  fail_if (is_lt (compare_version max min)) max_below_min

unfoldable pub validate_compatibility : Compatibility → Check
validate_compatibility c = do
  min ← wrap_err min_version_invalid (parse_version c.min_runtime_version)
  if c.max_runtime_version == "" then ok tt else check_max_version c.max_runtime_version min

unfoldable pub validate_persona : Option PersonaRef → Check
validate_persona none = ok tt
validate_persona (some p) = do
  fail_if (not (canonical_id_pattern p.package_name)) persona_package_invalid
  _ ← wrap_err persona_version_invalid (parse_version p.version)
  fail_if (not (p.sha256 == "") && not (digest_pattern p.sha256)) persona_digest_invalid

abbrev pub installs : List String
installs = "external" ∷ "available" ∷ "installed" ∷ []

abbrev pub verifications : List String
verifications = "unverified" ∷ "verified" ∷ "failed" ∷ []

abbrev pub lifecycles : List String
lifecycles = "active" ∷ "deprecated" ∷ "blocked" ∷ []

unfoldable pub validate_state : State → Check
validate_state s = do
  fail_if (not (contains installs s.install)) install_invalid
  fail_if (not (contains verifications s.verification)) verification_invalid
  fail_if (not (contains lifecycles s.lifecycle)) lifecycle_invalid
  fail_if (s.verification == "failed" && s.lifecycle == "active") failed_active

unfoldable pub is_web_url : Option Url → Bool
is_web_url none = false
is_web_url (some u) = (u.scheme == "https" || u.scheme == "http") && not (u.host == "")

unfoldable pub validate_provenance : External → Provenance → Check
validate_provenance ext p = do
  fail_if (not (is_filled 200 p.publisher)) publisher_length
  fail_if (not (p.source_url == "") && not (is_web_url (ext.parse_url p.source_url)))
      source_url_invalid
  fail_if (ltb 160 (len p.license_ref)) license_ref_length
  fail_if (not (p.retrieved_at == "") && not (ext.is_rfc3339 p.retrieved_at)) retrieved_at_invalid

unfoldable pub has_capability : Capabilities → Bool
has_capability c =
    c.text || c.vision || c.audio || c.embeddings || c.reranking || c.tools || c.thinking
    || c.reasoning_control || c.structured_output

unfoldable pub validate_manifest : External → Manifest → Check
validate_manifest ext m = do
  fail_if (not (m.schema == schema_version)) schema_mismatch
  fail_if (not (canonical_id_pattern m.id)) id_invalid
  fail_if (not (is_filled 160 m.display_name)) display_name_length
  validate_aliases m.id m.aliases
  validate_source m.source m.state.verification
  validate_backend m.backend_type
  validate_artifacts ext m.artifacts m.state.verification
  validate_model m.model
  fail_if (not (has_capability m.capabilities)) no_capability
  fail_if (m.capabilities.tool_streaming && not m.capabilities.tools) tool_streaming_without_tools
  validate_compatibility m.compatibility
  validate_persona m.persona
  validate_state m.state
  validate_provenance ext m.provenance

-- ===== src/Tests/Manifests.antt =====
-- The sample manifests pass their validation.
use quantum_runtime.Prelude.{◌≡◌, refl, ok, contains}
use quantum_runtime.Prelude.Text.{trim_space}
use quantum_runtime.Samples.{lenient, dense_model, small_model}
use quantum_runtime.Manifest.Validate.{
  validate_manifest, canonical_id_pattern, is_filled, validate_aliases, check_aliases,
  alias_pattern, validate_source, label_pattern, validate_backend, validate_artifacts,
  check_artifacts, check_artifact, is_uri, has_blank, digest_pattern, validate_model,
  validate_experts, has_capability, validate_compatibility, check_max_version, validate_persona,
  validate_state, validate_provenance, is_web_url,
}
use quantum_runtime.Manifest.Version.{parse_version}

pub dense_model-valid : validate_manifest lenient dense_model ≡ ok tt
unfolding validate_manifest canonical_id_pattern is_filled validate_aliases check_aliases
    alias_pattern validate_source label_pattern validate_backend validate_artifacts check_artifacts
    check_artifact is_uri has_blank digest_pattern validate_model validate_experts has_capability
    validate_compatibility check_max_version validate_persona validate_state validate_provenance
    is_web_url parse_version trim_space contains
dense_model-valid = refl

pub small_model-valid : validate_manifest lenient small_model ≡ ok tt
unfolding validate_manifest canonical_id_pattern is_filled validate_aliases check_aliases
    alias_pattern validate_source label_pattern validate_backend validate_artifacts check_artifacts
    check_artifact is_uri has_blank digest_pattern validate_model validate_experts has_capability
    validate_compatibility check_max_version validate_persona validate_state validate_provenance
    is_web_url parse_version trim_space contains
small_model-valid = refl

-- ===== src/Manifest/Types.antt =====
-- The records of internal/modelmanifest/manifest.go. A field that may be nil is an `Option`. The two
-- parameter counts, floats that the code only compares, are integers in a common unit.
use quantum_runtime.Prelude.{String, List, [], Bool, false, Option, none}
use quantum_runtime.Prelude.Int.{ℤ, pos}

abbrev pub schema_version : String
schema_version = "quantum.runtime/model-manifest/v1alpha1"

pub record Source : Type 0 where
  pub provider : String
  pub reference : String
  pub revision : String

pub record Artifact : Type 0 where
  pub uri : String
  pub sha256 : String
  pub backend : String
  pub format : String
  pub role : String

pub record ExpertTopology : Type 0 where
  pub total : ℤ
  pub active : ℤ
  pub shared : ℤ

pub record ModelContextPolicy : Type 0 where
  pub native_max : ℤ
  pub backend_managed : Bool
  pub override_supported : Bool
  pub override_verified : Bool

pub record Model : Type 0 where
  pub architecture : String
  pub architecture_class : String
  pub parameter_class : String
  pub total_parameters_b : ℤ
  pub active_parameters_b : ℤ
  pub experts : Option ExpertTopology
  pub quantization : String
  pub context_window : ℤ
  pub context_policy : ModelContextPolicy

pub record Capabilities : Type 0 where
  pub text : Bool
  pub vision : Bool
  pub audio : Bool
  pub embeddings : Bool
  pub reranking : Bool
  pub tools : Bool
  pub tool_streaming : Bool
  pub thinking : Bool
  pub reasoning_control : Bool
  pub structured_output : Bool

pub record Compatibility : Type 0 where
  pub min_runtime_version : String
  pub max_runtime_version : String

pub record PersonaRef : Type 0 where
  pub package_name : String
  pub version : String
  pub sha256 : String

pub record State : Type 0 where
  pub install : String
  pub verification : String
  pub lifecycle : String

pub record Provenance : Type 0 where
  pub publisher : String
  pub source_url : String
  pub license_ref : String
  pub retrieved_at : String

-- `Backend` has one field, its type.
pub record Manifest : Type 0 where
  pub schema : String
  pub id : String
  pub display_name : String
  pub aliases : List String
  pub source : Source
  pub backend_type : String
  pub artifacts : List Artifact
  pub model : Model
  pub capabilities : Capabilities
  pub compatibility : Compatibility
  pub persona : Option PersonaRef
  pub state : State
  pub provenance : Provenance

-- The zero value of `Manifest`, which Go reads from a map at a missing key.
abbrev pub zero_manifest : Manifest
zero_manifest = record {
  schema = "";
  id = "";
  display_name = "";
  aliases = [];
  source = record { provider = ""; reference = ""; revision = "" };
  backend_type = "";
  artifacts = [];
  model = record {
    architecture = "";
    architecture_class = "";
    parameter_class = "";
    total_parameters_b = pos 0;
    active_parameters_b = pos 0;
    experts = none;
    quantization = "";
    context_window = pos 0;
    context_policy = record {
      native_max = pos 0;
      backend_managed = false;
      override_supported = false;
      override_verified = false;
    };
  };
  capabilities = record {
    text = false;
    vision = false;
    audio = false;
    embeddings = false;
    reranking = false;
    tools = false;
    tool_streaming = false;
    thinking = false;
    reasoning_control = false;
    structured_output = false;
  };
  compatibility = record { min_runtime_version = ""; max_runtime_version = "" };
  persona = none;
  state = record { install = ""; verification = ""; lifecycle = "" };
  provenance = record { publisher = ""; source_url = ""; license_ref = ""; retrieved_at = "" };
}

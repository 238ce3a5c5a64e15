-- ===== src/Samples.antt =====
-- The concrete hosts, manifests, backends and profiles on which the theorems are run.
use quantum_runtime.Prelude.{[], ◌∷◌, true, false, none, some}
use quantum_runtime.Prelude.Int.{pos}
use quantum_runtime.External.{External}
use quantum_runtime.Host.Profile.{HostProfile}
use quantum_runtime.Host.Limits.{Limits}
use quantum_runtime.Manifest.Types.{Manifest, Artifact, zero_manifest}
use quantum_runtime.Deployment.{DeploymentProfile}
use quantum_runtime.Admission.{OperatorEvidence}
use quantum_runtime.Backend.{
  supported, conditional, unsupported, unknown, BackendCapabilities, Descriptor,
}
use quantum_runtime.Policy.{Policy}

-- Parsers that accept every text.
abbrev pub lenient : External
lenient = record {
  parse_url = λ s. some (record { scheme = "https"; host = "example.org"; has_user = false });
  is_rfc3339 = λ s. true;
  is_date = λ s. true;
  is_json = λ s. true;
}

-- 16 GiB, of which 12 GiB are available, eight cores, and an accelerator with 4 GiB.
abbrev pub workstation : HostProfile
workstation = record {
  schema_version = "quantum.runtime/host-profile/v1alpha1";
  os = "linux";
  arch = "amd64";
  cpu = record {
    vendor_id = "GenuineIntel";
    model_name = "cpu";
    physical_cores = pos 8;
    logical_cores = pos 16;
    threads_per_core = pos 2;
    features = "avx2" ∷ [];
  };
  numa = record { count = pos 0; nodes = [] };
  storage = [];
  warnings = [];
  memory = record {
    total_bytes = 17179869184;
    available_bytes = 12884901888;
    huge_page_size_bytes = 0;
    huge_pages_total = 0;
    huge_pages_free = 0;
  };
  accelerators =
      record {
        kind = "gpu";
        vendor = "vendor";
        device = "gpu0";
        vram_bytes = 4294967296;
        numa_node = none;
      }
      ∷ [];
}

abbrev pub guest_limits : Limits
guest_limits = record {
  schema = "quantum.runtime/host-limits/v1alpha1";
  effective_logical_cpus = pos 12;
  affinity_cpu_list = "0-15";
  affinity_logical_cpus = pos 16;
  cgroup_cpu_set = "0-11";
  cgroup_cpu_set_logical_cpus = pos 12;
  cpu_quota_cores = pos 0;
  virtualization = record { guest = true; kind = "kvm"; evidence = "cpuinfo" };
  warnings = [];
}

abbrev pub gguf : Artifact
gguf = record {
  uri = "file:///models/a.gguf";
  sha256 = "";
  backend = "";
  format = "gguf";
  role = "";
}

abbrev pub dense_model : Manifest
dense_model = record zero_manifest {
  schema = "quantum.runtime/model-manifest/v1alpha1";
  id = "gemma-4b";
  display_name = "Gemma 4B";
  aliases = "gemma" ∷ "gemma:4b" ∷ [];
  source = record { provider = "hf"; reference = "google/gemma"; revision = "main" };
  backend_type = "llama.cpp";
  artifacts = gguf ∷ [];
  model = record (zero_manifest.model) {
    architecture = "gemma";
    architecture_class = "dense";
    parameter_class = "4b";
    quantization = "q4_0";
    context_window = pos 8192;
  };
  capabilities = record (zero_manifest.capabilities) { text = true; tools = true };
  compatibility = record { min_runtime_version = "0.1.0"; max_runtime_version = "" };
  state = record { install = "external"; verification = "unverified"; lifecycle = "active" };
  provenance = record {
    publisher = "publisher";
    source_url = "";
    license_ref = "";
    retrieved_at = "";
  };
}

-- A second model, under another id and another alias.
abbrev pub small_model : Manifest
small_model = record dense_model { id = "gemma-1b"; aliases = "tiny" ∷ [] }

abbrev pub plain_profile : DeploymentProfile
plain_profile = record {
  schema = "quantum.runtime/deployment-profile/v1alpha1";
  id = "plain";
  display_name = "Plain";
  tier = "production";
  description = "";
  hardware = record {
    memory = record { minimum_bytes = 8589934592; ecc_required = true; preferred_class = "ddr5" };
    cpu = record { minimum_physical_cores = pos 4; reference_min_clock_mhz = pos 3000 };
    accelerator_required = true;
  };
  architecture_class = "dense";
}

abbrev pub no_evidence : OperatorEvidence
no_evidence = record {
  ecc_verified = none;
  memory_class = "";
  dedicated_physical_cores = pos 0;
  core_budget = pos 0;
}

abbrev pub server_capabilities : BackendCapabilities
server_capabilities = record {
  text = supported;
  architecture = record { dense = supported; moe = supported };
  moe = record { expert_offload = conditional; expert_parallel = unsupported };
  quantization_formats = "gguf" ∷ [];
  speculative = record { mtp = unknown; draft_model = conditional };
  cache = record { kv_offload = conditional; prompt_cache = supported };
  multimodal = record { vision = conditional; audio = unknown };
  embeddings = conditional;
  reranking = conditional;
  reasoning_control = conditional;
  tools = record { calling = conditional; streaming = unknown };
  structured_output = supported;
  streaming = record { content = supported; reasoning = conditional; tool_arguments = unknown };
  placement = record { cpu = supported; gpu = conditional; hybrid = conditional };
  context = record {
    backend_managed = true;
    override_supported = conditional;
    override_verified = false;
    native_max = pos 0;
  };
}

abbrev pub server : Descriptor
server = record {
  contract = "quantum.runtime/backend/v1alpha1";
  id = "llama";
  kind = "llama.cpp";
  adapter_version = "1";
  execution_mode = "external";
  state = "ready";
  capabilities = server_capabilities;
}

-- The same server, switched off; its id is before the other's.
abbrev pub disabled_server : Descriptor
disabled_server = record server { id = "alpha"; state = "disabled" }

abbrev pub gemma_policy : Policy
gemma_policy = record {
  schema = "quantum.runtime/model-policy/v1alpha1";
  id = "gemma-any";
  model_family = "gemma";
  variants = "12b" ∷ "*" ∷ [];
  backend_kind = "llama.cpp";
  hardware_class = "any";
  renderer = "";
  parser = "";
  context = record {
    backend_managed = true;
    override_supported = false;
    override_verified = false;
    native_max = pos 0;
  };
  parameters = [];
  observed_date = "2025-01-01";
  sources = "docs" ∷ [];
  notes = "";
}

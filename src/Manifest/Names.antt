-- ===== src/Manifest/Names.antt =====
-- `CapabilityNames` (internal/modelmanifest/manifest.go): the names of the capabilities that are set,
-- sorted.
use quantum_runtime.Prelude.{String, List, [], ◌∷◌, ◌++◌, Bool, if◌then◌else◌}
use quantum_runtime.Prelude.Text.{str_leb}
use quantum_runtime.Prelude.Sorting.{sort}
use quantum_runtime.Manifest.Types.{Capabilities}

abbrev name_if : Bool → String → List String
name_if set name = if set then name ∷ [] else []

unfoldable pub capability_names : Capabilities → List String
unfolding sort
capability_names c = sort str_leb (
    name_if c.text "text"
    ++ name_if c.vision "vision"
    ++ name_if c.audio "audio"
    ++ name_if c.embeddings "embeddings"
    ++ name_if c.reranking "reranking"
    ++ name_if c.tools "tools"
    ++ name_if c.tool_streaming "tool-streaming"
    ++ name_if c.thinking "thinking"
    ++ name_if c.reasoning_control "reasoning-control"
    ++ name_if c.structured_output "structured-output")

-- ===== src/Router.antt =====
-- The backend router (internal/backendrouter/router.go): from a model identifier and required
-- capabilities to the first compatible backend. `sort.Slice` leaves the order of backends with one id
-- open; here they keep the order in which they were given.
pub mod Requirements
pub mod Soundness
pub mod Candidates
pub mod Routes
pub mod Construction
use quantum_runtime.Prelude.{
  String, List, [], ◌∷◌, map, Bool, true, false, not, ◌&&◌, ◌||◌, Option, none, some, Result, ok,
  err, ◌>>=◌, ◌>>◌, wrap_err, ◌==◌, string_eq, if◌then◌else◌, contains,
}
use quantum_runtime.Prelude.Text.{str_leb, str_ltb}
use quantum_runtime.Prelude.Sorting.{sort}
use quantum_runtime.Manifest.Types.{Manifest, Artifact}
use quantum_runtime.Registry.{Registry, lookup_model}
use quantum_runtime.Backend.{
  Support, supported, conditional, Descriptor, ContextCapabilities, ContractError,
  validate_descriptor, capability_state,
}
use quantum_runtime.Policy.{Policy, match_policies}

pub record RoutePlan : Type 0 where
  pub requested_identifier : String
  pub canonical_model_id : String
  pub backend_id : String
  pub backend_kind : String
  pub artifact_uri : String
  pub required_capabilities : List String
  pub context : ContextCapabilities
  pub model_policy_ids : List String

pub record Router : Type 0 where
  pub registry : Registry
  pub backends : List Descriptor
  pub policies : List Policy

pub data RouteError : Type 0 where
  registry_required : RouteError
  backend_invalid : String → ContractError → RouteError
  model_not_found : String → RouteError
  no_compatible_backend : String → RouteError

unfoldable pub check_backends : List Descriptor → Result RouteError (Unit {0})
check_backends [] = ok tt
check_backends (d ∷ ds) = do
  wrap_err (backend_invalid d.id) (validate_descriptor d)
  check_backends ds

abbrev pub descriptor_leb : Descriptor → Descriptor → Bool
descriptor_leb a b = str_leb a.id b.id

-- `New`; a nil registry is `none`.
unfoldable pub new_router :
    Option Registry → List Descriptor → List Policy → Result RouteError Router
new_router none backends policies = err registry_required
new_router (some registry) backends policies = do
  check_backends backends
  ok (record { registry = registry; backends = sort descriptor_leb backends; policies = policies })

pub record ArtifactCandidate : Type 0 where
  pub backend_kind : String
  pub uri : String

abbrev pub has_candidate : List ArtifactCandidate → ArtifactCandidate → Bool
has_candidate [] c = false
has_candidate (x ∷ xs) c =
    (x.backend_kind == c.backend_kind && x.uri == c.uri) || has_candidate xs c

unfoldable pub candidate_of : Manifest → Artifact → ArtifactCandidate
candidate_of m a = record {
  backend_kind = if a.backend == "" then m.backend_type else a.backend;
  uri = a.uri;
}

-- The loop of `candidateArtifacts`, which skips a candidate that was seen.
unfoldable pub collect_candidates :
    Manifest → List ArtifactCandidate → List Artifact → List ArtifactCandidate
collect_candidates m seen [] = []
collect_candidates m seen (a ∷ rest_artifacts) =
    let c = candidate_of m a in
    let skipped = collect_candidates m seen rest_artifacts in
    let kept = c ∷ collect_candidates m (c ∷ seen) rest_artifacts in
    if has_candidate seen c then skipped else kept

abbrev pub candidate_leb : ArtifactCandidate → ArtifactCandidate → Bool
candidate_leb a b =
    if a.backend_kind == b.backend_kind
    then str_leb a.uri b.uri
    else str_ltb a.backend_kind b.backend_kind

unfoldable pub candidate_artifacts : Manifest → List ArtifactCandidate
candidate_artifacts m = sort candidate_leb (collect_candidates m [] m.artifacts)

abbrev pub execution_only : List String
execution_only =
    "speculative.mtp" ∷ "speculative.draft_model" ∷ "cache.kv_offload" ∷ "cache.prompt_cache"
    ∷ "streaming.content" ∷ "streaming.reasoning" ∷ "streaming.tool_arguments" ∷ "placement.cpu"
    ∷ "placement.gpu" ∷ "placement.hybrid" ∷ "context.override" ∷ []

unfoldable pub model_supports : Manifest → String → Bool
model_supports m name =
    if name == "inference.text"
    then m.capabilities.text
    else if name == "architecture.dense"
    then m.model.architecture_class == "dense"
    else if name == "architecture.moe"
    then m.model.architecture_class == "moe"
    else if name == "multimodal.vision"
    then m.capabilities.vision
    else if name == "multimodal.audio"
    then m.capabilities.audio
    else if name == "embeddings"
    then m.capabilities.embeddings
    else if name == "reranking"
    then m.capabilities.reranking
    else if name == "reasoning.control"
    then m.capabilities.thinking || m.capabilities.reasoning_control
    else if name == "tools.calling"
    then m.capabilities.tools
    else if name == "tools.streaming"
    then m.capabilities.tools && m.capabilities.tool_streaming
    else if name == "structured_output"
    then m.capabilities.structured_output
    else if name == "moe.expert_offload" || name == "moe.expert_parallel"
    then m.model.architecture_class == "moe"
    else contains execution_only name

abbrev pub is_usable : Support → Bool
is_usable supported = true
is_usable conditional = true
is_usable _ = false

unfoldable pub requirements_satisfied : Manifest → Descriptor → List String → Bool
requirements_satisfied m d [] = true
requirements_satisfied m d (name ∷ names) =
    model_supports m name
    && is_usable (capability_state d.capabilities name)
    && requirements_satisfied m d names

-- The loop of `normalizedRequirements`.
unfoldable pub collect_requirements : List String → List String → List String
collect_requirements seen [] = []
collect_requirements seen (v ∷ vs) =
    let skipped = collect_requirements seen vs in
    let kept = v ∷ collect_requirements (v ∷ seen) vs in
    if v == "" || contains seen v then skipped else kept

unfoldable pub normalized_requirements : List String → List String
normalized_requirements values = sort str_leb (collect_requirements [] values)

-- The two `continue`s of the inner loop of `Route`.
unfoldable pub is_compatible : Manifest → List String → ArtifactCandidate → Descriptor → Bool
is_compatible m required c d =
    d.kind == c.backend_kind
    && not (d.state == "disabled" || d.state == "unavailable")
    && requirements_satisfied m d required

unfoldable pub first_match {ℓ} : {A : Type ℓ} → (A → Bool) → List A → Option A
first_match p [] = none
first_match p (x ∷ xs) = let rest = first_match p xs in if p x then some x else rest

abbrev pub pick_or :
    ArtifactCandidate
    → Option (ArtifactCandidate × Descriptor)
    → Option Descriptor
    → Option (ArtifactCandidate × Descriptor)
pick_or c rest (some d) = some (c, d)
pick_or c rest none = rest

-- The nested loop of `Route`: the first candidate for which some backend fits, with the first such
-- backend.
unfoldable pub pick :
    Manifest
    → List String
    → List Descriptor
    → List ArtifactCandidate
    → Option (ArtifactCandidate × Descriptor)
pick m required backends [] = none
pick m required backends (c ∷ cs) =
    pick_or c (pick m required backends cs) (first_match (is_compatible m required c) backends)

unfoldable pub route_plan :
    Router → String → List String → Manifest → ArtifactCandidate → Descriptor → RoutePlan
route_plan r identifier required m c d = record {
  requested_identifier = identifier;
  canonical_model_id = m.id;
  backend_id = d.id;
  backend_kind = d.kind;
  artifact_uri = c.uri;
  required_capabilities = required;
  context = d.capabilities.context;
  model_policy_ids =
      map (λ (p : Policy). p.id)
        (match_policies r.policies m.model.architecture m.model.parameter_class d.kind);
}

abbrev pub planned :
    Router
    → String
    → List String
    → Manifest
    → Option (ArtifactCandidate × Descriptor)
    → Result RouteError RoutePlan
planned r identifier required m none = err (no_compatible_backend m.id)
planned r identifier required m (some (c, d)) = ok (route_plan r identifier required m c d)

abbrev pub route_model :
    Router → String → List String → Option Manifest → Result RouteError RoutePlan
route_model r identifier required none = err (model_not_found identifier)
route_model r identifier required (some m) =
    planned r identifier required m (pick m required r.backends (candidate_artifacts m))

-- `Route`.
unfoldable pub route : Router → String → List String → Result RouteError RoutePlan
route r identifier capabilities =
    route_model r identifier (normalized_requirements capabilities)
      (lookup_model r.registry identifier)

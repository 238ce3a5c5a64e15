-- ===== src/Tests/Registry.antt =====
-- A registry of two models.
use mathlib.Core.List.{Perm}
use quantum_runtime.Prelude.{◌≡◌, refl, ◌⊎◌, List, [], ◌∷◌, map, none, some, ok, All, length}
use quantum_runtime.Prelude.Sorting.{sort}
use quantum_runtime.Samples.{lenient, dense_model, small_model}
use quantum_runtime.Manifest.Types.{Manifest}
use quantum_runtime.Manifest.Validate.{validate_manifest}
use quantum_runtime.Registry.{
  Registry, lookup, lookup_model, new_registry, add_manifests, add_manifest, add_aliases,
  list_models, entry_of, registry_len,
}
use quantum_runtime.Registry.Lookup.{
  IsFound, new_registry-IsFound, lookup_model-IsValid, list_models-perm,
}
use quantum_runtime.Tests.Manifests.{dense_model-valid, small_model-valid}

abbrev pub models : List Manifest
models = dense_model ∷ small_model ∷ []

abbrev pub two_models : Registry
two_models = record {
  by_id = ("gemma-1b", small_model) ∷ ("gemma-4b", dense_model) ∷ [];
  aliases = ("tiny", "gemma-1b") ∷ ("gemma:4b", "gemma-4b") ∷ ("gemma", "gemma-4b") ∷ [];
  ordered = "gemma-1b" ∷ "gemma-4b" ∷ [];
}

pub two_models-built : new_registry lenient models ≡ ok two_models
unfolding new_registry add_manifests add_manifest add_aliases lookup sort
two_models-built = rw (dense_model-valid, small_model-valid) refl

gemma_found : lookup_model two_models "gemma" ≡ some dense_model
unfolding lookup_model lookup
gemma_found = refl

new_registry-IsFound_example : All (IsFound two_models) models
new_registry-IsFound_example = new_registry-IsFound lenient models two_models two_models-built

lookup_model-IsValid_example :
    (validate_manifest lenient dense_model ≡ ok tt)
    × (lookup_model two_models "gemma-4b" ≡ some dense_model)
    × (((dense_model.id ≡ "gemma") × (lookup "gemma" two_models.aliases ≡ none))
        ⊎ ((lookup "gemma" two_models.aliases ≡ some "gemma-4b")
            × (lookup "gemma" two_models.by_id ≡ none)))
lookup_model-IsValid_example =
    lookup_model-IsValid lenient models two_models "gemma" dense_model two_models-built gemma_found

list_models-perm_example :
    Perm (list_models two_models) (map entry_of models) × (registry_len two_models ≡ length models)
list_models-perm_example = list_models-perm lenient models two_models two_models-built

-- ===== src/Backend/Laws.antt =====
-- What a validated descriptor (internal/backendcontract/contract.go) guarantees of `State`.
use quantum_runtime.Prelude.{
  String, ◌≡◌, refl, List, [], ◌∷◌, true, ok, ◌==◌, string_eq, Bool-cases, inl, inr, arith,
}
use quantum_runtime.Registry.{lookup}
use quantum_runtime.Backend.{
  Support, Descriptor, valid_support, check_supports, named_supports, named_states,
  validate_capabilities, validate_descriptor, or_unknown, capability_state,
}

check_supports-lookup :
    (entries : List (String × Support)) (name : String)
    → check_supports entries ≡ ok tt
    → valid_support (or_unknown (lookup name entries)) ≡ true
unfolding check_supports lookup valid_support
check_supports-lookup [] name h = refl
check_supports-lookup ((key, value) ∷ rest) name h =
    let step = check_supports-lookup rest name in
    elim (Bool-cases (valid_support value)) [
      | inl e ↦ elim (Bool-cases (key == name)) [
        | inl same ↦ ground (arith, e)
        | inr other ↦ rw other (step (ground arith))
      ]
      | inr e ↦ absurd (ground arith)
    ]

validate_descriptor-supports :
    (d : Descriptor)
    → validate_descriptor d ≡ ok tt
    → check_supports (named_states d.capabilities) ≡ ok tt
unfolding validate_descriptor validate_capabilities check_supports named_supports named_states
validate_descriptor-supports d h = ground arith

-- If a descriptor passes validation, `State` answers every name, also one that the contract does not
-- know, with one of the four valid support values.
pub capability_state-IsValid :
    (d : Descriptor) (name : String)
    → validate_descriptor d ≡ ok tt
    → valid_support (capability_state d.capabilities name) ≡ true
unfolding capability_state
capability_state-IsValid d name h =
    check_supports-lookup (named_states d.capabilities) name (validate_descriptor-supports d h)

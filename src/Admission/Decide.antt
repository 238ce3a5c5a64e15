-- ===== src/Admission/Decide.antt =====
-- What `decide` (internal/admission/admission.go) reads off a list of checks.
use quantum_runtime.Prelude.{
  ◌≡◌, refl, List, [], ◌∷◌, ◌++◌, Bool, false, ◌&&◌, ◌||◌, if◌then◌else◌, arith,
}
use quantum_runtime.Admission.{
  Decision, admitted, rejected, needs_operator_evidence, CheckState, Check, is_fail, is_unknown,
  decide_from, decide,
}

-- Whether a mandatory check of the list is in such a state.
unfoldable pub has_mandatory : (CheckState → Bool) → List Check → Bool
has_mandatory p [] = false
has_mandatory p (c ∷ cs) = (c.mandatory && p c.state) || has_mandatory p cs

pub has_mandatory-append :
    (p : CheckState → Bool) (xs ys : List Check)
    → has_mandatory p (xs ++ ys) ≡ (has_mandatory p xs || has_mandatory p ys)
unfolding has_mandatory
has_mandatory-append p [] ys = refl
has_mandatory-append p (x ∷ xs) ys = ground (arith, has_mandatory-append p xs ys)

-- The decision as a function of the two questions, whatever the order of the checks.
abbrev pub decision_of : Bool → Bool → Decision
decision_of some_fail some_unknown =
    if some_fail then rejected else if some_unknown then needs_operator_evidence else admitted

decide_from_lem :
    (seen : Bool) (cs : List Check)
    → decide_from seen cs
      ≡ decision_of (has_mandatory is_fail cs) (seen || has_mandatory is_unknown cs)
unfolding decide_from has_mandatory
decide_from_lem seen [] = ground arith
decide_from_lem seen (c ∷ cs) =
    ground (arith, decide_from_lem (seen || (c.mandatory && is_unknown c.state)) cs)

-- The loop of `decide` rejects exactly if some mandatory check fails, asks for evidence exactly if
-- none fails and some mandatory check is unknown, and else admits; checks that are not mandatory and
-- the order of the checks have no part in it.
pub decide_lem :
    (cs : List Check)
    → decide cs ≡ decision_of (has_mandatory is_fail cs) (has_mandatory is_unknown cs)
unfolding decide
decide_lem cs = decide_from_lem false cs

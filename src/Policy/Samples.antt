-- ===== src/Policy/Samples.antt =====
-- The policy at concrete identities and decisions. The sample case folding changes nothing.
use grc_audit_swarm.Base.{String, ◌≡◌, ◌↔◌, refl, true, none, some, List, [], ◌∷◌}
use grc_audit_swarm.Dict.{Dict}
use grc_audit_swarm.Machine.{three}
use grc_audit_swarm.Policy.{same_person, sod_violation}
use grc_audit_swarm.Policy.People.{
  SamePerson, Distinct, approval_allowed_iff, reviewer_acts_allowed_iff,
}

abbrev fold : String → String
fold s = s

abbrev trail : List Dict
trail =
    (("action", "gate_approval") ∷ ("gate", "Gate 2 (Fieldwork)") ∷ ("human", "Bob  Ray") ∷ []) ∷ []

spaces_collapse : same_person fold (some "Bob Ray ") (some " Bob  Ray") ≡ true
unfolding same_person
spaces_collapse = refl

approval_allowed_iff_example :
    (sod_violation fold "gate_approval" "Bob Ray" (some "Ann") trail (some three) ≡ none)
    ↔ ((¬ SamePerson fold (some "Bob Ray") (some "Ann")) × Distinct fold "Bob Ray" trail three)
approval_allowed_iff_example = approval_allowed_iff fold "Bob Ray" (some "Ann") trail three

reviewer_acts_allowed_iff_example :
    ((sod_violation fold "return_for_rework" "Bob Ray" (some "Ann") trail none ≡ none)
      ↔ (¬ SamePerson fold (some "Bob Ray") (some "Ann")))
    × ((sod_violation fold "qa_override" "Bob Ray" (some "Ann") trail none ≡ none)
        ↔ (¬ SamePerson fold (some "Bob Ray") (some "Ann")))
reviewer_acts_allowed_iff_example = reviewer_acts_allowed_iff fold "Bob Ray" (some "Ann") trail

-- ===== src/Policy.antt =====
-- src/swarm/review_policy.py: who may review what, and when. `casefold` is the full Unicode case
-- folding of `str.casefold`, a table that is not part of the repository.
pub mod Approvers
pub mod People
pub mod Rules
mod Samples
use grc_audit_swarm.Base.{
  String, ◌≡◌, Bool, true, false, not, ◌&&◌, ◌||◌, Option, none, some, List, [], ◌∷◌, ◌==◌,
  contains, concat, join, split, if◌then◌else◌,
}
use grc_audit_swarm.Dict
use grc_audit_swarm.Dict.{Dict}
use grc_audit_swarm.Machine.{Phase, one, two, three}

unfoldable pub preparer_excluded_actions : List String
preparer_excluded_actions = "gate_approval" ∷ "qa_override" ∷ "return_for_rework" ∷ []

-- gate → gates whose approver must be a different person
unfoldable pub distinct_approver_gates : Phase → List Phase
distinct_approver_gates one = []
distinct_approver_gates two = []
distinct_approver_gates three = two ∷ []

unfoldable pub gate_label : Phase → String
gate_label one = "Gate 1 (Planning)"
gate_label two = "Gate 2 (Fieldwork)"
gate_label three = "Gate 3 (Reporting)"

module _ (casefold : String → String) where
  unfoldable pub normalise_identity : Option String → String
  unfolding split
  normalise_identity none = ""
  normalise_identity (some v) = casefold (join " " (split v))

  unfoldable pub same_person : Option String → Option String → Bool
  unfolding normalise_identity
  same_person a b =
      let na = normalise_identity a in let nb = normalise_identity b in not (na == "") && na == nb

-- `e.get("action") == "gate_approval" and e.get("gate") == label`
unfoldable pub is_approval : Phase → Dict → Bool
unfolding Dict.has gate_label
is_approval g e = Dict.has "action" "gate_approval" e && Dict.has "gate" (gate_label g) e

unfoldable pub approver_from : Option String → List Dict → Phase → Option String
unfolding Dict.get is_approval
approver_from approver [] g = approver
approver_from approver (e ∷ es) g =
    approver_from (if is_approval g e then Dict.get "human" e else approver) es g

-- The refusals' texts. They stay shut in the proofs.
pub distinct_message : String → Phase → Phase → String
unfolding gate_label
distinct_message human_id gate other = concat (
    "Segregation of duties: '"
    ∷ human_id
    ∷ "' approved "
    ∷ gate_label other
    ∷ ", so "
    ∷ gate_label gate
    ∷ " must be approved by someone else."
    ∷ [])

pub preparer_message : String → String → String
preparer_message human_id action = concat (
    "Segregation of duties: '" ∷ human_id ∷ "' prepared this audit and cannot perform '" ∷ action
    ∷ "' on it. A different reviewer must act." ∷ [])

pub decision_message : String → String → String
decision_message human_id decision_type = concat (
    "Segregation of duties: '" ∷ human_id ∷ "' prepared this audit and cannot record a '"
    ∷ decision_type ∷ "' decision on it. A reviewer must." ∷ [])

pub unknown_type_message : String → String
unknown_type_message decision_type = concat ("Unknown decision type '" ∷ decision_type ∷ "'." ∷ [])

pub status_message : String → List String → String → String
status_message decision_type allowed status = concat (
    "A '"
    ∷ decision_type
    ∷ "' decision can only be recorded while the audit is "
    ∷ join " or " allowed
    ∷ "; it is "
    ∷ status
    ∷ "."
    ∷ [])

-- who last approved `g`
unfoldable pub gate_approver : List Dict → Phase → Option String
unfolding approver_from
gate_approver trail g = approver_from none trail g

module _ (casefold : String → String) (human_id : String) (trail : List Dict) where
  unfoldable pub distinct_violation : Phase → List Phase → Option String
  unfolding same_person gate_approver
  distinct_violation gate [] = none
  distinct_violation gate (other ∷ others) =
      if same_person casefold (some human_id) (gate_approver trail other)
      then some (distinct_message human_id gate other)
      else distinct_violation gate others

module _ (casefold : String → String) where
  unfoldable pub sod_violation :
      String → String → Option String → List Dict → Option Phase → Option String
  unfolding same_person distinct_violation distinct_approver_gates preparer_excluded_actions
  sod_violation action human_id prepared_by trail gate =
      if contains preparer_excluded_actions action
        && same_person casefold (some human_id) prepared_by
      then some (preparer_message human_id action)
      else if action == "gate_approval"
      then elim gate [
        | none ↦ none
        | some g ↦ distinct_violation casefold human_id trail g (distinct_approver_gates g)
      ]
      else none

unfoldable pub preparer_excluded_decisions : List String
preparer_excluded_decisions =
    "sign_off" ∷ "challenge" ∷ "classify" ∷ "scope_limitation" ∷ "engagement_conclusion"
    ∷ "remediation_verification" ∷ []

-- Each set of statuses is listed in the order in which `sorted` prints it.
unfoldable pub decision_recordable_statuses : String → Option (List String)
decision_recordable_statuses t =
    if t == "sign_off" || t == "challenge"
    then some ("WAITING_HUMAN_GATE_2" ∷ [])
    else if t == "classify"
        || t == "scope_limitation"
        || t == "engagement_conclusion"
        || t == "writeup"
    then some ("WAITING_HUMAN_GATE_3" ∷ [])
    else if t == "management_response"
    then some ("COMPLETED" ∷ "WAITING_HUMAN_GATE_3" ∷ [])
    else if t == "remediation_verification"
    then some ("COMPLETED" ∷ [])
    else none

unfoldable pub rationale_always_required : List String
rationale_always_required =
    "challenge" ∷ "scope_limitation" ∷ "engagement_conclusion" ∷ "remediation_verification" ∷ []

unfoldable pub decision_sod_violation :
    (String → String) → String → String → Option String → Option String
unfolding same_person preparer_excluded_decisions
decision_sod_violation casefold decision_type human_id prepared_by =
    if contains preparer_excluded_decisions decision_type
      && same_person casefold (some human_id) prepared_by
    then some (decision_message human_id decision_type)
    else none

unfoldable pub decision_status_violation : String → String → Option String
unfolding decision_recordable_statuses
decision_status_violation decision_type status = elim (decision_recordable_statuses decision_type) [
  | none ↦ some (unknown_type_message decision_type)
  | some allowed ↦
      if contains allowed status then none else some (status_message decision_type allowed status)
]

abbrev pub conclusion_downgrade_target : String
conclusion_downgrade_target = "Not tested"

abbrev pub conclusion_downgrade_from : List String
conclusion_downgrade_from = "Effective" ∷ []

unfoldable pub conclusion_change_allowed : String → String → Bool
conclusion_change_allowed draft new =
    if new == draft
    then true
    else new == conclusion_downgrade_target && contains conclusion_downgrade_from draft

abbrev pub gate_2_review_exceptions : Bool
gate_2_review_exceptions = true

abbrev pub gate_2_review_key_controls : Bool
gate_2_review_key_controls = true

abbrev pub gate_3_classify_every_deficiency : Bool
gate_3_classify_every_deficiency = true

abbrev pub gate_3_engagement_conclusion : Bool
gate_3_engagement_conclusion = true

abbrev pub gate_3_scope_limitation_for_untested_key_controls : Bool
gate_3_scope_limitation_for_untested_key_controls = true

-- the truth value of an optional Boolean
abbrev pub is_true : Option Bool → Bool
is_true none = false
is_true (some b) = b

unfoldable pub finding_needs_review : String → Option Bool → Bool
finding_needs_review result key_control =
    gate_2_review_exceptions && result == "Exception"
    || gate_2_review_key_controls && is_true key_control

unfoldable pub finding_needs_scope_limitation : String → Option Bool → Bool
finding_needs_scope_limitation effective_result key_control =
    gate_3_scope_limitation_for_untested_key_controls
    && is_true key_control
    && effective_result == "Not tested"

-- `str(new.get(k) or "") != str(draft.get(k) or "")`
differs_in : Dict → Dict → String → Bool
differs_in draft new k = not (Dict.get_or k new "" == Dict.get_or k draft "")

unfoldable pub classification_differs : Dict → Dict → Bool
unfolding Dict.get_or differs_in
classification_differs draft new =
    differs_in draft new "classification"
    || differs_in draft new "likelihood"
    || differs_in draft new "magnitude"

unfoldable pub management_response_needs_rebuttal : String → Bool
management_response_needs_rebuttal agreement = agreement == "disagree"

unfoldable pub management_response_needs_action_plan : String → Bool
management_response_needs_action_plan agreement = agreement == "agree" || agreement == "partial"

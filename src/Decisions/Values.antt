-- ===== src/Decisions/Values.antt =====
-- The values that a decision stores: `_challenge_values`, `_classify_values`, `_management_values`,
-- `_remediation_values` and the others' dump, with `_effective_conclusions`.
use Prim.Native.String.{compare}
use text.Mathlib.Text.{is_lt}
use grc_audit_swarm.Base.{
  ℕ, zero, suc, String, Bool, true, false, not, ◌&&◌, Option, none, some, [], ◌∷◌, ◌++◌, ◌==◌,
  if◌then◌else◌, Result, ok, err, ◌>>=◌, ◌>>◌, value_or, strip,
}
use grc_audit_swarm.Dict
use grc_audit_swarm.Dict.{Dict}
use grc_audit_swarm.Policy.{
  conclusion_change_allowed, management_response_needs_action_plan,
  management_response_needs_rebuttal,
}
use grc_audit_swarm.Schema.Findings.{
  AuditFinding, DesignConclusion, OperatingConclusion, design_value, operating_value, result_value,
  derive_result,
}
use grc_audit_swarm.Schema.Deficiencies.{
  FinalReport, DeficiencyEvaluation, classification_value, rating_value, is_on_scale,
  unsupported_weakness,
}
use grc_audit_swarm.Schema.Decisions.{
  DecisionType, challenge, ReviewDecision, ChallengeValues, ClassifyValues, WriteupValues,
  ManagementResponseValues, RemediationVerificationValues, agreement_value, remediation_value,
}
use grc_audit_swarm.Decisions.Errors.{
  AuditError, value_error, decision_invalid, decision_conflict, needs_rework, off_scale,
  unsupported_material_weakness, received_after_recording, bad_date, action_plan_missing,
  rebuttal_missing, verified_after_recording,
}

-- go on if the test holds
abbrev pub check : Bool → AuditError → Result AuditError (Unit {0})
check true e = ok tt
check false e = err e

abbrev pub require : {A : Type 0} → Option A → AuditError → Result AuditError A
require none e = err e
require (some a) e = ok a

-- `DesignConclusion(text)` and `OperatingConclusion(text)`
unfoldable pub design_of : String → Option DesignConclusion
design_of t =
    if t == "Effective"
    then some DesignConclusion.effective
    else if t == "Ineffective"
    then some DesignConclusion.ineffective
    else if t == "Not tested"
    then some DesignConclusion.not_tested
    else none

unfoldable pub operating_of : String → Option OperatingConclusion
operating_of t =
    if t == "Effective"
    then some OperatingConclusion.effective
    else if t == "Exceptions noted"
    then some OperatingConclusion.exceptions_noted
    else if t == "Ineffective"
    then some OperatingConclusion.ineffective
    else if t == "Not tested"
    then some OperatingConclusion.not_tested
    else none

abbrev pub is_challenge : DecisionType → Bool
is_challenge challenge = true
is_challenge _ = false

-- a conclusion after an active challenge's change of it
unfoldable pub challenged : Option ReviewDecision → String → String → String
challenged none field draft = draft
challenged (some d) field draft =
    if is_challenge d.decision_type then Dict.get_or field d.values draft else draft

pub record Conclusions : Type 0 where
  pub tod_conclusion : String
  pub toe_conclusion : String
  pub result : String

-- `_effective_conclusions`; a stored text that is no conclusion raises `ValueError`
unfoldable pub effective_conclusions :
    AuditFinding → Option ReviewDecision → Result AuditError Conclusions
effective_conclusions f review = do
  let tod = challenged review "tod_conclusion" (design_value f.tod_conclusion)
  let toe = challenged review "toe_conclusion" (operating_value f.toe_conclusion)
  d ← require (design_of tod) (value_error tod)
  o ← require (operating_of toe) (value_error toe)
  ok (record {
    tod_conclusion = tod;
    toe_conclusion = toe;
    result = result_value (derive_result d o f.exceptions_noted);
  })

-- one round of the loop of `_challenge_values`
unfoldable pub challenge_value : String → String → Option String → Dict → Result AuditError Dict
challenge_value field draft none values = ok values
challenge_value field draft (some new) values =
    if new == draft
    then ok values
    else if not (conclusion_change_allowed draft new)
    then err (decision_conflict needs_rework)
    else ok (Dict.set field new values)

abbrev design_text : Option DesignConclusion → Option String
design_text none = none
design_text (some d) = some (design_value d)

abbrev operating_text : Option OperatingConclusion → Option String
operating_text none = none
operating_text (some o) = some (operating_value o)

unfoldable pub challenge_values : AuditFinding → ChallengeValues → Result AuditError Dict
unfolding challenge_value
challenge_values f parsed = do
  values ←
      challenge_value "tod_conclusion" (design_value f.tod_conclusion)
        (design_text parsed.tod_conclusion) []
  challenge_value "toe_conclusion" (operating_value f.toe_conclusion)
      (operating_text parsed.toe_conclusion) values

unfoldable pub classify_values :
    FinalReport → DeficiencyEvaluation → ClassifyValues → Result AuditError Dict
classify_values report e parsed = do
  let likelihood = value_or parsed.likelihood e.likelihood
  let magnitude = value_or parsed.magnitude e.magnitude
  check
      (elim report.deficiency_scale [
        | none ↦ true
        | some scale ↦ is_on_scale scale parsed.classification
      ])
      (decision_invalid off_scale)
  check (not (unsupported_weakness parsed.classification likelihood magnitude))
      (decision_invalid unsupported_material_weakness)
  ok (
      ("classification", classification_value parsed.classification)
      ∷ ("likelihood", rating_value likelihood)
      ∷ ("magnitude", rating_value magnitude)
      ∷ [])

unfoldable pub draft_classification : DeficiencyEvaluation → Dict
draft_classification e =
    ("classification", classification_value e.classification)
    ∷ ("likelihood", rating_value e.likelihood)
    ∷ ("magnitude", rating_value e.magnitude)
    ∷ []

-- `text[:n]`
unfoldable pub take_text : ℕ → String → String
take_text zero s = ""
take_text (suc n) String.[] = ""
take_text (suc n) (String.◌∷◌ c s) = String.◌∷◌ c (take_text n s)

-- `text[:10]`
abbrev pub day_of : String → String
day_of s = take_text 10 s

-- `a > b`
abbrev pub is_after : String → String → Bool
is_after a b = is_lt (compare b a)

-- `_text`, of an optional text
abbrev pub stripped : Option String → String
stripped none = ""
stripped (some s) = strip s

module _ (iso_date : String → Option String) where
  -- `_iso_date`: a missing or blank text is no date, and gives ""
  unfoldable pub iso_date_of : Option String → Result AuditError String
  iso_date_of value =
      if stripped value == ""
      then ok ""
      else require (iso_date (day_of (stripped value))) (decision_invalid bad_date)

  -- an item, unless its text is empty
  abbrev optional_item : String → String → Dict
  optional_item k v = if v == "" then [] else (k, v) ∷ []

  unfoldable pub management_values :
      ManagementResponseValues → String → String → Result AuditError Dict
  unfolding iso_date_of
  management_values parsed rationale recorded_on = do
    let agreement = agreement_value parsed.agreement
    received_on ← iso_date_of (some parsed.received_on)
    check (not (not (received_on == "") && is_after received_on recorded_on))
        (decision_invalid received_after_recording)
    let owner = stripped parsed.action_owner_role
    target ← iso_date_of parsed.target_date
    check
        (not (
          management_response_needs_action_plan agreement
          && not (not (owner == "") && not (target == ""))))
        (decision_invalid action_plan_missing)
    check (not (management_response_needs_rebuttal agreement && rationale == ""))
        (decision_invalid rebuttal_missing)
    ok (
        (("text", parsed.text)
          ∷ ("agreement", agreement)
          ∷ ("received_from", parsed.received_from)
          ∷ ("received_on", received_on)
          ∷ [])
        ++ (optional_item "action_owner_role" owner ++ optional_item "target_date" target))

  unfoldable pub remediation_values :
      RemediationVerificationValues → String → Result AuditError Dict
  unfolding iso_date_of
  remediation_values parsed recorded_on = do
    verified_on ← iso_date_of (some parsed.verified_on)
    check (not (not (verified_on == "") && is_after verified_on recorded_on))
        (decision_invalid verified_after_recording)
    ok (
        (("status", remediation_value parsed.status) ∷ ("verified_on", verified_on) ∷ [])
        ++ optional_item "evidence_vault_id" (stripped parsed.evidence_vault_id))

unfoldable pub writeup_values : WriteupValues → Dict
writeup_values w =
    ("criteria", w.criteria)
    ∷ ("condition", w.condition)
    ∷ ("cause", w.cause)
    ∷ ("effect", w.effect)
    ∷ ("recommendation", w.recommendation)
    ∷ []

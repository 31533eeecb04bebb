-- ===== src/Decisions/Build.antt =====
-- `build_decision` of src/swarm/review_decisions.py: a request is validated against the policy and
-- the drafts, and gives the decision to append.
use grc_audit_swarm.Base.{
  String, false, not, ◌&&◌, Option, none, some, List, [], ◌∷◌, ◌==◌, if◌then◌else◌, Result, ok, err,
  ◌>>=◌, ◌>>◌, strip, contains, find_first,
}
use grc_audit_swarm.Dict.{Dict}
use grc_audit_swarm.Policy.{
  decision_status_violation, decision_sod_violation, classification_differs,
  rationale_always_required,
}
use grc_audit_swarm.Schema.Findings.{result_value, FindingResult}
use grc_audit_swarm.Schema.Decisions.{
  DecisionType, sign_off, challenge, classify, scope_limitation, writeup, management_response,
  engagement_conclusion, remediation_verification, type_value, decision_type_of,
  DecisionSubjectType, engagement, subject_value, identity_source_of, ReviewDecision, ParsedValues,
  engagement_value,
}
use grc_audit_swarm.Decisions.{
  Platform, DecisionContext, digest_of, finding_by_id, deficiency_by_id, subject_for_type,
  phase_for_type, artifact_for_subject, slot_of, SlotKey, slot_key, same_key, active_for,
  engagement_subject_id,
}
use grc_audit_swarm.Decisions.Errors.{
  AuditError, segregation_of_duties, decision_invalid, decision_conflict, status_violation,
  artifact_not_there, slot_taken, not_active, unknown_decision_type, decided_by_missing,
  unknown_identity_source, wrong_subject_type, not_the_engagement, subject_id_missing,
  unknown_finding, not_untested, unknown_deficiency, rationale_for_change, rationale_missing,
  unknown_superseded, superseded_elsewhere, bad_values,
}
use grc_audit_swarm.Decisions.Values.{
  check, require, effective_conclusions, challenge_values, classify_values, draft_classification,
  management_values, remediation_values, writeup_values, day_of, stripped,
}

-- A request. `values` is what pydantic makes of the request's values against each type's model.
pub record DecisionRequest : Type 0 where
  pub decision_type : String
  pub subject_id : String
  pub decided_by : String
  pub values : (t : DecisionType) → Result String (ParsedValues t)
  pub rationale : String
  pub subject_type : Option String
  pub supersedes : Option String
  pub identity_source : String

abbrev pub refuse : Option String → (String → AuditError) → Result AuditError (Unit {0})
refuse none e = ok tt
refuse (some m) e = err (e m)

abbrev pub parsed : {A : Type 0} → Result String A → Result AuditError A
parsed (ok a) = ok a
parsed (err m) = err (decision_invalid (bad_values m))

-- the loop over the preparers
unfoldable pub check_preparers :
    (String → String) → String → String → List String → Result AuditError (Unit {0})
check_preparers casefold t decided_by [] = ok tt
check_preparers casefold t decided_by (p ∷ ps) = do
  refuse (decision_sod_violation casefold t decided_by (some p)) segregation_of_duties
  check_preparers casefold t decided_by ps

unfoldable pub check_subject_type :
    Option String → DecisionSubjectType → Result AuditError (Unit {0})
check_subject_type none stype = ok tt
check_subject_type (some t) stype =
    check (strip t == subject_value stype) (decision_invalid wrong_subject_type)

-- the subject's id, with the engagement's default
unfoldable pub subject_of : DecisionSubjectType → String → Result AuditError String
subject_of engagement given = do
  let i = if strip given == "" then engagement_subject_id else strip given
  check (i == engagement_subject_id) (decision_invalid not_the_engagement)
  ok i
subject_of _ given = do
  check (not (strip given == "")) (decision_invalid subject_id_missing)
  ok (strip given)

module _ (env : Platform) (ctx : DecisionContext) (ds : List ReviewDecision) where
  abbrev pub active_key : SlotKey → Option ReviewDecision
  active_key = active_for (digest_of env ctx) ds

  -- the review of a finding, whose slot a sign-off and a challenge share
  abbrev pub review_key : String → SlotKey
  review_key i = record { slot = "finding_review"; subject_type = "finding"; subject_id = i }

  -- only an untested control has a scope limitation
  unfoldable pub check_untested : String → Result AuditError (Unit {0})
  check_untested i = do
    f ← require (finding_by_id ctx i) (decision_invalid unknown_finding)
    c ← effective_conclusions f (active_key (review_key i))
    check (c.result == result_value FindingResult.not_tested) (decision_invalid not_untested)

  -- the values that the decision stores, by its type
  unfoldable pub stored_values :
      (t : DecisionType) → String → String → String → ParsedValues t → Result AuditError Dict
  stored_values sign_off i rationale now p = do
    f ← require (finding_by_id ctx i) (decision_invalid unknown_finding)
    ok []
  stored_values challenge i rationale now p = do
    f ← require (finding_by_id ctx i) (decision_invalid unknown_finding)
    challenge_values f p
  stored_values scope_limitation i rationale now p = do check_untested i; ok []
  stored_values classify i rationale now p = do
    e ← require (deficiency_by_id ctx i) (decision_invalid unknown_deficiency)
    r ← require ctx.report (decision_invalid unknown_deficiency)
    stored ← classify_values r e p
    check (not (classification_differs (draft_classification e) stored && rationale == ""))
        (decision_invalid rationale_for_change)
    ok stored
  stored_values management_response i rationale now p = do
    e ← require (deficiency_by_id ctx i) (decision_invalid unknown_deficiency)
    management_values env.iso_date p rationale (day_of now)
  stored_values remediation_verification i rationale now p = do
    e ← require (deficiency_by_id ctx i) (decision_invalid unknown_deficiency)
    remediation_values env.iso_date p (day_of now)
  stored_values writeup i rationale now p = do
    e ← require (deficiency_by_id ctx i) (decision_invalid unknown_deficiency)
    ok (writeup_values p)
  stored_values engagement_conclusion i rationale now p =
      ok (("conclusion", engagement_value p) ∷ [])

  -- the last check: a slot is free, or its active decision is the one that is replaced
  unfoldable pub check_slot :
      SlotKey → Option ReviewDecision → Option String → Result AuditError (Unit {0})
  check_slot k none none = ok tt
  check_slot k (some current) none = err (decision_conflict slot_taken)
  check_slot k current (some old) = do
    target ←
        require (find_first (λ d. d.decision_id == old) ds) (decision_invalid unknown_superseded)
    check (same_key (slot_key target) k) (decision_invalid superseded_elsewhere)
    check (elim current [ none ↦ false | some c ↦ c.decision_id == old ])
        (decision_conflict not_active)

  abbrev pub replaced : Option String → Option String
  replaced s = if stripped s == "" then none else some (stripped s)

  -- what is checked of the request before its subject is looked at
  unfoldable pub check_request :
      String → List String → DecisionRequest → DecisionType → Result AuditError (Unit {0})
  check_request status preparers r t = do
    refuse (decision_status_violation (type_value t) status)
        (λ m. decision_conflict (status_violation m))
    check_preparers env.casefold (type_value t) (strip r.decided_by) preparers
    check_subject_type r.subject_type (subject_for_type t)

  unfoldable pub build_decision :
      String → List String → DecisionRequest → String → String → Result AuditError ReviewDecision
  build_decision status preparers r now new_id = do
    t ← require (decision_type_of r.decision_type) (decision_invalid unknown_decision_type)
    check (not (strip r.decided_by == "")) (decision_invalid decided_by_missing)
    source ←
        require (identity_source_of r.identity_source) (decision_invalid unknown_identity_source)
    check_request status preparers r t
    i ← subject_of (subject_for_type t) r.subject_id
    digest ←
        require (digest_of env ctx (artifact_for_subject (subject_for_type t)))
          (decision_conflict artifact_not_there)
    p ← parsed (r.values t)
    stored ← stored_values t i (strip r.rationale) now p
    check (not (contains rationale_always_required (type_value t) && strip r.rationale == ""))
        (decision_invalid rationale_missing)
    let k : SlotKey = record {
      slot = slot_of t;
      subject_type = subject_value (subject_for_type t);
      subject_id = i;
    }
    check_slot k (active_key k) (replaced r.supersedes)
    ok (record {
      decision_id = new_id;
      phase = phase_for_type t;
      artifact = artifact_for_subject (subject_for_type t);
      draft_digest = digest;
      subject_type = subject_for_type t;
      subject_id = i;
      decision_type = t;
      values = stored;
      rationale = strip r.rationale;
      decided_by = strip r.decided_by;
      identity_source = source;
      decided_at = now;
      supersedes = replaced r.supersedes;
    })

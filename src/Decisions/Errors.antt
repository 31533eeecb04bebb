-- ===== src/Decisions/Errors.antt =====
-- The exceptions of the audit's operations. Those that refuse a decision tell the `raise` that they
-- come from.
use grc_audit_swarm.Base.{ℕ, String, List}
use grc_audit_swarm.Machine.{InvalidTransitionError}

-- `DecisionValidationError`
pub data Invalid : Type 0 where
  unknown_decision_type decided_by_missing unknown_identity_source wrong_subject_type : Invalid
  not_the_engagement subject_id_missing unknown_finding not_untested unknown_deficiency : Invalid
  off_scale unsupported_material_weakness rationale_for_change received_after_recording : Invalid
  bad_date action_plan_missing rebuttal_missing verified_after_recording rationale_missing : Invalid
  unknown_superseded superseded_elsewhere : Invalid
  bad_values : String → Invalid

-- `DecisionConflictError`
pub data Conflict : Type 0 where
  status_violation : String → Conflict
  artifact_not_there needs_rework slot_taken not_active : Conflict

-- what a gate still misses
pub record MissingDecision : Type 0 where
  pub gate : ℕ
  pub subject_type : String
  pub subject_id : String
  pub required : List String

pub data AuditError : Type 0 where
  value_error : String → AuditError
  invalid_transition : InvalidTransitionError → AuditError
  segregation_of_duties : String → AuditError
  decision_invalid : Invalid → AuditError
  decision_conflict : Conflict → AuditError
  unverified_evidence : List String → AuditError
  missing_review_decisions : List MissingDecision → AuditError
  artifact_missing : String → AuditError
  runtime_error : String → AuditError

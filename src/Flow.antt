-- ===== src/Flow.antt =====
-- The methods of `AuditFlow` (src/swarm/audit_flow.py) that a person calls: they check, then act,
-- then record the act in the approval trail.
pub mod Methods
pub mod Leads
pub mod State
pub mod Checks
pub mod Actions
pub mod Attempts
pub mod Runner
pub mod Atomic
pub mod Trails
pub mod Reachable
pub mod Approval
pub mod Overlay
pub mod Linted
pub mod Quoted
mod Samples
use grc_audit_swarm.Base.{
  ℕ, String, Bool, true, false, not, ◌&&◌, ◌||◌, Option, none, some, List, [], ◌∷◌, ◌++◌, ◌==◌,
  value_or, if◌then◌else◌, concat, join, decimal, eqb, Result, ok, err, is_empty, length,
  ◌>>=◌ as ◌>>=ʳ◌, ◌>>◌ as ◌>>ʳ◌,
}
use grc_audit_swarm.Dict
use grc_audit_swarm.Dict.{Dict}
use grc_audit_swarm.Machine
use grc_audit_swarm.Machine.{
  Phase, one, two, three, AuditStatus, value, Operation, start_phase_1, running, waiting_gate,
  qa_rejected, apply, retry_phase, return_for_rework, override_qa, approve_gate, error_phase,
}
use grc_audit_swarm.Policy.{gate_label}
use grc_audit_swarm.Trail.{Entry, append_entry}
use grc_audit_swarm.Trail.Verify.{artifact_digest, decisions_digest, StoredDecision}
use grc_audit_swarm.Schema.Decisions.{ReviewDecision, type_value, source_value, subject_value}
use grc_audit_swarm.Decisions.{Platform}
use grc_audit_swarm.Decisions.Errors.{AuditError, value_error, invalid_transition, artifact_missing}
use grc_audit_swarm.Decisions.Values.{check, require}
use grc_audit_swarm.Decisions.Build.{DecisionRequest, build_decision}
use grc_audit_swarm.Flow.Methods.{Method, ◌>>=◌, ◌>>◌, reading, modify, updating}
use grc_audit_swarm.Flow.State.{
  Flow, AuditState, phase_label, artifact_field, phase_digit, approved_status, artifact_json,
  decision_context, review_decisions_required, preparers, run_provenance_extra, phase_decisions,
  phase_of,
}
use grc_audit_swarm.Flow.Checks.{
  require_text, identity_source, require_transition, check_sod, Vault, unverified_of,
  check_evidence, check_review_decisions,
}

abbrev pub Step : Type 0 → Type 0
Step A = Method Flow AuditError A

-- the machine at a new status, and `_commit_status`
unfoldable pub committed : AuditStatus → Flow → Flow
committed s f = record { machine = s; state = record f.state { status = value s } }

-- a transition of the machine with the `_commit_status` that follows each
unfoldable pub moved : Operation → Flow → Result AuditError Flow
moved o f = elim (apply o f.machine) [
  | ok s ↦ ok (committed s f)
  | err e ↦ err (invalid_transition e)
]

-- `dict[str, str]` of a decision as `verify_trail` reads it
abbrev pub stored_decision : Platform → ReviewDecision → StoredDecision
stored_decision env d = record {
  decision_id = d.decision_id;
  decision_type = type_value d.decision_type;
  subject_id = d.subject_id;
  json = env.dump_decision d;
}

abbrev pub stored_decisions : Platform → List ReviewDecision → List StoredDecision
stored_decisions env [] = []
stored_decisions env (d ∷ ds) = stored_decision env d ∷ stored_decisions env ds

-- the entry that `_stamp_trail` makes at the time `now`
unfoldable pub stamp : String → String → String → String → String → Dict → Entry
stamp now gate human action source extra =
    Dict.update
      (("gate", gate)
        ∷ ("human", human)
        ∷ ("timestamp", now)
        ∷ ("action", action)
        ∷ ("identity_source", source)
        ∷ [])
      extra

-- `current_human_dossier = text`
abbrev pub with_dossier : String → Flow → Flow
with_dossier text f = record f { state = record f.state { current_human_dossier = text } }

abbrev pub gate_dossier : Phase → String → String
gate_dossier one human =
    concat ("Gate 1 (Planning) approved by " ∷ human ∷ ". Fieldwork is running." ∷ [])
gate_dossier two human =
    concat ("Gate 2 (Fieldwork) approved by " ∷ human ∷ ". Reporting is running." ∷ [])
gate_dossier three human =
    concat (
      "Audit completed: the final report was approved at Gate 3 (Reporting) by " ∷ human ∷ "." ∷ [])

-- `qa_rejection_reason = reason`
abbrev pub with_rejection : Option String → Flow → Flow
with_rejection reason f = record f { state = record f.state { qa_rejection_reason = reason } }

abbrev pub without_rejection : Flow → Flow
without_rejection f = with_rejection none f

module _ (env : Platform) (now : String) where
  -- `_stamp_trail`; its callers have validated the identity source
  unfoldable pub stamped : String → String → String → String → Dict → Flow → Flow
  unfolding stamp
  stamped gate human action source extra f = record f {
    state = record f.state {
      approval_trail =
          append_entry env.digests f.state.approval_trail
            (stamp now gate human action source extra);
    };
  }

  -- the decisions of the phase, as the approval seals them
  unfoldable pub sealed_extra : Phase → AuditState → Dict
  sealed_extra one s = []
  sealed_extra p s =
      (
        "decisions_digest",
        decisions_digest env.digests (stored_decisions env (phase_decisions p s)),
      )
      ∷ ("decisions_count", decimal (length (phase_decisions p s)))
      ∷ []

  -- `_check_sod` on the flow
  abbrev pub sod : String → String → Option Phase → Flow → Result AuditError (Unit {0})
  sod action human gate f =
      check_sod env.casefold action human gate f.state.approval_trail (preparers f.state)

  abbrev pub artifact_of : Phase → String → Flow → Result AuditError String
  artifact_of p what f = require (artifact_json env p f.state) (artifact_missing what)

  -- The record of an approval, with the dossier that follows it.
  unfoldable pub record_approval : Phase → String → String → String → Dict → Flow → Flow
  record_approval p human source json sealed f = with_dossier (gate_dossier p human) (
      stamped (gate_label p) human "gate_approval" source
        (("artifact", artifact_field p)
          ∷ ("artifact_digest", artifact_digest env.digests json)
          ∷ (sealed ++ run_provenance_extra p f.state))
        f)

  module _ (vault : Vault) where
    -- what is checked of an approval, with the human and the artifact that it finds
    unfoldable pub check_approval : Phase → String → Flow → Result AuditError String
    check_approval p human f =
        require_transition (approved_status p) (waiting_gate p) f
        >>ʳ sod "gate_approval" human (some p) f
        >>ʳ check_evidence env vault p f.state
        >>ʳ (artifact_of p (artifact_field p) f >>=ʳ λ json.
            check_review_decisions env f.state p >>ʳ ok json)

    -- `_approve_gate`: `begin_phase_2`, `begin_phase_3` and `finalize_audit` are its three gates
    unfoldable pub approve : Phase → String → String → Step (Unit {0})
    approve p human_id given = do
      human ← reading (λ _. require_text human_id "human_id")
      source ← reading (λ _. identity_source given)
      json ← reading (check_approval p human)
      sealed ← reading (λ f. ok (sealed_extra p f.state))
      updating (moved (approve_gate p))
      modify (record_approval p human source json sealed)

  -- `begin_phase_1`
  unfoldable pub begin_phase_1 : Step (Unit {0})
  begin_phase_1 = do updating (moved start_phase_1); modify (with_dossier "Planning is running.")

  unfoldable pub record_retry : Phase → String → String → String → Flow → Flow
  record_retry p human source previous f =
      with_dossier
        (concat
          (phase_label p ∷ " retry requested by " ∷ human ∷ "; the phase is running again." ∷ []))
        (stamped (concat ("Retry (" ∷ phase_label p ∷ ")" ∷ [])) human "retry" source
          (("previous_status", previous)
            ∷ ("previous_reason", value_or f.state.qa_rejection_reason "")
            ∷ run_provenance_extra p f.state)
          f)

  -- `retry_phase`; anyone may retry
  unfoldable pub retry : ℕ → String → String → Step (Unit {0})
  retry n human_id given = do
    p ← reading (λ _. require (phase_of n) (value_error "phase must be 1, 2, or 3"))
    human ← reading (λ _. require_text human_id "human_id")
    source ← reading (λ _. identity_source given)
    previous ← reading (λ f. ok (value f.machine))
    updating (moved (retry_phase p))
    modify (record_retry p human source previous)

  -- the fields of the artifact that is returned, where there is one
  abbrev pub returned_extra : Phase → Option String → Dict
  returned_extra p none = []
  returned_extra p (some json) = ("artifact_digest", artifact_digest env.digests json) ∷ []

  unfoldable pub record_return : Phase → String → String → String → Flow → Flow
  record_return p human source notes f =
      with_dossier
        (concat (
          phase_label p
          ∷ " returned for rework by "
          ∷ human
          ∷ ": "
          ∷ notes
          ∷ " The phase is re-running with these review notes."
          ∷ []))
        (without_rejection (
          stamped (concat ("Return for rework (" ∷ phase_label p ∷ ")" ∷ [])) human
            "return_for_rework" source
            (("notes", notes)
              ∷ ("artifact", artifact_field p)
              ∷ (returned_extra p (artifact_json env p f.state) ++ run_provenance_extra p f.state))
            f))

  -- `return_for_rework`
  unfoldable pub return_phase : ℕ → String → String → String → Step (Unit {0})
  return_phase n human_id given_notes given = do
    p ← reading (λ _. require (phase_of n) (value_error "phase must be 1, 2, or 3"))
    human ← reading (λ _. require_text human_id "human_id")
    notes ← reading (λ _. require_text given_notes "notes")
    source ← reading (λ _. identity_source given)
    reading (require_transition (running p) (waiting_gate p))
    reading (sod "return_for_rework" human none)
    updating (moved (return_for_rework p))
    modify (record_return p human source notes)

  abbrev pub unverified_extra : List String → Dict
  unverified_extra [] = []
  unverified_extra (c ∷ cs) = ("unverified_controls", join "," (c ∷ cs)) ∷ []

  -- the check is Fieldwork's
  abbrev pub unverified_for : Vault → Phase → AuditState → List String
  unverified_for vault two s = unverified_of vault s.working_papers
  unverified_for vault _ s = []

  abbrev pub accepted_note : List String → String
  accepted_note [] = ""
  accepted_note (c ∷ cs) =
      concat (" Accepted with unverified evidence for: " ∷ join ", " (c ∷ cs) ∷ "." ∷ [])

  unfoldable pub record_override :
      Phase → String → String → String → String → List String → Flow → Flow
  record_override p human source reason json unverified f =
      with_dossier
        (concat (
          phase_label p
          ∷ " QA rejection overridden by "
          ∷ human
          ∷ ": "
          ∷ reason
          ∷ "."
          ∷ accepted_note unverified
          ∷ " Review the artifact before approving the gate."
          ∷ []))
        (without_rejection (
          stamped (concat ("QA Override (" ∷ phase_label p ∷ ")" ∷ [])) human "qa_override" source
            (("reason", reason)
              ∷ ("qa_rejection_reason", value_or f.state.qa_rejection_reason "")
              ∷ ("artifact", artifact_field p)
              ∷ ("artifact_digest", artifact_digest env.digests json)
              ∷ (unverified_extra unverified ++ run_provenance_extra p f.state))
            f))

  -- `override_qa_rejection`
  unfoldable pub override_rejection : Vault → ℕ → String → String → String → Step (Unit {0})
  override_rejection vault n human_id given_reason given = do
    p ← reading (λ _. require (phase_of n) (value_error "phase must be 1, 2, or 3"))
    human ← reading (λ _. require_text human_id "human_id")
    reason ← reading (λ _. require_text given_reason "reason")
    source ← reading (λ _. identity_source given)
    reading (require_transition (waiting_gate p) (qa_rejected p))
    reading (sod "qa_override" human none)
    json ← reading (artifact_of p (artifact_field p))
    unverified ← reading (λ f. ok (unverified_for vault p f.state))
    updating (moved (override_qa p))
    modify (record_override p human source reason json unverified)

  abbrev pub required_extra : Bool → Dict
  required_extra false = []
  required_extra true = ("review_decisions_required", "true") ∷ []

  unfoldable pub record_creation : String → String → Bool → Flow → Flow
  record_creation preparer source required f =
      stamped "Audit created" preparer "audit_created" source (required_extra required) (record f {
        state = record f.state { prepared_by = preparer; review_decisions_required = required };
      })

  -- `record_preparer`
  unfoldable pub record_preparer : String → Bool → String → Step (Unit {0})
  record_preparer prepared_by required given = do
    preparer ← reading (λ _. require_text prepared_by "prepared_by")
    source ← reading (λ _. identity_source given)
    reading (λ f.
        check (f.state.prepared_by == "") (value_error "prepared_by is already set for this audit"))
    modify (record_creation preparer source required)

  abbrev pub supersedes_extra : Option String → Dict
  supersedes_extra none = []
  supersedes_extra (some i) = if i == "" then [] else ("supersedes", i) ∷ []

  unfoldable pub decision_extra : ReviewDecision → Dict
  decision_extra d =
      ("phase", decimal d.phase)
      ∷ ("decision_id", d.decision_id)
      ∷ ("decision_digest", artifact_digest env.digests (env.dump_decision d))
      ∷ ("decision_type", type_value d.decision_type)
      ∷ ("subject", concat (subject_value d.subject_type ∷ ":" ∷ d.subject_id ∷ []))
      ∷ ("artifact", d.artifact)
      ∷ supersedes_extra d.supersedes

  -- `_PHASE_LABELS[decision.phase]`: a decision's phase is 2 or 3
  abbrev pub decision_gate : ReviewDecision → String
  decision_gate d =
      if eqb d.phase 2 then "Review decision (Fieldwork)" else "Review decision (Reporting)"

  unfoldable pub store_decision : ReviewDecision → Flow → Flow
  store_decision d f =
      stamped (decision_gate d) d.decided_by "review_decision" (source_value d.identity_source)
        (decision_extra d)
        (record f {
          state = record f.state { review_decisions = f.state.review_decisions ++ d ∷ [] };
        })

  unfoldable pub decide : DecisionRequest → String → Flow → Result AuditError ReviewDecision
  decide r new_id f =
      build_decision env (decision_context f.state) f.state.review_decisions (value f.machine)
        (preparers f.state) r now new_id

  -- `record_decision`, with the id that it draws
  unfoldable pub record_decision : DecisionRequest → String → Step (Unit {0})
  record_decision r new_id = do d ← reading (decide r new_id); modify (store_decision d)

-- `_fail_phase`
unfoldable pub fail_phase : Phase → String → Step (Unit {0})
fail_phase p reason = do
  updating (moved (error_phase p))
  modify (λ f.
      with_dossier
        (concat (
          phase_label p
          ∷ " stopped with an error: "
          ∷ reason
          ∷ " Retry the phase once the cause is fixed."
          ∷ []))
        (with_rejection (some reason) f))

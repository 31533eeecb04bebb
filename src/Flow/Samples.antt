-- ===== src/Flow/Samples.antt =====
-- An audit at Gate 1, prepared by Ann, whose RACM Bob approves; and a Fieldwork crew whose first draft
-- is rejected.
use grc_audit_swarm.Base.{
  ◌≡◌, ◌≤◌, refl, false, true, none, some, [], ◌∷◌, Result, ok, err, eqb, strip, split, String, All,
  is_blank,
}
use grc_audit_swarm.Dict
use grc_audit_swarm.Machine
use grc_audit_swarm.Machine.{
  running_phase_2, one, two, waiting_human_gate_1, value, can, is_among, is_status, transitions,
  waiting_gate, apply, transition,
}
use grc_audit_swarm.Trail.{intact}
use grc_audit_swarm.Trail.Verify.{verify_trail}
use grc_audit_swarm.Trail.Samples.{digests, digests-NonBlank}
use grc_audit_swarm.Schema.{RiskControlMatrix}
use grc_audit_swarm.Schema.Findings.{WorkingPaper}
use grc_audit_swarm.Decisions.{Platform}
use grc_audit_swarm.Decisions.Errors.{AuditError}
use grc_audit_swarm.Flow.{approve, check_approval, sealed_extra, moved}
use grc_audit_swarm.Flow.State.{
  Flow, GenerationRun, new_flow, preparers, creators, artifact_json, review_decisions_required,
  creation_requires,
}
use grc_audit_swarm.Flow.Checks.{
  Vault, require_text, identity_source, require_transition, check_sod, check_evidence,
  check_review_decisions, missing_for,
}
use grc_audit_swarm.Flow.Methods.{answer_of, state_after, ◌>>=◌, reading, updating, modify}
use grc_audit_swarm.Flow.Actions.{perform, begins, approves, creates}
use grc_audit_swarm.Flow.Atomic.{perform-err_unchanged}
use grc_audit_swarm.Flow.Trails.{Extends}
use grc_audit_swarm.Flow.Reachable.{
  Reachable, begin_audit, calls, perform-Extends, status-mirrors, trail-intact,
}
use grc_audit_swarm.Flow.Approval.{Approved, approve-Approvable}
use grc_audit_swarm.Flow.Attempts.{
  Crew, returned, run_attempts, passed, settle, attempts, rejection_of, qa_rejection,
  evidence_rejection, linter_reason,
}
use grc_audit_swarm.Flow.Runner.{generate}
use grc_audit_swarm.Flow.Attempts.Passing.{Passes, run_attempts-passed}
use grc_audit_swarm.Flow.Runner.Ends.{SameRecords, generate-SameRecords}
use grc_audit_swarm.Policy.{
  sod_violation, same_person, normalise_identity, distinct_violation, distinct_approver_gates,
  preparer_excluded_actions,
}
use grc_audit_swarm.Schema.Decisions.{identity_source_of}
use grc_audit_swarm.Flow.Runner.Status.{Ended, generate-Ended}
use grc_audit_swarm.Linters
use grc_audit_swarm.Linters.Samples
use grc_audit_swarm.Linters.{Message, errors}
use grc_audit_swarm.Linters.Samples.{tools}
use grc_audit_swarm.Linters.Papers.{lint_working_papers}
use grc_audit_swarm.Flow.Linted.{Holds, linted, to_feedback, run_attempts-Holds}
use grc_audit_swarm.Flow.State.{AuditState}
use grc_audit_swarm.Evidence.{unverified_findings}
use grc_audit_swarm.Evidence.Verified.{Backed}
use grc_audit_swarm.Evidence.Samples.{bound, bound-compares}
use grc_audit_swarm.Flow.Quoted.{vaulted, run_attempts-Backed}
use grc_audit_swarm.Json.{get}

abbrev env : Platform
env = record {
  digests = digests;
  casefold = λ s. s;
  iso_date = some;
  dump_racm = λ m. m.theme;
  dump_papers = λ p. p.theme;
  dump_report = λ r. r.executive_summary;
  dump_decision = λ d. d.decision_id;
}

abbrev vault : Vault
vault papers = []

abbrev racm : RiskControlMatrix
racm = record { theme = "Access"; risks = [] }

abbrev papers : WorkingPaper
papers = record { theme = "Access"; findings = [] }

abbrev created : Flow
created = state_after (perform env vault "t0" (creates "Ann" true "declared") new_flow)

abbrev at_gate : Flow
at_gate = record new_flow {
  machine = waiting_human_gate_1;
  state = record new_flow.state {
    status = "WAITING_HUMAN_GATE_1";
    prepared_by = "Ann";
    approval_trail =
        (("gate", "Audit created")
          ∷ ("human", "Ann")
          ∷ ("timestamp", "t0")
          ∷ ("action", "audit_created")
          ∷ ("review_decisions_required", "true")
          ∷ [])
        ∷ [];
    racm_plan = some racm;
  };
}

abbrev approved : Flow
approved = state_after (approve env "t1" vault one "Bob" "declared" at_gate)

approve-ok : approve env "t1" vault one "Bob" "declared" at_gate ≡ (ok tt, approved)
unfolding approve ◌>>=◌ reading require_text strip identity_source identity_source_of check_approval
    require_transition can is_among is_status transitions waiting_gate check_sod preparers creators
    sod_violation same_person normalise_identity split distinct_violation distinct_approver_gates
    preparer_excluded_actions check_evidence artifact_json check_review_decisions
    review_decisions_required creation_requires missing_for Dict.has Dict.get_or sealed_extra
    updating moved apply transition modify
approve-ok = refl

approve-Approvable_example : Approved env vault "t1" one "Bob" "declared" at_gate approved
approve-Approvable_example =
    approve-Approvable env vault "t1" one "Bob" "declared" at_gate approved approve-ok

-- the preparer's own approval is refused
abbrev refused : Result AuditError (Unit {0})
refused = answer_of (perform env vault "t1" (approves one "Ann" "declared") at_gate)

abbrev error_of : Result AuditError (Unit {0}) → AuditError
error_of (ok _) = AuditError.runtime_error ""
error_of (err e) = e

ann-refused : refused ≡ err (error_of refused)
unfolding perform approve ◌>>=◌ reading require_text strip identity_source identity_source_of
    check_approval require_transition can is_among is_status transitions waiting_gate check_sod
    preparers creators sod_violation same_person normalise_identity split distinct_violation
    distinct_approver_gates preparer_excluded_actions check_evidence artifact_json
    check_review_decisions review_decisions_required creation_requires missing_for Dict.has
    Dict.get_or sealed_extra updating moved apply transition modify
ann-refused = refl

perform-err_unchanged_example :
    state_after (perform env vault "t1" (approves one "Ann" "declared") at_gate) ≡ at_gate
perform-err_unchanged_example =
    perform-err_unchanged env vault "t1" (approves one "Ann" "declared") at_gate (error_of refused)
      ann-refused

perform-Extends_example :
    Extends digests at_gate
      (state_after (perform env vault "t1" (approves one "Bob" "declared") at_gate))
perform-Extends_example = perform-Extends env vault "t1" (approves one "Bob" "declared") at_gate

abbrev gen_run : GenerationRun
gen_run = record {
  run_id = "r1";
  phase = two;
  provider = "p";
  model = "m";
  prompt_fingerprint = "f";
  attempts = 0;
  outcome = "running";
  ended_at = none;
  linter_passed = none;
  linter_violations = [];
}

-- QA asks for a second draft, and approves it
abbrev crew : Crew WorkingPaper
crew = record {
  attempt = λ n feedback.
      returned
        (some (record { approved = some (eqb n 2); rejection_reason = some "quote the evidence" }))
        (some papers);
  inputs = ok tt;
  run = ok gen_run;
  unverified = λ p. ok [];
  lint = λ p. record { passed = true; violations = []; feedback = "" };
  strict_linter = false;
  invalid = λ p. none;
  skill_ids = [];
}

second-passes : run_attempts two crew "" ≡ passed 2 (some papers)
unfolding run_attempts attempts settle rejection_of qa_rejection evidence_rejection linter_reason
    strip
second-passes = refl

run_attempts-passed_example : (1 ≤ 2) × (2 ≤ 2) × Passes two crew 2 (some papers)
run_attempts-passed_example = run_attempts-passed two crew "" 2 (some papers) second-passes

abbrev running : Flow
running = state_after (perform env vault "t1" begins created)

reached : Reachable env vault running
reached = calls (calls begin_audit "t0" (creates "Ann" true "declared")) "t1" begins

status-mirrors_example : running.state.status ≡ value running.machine
status-mirrors_example = status-mirrors env vault running reached

trail-intact_example :
    (verify_trail digests running.state.approval_trail none none none).status ≡ intact
trail-intact_example = trail-intact env vault running digests-NonBlank reached

abbrev in_fieldwork : Flow
in_fieldwork = record new_flow {
  machine = running_phase_2;
  state = record new_flow.state { status = "RUNNING_PHASE_2"; racm_plan = some racm };
}

in_fieldwork-running : in_fieldwork.machine ≡ Machine.running two
unfolding Machine.running
in_fieldwork-running = refl

generate-Ended_example :
    (answer_of (generate two crew "t2" in_fieldwork) ≡ ok tt)
    × Ended two (state_after (generate two crew "t2" in_fieldwork)).machine
generate-Ended_example =
    generate-Ended two crew "t2" gen_run in_fieldwork refl refl in_fieldwork-running

-- both models are of one family
abbrev unpaired : Crew WorkingPaper
unpaired = record crew { run = err (AuditError.runtime_error "one family") }

generate-SameRecords_example :
    SameRecords in_fieldwork (state_after (generate two crew "t2" in_fieldwork))
generate-SameRecords_example = generate-SameRecords two crew "t2" in_fieldwork

-- the papers of the linters' sample, by a crew that QA approves at once
abbrev careful : Crew WorkingPaper
careful = record crew {
  attempt = λ n feedback.
      returned (some (record { approved = some true; rejection_reason = none }))
        (some Linters.Samples.papers);
}

abbrev planned : AuditState
planned = record new_flow.state { racm_plan = some Linters.Samples.racm }

abbrev lint_sentence : Message → String
lint_sentence m = "see the rule"

careful-passes :
    run_attempts two (linted tools env planned lint_sentence two careful) ""
    ≡ passed 1 (some Linters.Samples.papers)
unfolding run_attempts attempts settle rejection_of qa_rejection evidence_rejection linter_reason
    linted lint_working_papers Linters.passed to_feedback errors
careful-passes = refl

run_attempts-Holds_example :
    Holds tools env planned two Linters.Samples.papers (some Linters.Samples.racm)
run_attempts-Holds_example =
    run_attempts-Holds tools env planned lint_sentence two careful "" 1 Linters.Samples.papers
      careful-passes

quotes-verified :
    run_attempts two (vaulted bound (some "S-1") careful) ""
    ≡ passed 1 (some Linters.Samples.papers)
unfolding run_attempts attempts settle rejection_of qa_rejection evidence_rejection linter_reason
    vaulted unverified_findings is_blank get
quotes-verified = refl

run_attempts-Backed_example : All (Backed bound (some "S-1")) Linters.Samples.papers.findings
run_attempts-Backed_example =
    run_attempts-Backed bound (some "S-1") bound-compares careful "" 1 Linters.Samples.papers
      quotes-verified

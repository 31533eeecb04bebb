-- ===== src/Decisions/Samples.antt =====
-- A finding with an exception, and the sign-off that Gate 2 waits for.
use grc_audit_swarm.Base.{
  Bool, ◌≡◌, ◌≢◌, refl, false, true, Option, none, some, [], ◌∷◌, ok, Result, strip, String, split,
  err,
}
use grc_audit_swarm.Policy.{finding_needs_review}
use grc_audit_swarm.Schema.Findings.{
  AuditFinding, DesignConclusion, OperatingConclusion, FindingResult, derive_result,
}
use grc_audit_swarm.Schema.Decisions.{
  ReviewDecision, sign_off, finding, declared, decision_type_of, identity_source_of, ParsedValues,
  scope_limitation, challenge, classify, writeup, management_response, engagement_conclusion,
  remediation_verification,
}
use grc_audit_swarm.Decisions.{
  DecisionContext, SlotKey, finding_by_id, key_control, same_key, DecisionType, Platform,
  subject_for_type, digest_of, artifact_for_subject, active_for, active_decisions, phase_for_type,
}
use grc_audit_swarm.Decisions.Values.{effective_conclusions, challenged, design_of, operating_of}
use grc_audit_swarm.Decisions.View.{
  finding_key, finding_view, finding_views, view_of, missing_reviews, missing_for_gate_2,
  result_text,
}
use grc_audit_swarm.Trail.Samples.{digests}
use grc_audit_swarm.Policy.{
  decision_status_violation, decision_recordable_statuses, decision_sod_violation,
  preparer_excluded_decisions, same_person, normalise_identity, rationale_always_required,
}
use grc_audit_swarm.Decisions.Build.{
  DecisionRequest, build_decision, check_request, check_preparers, check_subject_type, subject_of,
  stored_values, check_slot,
}
use grc_audit_swarm.Decisions.Permitted.{Permitted, build_decision-Permitted}
use grc_audit_swarm.Decisions.Missing.{missing_for_gate_2_complete}

abbrev excepted : AuditFinding
excepted = record {
  control_id = "C-1";
  vault_id_reference = "V-1";
  exact_quote_from_evidence = "quote";
  tod_conclusion = DesignConclusion.effective;
  toe_conclusion = OperatingConclusion.exceptions_noted;
  toe_basis = none;
  items_tested = some 25;
  exceptions_noted = some 2;
  result = some FindingResult.exception;
  preliminary_deficiency = some true;
  test_conclusion = "";
  legacy_severity = none;
}

abbrev ctx : DecisionContext
ctx = record {
  racm = none;
  papers = some (record { theme = "Access"; findings = excepted ∷ [] });
  report = none;
}

abbrev signed : ReviewDecision
signed = record {
  decision_id = "d1";
  phase = 2;
  artifact = "working_papers";
  draft_digest = "#";
  subject_type = finding;
  subject_id = "C-1";
  decision_type = sign_off;
  values = [];
  rationale = "";
  decided_by = "Bob";
  identity_source = declared;
  decided_at = "t";
  supersedes = none;
}

abbrev when : Bool → Option ReviewDecision
when true = some signed
when false = none

abbrev active : SlotKey → Option ReviewDecision
active k = when (same_key k (finding_key "finding_review" "C-1"))

none-missing : missing_for_gate_2 ctx active ≡ ok []
unfolding missing_for_gate_2 finding_views finding_view view_of effective_conclusions challenged
    design_of operating_of missing_reviews same_key derive_result finding_needs_review key_control
none-missing = refl

first-found : finding_by_id ctx "C-1" ≡ some excepted
unfolding finding_by_id
first-found = refl

is-needed : finding_needs_review (result_text excepted.result) (key_control ctx "C-1") ≡ true
unfolding finding_needs_review key_control
is-needed = refl

missing_for_gate_2_complete_example : active (finding_key "finding_review" "C-1") ≢ none
missing_for_gate_2_complete_example =
    missing_for_gate_2_complete ctx active "C-1" excepted none-missing first-found is-needed

-- no request but a sign-off has values here
abbrev no_values : (t : DecisionType) → Result String (ParsedValues t)
no_values sign_off = ok tt
no_values scope_limitation = ok tt
no_values challenge = err "no values"
no_values classify = err "no values"
no_values writeup = err "no values"
no_values management_response = err "no values"
no_values engagement_conclusion = err "no values"
no_values remediation_verification = err "no values"

abbrev env : Platform
env = record {
  digests = digests;
  casefold = λ s. s;
  iso_date = some;
  dump_racm = λ m. m.theme;
  dump_papers = λ p. p.theme;
  dump_report = λ r. r.executive_summary;
  dump_decision = λ d. d.decision_id;
}

-- Bob signs the finding off
abbrev request : DecisionRequest
request = record {
  decision_type = "sign_off";
  subject_id = "C-1";
  decided_by = "Bob";
  values = no_values;
  rationale = "";
  subject_type = none;
  supersedes = none;
  identity_source = "declared";
}

abbrev built : ReviewDecision
built = record signed { draft_digest = "#Access" }

sign_off-builds :
    build_decision env ctx [] "WAITING_HUMAN_GATE_2" ("Ann" ∷ []) request "t" "d1" ≡ ok built
unfolding build_decision decision_type_of strip identity_source_of check_request
    decision_status_violation decision_recordable_statuses check_preparers decision_sod_violation
    preparer_excluded_decisions same_person normalise_identity split check_subject_type subject_of
    subject_for_type digest_of artifact_for_subject stored_values finding_by_id
    rationale_always_required active_for active_decisions check_slot phase_for_type
sign_off-builds = refl

build_decision-Permitted_example : Permitted env ctx [] "WAITING_HUMAN_GATE_2" ("Ann" ∷ []) built
build_decision-Permitted_example =
    build_decision-Permitted env ctx [] "WAITING_HUMAN_GATE_2" ("Ann" ∷ []) request "t" "d1" built
      sign_off-builds

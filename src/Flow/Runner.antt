-- ===== src/Flow/Runner.antt =====
-- The phase runner of `AuditFlow`: what `_run_crew_with_qa` does with the outcome of its attempts, and
-- the three `generate_*` methods.
pub mod Ends
pub mod Status
pub mod Raised
use grc_audit_swarm.Base.{
  ℕ, zero, suc, ◌+◌, String, Bool, true, false, not, ◌&&◌, ◌||◌, Option, none, some, List, [], ◌∷◌,
  ◌++◌, ◌==◌, value_or, eqb, if◌then◌else◌, concat, join, decimal, length, last?, is_empty, strip,
  keep, Result, ok, err,
}
use grc_audit_swarm.Dict
use grc_audit_swarm.Machine.{
  Phase, one, two, three, AuditStatus, waiting_for_scope, value, is_status, start_phase_1, running,
  qa_rejected, complete_phase, reject_phase,
}
use grc_audit_swarm.Trail.{Entry}
use grc_audit_swarm.Schema.{RiskControlMatrix}
use grc_audit_swarm.Schema.Findings.{WorkingPaper}
use grc_audit_swarm.Schema.Deficiencies.{FinalReport}
use grc_audit_swarm.Decisions.Errors.{AuditError, runtime_error}
use grc_audit_swarm.Decisions.Values.{check}
use grc_audit_swarm.Flow.{Step, moved, with_dossier, with_rejection, without_rejection, fail_phase}
use grc_audit_swarm.Flow.Methods.{◌>>=◌, ◌>>◌, reading, modify, updating}
use grc_audit_swarm.Flow.State.{
  Flow, AuditState, GenerationRun, phase_label, phase_digit, artifact_field,
  review_decisions_required,
}
use grc_audit_swarm.Flow.Attempts.{
  ArtifactOf, Crew, Lint, Outcome, attempts, crashed, feedback_text, passed, raised, rejected,
  returned, run_attempts,
}

-- `setattr(self.state, field, artifact)`
unfoldable pub set_artifact : (p : Phase) → Option (ArtifactOf p) → Flow → Flow
set_artifact one a f = record f { state = record f.state { racm_plan = a } }
set_artifact two a f = record f { state = record f.state { working_papers = a } }
set_artifact three a f = record f { state = record f.state { final_report = a } }

-- a rejected draft is kept for the supervisor, unless it is invalid
abbrev pub kept_draft : {A : Type 0} → Crew A → Option A → Option A
kept_draft crew none = none
kept_draft crew (some a) = elim (crew.invalid a) [ none ↦ some a | some _ ↦ none ]

-- The run's record as it is when the run has ended.
unfoldable pub add_run : GenerationRun → ℕ → String → String → Lint → Flow → Flow
add_run run n outcome now lint f = record f {
  state = record f.state {
    generation_runs =
        f.state.generation_runs
        ++ record run {
          attempts = n;
          outcome = outcome;
          ended_at = some now;
          linter_passed = some lint.passed;
          linter_violations = lint.violations;
        }
          ∷ [];
  };
}

-- the linters' answer is not recorded if the crew raised
unfoldable pub add_crashed_run : GenerationRun → ℕ → String → Flow → Flow
add_crashed_run run n now f = record f {
  state = record f.state {
    generation_runs =
        f.state.generation_runs
        ++ record run { attempts = n; outcome = "error"; ended_at = some now } ∷ [];
  };
}

abbrev pub run_name : ℕ → String
run_name n = if eqb n 1 then "crew" else "crew retry"

abbrev pub rejected_by : Bool → String
rejected_by true = "rejected by the QA reviewer"
rejected_by false = "failed the deterministic evidence check"

unfoldable pub note_rejection : Phase → Bool → String → Flow → Flow
note_rejection p by reason f =
    with_dossier
      (concat (
        phase_label p
        ∷ " draft "
        ∷ rejected_by by
        ∷ " after one automatic retry: "
        ∷ reason
        ∷ " Review the draft, then retry the phase or approve it with a written justification."
        ∷ []))
      (with_rejection (some reason) f)

pub invalid_text : Phase → String → String
invalid_text p m =
    concat (phase_label p ∷ " crew produced an invalid " ∷ artifact_field p ∷ ": " ∷ m ∷ [])

module _ (p : Phase) (crew : Crew (ArtifactOf p)) (now : String) (run : GenerationRun) where
  unfoldable pub store_artifact : ℕ → ArtifactOf p → Step Bool
  store_artifact n a = elim (crew.invalid a) [
    | some m ↦
        (modify (add_run run n "error" now (crew.lint (some a))) >> fail_phase p (invalid_text p m))
        >> reading (λ _. ok false)
    | none ↦
        (modify (set_artifact p (some a))
          >> modify (add_run run n "qa_approved" now (crew.lint (some a))))
        >> reading (λ _. ok true)
  ]

  -- what the runner does with the outcome of its attempts; true leaves the phase running
  unfoldable pub finish : Outcome (ArtifactOf p) → Step Bool
  finish (crashed n m) =
      (modify (add_crashed_run run n now)
        >> fail_phase p (concat (phase_label p ∷ " " ∷ run_name n ∷ " error: " ∷ m ∷ [])))
      >> reading (λ _. ok false)
  finish (rejected n a by reason) =
      (((modify (set_artifact p (kept_draft crew a))
            >> modify (add_run run n "qa_rejected" now (crew.lint a)))
          >> updating (moved (reject_phase p)))
        >> modify (note_rejection p by reason))
      >> reading (λ _. ok false)
  finish (passed n none) =
      (modify (add_run run n "error" now (crew.lint none))
        >> fail_phase p (
            concat (
              phase_label p
              ∷ " crew produced no "
              ∷ artifact_field p
              ∷ ": the output could not be parsed into the required schema."
              ∷ [])))
      >> reading (λ _. ok false)
  finish (passed n (some a)) = store_artifact n a

-- `_run_crew_with_qa`: `_start_generation_run` may raise before the first attempt
unfoldable pub run_crew_with_qa : (p : Phase) → Crew (ArtifactOf p) → String → String → Step Bool
run_crew_with_qa p crew now seeded = do
  run ← reading (λ _. crew.run)
  finish p crew now run (run_attempts p crew seeded)

-- the label of a trail entry that a human's return or retry of the phase makes
abbrev pub labelled : String → Phase → String
labelled what p = concat (what ∷ " (" ∷ phase_label p ∷ ")" ∷ [])

pub rework_text : String → String
rework_text notes = concat (
    " IMPORTANT: The human reviewer returned the previous draft for rework. Address every "
    ∷ "review note before re-drafting: " ∷ notes ∷ [])

-- `_carried_feedback` by the last entry, and nothing is no feedback
unfoldable pub carried_feedback : Phase → Option Entry → String
unfolding Dict.has Dict.get_or
carried_feedback p none = ""
carried_feedback p (some e) =
    if Dict.has "action" "return_for_rework" e && Dict.has "gate" (labelled "Return for rework" p) e
    then (if strip (Dict.get_or "notes" e "") == ""
        then ""
        else rework_text (strip (Dict.get_or "notes" e "")))
    else if not (Dict.has "action" "retry" e)
        || not (Dict.has "gate" (labelled "Retry" p) e)
        || not (Dict.has "previous_status" (value (qa_rejected p)) e)
    then ""
    else if strip (Dict.get_or "previous_reason" e "") == ""
    then ""
    else feedback_text p (strip (Dict.get_or "previous_reason" e ""))

-- a direct call of `generate_planning` starts the first phase
unfoldable pub start_if_scoped : Phase → Step (Unit {0})
start_if_scoped one f =
    if is_status f.machine waiting_for_scope then updating (moved start_phase_1) f else (ok tt, f)
start_if_scoped _ f = (ok tt, f)

-- Planning detects the skills, the later phases restore them.
unfoldable pub with_skills : Phase → List String → Flow → Flow
with_skills one ids f = record f { state = record f.state { active_skill_ids = ids } }
with_skills _ ids f = f

abbrev pub present : {A : Type 0} → Option A → String → Option String
present none m = some m
present (some _) m = none

-- the artifact that a phase builds on: why it cannot run
unfoldable pub lacks : Phase → AuditState → Option String
lacks one s = none
lacks two s = present s.racm_plan "Cannot run Fieldwork: no Phase 1 RACM in state."
lacks three s = present s.working_papers "Cannot run Reporting: no Phase 2 working papers in state."

abbrev pub finding_count : Option WorkingPaper → ℕ
finding_count none = 0
finding_count (some papers) = length papers.findings

-- what the reviewer is asked to record, if the audit requires decisions
abbrev pub wanted_decisions : Phase → String
wanted_decisions one = ""
wanted_decisions two = concat (
    " Record a sign-off or a challenge for every exception and every "
    ∷ "key-control finding before approving." ∷ [])
wanted_decisions three = concat (
    " Before approving, record your classification of each deficiency, a scope limitation for "
    ∷ "each untested key control, and the engagement conclusion." ∷ [])

pub phase_done_text : Phase → AuditState → String
phase_done_text one s = concat (
    "Planning QA Loop complete. No major structural flaws found. Please review the RACM below "
    ∷ "for final Standard 12.3 (formerly IIA 2340) approval." ∷ [])
phase_done_text two s = concat (
    "Fieldwork complete: ToD/ToE conclusions recorded for "
    ∷ decimal (finding_count s.working_papers)
    ∷ " finding(s), and every cited evidence quote was verified against the evidence vault. Review "
    ∷ "the working papers before approving Gate 2 (supervision step inspired by IIA Standard 12.3, "
    ∷ "formerly 2340)."
    ∷ (if review_decisions_required s then wanted_decisions two else "")
    ∷ [])
phase_done_text three s = concat (
    "Reporting complete: the final report passed the tone QA review. Review the report and the "
    ∷ "proposed deficiency classifications (a draft for your judgement), then approve Gate 3 to "
    ∷ "complete the audit. Gate 3 must be approved by someone other than the Gate 2 approver."
    ∷ (if review_decisions_required s then wanted_decisions three else "")
    ∷ [])

unfoldable pub complete_if : Phase → Bool → Step (Unit {0})
complete_if p false = reading (λ _. ok tt)
complete_if p true = do
  updating (moved (complete_phase p))
  modify (λ f. with_dossier (phase_done_text p f.state) f)

-- `generate_planning`, `generate_fieldwork` and `generate_reporting`
module _ (p : Phase) (crew : Crew (ArtifactOf p)) (now : String) where
  unfoldable pub run_phase : Flow → Step (Unit {0})
  run_phase f = elim (lacks p f.state) [
    | some reason ↦ fail_phase p reason
    | none ↦
        reading (λ _. crew.inputs)
        >> (run_crew_with_qa p crew now (carried_feedback p (last? f.state.approval_trail))
            >>= complete_if p)
  ]

  unfoldable pub generate : Step (Unit {0})
  generate = do
    start_if_scoped p
    reading (λ f. check (is_status f.machine (running p)) (runtime_error (value f.machine)))
    modify (with_skills p crew.skill_ids)
    modify without_rejection
    f ← reading ok
    run_phase f

-- ===== src/Flow/State.antt =====
-- The audit's state: `AuditState` of src/swarm/state/schema.py with the machine of `AuditFlow`, and
-- what its methods read of it.
use grc_audit_swarm.Base.{
  ℕ, String, Bool, false, not, ◌&&◌, ◌||◌, Option, none, some, List, [], ◌∷◌, ◌==◌, any,
  if◌then◌else◌, keep, concat, eqb,
}
use grc_audit_swarm.Dict
use grc_audit_swarm.Dict.{Dict}
use grc_audit_swarm.Machine.{
  Phase, one, two, three, AuditStatus, waiting_for_scope, running_phase_2, running_phase_3,
  completed,
}
use grc_audit_swarm.Trail.{Entry}
use grc_audit_swarm.Schema.{RiskControlMatrix}
use grc_audit_swarm.Schema.Findings.{WorkingPaper}
use grc_audit_swarm.Schema.Deficiencies.{FinalReport}
use grc_audit_swarm.Schema.Decisions.{ReviewDecision}
use grc_audit_swarm.Decisions.{Platform, DecisionContext}

-- `GenerationRun`: the fields that the flow reads or writes
pub record GenerationRun : Type 0 where
  pub run_id : String
  pub phase : Phase
  pub provider : String
  pub model : String
  pub prompt_fingerprint : String
  pub attempts : ℕ
  pub outcome : String
  pub ended_at : Option String
  pub linter_passed : Option Bool
  pub linter_violations : List String

pub record AuditState : Type 0 where
  pub theme : String
  pub business_context : String
  pub frameworks : List String
  pub racm_plan : Option RiskControlMatrix
  pub working_papers : Option WorkingPaper
  pub final_report : Option FinalReport
  pub current_human_dossier : String
  pub status : String
  pub qa_rejection_reason : Option String
  pub active_skill_ids : List String
  pub prepared_by : String
  pub approval_trail : List Entry
  pub generation_runs : List GenerationRun
  pub review_decisions : List ReviewDecision
  pub review_decisions_required : Bool

-- `AuditFlow`: the machine's status beside the state
pub record Flow : Type 0 where
  pub machine : AuditStatus
  pub state : AuditState

-- `AuditFlow()`
abbrev pub new_flow : Flow
new_flow = record {
  machine = waiting_for_scope;
  state = record {
    theme = "";
    business_context = "";
    frameworks = [];
    racm_plan = none;
    working_papers = none;
    final_report = none;
    current_human_dossier = "";
    status = "WAITING_FOR_SCOPE";
    qa_rejection_reason = none;
    active_skill_ids = [];
    prepared_by = "";
    approval_trail = [];
    generation_runs = [];
    review_decisions = [];
    review_decisions_required = false;
  };
}

unfoldable pub phase_label : Phase → String
phase_label one = "Planning"
phase_label two = "Fieldwork"
phase_label three = "Reporting"

unfoldable pub artifact_field : Phase → String
artifact_field one = "racm_plan"
artifact_field two = "working_papers"
artifact_field three = "final_report"

abbrev pub phase_number : Phase → ℕ
phase_number one = 1
phase_number two = 2
phase_number three = 3

abbrev pub phase_digit : Phase → String
phase_digit one = "1"
phase_digit two = "2"
phase_digit three = "3"

-- the status to which the approval of a gate leads
abbrev pub approved_status : Phase → AuditStatus
approved_status one = running_phase_2
approved_status two = running_phase_3
approved_status three = completed

-- the parser of a request's phase, 1 to 3
unfoldable pub phase_of : ℕ → Option Phase
phase_of n =
    if eqb n 1 then some one else if eqb n 2 then some two else if eqb n 3 then some three else none

-- the artifact of a phase as its JSON, where there is one
unfoldable pub artifact_json : Platform → Phase → AuditState → Option String
artifact_json env one s = elim s.racm_plan [ none ↦ none | some a ↦ some (env.dump_racm a) ]
artifact_json env two s = elim s.working_papers [ none ↦ none | some a ↦ some (env.dump_papers a) ]
artifact_json env three s = elim s.final_report [ none ↦ none | some a ↦ some (env.dump_report a) ]

abbrev pub decision_context : AuditState → DecisionContext
decision_context s = record {
  racm = s.racm_plan;
  papers = s.working_papers;
  report = s.final_report;
}

unfoldable pub creation_requires : Entry → Bool
unfolding Dict.has
creation_requires e =
    Dict.has "action" "audit_created" e && Dict.has "review_decisions_required" "true" e

unfoldable pub review_decisions_required : AuditState → Bool
unfolding creation_requires
review_decisions_required s = s.review_decisions_required || any creation_requires s.approval_trail

-- `[e.get("human", "") for e in trail if e.get("action") == "audit_created"]`
unfoldable pub creators : List Entry → List String
unfolding Dict.has Dict.get_or
creators [] = []
creators (e ∷ es) =
    let rest = creators es in
    if Dict.has "action" "audit_created" e then Dict.get_or "human" e "" ∷ rest else rest

abbrev pub or_blank : List String → List String
or_blank [] = "" ∷ []
or_blank (n ∷ ns) = n ∷ ns

-- `_preparers`
unfoldable pub preparers : AuditState → List String
unfolding creators
preparers s = or_blank (keep (λ n. not (n == "")) (s.prepared_by ∷ creators s.approval_trail))

abbrev pub is_run_of : Phase → GenerationRun → Bool
is_run_of p r = eqb (phase_number r.phase) (phase_number p)

-- the last of the phase's runs
unfoldable pub latest_run : Phase → List GenerationRun → Option GenerationRun
latest_run p [] = none
latest_run p (r ∷ rs) =
    let later = latest_run p rs in
    elim later [ some l ↦ some l | none ↦ if is_run_of p r then some r else none ]

unfoldable pub run_provenance_extra : Phase → AuditState → Dict
unfolding latest_run
run_provenance_extra p s = elim (latest_run p s.generation_runs) [
  | none ↦ []
  | some r ↦
      ("generation_run_id", r.run_id)
      ∷ ("generation_prompt_fingerprint", r.prompt_fingerprint)
      ∷ ("generation_model", concat (r.provider ∷ "/" ∷ r.model ∷ []))
      ∷ []
]

-- the decisions of a phase
abbrev pub phase_decisions : Phase → AuditState → List ReviewDecision
phase_decisions p s = keep (λ d. eqb d.phase (phase_number p)) s.review_decisions

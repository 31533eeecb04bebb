-- ===== src/Decisions.antt =====
-- src/swarm/review_decisions.py: the context of decisions, their states and slots. Recording a
-- decision is in Decisions/Build.antt, the conclusion of record in Decisions/View.antt.
pub mod Errors
pub mod Values
pub mod Build
pub mod View
pub mod Missing
pub mod Permitted
mod Samples
use grc_audit_swarm.Base.{
  ℕ, String, Bool, true, false, not, ◌&&◌, ◌||◌, Option, none, some, List, [], ◌∷◌, ◌++◌, ◌==◌, any,
  find_first, is_some, value_or, if◌then◌else◌, keep, contains,
}
use grc_audit_swarm.Dict
use grc_audit_swarm.Dict.{Dict}
use grc_audit_swarm.Trail.{Digests}
use grc_audit_swarm.Schema.{RiskControlMatrix, Risk, Control}
use grc_audit_swarm.Schema.Findings.{WorkingPaper, AuditFinding}
use grc_audit_swarm.Schema.Deficiencies.{FinalReport, DeficiencyEvaluation}
use grc_audit_swarm.Schema.Decisions.{
  DecisionType, sign_off, challenge, classify, scope_limitation, writeup, management_response,
  engagement_conclusion, remediation_verification, type_value, DecisionSubjectType, finding,
  deficiency, engagement, subject_value, ReviewDecision,
}

-- What the audit takes from outside: hashing, the case folding of `str`, dates, and pydantic's
-- canonical JSON of an artifact and of a decision.
pub record Platform : Type 0 where
  pub digests : Digests
  pub casefold : String → String
  -- `date.fromisoformat(text).isoformat()`, and nothing where it raises
  pub iso_date : String → Option String
  pub dump_racm : RiskControlMatrix → String
  pub dump_papers : WorkingPaper → String
  pub dump_report : FinalReport → String
  pub dump_decision : ReviewDecision → String

abbrev pub engagement_subject_id : String
engagement_subject_id = "engagement"

unfoldable pub subject_for_type : DecisionType → DecisionSubjectType
subject_for_type sign_off = finding
subject_for_type challenge = finding
subject_for_type scope_limitation = finding
subject_for_type classify = deficiency
subject_for_type writeup = deficiency
subject_for_type management_response = deficiency
subject_for_type remediation_verification = deficiency
subject_for_type engagement_conclusion = engagement

unfoldable pub phase_for_type : DecisionType → ℕ
phase_for_type sign_off = 2
phase_for_type challenge = 2
phase_for_type _ = 3

unfoldable pub artifact_for_subject : DecisionSubjectType → String
artifact_for_subject finding = "working_papers"
artifact_for_subject deficiency = "final_report"
artifact_for_subject engagement = "final_report"

-- sign_off and challenge share a slot
unfoldable pub slot_of : DecisionType → String
slot_of sign_off = "finding_review"
slot_of challenge = "finding_review"
slot_of t = type_value t

pub record DecisionContext : Type 0 where
  pub racm : Option RiskControlMatrix
  pub papers : Option WorkingPaper
  pub report : Option FinalReport

abbrev pub findings_of : Option WorkingPaper → List AuditFinding
findings_of none = []
findings_of (some p) = p.findings

abbrev pub evaluations_of : Option FinalReport → List DeficiencyEvaluation
evaluations_of none = []
evaluations_of (some r) = r.deficiency_evaluations

abbrev pub risks_of : Option RiskControlMatrix → List Risk
risks_of none = []
risks_of (some m) = m.risks

-- `ctx.finding`, `ctx.deficiency`: the first with that id
unfoldable pub finding_by_id : DecisionContext → String → Option AuditFinding
finding_by_id ctx i = find_first (λ f. f.control_id == i) (findings_of ctx.papers)

unfoldable pub deficiency_by_id : DecisionContext → String → Option DeficiencyEvaluation
deficiency_by_id ctx i = find_first (λ e. e.deficiency_id == i) (evaluations_of ctx.report)

abbrev pub all_controls : List Risk → List Control
all_controls [] = []
all_controls (r ∷ rs) = r.controls ++ all_controls rs

-- `key_controls().get(i)`: `setdefault` keeps the first control with that id
unfoldable pub key_control : DecisionContext → String → Option Bool
key_control ctx i =
    elim (find_first (λ (c : Control). c.control_id == i) (all_controls (risks_of ctx.racm))) [
      | none ↦ none
      | some c ↦ c.key_control
    ]

module _ (env : Platform) where
  -- `ctx.digests().get(name)`; `artifact_digest` is the hash of an artifact's JSON
  unfoldable pub digest_of : DecisionContext → String → Option String
  digest_of ctx name =
      if name == "working_papers"
      then elim ctx.papers [ none ↦ none | some p ↦ some (env.digests.sha256 (env.dump_papers p)) ]
      else if name == "final_report"
      then elim ctx.report [ none ↦ none | some r ↦ some (env.digests.sha256 (env.dump_report r)) ]
      else none

-- a text that is there and not empty, as `if d.supersedes` tests it
abbrev pub truthy : Option String → Option String
truthy none = none
truthy (some s) = if s == "" then none else some s

abbrev pub names : Option String → String → Bool
names none i = false
names (some j) i = not (j == "") && j == i

-- `i in {d.supersedes for d in decisions if d.supersedes}`
unfoldable pub is_superseded : List ReviewDecision → String → Bool
is_superseded ds i = any (λ d. names d.supersedes i) ds

pub data DecisionState : Type 0 where
  active superseded stale : DecisionState

abbrev pub is_active : DecisionState → Bool
is_active active = true
is_active _ = false

-- `digests.get(d.artifact) == d.draft_digest`
abbrev pub matches_digest : Option String → String → Bool
matches_digest none digest = false
matches_digest (some j) digest = j == digest

-- the state that one decision has among all, for a reading of the artifacts' digests
unfoldable pub state_of :
    (String → Option String) → List ReviewDecision → ReviewDecision → DecisionState
unfolding is_superseded
state_of digests ds d =
    if is_superseded ds d.decision_id
    then superseded
    else if not (matches_digest (digests d.artifact) d.draft_digest)
    then stale
    else active

-- `decision_states`: `decision_id` → state, in the decisions' order. The ids are unique: `uuid4` makes
-- them, and `record_decision` alone adds decisions.
unfoldable pub decision_states :
    (String → Option String)
    → List ReviewDecision
    → List ReviewDecision
    → List (String × DecisionState)
unfolding state_of
decision_states digests all_ds [] = []
decision_states digests all_ds (d ∷ ds) =
    (d.decision_id, state_of digests all_ds d) ∷ decision_states digests all_ds ds

pub record SlotKey : Type 0 where
  pub slot : String
  pub subject_type : String
  pub subject_id : String

abbrev pub slot_key : ReviewDecision → SlotKey
slot_key d = record {
  slot = slot_of d.decision_type;
  subject_type = subject_value d.subject_type;
  subject_id = d.subject_id;
}

unfoldable pub same_key : SlotKey → SlotKey → Bool
same_key a b = a.slot == b.slot && a.subject_type == b.subject_type && a.subject_id == b.subject_id

-- the active decisions of a slot, oldest first
unfoldable pub active_decisions :
    (String → Option String)
    → List ReviewDecision
    → SlotKey
    → List ReviewDecision
    → List ReviewDecision
active_decisions digests all_ds k ds =
    keep (λ d. is_active (state_of digests all_ds d) && same_key (slot_key d) k) ds

abbrev pub newest : List ReviewDecision → Option ReviewDecision
newest [] = none
newest (d ∷ []) = some d
newest (d ∷ e ∷ ds) = newest (e ∷ ds)

-- `active_by_slot(ctx, decisions).get(key)`: later decisions overwrite earlier ones
unfoldable pub active_for :
    (String → Option String) → List ReviewDecision → SlotKey → Option ReviewDecision
unfolding active_decisions
active_for digests ds k = newest (active_decisions digests ds k ds)

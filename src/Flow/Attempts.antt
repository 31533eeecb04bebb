-- ===== src/Flow/Attempts.antt =====
-- The attempts of a phase's crew in `_run_crew_with_qa`, with `_qa_rejection` and `_evidence_rejection`.
-- A crew is a language model's work: what each of its attempts gives is an argument of the model,
-- and so are the evidence vault, the linters and the checks of pydantic.
pub mod Passing
use grc_audit_swarm.Base.{
  ℕ, zero, suc, ◌+◌, String, Bool, true, false, not, ◌&&◌, ◌||◌, Option, none, some, List, [], ◌∷◌,
  ◌++◌, ◌==◌, value_or, eqb, if◌then◌else◌, concat, join, decimal, length, last?, is_empty, strip,
  keep, Result, ok, err,
}
use grc_audit_swarm.Dict
use grc_audit_swarm.Machine.{
  Phase, one, two, three, AuditStatus, waiting_for_scope, value, is_status, start_phase_1, running,
  qa_rejected, complete_phase, reject_phase,
}
use grc_audit_swarm.Trail.{Entry}
use grc_audit_swarm.Schema.{RiskControlMatrix}
use grc_audit_swarm.Schema.Findings.{WorkingPaper}
use grc_audit_swarm.Schema.Deficiencies.{FinalReport}
use grc_audit_swarm.Decisions.Errors.{AuditError, runtime_error}
use grc_audit_swarm.Decisions.Values.{check}
use grc_audit_swarm.Flow.{Step, moved, with_dossier, with_rejection, without_rejection, fail_phase}
use grc_audit_swarm.Flow.Methods.{◌>>=◌, ◌>>◌, reading, modify, updating}
use grc_audit_swarm.Flow.State.{
  Flow, AuditState, GenerationRun, phase_label, phase_digit, artifact_field,
  review_decisions_required,
}

abbrev pub ArtifactOf : Phase → Type 0
ArtifactOf one = RiskControlMatrix
ArtifactOf two = WorkingPaper
ArtifactOf three = FinalReport

-- A QA result; `approved` is none if it is no Boolean, `rejection_reason` if it is no text.
pub record QaOutput : Type 0 where
  pub approved : Option Bool
  pub rejection_reason : Option String

pub data Attempt (A : Type 0) : Type 0 where
  raised : String → Attempt A
  -- the QA result and the artifact; each is none if the output could not be parsed
  returned : Option QaOutput → Option A → Attempt A

pub record Lint : Type 0 where
  pub passed : Bool
  pub violations : List String
  pub feedback : String

pub record Crew (A : Type 0) : Type 0 where
  -- by the number of the attempt and the feedback among its inputs
  pub attempt : ℕ → String → Attempt A
  -- `_planning_inputs`, `_fieldwork_inputs` or `_reporting_inputs`: the exception that building the
  -- prompts' texts raises, if it does
  pub inputs : Result AuditError (Unit {0})
  -- `_start_generation_run`: the run's record, or the exception that it raises
  pub run : Result AuditError GenerationRun
  -- `unverified_findings`, or the exception's text
  pub unverified : A → Result String (List String)
  -- `lint_phase_artifact`
  pub lint : Option A → Lint
  -- AUDIT_STRICT_LINTER=1
  pub strict_linter : Bool
  -- pydantic's message where the assignment of an artifact to the state fails
  pub invalid : A → Option String
  pub skill_ids : List String

pub unparseable_reason : String
unparseable_reason =
    "QA output could not be parsed into the QA schema — treated as a rejection (QA gates fail closed)."

pub no_reason : String
no_reason = "QA rejected the artifact without giving a reason."

-- the reason of a rejection, if it says anything
abbrev pub reason_text : Option String → String
reason_text none = no_reason
reason_text (some r) = if strip r == "" then no_reason else r

-- `_qa_rejection`
unfoldable pub qa_rejection : Option QaOutput → Option String
qa_rejection none = some unparseable_reason
qa_rejection (some qa) = elim qa.approved [
  | none ↦ some unparseable_reason
  | some true ↦ none
  | some false ↦ some (reason_text qa.rejection_reason)
]

pub evidence_text : List String → String
evidence_text controls = concat (
    "Deterministic evidence check failed for "
    ∷ join ", " controls
    ∷ ": the quoted evidence was not found verbatim in the evidence vault record it cites (or that "
    ∷ "record failed its integrity check). Every tested finding needs a verifiable quote; a finding "
    ∷ "without a quote must be concluded 'Not tested'."
    ∷ [])

pub check_failed_text : String → String
check_failed_text m =
    concat ("Deterministic evidence check could not run (" ∷ m ∷ "); fails closed." ∷ [])

abbrev pub evidence_answer : Result String (List String) → Option String
evidence_answer (err m) = some (check_failed_text m)
evidence_answer (ok []) = none
evidence_answer (ok (c ∷ cs)) = some (evidence_text (c ∷ cs))

-- `_evidence_rejection`
unfoldable pub evidence_rejection :
    (p : Phase) → Crew (ArtifactOf p) → Option (ArtifactOf p) → Option String
evidence_rejection two crew (some a) = evidence_answer (crew.unverified a)
evidence_rejection _ crew _ = none

unfoldable pub linter_reason : Bool → Lint → Option String
linter_reason strict lint = if not lint.passed && strict then some lint.feedback else none

-- `[r for r in reasons if r]`
abbrev pub given : Option String → List String
given none = []
given (some r) = if r == "" then [] else r ∷ []

abbrev pub joined : List String → Option String
joined [] = none
joined (r ∷ rs) = some (join " " (r ∷ rs))

unfoldable pub rejection_of :
    (p : Phase) → Crew (ArtifactOf p) → Option QaOutput → Option (ArtifactOf p) → Option String
rejection_of p crew qa a = joined (
    given (qa_rejection qa)
    ++ (given (evidence_rejection p crew a)
        ++ given (linter_reason crew.strict_linter (crew.lint a))))

-- `_QA_FEEDBACK`
pub feedback_text : Phase → String → String
feedback_text one reason = concat (
    " IMPORTANT: A previous draft was rejected for the following reason — fix all issues before "
    ∷ "re-drafting: " ∷ reason ∷ [])
feedback_text two reason = concat (
    " IMPORTANT: A previous evaluation was rejected — fix the ToD/ToE conclusions and evidence "
    ∷ "issues: " ∷ reason ∷ [])
feedback_text three reason =
    concat (" IMPORTANT: A previous draft was rejected for tone — fix all issues: " ∷ reason ∷ [])

-- how the loop over the attempts ends, with the number of the last attempt
pub data Outcome (A : Type 0) : Type 0 where
  crashed : ℕ → String → Outcome A
  passed : ℕ → Option A → Outcome A
  -- whether QA rejected it, and the rejection
  rejected : ℕ → Option A → Bool → String → Outcome A

abbrev pub is_rejection : Option String → Bool
is_rejection none = false
is_rejection (some _) = true

module _ (p : Phase) (crew : Crew (ArtifactOf p)) (seeded : String) where
  -- What an attempt comes to; `again` goes on after a rejection.
  unfoldable pub settle :
      ℕ
      → Attempt (ArtifactOf p)
      → (Option (ArtifactOf p) → Bool → String → Outcome (ArtifactOf p))
      → Outcome (ArtifactOf p)
  settle n (raised m) again = crashed n m
  settle n (returned qa a) again = elim (rejection_of p crew qa a) [
    | none ↦ passed n a
    | some reason ↦ again a (is_rejection (qa_rejection qa)) reason
  ]

  -- the loop, with the number of attempts that are left after this one
  unfoldable pub attempts : ℕ → ℕ → String → Outcome (ArtifactOf p)
  attempts zero n feedback = settle n (crew.attempt n feedback) (rejected n)
  attempts (suc left) n feedback =
      settle n (crew.attempt n feedback)
        λ a by reason. attempts left (suc n) (concat (seeded ∷ feedback_text p reason ∷ []))

  -- `_MAX_QA_ATTEMPTS` is 2
  unfoldable pub run_attempts : Outcome (ArtifactOf p)
  run_attempts = attempts 1 1 seeded

-- ===== src/Flow/Linted.antt =====
-- `lint_phase_artifact` of src/swarm/audit_flow.py: the linters as the crew's runs call them, and what
-- they hold an artifact to. `sentence` writes a violation's message.
use grc_audit_swarm.Base.{
  ◌⊎◌, ℕ, String, ◌≡◌, ◌≢◌, refl, true, false, Option, none, some, [], ◌∷◌, eq_iff, map, join,
  concat, is_empty, if◌then◌else◌, arith, Result, ok, err, append-NonBlank, Bool-cases, inl, inr,
}
use grc_audit_swarm.Machine.{Phase, one, two, three}
use grc_audit_swarm.Schema.{RiskControlMatrix}
use grc_audit_swarm.Schema.Findings.{WorkingPaper}
use grc_audit_swarm.Schema.Deficiencies.{FinalReport}
use grc_audit_swarm.Decisions.{Platform}
use grc_audit_swarm.Decisions.Errors.{AuditError}
use grc_audit_swarm.Linters
use grc_audit_swarm.Linters.{LintReport, LintViolation, Message, Tools, errors, is_error}
use grc_audit_swarm.Linters.Racm.{lint_racm}
use grc_audit_swarm.Linters.Racm.Clean.{RacmClean, lint_racm-Clean}
use grc_audit_swarm.Linters.Papers.{lint_working_papers}
use grc_audit_swarm.Linters.Papers.Clean.{PapersClean, lint_working_papers-Clean}
use grc_audit_swarm.Linters.Report.{lint_report}
use grc_audit_swarm.Linters.Report.Clean.{ReportClean, lint_report-Clean}
use grc_audit_swarm.Flow.State.{AuditState}
use grc_audit_swarm.Flow.Overlay.{effective_working_papers, deficiency_scale_for_scope}
use grc_audit_swarm.Flow.Attempts.{
  ArtifactOf, Crew, Lint, passed, run_attempts, linter_reason, given,
}
use grc_audit_swarm.Flow.Attempts.Passing.{run_attempts-passed}

abbrev pub icfr_scope : String
icfr_scope =
    "\\b(sox|sarbanes|icfr|internal control over financial reporting|financial reporting|financial statements?|section 404)\\b"

-- `to_feedback`
unfoldable pub to_feedback : (Message → String) → LintReport → String
unfolding errors
to_feedback sentence violations =
    if is_empty (errors violations)
    then ""
    else concat (
        "Deterministic Audit Linter Violations:\n"
        ∷ join "\n" (
            map
              (λ (v : LintViolation).
                concat ("[" ∷ v.rule_id ∷ "] (" ∷ v.subject_id ∷ "): " ∷ sentence v.message ∷ []))
              (errors violations))
        ∷ [])

-- `except Exception`: a linter that raises is skipped, and the report is empty
abbrev pub caught : Result String LintReport → LintReport
caught (err m) = []
caught (ok report) = report

module _ (t : Tools) (env : Platform) (s : AuditState) where
  -- the report against the papers of record; where they raise, the linter is skipped
  unfoldable pub report_lint :
      RiskControlMatrix → FinalReport → Result AuditError (Option WorkingPaper) → LintReport
  unfolding deficiency_scale_for_scope
  report_lint plan report (err e) = []
  report_lint plan report (ok none) = []
  report_lint plan report (ok (some papers)) =
      lint_report t report (some papers) (some plan)
        (some (deficiency_scale_for_scope (t.search icfr_scope) s))

  unfoldable pub planned_lint : (p : Phase) → ArtifactOf p → Option RiskControlMatrix → LintReport
  unfolding report_lint effective_working_papers
  planned_lint one racm plan = lint_racm t true racm
  planned_lint two papers none = []
  planned_lint two papers (some plan) = caught (lint_working_papers t papers (some plan) false 0 1)
  planned_lint three report none = []
  planned_lint three report (some plan) = report_lint plan report (effective_working_papers env s)

  -- an attempt's artifact; for a missing one the state's is taken, and nothing if there is none
  unfoldable pub lint_phase_artifact : (p : Phase) → Option (ArtifactOf p) → LintReport
  unfolding planned_lint
  lint_phase_artifact p (some a) = planned_lint p a s.racm_plan
  lint_phase_artifact one none = elim s.racm_plan [
    | none ↦ []
    | some a ↦ planned_lint one a s.racm_plan
  ]
  lint_phase_artifact two none = elim s.working_papers [
    | none ↦ []
    | some a ↦ planned_lint two a s.racm_plan
  ]
  lint_phase_artifact three none = elim s.final_report [
    | none ↦ []
    | some a ↦ planned_lint three a s.racm_plan
  ]

  -- what the loop over the attempts reads of a report
  unfoldable pub lint_answer : (Message → String) → (p : Phase) → Option (ArtifactOf p) → Lint
  unfolding lint_phase_artifact to_feedback
  lint_answer sentence p a = record {
    passed = Linters.passed (lint_phase_artifact p a);
    violations = map (λ (v : LintViolation). v.rule_id) (errors (lint_phase_artifact p a));
    feedback = to_feedback sentence (lint_phase_artifact p a);
  }

-- the crew's run with the linter of the code
unfoldable pub linted :
    Tools
    → Platform
    → AuditState
    → (Message → String)
    → (p : Phase) → Crew (ArtifactOf p)
    → Crew (ArtifactOf p)
unfolding lint_answer
linted t env s sentence p crew = record crew {
  lint = lint_answer t env s sentence p;
  strict_linter = true;
}

some_kept :
    (violations : LintReport)
    → Linters.passed violations ≡ false
    → is_empty (errors violations) ≡ false
unfolding Linters.passed errors
some_kept [] h = cc
some_kept (v ∷ vs) h = elim (Bool-cases (is_error v.severity)) [
  | inl found ↦ rw (found, errors) refl
  | inr other ↦
      let later : Linters.passed vs ≡ false = rw (other, Linters.passed) at h in
      rw (other, errors) (some_kept vs later)
]

feedback-NonBlank :
    (sentence : Message → String) (violations : LintReport)
    → Linters.passed violations ≡ false
    → to_feedback sentence violations ≢ ""
unfolding to_feedback
feedback-NonBlank sentence violations h e =
    let e' = rw (some_kept violations h, to_feedback) at e in
    append-NonBlank "Deterministic Audit Linter Violations:\n" _ (λ b. cc) e'

strict_reason-passed :
    (l : Lint)
    → (l.passed ≡ false → l.feedback ≢ "")
    → given (linter_reason true l) ≡ []
    → l.passed ≡ true
unfolding linter_reason
strict_reason-passed l n h = elim (Bool-cases l.passed) [
  | inl good ↦ good
  | inr bad ↦
      let e' : given (some l.feedback) ≡ [] = rw (bad, linter_reason) at h in
      absurd (n bad (ground (arith, eq_iff l.feedback "")))
]

module _ (t : Tools) (env : Platform) (s : AuditState) where
  -- what the report is held to: nothing where the papers of record raise or are missing
  abbrev pub ReportHolds :
      RiskControlMatrix → FinalReport → Result AuditError (Option WorkingPaper) → Type 0
  ReportHolds plan report (err e) = Unit {0}
  ReportHolds plan report (ok none) = Unit {0}
  ReportHolds plan report (ok (some papers)) =
      ReportClean t papers plan (deficiency_scale_for_scope (t.search icfr_scope) s) report

  -- the linter raises, so that the papers are not looked at
  abbrev pub Skipped : WorkingPaper → RiskControlMatrix → Type 0
  Skipped papers plan = (m : String) × (lint_working_papers t papers (some plan) false 0 1 ≡ err m)

  -- what an artifact is held to; without a plan the papers and the report are not
  abbrev pub Holds : (p : Phase) → ArtifactOf p → Option RiskControlMatrix → Type 0
  Holds one racm plan = RacmClean t racm
  Holds two papers none = Unit {0}
  Holds two papers (some plan) = PapersClean t plan false 0 1 papers ⊎ Skipped papers plan
  Holds three report none = Unit {0}
  Holds three report (some plan) = ReportHolds plan report (effective_working_papers env s)

  report_lint-Holds :
      (plan : RiskControlMatrix) (report : FinalReport)
      (papers : Result AuditError (Option WorkingPaper))
      → Linters.passed (report_lint t env s plan report papers) ≡ true
      → ReportHolds plan report papers
  unfolding report_lint
  report_lint-Holds plan report (err e) h = tt
  report_lint-Holds plan report (ok none) h = tt
  report_lint-Holds plan report (ok (some papers)) h = lint_report-Clean t papers plan _ report h

  planned_lint-Holds :
      (p : Phase) (a : ArtifactOf p) (plan : Option RiskControlMatrix)
      → Linters.passed (planned_lint t env s p a plan) ≡ true
      → Holds p a plan
  unfolding planned_lint
  planned_lint-Holds one racm plan h = lint_racm-Clean t racm h
  planned_lint-Holds two papers none h = tt
  planned_lint-Holds two papers (some plan) h =
      go (lint_working_papers t papers (some plan) false 0 1) refl h
    where
      go :
          (r : Result String LintReport)
          → lint_working_papers t papers (some plan) false 0 1 ≡ r
          → Linters.passed (caught r) ≡ true
          → PapersClean t plan false 0 1 papers ⊎ Skipped papers plan
      go (err m) e h = inr (m, e)
      go (ok report) e h = inl (lint_working_papers-Clean t papers plan false 0 1 report e h)
  planned_lint-Holds three report none h = tt
  planned_lint-Holds three report (some plan) h = report_lint-Holds plan report _ h

  -- With the strict linter, the artifact that a passing run leaves is a clean matrix; or, if there is a
  -- plan, working papers that are clean against it, without the check of quotes and at a tolerable rate
  -- of 0, unless their linter raises; or a report that is clean against the plan and the papers of
  -- record, if these can be made, on the scale of the engagement's scope.
  pub run_attempts-Holds :
      (sentence : Message → String) (p : Phase) (crew : Crew (ArtifactOf p)) (seeded : String)
      (m : ℕ) (a : ArtifactOf p)
      → run_attempts p (linted t env s sentence p crew) seeded ≡ passed m (some a)
      → Holds p a s.racm_plan
  unfolding linted lint_answer lint_phase_artifact
  run_attempts-Holds sentence p crew seeded m a h =
      let (_, _, shown) =
        run_attempts-passed p (linted t env s sentence p crew) seeded m (some a) h in
      let answer = lint_answer t env s sentence p (some a) in
      let clean =
        strict_reason-passed answer
          (feedback-NonBlank sentence (lint_phase_artifact t env s p (some a))) shown.linter in
      planned_lint-Holds p a s.racm_plan clean

-- ===== src/Linters/Samples.antt =====
-- A matrix of two risks with three controls, with tools that find nothing.
use grc_audit_swarm.Base.{
  if◌then◌else◌, ◌==◌, ◌≤◌, String, ◌≡◌, refl, true, false, List, [], ◌∷◌, some, none, eqb, err, ok,
  ◌*◌, ◌+◌,
}
use grc_audit_swarm.Schema.{
  Control, ControlTesting, ControlTestStep, Risk, RiskControlMatrix, RiskRating, manual,
  it_dependent_manual, monthly, daily, detective, random,
}
use grc_audit_swarm.Sampling.{recommended_sample_size}
use grc_audit_swarm.Schema.Findings.{
  AuditFinding, WorkingPaper, DesignConclusion, OperatingConclusion, FindingResult,
}
use grc_audit_swarm.Linters.Papers.{lint_working_papers}
use grc_audit_swarm.Linters.Papers.Clean.{PapersClean, lint_working_papers-Clean}
use grc_audit_swarm.Schema.Deficiencies.{FinalReport, DeficiencyClassification, risk_rating}
use grc_audit_swarm.Linters.Report.{lint_report}
use grc_audit_swarm.Linters.Report.Clean.{ReportClean, lint_report-Clean}
use grc_audit_swarm.Linters.{Tools, passed}
use grc_audit_swarm.Linters.Racm.{lint_racm, lint_size}
use grc_audit_swarm.Linters.Racm.Clean.{RacmClean, lint_racm-Clean}
use grc_audit_swarm.Linters.Racm.Sizes.{recommended_sample_size-passed}

abbrev pub tools : Tools
tools = record {
  search = λ pattern text. false;
  matched = λ pattern text. none;
  found_number = λ pattern text. none;
  full_match = λ pattern text. false;
  has_phrase = λ phrase text. false;
  find_all = λ pattern text. if text == "CTRL-2" then "CTRL-2" ∷ [] else [];
  lower = λ text. text;
  verify_exact_quote = λ vault_id quote. true;
  collected = λ vault_id. none;
  iso_date = λ text. none;
  timestamp_date = λ text. none;
  year_start = λ year. if eqb year 0 then err "year 0 is out of range" else ok (365 * year);
  year_end = λ year. if eqb year 0 then err "year 0 is out of range" else ok (365 * year + 364);
}

abbrev step : ControlTestStep
step = record { step_description = "Inspect the export"; expected_result = "All enabled" }

abbrev testing : ControlTesting
testing = record {
  test_of_design = step ∷ [];
  test_of_effectiveness = step ∷ [];
  substantive_testing = some (step ∷ []);
  population = some (record { source = "HR"; completeness_procedure = "Reconcile to payroll" });
  sample_size = some 2;
  sampling_method = some random;
  period_of_reliance = some "FY 2025";
}

abbrev control : String → Control
control cid = record {
  control_id = cid;
  description = "Access is reviewed";
  control_owner = some "IT";
  frequency = some monthly;
  nature = some it_dependent_manual;
  control_type = some detective;
  key_control = some true;
  assertions = [];
  ipe = "User list" ∷ [];
  testing_procedures = testing;
}

abbrev risk : String → List Control → Risk
risk id controls = record {
  risk_id = id;
  description = "Access is not revoked";
  likelihood = none;
  impact = none;
  rating_rationale = none;
  regulatory_mapping = "NIST SP 800-53" ∷ [];
  controls = controls;
}

abbrev pub racm : RiskControlMatrix
racm = record {
  theme = "Access";
  risks =
      risk "R-1" (control "CTRL-1" ∷ control "CTRL-2" ∷ [])
      ∷ risk "R-2" (control "CTRL-3" ∷ [])
      ∷ [];
}

racm-passes : passed (lint_racm tools true racm) ≡ true
unfolding passed lint_racm
racm-passes = refl

-- a control id that two risks share is an error
duplicate-fails :
    passed (
      lint_racm tools true (record racm {
        risks = risk "R-1" (control "CTRL-1" ∷ []) ∷ risk "R-2" (control "CTRL-1" ∷ []) ∷ [];
      }))
    ≡ false
unfolding passed lint_racm
duplicate-fails = refl

lint_racm-Clean_example : RacmClean tools racm
lint_racm-Clean_example = lint_racm-Clean tools racm racm-passes

recommended_sample_size-passed_example :
    (passed (
        lint_size tools "CTRL-1"
          (some daily)
          (some (recommended_sample_size daily manual RiskRating.medium)))
      ≡ true)
    × (recommended_sample_size daily manual RiskRating.medium
        ≤ recommended_sample_size daily manual RiskRating.high)
recommended_sample_size-passed_example =
    recommended_sample_size-passed tools "CTRL-1" daily manual RiskRating.medium refl

abbrev finding : String → AuditFinding
finding cid = record {
  control_id = cid;
  vault_id_reference = "7b0c3c56-5d0c-4f7e-9f39-0d4f1c1e2a11";
  exact_quote_from_evidence = "25 of 25 users reviewed";
  tod_conclusion = DesignConclusion.effective;
  toe_conclusion = OperatingConclusion.effective;
  toe_basis = some "Inspection";
  items_tested = some 2;
  exceptions_noted = some 0;
  result = some FindingResult.no_exception;
  preliminary_deficiency = some false;
  test_conclusion = "No exceptions were noted";
  legacy_severity = none;
}

abbrev pub papers : WorkingPaper
papers = record {
  theme = "Access";
  findings = finding "CTRL-2" ∷ finding "CTRL-1" ∷ finding "CTRL-3" ∷ [];
}

papers-pass : lint_working_papers tools papers (some racm) true 0 1 ≡ ok []
unfolding lint_working_papers
papers-pass = refl

nothing-passed : passed [] ≡ true
unfolding passed
nothing-passed = refl

-- a fiscal year 0, in the period of each control
abbrev dated : Tools
dated = record tools { found_number = λ pattern text. if text == "FY 2025" then some 0 else none }

year_0-raises : lint_working_papers dated papers (some racm) true 0 1 ≡ err "year 0 is out of range"
unfolding lint_working_papers
year_0-raises = refl

lint_working_papers-Clean_example : PapersClean tools racm true 0 1 papers
lint_working_papers-Clean_example =
    lint_working_papers-Clean tools papers racm true 0 1 [] papers-pass nothing-passed

abbrev failed : AuditFinding
failed = record (finding "CTRL-1") {
  toe_conclusion = OperatingConclusion.exceptions_noted;
  exceptions_noted = some 1;
  result = some FindingResult.exception;
  preliminary_deficiency = some true;
}

abbrev failed_papers : WorkingPaper
failed_papers = record { theme = "Access"; findings = failed ∷ finding "CTRL-2" ∷ [] }

abbrev report : FinalReport
report = record {
  executive_summary = "One exception was noted.";
  detailed_report = "See DEF-1.";
  compliance_tone_approved = true;
  deficiency_evaluations =
      record {
        deficiency_id = "DEF-1";
        title = "Late review";
        related_findings = "CTRL-1" ∷ [];
        related_risks = "R-1" ∷ [];
        compensating_controls = "CTRL-2";
        likelihood = RiskRating.medium;
        magnitude = RiskRating.low;
        classification = DeficiencyClassification.medium;
        rationale = "One of two reviews was late";
      }
      ∷ [];
  deficiency_scale = some risk_rating;
}

report-passes :
    passed (lint_report tools report (some failed_papers) (some racm) (some risk_rating)) ≡ true
unfolding passed lint_report
report-passes = refl

lint_report-Clean_example : ReportClean tools failed_papers racm risk_rating report
lint_report-Clean_example =
    lint_report-Clean tools failed_papers racm risk_rating report report-passes

-- ===== src/Linters/Racm.antt =====
-- `lint_racm` of src/swarm/linters.py: the rules on a risk and control matrix.
pub mod Clean
pub mod Sizes
use grc_audit_swarm.Base.{
  ℕ, String, Bool, true, false, not, ◌&&◌, ◌||◌, Option, none, some, List, [], ◌∷◌, ◌++◌, ◌==◌, any,
  contains, is_empty, is_some, is_blank, strip, ltb, map, if◌then◌else◌,
}
use grc_audit_swarm.Schema.{
  Control, ControlTesting, Risk, RiskControlMatrix, Population, ControlTestStep, ControlFrequency,
  ControlNature, SamplingMethod, manual, automated, it_dependent_manual, annual, quarterly, monthly,
  weekly, daily, multiple_times_per_day, event_driven, continuous, test_of_one, full_population,
}
use grc_audit_swarm.Linters.{
  LintViolation, LintReport, Tools, violation, report_if, each, checks, joined, Message,
  check_slop_text, no_risks, missing_design_steps, missing_effectiveness_steps,
  missing_substantive_testing, missing_period, missing_sampling_method, missing_ipe,
  missing_completeness, auditing_standard_cited, no_controls, duplicate_control, missing_attribute,
  test_of_one_invalid, sample_too_small,
}

unfoldable pub auditing_standard_patterns : List String
auditing_standard_patterns =
    "\\bPCAOB\\b" ∷ "\\bAS\\s*(?:1105|1215|2101|2110|2201|2301|2315)\\b"
    ∷ "\\bIIA\\s+(?:Standard|IPPF|GIAS)\\b" ∷ "\\bISA\\s+\\d{3}\\b" ∷ "\\bAT-C\\s+\\d{3}\\b"
    ∷ "\\bSSAE\\s*18\\b" ∷ "\\bISAE\\s*3402\\b" ∷ []

-- AICPA_MIN_SAMPLE_SIZE_BY_FREQUENCY
unfoldable pub min_sample_size : ControlFrequency → ℕ
min_sample_size annual = 1
min_sample_size quarterly = 2
min_sample_size monthly = 2
min_sample_size weekly = 5
min_sample_size daily = 20
min_sample_size multiple_times_per_day = 25
min_sample_size continuous = 1
min_sample_size event_driven = 1

-- `nature in (MANUAL, IT_DEPENDENT_MANUAL)`
abbrev pub is_manual : Option ControlNature → Bool
is_manual (some manual) = true
is_manual (some it_dependent_manual) = true
is_manual _ = false

abbrev pub is_it_dependent : Option ControlNature → Bool
is_it_dependent (some it_dependent_manual) = true
is_it_dependent _ = false

abbrev pub is_test_of_one : Option SamplingMethod → Bool
is_test_of_one (some test_of_one) = true
is_test_of_one _ = false

abbrev pub is_full_population : Option SamplingMethod → Bool
is_full_population (some full_population) = true
is_full_population _ = false

-- `frequency not in (ANNUAL, None)`
abbrev pub is_repeated : Option ControlFrequency → Bool
is_repeated none = false
is_repeated (some annual) = false
is_repeated (some _) = true

-- `not steps` of steps that may be missing
abbrev pub no_steps : Option (List ControlTestStep) → Bool
no_steps none = true
no_steps (some steps) = is_empty steps

-- `not text` of a text that may be missing
abbrev pub no_text : Option String → Bool
no_text none = true
no_text (some s) = s == ""

module _ (t : Tools) where
  -- a population without a concrete completeness procedure
  unfoldable pub incomplete_population : Option Population → Bool
  unfolding is_blank strip
  incomplete_population none = true
  incomplete_population (some p) =
      is_blank p.completeness_procedure
      || t.lower (strip p.completeness_procedure) == "not specified"

  unfoldable pub cites_auditing_standard : String → Bool
  unfolding auditing_standard_patterns
  cites_auditing_standard mapping = any (λ pat. t.search pat mapping) auditing_standard_patterns

  -- the attributes and steps that only the strict mode wants
  unfoldable pub attribute_checks : Control → List (Bool × String × Message)
  attribute_checks c =
      let tp = c.testing_procedures in
      (not (is_some c.control_owner), "D6", missing_attribute "control_owner")
      ∷ (not (is_some c.frequency), "D6", missing_attribute "frequency")
      ∷ (not (is_some c.nature), "D6", missing_attribute "nature")
      ∷ (not (is_some c.control_type), "D6", missing_attribute "control_type")
      ∷ (not (is_some c.key_control), "D6", missing_attribute "key_control")
      ∷ (no_steps tp.substantive_testing, "D6", missing_substantive_testing)
      ∷ (no_text tp.period_of_reliance, "D6", missing_period)
      ∷ (not (is_some tp.sampling_method), "D6", missing_sampling_method)
      ∷ []

  unfoldable pub ipe_checks : Bool → Control → List (Bool × String × Message)
  unfolding incomplete_population
  ipe_checks strict c =
      (is_it_dependent c.nature && is_empty c.ipe, "D10", missing_ipe)
      ∷ (
        (not (is_empty c.ipe) || is_manual c.nature)
            && (strict && incomplete_population c.testing_procedures.population),
        "D10",
        missing_completeness,
      )
      ∷ []

  -- the sample size of a control with a frequency, if it is stated
  unfoldable pub lint_size : String → Option ControlFrequency → Option ℕ → LintReport
  unfolding min_sample_size
  lint_size cid (some frequency) (some size) =
      report_if (ltb size (min_sample_size frequency))
        (violation "D7" cid (sample_too_small size frequency (min_sample_size frequency)))
  lint_size cid _ _ = []

  unfoldable pub lint_sampling : Control → LintReport
  unfolding lint_size
  lint_sampling c =
      let tp = c.testing_procedures in
      if is_manual c.nature && not (is_full_population tp.sampling_method)
      then lint_size c.control_id c.frequency tp.sample_size
      else []

  unfoldable pub structure_checks : List String → Control → List (Bool × String × Message)
  structure_checks seen c =
      let tp = c.testing_procedures in
      (contains seen c.control_id, "D1", duplicate_control c.control_id)
      ∷ (is_empty tp.test_of_design, "D6", missing_design_steps)
      ∷ (is_empty tp.test_of_effectiveness, "D6", missing_effectiveness_steps)
      ∷ []

  unfoldable pub test_of_one_checks : Control → List (Bool × String × Message)
  test_of_one_checks c =
      let tp = c.testing_procedures in
      (
        is_test_of_one tp.sampling_method && is_manual c.nature && is_repeated c.frequency,
        "D7",
        test_of_one_invalid c.nature c.frequency,
      )
      ∷ []

  -- one round of the loop over a risk's controls, after the control ids `seen`: its parts in turn
  unfoldable pub control_reports : Bool → List String → Control → List LintReport
  unfolding structure_checks attribute_checks ipe_checks test_of_one_checks lint_sampling
      check_slop_text
  control_reports strict seen c =
      checks c.control_id (structure_checks seen c)
      ∷ (if strict then checks c.control_id (attribute_checks c) else [])
      ∷ checks c.control_id (ipe_checks strict c)
      ∷ checks c.control_id (test_of_one_checks c)
      ∷ lint_sampling c
      ∷ check_slop_text t c.description c.control_id
      ∷ []

  unfoldable pub lint_control : Bool → List String → Control → LintReport
  unfolding control_reports
  lint_control strict seen c = joined (control_reports strict seen c)

  unfoldable pub lint_controls : Bool → List String → List Control → LintReport
  unfolding lint_control
  lint_controls strict seen [] = []
  lint_controls strict seen (c ∷ cs) =
      lint_control strict seen c ++ lint_controls strict (c.control_id ∷ seen) cs

  unfoldable pub seen_after : List String → List Control → List String
  seen_after seen [] = seen
  seen_after seen (c ∷ cs) = seen_after (c.control_id ∷ seen) cs

  unfoldable pub risk_reports : Bool → List String → Risk → List LintReport
  unfolding cites_auditing_standard lint_controls
  risk_reports strict seen r =
      each
        (λ m. checks r.risk_id ((cites_auditing_standard m, "D13", auditing_standard_cited m) ∷ []))
        r.regulatory_mapping
      ∷ checks r.risk_id ((is_empty r.controls, "D6", no_controls r.risk_id) ∷ [])
      ∷ lint_controls strict seen r.controls
      ∷ []

  unfoldable pub lint_risk : Bool → List String → Risk → LintReport
  unfolding risk_reports
  lint_risk strict seen r = joined (risk_reports strict seen r)

  unfoldable pub lint_risks : Bool → List String → List Risk → LintReport
  unfolding lint_risk seen_after
  lint_risks strict seen [] = []
  lint_risks strict seen (r ∷ rs) =
      lint_risk strict seen r ++ lint_risks strict (seen_after seen r.controls) rs

  unfoldable pub lint_racm : Bool → RiskControlMatrix → LintReport
  unfolding lint_risks
  lint_racm strict racm =
      if is_empty racm.risks
      then violation "D6" "RACM" no_risks ∷ []
      else lint_risks strict [] racm.risks

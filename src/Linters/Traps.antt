-- ===== src/Linters/Traps.antt =====
-- `lint_distortion_traps` of src/swarm/linters.py: the five traps in which a finding distorts its quote.
use grc_audit_swarm.Base.{
  ℕ, String, Bool, true, false, ◌&&◌, ◌||◌, Option, none, some, List, [], ◌∷◌, ◌++◌, ◌==◌, strip,
  ltb, eqb, map, join, concat, value_or, if◌then◌else◌,
}
use grc_audit_swarm.Schema.{Control, ControlTestStep, ControlNature, automated}
use grc_audit_swarm.Schema.Findings.{
  AuditFinding, DesignConclusion, FindingResult, is_effective, same_result,
}
use grc_audit_swarm.Linters.{
  LintReport, Tools, each, checks, joined, polarity_inversion, scope_generalised,
  snapshot_without_basis, threshold_mismatch, citation_dumping,
}
use grc_audit_swarm.Linters.Racm.{is_test_of_one}

-- a pattern and what it shows
unfoldable pub inversion_patterns : List (String × String)
inversion_patterns =
    ("\"MFA_Enabled\"\\s*:\\s*\"No\"", "quote shows MFA_Enabled is 'No'")
    ∷ ("\"Verdict\"\\s*:\\s*\"PUBLIC\"", "quote shows bucket Verdict is 'PUBLIC'")
    ∷ ("No IAM account password policy is set", "quote states no password policy is set")
    ∷ ("\"BlockPublicAcls\"\\s*:\\s*false", "quote shows BlockPublicAcls is false")
    ∷ ("\"AccountMFAEnabled\"\\s*:\\s*0\\b", "quote shows root AccountMFAEnabled is 0 (disabled)")
    ∷ (
      "\"AccountAccessKeysPresent\"\\s*:\\s*[1-9]\\d*\\b",
      "quote shows root access keys are present",
    )
    ∷ []

abbrev pub design_effective : DesignConclusion → Bool
design_effective DesignConclusion.effective = true
design_effective _ = false

-- `finding.result == r`
abbrev pub has_result : FindingResult → Option FindingResult → Bool
has_result r none = false
has_result r (some s) = same_result s r

unfoldable pub claims_effective : AuditFinding → Bool
claims_effective f =
    (design_effective f.tod_conclusion || is_effective f.toe_conclusion)
    && has_result FindingResult.no_exception f.result

-- the quote without the white space around it
unfoldable pub quote_of : AuditFinding → String
unfolding strip
quote_of f = strip f.exact_quote_from_evidence

-- `items_tested in (None, 1)`
abbrev pub at_most_one : Option ℕ → Bool
at_most_one none = true
at_most_one (some n) = eqb n 1

abbrev pub is_automated : Option ControlNature → Bool
is_automated (some automated) = true
is_automated _ = false

-- a control that is unknown, automated or tested by one item
abbrev pub point_in_time : Option Control → Bool
point_in_time none = true
point_in_time (some c) =
    is_automated c.nature || is_test_of_one c.testing_procedures.sampling_method

-- `(toe_basis or "").strip()` is empty
unfoldable pub without_basis : Option String → Bool
unfolding strip
without_basis basis = strip (value_or basis "") == ""

unfoldable pub steps_text : Control → String
steps_text c = join " " (
    map (λ (s : ControlTestStep). concat (s.step_description ∷ " " ∷ s.expected_result ∷ []))
      (c.testing_procedures.test_of_design ++ c.testing_procedures.test_of_effectiveness))

module _ (t : Tools) where
  unfoldable pub inversion_reports : AuditFinding → LintReport
  unfolding inversion_patterns quote_of
  inversion_reports f =
      each
        (λ (pattern : String × String).
          checks f.control_id
            ((t.search pattern.0 (quote_of f), "TRAP-1", polarity_inversion pattern.1) ∷ []))
        inversion_patterns

  unfoldable pub partial_visibility : AuditFinding → Bool
  unfolding quote_of
  partial_visibility f =
      t.search "\"Verdict\"\\s*:\\s*\"UNKNOWN\"" (quote_of f)
      || t.search "\"AccessDenied\"" (quote_of f)

  -- the threshold that the control's steps state, or 14
  unfoldable pub required_length : Control → ℕ
  unfolding steps_text
  required_length c =
      value_or
        (t.found_number
          "(?:minimum\\s+length|at\\s+least|>=?)\\s*(?:of\\s*(?:at\\s*least\\s*)?)?(\\d+)"
          (steps_text c))
        14

  unfoldable pub length_report : AuditFinding → Option Control → LintReport
  unfolding quote_of required_length
  length_report f none = []
  length_report f (some c) =
      elim (t.found_number "MinimumPasswordLength[\"\\s:=]+(\\d+)" (quote_of f)) [
        | none ↦ []
        | some actual ↦ checks f.control_id (
            (
              ltb actual (required_length c),
              "TRAP-4",
              threshold_mismatch actual (required_length c),
            )
            ∷ [])
      ]

  unfoldable pub trap_reports : AuditFinding → Option Control → List LintReport
  unfolding quote_of claims_effective inversion_reports partial_visibility without_basis
      length_report
  trap_reports f control =
      (if claims_effective f then inversion_reports f else [])
      ∷ checks f.control_id (
          (claims_effective f && partial_visibility f, "TRAP-2", scope_generalised)
          ∷ (
            is_effective f.toe_conclusion
                && (at_most_one f.items_tested
                    && point_in_time control
                    && without_basis f.toe_basis),
            "TRAP-3",
            snapshot_without_basis,
          )
          ∷ [])
      ∷ (if claims_effective f then length_report f control else [])
      ∷ checks f.control_id (
          (
            t.full_match
                "[\\s\\{\\}\\[\\]\",:]*(\"AccountId\"|\"ResponseMetadata\"|\"RequestId\")[\\s\\S]{0,40}"
                (quote_of f),
            "TRAP-5",
            citation_dumping,
          )
          ∷ [])
      ∷ []

  -- an untested finding, and one without a quote, is in no trap
  unfoldable pub lint_distortion_traps : AuditFinding → Option Control → LintReport
  unfolding quote_of trap_reports
  lint_distortion_traps f control =
      if has_result FindingResult.not_tested f.result || quote_of f == ""
      then []
      else joined (trap_reports f control)

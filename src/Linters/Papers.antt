-- ===== src/Linters/Papers.antt =====
-- `lint_working_papers` of src/swarm/linters.py: the rules on the findings. The tolerable rate is a
-- fraction, with which the deviation rate is compared exactly.
pub mod Clean
use grc_audit_swarm.Base.{
  ℕ, ◌+◌, ◌*◌, String, Bool, true, false, not, ◌&&◌, ◌||◌, Option, none, some, List, [], ◌∷◌, ◌++◌,
  ◌==◌, any, contains, is_empty, is_some, strip, ltb, leb, map, keep, join, value_or, min, max,
  if◌then◌else◌, Result, err, ok, ◌>>=◌,
}
use grc_audit_swarm.Store.{lookup, assign}
use grc_audit_swarm.Schema.{Control, Risk, RiskControlMatrix}
use grc_audit_swarm.Schema.Findings.{
  AuditFinding, WorkingPaper, OperatingConclusion, FindingResult, is_effective,
}
use grc_audit_swarm.Linters.{
  LintReport, LintViolation, Tools, Message, violation, warning, report_if, each, checks, joined,
  check_slop_text, findings_missing, findings_extra, more_exceptions_than_items,
  untested_with_items, deficiency_mismatch, uncited_evidence, quote_unverified, unreliable_itgcs,
  collected_outside_period, deviation_rate,
}
use grc_audit_swarm.Linters.Racm.{no_text}
use grc_audit_swarm.Linters.Traps.{has_result, quote_of, lint_distortion_traps}

abbrev pub Controls : Type 0
Controls = List (String × Control)

abbrev pub Findings : Type 0
Findings = List (String × AuditFinding)

-- the controls of a matrix by their id: of those that share one the last counts
unfoldable pub add_controls : List Control → Controls → Controls
unfolding assign
add_controls [] by_id = by_id
add_controls (c ∷ cs) by_id = add_controls cs (assign c.control_id c by_id)

unfoldable pub controls_from : List Risk → Controls → Controls
unfolding add_controls
controls_from [] by_id = by_id
controls_from (r ∷ rs) by_id = controls_from rs (add_controls r.controls by_id)

unfoldable pub controls_by_id : Option RiskControlMatrix → Controls
unfolding controls_from
controls_by_id none = []
controls_by_id (some racm) = controls_from racm.risks []

unfoldable pub findings_from : List AuditFinding → Findings → Findings
unfolding assign
findings_from [] by_id = by_id
findings_from (f ∷ fs) by_id = findings_from fs (assign f.control_id f by_id)

abbrev pub ids {ℓ} : {A : Type ℓ} → List (String × A) → List String
ids by_id = map (λ e. e.0) by_id

abbrev pub paper_ids : WorkingPaper → List String
paper_ids papers = map (λ f. f.control_id) papers.findings

unfoldable pub missing_ids : Controls → WorkingPaper → List String
missing_ids controls papers = keep (λ cid. not (contains (paper_ids papers) cid)) (ids controls)

unfoldable pub extra_ids : Controls → WorkingPaper → List String
extra_ids controls papers = keep (λ cid. not (contains (ids controls) cid)) (paper_ids papers)

-- the 1-to-1 cover, which is only wanted against a matrix
unfoldable pub cover_reports : Option RiskControlMatrix → WorkingPaper → LintReport
unfolding controls_by_id missing_ids extra_ids
cover_reports none papers = []
cover_reports (some racm) papers =
    let controls = controls_by_id (some racm) in
    report_if (not (is_empty (missing_ids controls papers))) (
      violation "D1" (join "," (missing_ids controls papers))
        (findings_missing (missing_ids controls papers)))
    ++ report_if (not (is_empty (extra_ids controls papers))) (
        violation "D1" (join "," (extra_ids controls papers))
          (findings_extra (extra_ids controls papers)))

-- `exceptions_noted > items_tested` where both are stated
abbrev pub too_many : Option ℕ → Option ℕ → Bool
too_many (some items) (some exceptions) = ltb items exceptions
too_many _ _ = false

-- `preliminary_deficiency != expected`
abbrev pub differs : Option Bool → Bool → Bool
differs none expected = true
differs (some true) expected = not expected
differs (some false) expected = expected

unfoldable pub arithmetic_checks : AuditFinding → List (Bool × String × Message)
arithmetic_checks f =
    (
      too_many f.items_tested f.exceptions_noted,
      "D2",
      more_exceptions_than_items (value_or f.exceptions_noted 0) (value_or f.items_tested 0),
    )
    ∷ (
      has_result FindingResult.not_tested f.result
          && (ltb 0 (value_or f.items_tested 0) || ltb 0 (value_or f.exceptions_noted 0)),
      "D2",
      untested_with_items,
    )
    ∷ (
      differs f.preliminary_deficiency (has_result FindingResult.exception f.result),
      "D3",
      deficiency_mismatch f.preliminary_deficiency f.result,
    )
    ∷ []

-- a deviation rate above `numerator / denominator`, of stated and positive counts
abbrev pub above_rate : ℕ → ℕ → Option ℕ → Option ℕ → Bool
above_rate numerator denominator (some items) (some exceptions) =
    ltb 0 items && (ltb 0 exceptions && ltb (numerator * items) (exceptions * denominator))
above_rate numerator denominator _ _ = false

unfoldable pub vault_id : AuditFinding → String
unfolding strip
vault_id f = strip f.vault_id_reference

-- whether the ITGC was found, and found effective
abbrev pub operates : Option AuditFinding → Bool
operates none = false
operates (some f) = is_effective f.toe_conclusion

-- the ordinal of `datetime.date.max`
unfoldable pub last_date : ℕ
last_date = 3652059

module _ (t : Tools) where
  unfoldable pub is_change_control : String → Bool
  is_change_control text =
      t.search "change[-\\s]?management|program\\s+change|cc8\\.1|cm-\\d+|bai06|chg" text

  unfoldable pub change_management_ids : Controls → List String
  unfolding is_change_control
  change_management_ids controls = ids (
      keep
        (λ (e : String × Control).
          is_change_control e.1.description
          || is_change_control e.0
          || any is_change_control e.1.assertions)
        controls)

  -- a conclusion that relies on change management, without a history of the configuration
  unfoldable pub relies_on_itgcs : AuditFinding → Bool
  relies_on_itgcs f =
      is_effective f.toe_conclusion
      && (not (no_text f.toe_basis)
          && (t.search "change[-\\s]?management|itgc|general\\s+it\\s+control"
                (value_or f.toe_basis "")
              && not (
                  t.search "aws\\s+config|config\\s+history|cloudtrail\\s+history|historical\\s+log"
                    (value_or f.toe_basis ""))))

  unfoldable pub failed_itgcs : Findings → List String → AuditFinding → List String
  unfolding lookup
  failed_itgcs findings change_ids f =
      keep (λ i. not (i == f.control_id) && not (operates (lookup i findings))) change_ids

  unfoldable pub quote_checks : AuditFinding → List (Bool × String × Message)
  unfolding quote_of vault_id
  quote_checks f =
      let tested = not (has_result FindingResult.not_tested f.result) in
      let uncited = quote_of f == "" || vault_id f == "" in
      (tested && uncited, "D11", uncited_evidence)
      ∷ (
        tested && (not uncited && not (t.verify_exact_quote (vault_id f) (quote_of f))),
        "D11",
        quote_unverified (vault_id f),
      )
      ∷ []

  -- the year of `_extract_year_bounds`, which raises for one that no date has
  unfoldable pub fiscal_bounds : String → Result String (Option (ℕ × ℕ))
  fiscal_bounds text = elim (t.found_number "\\bFY\\s*(\\d{4})\\b" text) [
    | none ↦ ok none
    | some year ↦ t.year_start year >>= λ start. t.year_end year >>= λ end. ok (some (start, end))
  ]

  abbrev pub both_dates : Option ℕ → Option ℕ → Option (ℕ × ℕ)
  both_dates (some a) (some b) = some (min a b, max a b)
  both_dates _ _ = none

  unfoldable pub iso_bounds : List String → Option (ℕ × ℕ)
  iso_bounds (a ∷ b ∷ _) = both_dates (t.iso_date a) (t.iso_date b)
  iso_bounds _ = none

  -- `_extract_year_bounds`
  unfoldable pub extract_year_bounds : String → Result String (Option (ℕ × ℕ))
  unfolding fiscal_bounds iso_bounds
  extract_year_bounds text =
      if text == ""
      then ok none
      else elim (iso_bounds (t.find_all "\\b(\\d{4}-\\d{2}-\\d{2})\\b" text)) [
        | none ↦ fiscal_bounds text
        | some bounds ↦ ok (some bounds)
      ]

  -- the 90 days after a date, which raise beyond the last date that there is
  unfoldable pub buffer_end : ℕ → Result String ℕ
  unfolding last_date
  buffer_end end = if ltb last_date (end + 90) then err "date value out of range" else ok (end + 90)

  abbrev pub outside_period : String → ℕ → ℕ → ℕ → LintReport
  outside_period cid date start end =
      record {
        rule_id = "D11";
        subject_id = cid;
        message = collected_outside_period date start end;
        severity = warning;
      }
      ∷ []

  -- the warning on evidence collected outside the period and the 90 days after it
  abbrev pub period_warning : String → Option ℕ → Option (ℕ × ℕ) → Result String LintReport
  period_warning cid (some date) (some (start, end)) =
      if ltb date start
      then ok (outside_period cid date start end)
      else (buffer_end end >>= λ limit.
          ok (if ltb limit date then outside_period cid date start end else []))
  period_warning cid _ _ = ok []

  abbrev pub collected_warning : String → Option String → Option (ℕ × ℕ) → Result String LintReport
  collected_warning cid none bounds = ok []
  collected_warning cid (some collected) bounds =
      if collected == "" then ok [] else period_warning cid (t.timestamp_date collected) bounds

  unfoldable pub period_report : AuditFinding → Option Control → Result String LintReport
  unfolding extract_year_bounds buffer_end
  period_report f none = ok []
  period_report f (some c) =
      if no_text c.testing_procedures.period_of_reliance || f.vault_id_reference == ""
      then ok []
      else (extract_year_bounds (value_or c.testing_procedures.period_of_reliance "")
          >>= collected_warning f.control_id (t.collected f.vault_id_reference))

  -- one round of the loop over the findings: its parts in turn, with that on the period
  unfoldable pub finding_reports :
      Controls → Findings → Bool → ℕ → ℕ → AuditFinding → LintReport → List LintReport
  unfolding arithmetic_checks quote_checks relies_on_itgcs failed_itgcs change_management_ids
      lint_distortion_traps check_slop_text lookup
  finding_reports controls findings verify numerator denominator f period =
      let failed = failed_itgcs findings (change_management_ids controls) f in
      checks f.control_id (arithmetic_checks f)
      ∷ (if verify then checks f.control_id (quote_checks f) else [])
      ∷ checks f.control_id
          ((relies_on_itgcs f && not (is_empty failed), "D8", unreliable_itgcs failed) ∷ [])
      ∷ period
      ∷ checks f.control_id (
          (
            above_rate numerator denominator f.items_tested f.exceptions_noted
                && is_effective f.toe_conclusion,
            "D12",
            deviation_rate (value_or f.exceptions_noted 0) (value_or f.items_tested 0),
          )
          ∷ [])
      ∷ lint_distortion_traps t f (lookup f.control_id controls)
      ∷ check_slop_text t f.test_conclusion f.control_id
      ∷ []

  unfoldable pub lint_finding :
      Controls → Findings → Bool → ℕ → ℕ → AuditFinding → Result String LintReport
  unfolding period_report finding_reports lookup
  lint_finding controls findings verify numerator denominator f =
      period_report f (lookup f.control_id controls) >>= λ period.
      ok (joined (finding_reports controls findings verify numerator denominator f period))

  -- the loop over the findings
  unfoldable pub lint_findings :
      Controls → Findings → Bool → ℕ → ℕ → List AuditFinding → Result String LintReport
  unfolding lint_finding
  lint_findings controls findings verify numerator denominator [] = ok []
  lint_findings controls findings verify numerator denominator (f ∷ fs) =
      lint_finding controls findings verify numerator denominator f >>= λ first.
      lint_findings controls findings verify numerator denominator fs >>= λ rest. ok (first ++ rest)

  -- the report, or the text of the exception that a date raises
  unfoldable pub lint_working_papers :
      WorkingPaper → Option RiskControlMatrix → Bool → ℕ → ℕ → Result String LintReport
  unfolding cover_reports controls_by_id findings_from lint_findings
  lint_working_papers papers racm verify numerator denominator =
      lint_findings (controls_by_id racm) (findings_from papers.findings []) verify numerator
        denominator papers.findings
      >>= λ reports. ok (cover_reports racm papers ++ reports)

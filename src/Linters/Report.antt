-- ===== src/Linters/Report.antt =====
-- `lint_deficiency_evaluations` and `lint_report` of src/swarm/linters.py: the rules on the report.
pub mod Clean
use grc_audit_swarm.Base.{
  String, Bool, true, false, not, ◌&&◌, ◌||◌, Option, none, some, List, [], ◌∷◌, ◌++◌, ◌==◌,
  contains, is_empty, is_some, strip, map, keep, join, if◌then◌else◌,
}
use grc_audit_swarm.Store.{lookup}
use grc_audit_swarm.Schema.{Risk, RiskControlMatrix}
use grc_audit_swarm.Schema.Findings.{AuditFinding, WorkingPaper, FindingResult, is_effective}
use grc_audit_swarm.Schema.Deficiencies.{
  DeficiencyScale, icfr, risk_rating, DeficiencyEvaluation, FinalReport, is_on_scale,
  unsupported_weakness,
}
use grc_audit_swarm.Linters.{
  LintReport, Tools, Message, violation, report_if, each, checks, joined, check_slop_text,
  unknown_finding, unknown_risk, unknown_compensating, failed_compensating, off_scale,
  weakness_floor, deficiencies_uncovered, certification_claim, icfr_terminology,
}
use grc_audit_swarm.Linters.Traps.{has_result}
use grc_audit_swarm.Linters.Papers.{Findings, findings_from}

unfoldable pub findings_by_id : Option WorkingPaper → Findings
unfolding findings_from
findings_by_id none = []
findings_by_id (some papers) = findings_from papers.findings []

-- `papers is not None and rf not in findings_by_id`
unfoldable pub unknown_in_papers : Option WorkingPaper → String → Bool
unfolding findings_by_id lookup
unknown_in_papers none rf = false
unknown_in_papers (some papers) rf = not (is_some (lookup rf (findings_by_id (some papers))))

abbrev pub risk_ids : RiskControlMatrix → List String
risk_ids racm = map (λ r. r.risk_id) racm.risks

abbrev pub unknown_in_racm : Option RiskControlMatrix → String → Bool
unknown_in_racm none rr = false
unknown_in_racm (some racm) rr = not (contains (risk_ids racm) rr)

-- a classification off the scale that is expected, if one is
unfoldable pub scale_checks :
    Option DeficiencyScale → DeficiencyEvaluation → List (Bool × String × Message)
unfolding is_on_scale unsupported_weakness
scale_checks none ev =
    (unsupported_weakness ev.classification ev.likelihood ev.magnitude, "D14", weakness_floor) ∷ []
scale_checks (some scale) ev =
    (not (is_on_scale scale ev.classification), "D14", off_scale ev.classification scale)
    ∷ (unsupported_weakness ev.classification ev.likelihood ev.magnitude, "D14", weakness_floor)
    ∷ []

unfoldable pub no_compensation : List String
no_compensation = "none" ∷ "none identified" ∷ "none noted" ∷ "n/a" ∷ []

-- a cited control whose finding is there, without exception and operating effectively
abbrev pub mitigates : Option AuditFinding → Bool
mitigates none = false
mitigates (some f) = has_result FindingResult.no_exception f.result && is_effective f.toe_conclusion

abbrev pub compensating_message : Option AuditFinding → String → Message
compensating_message none cid = unknown_compensating cid
compensating_message (some _) cid = failed_compensating cid

unfoldable pub certification_patterns : List String
certification_patterns =
    "\\bfully\\s+compliant\\b" ∷ "\\b100%\\s+compliant\\b" ∷ "\\bcertified\\s+compliant\\b"
    ∷ "\\bguarantees?\\s+compliance\\b"
    ∷ "\\bcertif(?:y|ies)\\s+that\\s+the\\s+(?:entity|organisation|organization|system)\\s+is\\s+compliant\\b"
    ∷ []

-- the ids of the findings with a preliminary deficiency
unfoldable pub prelim_ids : List AuditFinding → List String
prelim_ids [] = []
prelim_ids (f ∷ fs) =
    let rest = prelim_ids fs in
    elim f.preliminary_deficiency [ none ↦ rest | some p ↦ if p then f.control_id ∷ rest else rest ]

unfoldable pub covered_findings : List DeficiencyEvaluation → List String
covered_findings [] = []
covered_findings (ev ∷ evs) = ev.related_findings ++ covered_findings evs

unfoldable pub uncovered : WorkingPaper → List DeficiencyEvaluation → List String
unfolding prelim_ids covered_findings
uncovered papers evs =
    keep (λ cid. not (contains (covered_findings evs) cid)) (prelim_ids papers.findings)

unfoldable pub uncovered_report : Option WorkingPaper → List DeficiencyEvaluation → LintReport
unfolding uncovered
uncovered_report none evs = []
uncovered_report (some papers) evs = checks (join "," (uncovered papers evs)) (
    (not (is_empty (uncovered papers evs)), "D4", deficiencies_uncovered (uncovered papers evs))
    ∷ [])

module _ (t : Tools) where
  -- the controls that the text on compensating controls cites
  unfoldable pub cited_controls : DeficiencyEvaluation → List String
  unfolding no_compensation strip
  cited_controls ev =
      let comp_text = strip ev.compensating_controls in
      if comp_text == "" || contains no_compensation (t.lower comp_text)
      then []
      else t.find_all "\\b(CTRL-\\d+[A-Za-z0-9_-]*)\\b" comp_text

  -- one round of the loop over the evaluations: its parts in turn
  unfoldable pub evaluation_reports :
      Option WorkingPaper
      → Option RiskControlMatrix
      → Option DeficiencyScale
      → DeficiencyEvaluation
      → List LintReport
  unfolding unknown_in_papers scale_checks cited_controls findings_by_id lookup check_slop_text
  evaluation_reports papers racm scale ev =
      let did = ev.deficiency_id in
      each (λ rf. checks did ((unknown_in_papers papers rf, "D4", unknown_finding rf) ∷ []))
        ev.related_findings
      ∷ each (λ rr. checks did ((unknown_in_racm racm rr, "D4", unknown_risk rr) ∷ []))
          ev.related_risks
      ∷ checks did (scale_checks scale ev)
      ∷ each
          (λ cid. checks did (
            (
              not (mitigates (lookup cid (findings_by_id papers))),
              "D9",
              compensating_message (lookup cid (findings_by_id papers)) cid,
            )
            ∷ []))
          (cited_controls ev)
      ∷ check_slop_text t ev.rationale did
      ∷ []

  unfoldable pub lint_deficiency_evaluations :
      List DeficiencyEvaluation
      → Option WorkingPaper
      → Option RiskControlMatrix
      → Option DeficiencyScale
      → LintReport
  unfolding evaluation_reports uncovered_report
  lint_deficiency_evaluations evs papers racm scale =
      each (λ ev. joined (evaluation_reports papers racm scale ev)) evs
      ++ uncovered_report papers evs

  abbrev pub wants_ratings : Option DeficiencyScale → Bool
  wants_ratings (some risk_rating) = true
  wants_ratings _ = false

  abbrev pub claim_report : String → Option String → LintReport
  claim_report section none = []
  claim_report section (some claim) = violation "D14" section (certification_claim claim) ∷ []

  -- one round of the loop over the report's sections
  unfoldable pub section_reports : Option DeficiencyScale → String → String → List LintReport
  unfolding certification_patterns check_slop_text
  section_reports scale section text =
      check_slop_text t text section
      ∷ each (λ pat. claim_report section (t.matched pat text)) certification_patterns
      ∷ checks section (
          (
            wants_ratings scale
                && t.search "\\b(?:material\\s+weakness|significant\\s+deficiency)\\b" text,
            "D14",
            icfr_terminology,
          )
          ∷ [])
      ∷ []

  unfoldable pub lint_report :
      FinalReport
      → Option WorkingPaper
      → Option RiskControlMatrix
      → Option DeficiencyScale
      → LintReport
  unfolding lint_deficiency_evaluations section_reports
  lint_report report papers racm scale = joined (
      lint_deficiency_evaluations report.deficiency_evaluations papers racm scale
      ∷ joined (section_reports scale "executive_summary" report.executive_summary)
      ∷ joined (section_reports scale "detailed_report" report.detailed_report)
      ∷ [])

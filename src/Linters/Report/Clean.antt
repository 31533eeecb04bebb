-- ===== src/Linters/Report/Clean.antt =====
-- What a report has that the linter passes, against its working papers, its matrix and its scale.
use grc_audit_swarm.Base.{
  String, ◌≡◌, refl, true, false, not, none, some, List, [], ◌∷◌, All, contains, is_empty, is_some,
  arith, ok, Option-cases, inl, inr,
}
use grc_audit_swarm.Store.{lookup}
use grc_audit_swarm.Schema.{RiskControlMatrix}
use grc_audit_swarm.Schema.Findings.{WorkingPaper}
use grc_audit_swarm.Schema.Deficiencies.{
  DeficiencyScale, DeficiencyEvaluation, FinalReport, is_on_scale, all_on_scale, check_scale,
  weakness_needs_magnitude,
}
use grc_audit_swarm.Linters.{LintReport, Tools, passed, each, joined, unknown_finding, unknown_risk}
use grc_audit_swarm.Linters.Passing.{
  passed-append, passed-joined, passed-checks, passed-each_test, keep-none, All-not,
}
use grc_audit_swarm.Linters.Report.{
  findings_by_id, unknown_in_papers, unknown_in_racm, risk_ids, scale_checks, mitigates,
  compensating_message, certification_patterns, prelim_ids, covered_findings, uncovered,
  uncovered_report, cited_controls, evaluation_reports, lint_deficiency_evaluations, claim_report,
  section_reports, lint_report,
}

-- An evaluation of known findings and risks, that its validator accepts, and whose compensating controls operate.
pub record EvaluationClean (t : Tools) (papers : WorkingPaper) (racm : RiskControlMatrix)
    (ev : DeficiencyEvaluation) : Type 0 where
  pub findings :
      All (λ rf. is_some (lookup rf (findings_by_id (some papers))) ≡ true) ev.related_findings
  pub risks : All (λ rr. contains (risk_ids racm) rr ≡ true) ev.related_risks
  pub supported : weakness_needs_magnitude ev ≡ ok ev
  pub compensated :
      All
        (λ cid. mitigates (lookup cid (findings_by_id (some papers))) ≡ true)
        (cited_controls t ev)

-- A report that evaluates every preliminary deficiency, on its scale, and certifies nothing.
pub record ReportClean (t : Tools) (papers : WorkingPaper) (racm : RiskControlMatrix)
    (scale : DeficiencyScale) (report : FinalReport) : Type 0 where
  pub evaluations : All (EvaluationClean t papers racm) report.deficiency_evaluations
  pub on_scale : check_scale (some scale) report.deficiency_evaluations ≡ ok (some scale)
  pub complete :
      (cid : String)
      → contains (prelim_ids papers.findings) cid ≡ true
      → contains (covered_findings report.deficiency_evaluations) cid ≡ true
  pub summary : All (λ pat. t.matched pat report.executive_summary ≡ none) certification_patterns
  pub detail : All (λ pat. t.matched pat report.detailed_report ≡ none) certification_patterns

module _ (t : Tools) (papers : WorkingPaper) (racm : RiskControlMatrix)
    (scale : DeficiencyScale) where
  abbrev reports : DeficiencyEvaluation → List LintReport
  reports = evaluation_reports t (some papers) (some racm) (some scale)

  evaluation_reports-Clean :
      (ev : DeficiencyEvaluation)
      → passed (joined (reports ev)) ≡ true
      → EvaluationClean t papers racm ev × (is_on_scale scale ev.classification ≡ true)
  unfolding evaluation_reports unknown_in_papers scale_checks weakness_needs_magnitude
  evaluation_reports-Clean ev h =
      let (findings, (risks, (scaled, (compensating, _)))) = passed-joined (reports ev) h in
      let (on_scale, (supported, _)) =
        passed-checks ev.deficiency_id (scale_checks (some scale) ev) scaled in
      (
        record {
          findings =
              All-not (λ rf. is_some (lookup rf (findings_by_id (some papers)))) ev.related_findings
                (passed-each_test ev.deficiency_id "D4" (unknown_in_papers (some papers))
                  unknown_finding ev.related_findings findings);
          risks = All-not (contains (risk_ids racm)) ev.related_risks (
              passed-each_test ev.deficiency_id "D4" (unknown_in_racm (some racm)) unknown_risk
                ev.related_risks risks);
          supported = rw (supported, weakness_needs_magnitude) refl;
          compensated =
              All-not (λ cid. mitigates (lookup cid (findings_by_id (some papers))))
                (cited_controls t ev)
                (passed-each_test ev.deficiency_id "D9"
                  (λ cid. not (mitigates (lookup cid (findings_by_id (some papers)))))
                  (λ cid. compensating_message (lookup cid (findings_by_id (some papers))) cid)
                  (cited_controls t ev) compensating);
        },
        ground arith,
      )

  all-Clean :
      (evs : List DeficiencyEvaluation)
      → passed (each (λ ev. joined (reports ev)) evs) ≡ true
      → All (EvaluationClean t papers racm) evs × (all_on_scale scale evs ≡ true)
  unfolding all_on_scale
  all-Clean [] h = (tt, refl)
  all-Clean (ev ∷ evs) h =
      let (first, rest) =
        passed-append (joined (reports ev)) (each (λ ev. joined (reports ev)) evs) h in
      let (clean, scaled) = evaluation_reports-Clean ev first in
      let (cleans, scaleds) = all-Clean evs rest in ((clean, cleans), rw (scaled, scaleds) refl)

  claims-none :
      (section text : String) (patterns : List String)
      → passed (each (λ pat. claim_report t section (t.matched pat text)) patterns) ≡ true
      → All (λ pat. t.matched pat text ≡ none) patterns
  unfolding passed
  claims-none section text [] h = tt
  claims-none section text (pat ∷ pats) h = elim (Option-cases (t.matched pat text)) [
    | inl n ↦ (n, claims-none section text pats (rw n at h))
    | inr (claim, e) ↦ let never : false ≡ true = rw e at h in absurd cc
  ]

  section-none :
      (section text : String)
      → passed (joined (section_reports t (some scale) section text)) ≡ true
      → All (λ pat. t.matched pat text ≡ none) certification_patterns
  unfolding section_reports
  section-none section text h =
      let (_, (claims, _)) = passed-joined (section_reports t (some scale) section text) h in
      claims-none section text certification_patterns claims

  -- A report that the linter passes against working papers, a matrix and a scale evaluates every
  -- preliminary deficiency of the papers. Each evaluation relates to findings and risks that exist, is
  -- accepted by the validator of material weaknesses, and cites only compensating controls without
  -- exception that operate effectively. The report's validator accepts the scale for them, and neither
  -- section makes a certification claim.
  pub lint_report-Clean :
      (report : FinalReport)
      → passed (lint_report t report (some papers) (some racm) (some scale)) ≡ true
      → ReportClean t papers racm scale report
  unfolding lint_report lint_deficiency_evaluations uncovered_report uncovered check_scale
  lint_report-Clean report h =
      let evs = report.deficiency_evaluations in
      let summary = section_reports t (some scale) "executive_summary" report.executive_summary in
      let detail = section_reports t (some scale) "detailed_report" report.detailed_report in
      let (judged, (summarised, (detailed, _))) =
        passed-joined
          (lint_deficiency_evaluations t evs (some papers) (some racm) (some scale)
            ∷ joined summary
            ∷ joined detail
            ∷ [])
          h in
      let (each_one, cover) =
        passed-append (each (λ ev. joined (reports ev)) evs) (uncovered_report (some papers) evs)
          judged in
      let (clean, scaled) = all-Clean evs each_one in
      let (nothing_left, _) =
        passed-checks _ ((not (is_empty (uncovered papers evs)), "D4", _) ∷ []) cover in
      record {
        evaluations = clean;
        on_scale = rw scaled refl;
        complete = λ cid prelim.
            let covered =
              keep-none (λ i. not (contains (covered_findings evs) i)) (prelim_ids papers.findings)
                cid (ground arith) prelim in
            ground arith;
        summary = section-none "executive_summary" report.executive_summary summarised;
        detail = section-none "detailed_report" report.detailed_report detailed;
      }

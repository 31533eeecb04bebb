-- ===== src/Linters/Papers/Clean.antt =====
-- What working papers have that the linter passes.
use grc_audit_swarm.Base.{
  if◌then◌else◌, ℕ, ◌*◌, ◌≤◌, String, ◌≡◌, ◌≢◌, refl, ap, Bool, true, false, not, ◌&&◌, ◌||◌,
  Option, none, some, List, [], ◌∷◌, ◌==◌, eq_iff, All, contains, is_empty, ltb, value_or, arith,
  eq-false_of_ne, suc, zero, Result, ok, bind_returned, ◌++◌, ◌∙◌,
}
use grc_audit_swarm.Store.{lookup}
use grc_audit_swarm.Schema.{Control, RiskControlMatrix}
use grc_audit_swarm.Schema.Findings.{AuditFinding, WorkingPaper, FindingResult, is_effective}
use grc_audit_swarm.Linters.{
  Tools, passed, report_if, joined, polarity_inversion, checks, LintReport,
}
use grc_audit_swarm.Linters.Passing.{
  keep-none, passed-append, passed-report_if, passed-joined, passed-checks, passed-each_test,
}
use grc_audit_swarm.Linters.Traps.{
  has_result, quote_of, claims_effective, inversion_patterns, inversion_reports, trap_reports,
  lint_distortion_traps,
}
use grc_audit_swarm.Linters.Papers.{
  Controls, Findings, controls_by_id, findings_from, ids, paper_ids, missing_ids, extra_ids,
  cover_reports, differs, arithmetic_checks, above_rate, vault_id, change_management_ids,
  relies_on_itgcs, failed_itgcs, quote_checks, finding_reports, lint_working_papers, lint_findings,
  lint_finding, period_report,
}

-- A finding whose counts, result and deficiency agree, whose quote is in the vault, that relies on no
-- failed control, tolerates no deviation rate above the limit, and inverts no quote.
pub record FindingClean (t : Tools) (controls : Controls) (findings : Findings) (verify : Bool)
    (numerator denominator : ℕ) (f : AuditFinding) : Type 0 where
  pub counted :
      (items exceptions : ℕ)
      → f.items_tested ≡ some items
      → f.exceptions_noted ≡ some exceptions
      → exceptions ≤ items
  pub untested :
      has_result FindingResult.not_tested f.result ≡ true
      → (value_or f.items_tested 0 ≡ 0) × (value_or f.exceptions_noted 0 ≡ 0)
  pub deficiency : f.preliminary_deficiency ≡ some (has_result FindingResult.exception f.result)
  pub quoted :
      verify ≡ true
      → has_result FindingResult.not_tested f.result ≡ false
      → (quote_of f ≢ "")
        × (vault_id f ≢ "")
        × (t.verify_exact_quote (vault_id f) (quote_of f) ≡ true)
  pub reliance :
      relies_on_itgcs t f ≡ true
      → is_empty (failed_itgcs t findings (change_management_ids t controls) f) ≡ true
  pub tolerable :
      (items exceptions : ℕ)
      → is_effective f.toe_conclusion ≡ true
      → f.items_tested ≡ some items
      → f.exceptions_noted ≡ some exceptions
      → exceptions * denominator ≤ numerator * items
  pub polarity :
      has_result FindingResult.not_tested f.result ≡ false
      → quote_of f ≢ ""
      → claims_effective f ≡ true
      → All (λ (p : String × String). t.search p.0 (quote_of f) ≡ false) inversion_patterns

-- Findings for exactly the controls of the matrix, each of them clean.
pub record PapersClean (t : Tools) (racm : RiskControlMatrix) (verify : Bool)
    (numerator denominator : ℕ) (papers : WorkingPaper) : Type 0 where
  pub complete :
      (cid : String)
      → contains (ids (controls_by_id (some racm))) cid ≡ true
      → contains (paper_ids papers) cid ≡ true
  pub known :
      (cid : String)
      → contains (paper_ids papers) cid ≡ true
      → contains (ids (controls_by_id (some racm))) cid ≡ true
  pub findings :
      All
        (FindingClean t
          (controls_by_id (some racm))
          (findings_from papers.findings [])
          verify
          numerator
          denominator)
        papers.findings

cover_reports-Cover :
    (racm : RiskControlMatrix) (papers : WorkingPaper)
    → passed (cover_reports (some racm) papers) ≡ true
    → (is_empty (missing_ids (controls_by_id (some racm)) papers) ≡ true)
      × (is_empty (extra_ids (controls_by_id (some racm)) papers) ≡ true)
unfolding cover_reports
cover_reports-Cover racm papers h =
    let controls = controls_by_id (some racm) in
    let (first, second) =
      passed-append (report_if (not (is_empty (missing_ids controls papers))) _) _ h in
    let a = passed-report_if (not (is_empty (missing_ids controls papers))) _ refl first in
    let b = passed-report_if (not (is_empty (extra_ids controls papers))) _ refl second in
    (ground arith, ground arith)

nothing-counted :
    (untested : Bool) (m n : ℕ)
    → (untested && (ltb 0 m || ltb 0 n)) ≡ false
    → untested ≡ true
    → (m ≡ 0) × (n ≡ 0)
nothing-counted untested m n h b = (ground arith, ground arith)

differs-false :
    (stated : Option Bool) (expected : Bool)
    → differs stated expected ≡ false
    → stated ≡ some expected
differs-false none expected h = cc
differs-false (some true) expected h = ap some (ground arith)
differs-false (some false) expected h = ap some (ground arith)

false-and_true : (b : Bool) → (b && true) ≡ false → b ≡ false
false-and_true true h = h
false-and_true false h = h

-- a rate that is not reported is within the limit
above_rate-false :
    (numerator denominator items exceptions : ℕ)
    → above_rate numerator denominator (some items) (some exceptions) ≡ false
    → exceptions ≤ items
    → exceptions * denominator ≤ numerator * items
above_rate-false numerator denominator items zero h le = omega arith
above_rate-false numerator denominator zero (suc exceptions) h le = absurd (omega arith)
above_rate-false numerator denominator (suc items) (suc exceptions) h le = ground arith

quote-Verified :
    (untested valid : Bool) (quote vault : String)
    → (not untested && (quote == "" || vault == "")) ≡ false
    → (not untested && (not (quote == "" || vault == "") && not valid)) ≡ false
    → untested ≡ false
    → (quote ≢ "") × (vault ≢ "") × (valid ≡ true)
quote-Verified untested valid quote vault cited verified n =
    (λ e. ground (arith, eq_iff quote ""), λ e. ground (arith, eq_iff vault ""), ground arith)

ok-same : (a b : LintReport) → ◌≡◌ {A = Result String LintReport} (ok a) (ok b) → a ≡ b
ok-same a b e = cc

module _ (t : Tools) (controls : Controls) (findings : Findings) (verify : Bool)
    (numerator denominator : ℕ) where
  inversion_reports-none :
      (f : AuditFinding)
      → passed (inversion_reports t f) ≡ true
      → All (λ (p : String × String). t.search p.0 (quote_of f) ≡ false) inversion_patterns
  unfolding inversion_reports
  inversion_reports-none f h =
      passed-each_test f.control_id "TRAP-1" (λ (p : String × String). t.search p.0 (quote_of f))
        (λ (p : String × String). polarity_inversion p.1) inversion_patterns h

  traps-none :
      (f : AuditFinding) (control : Option Control)
      → passed (lint_distortion_traps t f control) ≡ true
      → has_result FindingResult.not_tested f.result ≡ false
      → quote_of f ≢ ""
      → claims_effective f ≡ true
      → All (λ (p : String × String). t.search p.0 (quote_of f) ≡ false) inversion_patterns
  unfolding lint_distortion_traps trap_reports
  traps-none f control h tested quoted claims =
      let blank : (quote_of f == "") ≡ false = eq-false_of_ne (quote_of f) "" quoted in
      let (first, _) =
        passed-joined (trap_reports t f control) (rw (tested, blank, lint_distortion_traps) at h) in
      let inversions : passed (inversion_reports t f) ≡ true = rw claims at first in
      inversion_reports-none f inversions

  quotes-Verified :
      (f : AuditFinding)
      → passed (if verify then checks f.control_id (quote_checks t f) else []) ≡ true
      → verify ≡ true
      → has_result FindingResult.not_tested f.result ≡ false
      → (quote_of f ≢ "")
        × (vault_id f ≢ "")
        × (t.verify_exact_quote (vault_id f) (quote_of f) ≡ true)
  unfolding quote_checks
  quotes-Verified f h v =
      let (cited, (verified, _)) = passed-checks f.control_id (quote_checks t f) (rw v at h) in
      quote-Verified (has_result FindingResult.not_tested f.result)
        (t.verify_exact_quote (vault_id f) (quote_of f)) (quote_of f) (vault_id f) cited verified

  finding_reports-Clean :
      (f : AuditFinding) (period : LintReport)
      → passed (joined (finding_reports t controls findings verify numerator denominator f period))
        ≡ true
      → FindingClean t controls findings verify numerator denominator f
  unfolding finding_reports arithmetic_checks quote_checks lint_distortion_traps
  finding_reports-Clean f period h =
      let (sums, (quotes, (itgcs, (_, (rate, (traps, _)))))) =
        passed-joined (finding_reports t controls findings verify numerator denominator f period)
          h in
      let (counts, (nothing, (prelim, _))) =
        passed-checks f.control_id (arithmetic_checks f) sums in
      let (itgc, _) =
        passed-checks f.control_id
          ((
            relies_on_itgcs t f
                && not (is_empty (failed_itgcs t findings (change_management_ids t controls) f)),
            "D8",
            _,
          )
            ∷ [])
          itgcs in
      let (deviation, _) =
        passed-checks f.control_id
          ((
            above_rate numerator denominator f.items_tested f.exceptions_noted
                && is_effective f.toe_conclusion,
            "D12",
            _,
          )
            ∷ [])
          rate in
      record {
        counted = λ items exceptions i e.
            let c : ltb items exceptions ≡ false = rw (i, e) at counts in ground arith;
        untested =
            nothing-counted (has_result FindingResult.not_tested f.result)
              (value_or f.items_tested 0) (value_or f.exceptions_noted 0) nothing;
        deficiency =
            differs-false f.preliminary_deficiency (has_result FindingResult.exception f.result)
              prelim;
        quoted = quotes-Verified f quotes;
        reliance = λ r. ground arith;
        tolerable = λ items exceptions o i e.
            let c : ltb items exceptions ≡ false = rw (i, e) at counts in
            let within : (above_rate numerator denominator (some items) (some exceptions) && true)
                ≡ false =
              rw (i, e, o) at deviation in
            above_rate-false numerator denominator items exceptions (false-and_true _ within)
              (ground arith);
        polarity = traps-none f (lookup f.control_id controls) traps;
      }

  lint_findings-Clean :
      (fs : List AuditFinding) (reports : LintReport)
      → lint_findings t controls findings verify numerator denominator fs ≡ ok reports
      → passed reports ≡ true
      → All (FindingClean t controls findings verify numerator denominator) fs
  unfolding lint_findings lint_finding
  lint_findings-Clean [] reports r h = tt
  lint_findings-Clean (f ∷ fs) reports r h =
      let (first, linted, r1) =
        bind_returned (lint_finding t controls findings verify numerator denominator f) _ r in
      let (rest, others, r2) =
        bind_returned (lint_findings t controls findings verify numerator denominator fs) _ r1 in
      let (period, _, r3) =
        bind_returned (period_report t f (lookup f.control_id controls)) _ linted in
      let both : passed (first ++ rest) ≡ true = ap passed (ok-same _ reports r2) ∙ h in
      let (passes, pass) = passed-append first rest both in
      let own : passed
            (joined (finding_reports t controls findings verify numerator denominator f period))
          ≡ true =
        ap passed (ok-same _ first r3) ∙ passes in
      (finding_reports-Clean f period own, lint_findings-Clean fs rest others pass)

-- Working papers that the linter, which does not raise, passes against a matrix have a finding for each control of the matrix
-- and for no other. In each finding the exceptions are at most the items tested, an untested one
-- counts nothing, the deficiency is flagged exactly for an exception, a tested one quotes the vault
-- if quotes are verified, none relies on a change control that did not operate, none is effective
-- above the tolerable rate, and none that claims effectiveness quotes a known sign of failure.
pub lint_working_papers-Clean :
    (t : Tools) (papers : WorkingPaper) (racm : RiskControlMatrix) (verify : Bool)
    (numerator denominator : ℕ) (report : LintReport)
    → lint_working_papers t papers (some racm) verify numerator denominator ≡ ok report
    → passed report ≡ true
    → PapersClean t racm verify numerator denominator papers
unfolding lint_working_papers missing_ids extra_ids
lint_working_papers-Clean t papers racm verify numerator denominator report r h =
    let controls = controls_by_id (some racm) in
    let (reports, linted, r1) =
      bind_returned
        (lint_findings t controls (findings_from papers.findings []) verify numerator denominator
          papers.findings)
        _ r in
    let both : passed (cover_reports (some racm) papers ++ reports) ≡ true =
      ap passed (ok-same _ report r1) ∙ h in
    let (cover, each_finding) = passed-append (cover_reports (some racm) papers) reports both in
    let (missing, extra) = cover_reports-Cover racm papers cover in
    let missing_none = keep-none (λ cid. not (contains (paper_ids papers) cid)) (ids controls) in
    let extra_none = keep-none (λ cid. not (contains (ids controls) cid)) (paper_ids papers) in
    record {
      complete = λ cid known. let found = missing_none cid missing known in ground arith;
      known = λ cid stated. let found = extra_none cid extra stated in ground arith;
      findings =
          lint_findings-Clean t controls (findings_from papers.findings []) verify numerator
            denominator papers.findings reports linted each_finding;
    }

-- ===== src/Flow/Overlay.antt =====
-- `effective_working_papers` and `deficiency_scale_for_scope` of src/swarm/audit_flow.py: what the
-- reporting phase is held against.
use grc_audit_swarm.Base.{
  String, Bool, true, false, not, ◌&&◌, Option, none, some, List, [], ◌∷◌, ◌==◌, join, is_empty,
  if◌then◌else◌, Result, ok, ◌>>=◌,
}
use grc_audit_swarm.Schema.Findings.{AuditFinding, WorkingPaper, FindingResult}
use grc_audit_swarm.Schema.Deficiencies.{DeficiencyScale, icfr, risk_rating}
use grc_audit_swarm.Decisions.{Platform}
use grc_audit_swarm.Decisions.Errors.{AuditError, value_error}
use grc_audit_swarm.Decisions.Values.{require, design_of, operating_of}
use grc_audit_swarm.Decisions.View.{FindingView, FindingConclusions, finding_views}
use grc_audit_swarm.Flow.State.{AuditState, decision_context}
use grc_audit_swarm.Flow.Checks.{active_now}

-- `FindingResult(text)`
unfoldable pub result_of : String → Option FindingResult
result_of t =
    if t == "No exception"
    then some FindingResult.no_exception
    else if t == "Exception"
    then some FindingResult.exception
    else if t == "Not tested"
    then some FindingResult.not_tested
    else none

abbrev same_flag : Bool → Bool → Bool
same_flag true b = b
same_flag false b = not b

-- `draft != effective`
unfoldable pub differs_from_draft : FindingView → Bool
differs_from_draft v = not (
    v.draft.tod_conclusion == v.effective.tod_conclusion
    && v.draft.toe_conclusion == v.effective.toe_conclusion
    && v.draft.result == v.effective.result
    && same_flag v.draft.preliminary_deficiency v.effective.preliminary_deficiency)

-- `changed.get(control_id)`: the last of the views that differ
unfoldable pub changed_view : String → List FindingView → Option FindingView
unfolding differs_from_draft
changed_view cid [] = none
changed_view cid (v ∷ vs) = elim (changed_view cid vs) [
  | some later ↦ some later
  | none ↦ if differs_from_draft v && v.control_id == cid then some v else none
]

-- a finding with the conclusions of record, which raise if they are no members
unfoldable pub overlaid : AuditFinding → FindingConclusions → Result AuditError AuditFinding
unfolding result_of
overlaid f eff = do
  tod ← require (design_of eff.tod_conclusion) (value_error eff.tod_conclusion)
  toe ← require (operating_of eff.toe_conclusion) (value_error eff.toe_conclusion)
  r ← require (result_of eff.result) (value_error eff.result)
  ok (record f {
    tod_conclusion = tod;
    toe_conclusion = toe;
    result = some r;
    preliminary_deficiency = some eff.preliminary_deficiency;
  })

unfoldable pub overlay_one : List FindingView → AuditFinding → Result AuditError AuditFinding
unfolding changed_view overlaid
overlay_one views f = elim (changed_view f.control_id views) [
  | none ↦ ok f
  | some v ↦ overlaid f v.effective
]

unfoldable pub overlay :
    List FindingView → List AuditFinding → Result AuditError (List AuditFinding)
unfolding overlay_one
overlay views [] = ok []
overlay views (f ∷ fs) = overlay_one views f >>= λ g. overlay views fs >>= λ gs. ok (g ∷ gs)

module _ (env : Platform) (s : AuditState) where
  unfoldable pub overlaid_papers : WorkingPaper → Result AuditError WorkingPaper
  unfolding overlay
  overlaid_papers papers =
      if is_empty s.review_decisions
      then ok papers
      else (finding_views (decision_context s) (active_now env s) [] papers.findings >>= λ views.
          overlay views papers.findings >>= λ findings. ok (record papers { findings = findings }))

  unfoldable pub effective_working_papers : Result AuditError (Option WorkingPaper)
  unfolding overlaid_papers
  effective_working_papers = elim s.working_papers [
    | none ↦ ok none
    | some papers ↦ overlaid_papers papers >>= λ overlaid. ok (some overlaid)
  ]

-- `search` is `_ICFR_SCOPE.search`
unfoldable pub deficiency_scale_for_scope : (String → Bool) → AuditState → DeficiencyScale
deficiency_scale_for_scope search s =
    if search (join " " (s.theme ∷ s.business_context ∷ s.frameworks)) then icfr else risk_rating

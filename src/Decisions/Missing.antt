-- ===== src/Decisions/Missing.antt =====
-- The decisions that a gate waits for.
use grc_audit_swarm.Base.{
  String, ◌≡◌, ◌≢◌, refl, sym, ap, ◌∙◌, eq-false_of_ne, true, false, Option, none, some, List, [],
  ◌∷◌, ◌==◌, eq_iff, arith, Result, ok, bind_returned, contains, find_first, Bool-cases, inl, inr,
}
use grc_audit_swarm.Policy.{finding_needs_review}
use grc_audit_swarm.Schema.Findings.{AuditFinding, WorkingPaper}
use grc_audit_swarm.Schema.Decisions.{ReviewDecision}
use grc_audit_swarm.Decisions.{DecisionContext, key_control, SlotKey, findings_of, finding_by_id}
use grc_audit_swarm.Decisions.Errors.{AuditError, MissingDecision}
use grc_audit_swarm.Decisions.Values.{effective_conclusions}
use grc_audit_swarm.Decisions.View.{
  FindingView, view_of, finding_view, finding_views, missing_reviews, missing_for_gate_2,
  finding_key, result_text,
}

first_of_rest :
    (g : AuditFinding) (gs : List AuditFinding) (i : String) (f : AuditFinding)
    → find_first (λ x. x.control_id == i) (g ∷ gs) ≡ some f
    → (g.control_id == i) ≡ false
    → find_first (λ x. x.control_id == i) gs ≡ some f
first_of_rest g gs i f e other = rw other at e

first_is :
    (g : AuditFinding) (gs : List AuditFinding) (i : String) (f : AuditFinding)
    → find_first (λ x. x.control_id == i) (g ∷ gs) ≡ some f
    → (g.control_id == i) ≡ true
    → g ≡ f
first_is g gs i f e same = let e' : some g ≡ some f = rw same at e in cc

other_id :
    (seen : List String) (j i : String)
    → contains seen j ≡ true
    → contains seen i ≡ false
    → (j == i) ≡ false
other_id seen j i is_seen fresh = eq-false_of_ne j i λ e. cc

not_among :
    (j : String) (seen : List String) (i : String)
    → (j == i) ≡ false
    → contains seen i ≡ false
    → contains (j ∷ seen) i ≡ false
not_among j seen i other fresh = rw other fresh

missing_reviews-nil :
    (v : FindingView) (vs : List FindingView)
    → missing_reviews (v ∷ vs) ≡ []
    → (v.review_required_for_gate_2 ≡ true → v.review ≢ none) × (missing_reviews vs ≡ [])
unfolding missing_reviews
missing_reviews-nil v vs e = ground arith

reviews_nil :
    (papers : Option WorkingPaper) (vs : List FindingView) (i : String) (f : AuditFinding)
    → find_first (λ g. g.control_id == i) (findings_of papers) ≡ some f
    → ◌≡◌ {A = Result AuditError (List MissingDecision)}
        (ok (elim papers [ none ↦ [] | some _ ↦ missing_reviews vs ]))
        (ok [])
    → missing_reviews vs ≡ []
reviews_nil none vs i f e nil = cc
reviews_nil (some p) vs i f e nil = cc

module _ (ctx : DecisionContext) (active : SlotKey → Option ReviewDecision) where
  -- what a view tells of its finding
  Views : AuditFinding → FindingView → Type 0
  Views f v =
      (v.review_required_for_gate_2
        ≡ finding_needs_review (result_text f.result) (key_control ctx f.control_id))
      × (v.review ≡ active (finding_key "finding_review" f.control_id))

  finding_view-Views :
      (f : AuditFinding) (v : FindingView) → finding_view ctx active f ≡ ok v → Views f v
  unfolding finding_view view_of Views
  finding_view-Views f v h =
      let (c, _, made) =
        bind_returned (effective_conclusions f (active (finding_key "finding_review" f.control_id)))
          _ h in
      let e : view_of ctx active f c ≡ v = cc in
      (ap (λ v. v.review_required_for_gate_2) (sym e), ap (λ v. v.review) (sym e))

  finding_views-fresh :
      (g : AuditFinding) (gs : List AuditFinding) (seen : List String) (vs : List FindingView)
      → contains seen g.control_id ≡ false
      → finding_views ctx active seen (g ∷ gs) ≡ ok vs
      → (v : FindingView) × (rest : List FindingView) × Views g v
        × (finding_views ctx active (g.control_id ∷ seen) gs ≡ ok rest)
        × (v ∷ rest ≡ vs)
  unfolding finding_views
  finding_views-fresh g gs seen vs fresh made =
      let (v, viewed, more) =
        bind_returned (finding_view ctx active g) _ (rw (fresh, finding_views) at made) in
      let (rest, made', last) =
        bind_returned (finding_views ctx active (g.control_id ∷ seen) gs) _ more in
      (v, rest, finding_view-Views g v viewed, made', cc)

  missing_reviews_complete :
      (fs : List AuditFinding) (seen : List String) (vs : List FindingView)
      → (i : String) (f : AuditFinding) → finding_views ctx active seen fs ≡ ok vs
      → missing_reviews vs ≡ []
      → contains seen i ≡ false
      → find_first (λ g. g.control_id == i) fs ≡ some f
      → finding_needs_review (result_text f.result) (key_control ctx i) ≡ true
      → active (finding_key "finding_review" i) ≢ none
  unfolding finding_views Views
  missing_reviews_complete [] seen vs i f made none_missing fresh is_first needed = cc
  missing_reviews_complete (g ∷ gs) seen vs i f made none_missing fresh is_first needed =
      elim (Bool-cases (contains seen g.control_id)) [
        | inl skipped ↦
            missing_reviews_complete gs seen vs i f (rw (skipped, finding_views) at made)
              none_missing fresh
              (first_of_rest g gs i f is_first (other_id seen g.control_id i skipped fresh)) needed
        | inr first_time ↦
            let (v, rest, (required, review), made', e) =
              finding_views-fresh g gs seen vs first_time made in
            let (here, later) = missing_reviews-nil v rest (ap missing_reviews e ∙ none_missing) in
            elim (Bool-cases (g.control_id == i)) [
              | inl same ↦
                  let g_is_f : g ≡ f = first_is g gs i f is_first same in
                  let id : g.control_id ≡ i = ground (arith, eq_iff g.control_id i) in
                  λ absent.
                    here
                      (required
                        ∙ (ap
                              (λ (x : AuditFinding).
                                finding_needs_review (result_text x.result)
                                  (key_control ctx g.control_id))
                              g_is_f
                            ∙ (ap
                                  (λ j.
                                    finding_needs_review (result_text f.result) (key_control ctx j))
                                  id
                                ∙ needed)))
                      (review ∙ (ap (λ j. active (finding_key "finding_review" j)) id ∙ absent))
              | inr other ↦
                  missing_reviews_complete gs (g.control_id ∷ seen) rest i f made' later
                    (not_among g.control_id seen i other fresh)
                    (first_of_rest g gs i f is_first other) needed
            ]
      ]

-- Gate 2 misses nothing only if each finding of the working papers that is an exception or tests a
-- key control has an active review: the finding that counts for its control, the first with its id.
pub missing_for_gate_2_complete :
    (ctx : DecisionContext) (active : SlotKey → Option ReviewDecision) (i : String)
    (f : AuditFinding)
    → missing_for_gate_2 ctx active ≡ ok []
    → finding_by_id ctx i ≡ some f
    → finding_needs_review (result_text f.result) (key_control ctx i) ≡ true
    → active (finding_key "finding_review" i) ≢ none
unfolding missing_for_gate_2 finding_by_id
missing_for_gate_2_complete ctx active i f complete is_first needed =
    let (vs, made, nil) =
      bind_returned (finding_views ctx active [] (findings_of ctx.papers)) _ complete in
    missing_reviews_complete ctx active (findings_of ctx.papers) [] vs i f made
      (reviews_nil ctx.papers vs i f is_first nil) refl is_first needed

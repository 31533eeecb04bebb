-- ===== src/Decisions/View.antt =====
-- `effective_view` of src/swarm/review_decisions.py: the conclusion of record, and the decisions that
-- a gate still misses. A decision stands for its compact copy, `DecisionRef`.
use grc_audit_swarm.Base.{
  String, Bool, true, false, not, ◌&&◌, Option, none, some, List, [], ◌∷◌, ◌++◌, ◌==◌,
  if◌then◌else◌, Result, ok, ◌>>=◌, contains, is_some,
}
use grc_audit_swarm.Policy.{
  finding_needs_review, finding_needs_scope_limitation, gate_3_classify_every_deficiency,
  gate_3_engagement_conclusion,
}
use grc_audit_swarm.Schema.Findings.{
  AuditFinding, design_value, operating_value, result_value, FindingResult,
}
use grc_audit_swarm.Schema.Deficiencies.{DeficiencyEvaluation}
use grc_audit_swarm.Schema.Decisions.{ReviewDecision}
use grc_audit_swarm.Decisions.{
  DecisionContext, key_control, SlotKey, findings_of, evaluations_of, engagement_subject_id,
}
use grc_audit_swarm.Decisions.Errors.{AuditError, MissingDecision}
use grc_audit_swarm.Decisions.Values.{Conclusions, effective_conclusions}

pub record FindingConclusions : Type 0 where
  pub tod_conclusion : String
  pub toe_conclusion : String
  pub result : String
  pub preliminary_deficiency : Bool

-- `review_status` is told by `review`'s type, `differs_from_draft` by the two conclusions
pub record FindingView : Type 0 where
  pub control_id : String
  pub key_control : Option Bool
  pub draft : FindingConclusions
  pub effective : FindingConclusions
  pub review : Option ReviewDecision
  pub scope_limitation : Option ReviewDecision
  pub review_required_for_gate_2 : Bool

-- of a deficiency's view, what the gates read
pub record DeficiencyView : Type 0 where
  pub deficiency_id : String
  pub classification_decision : Option ReviewDecision

-- `str(f.result)`
abbrev pub result_text : Option FindingResult → String
result_text none = "None"
result_text (some r) = result_value r

-- `bool(x)`
abbrev pub truth : Option Bool → Bool
truth none = false
truth (some b) = b

abbrev pub finding_key : String → String → SlotKey
finding_key slot i = record { slot = slot; subject_type = "finding"; subject_id = i }

abbrev pub deficiency_key : String → String → SlotKey
deficiency_key slot i = record { slot = slot; subject_type = "deficiency"; subject_id = i }

module _ (ctx : DecisionContext) (active : SlotKey → Option ReviewDecision) where
  -- the view that one round of the loop of `_finding_views` makes, from the conclusions of record
  unfoldable pub view_of : AuditFinding → Conclusions → FindingView
  view_of f c = record {
    control_id = f.control_id;
    key_control = key_control ctx f.control_id;
    draft = record {
      tod_conclusion = design_value f.tod_conclusion;
      toe_conclusion = operating_value f.toe_conclusion;
      result = result_text f.result;
      preliminary_deficiency = truth f.preliminary_deficiency;
    };
    effective = record {
      tod_conclusion = c.tod_conclusion;
      toe_conclusion = c.toe_conclusion;
      result = c.result;
      preliminary_deficiency = truth f.preliminary_deficiency && c.result == "Exception";
    };
    review = active (finding_key "finding_review" f.control_id);
    scope_limitation = active (finding_key "scope_limitation" f.control_id);
    review_required_for_gate_2 =
        finding_needs_review (result_text f.result) (key_control ctx f.control_id);
  }

  unfoldable pub finding_view : AuditFinding → Result AuditError FindingView
  unfolding view_of
  finding_view f = do
    c ← effective_conclusions f (active (finding_key "finding_review" f.control_id))
    ok (view_of f c)

  -- of findings with the same control the first counts
  unfoldable pub finding_views :
      List String → List AuditFinding → Result AuditError (List FindingView)
  finding_views seen [] = ok []
  finding_views seen (f ∷ fs) = elim (contains seen f.control_id) [
    | true ↦ finding_views seen fs
    | false ↦ do v ← finding_view f; vs ← finding_views (f.control_id ∷ seen) fs; ok (v ∷ vs)
  ]

  unfoldable pub deficiency_views : List String → List DeficiencyEvaluation → List DeficiencyView
  deficiency_views seen [] = []
  deficiency_views seen (e ∷ es) = elim (contains seen e.deficiency_id) [
    | true ↦ deficiency_views seen es
    | false ↦
        record {
          deficiency_id = e.deficiency_id;
          classification_decision = active (deficiency_key "classify" e.deficiency_id);
        }
        ∷ deficiency_views (e.deficiency_id ∷ seen) es
  ]

  abbrev pub engagement_decision : Option ReviewDecision
  engagement_decision = active (record {
    slot = "engagement_conclusion";
    subject_type = "engagement";
    subject_id = engagement_subject_id;
  })

-- The entries of `_missing`, by the loops that make them.
unfoldable pub missing_reviews : List FindingView → List MissingDecision
missing_reviews [] = []
missing_reviews (f ∷ fs) =
    let rest = missing_reviews fs in
    if f.review_required_for_gate_2 && not (is_some f.review)
    then record {
      gate = 2;
      subject_type = "finding";
      subject_id = f.control_id;
      required = "sign_off" ∷ "challenge" ∷ [];
    }
      ∷ rest
    else rest

unfoldable pub missing_classifications : List DeficiencyView → List MissingDecision
missing_classifications [] = []
missing_classifications (d ∷ ds) =
    let rest = missing_classifications ds in
    if gate_3_classify_every_deficiency && not (is_some d.classification_decision)
    then record {
      gate = 3;
      subject_type = "deficiency";
      subject_id = d.deficiency_id;
      required = "classify" ∷ [];
    }
      ∷ rest
    else rest

unfoldable pub missing_limitations : List FindingView → List MissingDecision
missing_limitations [] = []
missing_limitations (f ∷ fs) =
    let rest = missing_limitations fs in
    if finding_needs_scope_limitation f.effective.result f.key_control
      && not (is_some f.scope_limitation)
    then record {
      gate = 3;
      subject_type = "finding";
      subject_id = f.control_id;
      required = "scope_limitation" ∷ [];
    }
      ∷ rest
    else rest

unfoldable pub missing_conclusion : Option ReviewDecision → List MissingDecision
missing_conclusion decision =
    if gate_3_engagement_conclusion && not (is_some decision)
    then record {
      gate = 3;
      subject_type = "engagement";
      subject_id = engagement_subject_id;
      required = "engagement_conclusion" ∷ [];
    }
      ∷ []
    else []

module _ (ctx : DecisionContext) (active : SlotKey → Option ReviewDecision) where
  -- `effective_view().missing_for_gate.get("2", [])`; the view's findings are made first, and raise
  -- if a stored conclusion is none
  unfoldable pub missing_for_gate_2 : Result AuditError (List MissingDecision)
  missing_for_gate_2 = do
    fs ← finding_views ctx active [] (findings_of ctx.papers)
    ok (elim ctx.papers [ none ↦ [] | some _ ↦ missing_reviews fs ])

  unfoldable pub missing_for_gate_3 : Result AuditError (List MissingDecision)
  missing_for_gate_3 = do
    fs ← finding_views ctx active [] (findings_of ctx.papers)
    let ds = deficiency_views ctx active [] (evaluations_of ctx.report)
    ok (elim ctx.report [
      | none ↦ []
      | some _ ↦
          missing_classifications ds
          ++ (missing_limitations fs ++ missing_conclusion (engagement_decision ctx active))
    ])

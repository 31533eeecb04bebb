-- ===== src/Schema/Samples.antt =====
-- The validators at concrete findings and evaluations.
use grc_audit_swarm.Base.{
  Bool, is_blank, ◌≡◌, ◌↔◌, ◌⊎◌, refl, true, false, Option, none, some, [], ◌∷◌, ok, err,
}
use grc_audit_swarm.Schema.{RiskRating}
use grc_audit_swarm.Schema.Findings.{
  AuditFinding, DesignConclusion, OperatingConclusion, FindingResult, consistent, settle_result,
  settle_deficiency, derive_result,
}
use grc_audit_swarm.Schema.Findings.Consistent.{
  IsConsistent, consistent-IsConsistent, consistent_fixed_iff,
}
use grc_audit_swarm.Schema.Deficiencies.{
  DeficiencyScale, icfr, risk_rating, DeficiencyEvaluation, significant_deficiency, check_scale,
  all_on_scale, mixed_scales, is_on_scale,
}
use grc_audit_swarm.Schema.Deficiencies.Scale.{check_scale_sound, check_scale_inferred, uses}

abbrev finding_with : Option FindingResult → Option Bool → AuditFinding
finding_with r p = record {
  control_id = "C-1";
  vault_id_reference = "V-1";
  exact_quote_from_evidence = "quote";
  tod_conclusion = DesignConclusion.effective;
  toe_conclusion = OperatingConclusion.exceptions_noted;
  toe_basis = none;
  items_tested = some 25;
  exceptions_noted = some 2;
  result = r;
  preliminary_deficiency = p;
  test_conclusion = "";
  legacy_severity = none;
}

abbrev drafted : AuditFinding
drafted = finding_with none none

abbrev settled : AuditFinding
settled = finding_with (some FindingResult.exception) (some true)

drafted-settles : consistent drafted ≡ ok settled
unfolding consistent settle_result settle_deficiency derive_result is_blank
drafted-settles = refl

consistent-IsConsistent_example : IsConsistent settled
consistent-IsConsistent_example = consistent-IsConsistent drafted settled drafted-settles

consistent_fixed_iff_example : (consistent settled ≡ ok settled) ↔ IsConsistent settled
consistent_fixed_iff_example = consistent_fixed_iff settled

abbrev weak : DeficiencyEvaluation
weak = record {
  deficiency_id = "D-1";
  title = "";
  related_findings = "C-1" ∷ [];
  related_risks = [];
  compensating_controls = "";
  likelihood = RiskRating.low;
  magnitude = RiskRating.medium;
  classification = significant_deficiency;
  rationale = "";
}

weak-scale : check_scale none (weak ∷ []) ≡ ok (some icfr)
unfolding check_scale all_on_scale is_on_scale
weak-scale = refl

check_scale_sound_example :
    (all_on_scale icfr (weak ∷ []) ≡ true)
    × ((◌≡◌ {A = Option DeficiencyScale} none none)
        ⊎ (◌≡◌ {A = Option DeficiencyScale} none (some icfr)))
    × (check_scale (some icfr) (weak ∷ []) ≡ ok (some icfr))
check_scale_sound_example = check_scale_sound none (weak ∷ []) icfr weak-scale

check_scale_inferred_example :
    ((check_scale none (weak ∷ []) ≡ ok (some icfr))
      ↔ ((uses icfr (weak ∷ []) ≡ true) × (uses risk_rating (weak ∷ []) ≡ false)))
    × ((check_scale none (weak ∷ []) ≡ ok none)
        ↔ ((uses icfr (weak ∷ []) ≡ false) × (uses risk_rating (weak ∷ []) ≡ false)))
    × ((check_scale none (weak ∷ []) ≡ err mixed_scales)
        ↔ ((uses icfr (weak ∷ []) ≡ true) × (uses risk_rating (weak ∷ []) ≡ true)))
check_scale_inferred_example = check_scale_inferred (weak ∷ []) icfr

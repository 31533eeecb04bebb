-- ===== src/Schema/Deficiencies/Scale.antt =====
-- What the scale's validator guarantees.
use grc_audit_swarm.Base.{
  refl, ◌≡◌, ◌↔◌, true, false, Option, none, some, List, arith, ok, err, ◌⊎◌, Bool, not, any, ◌∷◌,
  [],
}
use grc_audit_swarm.Schema.Deficiencies.{
  DeficiencyScale, icfr, risk_rating, DeficiencyEvaluation, mixed_scales, all_on_scale, check_scale,
  DeficiencyClassification, is_on_scale, control_deficiency, significant_deficiency,
  material_weakness, not_a_deficiency,
}

-- A scale that the validator returns holds every classification of the report, it is the scale that
-- was given, if one was, and validating the report again with it returns it again.
pub check_scale_sound :
    (given : Option DeficiencyScale) (es : List DeficiencyEvaluation) (s : DeficiencyScale)
    → check_scale given es ≡ ok (some s)
    → (all_on_scale s es ≡ true)
      × ((given ≡ none) ⊎ (given ≡ some s))
      × (check_scale (some s) es ≡ ok (some s))
unfolding check_scale
check_scale_sound none es icfr h = ground arith
check_scale_sound none es risk_rating h = ground arith
check_scale_sound (some icfr) es icfr h = ground arith
check_scale_sound (some risk_rating) es risk_rating h = ground arith
check_scale_sound (some _) es _ h = ground arith

abbrev other : DeficiencyScale → DeficiencyScale
other icfr = risk_rating
other risk_rating = icfr

-- the scale that a classification belongs to; `Not a deficiency` is of none
abbrev pub scale_of : DeficiencyClassification → Option DeficiencyScale
scale_of control_deficiency = some icfr
scale_of significant_deficiency = some icfr
scale_of material_weakness = some icfr
scale_of DeficiencyClassification.low = some risk_rating
scale_of DeficiencyClassification.medium = some risk_rating
scale_of DeficiencyClassification.high = some risk_rating
scale_of not_a_deficiency = none

abbrev pub is_of : DeficiencyScale → Option DeficiencyScale → Bool
is_of icfr (some icfr) = true
is_of risk_rating (some risk_rating) = true
is_of _ _ = false

-- whether an evaluation is classified on the scale alone
abbrev pub uses : DeficiencyScale → List DeficiencyEvaluation → Bool
uses s es = any (λ e. is_of s (scale_of e.classification)) es

is_on_scale-is_of :
    (s : DeficiencyScale) (c : DeficiencyClassification)
    → is_on_scale s c ≡ not (is_of (other s) (scale_of c))
unfolding is_on_scale
is_on_scale-is_of icfr control_deficiency = refl
is_on_scale-is_of icfr significant_deficiency = refl
is_on_scale-is_of icfr material_weakness = refl
is_on_scale-is_of icfr DeficiencyClassification.low = refl
is_on_scale-is_of icfr DeficiencyClassification.medium = refl
is_on_scale-is_of icfr DeficiencyClassification.high = refl
is_on_scale-is_of icfr not_a_deficiency = refl
is_on_scale-is_of risk_rating control_deficiency = refl
is_on_scale-is_of risk_rating significant_deficiency = refl
is_on_scale-is_of risk_rating material_weakness = refl
is_on_scale-is_of risk_rating DeficiencyClassification.low = refl
is_on_scale-is_of risk_rating DeficiencyClassification.medium = refl
is_on_scale-is_of risk_rating DeficiencyClassification.high = refl
is_on_scale-is_of risk_rating not_a_deficiency = refl

all_on_scale-uses :
    (s : DeficiencyScale) (es : List DeficiencyEvaluation)
    → all_on_scale s es ≡ not (uses (other s) es)
unfolding all_on_scale
all_on_scale-uses s [] = refl
all_on_scale-uses s (e ∷ es) =
    ground (arith, is_on_scale-is_of s e.classification, all_on_scale-uses s es)

-- With no scale given one is inferred exactly if some classification is its own and none is the other
-- scale's; it is left open exactly if every evaluation is no deficiency, and the report is refused
-- exactly if it mixes classifications of both scales.
pub check_scale_inferred :
    (es : List DeficiencyEvaluation) (s : DeficiencyScale)
    → ((check_scale none es ≡ ok (some s)) ↔ ((uses s es ≡ true) × (uses (other s) es ≡ false)))
      × ((check_scale none es ≡ ok none) ↔ ((uses s es ≡ false) × (uses (other s) es ≡ false)))
      × ((check_scale none es ≡ err mixed_scales)
          ↔ ((uses s es ≡ true) × (uses (other s) es ≡ true)))
unfolding check_scale
check_scale_inferred es s =
    let i = all_on_scale-uses icfr es in let r = all_on_scale-uses risk_rating es in by_scale s i r
  where
    by_scale :
        (s : DeficiencyScale)
        → all_on_scale icfr es ≡ not (uses risk_rating es)
        → all_on_scale risk_rating es ≡ not (uses icfr es)
        → ((check_scale none es ≡ ok (some s)) ↔ ((uses s es ≡ true) × (uses (other s) es ≡ false)))
          × ((check_scale none es ≡ ok none) ↔ ((uses s es ≡ false) × (uses (other s) es ≡ false)))
          × ((check_scale none es ≡ err mixed_scales)
              ↔ ((uses s es ≡ true) × (uses (other s) es ≡ true)))
    by_scale icfr i r = (
      (λ h. ground arith, λ h. ground arith),
      (λ h. ground arith, λ h. ground arith),
      (λ h. ground arith, λ h. ground arith),
    )
    by_scale risk_rating i r = (
      (λ h. ground arith, λ h. ground arith),
      (λ h. ground arith, λ h. ground arith),
      (λ h. ground arith, λ h. ground arith),
    )

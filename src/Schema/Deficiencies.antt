-- ===== src/Schema/Deficiencies.antt =====
-- The report: deficiency evaluations, the scale they are classified on, and its validators.
pub mod Scale
use grc_audit_swarm.Base.{
  String, Bool, true, false, not, ◌&&◌, ◌||◌, Option, none, some, List, Result, ok, err, all,
  if◌then◌else◌, keep, ◌∷◌, [],
}
use grc_audit_swarm.Schema.{RiskRating}

pub data DeficiencyScale : Type 0 where
  icfr risk_rating : DeficiencyScale

pub data DeficiencyClassification : Type 0 where
  control_deficiency significant_deficiency material_weakness : DeficiencyClassification
  low medium high not_a_deficiency : DeficiencyClassification

abbrev pub scale_value : DeficiencyScale → String
scale_value icfr = "ICFR deficiency scale"
scale_value risk_rating = "Risk rating"

abbrev pub classification_value : DeficiencyClassification → String
classification_value control_deficiency = "Control Deficiency"
classification_value significant_deficiency = "Significant Deficiency"
classification_value material_weakness = "Material Weakness"
classification_value DeficiencyClassification.low = "Low"
classification_value DeficiencyClassification.medium = "Medium"
classification_value DeficiencyClassification.high = "High"
classification_value not_a_deficiency = "Not a deficiency"

abbrev pub rating_value : RiskRating → String
rating_value RiskRating.low = "Low"
rating_value RiskRating.medium = "Medium"
rating_value RiskRating.high = "High"

-- `classification in SCALE_CLASSIFICATIONS[scale]`
unfoldable pub is_on_scale : DeficiencyScale → DeficiencyClassification → Bool
is_on_scale icfr control_deficiency = true
is_on_scale icfr significant_deficiency = true
is_on_scale icfr material_weakness = true
is_on_scale risk_rating DeficiencyClassification.low = true
is_on_scale risk_rating DeficiencyClassification.medium = true
is_on_scale risk_rating DeficiencyClassification.high = true
is_on_scale _ not_a_deficiency = true
is_on_scale _ _ = false

pub record DeficiencyEvaluation : Type 0 where
  pub deficiency_id : String
  pub title : String
  pub related_findings : List String
  pub related_risks : List String
  pub compensating_controls : String
  pub likelihood : RiskRating
  pub magnitude : RiskRating
  pub classification : DeficiencyClassification
  pub rationale : String

abbrev pub is_material_weakness : DeficiencyClassification → Bool
is_material_weakness material_weakness = true
is_material_weakness _ = false

abbrev pub is_low : RiskRating → Bool
is_low RiskRating.low = true
is_low _ = false

abbrev pub is_high : RiskRating → Bool
is_high RiskRating.high = true
is_high _ = false

-- A material weakness that is not a reasonable possibility of a material misstatement.
unfoldable pub unsupported_weakness : DeficiencyClassification → RiskRating → RiskRating → Bool
unsupported_weakness classification likelihood magnitude =
    is_material_weakness classification && (is_low likelihood || not (is_high magnitude))

pub data ReportError : Type 0 where
  mixed_scales off_scale weakness_unsupported : ReportError

-- `_material_weakness_needs_magnitude`
unfoldable pub weakness_needs_magnitude :
    DeficiencyEvaluation → Result ReportError DeficiencyEvaluation
weakness_needs_magnitude e =
    if unsupported_weakness e.classification e.likelihood e.magnitude
    then err weakness_unsupported
    else ok e

-- `used <= allowed`
unfoldable pub all_on_scale : DeficiencyScale → List DeficiencyEvaluation → Bool
all_on_scale scale evaluations = all (λ e. is_on_scale scale e.classification) evaluations

-- the keys of SCALE_CLASSIFICATIONS
abbrev pub scales : List DeficiencyScale
scales = icfr ∷ risk_rating ∷ []

-- the scale that is inferred from those that match
abbrev pub inferred : List DeficiencyScale → Result ReportError (Option DeficiencyScale)
inferred [] = err mixed_scales
inferred (s ∷ []) = ok (some s)
inferred (s ∷ _ ∷ _) = ok none

-- `_check_scale`
unfoldable pub check_scale :
    Option DeficiencyScale → List DeficiencyEvaluation → Result ReportError (Option DeficiencyScale)
check_scale none evaluations = inferred (keep (λ s. all_on_scale s evaluations) scales)
check_scale (some scale) evaluations =
    if all_on_scale scale evaluations then ok (some scale) else err off_scale

pub record FinalReport : Type 0 where
  pub executive_summary : String
  pub detailed_report : String
  pub compliance_tone_approved : Bool
  pub deficiency_evaluations : List DeficiencyEvaluation
  pub deficiency_scale : Option DeficiencyScale

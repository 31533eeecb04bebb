-- ===== src/Schema/Decisions.antt =====
-- Reviewer decisions: the human's records beside the drafts.
use grc_audit_swarm.Base.{ℕ, String, Option, none, some, if◌then◌else◌, ◌==◌}
use grc_audit_swarm.Dict.{Dict}
use grc_audit_swarm.Schema.{RiskRating}
use grc_audit_swarm.Schema.Findings.{DesignConclusion, OperatingConclusion}
use grc_audit_swarm.Schema.Deficiencies.{DeficiencyClassification}

pub data DecisionType : Type 0 where
  sign_off challenge classify scope_limitation writeup management_response : DecisionType
  engagement_conclusion remediation_verification : DecisionType

abbrev pub type_value : DecisionType → String
type_value sign_off = "sign_off"
type_value challenge = "challenge"
type_value classify = "classify"
type_value scope_limitation = "scope_limitation"
type_value writeup = "writeup"
type_value management_response = "management_response"
type_value engagement_conclusion = "engagement_conclusion"
type_value remediation_verification = "remediation_verification"

-- `DecisionType(text)`, which raises for any other text
unfoldable pub decision_type_of : String → Option DecisionType
decision_type_of t =
    if t == "sign_off"
    then some sign_off
    else if t == "challenge"
    then some challenge
    else if t == "classify"
    then some classify
    else if t == "scope_limitation"
    then some scope_limitation
    else if t == "writeup"
    then some writeup
    else if t == "management_response"
    then some management_response
    else if t == "engagement_conclusion"
    then some engagement_conclusion
    else if t == "remediation_verification"
    then some remediation_verification
    else none

pub data DecisionSubjectType : Type 0 where
  finding deficiency engagement : DecisionSubjectType

abbrev pub subject_value : DecisionSubjectType → String
subject_value finding = "finding"
subject_value deficiency = "deficiency"
subject_value engagement = "engagement"

pub data IdentitySource : Type 0 where
  declared authenticated : IdentitySource

abbrev pub source_value : IdentitySource → String
source_value declared = "declared"
source_value authenticated = "authenticated"

unfoldable pub identity_source_of : String → Option IdentitySource
identity_source_of t =
    if t == "declared"
    then some declared
    else if t == "authenticated"
    then some authenticated
    else none

pub data EngagementRating : Type 0 where
  satisfactory needs_improvement unsatisfactory : EngagementRating

abbrev pub engagement_value : EngagementRating → String
engagement_value satisfactory = "Satisfactory"
engagement_value needs_improvement = "Needs improvement"
engagement_value unsatisfactory = "Unsatisfactory"

pub data ManagementAgreement : Type 0 where
  agree partial disagree : ManagementAgreement

abbrev pub agreement_value : ManagementAgreement → String
agreement_value agree = "agree"
agreement_value partial = "partial"
agreement_value disagree = "disagree"

pub data RemediationStatus : Type 0 where
  remediated partially_remediated still_open : RemediationStatus

abbrev pub remediation_value : RemediationStatus → String
remediation_value remediated = "remediated"
remediation_value partially_remediated = "partially_remediated"
remediation_value still_open = "open"

pub record ReviewDecision : Type 0 where
  pub decision_id : String
  pub phase : ℕ
  pub artifact : String
  pub draft_digest : String
  pub subject_type : DecisionSubjectType
  pub subject_id : String
  pub decision_type : DecisionType
  pub values : Dict
  pub rationale : String
  pub decided_by : String
  pub identity_source : IdentitySource
  pub decided_at : String
  pub supersedes : Option String

pub record ChallengeValues : Type 0 where
  pub tod_conclusion : Option DesignConclusion
  pub toe_conclusion : Option OperatingConclusion

pub record ClassifyValues : Type 0 where
  pub classification : DeficiencyClassification
  pub likelihood : Option RiskRating
  pub magnitude : Option RiskRating

pub record WriteupValues : Type 0 where
  pub criteria : String
  pub condition : String
  pub cause : String
  pub effect : String
  pub recommendation : String

pub record ManagementResponseValues : Type 0 where
  pub text : String
  pub agreement : ManagementAgreement
  pub action_owner_role : Option String
  pub target_date : Option String
  pub received_from : String
  pub received_on : String

pub record RemediationVerificationValues : Type 0 where
  pub status : RemediationStatus
  pub verified_on : String
  pub evidence_vault_id : Option String

-- `DECISION_VALUE_MODELS`: what a request's values parse to
abbrev pub ParsedValues : DecisionType → Type 0
ParsedValues challenge = ChallengeValues
ParsedValues classify = ClassifyValues
ParsedValues writeup = WriteupValues
ParsedValues management_response = ManagementResponseValues
ParsedValues engagement_conclusion = EngagementRating
ParsedValues remediation_verification = RemediationVerificationValues
ParsedValues _ = Unit

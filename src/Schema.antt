-- ===== src/Schema.antt =====
-- src/swarm/schema.py: the contracts of the audit's artifacts. The fields that a model writes are
-- taken as pydantic delivers them, after it has matched the enumerations' spellings.
pub mod Findings
pub mod Deficiencies
pub mod Decisions
mod Samples
use grc_audit_swarm.Base.{ℕ, String, Bool, Option, List}

pub data RiskRating : Type 0 where
  low medium high : RiskRating

pub data ControlFrequency : Type 0 where
  annual quarterly monthly weekly daily multiple_times_per_day : ControlFrequency
  event_driven continuous : ControlFrequency

pub data ControlNature : Type 0 where
  manual automated it_dependent_manual : ControlNature

pub data ControlType : Type 0 where
  preventive detective : ControlType

pub data SamplingMethod : Type 0 where
  test_of_one random systematic haphazard judgmental full_population : SamplingMethod
  not_applicable : SamplingMethod

pub record ControlTestStep : Type 0 where
  pub step_description : String
  pub expected_result : String

pub record Population : Type 0 where
  pub source : String
  pub completeness_procedure : String

pub record ControlTesting : Type 0 where
  pub test_of_design : List ControlTestStep
  pub test_of_effectiveness : List ControlTestStep
  pub substantive_testing : Option (List ControlTestStep)
  pub population : Option Population
  pub sample_size : Option ℕ
  pub sampling_method : Option SamplingMethod
  pub period_of_reliance : Option String

pub record Control : Type 0 where
  pub control_id : String
  pub description : String
  pub control_owner : Option String
  pub frequency : Option ControlFrequency
  pub nature : Option ControlNature
  pub control_type : Option ControlType
  pub key_control : Option Bool
  pub assertions : List String
  pub ipe : List String
  pub testing_procedures : ControlTesting

pub record Risk : Type 0 where
  pub risk_id : String
  pub description : String
  pub likelihood : Option RiskRating
  pub impact : Option RiskRating
  pub rating_rationale : Option String
  pub regulatory_mapping : List String
  pub controls : List Control

pub record RiskControlMatrix : Type 0 where
  pub theme : String
  pub risks : List Risk

-- the QA reviewer's answer
pub record QaPushback : Type 0 where
  pub approved : Bool
  pub rejection_reason : Option String

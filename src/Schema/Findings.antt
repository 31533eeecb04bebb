-- ===== src/Schema/Findings.antt =====
-- Working papers: the findings, their derived result and the validator that holds them consistent.
pub mod Consistent
use grc_audit_swarm.Base.{
  ℕ, zero, String, Bool, true, false, not, ◌&&◌, ◌||◌, Option, none, some, List, Result, ok, err,
  eqb, ltb, value_or, is_blank, if◌then◌else◌, ◌>>=◌, ◌>>◌,
}

pub data DesignConclusion : Type 0 where
  effective ineffective not_tested : DesignConclusion

pub data OperatingConclusion : Type 0 where
  effective exceptions_noted ineffective not_tested : OperatingConclusion

pub data FindingResult : Type 0 where
  no_exception exception not_tested : FindingResult

-- the members' string values
abbrev pub design_value : DesignConclusion → String
design_value DesignConclusion.effective = "Effective"
design_value DesignConclusion.ineffective = "Ineffective"
design_value DesignConclusion.not_tested = "Not tested"

abbrev pub operating_value : OperatingConclusion → String
operating_value OperatingConclusion.effective = "Effective"
operating_value OperatingConclusion.exceptions_noted = "Exceptions noted"
operating_value OperatingConclusion.ineffective = "Ineffective"
operating_value OperatingConclusion.not_tested = "Not tested"

abbrev pub result_value : FindingResult → String
result_value FindingResult.no_exception = "No exception"
result_value FindingResult.exception = "Exception"
result_value FindingResult.not_tested = "Not tested"

abbrev pub same_result : FindingResult → FindingResult → Bool
same_result FindingResult.no_exception FindingResult.no_exception = true
same_result FindingResult.exception FindingResult.exception = true
same_result FindingResult.not_tested FindingResult.not_tested = true
same_result _ _ = false

-- the first test of `_derive_result`
abbrev pub shows_exception : DesignConclusion → OperatingConclusion → Option ℕ → Bool
shows_exception DesignConclusion.ineffective toe exceptions = true
shows_exception tod OperatingConclusion.exceptions_noted exceptions = true
shows_exception tod OperatingConclusion.ineffective exceptions = true
shows_exception tod toe exceptions = ltb 0 (value_or exceptions 0)

abbrev pub both_untested : DesignConclusion → OperatingConclusion → Bool
both_untested DesignConclusion.not_tested OperatingConclusion.not_tested = true
both_untested _ _ = false

unfoldable pub derive_result : DesignConclusion → OperatingConclusion → Option ℕ → FindingResult
derive_result tod toe exceptions =
    if shows_exception tod toe exceptions
    then FindingResult.exception
    else if both_untested tod toe
    then FindingResult.not_tested
    else FindingResult.no_exception

pub record AuditFinding : Type 0 where
  pub control_id : String
  pub vault_id_reference : String
  pub exact_quote_from_evidence : String
  pub tod_conclusion : DesignConclusion
  pub toe_conclusion : OperatingConclusion
  pub toe_basis : Option String
  pub items_tested : Option ℕ
  pub exceptions_noted : Option ℕ
  pub result : Option FindingResult
  pub preliminary_deficiency : Option Bool
  pub test_conclusion : String
  pub legacy_severity : Option String

pub record WorkingPaper : Type 0 where
  pub theme : String
  pub findings : List AuditFinding

-- the messages of the validator's `ValueError`s, each with the finding's control
pub data FindingError : Type 0 where
  effective_with_exceptions result_contradicts deficiency_without_exception : FindingError
  no_evidence : FindingError

abbrev pub is_effective : OperatingConclusion → Bool
is_effective OperatingConclusion.effective = true
is_effective _ = false

abbrev pub is_exception : FindingResult → Bool
is_exception r = same_result r FindingResult.exception

abbrev pub is_not_tested : FindingResult → Bool
is_not_tested r = same_result r FindingResult.not_tested

-- a check of the validator
abbrev pub reject_if : Bool → FindingError → Result FindingError (Unit {0})
reject_if true e = err e
reject_if false e = ok tt

-- the result, given or derived
unfoldable pub settle_result :
    Option FindingResult → FindingResult → Result FindingError FindingResult
settle_result none derived = ok derived
settle_result (some r) derived = if same_result r derived then ok r else err result_contradicts

unfoldable pub settle_deficiency : Option Bool → FindingResult → Result FindingError Bool
settle_deficiency none r = ok (is_exception r)
settle_deficiency (some p) r =
    if p && not (is_exception r) then err deficiency_without_exception else ok p

-- `_consistent`
unfoldable pub consistent : AuditFinding → Result FindingError AuditFinding
unfolding settle_result settle_deficiency
consistent f = do
  reject_if (is_effective f.toe_conclusion && ltb 0 (value_or f.exceptions_noted 0))
      effective_with_exceptions
  r ← settle_result f.result (derive_result f.tod_conclusion f.toe_conclusion f.exceptions_noted)
  p ← settle_deficiency f.preliminary_deficiency r
  reject_if
      (not (is_not_tested r)
        && not (not (is_blank f.exact_quote_from_evidence) && not (is_blank f.vault_id_reference)))
      no_evidence
  ok (record f { result = some r; preliminary_deficiency = some p })

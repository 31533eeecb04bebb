-- ===== src/Schema/Findings/Consistent.antt =====
-- What the validator of a finding guarantees.
use grc_audit_swarm.Base.{◌≡◌, ◌≢◌, ◌↔◌, true, false, none, some, arith, ok, value_or, is_blank}
use grc_audit_swarm.Schema.Findings.{
  AuditFinding, OperatingConclusion, FindingResult, derive_result, consistent,
}

-- The validated form of a finding: the result is the derived one, a preliminary deficiency is an
-- exception's, an effective operation shows no exception, and a tested control has its evidence.
pub record IsConsistent (f : AuditFinding) : Type 0 where
  pub derived : f.result ≡ some (derive_result f.tod_conclusion f.toe_conclusion f.exceptions_noted)
  pub decided : f.preliminary_deficiency ≢ none
  pub deficiency : f.preliminary_deficiency ≡ some true → f.result ≡ some FindingResult.exception
  pub effective :
      f.toe_conclusion ≡ OperatingConclusion.effective → value_or f.exceptions_noted 0 ≡ 0
  pub evidence :
      f.result ≢ some FindingResult.not_tested
      → (is_blank f.exact_quote_from_evidence ≡ false) × (is_blank f.vault_id_reference ≡ false)

-- A finding that the validator accepts comes out consistent.
pub consistent-IsConsistent : (f g : AuditFinding) → consistent f ≡ ok g → IsConsistent g
unfolding consistent
consistent-IsConsistent f g h = ground arith

-- Exactly the consistent findings pass unchanged, so a validated finding is accepted as it is when
-- it is validated again.
pub consistent_fixed_iff : (f : AuditFinding) → (consistent f ≡ ok f) ↔ IsConsistent f
unfolding consistent
consistent_fixed_iff f = (consistent-IsConsistent f f, λ h. ground arith)

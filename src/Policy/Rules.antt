-- ===== src/Policy/Rules.antt =====
-- What the policy allows a decision to do: its statuses, and the changes of a conclusion.
use grc_audit_swarm.Base.{String, ◌≡◌, ◌↔◌, ◌⊎◌, inl, inr, true, none, eq_iff, arith}
use grc_audit_swarm.Policy.{decision_status_violation, conclusion_change_allowed}

-- Once the audit is completed, exactly management responses and remediation verifications may
-- still be recorded.
completed_decisions_iff :
    (t : String)
    → (decision_status_violation t "COMPLETED" ≡ none)
      ↔ ((t ≡ "management_response") ⊎ (t ≡ "remediation_verification"))
unfolding decision_status_violation
completed_decisions_iff t = (
  λ h. ground (
    arith,
    eq_iff t "sign_off",
    eq_iff t "challenge",
    eq_iff t "classify",
    eq_iff t "scope_limitation",
    eq_iff t "engagement_conclusion",
    eq_iff t "writeup",
    eq_iff t "management_response",
    eq_iff t "remediation_verification",
  ),
  elim [ inl e ↦ rw e | inr e ↦ rw e ],
)

-- Without rework a reviewer may keep a conclusion, or withdraw a positive one.
conclusion_change_allowed_iff :
    (draft new : String)
    → (conclusion_change_allowed draft new ≡ true)
      ↔ ((new ≡ draft) ⊎ ((draft ≡ "Effective") × (new ≡ "Not tested")))
unfolding conclusion_change_allowed
conclusion_change_allowed_iff draft new = (
  λ h. ground (arith, eq_iff new draft, eq_iff new "Not tested", eq_iff "Effective" draft),
  λ h. ground (arith, eq_iff new draft, eq_iff new "Not tested", eq_iff "Effective" draft),
)

-- ===== src/Flow/Actions.antt =====
-- The human calls on an `AuditFlow`, as the API makes them, with their arguments.
use grc_audit_swarm.Base.{ℕ, String, Bool}
use grc_audit_swarm.Machine.{Phase}
use grc_audit_swarm.Decisions.{Platform}
use grc_audit_swarm.Decisions.Build.{DecisionRequest}
use grc_audit_swarm.Flow.{
  Step, approve, begin_phase_1, retry, return_phase, override_rejection, record_preparer,
  record_decision,
}
use grc_audit_swarm.Flow.Checks.{Vault}

pub data Action : Type 0 where
  begins : Action
  -- gate, human, identity source
  approves : Phase → String → String → Action
  -- phase, human, identity source
  retries : ℕ → String → String → Action
  -- phase, human, notes, identity source
  returns overrides : ℕ → String → String → String → Action
  -- preparer, whether decisions are required, identity source
  creates : String → Bool → String → Action
  -- request, new id
  decides : DecisionRequest → String → Action

module _ (env : Platform) (vault : Vault) (now : String) where
  unfoldable pub perform : Action → Step (Unit {0})
  perform begins = begin_phase_1 env now
  perform (approves p human source) = approve env now vault p human source
  perform (retries n human source) = retry env now n human source
  perform (returns n human notes source) = return_phase env now n human notes source
  perform (overrides n human reason source) = override_rejection env now vault n human reason source
  perform (creates preparer required source) = record_preparer env now preparer required source
  perform (decides r new_id) = record_decision env now r new_id

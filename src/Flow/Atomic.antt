-- ===== src/Flow/Atomic.antt =====
-- The calls of `AuditFlow` that raise.
use grc_audit_swarm.Base.{ℕ, String, ◌≡◌, Bool, Result, err}
use grc_audit_swarm.Machine.{Phase, Operation}
use grc_audit_swarm.Decisions.{Platform}
use grc_audit_swarm.Decisions.Errors.{AuditError}
use grc_audit_swarm.Decisions.Build.{DecisionRequest}
use grc_audit_swarm.Flow.{
  Step, approve, begin_phase_1, retry, return_phase, override_rejection, record_preparer,
  record_decision, moved,
}
use grc_audit_swarm.Flow.State.{Flow}
use grc_audit_swarm.Flow.Methods.{
  ◌>>=◌, reading, modify, updating, Atomic, reading-Reads, modify-Returns, updating-Atomic,
  Reads-then, then-Returns, answer_of, state_after,
}
use grc_audit_swarm.Flow.Actions.{
  Action, perform, begins, approves, retries, returns, overrides, creates, decides,
}
use grc_audit_swarm.Flow.Checks.{Vault}

-- a check before an atomic rest
checked :
    {A B : Type 0} (g : Flow → Result AuditError A) (k : A → Step B)
    → ((a : A) → Atomic (k a))
    → Atomic (reading g >>= k)
checked g k = Reads-then (reading g) k (reading-Reads g)

-- a transition and the record of it
moved_recorded : (o : Operation) (g : Flow → Flow) → Atomic (updating (moved o) >>= λ _. modify g)
moved_recorded o g =
    then-Returns (updating (moved o)) (λ _. modify g) (updating-Atomic (moved o))
      λ _. modify-Returns g

recorded : (g : Flow → Flow) → Atomic {E = AuditError} (modify g)
unfolding modify
recorded g s e h = cc

module _ (env : Platform) (vault : Vault) (now : String) where
  approve-Atomic :
      (p : Phase) (human source : String) → Atomic (approve env now vault p human source)
  unfolding approve
  approve-Atomic p human source =
      checked _ _ λ h. checked _ _ λ s. checked _ _ λ json. checked _ _ λ sealed. moved_recorded _ _

  retry-Atomic : (n : ℕ) (human source : String) → Atomic (retry env now n human source)
  unfolding retry
  retry-Atomic n human source =
      checked _ _ λ p. checked _ _ λ h. checked _ _ λ s. checked _ _ λ previous. moved_recorded _ _

  return_phase-Atomic :
      (n : ℕ) (human notes source : String) → Atomic (return_phase env now n human notes source)
  unfolding return_phase
  return_phase-Atomic n human notes source = checked _ _ λ p.
      checked _ _
        λ h. checked _ _ λ t. checked _ _ λ s. checked _ _ λ _. checked _ _ λ _. moved_recorded _ _

  override_rejection-Atomic :
      (n : ℕ) (human reason source : String)
      → Atomic (override_rejection env now vault n human reason source)
  unfolding override_rejection
  override_rejection-Atomic n human reason source = checked _ _ λ p. checked _ _ λ h.
      checked _ _ λ r. checked _ _ λ s.
        checked _ _
          λ _. checked _ _ λ _. checked _ _ λ json. checked _ _ λ unverified. moved_recorded _ _

  record_preparer-Atomic :
      (preparer : String) (required : Bool) (source : String)
      → Atomic (record_preparer env now preparer required source)
  unfolding record_preparer
  record_preparer-Atomic preparer required source =
      checked _ _ λ p. checked _ _ λ s. checked _ _ λ _. recorded _

  record_decision-Atomic :
      (r : DecisionRequest) (new_id : String) → Atomic (record_decision env now r new_id)
  unfolding record_decision
  record_decision-Atomic r new_id = checked _ _ λ d. recorded _

  begin_phase_1-Atomic : Atomic (begin_phase_1 env now)
  unfolding begin_phase_1
  begin_phase_1-Atomic = moved_recorded _ _

  -- Every human call that raises leaves the whole audit unchanged: status, drafts, decisions and
  -- trail. Nothing is transitioned or stamped when a check fails.
  pub perform-err_unchanged :
      (a : Action) (f : Flow) (e : AuditError)
      → answer_of (perform env vault now a f) ≡ err e
      → state_after (perform env vault now a f) ≡ f
  unfolding perform
  perform-err_unchanged begins = begin_phase_1-Atomic
  perform-err_unchanged (approves p human source) = approve-Atomic p human source
  perform-err_unchanged (retries n human source) = retry-Atomic n human source
  perform-err_unchanged (returns n human notes source) = return_phase-Atomic n human notes source
  perform-err_unchanged (overrides n human reason source) =
      override_rejection-Atomic n human reason source
  perform-err_unchanged (creates preparer required source) =
      record_preparer-Atomic preparer required source
  perform-err_unchanged (decides r new_id) = record_decision-Atomic r new_id

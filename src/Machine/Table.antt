-- ===== src/Machine/Table.antt =====
-- What each named transition of machine.py accepts.
use grc_audit_swarm.Base.{◌≡◌, refl, ◌↔◌, Result, ok, err, subst}
use grc_audit_swarm.Machine.{
  Phase, one, two, three, AuditStatus, waiting_for_scope, running_phase_1, running_phase_2,
  running_phase_3, waiting_human_gate_1, waiting_human_gate_2, waiting_human_gate_3, completed,
  InvalidTransitionError, Operation, start_phase_1, complete_phase, reject_phase, error_phase,
  retry_phase, return_for_rework, override_qa, approve_gate, running, waiting_gate, qa_rejected,
  error, apply, qa_rejected_phase_1, error_phase_1, qa_rejected_phase_2, error_phase_2,
  qa_rejected_phase_3, error_phase_3,
}

-- The documented meaning of each transition, told by its source and its target.
pub data Edge : Operation → AuditStatus → AuditStatus → Type 0 where
  starts : Edge start_phase_1 waiting_for_scope running_phase_1
  completes : (p : Phase) → Edge (complete_phase p) (running p) (waiting_gate p)
  rejects : (p : Phase) → Edge (reject_phase p) (running p) (qa_rejected p)
  fails : (p : Phase) → Edge (error_phase p) (running p) (error p)
  retries_rejected : (p : Phase) → Edge (retry_phase p) (qa_rejected p) (running p)
  retries_error : (p : Phase) → Edge (retry_phase p) (error p) (running p)
  returns : (p : Phase) → Edge (return_for_rework p) (waiting_gate p) (running p)
  overrides : (p : Phase) → Edge (override_qa p) (qa_rejected p) (waiting_gate p)
  approves_1 : Edge (approve_gate one) waiting_human_gate_1 running_phase_2
  approves_2 : Edge (approve_gate two) waiting_human_gate_2 running_phase_3
  approves_3 : Edge (approve_gate three) waiting_human_gate_3 completed

pub apply-eq-ok : {o : Operation} {s t : AuditStatus} → Edge o s t → apply o s ≡ ok t
unfolding apply running waiting_gate qa_rejected error
apply-eq-ok starts = refl
apply-eq-ok (completes one) = refl
apply-eq-ok (completes two) = refl
apply-eq-ok (completes three) = refl
apply-eq-ok (rejects one) = refl
apply-eq-ok (rejects two) = refl
apply-eq-ok (rejects three) = refl
apply-eq-ok (fails one) = refl
apply-eq-ok (fails two) = refl
apply-eq-ok (fails three) = refl
apply-eq-ok (retries_rejected one) = refl
apply-eq-ok (retries_rejected two) = refl
apply-eq-ok (retries_rejected three) = refl
apply-eq-ok (retries_error one) = refl
apply-eq-ok (retries_error two) = refl
apply-eq-ok (retries_error three) = refl
apply-eq-ok (returns one) = refl
apply-eq-ok (returns two) = refl
apply-eq-ok (returns three) = refl
apply-eq-ok (overrides one) = refl
apply-eq-ok (overrides two) = refl
apply-eq-ok (overrides three) = refl
apply-eq-ok approves_1 = refl
apply-eq-ok approves_2 = refl
apply-eq-ok approves_3 = refl

-- an accepted call follows an edge, a refused one names the status that it leaves
abbrev Answer : Operation → AuditStatus → Result InvalidTransitionError AuditStatus → Type 0
Answer o s (ok t) = Edge o s t
Answer o s (err e) = e.current ≡ s

answer : (o : Operation) (s : AuditStatus) → Answer o s (apply o s)
unfolding apply running waiting_gate qa_rejected error
answer start_phase_1 waiting_for_scope = starts
answer (complete_phase one) running_phase_1 = completes one
answer (complete_phase two) running_phase_2 = completes two
answer (complete_phase three) running_phase_3 = completes three
answer (reject_phase one) running_phase_1 = rejects one
answer (reject_phase two) running_phase_2 = rejects two
answer (reject_phase three) running_phase_3 = rejects three
answer (error_phase one) running_phase_1 = fails one
answer (error_phase two) running_phase_2 = fails two
answer (error_phase three) running_phase_3 = fails three
answer (retry_phase one) qa_rejected_phase_1 = retries_rejected one
answer (retry_phase two) qa_rejected_phase_2 = retries_rejected two
answer (retry_phase three) qa_rejected_phase_3 = retries_rejected three
answer (retry_phase one) error_phase_1 = retries_error one
answer (retry_phase two) error_phase_2 = retries_error two
answer (retry_phase three) error_phase_3 = retries_error three
answer (return_for_rework one) waiting_human_gate_1 = returns one
answer (return_for_rework two) waiting_human_gate_2 = returns two
answer (return_for_rework three) waiting_human_gate_3 = returns three
answer (override_qa one) qa_rejected_phase_1 = overrides one
answer (override_qa two) qa_rejected_phase_2 = overrides two
answer (override_qa three) qa_rejected_phase_3 = overrides three
answer (approve_gate one) waiting_human_gate_1 = approves_1
answer (approve_gate two) waiting_human_gate_2 = approves_2
answer (approve_gate three) waiting_human_gate_3 = approves_3
answer _ _ = refl

pub Edge-of_apply : {o : Operation} {s t : AuditStatus} → apply o s ≡ ok t → Edge o s t
Edge-of_apply {o} {s} h = subst (Answer o s) h (answer o s)

-- A transition is accepted exactly on its documented edges, with the edge's target as the new
-- status: the two checks, of the source and of the table, agree with the documentation.
pub apply_iff : (o : Operation) (s t : AuditStatus) → (apply o s ≡ ok t) ↔ Edge o s t
apply_iff o s t = (Edge-of_apply, apply-eq-ok)

-- A refused call reports the status in which it was made.
pub apply-err_current :
    (o : Operation) (s : AuditStatus) (e : InvalidTransitionError)
    → apply o s ≡ err e
    → e.current ≡ s
apply-err_current o s e h = subst (Answer o s) h (answer o s)

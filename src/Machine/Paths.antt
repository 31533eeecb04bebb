-- ===== src/Machine/Paths.antt =====
-- What an audit has been through when it reaches a status.
use mathlib.Core.List.{append_assoc, append-nil}
use grc_audit_swarm.Base.{◌≡◌, refl, sym, List, [], ◌∷◌, ◌++◌, Result, ok, err}
use grc_audit_swarm.Machine.{
  Phase, one, two, three, AuditStatus, waiting_for_scope, running_phase_1, running_phase_2,
  running_phase_3, waiting_human_gate_1, waiting_human_gate_2, waiting_human_gate_3,
  qa_rejected_phase_1, qa_rejected_phase_2, qa_rejected_phase_3, error_phase_1, error_phase_2,
  error_phase_3, completed, InvalidTransitionError, Operation, start_phase_1, complete_phase,
  retry_phase, approve_gate, running, waiting_gate, qa_rejected, error, apply, run,
}
use grc_audit_swarm.Machine.Table.{
  Edge, starts, completes, rejects, fails, retries_rejected, retries_error, returns, overrides,
  approves_1, approves_2, approves_3, Edge-of_apply,
}

-- the gate that an operation approves
abbrev pub approval : Operation → List Phase
approval (approve_gate p) = p ∷ []
approval _ = []

abbrev pub approvals : List Operation → List Phase
approvals [] = []
approvals (o ∷ os) = approval o ++ approvals os

-- the gates that an audit has behind it in a status
abbrev pub passed : AuditStatus → List Phase
passed running_phase_2 = one ∷ []
passed waiting_human_gate_2 = one ∷ []
passed qa_rejected_phase_2 = one ∷ []
passed error_phase_2 = one ∷ []
passed running_phase_3 = one ∷ two ∷ []
passed waiting_human_gate_3 = one ∷ two ∷ []
passed qa_rejected_phase_3 = one ∷ two ∷ []
passed error_phase_3 = one ∷ two ∷ []
passed completed = one ∷ two ∷ three ∷ []
passed _ = []

passed-Edge : {o : Operation} {s t : AuditStatus} → Edge o s t → passed t ≡ passed s ++ approval o
unfolding running waiting_gate qa_rejected error
passed-Edge starts = refl
passed-Edge (completes one) = refl
passed-Edge (completes two) = refl
passed-Edge (completes three) = refl
passed-Edge (rejects one) = refl
passed-Edge (rejects two) = refl
passed-Edge (rejects three) = refl
passed-Edge (fails one) = refl
passed-Edge (fails two) = refl
passed-Edge (fails three) = refl
passed-Edge (retries_rejected one) = refl
passed-Edge (retries_rejected two) = refl
passed-Edge (retries_rejected three) = refl
passed-Edge (retries_error one) = refl
passed-Edge (retries_error two) = refl
passed-Edge (retries_error three) = refl
passed-Edge (returns one) = refl
passed-Edge (returns two) = refl
passed-Edge (returns three) = refl
passed-Edge (overrides one) = refl
passed-Edge (overrides two) = refl
passed-Edge (overrides three) = refl
passed-Edge approves_1 = refl
passed-Edge approves_2 = refl
passed-Edge approves_3 = refl

-- The gates approved by a sequence of accepted calls are those between its two statuses.
pub approvals-run :
    (os : List Operation) (s t : AuditStatus)
    → run s os ≡ ok t
    → passed t ≡ passed s ++ approvals os
unfolding run
approvals-run [] s t h = let e : s ≡ t = cc in rw (append-nil, e)
approvals-run (o ∷ os) s t h = after (apply o s) refl (λ u. approvals-run os u t) h
  where
    after :
        (r : Result InvalidTransitionError AuditStatus)
        → apply o s ≡ r
        → ((u : AuditStatus) → run u os ≡ ok t → passed t ≡ passed u ++ approvals os)
        → (elim r [ ok u ↦ run u os | err e ↦ err e ]) ≡ ok t
        → passed t ≡ passed s ++ approvals (o ∷ os)
    after (ok u) e ih rest =
        rw (ih u rest, passed-Edge (Edge-of_apply e)) (append_assoc (passed s) (approval o) _)
    after (err x) e ih rest = cc

-- A completed audit has had its three gates approved, each once and in order, whatever retries,
-- returns, overrides, rejections and errors came between.
pub completed_approvals :
    (os : List Operation)
    → run waiting_for_scope os ≡ ok completed
    → approvals os ≡ one ∷ two ∷ three ∷ []
completed_approvals os h = sym (approvals-run os waiting_for_scope completed h)

-- the calls that finish an audit, if each phase passes its review
abbrev from_gate_3 : List Operation
from_gate_3 = approve_gate three ∷ []

abbrev from_phase_3 : List Operation
from_phase_3 = complete_phase three ∷ from_gate_3

abbrev from_gate_2 : List Operation
from_gate_2 = approve_gate two ∷ from_phase_3

abbrev from_phase_2 : List Operation
from_phase_2 = complete_phase two ∷ from_gate_2

abbrev from_gate_1 : List Operation
from_gate_1 = approve_gate one ∷ from_phase_2

abbrev from_phase_1 : List Operation
from_phase_1 = complete_phase one ∷ from_gate_1

abbrev pub way_out : AuditStatus → List Operation
way_out waiting_for_scope = start_phase_1 ∷ from_phase_1
way_out running_phase_1 = from_phase_1
way_out waiting_human_gate_1 = from_gate_1
way_out qa_rejected_phase_1 = retry_phase one ∷ from_phase_1
way_out error_phase_1 = retry_phase one ∷ from_phase_1
way_out running_phase_2 = from_phase_2
way_out waiting_human_gate_2 = from_gate_2
way_out qa_rejected_phase_2 = retry_phase two ∷ from_phase_2
way_out error_phase_2 = retry_phase two ∷ from_phase_2
way_out running_phase_3 = from_phase_3
way_out waiting_human_gate_3 = from_gate_3
way_out qa_rejected_phase_3 = retry_phase three ∷ from_phase_3
way_out error_phase_3 = retry_phase three ∷ from_phase_3
way_out completed = []

-- No status is a dead end: from each there are calls, all accepted, that complete the audit.
pub run-way_out : (s : AuditStatus) → run s (way_out s) ≡ ok completed
unfolding run apply
run-way_out waiting_for_scope = refl
run-way_out _ = refl

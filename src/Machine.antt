-- ===== src/Machine.antt =====
-- src/swarm/state/machine.py: the audit's lifecycle. A transition takes the current status and
-- returns the new one, or the exception with which the call leaves the status as it was.
pub mod Table
pub mod Paths
mod Samples
use grc_audit_swarm.Base.{
  ℕ, zero, suc, String, Bool, true, false, ◌||◌, not, ◌&&◌, List, [], ◌∷◌, Result, ok, err, eqb,
  is_empty, if◌then◌else◌, Option, none, some,
}

-- A phase number that the callers have checked to be 1, 2 or 3.
pub data Phase : Type 0 where
  one two three : Phase

pub data AuditStatus : Type 0 where
  waiting_for_scope : AuditStatus
  running_phase_1 waiting_human_gate_1 qa_rejected_phase_1 error_phase_1 : AuditStatus
  running_phase_2 waiting_human_gate_2 qa_rejected_phase_2 error_phase_2 : AuditStatus
  running_phase_3 waiting_human_gate_3 qa_rejected_phase_3 error_phase_3 : AuditStatus
  completed : AuditStatus

-- the members' string values
unfoldable pub value : AuditStatus → String
value waiting_for_scope = "WAITING_FOR_SCOPE"
value running_phase_1 = "RUNNING_PHASE_1"
value waiting_human_gate_1 = "WAITING_HUMAN_GATE_1"
value qa_rejected_phase_1 = "QA_REJECTED_PHASE_1"
value error_phase_1 = "ERROR_PHASE_1"
value running_phase_2 = "RUNNING_PHASE_2"
value waiting_human_gate_2 = "WAITING_HUMAN_GATE_2"
value qa_rejected_phase_2 = "QA_REJECTED_PHASE_2"
value error_phase_2 = "ERROR_PHASE_2"
value running_phase_3 = "RUNNING_PHASE_3"
value waiting_human_gate_3 = "WAITING_HUMAN_GATE_3"
value qa_rejected_phase_3 = "QA_REJECTED_PHASE_3"
value error_phase_3 = "ERROR_PHASE_3"
value completed = "COMPLETED"

-- the position in the enumeration, by which two members are compared
abbrev ordinal : AuditStatus → ℕ
ordinal waiting_for_scope = 0
ordinal running_phase_1 = 1
ordinal waiting_human_gate_1 = 2
ordinal qa_rejected_phase_1 = 3
ordinal error_phase_1 = 4
ordinal running_phase_2 = 5
ordinal waiting_human_gate_2 = 6
ordinal qa_rejected_phase_2 = 7
ordinal error_phase_2 = 8
ordinal running_phase_3 = 9
ordinal waiting_human_gate_3 = 10
ordinal qa_rejected_phase_3 = 11
ordinal error_phase_3 = 12
ordinal completed = 13

unfoldable pub is_status : AuditStatus → AuditStatus → Bool
is_status a b = eqb (ordinal a) (ordinal b)

unfoldable pub is_among : AuditStatus → List AuditStatus → Bool
unfolding is_status
is_among s [] = false
is_among s (t ∷ ts) = is_status s t || is_among s ts

unfoldable pub transitions : AuditStatus → List AuditStatus
transitions waiting_for_scope = running_phase_1 ∷ []
transitions running_phase_1 = waiting_human_gate_1 ∷ qa_rejected_phase_1 ∷ error_phase_1 ∷ []
transitions waiting_human_gate_1 = running_phase_2 ∷ running_phase_1 ∷ []
transitions qa_rejected_phase_1 = running_phase_1 ∷ waiting_human_gate_1 ∷ []
transitions error_phase_1 = running_phase_1 ∷ []
transitions running_phase_2 = waiting_human_gate_2 ∷ qa_rejected_phase_2 ∷ error_phase_2 ∷ []
transitions waiting_human_gate_2 = running_phase_3 ∷ running_phase_2 ∷ []
transitions qa_rejected_phase_2 = running_phase_2 ∷ waiting_human_gate_2 ∷ []
transitions error_phase_2 = running_phase_2 ∷ []
transitions running_phase_3 = waiting_human_gate_3 ∷ qa_rejected_phase_3 ∷ error_phase_3 ∷ []
transitions waiting_human_gate_3 = completed ∷ running_phase_3 ∷ []
transitions qa_rejected_phase_3 = running_phase_3 ∷ waiting_human_gate_3 ∷ []
transitions error_phase_3 = running_phase_3 ∷ []
transitions completed = []

pub record InvalidTransitionError : Type 0 where
  pub current : AuditStatus
  pub target : AuditStatus

unfoldable pub running : Phase → AuditStatus
running one = running_phase_1
running two = running_phase_2
running three = running_phase_3

unfoldable pub waiting_gate : Phase → AuditStatus
waiting_gate one = waiting_human_gate_1
waiting_gate two = waiting_human_gate_2
waiting_gate three = waiting_human_gate_3

unfoldable pub qa_rejected : Phase → AuditStatus
qa_rejected one = qa_rejected_phase_1
qa_rejected two = qa_rejected_phase_2
qa_rejected three = qa_rejected_phase_3

unfoldable pub error : Phase → AuditStatus
error one = error_phase_1
error two = error_phase_2
error three = error_phase_3

-- `can(target, *sources)`: no sources given means that any source will do
unfoldable pub can : AuditStatus → AuditStatus → List AuditStatus → Bool
unfolding is_among transitions
can status target sources =
    if not (is_empty sources) && not (is_among status sources)
    then false
    else is_among target (transitions status)

unfoldable pub transition :
    AuditStatus → AuditStatus → List AuditStatus → Result InvalidTransitionError AuditStatus
unfolding can
transition status target sources =
    if not (can status target sources)
    then err (record { current = status; target = target })
    else ok target

-- The named transitions; the methods for one phase, `complete_phase_1` and so on, are these at it.
pub data Operation : Type 0 where
  start_phase_1 : Operation
  complete_phase reject_phase error_phase retry_phase return_for_rework override_qa :
      Phase → Operation
  approve_gate : Phase → Operation

unfoldable pub apply : Operation → AuditStatus → Result InvalidTransitionError AuditStatus
unfolding transition running waiting_gate qa_rejected error
apply start_phase_1 s = transition s running_phase_1 (waiting_for_scope ∷ [])
apply (complete_phase p) s = transition s (waiting_gate p) (running p ∷ [])
apply (reject_phase p) s = transition s (qa_rejected p) (running p ∷ [])
apply (error_phase p) s = transition s (error p) (running p ∷ [])
apply (retry_phase p) s = transition s (running p) (qa_rejected p ∷ error p ∷ [])
apply (return_for_rework p) s = transition s (running p) (waiting_gate p ∷ [])
apply (override_qa p) s = transition s (waiting_gate p) (qa_rejected p ∷ [])
apply (approve_gate one) s = transition s running_phase_2 (waiting_human_gate_1 ∷ [])
apply (approve_gate two) s = transition s running_phase_3 (waiting_human_gate_2 ∷ [])
apply (approve_gate three) s = transition s completed (waiting_human_gate_3 ∷ [])

-- A sequence of calls, each on the status that the calls before it left; the first that is refused
-- ends it.
unfoldable pub run : AuditStatus → List Operation → Result InvalidTransitionError AuditStatus
run s [] = ok s
run s (o ∷ os) = elim (apply o s) [ ok t ↦ run t os | err e ↦ err e ]

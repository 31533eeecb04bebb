-- ===== src/Machine/Samples.antt =====
-- Runs of the lifecycle at concrete statuses.
use grc_audit_swarm.Base.{◌≡◌, ◌↔◌, refl, List, [], ◌∷◌, ok}
use grc_audit_swarm.Machine.{
  one, two, three, waiting_for_scope, waiting_human_gate_2, running_phase_3, qa_rejected_phase_1,
  completed, Operation, start_phase_1, complete_phase, reject_phase, error_phase, retry_phase,
  return_for_rework, override_qa, approve_gate, apply, run,
}
use grc_audit_swarm.Machine.Table.{Edge, apply_iff}
use grc_audit_swarm.Machine.Paths.{approvals, completed_approvals, way_out, run-way_out}

-- an audit with a rejection, an override, a return and an error on its way
abbrev eventful : List Operation
eventful =
    start_phase_1
    ∷ reject_phase one
    ∷ override_qa one
    ∷ approve_gate one
    ∷ error_phase two
    ∷ retry_phase two
    ∷ complete_phase two
    ∷ return_for_rework two
    ∷ complete_phase two
    ∷ approve_gate two
    ∷ complete_phase three
    ∷ approve_gate three
    ∷ []

eventful-completes : run waiting_for_scope eventful ≡ ok completed
unfolding run apply
eventful-completes = refl

completed_approvals_example : approvals eventful ≡ one ∷ two ∷ three ∷ []
completed_approvals_example = completed_approvals eventful eventful-completes

apply_iff_example :
    (apply (approve_gate two) waiting_human_gate_2 ≡ ok running_phase_3)
    ↔ Edge (approve_gate two) waiting_human_gate_2 running_phase_3
apply_iff_example = apply_iff (approve_gate two) waiting_human_gate_2 running_phase_3

run-way_out_example : run qa_rejected_phase_1 (way_out qa_rejected_phase_1) ≡ ok completed
run-way_out_example = run-way_out qa_rejected_phase_1

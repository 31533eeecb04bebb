-- ===== src/Flow/Runner/Status.antt =====
-- The status in which a phase's run ends.
use grc_audit_swarm.Base.{
  String, ◌≡◌, refl, ◌⊎◌, inl, inr, Bool, true, false, Option, none, some, ok, ◌∙◌, ap,
  Option-cases, List, subst, sym, Result, last?,
}
use grc_audit_swarm.Machine.{
  Phase, one, two, three, AuditStatus, Operation, apply, running, waiting_gate, qa_rejected, error,
  is_status,
}
use grc_audit_swarm.Machine.Table.{Edge, completes, rejects, fails, apply-eq-ok}
use grc_audit_swarm.Decisions.Errors.{runtime_error, AuditError}
use grc_audit_swarm.Flow.{moved, committed, fail_phase, check, value}
use grc_audit_swarm.Flow.State.{Flow}
use grc_audit_swarm.Flow.Methods.{updating, answer_of, state_after}
use grc_audit_swarm.Flow.Leads.{
  Leads, bind-Leads, weaken, modify-Leads, reading-Leads, updating-Leads,
}
use grc_audit_swarm.Flow.Attempts.{
  ArtifactOf, Crew, Outcome, crashed, passed, rejected, run_attempts,
}
use grc_audit_swarm.Flow.Runner.{
  finish, store_artifact, set_artifact, add_run, add_crashed_run, note_rejection, complete_if,
  run_phase, run_crew_with_qa, generate, start_if_scoped, with_skills, lacks, GenerationRun,
  carried_feedback,
}

-- where a phase's run may leave the audit: at the gate, rejected, or stopped with an error
abbrev pub Ended : Phase → AuditStatus → Type 0
Ended p s = (s ≡ waiting_gate p) ⊎ (s ≡ qa_rejected p) ⊎ (s ≡ error p)

abbrev EndedAt : Phase → Unit {0} → Flow → Type 0
EndedAt p _ g = Ended p g.machine

abbrev At : AuditStatus → Unit {0} → Flow → Type 0
At s _ g = g.machine ≡ s

-- true while the phase goes on
abbrev Finished : Phase → Bool → Flow → Type 0
Finished p true g = g.machine ≡ running p
Finished p false g = Ended p g.machine

moved-Edge :
    {o : Operation} {s t : AuditStatus} (f : Flow)
    → Edge o s t
    → f.machine ≡ s
    → moved o f ≡ ok (committed t f)
unfolding moved
moved-Edge {o} {s} {t} f edge at =
    let e : apply o f.machine ≡ ok t = ap (apply o) at ∙ apply-eq-ok edge in rw (e, moved) refl

move-Leads :
    {o : Operation} {s t : AuditStatus} (f : Flow)
    → Edge o s t
    → f.machine ≡ s
    → Leads (updating (moved o)) f (At t)
unfolding committed
move-Leads {o} {s} {t} f edge at = updating-Leads _ (committed t f) (moved-Edge f edge at) refl

fail_phase-Leads :
    (p : Phase) (reason : String) (f : Flow)
    → f.machine ≡ running p
    → Leads (fail_phase p reason) f (At (error p))
unfolding fail_phase
fail_phase-Leads p reason f at = bind-Leads (move-Leads f (fails p) at) λ _ g e. modify-Leads _ e

set_artifact-machine :
    (p : Phase) (a : Option (ArtifactOf p)) (f : Flow) → (set_artifact p a f).machine ≡ f.machine
unfolding set_artifact
set_artifact-machine one a f = refl
set_artifact-machine two a f = refl
set_artifact-machine three a f = refl

module _ (p : Phase) (crew : Crew (ArtifactOf p)) (now : String) (run : GenerationRun) where
  store_artifact-Leads :
      (n : _) (a : ArtifactOf p) (f : Flow)
      → f.machine ≡ running p
      → Leads (store_artifact p crew now run n a) f (Finished p)
  unfolding store_artifact add_run
  store_artifact-Leads n a f at = elim (Option-cases (crew.invalid a)) [
    | inl valid ↦
        rw (valid, store_artifact)
          (bind-Leads {P = At (running p)}
            (bind-Leads {P = At (running p)}
              (modify-Leads _ (set_artifact-machine p (some a) f ∙ at)) λ _ g e. modify-Leads _ e)
            λ _ g e. reading-Leads _ true refl e)
    | inr (m, invalid) ↦
        rw (invalid, store_artifact)
          (bind-Leads
            (bind-Leads {P = At (running p)} (modify-Leads _ at) λ _ g e. fail_phase-Leads p _ g e)
            λ _ g e. reading-Leads _ false refl (inr (inr e)))
  ]

  finish-Leads :
      (o : Outcome (ArtifactOf p)) (f : Flow)
      → f.machine ≡ running p
      → Leads (finish p crew now run o) f (Finished p)
  unfolding finish add_run add_crashed_run note_rejection
  finish-Leads (crashed n m) f at =
      bind-Leads
        (bind-Leads {P = At (running p)} (modify-Leads _ at) λ _ g e. fail_phase-Leads p _ g e)
        λ _ g e. reading-Leads _ false refl (inr (inr e))
  finish-Leads (rejected n a by reason) f at =
      bind-Leads {P = At (qa_rejected p)}
        (bind-Leads
          (bind-Leads {P = At (running p)}
            (bind-Leads {P = At (running p)} (modify-Leads _ (set_artifact-machine p _ f ∙ at))
              λ _ g e. modify-Leads _ e)
            λ _ g e. move-Leads g (rejects p) e)
          λ _ g e. modify-Leads _ e)
        λ _ g e. reading-Leads _ false refl (inr (inl e))
  finish-Leads (passed n none) f at =
      bind-Leads
        (bind-Leads {P = At (running p)} (modify-Leads _ at) λ _ g e. fail_phase-Leads p _ g e)
        λ _ g e. reading-Leads _ false refl (inr (inr e))
  finish-Leads (passed n (some a)) f at = store_artifact-Leads n a f at

  complete_if-Leads : (b : Bool) (f : Flow) → Finished p b f → Leads (complete_if p b) f (EndedAt p)
  unfolding complete_if
  complete_if-Leads false f ended = reading-Leads _ tt refl ended
  complete_if-Leads true f at =
      bind-Leads (move-Leads f (completes p) at) λ _ g e. modify-Leads _ (inl e)

  run_phase-Leads :
      (g f : Flow)
      → crew.inputs ≡ ok tt
      → crew.run ≡ ok run
      → f.machine ≡ running p
      → Leads (run_phase p crew now g) f (EndedAt p)
  unfolding run_phase run_crew_with_qa
  run_phase-Leads g f built starts at = elim (Option-cases (lacks p g.state)) [
    | inl ready ↦
        rw (ready, run_phase)
          (bind-Leads {P = λ u k. k.machine ≡ running p}
            (reading-Leads (λ _. crew.inputs) tt built at)
            λ u k' at'.
              (bind-Leads
                (bind-Leads {P = λ r k. (r ≡ run) × (k.machine ≡ running p)}
                  (reading-Leads (λ _. crew.run) run starts (refl, at'))
                  λ r k h.
                    subst
                      (λ x.
                        Leads
                          (finish p crew now x (
                            run_attempts p crew
                              (carried_feedback p (last? g.state.approval_trail))))
                          k (Finished p))
                      (sym h.0) (finish-Leads _ k h.1))
                λ b k e. complete_if-Leads b k e))
    | inr (reason, lacking) ↦
        rw (lacking, run_phase) (weaken (fail_phase-Leads p reason f at) λ _ g' e. inr (inr e))
  ]

pub start_if_scoped-running :
    (p : Phase) (f : Flow) → f.machine ≡ running p → start_if_scoped p f ≡ (ok tt, f)
unfolding start_if_scoped is_status running
start_if_scoped-running one f at = rw (at, start_if_scoped, is_status) refl
start_if_scoped-running two f at = refl
start_if_scoped-running three f at = refl

pub is_status-running : (p : Phase) → is_status (running p) (running p) ≡ true
unfolding is_status running
is_status-running one = refl
is_status-running two = refl
is_status-running three = refl

pub with_skills-machine :
    (p : Phase) (ids : List String) (f : Flow) → (with_skills p ids f).machine ≡ f.machine
unfolding with_skills
with_skills-machine one ids f = refl
with_skills-machine two ids f = refl
with_skills-machine three ids f = refl

generate-Leads :
    (p : Phase) (crew : Crew (ArtifactOf p)) (now : String) (run : GenerationRun) (f : Flow)
    → crew.inputs ≡ ok tt
    → crew.run ≡ ok run
    → f.machine ≡ running p
    → Leads (generate p crew now) f (EndedAt p)
unfolding generate
generate-Leads p crew now run f built starts at =
    let started : Leads (start_if_scoped p) f (At (running p)) = record {
      answer = tt;
      state = f;
      returns = start_if_scoped-running p f at;
      holds = at;
    } in
    bind-Leads started λ _ g e.
      bind-Leads {P = At (running p)}
        (reading-Leads _ tt
          (ap (λ b. check b (runtime_error (value g.machine)))
            (ap (λ s. is_status s (running p)) e ∙ is_status-running p))
          e)
        λ _ g e.
          bind-Leads {P = At (running p)}
            (modify-Leads _ (with_skills-machine p crew.skill_ids g ∙ e))
            λ _ g e. bind-Leads {P = At (running p)} (modify-Leads _ e) λ _ g e.
              bind-Leads {P = λ h k. k.machine ≡ running p} (reading-Leads ok g refl e)
                λ h k e. run_phase-Leads p crew now run h k built starts e

-- A run of a phase that is running, whose inputs and generation record could be made, returns, whatever its
-- crew's attempts answer or raise; the audit then waits at the phase's gate, is rejected by QA or has
-- stopped with an error: it is not left running.
pub generate-Ended :
    (p : Phase) (crew : Crew (ArtifactOf p)) (now : String) (run : GenerationRun) (f : Flow)
    → crew.inputs ≡ ok tt
    → crew.run ≡ ok run
    → f.machine ≡ running p
    → (answer_of (generate p crew now f) ≡ ok tt)
      × Ended p (state_after (generate p crew now f)).machine
generate-Ended p crew now run f built starts at =
    let l = generate-Leads p crew now run f built starts at in
    (
      ap answer_of l.returns,
      subst (λ (r : Result AuditError (Unit {0}) × Flow). Ended p (state_after r).machine)
          (sym l.returns) l.holds,
    )

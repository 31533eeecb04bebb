-- ===== src/Flow/Runner/Ends.antt =====
-- The records of an audit before and after a phase's run.
use grc_audit_swarm.Base.{
  ℕ, String, if◌then◌else◌, refl, Bool, true, false, List, Option, none, some, last?, Result, ok,
  ◌∙◌, ◌≡◌, err, subst,
}
use grc_audit_swarm.Machine.{
  Phase, one, two, three, Operation, is_status, waiting_for_scope, start_phase_1,
  InvalidTransitionError,
}
use grc_audit_swarm.Trail.{Digests}
use grc_audit_swarm.Decisions.Errors.{AuditError}
use grc_audit_swarm.Flow.{
  Step, moved, with_dossier, with_rejection, without_rejection, fail_phase, committed, AuditStatus,
  value, apply,
}
use grc_audit_swarm.Flow.State.{Flow, GenerationRun}
use grc_audit_swarm.Flow.Methods.{
  ◌>>=◌, ◌>>◌, reading, modify, updating, Keeps, reading-Keeps, modify-Keeps, updating-Keeps,
  >>=-Keeps, state_after,
}
use grc_audit_swarm.Flow.Trails.{Extends, same_records}
use grc_audit_swarm.Flow.Attempts.{
  ArtifactOf, Crew, Lint, Outcome, crashed, passed, rejected, run_attempts,
}
use grc_audit_swarm.Flow.Runner.{
  set_artifact, add_run, add_crashed_run, note_rejection, store_artifact, finish, run_crew_with_qa,
  start_if_scoped, with_skills, lacks, complete_if, run_phase, generate, carried_feedback,
  kept_draft, phase_done_text, invalid_text,
}

-- the records that a run leaves as they are: the trail and the decisions; and the status beside the
-- machine's stays its mirror
pub record SameRecords (f g : Flow) : Type 0 where
  pub trail : g.state.approval_trail ≡ f.state.approval_trail
  pub decisions : g.state.review_decisions ≡ f.state.review_decisions
  pub mirror : f.state.status ≡ value f.machine → g.state.status ≡ value g.machine

same :
    (f g : Flow)
    → g.state.approval_trail ≡ f.state.approval_trail
    → g.state.review_decisions ≡ f.state.review_decisions
    → (f.state.status ≡ value f.machine → g.state.status ≡ value g.machine)
    → SameRecords f g
same f g t d m = record { trail = t; decisions = d; mirror = m }

SameRecords-refl : (f : Flow) → SameRecords f f
SameRecords-refl f = same f f refl refl λ m. m

SameRecords-trans : (f g k : Flow) → SameRecords f g → SameRecords g k → SameRecords f k
SameRecords-trans f g k a b =
    same f k (b.trail ∙ a.trail) (b.decisions ∙ a.decisions) λ m. b.mirror (a.mirror m)

committed-SameRecords : (s : AuditStatus) (f : Flow) → SameRecords f (committed s f)
unfolding committed
committed-SameRecords s f = same f (committed s f) refl refl λ _. refl

moved-SameRecords : (o : Operation) (f g : Flow) → moved o f ≡ ok g → SameRecords f g
unfolding moved
moved-SameRecords o f g e = go (apply o f.machine) e
  where
    go :
        (r : Result InvalidTransitionError AuditStatus)
        → ◌≡◌ {A = Result AuditError Flow}
            (elim r [ ok s ↦ ok (committed s f) | err x ↦ err (AuditError.invalid_transition x) ])
            (ok g)
        → SameRecords f g
    go (ok s) e =
        let e' : committed s f ≡ g = cc in subst (SameRecords f) e' (committed-SameRecords s f)
    go (err x) e = cc

abbrev Later : Flow → Flow → Type 0
Later = SameRecords

seq :
    {A B : Type 0} (m : Step A) (k : A → Step B)
    → Keeps Later m
    → ((a : A) → Keeps Later (k a))
    → Keeps Later (m >>= k)
seq = >>=-Keeps Later SameRecords-trans

read : {A : Type 0} (g : Flow → Result AuditError A) → Keeps Later (reading g)
read = reading-Keeps Later SameRecords-refl

write : (g : Flow → Flow) → ((f : Flow) → Later f (g f)) → Keeps Later (modify {E = AuditError} g)
write = modify-Keeps AuditError Later

move : (o : Operation) → Keeps Later (updating (moved o))
move o = updating-Keeps Later SameRecords-refl (moved o) (moved-SameRecords o)

set_artifact-SameRecords :
    (p : Phase) (a : Option (ArtifactOf p)) (f : Flow) → Later f (set_artifact p a f)
unfolding set_artifact
set_artifact-SameRecords one a f = same f (set_artifact one a f) refl refl λ m. m
set_artifact-SameRecords two a f = same f (set_artifact two a f) refl refl λ m. m
set_artifact-SameRecords three a f = same f (set_artifact three a f) refl refl λ m. m

add_run-SameRecords :
    (run : GenerationRun) (n : ℕ) (o now : String) (l : Lint) (f : Flow)
    → Later f (add_run run n o now l f)
unfolding add_run
add_run-SameRecords run n o now l f = same f (add_run run n o now l f) refl refl λ m. m

add_crashed_run-SameRecords :
    (run : GenerationRun) (n : ℕ) (now : String) (f : Flow) → Later f (add_crashed_run run n now f)
unfolding add_crashed_run
add_crashed_run-SameRecords run n now f = same f (add_crashed_run run n now f) refl refl λ m. m

note_rejection-SameRecords :
    (p : Phase) (by : Bool) (r : String) (f : Flow) → Later f (note_rejection p by r f)
unfolding note_rejection
note_rejection-SameRecords p by r f = same f (note_rejection p by r f) refl refl λ m. m

with_skills-SameRecords : (p : Phase) (ids : List String) (f : Flow) → Later f (with_skills p ids f)
unfolding with_skills
with_skills-SameRecords one ids f = same f (with_skills one ids f) refl refl λ m. m
with_skills-SameRecords two ids f = SameRecords-refl f
with_skills-SameRecords three ids f = SameRecords-refl f

note-SameRecords :
    (text : String) (r : Option String) (f : Flow)
    → Later f (with_dossier text (with_rejection r f))
note-SameRecords text r f = same f (with_dossier text (with_rejection r f)) refl refl λ m. m

fail_phase-Keeps : (p : Phase) (reason : String) → Keeps Later (fail_phase p reason)
unfolding fail_phase
fail_phase-Keeps p reason = seq _ _ (move _) λ _. write _ λ f. note-SameRecords _ _ f

module _ (p : Phase) (crew : Crew (ArtifactOf p)) (now : String) (run : GenerationRun) where
  store_artifact-Keeps :
      (n : ℕ) (a : ArtifactOf p) → Keeps Later (store_artifact p crew now run n a)
  unfolding store_artifact
  store_artifact-Keeps n a = go (crew.invalid a)
    where
      go :
          (o : Option String)
          → Keeps Later (elim o as (λ _. Step Bool) [
            | some m ↦
                (modify (add_run run n "error" now (crew.lint (some a)))
                  >> fail_phase p (invalid_text p m))
                >> reading (λ _. ok false)
            | none ↦
                (modify (set_artifact p (some a))
                  >> modify (add_run run n "qa_approved" now (crew.lint (some a))))
                >> reading (λ _. ok true)
          ])
      go (some m) =
          seq _ _ (seq _ _ (write _ (add_run-SameRecords run n _ now _)) λ _. fail_phase-Keeps p _)
            λ _. read _
      go none =
          seq _ _
            (seq _ _ (write _ (set_artifact-SameRecords p (some a)))
              λ _. write _ (add_run-SameRecords run n _ now _))
            λ _. read _

  finish-Keeps : (o : Outcome (ArtifactOf p)) → Keeps Later (finish p crew now run o)
  unfolding finish
  finish-Keeps (crashed n m) =
      seq _ _ (seq _ _ (write _ (add_crashed_run-SameRecords run n now)) λ _. fail_phase-Keeps p _)
        λ _. read _
  finish-Keeps (rejected n a by reason) =
      seq _ _
        (seq _ _
          (seq _ _
            (seq _ _ (write _ (set_artifact-SameRecords p (kept_draft crew a)))
              λ _. write _ (add_run-SameRecords run n _ now _))
            λ _. move _)
          λ _. write _ (note_rejection-SameRecords p by reason))
        λ _. read _
  finish-Keeps (passed n none) =
      seq _ _ (seq _ _ (write _ (add_run-SameRecords run n _ now _)) λ _. fail_phase-Keeps p _)
        λ _. read _
  finish-Keeps (passed n (some a)) = store_artifact-Keeps n a

module _ (p : Phase) (crew : Crew (ArtifactOf p)) (now : String) where
  complete_if-Keeps : (b : Bool) → Keeps Later (complete_if p b)
  unfolding complete_if
  complete_if-Keeps false = read _
  complete_if-Keeps true =
      seq _ _ (move _)
        λ _. write _ λ f. same f (with_dossier (phase_done_text p f.state) f) refl refl λ m. m

  run_phase-Keeps : (f : Flow) → Keeps Later (run_phase p crew now f)
  unfolding run_phase run_crew_with_qa
  run_phase-Keeps f = go (lacks p f.state)
    where
      go :
          (o : Option String)
          → Keeps Later (elim o as (λ _. Step (Unit {0})) [
            | some reason ↦ fail_phase p reason
            | none ↦
                reading (λ _. crew.inputs)
                >> ((reading (λ _. crew.run) >>= λ run.
                      finish p crew now run
                        (run_attempts p crew (carried_feedback p (last? f.state.approval_trail))))
                    >>= complete_if p)
          ])
      go (some reason) = fail_phase-Keeps p reason
      go none =
          seq _ _ (read _)
            λ _. seq _ _ (seq _ _ (read _) λ run. finish-Keeps p crew now run _) complete_if-Keeps

start_if_scoped-Keeps : (p : Phase) → Keeps Later (start_if_scoped p)
unfolding start_if_scoped
start_if_scoped-Keeps one f = go (is_status f.machine waiting_for_scope)
  where
    go :
        (b : Bool)
        → Later f (state_after (if b then updating (moved start_phase_1) f else (ok tt, f)))
    go true = move start_phase_1 f
    go false = SameRecords-refl f
start_if_scoped-Keeps two f = SameRecords-refl f
start_if_scoped-Keeps three f = SameRecords-refl f

-- A phase's run, whatever its crew does and even if it raises, leaves the trail and the reviewers'
-- decisions as they are, and keeps `state.status` the mirror of the machine.
pub generate-SameRecords :
    (p : Phase) (crew : Crew (ArtifactOf p)) (now : String) (f : Flow)
    → SameRecords f (state_after (generate p crew now f))
unfolding generate
generate-SameRecords p crew now = seq _ _ (start_if_scoped-Keeps p) λ _. seq _ _ (read _) λ _.
    seq _ _ (write _ (with_skills-SameRecords p crew.skill_ids)) λ _.
      seq _ _ (write _ λ f. same f (without_rejection f) refl refl λ m. m)
        λ _. seq _ _ (read ok) λ g. run_phase-Keeps p crew now g

pub generate-Extends :
    (h : Digests) (p : Phase) (crew : Crew (ArtifactOf p)) (now : String) (f : Flow)
    → Extends h f (state_after (generate p crew now f))
generate-Extends h p crew now f =
    let r = generate-SameRecords p crew now f in
    same_records h f (state_after (generate p crew now f)) r.trail r.decisions r.mirror

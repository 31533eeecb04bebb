-- ===== src/Flow/Reachable.antt =====
-- The audits that human calls lead to.
use grc_audit_swarm.Base.{String, ◌≡◌, refl, ap, ◌∙◌, List, [], ◌∷◌, none, Result, ok}
use grc_audit_swarm.Machine.{Phase, Operation, value}
use grc_audit_swarm.Trail.{
  Digests, Entry, intact, scan_trail, scan, legacy_prefix, chained_part, scan_start,
}
use grc_audit_swarm.Trail.Chain.{NonBlank}
use grc_audit_swarm.Trail.Verify.{verify_trail, verify_unchained, result}
use grc_audit_swarm.Trail.Intact.{append_all, append_all-intact}
use grc_audit_swarm.Decisions.{Platform}
use grc_audit_swarm.Decisions.Errors.{AuditError}
use grc_audit_swarm.Flow.{
  Step, approve, begin_phase_1, retry, return_phase, override_rejection, record_preparer,
  record_decision, moved, with_dossier,
}
use grc_audit_swarm.Flow.State.{Flow, new_flow}
use grc_audit_swarm.Flow.Checks.{Vault}
use grc_audit_swarm.Flow.Methods.{
  ◌>>=◌, reading, modify, updating, state_after, Keeps, reading-Keeps, modify-Keeps, updating-Keeps,
  >>=-Keeps,
}
use grc_audit_swarm.Flow.Actions.{
  Action, perform, begins, approves, retries, returns, overrides, creates, decides,
}
use grc_audit_swarm.Flow.Trails.{
  Extends, Extends-refl, Extends-trans, moved-Extends, record_approval-Extends,
  record_retry-Extends, record_return-Extends, record_override-Extends, record_creation-Extends,
  store_decision-Extends, same_records,
}
use grc_audit_swarm.Flow.Attempts.{Crew, ArtifactOf}
use grc_audit_swarm.Flow.Runner.{generate}
use grc_audit_swarm.Flow.Runner.Ends.{generate-Extends}

module _ (env : Platform) where
  abbrev Later : Flow → Flow → Type 0
  Later = Extends env.digests

  checked :
      {A B : Type 0} (g : Flow → Result AuditError A) (k : A → Step B)
      → ((a : A) → Keeps Later (k a))
      → Keeps Later (reading g >>= k)
  checked g k =
      >>=-Keeps Later (Extends-trans env.digests) (reading g) k
        (reading-Keeps Later (Extends-refl env.digests) g)

  moved_recorded :
      (o : Operation) (g : Flow → Flow)
      → ((f : Flow) → Later f (g f))
      → Keeps Later (updating (moved o) >>= λ _. modify g)
  moved_recorded o g step =
      >>=-Keeps Later (Extends-trans env.digests) (updating (moved o)) (λ _. modify g)
        (updating-Keeps Later (Extends-refl env.digests) (moved o) (moved-Extends env.digests o))
        (λ _. modify-Keeps AuditError Later g step)

module _ (env : Platform) (vault : Vault) (now : String) where
  -- Every call, whether it returns or raises, only extends the audit: the new trail is the old one
  -- with entries appended by `append_entry`, the old decisions stand before any new one, and a status
  -- that mirrored the machine still does.
  pub perform-Extends :
      (a : Action) (f : Flow) → Extends env.digests f (state_after (perform env vault now a f))
  unfolding perform begin_phase_1 approve retry return_phase override_rejection record_preparer
      record_decision
  perform-Extends begins =
      moved_recorded env _ _
        λ f. same_records env.digests f (with_dossier "Planning is running." f) refl refl λ m. m
  perform-Extends (approves p human source) = checked env _ _ λ h. checked env _ _ λ s.
      checked env _ _ λ json.
        checked env _ _
          λ sealed. moved_recorded env _ _ (record_approval-Extends env now p h s json sealed)
  perform-Extends (retries n human source) = checked env _ _ λ p. checked env _ _ λ h.
      checked env _ _ λ s.
        checked env _ _
          λ previous. moved_recorded env _ _ (record_retry-Extends env now p h s previous)
  perform-Extends (returns n human notes source) = checked env _ _ λ p. checked env _ _ λ h.
      checked env _ _ λ t. checked env _ _ λ s.
        checked env _ _
          λ _. checked env _ _ λ _. moved_recorded env _ _ (record_return-Extends env now p h s t)
  perform-Extends (overrides n human reason source) = checked env _ _ λ p. checked env _ _ λ h.
      checked env _ _ λ r. checked env _ _ λ s. checked env _ _ λ _. checked env _ _ λ _.
        checked env _ _ λ json. checked env _ _ λ unverified.
          moved_recorded env _ _ (record_override-Extends env now p h s r json unverified)
  perform-Extends (creates preparer required source) = checked env _ _ λ p. checked env _ _ λ s.
      checked env _ _ λ _.
        modify-Keeps AuditError (Extends env.digests) _
          (record_creation-Extends env now p s required)
  perform-Extends (decides r new_id) =
      checked env _ _
        λ d. modify-Keeps AuditError (Extends env.digests) _ (store_decision-Extends env now d)

-- The audits that begin as `AuditFlow()` and go on by human calls and by the runs of phases, in any
-- order, with any arguments, at any times and whatever the crews do: calls that raise are steps too.
pub data Reachable (env : Platform) (vault : Vault) : Flow → Type 0 where
  begin_audit : Reachable env vault new_flow
  calls :
      {f : Flow}
      → Reachable env vault f
      → (now : String) (a : Action) → Reachable env vault (state_after (perform env vault now a f))
  generates :
      {f : Flow}
      → Reachable env vault f
      → (now : String) (p : Phase) (crew : Crew (ArtifactOf p))
      → Reachable env vault (state_after (generate p crew now f))

pub Reachable-Extends :
    (env : Platform) (vault : Vault) (f : Flow)
    → Reachable env vault f
    → Extends env.digests new_flow f
Reachable-Extends env vault f begin_audit = Extends-refl env.digests new_flow
Reachable-Extends env vault _ (calls {f} r now a) =
    Extends-trans env.digests new_flow f _ (Reachable-Extends env vault f r)
      (perform-Extends env vault now a f)
Reachable-Extends env vault _ (generates {f} r now p crew) =
    Extends-trans env.digests new_flow f _ (Reachable-Extends env vault f r)
      (generate-Extends env.digests p crew now f)

-- In every audit that calls lead to, `state.status` is the text of the machine's status: no path,
-- not even one of errors, lets the two drift apart.
pub status-mirrors :
    (env : Platform) (vault : Vault) (f : Flow)
    → Reachable env vault f
    → f.state.status ≡ value f.machine
unfolding value
status-mirrors env vault f r = (Reachable-Extends env vault f r).mirror refl

empty-scanned : (h : Digests) → scan_trail h [] ≡ ok (scan_start [])
unfolding scan_trail scan legacy_prefix chained_part
empty-scanned h = refl

appended-intact :
    (h : Digests)
    → NonBlank h
    → (es : List Entry) → (verify_trail h (append_all h [] es) none none none).status ≡ intact
unfolding verify_trail verify_unchained result chained_part
appended-intact h n [] = refl
appended-intact h n (e ∷ es) = append_all-intact h [] _ e es n (empty-scanned h)

-- The trail of every audit that calls lead to verifies as intact, if no digest is the empty text.
pub trail-intact :
    (env : Platform) (vault : Vault) (f : Flow)
    → NonBlank env.digests
    → Reachable env vault f
    → (verify_trail env.digests f.state.approval_trail none none none).status ≡ intact
trail-intact env vault f n r =
    let x = Reachable-Extends env vault f r in
    ap (λ t. (verify_trail env.digests t none none none).status) x.trail
    ∙ appended-intact env.digests n x.entries

-- ===== src/Flow/Approval.antt =====
-- The approvals of gates, and the audits in which they are made.
pub mod Stamped
use grc_audit_swarm.Base.{
  String, ◌≢◌, refl, sym, ap, ◌∙◌, subst, Bool, true, false, Option, none, some, Option-cases, inl,
  inr, List, [], ◌∷◌, ◌++◌, All, Result, ok, err, is_empty, ◌≡◌, bind_returned, ◌⊎◌, Bool-cases,
  all, not, ◌==◌, arith,
}
use grc_audit_swarm.Dict
use grc_audit_swarm.Machine.{
  InvalidTransitionError, Operation, Phase, one, two, three, value, AuditStatus, waiting_gate,
  apply, approve_gate, can, transition,
}
use grc_audit_swarm.Machine.Table.{Edge, Edge-of_apply, approves_1, approves_2, approves_3}
use grc_audit_swarm.Policy.{sod_violation, gate_label}
use grc_audit_swarm.Policy.People.{SamePerson, approval_allowed_iff, Distinct}
use grc_audit_swarm.Trail.{Entry, append_entry}
use grc_audit_swarm.Decisions.{Platform}
use grc_audit_swarm.Decisions.Errors.{AuditError, segregation_of_duties}
use grc_audit_swarm.Flow.{
  approve, check_approval, moved, committed, record_approval, check, require, stamped,
  artifact_field, stamp, artifact_digest, identity_source, sealed_extra,
}
use grc_audit_swarm.Flow.State.{
  Flow, AuditState, run_provenance_extra, latest_run, approved_status, artifact_json, preparers,
  review_decisions_required, or_blank,
}
use grc_audit_swarm.Flow.Checks.{
  Vault, check_sod, require_text, require_transition, check_evidence, check_review_decisions,
  missing_for, not_accepted,
}
use grc_audit_swarm.Flow.Methods.{reading-runs, updating-runs, modify-runs}
use grc_audit_swarm.Flow.Approval.Stamped.{ApprovalEntry, stamp-get}

-- who may approve the gate: no preparer, and at Reporting not the one who approved Fieldwork last
pub record MayApprove (casefold : String → String) (s : AuditState) (p : Phase) (human : String)
    : Type 0 where
  pub no_preparer : All (λ q. ¬ SamePerson casefold (some human) (some q)) (preparers s)
  pub distinct : Distinct casefold human s.approval_trail p

module _ (casefold : String → String) (human : String) (p : Phase) (trail : List Entry) where
  check_sod-allowed :
      (q : String) (qs : List String)
      → check_sod casefold "gate_approval" human (some p) trail (q ∷ qs) ≡ ok tt
      → All (λ r. ¬ SamePerson casefold (some human) (some r)) (q ∷ qs)
        × Distinct casefold human trail p
  unfolding check_sod
  check_sod-allowed q [] e =
      elim (Option-cases (sod_violation casefold "gate_approval" human (some q) trail (some p))) [
        | inl allowed ↦
            let (other, distinct) =
              (approval_allowed_iff casefold human (some q) trail p).0 allowed in
            ((other, tt), distinct)
        | inr (m, refused) ↦
            let never : err (segregation_of_duties m) ≡ ok tt = rw (refused, check_sod) at e in cc
      ]
  check_sod-allowed q (r ∷ qs) e =
      elim (Option-cases (sod_violation casefold "gate_approval" human (some q) trail (some p))) [
        | inl allowed ↦
            let (other, distinct) =
              (approval_allowed_iff casefold human (some q) trail p).0 allowed in
            let (others, _) = check_sod-allowed r qs (rw (allowed, check_sod) at e) in
            ((other, others), distinct)
        | inr (m, refused) ↦
            let never : err (segregation_of_duties m) ≡ ok tt = rw (refused, check_sod) at e in cc
      ]

or_blank-cons : (ns : List String) → (q : String) × (qs : List String) × (or_blank ns ≡ q ∷ qs)
or_blank-cons [] = ("", [], refl)
or_blank-cons (n ∷ ns) = (n, ns, refl)

preparers-cons : (s : AuditState) → (q : String) × (qs : List String) × (preparers s ≡ q ∷ qs)
unfolding preparers
preparers-cons s = or_blank-cons _

check_sod-MayApprove :
    (casefold : String → String) (human : String) (p : Phase) (s : AuditState) (t : Unit {0})
    → check_sod casefold "gate_approval" human (some p) s.approval_trail (preparers s) ≡ ok t
    → MayApprove casefold s p human
check_sod-MayApprove casefold human p s t e =
    let (q, qs, path) = preparers-cons s in
    let (others, distinct) =
      check_sod-allowed casefold human p s.approval_trail q qs
        (ap (check_sod casefold "gate_approval" human (some p) s.approval_trail) (sym path) ∙ e) in
    record {
      no_preparer =
          subst (All (λ r. ¬ SamePerson casefold (some human) (some r))) (sym path) others;
      distinct = distinct;
    }

check-ok : (b : Bool) (x : AuditError) (t : Unit {0}) → check b x ≡ ok t → b ≡ true
check-ok true x t e = refl
check-ok false x t e = cc

is_empty-nil : {A : Type 0} (xs : List A) → is_empty xs ≡ true → xs ≡ []
is_empty-nil [] e = refl
is_empty-nil (x ∷ xs) e = cc

approve-Edge :
    (p : Phase) (s t : AuditStatus)
    → Edge (approve_gate p) s t
    → (s ≡ waiting_gate p) × (t ≡ approved_status p)
unfolding waiting_gate
approve-Edge one s t approves_1 = (refl, refl)
approve-Edge two s t approves_2 = (refl, refl)
approve-Edge three s t approves_3 = (refl, refl)

can-approve :
    (p : Phase) (s : AuditStatus)
    → can s (approved_status p) (waiting_gate p ∷ []) ≡ true
    → apply (approve_gate p) s ≡ ok (approved_status p)
unfolding apply transition waiting_gate
can-approve one s e = rw e refl
can-approve two s e = rw e refl
can-approve three s e = rw e refl

can-waiting :
    (p : Phase) (s : AuditStatus)
    → can s (approved_status p) (waiting_gate p ∷ []) ≡ true
    → s ≡ waiting_gate p
can-waiting p s e = (approve-Edge p s (approved_status p) (Edge-of_apply (can-approve p s e))).0

moved-committed :
    (o : Operation) (f g : Flow)
    → moved o f ≡ ok g
    → (s : AuditStatus) × (apply o f.machine ≡ ok s) × (g ≡ committed s f)
unfolding moved
moved-committed o f g e = go (apply o f.machine) e
  where
    go :
        (r : Result InvalidTransitionError AuditStatus)
        → ◌≡◌ {A = Result AuditError Flow}
            (elim r [ ok s ↦ ok (committed s f) | err x ↦ err (AuditError.invalid_transition x) ])
            (ok g)
        → (s : AuditStatus) × (r ≡ ok s) × (g ≡ committed s f)
    go (ok s) e = (s, refl, cc)
    go (err x) e = cc

-- the unverified evidence that blocks a gate
abbrev pub blocking : Platform → Vault → Phase → AuditState → List String
blocking env vault two s = not_accepted env vault s
blocking env vault _ s = []

-- What the state of an audit shows for the approval of a gate.
pub record Approvable (env : Platform) (vault : Vault) (p : Phase) (human : String) (f : Flow)
    : Type 0 where
  pub stage : f.machine ≡ waiting_gate p
  pub by : MayApprove env.casefold f.state p human
  pub evidence : blocking env vault p f.state ≡ []
  pub artifact : artifact_json env p f.state ≢ none
  pub decisions : (review_decisions_required f.state ≡ false) ⊎ (missing_for env f.state p ≡ ok [])

-- What an approval that returns tells of the audit before and after it.
pub record Approved (env : Platform) (vault : Vault) (now : String) (p : Phase)
    (human_id given : String) (f g : Flow) : Type 0 where
  pub human : String
  pub named : require_text human_id "human_id" ≡ ok human
  pub approvable : Approvable env vault p human f
  pub machine : g.machine ≡ approved_status p
  pub status : g.state.status ≡ value g.machine
  pub entry : Entry
  pub trail : g.state.approval_trail ≡ append_entry env.digests f.state.approval_trail entry
  pub entered : ApprovalEntry env now p human given f.state entry

module _ (env : Platform) (vault : Vault) (now : String) where
  evidence-accepted :
      (p : Phase) (s : AuditState) (t : Unit {0})
      → check_evidence env vault p s ≡ ok t
      → blocking env vault p s ≡ []
  unfolding check_evidence
  evidence-accepted one s t e = refl
  evidence-accepted two s t e = is_empty-nil _ (check-ok _ _ t e)
  evidence-accepted three s t e = refl

  decisions_complete :
      (p : Phase) (s : AuditState) (t : Unit {0})
      → check_review_decisions env s p ≡ ok t
      → (review_decisions_required s ≡ false) ⊎ (missing_for env s p ≡ ok [])
  unfolding check_review_decisions
  decisions_complete p s t e = elim (Bool-cases (review_decisions_required s)) [
    | inr free ↦ inl free
    | inl required ↦
        let (missing, found, none_left) =
          bind_returned (missing_for env s p) _ (rw (required, check_review_decisions) at e) in
        inr (found ∙ ap ok (is_empty-nil missing (check-ok _ _ t none_left)))
  ]

  require-some :
      {A : Type 0} (o : Option A) (x : AuditError) (a : A) → require o x ≡ ok a → o ≢ none
  require-some none x a e n = cc
  require-some (some b) x a e n = cc

  require-found :
      {A : Type 0} (o : Option A) (x : AuditError) (a : A) → require o x ≡ ok a → o ≡ some a
  require-found none x a e = cc
  require-found (some b) x a e = cc

  ok-injective : (a b : String) → ◌≡◌ {A = Result AuditError String} (ok a) (ok b) → a ≡ b
  ok-injective a b e = cc

  check_approval-Approvable :
      (p : Phase) (human json : String) (f : Flow)
      → check_approval env now vault p human f ≡ ok json
      → Approvable env vault p human f × (artifact_json env p f.state ≡ some json)
  unfolding check_approval require_transition
  check_approval-Approvable p human json f e =
      let (_, e₃, artifact_ok) = bind_returned _ _ e in
      let (_, e₂, evidence_ok) = bind_returned _ _ e₃ in
      let (_, stage_ok, sod_ok) = bind_returned _ _ e₂ in
      let (json', found, decided) = bind_returned _ _ artifact_ok in
      let (_, decided_ok, same) = bind_returned _ _ decided in
      let approvable : Approvable env vault p human f = record {
        stage = can-waiting p f.machine (check-ok _ _ _ stage_ok);
        by = check_sod-MayApprove env.casefold human p f.state _ sod_ok;
        evidence = evidence-accepted p f.state _ evidence_ok;
        artifact = require-some _ _ json' found;
        decisions = decisions_complete p f.state _ decided_ok;
      } in
      (approvable, require-found _ _ json' found ∙ ap some (ok-injective json' json same))

  -- An approval of a gate that returns was made by a named human of an audit that waits at that gate:
  -- the human prepared it in no record of it and, at Gate 3, was not the last to approve Gate 2; the
  -- gate's artifact is there, at Gate 2 with no unverified evidence that was not accepted, and no
  -- required decision is missing. The audit moves to the next phase, and the trail gets one entry: an
  -- approval of that gate by that human, at the time and with the identity source of the call, with the
  -- digest of the artifact.
  pub approve-Approvable :
      (p : Phase) (human_id given : String) (f g : Flow)
      → approve env now vault p human_id given f ≡ (ok tt, g)
      → Approved env vault now p human_id given f g
  unfolding approve record_approval stamped committed Dict.get
  approve-Approvable p human_id given f g e =
      let (human, named, e₁) = reading-runs _ _ f g tt e in
      let (source, valid, e₂) = reading-runs _ _ f g tt e₁ in
      let (json, ready, e₃) = reading-runs _ _ f g tt e₂ in
      let (sealed, seals, e₄) = reading-runs _ _ f g tt e₃ in
      let (f', moves, e₅) = updating-runs (moved (approve_gate p)) _ f g tt e₄ in
      let (s, applied, is_f') = moved-committed (approve_gate p) f f' moves in
      let (_, target) = approve-Edge p f.machine s (Edge-of_apply applied) in
      let is_sealed : sealed_extra env now p f.state ≡ sealed = cc in
      let is_g : record_approval env now p human source json (sealed_extra env now p f.state)
            (committed s f)
          ≡ g =
        ap (λ x. record_approval env now p human source json x (committed s f)) is_sealed
        ∙ (ap (record_approval env now p human source json sealed) (sym is_f')
            ∙ modify-runs _ f' g e₅) in
      let (approvable, artifact) = check_approval-Approvable p human json f ready in
      record {
        human = human;
        named = named;
        approvable = approvable;
        machine = sym (ap (λ (k : Flow). k.machine) is_g) ∙ target;
        status =
            sym (ap (λ (k : Flow). k.state.status) is_g) ∙ ap (λ (k : Flow). value k.machine) is_g;
        entry = stamp now (gate_label p) human "gate_approval" source (
            ("artifact", artifact_field p)
            ∷ ("artifact_digest", artifact_digest env.digests json)
            ∷ (sealed_extra env now p f.state ++ run_provenance_extra p (committed s f).state));
        trail = sym (ap (λ (k : Flow). k.state.approval_trail) is_g);
        entered = record {
          by = stamp-get env now "human" p human source json f.state (committed s f).state refl;
          gate = stamp-get env now "gate" p human source json f.state (committed s f).state refl;
          action =
              stamp-get env now "action" p human source json f.state (committed s f).state refl;
          at = stamp-get env now "timestamp" p human source json f.state (committed s f).state refl;
          source = source;
          validated = valid;
          declared =
              stamp-get env now "identity_source" p human source json f.state (committed s f).state
                refl;
          json = json;
          artifact = artifact;
          digest =
              stamp-get env now "artifact_digest" p human source json f.state (committed s f).state
                refl;
        };
      }

-- ===== src/Flow/Trails.antt =====
-- How the records of an audit compare before and after a call: its trail, its decisions, and the
-- status beside the machine's.
use mathlib.Core.List.{append-nil, append_assoc}
use grc_audit_swarm.Base.{
  String, ◌≡◌, refl, sym, ap, ◌∙◌, subst, Bool, List, [], ◌∷◌, ◌++◌, Result, ok, err,
}
use grc_audit_swarm.Machine.{Phase, Operation, value, apply, AuditStatus, InvalidTransitionError}
use grc_audit_swarm.Trail.{Digests, Entry, append_entry}
use grc_audit_swarm.Trail.Intact.{append_all}
use grc_audit_swarm.Schema.Decisions.{ReviewDecision}
use grc_audit_swarm.Decisions.{Platform}
use grc_audit_swarm.Decisions.Errors.{AuditError}
use grc_audit_swarm.Dict.{Dict}
use grc_audit_swarm.Flow.{
  moved, committed, stamped, record_approval, record_retry, record_return, record_override,
  record_creation, store_decision,
}
use grc_audit_swarm.Flow.State.{Flow}

-- how a later state of an audit compares with an earlier one
pub record Extends (h : Digests) (f g : Flow) : Type 0 where
  pub entries : List Entry
  pub trail : g.state.approval_trail ≡ append_all h f.state.approval_trail entries
  pub new_decisions : List ReviewDecision
  pub decisions : g.state.review_decisions ≡ f.state.review_decisions ++ new_decisions
  pub mirror : f.state.status ≡ value f.machine → g.state.status ≡ value g.machine

append_all-append :
    (h : Digests) (trail es fs : List Entry)
    → append_all h (append_all h trail es) fs ≡ append_all h trail (es ++ fs)
append_all-append h trail [] fs = refl
append_all-append h trail (e ∷ es) fs = append_all-append h (append_entry h trail e) es fs

module _ (h : Digests) where
  pub Extends-refl : (f : Flow) → Extends h f f
  Extends-refl f = record {
    entries = [];
    trail = refl;
    new_decisions = [];
    decisions = sym (append-nil f.state.review_decisions);
    mirror = λ m. m;
  }

  pub Extends-trans : (f g k : Flow) → Extends h f g → Extends h g k → Extends h f k
  Extends-trans f g k a b = record {
    entries = a.entries ++ b.entries;
    trail =
        b.trail
        ∙ (ap (λ t. append_all h t b.entries) a.trail
            ∙ append_all-append h f.state.approval_trail a.entries b.entries);
    new_decisions = a.new_decisions ++ b.new_decisions;
    decisions =
        b.decisions
        ∙ (ap (λ d. d ++ b.new_decisions) a.decisions
            ∙ append_assoc f.state.review_decisions a.new_decisions b.new_decisions);
    mirror = λ m. b.mirror (a.mirror m);
  }

  -- a step that leaves the trail and the decisions
  pub same_records :
      (f g : Flow)
      → g.state.approval_trail ≡ f.state.approval_trail
      → g.state.review_decisions ≡ f.state.review_decisions
      → (f.state.status ≡ value f.machine → g.state.status ≡ value g.machine)
      → Extends h f g
  same_records f g t d m = record {
    entries = [];
    trail = t;
    new_decisions = [];
    decisions = d ∙ sym (append-nil f.state.review_decisions);
    mirror = m;
  }

  one_entry :
      (f g : Flow) (e : Entry)
      → g.state.approval_trail ≡ append_entry h f.state.approval_trail e
      → g.state.review_decisions ≡ f.state.review_decisions
      → (f.state.status ≡ value f.machine → g.state.status ≡ value g.machine)
      → Extends h f g
  one_entry f g e t d m = record {
    entries = e ∷ [];
    trail = t;
    new_decisions = [];
    decisions = d ∙ sym (append-nil f.state.review_decisions);
    mirror = m;
  }

  committed-Extends : (s : AuditStatus) (f : Flow) → Extends h f (committed s f)
  unfolding committed
  committed-Extends s f = same_records f (committed s f) refl refl λ _. refl

  pub moved-Extends : (o : Operation) (f g : Flow) → moved o f ≡ ok g → Extends h f g
  unfolding moved
  moved-Extends o f g e = go (apply o f.machine) e
    where
      go :
          (r : Result InvalidTransitionError AuditStatus)
          → ◌≡◌ {A = Result AuditError Flow}
              (elim r [ ok s ↦ ok (committed s f) | err x ↦ err (AuditError.invalid_transition x) ])
              (ok g)
          → Extends h f g
      go (ok s) e =
          let e' : committed s f ≡ g = cc in subst (Extends h f) e' (committed-Extends s f)
      go (err x) e = cc

module _ (env : Platform) (now : String) where
  pub record_approval-Extends :
      (p : Phase) (human source json : String) (sealed : Dict) (f : Flow)
      → Extends env.digests f (record_approval env now p human source json sealed f)
  unfolding record_approval stamped
  record_approval-Extends p human source json sealed f =
      one_entry env.digests f (record_approval env now p human source json sealed f) _ refl refl
        λ m. m

  pub record_retry-Extends :
      (p : Phase) (human source previous : String) (f : Flow)
      → Extends env.digests f (record_retry env now p human source previous f)
  unfolding record_retry stamped
  record_retry-Extends p human source previous f =
      one_entry env.digests f (record_retry env now p human source previous f) _ refl refl λ m. m

  pub record_return-Extends :
      (p : Phase) (human source notes : String) (f : Flow)
      → Extends env.digests f (record_return env now p human source notes f)
  unfolding record_return stamped
  record_return-Extends p human source notes f =
      one_entry env.digests f (record_return env now p human source notes f) _ refl refl λ m. m

  pub record_override-Extends :
      (p : Phase) (human source reason json : String) (unverified : List String) (f : Flow)
      → Extends env.digests f (record_override env now p human source reason json unverified f)
  unfolding record_override stamped
  record_override-Extends p human source reason json unverified f =
      one_entry env.digests f (record_override env now p human source reason json unverified f) _
        refl refl λ m. m

  pub record_creation-Extends :
      (preparer source : String) (required : Bool) (f : Flow)
      → Extends env.digests f (record_creation env now preparer source required f)
  unfolding record_creation stamped
  record_creation-Extends preparer source required f =
      one_entry env.digests f (record_creation env now preparer source required f) _ refl refl
        λ m. m

  pub store_decision-Extends :
      (d : ReviewDecision) (f : Flow) → Extends env.digests f (store_decision env now d f)
  unfolding store_decision stamped
  store_decision-Extends d f = record {
    entries = _ ∷ [];
    trail = refl;
    new_decisions = d ∷ [];
    decisions = refl;
    mirror = λ m. m;
  }

-- ===== src/Decisions/Permitted.antt =====
-- The decisions that `build_decision` returns.
use grc_audit_swarm.Base.{
  String, ◌≡◌, refl, subst, Bool, true, false, not, ◌&&◌, Option, none, some, List, [], ◌∷◌, ◌==◌,
  eq_iff, arith, Result, ok, err, bind_returned, contains, All, find_first, strip,
}
use grc_audit_swarm.Policy.{
  decision_status_violation, decision_sod_violation, rationale_always_required,
}
use grc_audit_swarm.Schema.Decisions.{
  ReviewDecision, DecisionType, type_value, decision_type_of, identity_source_of,
}
use grc_audit_swarm.Decisions.{
  Platform, DecisionContext, digest_of, SlotKey, slot_key, same_key, active_for, subject_for_type,
  artifact_for_subject, slot_of, subject_value,
}
use grc_audit_swarm.Decisions.Errors.{
  rationale_missing, AuditError, segregation_of_duties, decision_conflict, not_active,
  decision_invalid, status_violation, unknown_decision_type, unknown_superseded, decided_by_missing,
  superseded_elsewhere, unknown_identity_source, artifact_not_there,
}
use grc_audit_swarm.Decisions.Values.{check, require}
use grc_audit_swarm.Decisions.Build.{
  DecisionRequest, refuse, check_preparers, check_request, check_slot, build_decision, active_key,
  subject_of, parsed, stored_values, replaced,
}

-- The slot is free, or the decision replaces just the one that is active in it.
pub data Takes (active : Option ReviewDecision) (supersedes : Option String) : Type 0 where
  free : active ≡ none → supersedes ≡ none → Takes active supersedes
  replaces :
      (c : ReviewDecision) (old : String)
      → active ≡ some c
      → supersedes ≡ some old
      → c.decision_id ≡ old
      → Takes active supersedes

-- What policy and drafts ask of a decision.
pub record Permitted (env : Platform) (ctx : DecisionContext) (ds : List ReviewDecision)
    (status : String) (preparers : List String) (d : ReviewDecision) : Type 0 where
  pub status_allowed : decision_status_violation (type_value d.decision_type) status ≡ none
  pub sod :
      All
        (λ q.
          decision_sod_violation env.casefold (type_value d.decision_type) d.decided_by (some q)
          ≡ none)
        preparers
  pub drafted : digest_of env ctx d.artifact ≡ some d.draft_digest
  pub explained :
      (contains rationale_always_required (type_value d.decision_type) && d.rationale == "") ≡ false
  pub slot : Takes (active_for (digest_of env ctx) ds (slot_key d)) d.supersedes

ok-value : {A : Type 0} {a b : A} → ◌≡◌ {A = Result AuditError A} (ok a) (ok b) → a ≡ b
ok-value h = cc

refuse-ok :
    (o : Option String) (e : String → AuditError) (t : Unit {0}) → refuse o e ≡ ok t → o ≡ none
refuse-ok none e t h = refl
refuse-ok (some m) e t h = cc

require-ok : {A : Type 0} (o : Option A) (e : AuditError) (a : A) → require o e ≡ ok a → o ≡ some a
require-ok none e a h = cc
require-ok (some b) e a h = cc

check-not-ok : (b : Bool) (e : AuditError) (t : Unit {0}) → check (not b) e ≡ ok t → b ≡ false
check-not-ok true e t h = cc
check-not-ok false e t h = refl

check-ok : (b : Bool) (e : AuditError) (t : Unit {0}) → check b e ≡ ok t → b ≡ true
check-ok true e t h = refl
check-ok false e t h = cc

check_preparers-ok :
    (casefold : String → String) (t human : String) (ps : List String) (u : Unit {0})
    → check_preparers casefold t human ps ≡ ok u
    → All (λ q. decision_sod_violation casefold t human (some q) ≡ none) ps
unfolding check_preparers
check_preparers-ok casefold t human [] u h = tt
check_preparers-ok casefold t human (p ∷ ps) u h =
    let (v, first, rest) =
      bind_returned
        (refuse (decision_sod_violation casefold t human (some p)) segregation_of_duties) _ h in
    (refuse-ok _ segregation_of_duties v first, check_preparers-ok casefold t human ps u rest)

module _ (env : Platform) (ctx : DecisionContext) (ds : List ReviewDecision) where
  check_slot-ok :
      (k : SlotKey) (active : Option ReviewDecision) (supersedes : Option String) (u : Unit {0})
      → check_slot env ctx ds k active supersedes ≡ ok u
      → Takes active supersedes
  unfolding check_slot
  check_slot-ok k none none u h = free refl refl
  check_slot-ok k (some c) none u h = cc
  check_slot-ok k none (some old) u h =
      let (target, _, h₁) =
        bind_returned
          (require (find_first (λ d. d.decision_id == old) ds)
            (decision_invalid unknown_superseded))
          _ h in
      let (v, _, h₂) =
        bind_returned (check (same_key (slot_key target) k) (decision_invalid superseded_elsewhere))
          _ h₁ in
      absurd (never h₂)
    where
      never : ◌≡◌ {A = Result AuditError (Unit {0})} (err (decision_conflict not_active)) (ok u) → ⊥
      never e = cc
  check_slot-ok k (some c) (some old) u h =
      let (target, _, h₁) =
        bind_returned
          (require (find_first (λ d. d.decision_id == old) ds)
            (decision_invalid unknown_superseded))
          _ h in
      let (v, _, h₂) =
        bind_returned (check (same_key (slot_key target) k) (decision_invalid superseded_elsewhere))
          _ h₁ in
      let same : (c.decision_id == old) ≡ true = check-ok _ _ u h₂ in
      replaces c old refl refl (ground (arith, eq_iff c.decision_id old))

  check_request-ok :
      (status : String) (preparers : List String) (r : DecisionRequest) (t : DecisionType)
      (u : Unit {0})
      → check_request env ctx ds status preparers r t ≡ ok u
      → (decision_status_violation (type_value t) status ≡ none)
        × All
            (λ q.
              decision_sod_violation env.casefold (type_value t) (strip r.decided_by) (some q)
              ≡ none)
            preparers
  unfolding check_request
  check_request-ok status preparers r t u h =
      let (v, in_status, h₁) =
        bind_returned
          (refuse (decision_status_violation (type_value t) status)
            (λ m. decision_conflict (status_violation m)))
          _ h in
      let (w, apart, _) =
        bind_returned (check_preparers env.casefold (type_value t) (strip r.decided_by) preparers) _
          h₁ in
      (
        refuse-ok _ _ v in_status,
        check_preparers-ok env.casefold (type_value t) _ preparers w apart,
      )

  -- A decision that is built is permitted: its type may be recorded in the audit's status, none of the
  -- preparers is kept from recording it, it carries the digest of the draft that it decides on, it is
  -- explained where that is required, and its slot is free, or it replaces the decision that is
  -- active in the slot.
  pub build_decision-Permitted :
      (status : String) (preparers : List String) (r : DecisionRequest) (now new_id : String)
      → (d : ReviewDecision) → build_decision env ctx ds status preparers r now new_id ≡ ok d
      → Permitted env ctx ds status preparers d
  unfolding build_decision
  build_decision-Permitted status preparers r now new_id d h =
      let (t, _, h₁) =
        bind_returned
          (require (decision_type_of r.decision_type) (decision_invalid unknown_decision_type)) _
          h in
      let (_, _, h₂) =
        bind_returned (check (not (strip r.decided_by == "")) (decision_invalid decided_by_missing))
          _ h₁ in
      let (source, _, h₃) =
        bind_returned
          (require (identity_source_of r.identity_source)
            (decision_invalid unknown_identity_source))
          _ h₂ in
      let (_, requested, h₄) = bind_returned (check_request env ctx ds status preparers r t) _ h₃ in
      let (i, _, h₅) = bind_returned (subject_of (subject_for_type t) r.subject_id) _ h₄ in
      let (digest, drafted, h₆) =
        bind_returned
          (require (digest_of env ctx (artifact_for_subject (subject_for_type t)))
            (decision_conflict artifact_not_there))
          _ h₅ in
      let (p, _, h₇) = bind_returned (parsed (r.values t)) _ h₆ in
      let (stored, _, h₈) =
        bind_returned (stored_values env ctx ds t i (strip r.rationale) now p) _ h₇ in
      let (_, explained, h₉) =
        bind_returned
          (check
            (not (contains rationale_always_required (type_value t) && strip r.rationale == ""))
            (decision_invalid rationale_missing))
          _ h₈ in
      let k : SlotKey = record {
        slot = slot_of t;
        subject_type = subject_value (subject_for_type t);
        subject_id = i;
      } in
      let (_, slot, built) =
        bind_returned
          (check_slot env ctx ds k (active_key env ctx ds k) (replaced env ctx ds r.supersedes)) _
          h₉ in
      let (in_status, apart) = check_request-ok status preparers r t _ requested in
      subst (Permitted env ctx ds status preparers) (ok-value built) (record {
        status_allowed = in_status;
        sod = apart;
        drafted = require-ok _ _ digest drafted;
        explained = check-not-ok _ _ _ explained;
        slot = check_slot-ok _ _ _ _ slot;
      })

-- ===== src/Policy/Approvers.antt =====
-- The last approval of the Fieldwork gate that a trail has.
use grc_audit_swarm.Base.{
  String, ◌≡◌, refl, ◌↔◌, inl, inr, true, Option, some, List, [], ◌∷◌, eq_iff, arith, Bool-cases,
  if◌then◌else◌, All, ◌++◌, Option-cases, ◌⊎◌, ap, ◌∙◌,
}
use grc_audit_swarm.Dict
use grc_audit_swarm.Dict.{Dict}
use grc_audit_swarm.Machine.{Phase, two}
use grc_audit_swarm.Policy.{is_approval, gate_label, approver_from}

-- an entry of an approval of the Fieldwork gate
abbrev pub ApprovesFieldwork : Dict → Type 0
ApprovesFieldwork e =
    (Dict.get "action" e ≡ some "gate_approval") × (Dict.get "gate" e ≡ some "Gate 2 (Fieldwork)")

-- the last entry of a trail that approves the Fieldwork gate
pub record LastApproval (trail : List Dict) : Type 0 where
  pub before : List Dict
  pub entry : Dict
  pub after : List Dict
  pub split : trail ≡ before ++ entry ∷ after
  pub approves : ApprovesFieldwork entry
  pub last : All (λ e. ¬ ApprovesFieldwork e) after

has_iff : (k v : String) (d : Dict) → (Dict.has k v d ≡ true) ↔ (Dict.get k d ≡ some v)
unfolding Dict.has
has_iff k v d = elim (Option-cases (Dict.get k d)) [
  | inl n ↦ rw (n, Dict.has) (λ h. cc, λ h. cc)
  | inr (w, found) ↦ rw (found, Dict.has) (λ h. ap some ((eq_iff w v).0 h), λ h. (eq_iff w v).1 cc)
]

is_approval_iff : (e : Dict) → (is_approval two e ≡ true) ↔ ApprovesFieldwork e
unfolding is_approval gate_label
is_approval_iff e =
    let (a, b) = has_iff "action" "gate_approval" e in
    let (c, d) = has_iff "gate" "Gate 2 (Fieldwork)" e in
    (λ h. (a (ground arith), c (ground arith)), λ h. let x = b h.0 in let y = d h.1 in ground arith)

approver_from-append :
    (a : Option String) (d e : List Dict) (g : Phase)
    → approver_from a (d ++ e) g ≡ approver_from (approver_from a d g) e g
unfolding approver_from
approver_from-append a [] e g = refl
approver_from-append a (x ∷ d) e g =
    approver_from-append (if is_approval g x then Dict.get "human" x else a) d e g

pub approver_from-same :
    (a : Option String) (d : List Dict)
    → All (λ e. ¬ ApprovesFieldwork e) d
    → approver_from a d two ≡ a
unfolding approver_from
approver_from-same a [] h = refl
approver_from-same a (x ∷ d) h = elim (Bool-cases (is_approval two x)) [
  | inl yes_it ↦ absurd (h.0 ((is_approval_iff x).0 yes_it))
  | inr no_it ↦ rw (no_it, approver_from) (approver_from-same a d h.1)
]

pub approver_from-LastApproval :
    (a : Option String) (trail : List Dict) (l : LastApproval trail)
    → approver_from a trail two ≡ Dict.get "human" l.entry
unfolding approver_from
approver_from-LastApproval a trail l =
    let approved = (is_approval_iff l.entry).1 l.approves in
    ap (λ t. approver_from a t two) l.split
    ∙ (approver_from-append a l.before (l.entry ∷ l.after) two
        ∙ rw (approved, approver_from)
            (approver_from-same (Dict.get "human" l.entry) l.after l.last))

-- no entry approves the gate, or one does so last
pub approvals_split :
    (trail : List Dict) → All (λ e. ¬ ApprovesFieldwork e) trail ⊎ LastApproval trail
approvals_split [] = inl tt
approvals_split (x ∷ d) = elim (approvals_split d) [
  | inr l ↦ inr (record {
    before = x ∷ l.before;
    entry = l.entry;
    after = l.after;
    split = ap (λ t. x ∷ t) l.split;
    approves = l.approves;
    last = l.last;
  })
  | inl never ↦ elim (Bool-cases (is_approval two x)) [
    | inl approves ↦ inr (record {
      before = [];
      entry = x;
      after = d;
      split = refl;
      approves = (is_approval_iff x).0 approves;
      last = never;
    })
    | inr other ↦ inl (λ h. let e = (is_approval_iff x).1 h in ground arith, never)
  ]
]

-- ===== src/Policy/People.antt =====
-- When two declared identities are taken for one person, and what segregation of duties refuses.
use grc_audit_swarm.Base.{
  String, ◌≡◌, ◌≢◌, refl, ◌↔◌, inl, inr, true, false, Option, none, some, List, [], ◌∷◌, eq_iff,
  arith, Bool-cases, if◌then◌else◌, All, refuse-none, subst, sym,
}
use grc_audit_swarm.Dict
use grc_audit_swarm.Dict.{Dict}
use grc_audit_swarm.Machine.{Phase, one, two, three}
use grc_audit_swarm.Policy.{
  normalise_identity, same_person, gate_approver, sod_violation, distinct_violation,
  distinct_approver_gates, distinct_message, preparer_message,
}
use grc_audit_swarm.Policy.Approvers.{
  LastApproval, approver_from-same, approver_from-LastApproval, approvals_split,
}

-- the documented reading: the normalised forms agree and are not blank
abbrev pub SamePerson : (String → String) → Option String → Option String → Type 0
SamePerson casefold a b =
    (normalise_identity casefold a ≢ "")
    × (normalise_identity casefold a ≡ normalise_identity casefold b)

module _ (casefold : String → String) where
  -- Two identities are taken for one person exactly if their normalised forms agree and are not blank.
  same_person_iff :
      (a b : Option String) → (same_person casefold a b ≡ true) ↔ SamePerson casefold a b
  unfolding same_person
  same_person_iff a b = (
    λ h. (
      λ e. ground (arith, eq_iff (normalise_identity casefold a) ""),
      ground (
        arith,
        eq_iff (normalise_identity casefold a) "",
        eq_iff (normalise_identity casefold a) (normalise_identity casefold b),
      ),
    ),
    λ (h, e). ground (
      arith,
      eq_iff (normalise_identity casefold a) "",
      eq_iff (normalise_identity casefold a) (normalise_identity casefold b),
    ),
  )

  same_person-false :
      (a b : Option String) → ¬ SamePerson casefold a b → same_person casefold a b ≡ false
  same_person-false a b h = elim (Bool-cases (same_person casefold a b)) [
    | inl e ↦ absurd (h ((same_person_iff a b).0 e))
    | inr e ↦ e
  ]

  pub not-SamePerson :
      (a b : Option String) → same_person casefold a b ≡ false → ¬ SamePerson casefold a b
  not-SamePerson a b h s = cc ((same_person_iff a b).1 s)

  -- a check that refuses one of two people for being the other
  pub same_person-refuse {ℓ} :
      {A : Type ℓ} (a b : Option String) (m : A) (x : Option A)
      → ((if same_person casefold a b then some m else x) ≡ none)
        ↔ ((¬ SamePerson casefold a b) × (x ≡ none))
  same_person-refuse a b m x =
      let (away, back) = refuse-none (same_person casefold a b) m x in
      (λ h. (not-SamePerson a b (away h).0, (away h).1), λ h. back (same_person-false a b h.0, h.1))

module _ (casefold : String → String) (human : String) (trail : List Dict) where
  -- `human` was the last to approve none of the gates, as the trail tells
  abbrev pub ApprovedNoneOf : List Phase → Type 0
  ApprovedNoneOf = All (λ g. ¬ SamePerson casefold (some human) (gate_approver trail g))

  distinct_violation_iff :
      (g : Phase) (others : List Phase)
      → (distinct_violation casefold human trail g others ≡ none) ↔ ApprovedNoneOf others
  unfolding distinct_violation
  distinct_violation_iff g [] = (λ _. tt, λ _. refl)
  distinct_violation_iff g (o ∷ os) =
      let (away, back) =
        same_person-refuse casefold (some human) (gate_approver trail o)
          (distinct_message human g o) (distinct_violation casefold human trail g os) in
      let (none_of, again) = distinct_violation_iff g os in
      (λ h. ((away h).0, none_of (away h).1), λ h. back (h.0, again h.1))

-- the human is the one who approved the Fieldwork gate last
abbrev pub LastApproved : (String → String) → String → List Dict → Type 0
LastApproved casefold human trail =
    (l : LastApproval trail) × SamePerson casefold (some human) (Dict.get "human" l.entry)

-- what a gate asks of its approver beside those of the gates before
abbrev pub Distinct : (String → String) → String → List Dict → Phase → Type 0
Distinct casefold human trail one = Unit {0}
Distinct casefold human trail two = Unit {0}
Distinct casefold human trail three = ¬ LastApproved casefold human trail

module _ (casefold : String → String) (human : String) (trail : List Dict) where
  not-SamePerson_of_none : ¬ SamePerson casefold (some human) none
  unfolding normalise_identity
  not-SamePerson_of_none (n, e) = n e

  gate_approver-LastApproved :
      (SamePerson casefold (some human) (gate_approver trail two)
        → LastApproved casefold human trail)
      × (LastApproved casefold human trail
          → SamePerson casefold (some human) (gate_approver trail two))
  unfolding gate_approver
  gate_approver-LastApproved = (
    λ same. elim (approvals_split trail) [
      | inl never ↦
          let e = approver_from-same none trail never in
          absurd (not-SamePerson_of_none (subst (SamePerson casefold (some human)) e same))
      | inr l ↦
          let e = approver_from-LastApproval none trail l in
          (l, subst (SamePerson casefold (some human)) e same)
    ],
    λ (l, same).
        let e = approver_from-LastApproval none trail l in
        subst (SamePerson casefold (some human)) (sym e) same,
  )

module _ (casefold : String → String) (human : String) (prepared : Option String) where
  approval_checks_iff :
      (trail : List Dict) (g : Phase)
      → (sod_violation casefold "gate_approval" human prepared trail (some g) ≡ none) ↔ (
          (¬ SamePerson casefold (some human) prepared)
          × ApprovedNoneOf casefold human trail (distinct_approver_gates g))
  unfolding sod_violation
  approval_checks_iff trail g =
      let others = distinct_approver_gates g in
      let (away, back) =
        same_person-refuse casefold (some human) prepared (preparer_message human "gate_approval")
          (distinct_violation casefold human trail g others) in
      let (none_of, again) = distinct_violation_iff casefold human trail g others in
      (λ h. ((away h).0, none_of (away h).1), λ h. back (h.0, again h.1))

  -- At Planning and Fieldwork a gate approval is allowed exactly if the human did not prepare the
  -- audit. At Reporting the human must moreover not be the one whom the last entry of the trail that
  -- approves the Fieldwork gate names.
  pub approval_allowed_iff :
      (trail : List Dict) (g : Phase)
      → (sod_violation casefold "gate_approval" human prepared trail (some g) ≡ none)
        ↔ ((¬ SamePerson casefold (some human) prepared) × Distinct casefold human trail g)
  unfolding distinct_approver_gates
  approval_allowed_iff trail one =
      let (away, back) = approval_checks_iff trail one in
      (λ h. ((away h).0, tt), λ h. back (h.0, tt))
  approval_allowed_iff trail two =
      let (away, back) = approval_checks_iff trail two in
      (λ h. ((away h).0, tt), λ h. back (h.0, tt))
  approval_allowed_iff trail three =
      let (away, back) = approval_checks_iff trail three in
      let (scanned, found) = gate_approver-LastApproved casefold human trail in
      (
        λ h. ((away h).0, λ l. (away h).1.0 (found l)),
        λ h. back (h.0, (λ same. h.1 (scanned same), tt)),
      )

  rework_allowed_iff :
      (trail : List Dict)
      → (sod_violation casefold "return_for_rework" human prepared trail none ≡ none)
        ↔ (¬ SamePerson casefold (some human) prepared)
  unfolding sod_violation
  rework_allowed_iff trail =
      let (away, back) =
        same_person-refuse casefold (some human) prepared
          (preparer_message human "return_for_rework") none in
      (λ h. (away h).0, λ h. back (h, refl))

  override_allowed_iff :
      (trail : List Dict)
      → (sod_violation casefold "qa_override" human prepared trail none ≡ none)
        ↔ (¬ SamePerson casefold (some human) prepared)
  unfolding sod_violation
  override_allowed_iff trail =
      let (away, back) =
        same_person-refuse casefold (some human) prepared (preparer_message human "qa_override")
          none in
      (λ h. (away h).0, λ h. back (h, refl))

  -- A return for rework is allowed exactly if the human did not prepare the audit, and so is an
  -- override of a QA rejection.
  pub reviewer_acts_allowed_iff :
      (trail : List Dict)
      → ((sod_violation casefold "return_for_rework" human prepared trail none ≡ none)
          ↔ (¬ SamePerson casefold (some human) prepared))
        × ((sod_violation casefold "qa_override" human prepared trail none ≡ none)
            ↔ (¬ SamePerson casefold (some human) prepared))
  reviewer_acts_allowed_iff trail = (rework_allowed_iff trail, override_allowed_iff trail)

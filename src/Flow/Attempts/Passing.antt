-- ===== src/Flow/Attempts/Passing.antt =====
-- What a crew's run must have shown for its phase to pass.
use grc_audit_swarm.Base.{
  ℕ, zero, suc, ◌+◌, ◌≤◌, String, ◌≡◌, ◌≢◌, refl, sym, ap, ◌∙◌, Bool, true, Option, none, some,
  List, [], ◌∷◌, ◌++◌, ◌==◌, eq_iff, arith, Option-cases, inl, inr, strip, ne_of_eq-false,
  Bool-cases, Result, subst, ◌⊎◌, err, ok, append-NonBlank,
}
use grc_audit_swarm.Machine.{Phase, one, two, three}
use grc_audit_swarm.Flow.Attempts.{
  ArtifactOf, QaOutput, Attempt, raised, returned, Crew, qa_rejection, reason_text, no_reason,
  unparseable_reason, evidence_text, check_failed_text, evidence_answer, evidence_rejection, given,
  joined, rejection_of, Outcome, passed, settle, attempts, run_attempts, linter_reason,
}

given-nil : (r : Option String) → r ≢ some "" → given r ≡ [] → r ≡ none
given-nil none n e = refl
given-nil (some r) n e = ground (arith, eq_iff r "")

left-nil : (xs ys : List String) → xs ++ ys ≡ [] → xs ≡ []
left-nil [] ys e = refl
left-nil (x ∷ xs) ys e = cc

right-nil : (xs ys : List String) → xs ++ ys ≡ [] → ys ≡ []
right-nil [] ys e = e
right-nil (x ∷ xs) ys e = cc

joined-none : (xs ys : List String) → joined (xs ++ ys) ≡ none → (xs ≡ []) × (ys ≡ [])
joined-none [] [] e = (refl, refl)
joined-none [] (y ∷ ys) e = cc
joined-none (x ∷ xs) ys e = cc

reason_text-NonBlank : (r : Option String) → reason_text r ≢ ""
unfolding no_reason strip
reason_text-NonBlank none e = cc
reason_text-NonBlank (some r) e = elim (Bool-cases (strip r == "")) [
  | inl blank ↦ let e' : no_reason ≡ "" = rw blank at e in cc
  | inr text ↦ let e' : r ≡ "" = rw text at e in ne_of_eq-false (strip r) "" text (ap strip e')
]

qa_rejection-NonBlank : (qa : Option QaOutput) → qa_rejection qa ≢ some ""
unfolding qa_rejection unparseable_reason
qa_rejection-NonBlank none e = cc
qa_rejection-NonBlank (some q) e = elim (Option-cases q.approved) [
  | inl missing ↦ let e' : some unparseable_reason ≡ some "" = rw (missing, qa_rejection) at e in cc
  | inr (b, is_b) ↦ elim (Bool-cases b) [
    | inl approved ↦
        let e' : ◌≡◌ {A = Option String} none (some "") =
          rw (is_b ∙ ap some approved, qa_rejection) at e in
        cc
    | inr refused ↦
        let e' : some (reason_text q.rejection_reason) ≡ some "" =
          rw (is_b ∙ ap some refused, qa_rejection) at e in
        let e'' : reason_text q.rejection_reason ≡ "" = cc in
        reason_text-NonBlank q.rejection_reason e''
  ]
]

evidence_text-NonBlank : (controls : List String) → evidence_text controls ≢ ""
unfolding evidence_text
evidence_text-NonBlank controls =
    append-NonBlank "Deterministic evidence check failed for " _ λ e. cc

check_failed_text-NonBlank : (m : String) → check_failed_text m ≢ ""
unfolding check_failed_text
check_failed_text-NonBlank m =
    append-NonBlank "Deterministic evidence check could not run (" _ λ e. cc

evidence_answer-NonBlank : (r : Result String (List String)) → evidence_answer r ≢ some ""
evidence_answer-NonBlank (err m) e = check_failed_text-NonBlank m cc
evidence_answer-NonBlank (ok []) e = cc
evidence_answer-NonBlank (ok (c ∷ cs)) e = evidence_text-NonBlank (c ∷ cs) cc

evidence_rejection-NonBlank :
    (p : Phase) (crew : Crew (ArtifactOf p)) (a : Option (ArtifactOf p))
    → evidence_rejection p crew a ≢ some ""
unfolding evidence_rejection
evidence_rejection-NonBlank one crew a e = cc
evidence_rejection-NonBlank two crew none e = cc
evidence_rejection-NonBlank two crew (some a) e = evidence_answer-NonBlank (crew.unverified a) e
evidence_rejection-NonBlank three crew a e = cc

-- QA's approval, which alone is no rejection
qa_rejection-approved :
    (qa : Option QaOutput)
    → qa_rejection qa ≡ none
    → (q : QaOutput) × (qa ≡ some q) × (q.approved ≡ some true)
unfolding qa_rejection
qa_rejection-approved none e = cc
qa_rejection-approved (some q) e = (q, refl, ground arith)

-- what an attempt that passes has shown
pub record Passes (p : Phase) (crew : Crew (ArtifactOf p)) (n : ℕ) (a : Option (ArtifactOf p))
    : Type 0 where
  pub feedback : String
  pub qa : QaOutput
  pub answered : crew.attempt n feedback ≡ returned (some qa) a
  pub approved : qa.approved ≡ some true
  pub evidence : evidence_rejection p crew a ≡ none
  pub linter : given (linter_reason crew.strict_linter (crew.lint a)) ≡ []

module _ (p : Phase) (crew : Crew (ArtifactOf p)) where
  rejection_of-none :
      (qa : Option QaOutput) (a : Option (ArtifactOf p))
      → rejection_of p crew qa a ≡ none
      → (qa_rejection qa ≡ none)
        × (evidence_rejection p crew a ≡ none)
        × (given (linter_reason crew.strict_linter (crew.lint a)) ≡ [])
  unfolding rejection_of
  rejection_of-none qa a e =
      let (no_qa, more) = joined-none (given (qa_rejection qa)) _ e in
      (
        given-nil (qa_rejection qa) (qa_rejection-NonBlank qa) no_qa,
        given-nil (evidence_rejection p crew a) (evidence_rejection-NonBlank p crew a)
            (left-nil (given (evidence_rejection p crew a)) _ more),
        right-nil (given (evidence_rejection p crew a)) _ more,
      )

  module _ (seeded : String) where
    settle-passed :
        (n m : ℕ) (feedback : String) (att : Attempt (ArtifactOf p)) (a : Option (ArtifactOf p))
        → (again : Option (ArtifactOf p) → Bool → String → Outcome (ArtifactOf p))
        → crew.attempt n feedback ≡ att
        → settle p crew seeded n att again ≡ passed m a
        → ((m ≡ n) × Passes p crew n a)
          ⊎ ((b : Option (ArtifactOf p)) × (by : Bool) × (r : String) × (again b by r ≡ passed m a))
    unfolding settle
    settle-passed n m feedback (raised x) a again att e = cc
    settle-passed n m feedback (returned qa b) a again att e =
        elim (Option-cases (rejection_of p crew qa b)) [
          | inl none_found ↦
              let e' : passed n b ≡ passed m a = rw (none_found, settle) at e in
              let (no_qa, no_evidence, no_lint) = rejection_of-none qa b none_found in
              let (q, is_q, is_approved) = qa_rejection-approved qa no_qa in
              let same : b ≡ a = cc in
              let number : m ≡ n = cc in
              inl (
                number,
                record {
                  feedback = feedback;
                  qa = q;
                  answered = cc;
                  approved = is_approved;
                  evidence = cc;
                  linter = rw (← same) no_lint;
                },
              )
          | inr (r, found) ↦ inr (b, _, r, (rw (found, settle) at e))
        ]

    attempts-passed :
        (left n m : ℕ) (feedback : String) (a : Option (ArtifactOf p))
        → attempts p crew seeded left n feedback ≡ passed m a
        → (n ≤ m) × (m ≤ n + left) × Passes p crew m a
    unfolding attempts
    attempts-passed zero n m feedback a e =
        elim (settle-passed n m feedback (crew.attempt n feedback) a _ refl e) [
          | inl (number, shown) ↦
              (omega arith, omega arith, subst (λ k. Passes p crew k a) (sym number) shown)
          | inr (b, by, r, never) ↦ cc
        ]
    attempts-passed (suc left) n m feedback a e =
        elim (settle-passed n m feedback (crew.attempt n feedback) a _ refl e) [
          | inl (number, shown) ↦
              (omega arith, omega arith, subst (λ k. Passes p crew k a) (sym number) shown)
          | inr (b, by, r, later) ↦
              let (low, high, shown) = attempts-passed left (suc n) m _ a later in
              (omega arith, omega arith, shown)
        ]

-- A run passes only if one of its first two attempts gave a QA result that could be parsed and says
-- approved, and an artifact whose evidence the check of Fieldwork does not reject and against which a
-- strict linter gave no reason: a missing or unparseable QA result never passes.
pub run_attempts-passed :
    (p : Phase) (crew : Crew (ArtifactOf p)) (seeded : String) (m : ℕ) (a : Option (ArtifactOf p))
    → run_attempts p crew seeded ≡ passed m a
    → (1 ≤ m) × (m ≤ 2) × Passes p crew m a
unfolding run_attempts
run_attempts-passed p crew seeded m a e = attempts-passed p crew seeded 1 1 m seeded a e

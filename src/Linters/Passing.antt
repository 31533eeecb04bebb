-- ===== src/Linters/Passing.antt =====
-- When a report that is put together of parts passes.
use grc_audit_swarm.Base.{
  is_empty, keep, contains, Bool-cases, ◌==◌, eq_iff, inl, inr, String, ◌≡◌, refl, Bool, true,
  false, List, [], ◌∷◌, ◌++◌, All, any, ◌||◌, arith, not,
}
use grc_audit_swarm.Linters.{
  LintViolation, LintReport, passed, is_error, report_if, each, checks, joined, error, violation,
  Message,
}

any-append :
    {A : Type 0} (p : A → Bool) (xs ys : List A) → any p (xs ++ ys) ≡ (any p xs || any p ys)
any-append p [] ys = refl
any-append p (x ∷ xs) ys = ground (arith, any-append p xs ys)

-- a report passes only if its parts do
pub passed-append :
    (a b : LintReport) → passed (a ++ b) ≡ true → (passed a ≡ true) × (passed b ≡ true)
unfolding passed
passed-append a b h = ground (arith, any-append (λ (v : LintViolation). is_error v.severity) a b)

-- an error is not reported only if its test fails
pub passed-report_if :
    (test : Bool) (v : LintViolation)
    → v.severity ≡ error
    → passed (report_if test v) ≡ true
    → test ≡ false
unfolding passed
passed-report_if true v e h = let never : false ≡ true = rw e at h in absurd cc
passed-report_if false v e h = refl

pub passed-each :
    {A : Type 0} (f : A → LintReport) (xs : List A)
    → passed (each f xs) ≡ true
    → All (λ x. passed (f x) ≡ true) xs
passed-each f [] h = tt
passed-each f (x ∷ xs) h =
    let (first, rest) = passed-append (f x) (each f xs) h in (first, passed-each f xs rest)

pub passed-joined :
    (parts : List LintReport) → passed (joined parts) ≡ true → All (λ r. passed r ≡ true) parts
passed-joined parts h = passed-each (λ part. part) parts h

pub passed-checks :
    (subject : String) (tests : List (Bool × String × Message))
    → passed (checks subject tests) ≡ true
    → All (λ k. k.0 ≡ false) tests
passed-checks subject [] h = tt
passed-checks subject (k ∷ ks) h =
    let (first, rest) =
      passed-append (report_if k.0 (violation k.1 subject k.2)) (checks subject ks) h in
    (passed-report_if k.0 (violation k.1 subject k.2) refl first, passed-checks subject ks rest)

-- a loop that reports the items for which a test holds
pub passed-each_test :
    {A : Type 0} (subject rule : String) (test : A → Bool) (message : A → Message) (xs : List A)
    → passed (each (λ x. checks subject ((test x, rule, message x) ∷ [])) xs) ≡ true
    → All (λ x. test x ≡ false) xs
passed-each_test subject rule test message [] h = tt
passed-each_test subject rule test message (x ∷ xs) h =
    let one = (test x, rule, message x) ∷ [] in
    let (first, rest) =
      passed-append (checks subject one)
        (each (λ x. checks subject ((test x, rule, message x) ∷ [])) xs) h in
    ((passed-checks subject one first).0, passed-each_test subject rule test message xs rest)

-- a list that keeps nothing has nothing that the test holds of
pub keep-none :
    (p : String → Bool) (xs : List String) (x : String)
    → is_empty (keep p xs) ≡ true
    → contains xs x ≡ true
    → p x ≡ false
keep-none p [] x h c = absurd cc
keep-none p (y ∷ ys) x h c = elim (Bool-cases (p y)) [
  | inl b ↦ let never : false ≡ true = rw b at h in absurd cc
  | inr b ↦
      let rest : is_empty (keep p ys) ≡ true = rw b at h in
      elim (Bool-cases (y == x)) [
        | inl e ↦ let same : y ≡ x = ground (arith, eq_iff y x) in rw (← same) b
        | inr e ↦ keep-none p ys x rest (ground arith)
      ]
]

-- a loop over tests that are negated
pub All-not :
    {A : Type 0} (p : A → Bool) (xs : List A)
    → All (λ x. not (p x) ≡ false) xs
    → All (λ x. p x ≡ true) xs
All-not p [] h = tt
All-not p (x ∷ xs) (h, hs) = (ground arith, All-not p xs hs)

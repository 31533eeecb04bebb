-- ===== src/Linters/Racm/Clean.antt =====
-- What a matrix has that the strict linter passes.
use grc_audit_swarm.Base.{
  all_new, ℕ, ◌≤◌, String, ◌≡◌, ◌≢◌, refl, true, false, some, List, [], ◌∷◌, ◌++◌, All, contains,
  is_empty, is_some, map, ltb, arith, Bool-cases, inl, inr,
}
use grc_audit_swarm.Schema.{Control, Risk, RiskControlMatrix, ControlFrequency}
use grc_audit_swarm.Linters.{
  Tools, passed, violation, no_controls, auditing_standard_cited, sample_too_small,
}
use grc_audit_swarm.Linters.Passing.{
  passed-append, passed-report_if, passed-joined, passed-checks, passed-each_test,
}
use grc_audit_swarm.Linters.Racm.{
  min_sample_size, is_manual, is_it_dependent, is_test_of_one, is_full_population, is_repeated,
  no_steps, no_text, incomplete_population, cites_auditing_standard, lint_size, lint_sampling,
  lint_control, lint_controls, seen_after, lint_risk, lint_risks, lint_racm, attribute_checks,
  control_reports, structure_checks, ipe_checks, test_of_one_checks, risk_reports,
}

-- no text twice
abbrev pub Unique : List String → Type 0
Unique [] = Unit
Unique (x ∷ xs) = All (λ y. x ≢ y) xs × Unique xs

-- Every attribute and step that the strict mode wants is stated.
pub record Attributed (c : Control) : Type 0 where
  pub control_owner : is_some c.control_owner ≡ true
  pub frequency : is_some c.frequency ≡ true
  pub nature : is_some c.nature ≡ true
  pub control_type : is_some c.control_type ≡ true
  pub key_control : is_some c.key_control ≡ true
  pub substantive_testing : no_steps c.testing_procedures.substantive_testing ≡ false
  pub period : no_text c.testing_procedures.period_of_reliance ≡ false
  pub sampling_method : is_some c.testing_procedures.sampling_method ≡ true

-- A control with its steps and attributes, the chain of its IPE, and a sample that is large enough.
pub record ControlClean (t : Tools) (c : Control) : Type 0 where
  pub design : is_empty c.testing_procedures.test_of_design ≡ false
  pub effectiveness : is_empty c.testing_procedures.test_of_effectiveness ≡ false
  pub attributed : Attributed c
  pub ipe : is_it_dependent c.nature ≡ true → is_empty c.ipe ≡ false
  pub manual_complete :
      is_manual c.nature ≡ true → incomplete_population t c.testing_procedures.population ≡ false
  pub ipe_complete :
      is_empty c.ipe ≡ false → incomplete_population t c.testing_procedures.population ≡ false
  pub more_than_one :
      is_test_of_one c.testing_procedures.sampling_method ≡ true
      → is_manual c.nature ≡ true
      → is_repeated c.frequency ≡ false
  pub sample_size :
      (frequency : ControlFrequency) (size : ℕ)
      → is_manual c.nature ≡ true
      → is_full_population c.testing_procedures.sampling_method ≡ false
      → c.frequency ≡ some frequency
      → c.testing_procedures.sample_size ≡ some size
      → min_sample_size frequency ≤ size

abbrev pub control_ids : List Control → List String
control_ids cs = map (λ c. c.control_id) cs

-- the control ids of the whole matrix
abbrev pub racm_ids : List Risk → List String
racm_ids [] = []
racm_ids (r ∷ rs) = control_ids r.controls ++ racm_ids rs

pub record RiskClean (t : Tools) (r : Risk) : Type 0 where
  pub mapped : All (λ m. cites_auditing_standard t m ≡ false) r.regulatory_mapping
  pub controlled : is_empty r.controls ≡ false
  pub controls : All (ControlClean t) r.controls

-- A matrix with risks, controls for each and no control id twice.
pub record RacmClean (t : Tools) (racm : RiskControlMatrix) : Type 0 where
  pub some_risk : is_empty racm.risks ≡ false
  pub risks : All (RiskClean t) racm.risks
  pub unique : Unique (racm_ids racm.risks)

-- each of the texts is new to `seen` and to those before it
FreshFrom : List String → List String → Type 0
FreshFrom seen [] = Unit
FreshFrom seen (x ∷ xs) = (contains seen x ≡ false) × FreshFrom (x ∷ seen) xs

FreshFrom-Unique :
    (seen xs : List String) → FreshFrom seen xs → All (λ y. contains seen y ≡ false) xs × Unique xs
unfolding FreshFrom
FreshFrom-Unique seen [] h = (tt, tt)
FreshFrom-Unique seen (x ∷ xs) (h, hs) =
    let (new, unique) = FreshFrom-Unique (x ∷ seen) xs hs in
    let (other, before) = all_new (λ y. y) x seen xs new in ((h, before), (other, unique))

module _ (t : Tools) where
  FreshFrom-append :
      (seen : List String) (cs : List Control) (ids : List String)
      → FreshFrom seen (control_ids cs)
      → FreshFrom (seen_after t seen cs) ids
      → FreshFrom seen (control_ids cs ++ ids)
  unfolding FreshFrom seen_after
  FreshFrom-append seen [] ids a b = b
  FreshFrom-append seen (c ∷ cs) ids (a, as') b =
      (a, FreshFrom-append (c.control_id ∷ seen) cs ids as' b)

  attribute_checks-Attributed :
      (c : Control) → All (λ k. k.0 ≡ false) (attribute_checks t c) → Attributed c
  unfolding attribute_checks
  attribute_checks-Attributed c
        (owner, (frequency, (nature, (kind, (key, (steps, (period, (method, _)))))))) =
      record {
        control_owner = ground arith;
        frequency = ground arith;
        nature = ground arith;
        control_type = ground arith;
        key_control = ground arith;
        substantive_testing = steps;
        period = period;
        sampling_method = ground arith;
      }

  lint_sampling-min :
      (c : Control) (frequency : ControlFrequency) (size : ℕ)
      → passed (lint_sampling t c) ≡ true
      → is_manual c.nature ≡ true
      → is_full_population c.testing_procedures.sampling_method ≡ false
      → c.frequency ≡ some frequency
      → c.testing_procedures.sample_size ≡ some size
      → min_sample_size frequency ≤ size
  unfolding lint_sampling lint_size
  lint_sampling-min c frequency size h m p f n =
      let measured : passed (lint_size t c.control_id (some frequency) (some size)) ≡ true =
        rw (m, p, f, n, lint_sampling) at h in
      let enough =
        passed-report_if (ltb size (min_sample_size frequency))
          (violation "D7" c.control_id
            (sample_too_small size frequency (min_sample_size frequency)))
          refl measured in
      ground arith

  lint_control-Clean :
      (seen : List String) (c : Control)
      → passed (lint_control t true seen c) ≡ true
      → ControlClean t c × (contains seen c.control_id ≡ false)
  unfolding lint_control control_reports structure_checks ipe_checks test_of_one_checks
  lint_control-Clean seen c h =
      let (structure, (attributes, (ipe, (one, (sampling, _))))) =
        passed-joined (control_reports t true seen c) h in
      let (new, (design, (effectiveness, _))) =
        passed-checks c.control_id (structure_checks t seen c) structure in
      let (it_ipe, (complete, _)) = passed-checks c.control_id (ipe_checks t true c) ipe in
      let (not_one, _) = passed-checks c.control_id (test_of_one_checks t c) one in
      (
        record {
          design = design;
          effectiveness = effectiveness;
          attributed =
              attribute_checks-Attributed c
                (passed-checks c.control_id (attribute_checks t c) attributes);
          ipe = λ b. ground arith;
          manual_complete = λ b. ground arith;
          ipe_complete = λ b. ground arith;
          more_than_one = λ a b. ground arith;
          sample_size =
              λ frequency size m p f n. lint_sampling-min c frequency size sampling m p f n;
        },
        new,
      )

  lint_controls-Clean :
      (seen : List String) (cs : List Control)
      → passed (lint_controls t true seen cs) ≡ true
      → All (ControlClean t) cs × FreshFrom seen (control_ids cs)
  unfolding lint_controls FreshFrom
  lint_controls-Clean seen [] h = (tt, tt)
  lint_controls-Clean seen (c ∷ cs) h =
      let (first, rest) =
        passed-append (lint_control t true seen c) (lint_controls t true (c.control_id ∷ seen) cs)
          h in
      let (clean, new) = lint_control-Clean seen c first in
      let (cleans, news) = lint_controls-Clean (c.control_id ∷ seen) cs rest in
      ((clean, cleans), (new, news))

  lint_risk-Clean :
      (seen : List String) (r : Risk)
      → passed (lint_risk t true seen r) ≡ true
      → RiskClean t r × FreshFrom seen (control_ids r.controls)
  unfolding lint_risk risk_reports
  lint_risk-Clean seen r h =
      let (mapped, (some_control, (controls, _))) = passed-joined (risk_reports t true seen r) h in
      let (controlled, _) =
        passed-checks r.risk_id ((is_empty r.controls, "D6", no_controls r.risk_id) ∷ [])
          some_control in
      let (clean, fresh) = lint_controls-Clean seen r.controls controls in
      (
        record {
          mapped =
              passed-each_test r.risk_id "D13" (cites_auditing_standard t) auditing_standard_cited
                r.regulatory_mapping mapped;
          controlled = controlled;
          controls = clean;
        },
        fresh,
      )

  lint_risks-Clean :
      (seen : List String) (rs : List Risk)
      → passed (lint_risks t true seen rs) ≡ true
      → All (RiskClean t) rs × FreshFrom seen (racm_ids rs)
  unfolding lint_risks FreshFrom
  lint_risks-Clean seen [] h = (tt, tt)
  lint_risks-Clean seen (r ∷ rs) h =
      let (first, rest) =
        passed-append (lint_risk t true seen r)
          (lint_risks t true (seen_after t seen r.controls) rs) h in
      let (clean, fresh) = lint_risk-Clean seen r first in
      let (cleans, freshes) = lint_risks-Clean (seen_after t seen r.controls) rs rest in
      ((clean, cleans), FreshFrom-append seen r.controls (racm_ids rs) fresh freshes)

  -- A matrix that the strict linter passes has a risk, each risk a control, and no control id twice.
  -- No mapping cites an auditing standard. Each control has test steps and every attribute; if it
  -- is IT-dependent it names its IPE; if it is manual or names IPE its population has a concrete
  -- completeness procedure; and the sample size that a manual control states is not below the
  -- minimum for its frequency, unless the full population is tested.
  pub lint_racm-Clean :
      (racm : RiskControlMatrix) → passed (lint_racm t true racm) ≡ true → RacmClean t racm
  unfolding lint_racm passed
  lint_racm-Clean racm h = elim (Bool-cases (is_empty racm.risks)) [
    | inl b ↦ let never : false ≡ true = rw (b, lint_racm) at h in absurd cc
    | inr b ↦
        let passes : passed (lint_risks t true [] racm.risks) ≡ true = rw (b, lint_racm) at h in
        let (clean, fresh) = lint_risks-Clean [] racm.risks passes in
        record {
          some_risk = b;
          risks = clean;
          unique = (FreshFrom-Unique [] (racm_ids racm.risks) fresh).1;
        }
  ]

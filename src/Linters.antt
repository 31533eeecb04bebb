-- ===== src/Linters.antt =====
-- src/swarm/linters.py: the deterministic linters of the three artifacts. `re`, `str.lower`, dates and
-- the evidence vault are parameters (`Tools`). A violation's message stands as a constructor, with the
-- values that its sentence prints.
pub mod Passing
pub mod Racm
pub mod Traps
pub mod Papers
pub mod Report
pub mod Samples
use grc_audit_swarm.Base.{
  ℕ, String, Bool, true, false, not, ◌&&◌, ◌||◌, Option, none, some, List, [], ◌∷◌, ◌++◌, ◌==◌, any,
  keep, contains, if◌then◌else◌, Result,
}
use grc_audit_swarm.Schema.{ControlFrequency, ControlNature}
use grc_audit_swarm.Schema.Findings.{FindingResult, DesignConclusion, OperatingConclusion}
use grc_audit_swarm.Schema.Deficiencies.{DeficiencyClassification, DeficiencyScale}

pub data Severity : Type 0 where
  error warning : Severity

abbrev pub is_error : Severity → Bool
is_error error = true
is_error warning = false

-- the messages of the violations
pub data Message : Type 0 where
  no_risks missing_design_steps missing_effectiveness_steps missing_substantive_testing : Message
  missing_period missing_sampling_method missing_ipe missing_completeness : Message
  auditing_standard_cited no_controls duplicate_control missing_attribute : String → Message
  test_of_one_invalid : Option ControlNature → Option ControlFrequency → Message
  sample_too_small : ℕ → ControlFrequency → ℕ → Message
  slop_phrase : String → Message
  findings_missing findings_extra : List String → Message
  more_exceptions_than_items : ℕ → ℕ → Message
  untested_with_items uncited_evidence : Message
  deficiency_mismatch : Option Bool → Option FindingResult → Message
  quote_unverified : String → Message
  unreliable_itgcs : List String → Message
  collected_outside_period : ℕ → ℕ → ℕ → Message
  deviation_rate : ℕ → ℕ → Message
  polarity_inversion : String → Message
  scope_generalised snapshot_without_basis : Message
  threshold_mismatch : ℕ → ℕ → Message
  citation_dumping : Message
  unknown_finding unknown_risk unknown_compensating failed_compensating : String → Message
  off_scale : DeficiencyClassification → DeficiencyScale → Message
  weakness_floor : Message
  deficiencies_uncovered : List String → Message
  certification_claim : String → Message
  icfr_terminology : Message

pub record LintViolation : Type 0 where
  pub rule_id : String
  pub subject_id : String
  pub message : Message
  pub severity : Severity

abbrev pub violation : String → String → Message → LintViolation
violation rule subject message = record {
  rule_id = rule;
  subject_id = subject;
  message = message;
  severity = error;
}

-- `violations` of a report
abbrev pub LintReport : Type 0
LintReport = List LintViolation

unfoldable pub passed : LintReport → Bool
passed violations = not (any (λ v. is_error v.severity) violations)

unfoldable pub errors : LintReport → List LintViolation
errors violations = keep (λ v. is_error v.severity) violations

unfoldable pub warnings : LintReport → List LintViolation
warnings violations = keep (λ v. not (is_error v.severity)) violations

-- the subjects of the errors that name one, each once and in their order
unfoldable pub subjects_from : List String → List LintViolation → List String
subjects_from seen [] = []
subjects_from seen (v ∷ vs) =
    let old = subjects_from seen vs in
    let new = subjects_from (v.subject_id ∷ seen) vs in
    if v.subject_id == "" || contains seen v.subject_id then old else v.subject_id ∷ new

unfoldable pub affected_subjects : LintReport → List String
unfolding errors subjects_from
affected_subjects violations = subjects_from [] (errors violations)

-- `if test: report.violations.append(...)`
abbrev pub report_if : Bool → LintViolation → LintReport
report_if test v = if test then v ∷ [] else []

-- the reports of the rounds of a loop
abbrev pub each {ℓ} : {A : Type ℓ} → (A → LintReport) → List A → LintReport
each f [] = []
each f (x ∷ xs) = f x ++ each f xs

-- several tests of one subject in turn, each with its rule and its message
abbrev pub checks : String → List (Bool × String × Message) → LintReport
checks subject tests = each (λ k. report_if k.0 (violation k.1 subject k.2)) tests

-- the parts of a report in turn
abbrev pub joined : List LintReport → LintReport
joined parts = each (λ part. part) parts

pub record Tools : Type 0 where
  -- `re.search(pattern, text, re.IGNORECASE)`
  pub search : String → String → Bool
  -- the text of that match
  pub matched : String → String → Option String
  -- the number that its first group holds
  pub found_number : String → String → Option ℕ
  -- `re.fullmatch(pattern, text)`
  pub full_match : String → String → Bool
  -- `re.search` for a phrase that no word character precedes or follows
  pub has_phrase : String → String → Bool
  -- `re.findall(pattern, text)`
  pub find_all : String → String → List String
  pub lower : String → String
  -- `verify_exact_quote` of a vault record and a quote in the session
  pub verify_exact_quote : String → String → Bool
  -- `collected` of the vault's metadata of a record
  pub collected : String → Option String
  -- ordinals of `date.fromisoformat(text)`, and of `datetime.fromisoformat(text).date()`
  pub iso_date : String → Option ℕ
  pub timestamp_date : String → Option ℕ
  -- ordinals of a year's first and last day
  -- `datetime.date(year, 1, 1)` and `datetime.date(year, 12, 31)`, or the exception's text
  pub year_start : ℕ → Result String ℕ
  pub year_end : ℕ → Result String ℕ

unfoldable pub forbidden_slop_phrases : List String
forbidden_slop_phrases =
    "delve" ∷ "delving" ∷ "tapestry" ∷ "testament to" ∷ "robust framework" ∷ "holistic approach"
    ∷ "synergy" ∷ "paradigm shift" ∷ "beacon of" ∷ "underscores the importance"
    ∷ "in today's rapidly evolving" ∷ "ever-changing landscape" ∷ "seamlessly integrated" ∷ []

-- `_check_slop_text`
unfoldable pub check_slop_text : Tools → String → String → LintReport
unfolding forbidden_slop_phrases
check_slop_text t text subject =
    if text == ""
    then []
    else each
        (λ phrase.
          report_if (t.has_phrase phrase (t.lower text))
            (violation "D14" subject (slop_phrase phrase)))
        forbidden_slop_phrases

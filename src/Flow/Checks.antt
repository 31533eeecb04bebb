-- ===== src/Flow/Checks.antt =====
-- The checks that the gate methods of `AuditFlow` make before they act.
use Prim.Native.Char.{Char, code}
use grc_audit_swarm.Base.{
  String, Bool, not, ◌&&◌, Option, none, some, List, [], ◌∷◌, ◌==◌, if◌then◌else◌, keep, contains,
  eqb, is_empty, Result, ok, err, ◌>>=◌, strip,
}
use grc_audit_swarm.Dict
use grc_audit_swarm.Dict.{Dict}
use grc_audit_swarm.Machine.{Phase, one, two, three, AuditStatus, can}
use grc_audit_swarm.Policy.{sod_violation}
use grc_audit_swarm.Trail.{Entry}
use grc_audit_swarm.Trail.Verify.{artifact_digest}
use grc_audit_swarm.Schema.Findings.{WorkingPaper}
use grc_audit_swarm.Schema.Decisions.{ReviewDecision, identity_source_of, source_value}
use grc_audit_swarm.Decisions.{Platform, digest_of, active_for, SlotKey}
use grc_audit_swarm.Decisions.Errors.{
  AuditError, value_error, invalid_transition, segregation_of_duties, unverified_evidence,
  missing_review_decisions, MissingDecision,
}
use grc_audit_swarm.Decisions.Values.{check}
use grc_audit_swarm.Decisions.View.{missing_for_gate_2, missing_for_gate_3}
use grc_audit_swarm.Flow.State.{Flow, AuditState, decision_context, review_decisions_required}

-- `_require_text`
unfoldable pub require_text : String → String → Result AuditError String
require_text text what = if strip text == "" then err (value_error what) else ok (strip text)

-- `_identity_source`
unfoldable pub identity_source : String → Result AuditError String
identity_source text = elim (identity_source_of text) [
  | none ↦ err (value_error text)
  | some source ↦ ok (source_value source)
]

unfoldable pub require_transition : AuditStatus → AuditStatus → Flow → Result AuditError (Unit {0})
require_transition target source f =
    check (can f.machine target (source ∷ []))
      (invalid_transition (record { current = f.machine; target = target }))

-- The loop of `_check_sod` over the preparers.
unfoldable pub check_sod :
    (String → String)
    → String
    → String
    → Option Phase
    → List Entry
    → List String
    → Result AuditError (Unit {0})
check_sod casefold action human gate trail [] = ok tt
check_sod casefold action human gate trail (p ∷ ps) =
    elim (sod_violation casefold action human (some p) trail gate) [
      | some m ↦ err (segregation_of_duties m)
      | none ↦ check_sod casefold action human gate trail ps
    ]

-- one character before the parts of the rest
abbrev in_part : Char → List String → List String
in_part c [] = String.◌∷◌ c String.[] ∷ []
in_part c (w ∷ ws) = String.◌∷◌ c w ∷ ws

-- `text.split(",")`
unfoldable pub split_commas : String → List String
split_commas String.[] = "" ∷ []
split_commas (String.◌∷◌ c s) =
    let rest = split_commas s in if eqb (code c) 44 then "" ∷ rest else in_part c rest

abbrev pub fieldwork_override : String
fieldwork_override = "QA Override (Fieldwork)"

-- the override of just these papers
unfoldable pub is_override_of : String → Entry → Bool
unfolding Dict.has
is_override_of digest e =
    Dict.has "action" "qa_override" e
    && Dict.has "gate" fieldwork_override e
    && Dict.has "artifact_digest" digest e

-- the newest entry that passes the test
unfoldable pub newest_entry : (Entry → Bool) → List Entry → Option Entry
newest_entry p [] = none
newest_entry p (e ∷ es) =
    let later = newest_entry p es in
    elim later [ some l ↦ some l | none ↦ if p e then some e else none ]

-- `_accepted_unverified`
unfoldable pub accepted_unverified : Platform → AuditState → List String
unfolding newest_entry is_override_of split_commas
accepted_unverified env s = elim s.working_papers [
  | none ↦ []
  | some papers ↦
      elim (newest_entry (is_override_of (artifact_digest env.digests (env.dump_papers papers)))
        s.approval_trail) [
          | none ↦ []
          | some e ↦
              keep (λ c. not (c == "")) (split_commas (Dict.get_or "unverified_controls" e ""))
        ]
]

-- The evidence check of a working paper's quotes against the vault, by its unverified controls.
abbrev pub Vault : Type 0
Vault = WorkingPaper → List String

-- `unverified_evidence`
abbrev pub unverified_of : Vault → Option WorkingPaper → List String
unverified_of vault none = []
unverified_of vault (some papers) = vault papers

unfoldable pub not_accepted : Platform → Vault → AuditState → List String
not_accepted env vault s =
    keep (λ c. not (contains (accepted_unverified env s) c)) (unverified_of vault s.working_papers)

-- `_check_evidence_for_gate_2`, where it applies
unfoldable pub check_evidence : Platform → Vault → Phase → AuditState → Result AuditError (Unit {0})
check_evidence env vault two s =
    check (is_empty (not_accepted env vault s)) (unverified_evidence (not_accepted env vault s))
check_evidence env vault _ s = ok tt

module _ (env : Platform) (s : AuditState) where
  abbrev pub active_now : SlotKey → Option ReviewDecision
  active_now = active_for (digest_of env (decision_context s)) s.review_decisions

  -- what `effective_view` reports missing for the gate; Gate 1 needs no decisions
  unfoldable pub missing_for : Phase → Result AuditError (List MissingDecision)
  missing_for one = ok []
  missing_for two = missing_for_gate_2 (decision_context s) active_now
  missing_for three = missing_for_gate_3 (decision_context s) active_now

  -- `_check_review_decisions`
  unfoldable pub check_review_decisions : Phase → Result AuditError (Unit {0})
  check_review_decisions p =
      if review_decisions_required s
      then (missing_for p >>= λ missing.
          check (is_empty missing) (missing_review_decisions missing))
      else ok tt

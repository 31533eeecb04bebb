-- ===== src/Trail/Verify.antt =====
-- `verify_trail` of src/swarm/trail.py, with the checks of what was approved. Of a result's fields
-- only the sentence for the reader, `detail`, is left out. An artifact or a decision stands for its
-- canonical JSON, which pydantic dumps.
use Prim.Native.Char.{code}
use grc_audit_swarm.Base.{
  ℕ, ◌+◌, ◌-◌, ◌*◌, String, Bool, true, false, not, ◌&&◌, Option, none, some, List, [], ◌∷◌, ◌++◌,
  ◌==◌, any, get_elem?, length, is_empty, eqb, ltb, leb, map, if◌then◌else◌, ok, err, is_some,
  concat, join, strip,
}
use grc_audit_swarm.Dict
use grc_audit_swarm.Dict.{Dict}
use grc_audit_swarm.Trail.{
  Digests, Entry, TrailStatus, Scan, Stop, head, scan_trail, legacy_prefix, chained_part, intact,
  legacy_unchained, broken, truncated, unkeyed, artifact_changed, decision_changed, anchor_mismatch,
}

-- `{"count": n, "head_hash": h}`; a negative count is 0, and a record that does not parse is none
pub record Anchor : Type 0 where
  pub count : ℕ
  pub head_hash : String

-- what `verify_trail` reads of a stored reviewer decision
pub record StoredDecision : Type 0 where
  pub decision_id : String
  pub decision_type : String
  pub subject_id : String
  pub json : String

pub record Verdict : Type 0 where
  pub status : TrailStatus
  pub entries : ℕ
  pub legacy_entries : ℕ
  pub first_broken_index : Option ℕ
  pub keyed : Bool
  pub anchored : Bool
  pub head_hash : Option String
  pub changed_since_approval : List String
  pub decisions_changed : List String

-- `result["ok"]`
abbrev pub is_intact : TrailStatus → Bool
is_intact intact = true
is_intact _ = false

-- `int(text)` for ASCII digits; texts that it refuses, and negative numbers, are no phase
digits_from : ℕ → String → Option ℕ
digits_from n String.[] = some n
digits_from n (String.◌∷◌ c s) =
    let rest = digits_from (n * 10 + (code c - 48)) s in
    if leb 48 (code c) && leb (code c) 57 then rest else none

unfoldable pub parse_int : String → Option ℕ
unfolding digits_from strip
parse_int s = if strip s == "" then none else digits_from 0 (strip s)

unfoldable pub artifact_digest : Digests → String → String
artifact_digest h json = h.sha256 json

unfoldable pub decisions_digest : Digests → List StoredDecision → String
decisions_digest h ds = h.sha256 (concat ("[" ∷ join "," (map (λ d. d.json) ds) ∷ "]" ∷ []))

unfoldable pub artifact_phase : String → ℕ
artifact_phase field =
    if field == "racm_plan"
    then 1
    else if field == "working_papers"
    then 2
    else if field == "final_report"
    then 3
    else 0

-- the latest approval of an artifact, and the decisions of its phase recorded before it
pub record Approval : Type 0 where
  pub field : String
  pub gate : String
  pub digest : String
  pub sealed : Option String
  pub ids : List String

-- `latest[field] = approval`: a field keeps the place of its first approval
unfoldable pub set_latest : Approval → List Approval → List Approval
set_latest a [] = a ∷ []
set_latest a (b ∷ bs) = if b.field == a.field then a ∷ bs else b ∷ set_latest a bs

-- the ids recorded so far for one phase
unfoldable pub ids_of_phase : ℕ → List (ℕ × String) → List String
ids_of_phase p [] = []
ids_of_phase p ((q, i) ∷ rest) = if eqb q p then i ∷ ids_of_phase p rest else ids_of_phase p rest

-- a text that is there and not empty
abbrev pub truthy : Option String → Option String
truthy none = none
truthy (some s) = if s == "" then none else some s

unfoldable pub latest_approvals : List Entry → List (ℕ × String) → List Approval → List Approval
unfolding Dict.get Dict.has Dict.get_or parse_int set_latest ids_of_phase artifact_phase
latest_approvals [] recorded latest = latest
latest_approvals (e ∷ es) recorded latest =
    latest_approvals es
      (if Dict.has "action" "review_decision" e
        then elim (parse_int (Dict.get_or "phase" e "")) [
          | none ↦ recorded
          | some p ↦ recorded ++ (p, Dict.get_or "decision_id" e "") ∷ []
        ]
        else recorded)
      (if Dict.has "action" "review_decision" e
        then latest
        else if Dict.has "action" "gate_approval" e
        then elim (truthy (Dict.get "artifact_digest" e)) [
          | none ↦ latest
          | some digest ↦
              set_latest
                (record {
                  field = Dict.get_or "artifact" e "";
                  gate = Dict.get_or "gate" e "";
                  digest = digest;
                  sealed = truthy (Dict.get "decisions_digest" e);
                  ids = ids_of_phase (artifact_phase (Dict.get_or "artifact" e "")) recorded;
                })
                latest
        ]
        else latest)

-- `by_id.get(i)`: of decisions that share an id the last counts
unfoldable pub decision_by_id : String → List StoredDecision → Option StoredDecision
decision_by_id i [] = none
decision_by_id i (d ∷ ds) =
    let later = decision_by_id i ds in
    if is_some later then later else if d.decision_id == i then some d else none

-- `[by_id[i] for i in ids]`, if they are all there
unfoldable pub decisions_by_id : List String → List StoredDecision → Option (List StoredDecision)
unfolding decision_by_id
decisions_by_id [] ds = some []
decisions_by_id (i ∷ is) ds = elim (decision_by_id i ds) [
  | none ↦ none
  | some d ↦ elim (decisions_by_id is ds) [ none ↦ none | some rest ↦ some (d ∷ rest) ]
]

abbrev pub Artifacts : Type 0
Artifacts = List (String × Option String)

unfoldable pub find_artifact : String → Artifacts → Option String
find_artifact k [] = none
find_artifact k ((j, a) ∷ rest) = if j == k then a else find_artifact k rest

module _ (h : Digests) where
  -- whether the decisions sealed with an approval are as they were
  unfoldable pub sealed_unchanged : Approval → Option (List StoredDecision) → Bool
  unfolding decisions_by_id decisions_digest
  sealed_unchanged a none = true
  sealed_unchanged a (some ds) = elim a.sealed [
    | none ↦ true
    | some digest ↦ elim (decisions_by_id a.ids ds) [
      | none ↦ false
      | some found ↦ decisions_digest h found == digest
    ]
  ]

  unfoldable pub approval_unchanged : Artifacts → Option (List StoredDecision) → Approval → Bool
  unfolding find_artifact artifact_digest sealed_unchanged
  approval_unchanged artifacts ds a = elim (find_artifact a.field artifacts) [
    | none ↦ false
    | some json ↦ artifact_digest h json == a.digest && sealed_unchanged a ds
  ]

  unfoldable pub changed_gates :
      Artifacts → Option (List StoredDecision) → List Approval → List String
  unfolding approval_unchanged
  changed_gates artifacts ds [] = []
  changed_gates artifacts ds (a ∷ as') =
      let rest = changed_gates artifacts ds as' in
      if approval_unchanged artifacts ds a then rest else a.gate ∷ rest

  unfoldable pub changed_since_approval :
      List Entry → Artifacts → Option (List StoredDecision) → List String
  unfolding latest_approvals changed_gates
  changed_since_approval trail artifacts ds =
      changed_gates artifacts ds (latest_approvals trail [] [])

-- `recorded[id] = digest` for each `review_decision` entry that names a decision
unfoldable pub recorded_digests : List Entry → Dict → Dict
unfolding Dict.has Dict.get Dict.get_or Dict.set
recorded_digests [] recorded = recorded
recorded_digests (e ∷ es) recorded = recorded_digests es (
    if Dict.has "action" "review_decision" e
    then elim (truthy (Dict.get "decision_id" e)) [
      | none ↦ recorded
      | some i ↦ Dict.set i (Dict.get_or "decision_digest" e "") recorded
    ]
    else recorded)

decision_label : StoredDecision → String
decision_label d =
    concat ("decision " ∷ d.decision_id ∷ " (" ∷ d.decision_type ∷ " on " ∷ d.subject_id ∷ ")" ∷ [])

unfoldable pub decision_problems : Digests → Dict → List StoredDecision → List String
unfolding Dict.get artifact_digest decision_label
decision_problems h recorded [] = []
decision_problems h recorded (d ∷ ds) =
    let rest = decision_problems h recorded ds in
    elim (Dict.get d.decision_id recorded) [
      | none ↦ concat (decision_label d ∷ " has no trail entry" ∷ []) ∷ rest
      | some digest ↦
          if artifact_digest h d.json == digest
          then rest
          else concat (decision_label d ∷ " was changed after it was recorded" ∷ []) ∷ rest
    ]

is_stored : String → List StoredDecision → Bool
is_stored i ds = any (λ d. d.decision_id == i) ds

unfoldable pub removed_decisions : Dict → List StoredDecision → List String
unfolding is_stored
removed_decisions [] ds = []
removed_decisions ((i, _) ∷ recorded) ds =
    let rest = removed_decisions recorded ds in
    if is_stored i ds
    then rest
    else concat ("decision " ∷ i ∷ " is in the trail but was removed" ∷ []) ∷ rest

unfoldable pub decisions_changed : Digests → List Entry → List StoredDecision → List String
unfolding recorded_digests decision_problems removed_decisions
decisions_changed h trail ds =
    let recorded = recorded_digests trail [] in
    decision_problems h recorded ds ++ removed_decisions recorded ds

abbrev pub live_anchor : Option Anchor → Option Anchor
live_anchor none = none
live_anchor (some a) = if eqb a.count 0 then none else some a

-- `trail[i].get("entry_hash", "")`; the index is in range where it is used
abbrev pub hash_at : Option Entry → String
hash_at none = ""
hash_at (some e) = Dict.get_or "entry_hash" e ""

module _ (trail : List Entry) where
  -- `_result`
  unfoldable pub result :
      TrailStatus → Option ℕ → ℕ → Bool → Bool → List String → List String → Verdict
  result status first_broken legacy all_keyed anchored changed problems = record {
    status = status;
    entries = (head trail).0;
    legacy_entries = legacy;
    first_broken_index = first_broken;
    keyed = all_keyed;
    anchored = anchored;
    head_hash = (head trail).1;
    changed_since_approval = changed;
    decisions_changed = problems;
  }

  -- no entry is chained
  unfoldable pub verify_unchained : Bool → Verdict
  unfolding result
  verify_unchained anchored =
      if anchored
      then result (if is_empty trail then truncated else broken) (some 0) (length trail) false true
          [] []
      else if is_empty trail
      then result intact none 0 false false [] []
      else result legacy_unchained none (length trail) false false [] []

  -- the status of a trail against its anchor, once the chain has been recomputed
  unfoldable pub anchor_check : Option Anchor → Option Stop
  unfolding Dict.get_or
  anchor_check none = none
  anchor_check (some a) =
      if ltb (length trail) a.count
      then some (truncated, some (length trail))
      else if hash_at (get_elem? trail (a.count - 1)) == a.head_hash
      then none
      else some (anchor_mismatch, some (a.count - 1))

module _ (h : Digests) (trail : List Entry) where
  -- what follows the anchor's check
  unfoldable pub verify_contents :
      Scan → ℕ → Bool → Option Artifacts → Option (List StoredDecision) → Verdict
  verify_contents s legacy anchored artifacts decisions =
      let all_keyed = eqb s.keyed_entries (length trail - legacy) in
      let changed : List String = elim artifacts [
        | none ↦ []
        | some a ↦ changed_since_approval h trail a decisions
      ] in
      let problems : List String = elim decisions [
        | none ↦ []
        | some ds ↦ decisions_changed h trail ds
      ] in
      if is_some h.trail_key && is_some s.last_plain
      then result trail unkeyed none legacy false anchored [] []
      else if not (is_empty changed)
      then result trail artifact_changed none legacy all_keyed anchored changed problems
      else if not (is_empty problems)
      then result trail decision_changed none legacy all_keyed anchored [] problems
      else result trail intact none legacy all_keyed anchored [] []

  -- the part for a trail with a chained entry
  unfoldable pub verify_chain :
      Option Anchor → Option Artifacts → Option (List StoredDecision) → Verdict
  verify_chain anchor artifacts decisions =
      let legacy = length (legacy_prefix trail) in
      elim (scan_trail h trail) [
        | err (status, index) ↦ result trail status index legacy false (is_some anchor) [] []
        | ok s ↦ elim (anchor_check trail anchor) [
          | some (status, index) ↦ result trail status index legacy false true [] []
          | none ↦ verify_contents s legacy (is_some anchor) artifacts decisions
        ]
      ]

  unfoldable pub verify_trail :
      Option Anchor → Option Artifacts → Option (List StoredDecision) → Verdict
  verify_trail anchor artifacts decisions =
      let live = live_anchor anchor in
      if is_empty (chained_part trail)
      then verify_unchained trail (is_some live)
      else verify_chain live artifacts decisions

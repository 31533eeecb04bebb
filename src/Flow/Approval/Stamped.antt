-- ===== src/Flow/Approval/Stamped.antt =====
-- The entry that the approval of a gate leaves in the trail.
use grc_audit_swarm.Base.{
  String, refl, true, none, some, Option-cases, inl, inr, List, [], ◌∷◌, ◌++◌, ok, ◌≡◌, all, not,
  ◌==◌, arith,
}
use grc_audit_swarm.Dict
use grc_audit_swarm.Machine.{Phase, one, two, three}
use grc_audit_swarm.Policy.{gate_label}
use grc_audit_swarm.Trail.{Entry}
use grc_audit_swarm.Decisions.{Platform}
use grc_audit_swarm.Flow.{artifact_field, stamp, artifact_digest, identity_source, sealed_extra}
use grc_audit_swarm.Flow.State.{AuditState, run_provenance_extra, latest_run, artifact_json}

-- the entry that an approval leaves in the trail
pub record ApprovalEntry (env : Platform) (now : String) (p : Phase) (human given : String)
    (s : AuditState) (entry : Entry) : Type 0 where
  pub by : Dict.get "human" entry ≡ some human
  pub gate : Dict.get "gate" entry ≡ some (gate_label p)
  pub action : Dict.get "action" entry ≡ some "gate_approval"
  pub at : Dict.get "timestamp" entry ≡ some now
  pub source : String
  pub validated : identity_source given ≡ ok source
  pub declared : Dict.get "identity_source" entry ≡ some source
  pub json : String
  pub artifact : artifact_json env p s ≡ some json
  pub digest : Dict.get "artifact_digest" entry ≡ some (artifact_digest env.digests json)

-- the keys that the sealed decisions and the run's provenance bring
abbrev other_keys : List String
other_keys =
    "decisions_digest" ∷ "decisions_count" ∷ "generation_run_id" ∷ "generation_prompt_fingerprint"
    ∷ "generation_model" ∷ []

module _ (env : Platform) (now : String) where
  provenance-absent :
      (k : String) (p : Phase) (s : AuditState)
      → all (λ j. not (j == k)) other_keys ≡ true
      → Dict.get k (run_provenance_extra p s) ≡ none
  unfolding run_provenance_extra Dict.get
  provenance-absent k p s h = elim (Option-cases (latest_run p s.generation_runs)) [
    | inl n ↦ rw (n, run_provenance_extra) refl
    | inr (r, found) ↦ rw (found, run_provenance_extra) (ground arith)
  ]

  others_absent :
      (k : String) (p : Phase) (s t : AuditState)
      → all (λ j. not (j == k)) other_keys ≡ true
      → Dict.get k (sealed_extra env now p s ++ run_provenance_extra p t) ≡ none
  unfolding sealed_extra Dict.get
  others_absent k one s t h = provenance-absent k one t h
  others_absent k two s t h = ground (arith, provenance-absent k two t h)
  others_absent k three s t h = ground (arith, provenance-absent k three t h)

  -- what the entry has under a key that neither the decisions nor the provenance bring
  pub stamp-get :
      (k : String) (p : Phase) (human source json : String) (s t : AuditState)
      → all (λ j. not (j == k)) other_keys ≡ true
      → Dict.get k (
          stamp now (gate_label p) human "gate_approval" source (
            ("artifact", artifact_field p)
            ∷ ("artifact_digest", artifact_digest env.digests json)
            ∷ (sealed_extra env now p s ++ run_provenance_extra p t)))
        ≡ Dict.get k (
            ("gate", gate_label p)
            ∷ ("human", human)
            ∷ ("timestamp", now)
            ∷ ("action", "gate_approval")
            ∷ ("identity_source", source)
            ∷ ("artifact", artifact_field p)
            ∷ ("artifact_digest", artifact_digest env.digests json)
            ∷ [])
  unfolding stamp Dict.update Dict.set
  stamp-get k p human source json s t h = Dict.get-update_of_absent k _ _ (others_absent k p s t h)

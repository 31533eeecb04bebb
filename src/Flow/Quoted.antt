-- ===== src/Flow/Quoted.antt =====
-- `_evidence_rejection` of src/swarm/audit_flow.py with the vault's `unverified_findings`.
use grc_audit_swarm.Base.{
  ℕ, String, ◌≡◌, refl, Option, none, some, List, [], ◌∷◌, All, Result, ok, err,
}
use grc_audit_swarm.Machine.{two}
use grc_audit_swarm.Schema.Findings.{WorkingPaper}
use grc_audit_swarm.Evidence.{VaultTools, unverified_findings}
use grc_audit_swarm.Evidence.Verified.{Compares, Backed, unverified_findings-Backed}
use grc_audit_swarm.Flow.Attempts.{Crew, passed, run_attempts, evidence_answer, evidence_rejection}
use grc_audit_swarm.Flow.Attempts.Passing.{run_attempts-passed}

module _ (v : VaultTools) (session : Option String) where
  -- the crew with the check of the code
  unfoldable pub vaulted : Crew WorkingPaper → Crew WorkingPaper
  vaulted crew = record crew {
    unverified = λ papers. unverified_findings v session papers.findings;
  }

  answer-empty : (r : Result String (List String)) → evidence_answer r ≡ none → r ≡ ok []
  answer-empty (err m) h = cc
  answer-empty (ok []) h = refl
  answer-empty (ok (c ∷ cs)) h = cc

  -- If `hmac.compare_digest` says yes only to equal digests, each finding of the working papers that a
  -- passing Fieldwork run leaves either has no quote and says it was not tested, or quotes at least 15
  -- characters that stand word for word in the payload of the vault record it cites, whose stored digest
  -- is the hash, keyed where the record has a keyed one, of its payload and metadata. Where the run has a
  -- session, the record is bound to no session or to this one.
  pub run_attempts-Backed :
      Compares v
      → (crew : Crew WorkingPaper) (seeded : String) (m : ℕ) (papers : WorkingPaper)
      → run_attempts two (vaulted crew) seeded ≡ passed m (some papers)
      → All (Backed v session) papers.findings
  unfolding vaulted evidence_rejection
  run_attempts-Backed same crew seeded m papers h =
      let (_, _, shown) = run_attempts-passed two (vaulted crew) seeded m (some papers) h in
      unverified_findings-Backed v same session papers.findings (answer-empty _ shown.evidence)

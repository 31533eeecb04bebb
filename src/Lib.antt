-- ===== src/Lib.antt =====
-- grc-audit-swarm: an audit in three phases, Planning, Fieldwork and Reporting. In each a crew of language
-- models drafts an artifact, a QA agent and deterministic checks accept or reject it, and a human
-- gate approves it. These modules model the part of the program that decides: who may act, when, on
-- what evidence, and what is recorded of it.
--
-- The parts and their files:
--   Machine      src/swarm/state/machine.py: the statuses and named transitions of `AuditStateMachine`. A
--                transition takes the status and returns the new one or the exception.
--   Policy       src/swarm/review_policy.py: `sod_violation`, `same_person`, the statuses in which a
--                decision may be recorded, the conclusion changes that are allowed, the gates' rules.
--   Trail        src/swarm/trail.py: `append_entry` and `verify_trail` of the hash-chained approval
--                trail; an entry is the list of its items in insertion order (Dict). Trail/Canonical is
--                `json.dumps` as the module calls it, Trail/Verify the whole verification.
--   Schema       src/swarm/schema.py: the artifacts as records, with the validators `_consistent` of a
--                finding and `_check_scale` of a report.
--   Decisions    src/swarm/review_decisions.py: the states and slots of the reviewers' decisions,
--                `build_decision` (Decisions/Build), and what a gate still misses (Decisions/View).
--   Flow         src/swarm/audit_flow.py: the methods of `AuditFlow` as methods that read and write the
--                audit's state and may raise (Flow/Methods). Flow/Actions lists the calls that a person
--                makes, Flow/Attempts is the loop of
--                `_run_crew_with_qa`, Flow/Runner the rest of it and the `generate_*` methods. Flow/Overlay is
--                `effective_working_papers`, Flow/Linted `lint_phase_artifact` with the linters,
--                Flow/Quoted the check of the quotes with the vault.
--   Tokens       src/api/reviewer_tokens.py: `FailureLimiter` (Tokens/Limiter), the tokens file with its
--                validation, `authenticate`, and the commands add and remove (Tokens/Registry).
--   Sessions     src/swarm/session_manager.py: the sessions file and the file of the trails' anchors, with
--                the functions that write them.
--   Sampling     src/swarm/sampling.py: recommended sample sizes and the seeded selection of a sample.
--   Linters      src/swarm/linters.py: `lint_racm` (Linters/Racm), `lint_distortion_traps` (Linters/Traps),
--                `lint_working_papers` (Linters/Papers), and `lint_report` (Linters/Report).
--   Evidence     src/swarm/evidence.py: `verify_exact_quote` and `unverified_findings`; Evidence/Reading has what
--                they use of Python.
--   Base, Dict, Store, Json   the helpers that they share.
-- The flow calls the machine for every change of status, the policy before every human act, the
-- decisions before a gate, and the trail after each act. Sessions anchors the trail's head, and the
-- verification of a trail takes the anchor. The linters judge the drafts of the crews.
--
-- Parameters: hash functions and the key from the environment (`Digests`), case folding, dates and
-- the JSON of an artifact (`Platform`), a crew's outputs with the linters', the vault's and pydantic's
-- answers to them (`Crew`), regular expressions, dates and the vault as the linters use them (`Tools`),
-- the files, keys and digests of the vault (`VaultTools`), the random generator (`Generator`), new tokens
-- and the clock. A hypothesis `NonBlank` states that no digest is the empty text, as hexadecimal digests
-- are not; `Draws` that the generator draws different numbers in range, as `random.sample` documents;
-- `Compares` that `hmac.compare_digest` answers True only to equal texts.
--
-- Bounds: the phases are three and their numbers are checked where a request gives one. The loop over
-- crew attempts runs on the number of attempts that are left, one after the first, as
-- `_MAX_QA_ATTEMPTS` has it; printing a number `n` runs on `n + 1` rounds, more than it has digits.
--
-- Not modelled: prompts and the provenance that a run begins with, skills but for their ids, the
-- sentence in a verification's result, the legacy migration of schemas, file systems and locks, the
-- API's routes, exports, the writing and migration of evidence, the sentences of the linters' messages,
-- and the calls of language models.
pub mod Base
pub mod Dict
pub mod Store
pub mod Json
pub mod Tokens
pub mod Sessions
pub mod Sampling
pub mod Linters
pub mod Machine
pub mod Policy
pub mod Trail
pub mod Schema
pub mod Decisions
pub mod Evidence
pub mod Flow

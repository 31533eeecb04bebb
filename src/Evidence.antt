-- ===== src/Evidence.antt =====
-- `verify_exact_quote` and `unverified_findings` of src/swarm/evidence.py. The files of the vault, the
-- regular expressions, Fernet, hmac and hashlib, and `json.dumps` are parameters (`VaultTools`).
pub mod Reading
pub mod Texts
pub mod Digests
pub mod Binding
pub mod Verified
pub mod Samples
unfoldable pub use Reading.*
use grc_audit_swarm.Base.{
  ℕ, zero, suc, ◌+◌, String, ◌≡◌, refl, Bool, true, false, not, ◌&&◌, ◌||◌, Option, none, some,
  List, [], ◌∷◌, ◌++◌, ◌==◌, ltb, eqb, if◌then◌else◌, concat, decimal, is_blank, Result, ok, err,
  ◌>>=◌, split, join, value_or,
}
use grc_audit_swarm.Json.{Json, Items, Members, get}
use grc_audit_swarm.Schema.Findings.{AuditFinding, operating_value, result_value}
use Prim.Native.Char.{Char, code}

pub record VaultTools : Type 0 where
  -- `_UUID_RE.fullmatch`
  pub is_uuid : String → Bool
  -- what is read of the record's file, none if it is outside the directory, missing or no JSON
  pub read : String → Option Json
  -- decryption of a text with the vault's key; there may be no key, and the decryption may fail
  pub fernet : Option (String → Option String)
  -- VAULT_ENCRYPTION_KEY
  pub key : Option String
  -- the bytes of a base64 text
  pub decode_key : String → Option String
  -- by key and message
  pub hmac_sha256 : String → String → String
  pub sha256 : String → String
  -- `hmac.compare_digest`, or the exception's text
  pub compare_digest : String → String → Result String Bool
  -- `json.dumps` with sorted keys, of the metadata
  pub dumps : Json → String
  -- `str` of a value that is no text
  pub str : Json → String
  -- `_ACCOUNT_ID_RE.sub("[REDACTED]", text)`
  pub redact : String → String
  pub casefold : String → String

unfoldable pub min_quote_length : ℕ
min_quote_length = 15

abbrev pub digest_key_label : String
digest_key_label = "grc-audit-swarm/evidence-vault/hmac-sha256/v1"

module _ (v : VaultTools) where
  -- `str(value)`
  abbrev pub text_of : Json → String
  text_of (Json.text s) = s
  text_of j = v.str j

  -- a truthy value's text
  abbrev pub set_text : Option Json → Option String
  set_text none = none
  set_text (some j) = if truthy j then some (text_of j) else none

  unfoldable pub record_session_id : Members → Option String
  record_session_id ms = elim (members_of (get "metadata" ms)) [
    | none ↦ none
    | some metadata ↦ elim (set_text (get "session_id" metadata)) [
      | some sid ↦ some sid
      | none ↦ elim (members_of (get "parameters" metadata)) [
        | none ↦ none
        | some params ↦ set_text (get "session_id" params)
      ]
    ]
  ]

  -- `_digest_input`
  unfoldable pub digest_input : Json → Option Json → Result Stop Json
  digest_input payload none = ok payload
  digest_input payload (some metadata) =
      if truthy metadata
      then (as_text payload >>= λ s. ok (Json.text (concat (s ∷ "\0" ∷ v.dumps metadata ∷ []))))
      else ok payload

  -- the payload in the clear
  unfoldable pub clear_payload : Members → Json → Result Stop Json
  clear_payload ms payload =
      if truthy_of (get "encrypted" ms)
      then (elim v.fernet [
        | none ↦ err answers_false
        | some decrypt ↦
            as_text payload >>= λ s. or_false (decrypt s) >>= λ clear. ok (Json.text clear)
      ])
      else ok payload

  -- `_keyed_digest`, with the key of `_derive_hmac_key`
  unfoldable pub keyed_digest : Json → String → Result Stop String
  keyed_digest payload key = or_false (v.decode_key key) >>= λ raw.
      as_text payload >>= λ s. ok (v.hmac_sha256 (v.hmac_sha256 raw digest_key_label) s)

  abbrev pub set_key : Option String → Result Stop String
  set_key none = err answers_false
  set_key (some k) = if k == "" then err answers_false else ok k

  -- the digest of the input and the stored one
  unfoldable pub both_digests : Members → Json → Result Stop (String × String)
  unfolding keyed_digest
  both_digests ms input = elim (get "hmac_sha256" ms) [
    | some stored ↦ set_key v.key >>= λ key. keyed_digest input key >>= λ d. ok (d, text_of stored)
    | none ↦
        as_text input >>= λ s. required "sha256" ms >>= λ stored. ok (v.sha256 s, text_of stored)
  ]

  abbrev pub of_this_session : Option String → Option String → Bool
  of_this_session none bound = true
  of_this_session (some sid) none = true
  of_this_session (some sid) (some bound) = sid == "" || bound == sid || bound == v.redact sid

  abbrev pub compared : Result String Bool → Result Stop Bool
  compared (err m) = err (raises m)
  compared (ok b) = ok b

  -- the record's payload, if the record is whole and may be cited in the session
  unfoldable pub vouched : Option String → Members → Result Stop Json
  unfolding clear_payload digest_input both_digests record_session_id
  vouched session ms = do
    raw ← required "raw_payload" ms
    payload ← clear_payload ms raw
    input ← digest_input payload (get "metadata" ms)
    digests ← both_digests ms input
    same ← compared (v.compare_digest digests.0 digests.1)
    if same && of_this_session session (record_session_id ms) then ok payload else err answers_false

  abbrev pub record_of : Option Json → Result Stop Members
  record_of none = err answers_false
  record_of (some (Json.object ms)) = ok ms
  record_of (some _) = err (raises "the record is no object")

  -- what a stop means for the caller
  abbrev pub answer : Result Stop Bool → Result String Bool
  answer (err answers_false) = ok false
  answer (err (raises m)) = err m
  answer (ok b) = ok b

  abbrev pub cites : String → Result Stop Json → Result Stop Bool
  cites quote payload = payload >>= λ j. as_text j >>= λ s. ok (occurs quote s)

  unfoldable pub verify_exact_quote : Option String → String → String → Result String Bool
  unfolding vouched occurs is_blank min_quote_length
  verify_exact_quote session vault_id quote =
      if not (v.is_uuid vault_id) || is_blank quote || ltb (size quote) min_quote_length
      then ok false
      else answer (cites quote (record_of (v.read vault_id) >>= vouched session))

  -- `_normalised_label`
  unfoldable pub normalised_label : String → String
  normalised_label t = v.casefold (join " " (split (map_text spaced t)))

  unfoldable pub finding_marked_not_tested : AuditFinding → Bool
  unfolding normalised_label
  finding_marked_not_tested f =
      elim f.result [ none ↦ false | some r ↦ normalised_label (result_value r) == "not tested" ]
      || normalised_label (operating_value f.toe_conclusion) == "not tested"

  -- whether a finding's evidence stands
  unfoldable pub backed : Option String → AuditFinding → Result String Bool
  unfolding finding_marked_not_tested verify_exact_quote
  backed session f =
      if is_blank f.exact_quote_from_evidence
      then ok (finding_marked_not_tested f)
      else verify_exact_quote session f.vault_id_reference f.exact_quote_from_evidence

  abbrev pub shown_id : ℕ → AuditFinding → String
  shown_id n f = if f.control_id == "" then concat ("finding #" ∷ decimal n ∷ []) else f.control_id

  -- with the number of the first finding
  unfoldable pub unverified_from :
      Option String → ℕ → List AuditFinding → Result String (List String)
  unfolding backed
  unverified_from session n [] = ok []
  unverified_from session n (f ∷ fs) = do
    good ← backed session f
    rest ← unverified_from session (suc n) fs
    ok (if good then rest else shown_id n f ∷ rest)

  unfoldable pub unverified_findings :
      Option String → List AuditFinding → Result String (List String)
  unfolding unverified_from
  unverified_findings session findings = unverified_from session 1 findings

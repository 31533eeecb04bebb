-- ===== src/Evidence/Samples.antt =====
-- A vault at concrete records; its digests are no hash functions.
use grc_audit_swarm.Base.{
  String, ◌≡◌, refl, true, false, none, some, [], ◌∷◌, ◌==◌, eq_iff, arith, concat, if◌then◌else◌,
  ok, is_blank,
}
use grc_audit_swarm.Json.{Json, Members, get}
use grc_audit_swarm.Evidence.{VaultTools, verify_exact_quote}
use grc_audit_swarm.Evidence.Verified.{Compares}

-- a vault of one record, which the papers quote
abbrev whole_record : Members
whole_record =
    Members.member "raw_payload" (Json.text "HR export: 25 of 25 users reviewed")
      (Members.member "sha256" (Json.text "d:HR export: 25 of 25 users reviewed") Members.end)

abbrev one_record : VaultTools
one_record = record {
  is_uuid = λ id. id == "7b0c3c56-5d0c-4f7e-9f39-0d4f1c1e2a11";
  read = λ id.
      if id == "7b0c3c56-5d0c-4f7e-9f39-0d4f1c1e2a11"
      then some (Json.object whole_record)
      else none;
  fernet = none;
  key = none;
  decode_key = λ k. some k;
  hmac_sha256 = λ k m. concat (k ∷ m ∷ []);
  sha256 = λ m. concat ("d:" ∷ m ∷ []);
  compare_digest = λ a b. ok (a == b);
  dumps = λ j. "{}";
  str = λ j. "";
  redact = λ t. t;
  casefold = λ t. t;
}

abbrev record_id : String
record_id = "7b0c3c56-5d0c-4f7e-9f39-0d4f1c1e2a11"

abbrev quote : String
quote = "25 of 25 users reviewed"

found : verify_exact_quote one_record none record_id quote ≡ ok true
unfolding verify_exact_quote is_blank get
found = refl

-- a payload that was changed under its digest
abbrev changed : VaultTools
changed = record one_record {
  read = λ id. some (
      Json.object (
        Members.member "raw_payload" (Json.text "HR export: 25 of 25 users reviewed") (
          Members.member "sha256" (Json.text "d:HR export: 20 of 25 users reviewed") Members.end)));
}

changed-refused : verify_exact_quote changed none record_id quote ≡ ok false
unfolding verify_exact_quote is_blank get
changed-refused = refl

-- the digest covers the metadata, which binds the record to a session
abbrev pub bound : VaultTools
bound = record one_record {
  read = λ id. some (
      Json.object (
        Members.member "raw_payload" (Json.text "HR export: 25 of 25 users reviewed") (
          Members.member "metadata"
            (Json.object (Members.member "session_id" (Json.text "S-1") Members.end))
            (Members.member "sha256" (Json.text "d:HR export: 25 of 25 users reviewed\0{}")
              Members.end))));
}

pub bound-compares : Compares bound
bound-compares a b h = ground (arith, eq_iff a b)

own_session : verify_exact_quote bound (some "S-1") record_id quote ≡ ok true
unfolding verify_exact_quote is_blank get
own_session = refl

other_session : verify_exact_quote bound (some "S-2") record_id quote ≡ ok false
unfolding verify_exact_quote is_blank get
other_session = refl

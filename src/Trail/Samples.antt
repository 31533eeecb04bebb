-- ===== src/Trail/Samples.antt =====
-- A trail of two entries. The sample digests mark their text, which is enough to be never blank.
use grc_audit_swarm.Base.{
  String, ◌≡◌, refl, false, none, some, List, [], ◌∷◌, ok, is_empty, concat, append-NonBlank,
}
use grc_audit_swarm.Dict
use grc_audit_swarm.Trail.{
  Digests, Entry, Scan, append_entry, scan_trail, intact, scan, check_entry, check_links,
  stored_hash, entry_seal, counted, legacy_prefix, chained_part, seal_entry, previous_hash,
  canonical_entry, digest, is_chained, last_hash, legacy_seal, stored_fields,
}
use grc_audit_swarm.Trail.Chain.{NonBlank}
use grc_audit_swarm.Trail.Verify.{verify_trail}
use grc_audit_swarm.Trail.Intact.{append_all, append_all-intact, append_all-anchored, anchor_of}

abbrev pub digests : Digests
digests = record {
  sha256 = λ x. concat ("#" ∷ x ∷ []);
  hmac_sha256 = λ k x. concat ("%" ∷ k ∷ x ∷ []);
  trail_key = some "k";
}

pub digests-NonBlank : NonBlank digests
digests-NonBlank = record {
  sha256 = λ x. append-NonBlank "#" _ λ e. cc;
  hmac_sha256 = λ k x. append-NonBlank "%" _ λ e. cc;
}

abbrev pub entry : String → Entry
entry human = ("action", "retry") ∷ ("human", human) ∷ []

abbrev legacy : List Entry
legacy = entry "Old" ∷ []

abbrev pub trail : List Entry
trail = append_entry digests legacy (entry "Ann")

abbrev pub trail_scan : Scan
trail_scan = record {
  index = 2;
  expected_prev = some (last_hash trail);
  keyed_entries = 1;
  last_plain = none;
}

pub trail-scan : scan_trail digests trail ≡ ok trail_scan
unfolding scan_trail append_entry scan check_entry check_links stored_hash entry_seal counted
    legacy_prefix chained_part seal_entry previous_hash canonical_entry digest is_chained
    legacy_seal stored_fields Dict.get_or
trail-scan = refl

trail-nonempty : is_empty trail ≡ false
unfolding append_entry
trail-nonempty = refl

append_all-intact_example :
    (verify_trail digests
      (append_all digests trail (entry "Bob" ∷ entry "Cy" ∷ []))
      none
      none
      none).status
    ≡ intact
append_all-intact_example =
    append_all-intact digests trail trail_scan (entry "Bob") (entry "Cy" ∷ []) digests-NonBlank
      trail-scan

append_all-anchored_example :
    (verify_trail digests
      (append_all digests trail (entry "Bob" ∷ entry "Cy" ∷ []))
      (some (anchor_of trail))
      none
      none).status
    ≡ intact
append_all-anchored_example =
    append_all-anchored digests trail trail_scan (entry "Bob") (entry "Cy" ∷ []) digests-NonBlank
      trail-nonempty trail-scan

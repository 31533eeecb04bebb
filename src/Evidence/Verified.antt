-- ===== src/Evidence/Verified.antt =====
-- What a verified quote shows.
use grc_audit_swarm.Base.{
  ℕ, suc, ◌≤◌, String, ◌≡◌, refl, sym, ap, ◌∙◌, Bool, true, false, not, ◌&&◌, ◌||◌, ltb, ◌>>=◌,
  Option, none, some, List, [], ◌∷◌, arith, Bool-cases, inl, inr, ◌⊎◌, All, Result, ok, err,
  bind_returned, is_blank, if◌then◌else◌,
}
use grc_audit_swarm.Json.{Json, Members, get}
use grc_audit_swarm.Schema.Findings.{AuditFinding}
use grc_audit_swarm.Evidence.Texts.{StandsIn, occurs-StandsIn}
use grc_audit_swarm.Evidence.Digests.{
  IsClear, IsDigested, covered_text, clear_payload-IsClear, digest_input-covered,
  both_digests-IsDigested, required-get, as_text-text,
}
use grc_audit_swarm.Evidence.Binding.{IsCitable, of_this_session-IsCitable}
use grc_audit_swarm.Evidence.{
  VaultTools, Stop, answers_false, raises, size, occurs, record_session_id, digest_input,
  clear_payload, both_digests, of_this_session, vouched, record_of, answer, cites,
  verify_exact_quote, finding_marked_not_tested, backed, unverified_from, unverified_findings,
  compared, required, as_text, min_quote_length, shown_id,
}

module _ (v : VaultTools) where
  -- `hmac.compare_digest` says yes only to equal digests.
  abbrev pub Compares : Type 0
  Compares = (a b : String) → v.compare_digest a b ≡ ok true → a ≡ b

  pub record Verified (session : Option String) (vault_id quote : String) : Type 0 where
    pub members : Members
    pub found : v.read vault_id ≡ some (Json.object members)
    pub uuid : v.is_uuid vault_id ≡ true
    pub long : 15 ≤ size quote
    pub raw : Json
    pub payload : String
    pub stored : get "raw_payload" members ≡ some raw
    pub clear : IsClear v members raw payload
    pub digested : IsDigested v members (covered_text v payload (get "metadata" members))
    pub citable : IsCitable v session members
    pub quoted : StandsIn quote payload

  -- A finding that says it was not tested, or whose quote is verified.
  abbrev pub Backed : Option String → AuditFinding → Type 0
  Backed session f =
      ((is_blank f.exact_quote_from_evidence ≡ true) × (finding_marked_not_tested v f ≡ true))
      ⊎ Verified session f.vault_id_reference f.exact_quote_from_evidence

  answer-true : (r : Result Stop Bool) → answer v r ≡ ok true → r ≡ ok true
  answer-true (err answers_false) h = cc
  answer-true (err (raises m)) h = cc
  answer-true (ok b) h = cc

  compared-ok : (r : Result String Bool) (b : Bool) → compared v r ≡ ok b → r ≡ ok b
  compared-ok (err m) b h = cc
  compared-ok (ok a) b h = cc

  record_of-object :
      (r : Option Json) (ms : Members) → record_of v r ≡ ok ms → r ≡ some (Json.object ms)
  record_of-object none ms h = cc
  record_of-object (some (Json.object m)) ms h = cc
  record_of-object (some Json.null) ms h = cc
  record_of-object (some (Json.boolean b)) ms h = cc
  record_of-object (some (Json.integer n)) ms h = cc
  record_of-object (some (Json.other_number n)) ms h = cc
  record_of-object (some (Json.text t)) ms h = cc
  record_of-object (some (Json.array js)) ms h = cc

  module _ (same : Compares) (session : Option String) (vault_id quote : String) where
    vouched-Verified :
        (ms : Members) (payload : Json)
        → v.read vault_id ≡ some (Json.object ms)
        → v.is_uuid vault_id ≡ true
        → 15 ≤ size quote
        → vouched v session ms ≡ ok payload
        → (s : String) → payload ≡ Json.text s
        → occurs quote s ≡ true
        → Verified session vault_id quote
    unfolding vouched
    vouched-Verified ms payload found uuid long h s is_text quoted =
        let (raw, stored, h1) = bind_returned (required "raw_payload" ms) _ h in
        let (clear, is_clear, h2) = bind_returned (clear_payload v ms raw) _ h1 in
        let (input, covered, h3) = bind_returned (digest_input v clear (get "metadata" ms)) _ h2 in
        let ((digest, kept), digests, h4) = bind_returned (both_digests v ms input) _ h3 in
        let (agree, compared_to, h5) =
          bind_returned (compared v (v.compare_digest digest kept)) _ h4 in
        let (matches, bound, is_payload) =
          may_cite agree (of_this_session v session (record_session_id v ms)) clear payload h5 in
        let agreed : v.compare_digest digest kept ≡ ok true =
          compared-ok (v.compare_digest digest kept) true (compared_to ∙ ap ok matches) in
        let equal : digest ≡ kept = same digest kept agreed in
        let texts : clear ≡ Json.text s = is_payload ∙ is_text in
        let is_input =
          digest_input-covered v s (get "metadata" ms) input
            (ap (λ j. digest_input v j (get "metadata" ms)) (sym texts) ∙ covered) in
        record {
          members = ms;
          found = found;
          uuid = uuid;
          long = long;
          raw = raw;
          payload = s;
          stored = required-get v "raw_payload" ms raw stored;
          clear = clear_payload-IsClear v ms raw s (is_clear ∙ ap ok texts);
          digested = both_digests-IsDigested v ms (covered_text v s (get "metadata" ms)) digest (
              ap (both_digests v ms) (sym is_input)
              ∙ (digests ∙ ap (λ (d : String). ok (digest, d)) (sym equal)));
          citable = of_this_session-IsCitable v session ms bound;
          quoted = occurs-StandsIn quote s quoted;
        }
      where
        may_cite :
            (agree bound : Bool) (clear payload : Json)
            → ◌≡◌ {A = Result Stop Json}
                (if agree && bound then ok clear else err answers_false)
                (ok payload)
            → (agree ≡ true) × (bound ≡ true) × (clear ≡ payload)
        may_cite true true clear payload h = (refl, refl, cc)
        may_cite true false clear payload h = cc
        may_cite false bound clear payload h = cc

    verify_exact_quote-Verified :
        verify_exact_quote v session vault_id quote ≡ ok true → Verified session vault_id quote
    unfolding verify_exact_quote min_quote_length
    verify_exact_quote-Verified h =
        elim (Bool-cases (not (v.is_uuid vault_id) || is_blank quote || ltb (size quote) 15)) [
          | inl refused ↦
              let never : ◌≡◌ {A = Result String Bool} (ok false) (ok true) =
                rw (refused, verify_exact_quote) at h in
              cc
          | inr fine ↦
              let cited =
                answer-true (cites v quote (record_of v (v.read vault_id) >>= vouched v session))
                  (rw (fine, verify_exact_quote) at h) in
              let (payload, whole, h1) =
                bind_returned (record_of v (v.read vault_id) >>= vouched v session) _ cited in
              let (ms, is_object, h2) =
                bind_returned (record_of v (v.read vault_id)) (vouched v session) whole in
              let (s, is_text, h3) = bind_returned (as_text payload) _ h1 in
              let uuid : v.is_uuid vault_id ≡ true = ground arith in
              let short : ltb (size quote) 15 ≡ false = ground arith in
              let long : 15 ≤ size quote = ground arith in
              let quoted : occurs quote s ≡ true = cc in
              vouched-Verified ms payload (record_of-object (v.read vault_id) ms is_object) uuid
                long h2 s (as_text-text v payload s is_text) quoted
        ]

  module _ (same : Compares) (session : Option String) where
    backed-Backed : (f : AuditFinding) → backed v session f ≡ ok true → Backed session f
    unfolding backed
    backed-Backed f h =
        elim (which (is_blank f.exact_quote_from_evidence) (finding_marked_not_tested v f) _ h) [
          | inl untested ↦ inl untested
          | inr verified ↦ inr (
              verify_exact_quote-Verified same session f.vault_id_reference
                f.exact_quote_from_evidence verified)
        ]
      where
        which :
            (blank marked : Bool) (verified : Result String Bool)
            → (if blank then ok marked else verified) ≡ ok true
            → ((blank ≡ true) × (marked ≡ true)) ⊎ (verified ≡ ok true)
        which true marked verified h = inl (refl, cc)
        which false marked verified h = inr h

    unverified_from-Backed :
        (n : ℕ) (fs : List AuditFinding)
        → unverified_from v session n fs ≡ ok []
        → All (Backed session) fs
    unfolding unverified_from
    unverified_from-Backed n [] h = tt
    unverified_from-Backed n (f ∷ fs) h =
        let (good, is_good, h1) = bind_returned (backed v session f) _ h in
        let (rest, is_rest, h2) = bind_returned (unverified_from v session (suc n) fs) _ h1 in
        let (is_backed, none_left) = all_good good rest (shown_id v n f) h2 in
        (
          backed-Backed f (is_good ∙ ap ok is_backed),
          unverified_from-Backed (suc n) fs (is_rest ∙ ap ok none_left),
        )
      where
        all_good :
            (good : Bool) (rest : List String) (x : String)
            → ◌≡◌ {A = Result String (List String)} (ok (if good then rest else x ∷ rest)) (ok [])
            → (good ≡ true) × (rest ≡ [])
        all_good true rest x h = (refl, cc)
        all_good false rest x h = cc

    pub unverified_findings-Backed :
        (fs : List AuditFinding)
        → unverified_findings v session fs ≡ ok []
        → All (Backed session) fs
    unfolding unverified_findings
    unverified_findings-Backed fs h = unverified_from-Backed 1 fs h

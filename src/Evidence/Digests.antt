-- ===== src/Evidence/Digests.antt =====
-- What the digest of a vault record covers, and how its payload is read.
use grc_audit_swarm.Base.{
  String, ◌≡◌, ap, ◌∙◌, true, false, Option, none, some, [], ◌∷◌, ◌==◌, Bool-cases, inl, inr, ◌⊎◌,
  Result, ok, err, bind_returned, if◌then◌else◌, Option-cases, concat, ◌>>=◌,
}
use grc_audit_swarm.Json.{Json, Members, get}
use grc_audit_swarm.Evidence.{
  VaultTools, Stop, answers_false, digest_input, clear_payload, both_digests, required, as_text,
  keyed_digest, or_false, set_key, text_of, truthy, truthy_of, digest_key_label,
}

module _ (v : VaultTools) where
  -- The text that a record's digest covers: its payload, with the metadata if it has any.
  abbrev pub covered_text : String → Option Json → String
  covered_text payload none = payload
  covered_text payload (some metadata) =
      if truthy metadata then concat (payload ∷ "\0" ∷ v.dumps metadata ∷ []) else payload

  -- The payload is what the record has, decrypted if it says that it is encrypted.
  abbrev pub IsClear : Members → Json → String → Type 0
  IsClear ms raw payload =
      ((truthy_of (get "encrypted" ms) ≡ false) × (raw ≡ Json.text payload))
      ⊎ ((decrypt : String → Option String) × (secret : String) × (truthy_of (get "encrypted" ms)
            ≡ true)
          × (v.fernet ≡ some decrypt)
          × (raw ≡ Json.text secret)
          × (decrypt secret ≡ some payload))

  -- The stored digest is that of the text: keyed from the vault's key if the record has a keyed one,
  -- else a plain hash.
  abbrev pub IsDigested : Members → String → Type 0
  IsDigested ms t =
      ((key : String) × (secret : String) × (stored : Json) × (v.key ≡ some key)
        × (v.decode_key key ≡ some secret)
        × (get "hmac_sha256" ms ≡ some stored)
        × (text_of v stored ≡ v.hmac_sha256 (v.hmac_sha256 secret digest_key_label) t))
      ⊎ ((stored : Json) × (get "hmac_sha256" ms ≡ none)
          × (get "sha256" ms ≡ some stored)
          × (text_of v stored ≡ v.sha256 t))

  pub as_text-text : (j : Json) (s : String) → as_text j ≡ ok s → j ≡ Json.text s
  as_text-text (Json.text t) s h = cc
  as_text-text Json.null s h = cc
  as_text-text (Json.boolean b) s h = cc
  as_text-text (Json.integer n) s h = cc
  as_text-text (Json.other_number n) s h = cc
  as_text-text (Json.array js) s h = cc
  as_text-text (Json.object ms) s h = cc

  pub required-get :
      (key : String) (ms : Members) (j : Json) → required key ms ≡ ok j → get key ms ≡ some j
  required-get key ms j h = elim (Option-cases (get key ms)) [
    | inl missing ↦
        let never : ◌≡◌ {A = Result Stop Json} (err answers_false) (ok j) =
          rw (missing, required) at h in
        cc
    | inr (i, found) ↦
        let e : ◌≡◌ {A = Result Stop Json} (ok i) (ok j) = rw (found, required) at h in cc
  ]

  pub digest_input-covered :
      (payload : String) (metadata : Option Json) (input : Json)
      → digest_input v (Json.text payload) metadata ≡ ok input
      → input ≡ Json.text (covered_text payload metadata)
  unfolding digest_input
  digest_input-covered payload none input h = cc
  digest_input-covered payload (some metadata) input h = elim (Bool-cases (truthy metadata)) [
    | inl full ↦
        let h' : ◌≡◌ {A = Result Stop Json}
            (ok (Json.text (concat (payload ∷ "\0" ∷ v.dumps metadata ∷ [])))) (ok input) =
          rw (full, digest_input) at h in
        rw full cc
    | inr empty ↦
        let h' : ◌≡◌ {A = Result Stop Json} (ok (Json.text payload)) (ok input) =
          rw (empty, digest_input) at h in
        rw empty cc
  ]

  or_false-some : (o : Option String) (s : String) → or_false o ≡ ok s → o ≡ some s
  or_false-some none s h = cc
  or_false-some (some t) s h = cc

  set_key-some : (o : Option String) (k : String) → set_key v o ≡ ok k → o ≡ some k
  set_key-some none k h = cc
  set_key-some (some t) k h = elim (Bool-cases (t == "")) [
    | inl blank ↦
        let never : ◌≡◌ {A = Result Stop String} (err answers_false) (ok k) = rw blank at h in cc
    | inr given ↦ let e : ◌≡◌ {A = Result Stop String} (ok t) (ok k) = rw given at h in cc
  ]

  text-injective :
      (a b : String) → ◌≡◌ {A = Result Stop Json} (ok (Json.text a)) (ok (Json.text b)) → a ≡ b
  text-injective a b h = cc

  json-injective : (a b : Json) → ◌≡◌ {A = Result Stop Json} (ok a) (ok b) → a ≡ b
  json-injective a b h = cc

  pub clear_payload-IsClear :
      (ms : Members) (raw : Json) (payload : String)
      → clear_payload v ms raw ≡ ok (Json.text payload)
      → IsClear ms raw payload
  unfolding clear_payload
  clear_payload-IsClear ms raw payload h = elim (Bool-cases (truthy_of (get "encrypted" ms))) [
    | inr plain ↦
        inl (plain, json-injective raw (Json.text payload) (rw (plain, clear_payload) at h))
    | inl hidden ↦ elim (Option-cases v.fernet) [
      | inl n ↦
          let never : ◌≡◌ {A = Result Stop Json} (err answers_false) (ok (Json.text payload)) =
            rw (hidden, n, clear_payload) at h in
          cc
      | inr (decrypt, has) ↦
          let h' : (as_text raw >>= λ s. or_false (decrypt s) >>= λ clear. ok (Json.text clear))
              ≡ ok (Json.text payload) =
            rw (hidden, has, clear_payload) at h in
          let (secret, is_text, h1) = bind_returned (as_text raw) _ h' in
          let (clear, decrypted, h2) = bind_returned (or_false (decrypt secret)) _ h1 in
          inr (
            decrypt,
            secret,
            hidden,
            has,
            as_text-text raw secret is_text,
            or_false-some (decrypt secret) payload
                (decrypted ∙ ap ok (text-injective clear payload h2)),
          )
    ]
  ]

  pub both_digests-IsDigested :
      (ms : Members) (t d : String) → both_digests v ms (Json.text t) ≡ ok (d, d) → IsDigested ms t
  unfolding both_digests keyed_digest
  both_digests-IsDigested ms t d h = elim (Option-cases (get "hmac_sha256" ms)) [
    | inr (stored, keyed) ↦
        let h' = rw (keyed, both_digests) at h in
        let (key, has_key, h1) = bind_returned (set_key v v.key) _ h' in
        let (made, makes, same) = bind_returned (keyed_digest v (Json.text t) key) _ h1 in
        let (secret, decoded, hmacs) = bind_returned (or_false (v.decode_key key)) _ makes in
        inl (
          key,
          secret,
          stored,
          set_key-some v.key key has_key,
          or_false-some (v.decode_key key) secret decoded,
          keyed,
          kept_same made (text_of v stored) d same ∙ ok-same _ made hmacs,
        )
    | inl plain ↦
        let h' = rw (plain, both_digests) at h in
        let (stored, has_sha, same) = bind_returned (required "sha256" ms) _ h' in
        inr (
          stored,
          plain,
          required-get "sha256" ms stored has_sha,
          kept_same (v.sha256 t) (text_of v stored) d same,
        )
  ]
    where
      kept_same :
          (a b d : String) → ◌≡◌ {A = Result Stop (String × String)} (ok (a, b)) (ok (d, d)) → b ≡ a
      kept_same a b d e = cc

      ok-same : (a b : String) → ◌≡◌ {A = Result Stop String} (ok a) (ok b) → b ≡ a
      ok-same a b e = cc

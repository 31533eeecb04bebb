-- ===== src/Tokens/Registry/Holders.antt =====
-- Whose token authenticates as whom.
use grc_audit_swarm.Base.{
  String, ◌≤◌, ◌≡◌, ◌≢◌, ◌↔◌, ◌⊎◌, inl, inr, refl, ap, ◌∙◌, true, false, Option, none, some, List,
  [], ◌∷◌, ◌++◌, ◌==◌, eq_iff, ltb, arith, All, Bool-cases, if◌then◌else◌, ◌||◌,
}
use grc_audit_swarm.Json.{Json}
use grc_audit_swarm.Tokens.Registry.{
  ReviewerEntry, ReviewerRegistry, size, hash_token, match_token, authenticate, max_token_length,
}
use grc_audit_swarm.Tokens.Registry.Entries.{Distinct, RegistryValid}

-- an entry of the list has this digest and this name
abbrev pub Holder : String → String → List ReviewerEntry → Type 0
Holder digest n [] = ⊥
Holder digest n (e ∷ es) = ((digest ≡ e.token_hash) × (e.name ≡ n)) ⊎ Holder digest n es

pub last-Holder :
    (es : List ReviewerEntry) (e : ReviewerEntry) → Holder e.token_hash e.name (es ++ e ∷ [])
last-Holder [] e = inl (refl, refl)
last-Holder (d ∷ es) e = inr (last-Holder es e)

module _ (casefold sha256 : String → String) (repr : Option Json → String) where
  match_token-Holder :
      (digest n : String) (found : Option String) (es : List ReviewerEntry)
      → match_token casefold sha256 repr digest found es ≡ some n
      → (found ≡ some n) ⊎ Holder digest n es
  unfolding match_token
  match_token-Holder digest n found [] h = inl h
  match_token-Holder digest n found (e ∷ es) h = elim (Bool-cases (digest == e.token_hash)) [
    | inl b ↦ elim (match_token-Holder digest n (some e.name) es (rw b at h)) [
      | inl same ↦ inr (inl (ground (arith, eq_iff digest e.token_hash), cc))
      | inr later ↦ inr (inr later)
    ]
    | inr b ↦ elim (match_token-Holder digest n found es (rw b at h)) [
      | inl same ↦ inl same
      | inr later ↦ inr (inr later)
    ]
  ]

  match_token-unheld :
      (digest : String) (found : Option String) (es : List ReviewerEntry)
      → All (λ e. digest ≢ e.token_hash) es
      → match_token casefold sha256 repr digest found es ≡ found
  unfolding match_token
  match_token-unheld digest found [] h = refl
  match_token-unheld digest found (e ∷ es) (h, hs) =
      let b : (digest == e.token_hash) ≡ false = ground (arith, eq_iff digest e.token_hash) in
      rw b (match_token-unheld digest found es hs)

  Holder-match_token :
      (digest n : String) (found : Option String) (es : List ReviewerEntry)
      → Distinct (λ e. e.token_hash) es
      → Holder digest n es
      → match_token casefold sha256 repr digest found es ≡ some n
  unfolding match_token
  Holder-match_token digest n found [] d h = absurd h
  Holder-match_token digest n found (e ∷ es) (d, ds) (inl (same, named)) =
      let b : (digest == e.token_hash) ≡ true = ground (arith, eq_iff digest e.token_hash) in
      let none_later : All (λ x. digest ≢ x.token_hash) es = rw same d in
      rw b (match_token-unheld digest (some e.name) es none_later ∙ ap some named)
  Holder-match_token digest n found (e ∷ es) (d, ds) (inr later) =
      Holder-match_token digest n (if digest == e.token_hash then some e.name else found) es ds
        later

  -- In a valid registry a token authenticates as a name exactly if it is not empty, has at most 256
  -- characters, and its digest is that of the entry with this name.
  pub authenticate_iff :
      (token n : String) (es : ReviewerRegistry)
      → RegistryValid casefold sha256 repr es
      → (authenticate casefold sha256 repr token es ≡ some n)
        ↔ ((token ≢ "") × (size token ≤ 256) × Holder (hash_token casefold sha256 repr token) n es)
  unfolding authenticate max_token_length
  authenticate_iff token n es v = (
    λ h. elim (Bool-cases (token == "" || ltb 256 (size token))) [
      | inl b ↦ let never : none ≡ some n = rw b at h in absurd cc
      | inr b ↦
          let found = rw b at h in
          elim (match_token-Holder (hash_token casefold sha256 repr token) n none es found) [
            | inl never ↦ absurd cc
            | inr held ↦ (λ e. ground (arith, eq_iff token ""), ground arith, held)
          ]
    ],
    λ (named, short, held).
        let b : (token == "" || ltb 256 (size token)) ≡ false = ground (arith, eq_iff token "") in
        rw b (Holder-match_token (hash_token casefold sha256 repr token) n none es v.hashes held),
  )

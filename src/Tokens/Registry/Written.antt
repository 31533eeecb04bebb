-- ===== src/Tokens/Registry/Written.antt =====
-- The file that is written of entries, and the entries that a command keeps.
use grc_audit_swarm.Base.{
  String, ℕ, ◌≡◌, ◌≢◌, inl, inr, ap, ◌∙◌, sym, not, Option, List, [], ◌∷◌, ◌==◌, eq_iff, ltb, arith,
  All, Bool-cases, Result, ok, ◌>>◌, bind_returned, raise_if, contains, suc,
}
use grc_audit_swarm.Json
use grc_audit_swarm.Json.{Json}
use grc_audit_swarm.Tokens.Registry.{
  ReviewerEntry, size, load_for_edit, read_registry, write_atomic, others, clean_name, key_of,
  TokensFile, missing, unreadable, holds, parse_entry, parse_entries, entries_json, entry_json,
  registry_json, digest_of, parse_registry, parse_reviewers, is_version, max_name_length,
  is_token_hash, name_of, created_of, file_version,
}
use grc_audit_swarm.Tokens.Registry.Entries.{
  Distinct, EntryValid, RegistryValid, parse_registry-RegistryValid, entry_key,
}

module _ (casefold sha256 : String → String) (repr : Option Json → String) where
  -- an entry that is read back was written, if its name was clean
  parse_entry-written :
      (i : ℕ) (names hashes : List String) (e e' : ReviewerEntry)
      → clean_name e.name ≡ e.name
      → parse_entry casefold sha256 repr i names hashes (entry_json casefold sha256 repr e) ≡ ok e'
      → e ≡ e'
  unfolding parse_entry entry_json digest_of created_of name_of Json.get max_name_length
  parse_entry-written i names hashes e e' clean h =
      let name = clean_name e.name in
      let (token_hash, first, h1) =
        bind_returned
          (raise_if (name == "") _
            >> raise_if (ltb 200 (size name)) _
            >> (raise_if (not (is_token_hash e.token_hash)) _ >> ok e.token_hash))
          _ h in
      let (_, _, digest) =
        bind_returned (raise_if (name == "") _ >> raise_if (ltb 200 (size name)) _) _ first in
      let (_, _, same_hash) =
        bind_returned (raise_if (not (is_token_hash e.token_hash)) _) _ digest in
      let (_, _, same) =
        bind_returned
          (raise_if (contains names (key_of casefold sha256 repr name)) _
            >> raise_if (contains hashes token_hash) _)
          _ h1 in
      let eh : e.token_hash ≡ token_hash = cc in
      let kept : ◌≡◌ {A = Result String ReviewerEntry} (ok e) (ok e') = rw (clean, ← eh) at same in
      cc

  entries_json-written :
      (i : ℕ) (names hashes : List String) (es es' : List ReviewerEntry)
      → All (λ e. clean_name e.name ≡ e.name) es
      → parse_entries casefold sha256 repr i names hashes (entries_json casefold sha256 repr es)
        ≡ ok es'
      → es ≡ es'
  unfolding parse_entries entries_json
  entries_json-written i names hashes [] es' clean h = cc
  entries_json-written i names hashes (e ∷ es) es' (clean, cleans) h =
      let (e', first, h1) =
        bind_returned
          (parse_entry casefold sha256 repr i names hashes (entry_json casefold sha256 repr e)) _
          h in
      let (rest, others, same) =
        bind_returned
          (parse_entries casefold sha256 repr (suc i) (entry_key casefold sha256 repr e' ∷ names)
            (e'.token_hash ∷ hashes) (entries_json casefold sha256 repr es))
          _ h1 in
      let head = parse_entry-written i names hashes e e' clean first in
      let tail =
        entries_json-written (suc i) (entry_key casefold sha256 repr e' ∷ names)
          (e'.token_hash ∷ hashes) es rest cleans others in
      cc

  registry_json-written :
      (es es' : List ReviewerEntry)
      → All (λ e. clean_name e.name ≡ e.name) es
      → parse_registry casefold sha256 repr (registry_json casefold sha256 repr es) ≡ ok es'
      → es ≡ es'
  unfolding parse_registry registry_json parse_reviewers is_version file_version Json.get
  registry_json-written es es' clean h = entries_json-written 0 [] [] es es' clean h

  -- the file that is written holds the entries, and they are valid
  pub write_atomic-Valid :
      (es : List ReviewerEntry) (file : TokensFile)
      → All (λ e. clean_name e.name ≡ e.name) es
      → write_atomic casefold sha256 repr es ≡ ok file
      → (read_registry casefold sha256 repr file ≡ ok es) × RegistryValid casefold sha256 repr es
  unfolding write_atomic read_registry
  write_atomic-Valid es file clean h =
      let (es', parsed, same) =
        bind_returned (parse_registry casefold sha256 repr (registry_json casefold sha256 repr es))
          _ h in
      let e : es ≡ es' = registry_json-written es es' clean parsed in
      let f : holds (registry_json casefold sha256 repr es) ≡ file = cc in
      let parsed' : parse_registry casefold sha256 repr (registry_json casefold sha256 repr es)
          ≡ ok es =
        parsed ∙ ap ok (sym e) in
      (
        rw (← f) parsed',
        parse_registry-RegistryValid casefold sha256 repr (registry_json casefold sha256 repr es) es
            parsed',
      )

  pub load_for_edit-Valid :
      (file : TokensFile) (es : List ReviewerEntry)
      → load_for_edit casefold sha256 repr file ≡ ok es
      → RegistryValid casefold sha256 repr es
  unfolding load_for_edit read_registry
  load_for_edit-Valid missing es h =
      let e : [] ≡ es = cc in rw (← e) (record { each = tt; names = tt; hashes = tt })
  load_for_edit-Valid (unreadable reason) es h = cc
  load_for_edit-Valid (holds content) es h =
      parse_registry-RegistryValid casefold sha256 repr content es h

  pub others-All {κ} :
      (P : ReviewerEntry → Type κ) (key : String) (es : List ReviewerEntry)
      → All P es
      → All P (others casefold sha256 repr key es)
  unfolding others
  others-All P key [] h = tt
  others-All P key (e ∷ es) (h, hs) =
      elim (Bool-cases (key_of casefold sha256 repr e.name == key)) [
        | inl b ↦ rw b (others-All P key es hs)
        | inr b ↦ rw b (h, others-All P key es hs)
      ]

  others-Distinct :
      (f : ReviewerEntry → String) (key : String) (es : List ReviewerEntry)
      → Distinct f es
      → Distinct f (others casefold sha256 repr key es)
  unfolding others
  others-Distinct f key [] h = tt
  others-Distinct f key (e ∷ es) (h, hs) =
      elim (Bool-cases (key_of casefold sha256 repr e.name == key)) [
        | inl b ↦ rw b (others-Distinct f key es hs)
        | inr b ↦ rw b (others-All _ key es h, others-Distinct f key es hs)
      ]

  pub others-Valid :
      (key : String) (es : List ReviewerEntry)
      → RegistryValid casefold sha256 repr es
      → RegistryValid casefold sha256 repr (others casefold sha256 repr key es)
  others-Valid key es v = record {
    each = others-All EntryValid key es v.each;
    names = others-Distinct _ key es v.names;
    hashes = others-Distinct _ key es v.hashes;
  }

  pub others-away :
      (key : String) (es : List ReviewerEntry)
      → All (λ d. entry_key casefold sha256 repr d ≢ key) (others casefold sha256 repr key es)
  unfolding others
  others-away key [] = tt
  others-away key (e ∷ es) = elim (Bool-cases (key_of casefold sha256 repr e.name == key)) [
    | inl b ↦ rw b (others-away key es)
    | inr b ↦ rw b (
      (λ e'. ground (arith, eq_iff (key_of casefold sha256 repr e.name) key)),
      others-away key es,
    )
  ]

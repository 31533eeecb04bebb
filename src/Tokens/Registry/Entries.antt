-- ===== src/Tokens/Registry/Entries.antt =====
-- What a parsed tokens file holds, whose token is whose, and that a written file is read again.
use grc_audit_swarm.Base.{
  all_new, all_joined, String, ℕ, ◌≤◌, ◌≡◌, ◌≢◌, refl, true, false, not, Option, none, some, List,
  [], ◌∷◌, ◌==◌, eq_iff, ltb, arith, contains, All, ok, ◌>>◌, raise_if, raise_if-returned,
  bind_returned, join-split_idempotent, suc, eq-false_of_ne,
}
use grc_audit_swarm.Json
use grc_audit_swarm.Json.{
  Json, Items, Members, null, boolean, integer, other_number, text, array, object, nil, item,
}
use grc_audit_swarm.Tokens.Registry.{
  ReviewerEntry, ReviewerRegistry, size, clean_name, name_of, is_token_hash, key_of, parse_entry,
  parse_entries, parse_reviewers, parse_registry, max_name_length, digest_of, entries_json,
  entry_json, is_version, registry_json, created_of, file_version,
}

-- an entry whose name is clean, not blank and not too long, with a digest in form
pub record EntryValid (e : ReviewerEntry) : Type 0 where
  pub clean : clean_name e.name ≡ e.name
  pub named : e.name ≢ ""
  pub short : size e.name ≤ 200
  pub digest : is_token_hash e.token_hash ≡ true

-- no two of the list have the same `f`
abbrev pub Distinct : (ReviewerEntry → String) → List ReviewerEntry → Type 0
Distinct f [] = Unit
Distinct f (e ∷ es) = All (λ d. f e ≢ f d) es × Distinct f es

module _ (casefold sha256 : String → String) (repr : Option Json → String) where
  abbrev pub entry_key : ReviewerEntry → String
  entry_key e = key_of casefold sha256 repr e.name

  pub record RegistryValid (es : ReviewerRegistry) : Type 0 where
    pub each : All EntryValid es
    pub names : Distinct entry_key es
    pub hashes : Distinct (λ e. e.token_hash) es

  digest_of-IsTokenHash :
      (i : ℕ) (value : Option Json) (h : String)
      → digest_of casefold sha256 repr i value ≡ ok h
      → is_token_hash h ≡ true
  unfolding digest_of
  digest_of-IsTokenHash i (some (text t)) h e =
      let (_, good, same) = bind_returned (raise_if (not (is_token_hash t)) _) _ e in
      let g = raise_if-returned (not (is_token_hash t)) _ good in
      let th : t ≡ h = cc in rw (← th) (ground arith)
  digest_of-IsTokenHash i (some null) h e = cc
  digest_of-IsTokenHash i (some (boolean _)) h e = cc
  digest_of-IsTokenHash i (some (integer _)) h e = cc
  digest_of-IsTokenHash i (some (other_number _)) h e = cc
  digest_of-IsTokenHash i (some (array _)) h e = cc
  digest_of-IsTokenHash i (some (object _)) h e = cc
  digest_of-IsTokenHash i none h e = cc

  name_of-clean : (value : Option Json) → clean_name (name_of value) ≡ name_of value
  unfolding name_of clean_name
  name_of-clean (some (text t)) = join-split_idempotent t
  name_of-clean (some null) = refl
  name_of-clean (some (boolean _)) = refl
  name_of-clean (some (integer _)) = refl
  name_of-clean (some (other_number _)) = refl
  name_of-clean (some (array _)) = refl
  name_of-clean (some (object _)) = refl
  name_of-clean none = refl

  -- what one item passes
  parse_entry-Valid :
      (i : ℕ) (names hashes : List String) (v : Json) (e : ReviewerEntry)
      → parse_entry casefold sha256 repr i names hashes v ≡ ok e
      → EntryValid e
        × (contains names (entry_key e) ≡ false)
        × (contains hashes e.token_hash ≡ false)
  unfolding parse_entry max_name_length
  parse_entry-Valid i names hashes (object ms) e h =
      let name = name_of (Json.get "name" ms) in
      let (token_hash, first, h1) =
        bind_returned
          (raise_if (name == "") _
            >> raise_if (ltb 200 (size name)) _
            >> digest_of casefold sha256 repr i (Json.get "token_hash" ms))
          _ h in
      let (_, first1, digest) =
        bind_returned (raise_if (name == "") _ >> raise_if (ltb 200 (size name)) _) _ first in
      let (_, named, short) = bind_returned (raise_if (name == "") _) _ first1 in
      let (_, last, same) =
        bind_returned
          (raise_if (contains names (key_of casefold sha256 repr name)) _
            >> raise_if (contains hashes token_hash) _)
          _ h1 in
      let (_, new_name, new_hash) =
        bind_returned (raise_if (contains names (key_of casefold sha256 repr name)) _) _ last in
      let named' = raise_if-returned (name == "") _ named in
      let short' = raise_if-returned (ltb 200 (size name)) _ short in
      let new_name' =
        raise_if-returned (contains names (key_of casefold sha256 repr name)) _ new_name in
      let new_hash' = raise_if-returned (contains hashes token_hash) _ new_hash in
      let en : name ≡ e.name = cc in
      let eh : token_hash ≡ e.token_hash = cc in
      (
        record {
          clean = rw (← en) (name_of-clean (Json.get "name" ms));
          named = rw (← en) (λ b. ground (arith, eq_iff name ""));
          short = rw (← en) (ground arith);
          digest = rw (← eh) (digest_of-IsTokenHash i (Json.get "token_hash" ms) token_hash digest);
        },
        rw (← en) new_name',
        rw (← eh) new_hash',
      )
  parse_entry-Valid i names hashes null e h = cc
  parse_entry-Valid i names hashes (boolean _) e h = cc
  parse_entry-Valid i names hashes (integer _) e h = cc
  parse_entry-Valid i names hashes (other_number _) e h = cc
  parse_entry-Valid i names hashes (text _) e h = cc
  parse_entry-Valid i names hashes (array _) e h = cc

  -- Entries that are valid, and new to the names and digests seen.
  record EntriesValid (names hashes : List String) (es : List ReviewerEntry) : Type 0 where
    valid : RegistryValid es
    new_names : All (λ d. contains names (entry_key d) ≡ false) es
    new_hashes : All (λ d. contains hashes d.token_hash ≡ false) es

  parse_entries-Valid :
      (i : ℕ) (names hashes : List String) (vs : Items) (es : List ReviewerEntry)
      → parse_entries casefold sha256 repr i names hashes vs ≡ ok es
      → EntriesValid names hashes es
  unfolding parse_entries
  parse_entries-Valid i names hashes nil es h =
      let e : [] ≡ es = cc in
      rw (← e) (record {
        valid = record { each = tt; names = tt; hashes = tt };
        new_names = tt;
        new_hashes = tt;
      })
  parse_entries-Valid i names hashes (item v vs) es h =
      let (e, first, h1) = bind_returned (parse_entry casefold sha256 repr i names hashes v) _ h in
      let (rest, others, same) =
        bind_returned
          (parse_entries casefold sha256 repr (suc i) (entry_key e ∷ names) (e.token_hash ∷ hashes)
            vs)
          _ h1 in
      let (valid, new_name, new_hash) = parse_entry-Valid i names hashes v e first in
      let later =
        parse_entries-Valid (suc i) (entry_key e ∷ names) (e.token_hash ∷ hashes) vs rest others in
      let (ns, ns') = all_new entry_key (entry_key e) names rest later.new_names in
      let (hs, hs') = all_new (λ d. d.token_hash) e.token_hash hashes rest later.new_hashes in
      let eq : e ∷ rest ≡ es = cc in
      rw (← eq) (record {
        valid = record {
          each = (valid, later.valid.each);
          names = (ns, later.valid.names);
          hashes = (hs, later.valid.hashes);
        };
        new_names = (new_name, ns');
        new_hashes = (new_hash, hs');
      })

  parse_reviewers-Valid :
      (value : Option Json) (es : ReviewerRegistry)
      → parse_reviewers casefold sha256 repr value ≡ ok es
      → RegistryValid es
  unfolding parse_reviewers
  parse_reviewers-Valid (some (array vs)) es h = (parse_entries-Valid 0 [] [] vs es h).valid
  parse_reviewers-Valid (some null) es h = cc
  parse_reviewers-Valid (some (boolean _)) es h = cc
  parse_reviewers-Valid (some (integer _)) es h = cc
  parse_reviewers-Valid (some (other_number _)) es h = cc
  parse_reviewers-Valid (some (text _)) es h = cc
  parse_reviewers-Valid (some (object _)) es h = cc
  parse_reviewers-Valid none es h = cc

  -- A tokens file that is accepted holds entries with clean names, not blank and of at most 200
  -- characters, and digests in form; no two have names that normalise alike, and no two one digest.
  pub parse_registry-RegistryValid :
      (content : Json) (es : ReviewerRegistry)
      → parse_registry casefold sha256 repr content ≡ ok es
      → RegistryValid es
  unfolding parse_registry
  parse_registry-RegistryValid (object ms) es h =
      let (_, _, h1) =
        bind_returned (raise_if (not (is_version casefold sha256 repr (Json.get "version" ms))) _) _
          h in
      parse_reviewers-Valid (Json.get "reviewers" ms) es h1
  parse_registry-RegistryValid null es h = cc
  parse_registry-RegistryValid (boolean _) es h = cc
  parse_registry-RegistryValid (integer _) es h = cc
  parse_registry-RegistryValid (other_number _) es h = cc
  parse_registry-RegistryValid (text _) es h = cc
  parse_registry-RegistryValid (array _) es h = cc

  parse_entry-entry_json :
      (i : ℕ) (names hashes : List String) (e : ReviewerEntry)
      → EntryValid e
      → contains names (entry_key e) ≡ false
      → contains hashes e.token_hash ≡ false
      → parse_entry casefold sha256 repr i names hashes (entry_json casefold sha256 repr e) ≡ ok e
  unfolding parse_entry entry_json digest_of created_of name_of Json.get max_name_length
  parse_entry-entry_json i names hashes e valid n h =
      let named = eq-false_of_ne e.name "" valid.named in
      let short : ltb 200 (size e.name) ≡ false = let s = valid.short in ground arith in
      rw (valid.clean, named, short, valid.digest, n, h) refl

  parse_entries-entries_json :
      (i : ℕ) (names hashes : List String) (es : List ReviewerEntry)
      → EntriesValid names hashes es
      → parse_entries casefold sha256 repr i names hashes (entries_json casefold sha256 repr es)
        ≡ ok es
  unfolding parse_entries entries_json
  parse_entries-entries_json i names hashes [] v = refl
  parse_entries-entries_json i names hashes (e ∷ es) v =
      let first =
        parse_entry-entry_json i names hashes e v.valid.each.0 v.new_names.0 v.new_hashes.0 in
      let rest =
        parse_entries-entries_json (suc i) (entry_key e ∷ names) (e.token_hash ∷ hashes) es
          (record {
            valid = record {
              each = v.valid.each.1;
              names = v.valid.names.1;
              hashes = v.valid.hashes.1;
            };
            new_names = all_joined entry_key (entry_key e) names es v.valid.names.0 v.new_names.1;
            new_hashes =
                all_joined (λ d. d.token_hash) e.token_hash hashes es v.valid.hashes.0
                  v.new_hashes.1;
          }) in
      rw (first, rest) refl

  all_nil :
      (f : ReviewerEntry → String) (es : List ReviewerEntry)
      → All (λ d. contains [] (f d) ≡ false) es
  all_nil f [] = tt
  all_nil f (e ∷ es) = (refl, all_nil f es)

  -- A registry that is valid is read back from the file that is written of it.
  pub parse_registry-registry_json :
      (es : ReviewerRegistry)
      → RegistryValid es
      → parse_registry casefold sha256 repr (registry_json casefold sha256 repr es) ≡ ok es
  unfolding parse_registry registry_json parse_reviewers is_version file_version Json.get
  parse_registry-registry_json es v = parse_entries-entries_json 0 [] [] es (record {
    valid = v;
    new_names = all_nil entry_key es;
    new_hashes = all_nil (λ d. d.token_hash) es;
  })

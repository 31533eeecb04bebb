-- ===== src/Tokens/Registry/Commands.antt =====
-- What the commands `add` and `remove` leave in the tokens file.
use grc_audit_swarm.Base.{String, ◌≡◌, ◌⊎◌, Bool, true, Option, some, List, [], ◌∷◌, ◌++◌, ok}
use grc_audit_swarm.Json.{Json}
use grc_audit_swarm.Tokens.Registry.{
  ReviewerEntry, hash_token, authenticate, load_for_edit, read_registry, others, existing,
  clean_name, key_of, TokensFile,
}

module _ (casefold sha256 : String → String) (repr : Option Json → String) where
  -- what a new entry of `add_reviewer` is
  abbrev pub issued : String → String → String → ReviewerEntry
  issued raw_name token created = record {
    name = clean_name raw_name;
    token_hash = hash_token casefold sha256 repr token;
    created_at = created;
  }

  -- What `add_reviewer` leaves, if it returns the token `t` and the file `written`.
  pub record Issued (raw_name token created t : String) (replace : Bool) (file written : TokensFile)
      : Type 0 where
    reviewers : List ReviewerEntry
    loaded : load_for_edit casefold sha256 repr file ≡ ok reviewers
    free :
        (replace ≡ true)
        ⊎ (existing casefold sha256 repr
              (key_of casefold sha256 repr (clean_name raw_name))
              reviewers
            ≡ [])
    returned : token ≡ t
    entries : List ReviewerEntry
    kept :
        entries
        ≡ others casefold sha256 repr (key_of casefold sha256 repr (clean_name raw_name)) reviewers
          ++ issued raw_name token created ∷ []
    read : read_registry casefold sha256 repr written ≡ ok entries
    works : authenticate casefold sha256 repr token entries ≡ some (clean_name raw_name)

-- ===== src/Tokens/Registry.antt =====
-- The tokens file of src/api/reviewer_tokens.py: its entries, its validation, the lookup of a token
-- and the two commands that write it. SHA-256, case folding, `repr` and a fresh token are parameters;
-- the file is read and written as a JSON value.
pub mod Entries
pub mod Holders
mod Written
pub mod Commands
use Prim.Native.Char.{code}
use grc_audit_swarm.Base.{
  String, ℕ, ◌+◌, Bool, true, false, not, ◌&&◌, ◌||◌, Option, none, some, List, [], ◌∷◌, ◌++◌, ◌==◌,
  leb, ltb, eqb, contains, keep, length, is_empty, concat, join, split, decimal, Result, err, ok,
  ◌>>=◌, ◌>>◌, raise_if, if◌then◌else◌, suc, zero,
}
use grc_audit_swarm.Policy.{normalise_identity}
use grc_audit_swarm.Json
use grc_audit_swarm.Json.{
  Json, Items, Members, null, boolean, integer, other_number, text, array, object, nil, item, end,
  member,
}

pub record ReviewerEntry : Type 0 where
  pub name : String
  pub token_hash : String
  pub created_at : String

-- `entries` of the parsed file
abbrev pub ReviewerRegistry : Type 0
ReviewerRegistry = List ReviewerEntry

-- `len` of a text
abbrev pub size : String → ℕ
size String.[] = 0
size (String.◌∷◌ c s) = suc (size s)

unfoldable pub max_token_length : ℕ
max_token_length = 256

unfoldable pub max_name_length : ℕ
max_name_length = 200

unfoldable pub file_version : ℕ
file_version = 1

unfoldable pub clean_name : String → String
unfolding split
clean_name value = join " " (split value)

-- `_clean_name` of a member that may be missing or no text
unfoldable pub name_of : Option Json → String
unfolding clean_name
name_of value = elim value [ some (text s) ↦ clean_name s | _ ↦ "" ]

is_hex_digit : ℕ → Bool
is_hex_digit c = leb b'0' c && leb c b'9' || leb b'a' c && leb c b'f'

-- `n` digits of `[0-9a-f]`, then the end, where `$` also takes one line feed
hex_digits : ℕ → String → Bool
unfolding is_hex_digit
hex_digits zero String.[] = true
hex_digits zero (String.◌∷◌ c s) = eqb (code c) 10 && s == ""
hex_digits (suc n) String.[] = false
hex_digits (suc n) (String.◌∷◌ c s) = is_hex_digit (code c) && hex_digits n s

-- what follows a prefix
after : String → String → Option String
after String.[] s = some s
after (String.◌∷◌ c p) String.[] = none
after (String.◌∷◌ c p) (String.◌∷◌ d s) =
    let rest = after p s in if eqb (code c) (code d) then rest else none

-- `_HASH_RE.match`
unfoldable pub is_token_hash : String → Bool
unfolding after hex_digits
is_token_hash s = elim (after "sha256:" s) [ none ↦ false | some digits ↦ hex_digits 64 digits ]

-- the tokens file: not there, not readable as JSON for a reason, or with a content
pub data TokensFile : Type 0 where
  missing : TokensFile
  unreadable : String → TokensFile
  holds : Json → TokensFile

-- The messages of ReviewerTokensError. They stay shut in the proofs.
reviewer_message : ℕ → String → String
reviewer_message i rest = concat ("reviewers[" ∷ decimal i ∷ "]" ∷ rest ∷ [])

version_message : String → String
version_message found = concat ("unsupported tokens file version " ∷ found ∷ " (expected 1)" ∷ [])

has_token_message : String → String
has_token_message name = concat (
    "'" ∷ name
    ∷ "' already has a token; use --replace to issue a new one (the old token stops working)" ∷ [])

module _ (casefold sha256 : String → String) (repr : Option Json → String) where
  unfoldable pub key_of : String → String
  unfolding normalise_identity
  key_of name = normalise_identity casefold (some name)

  unfoldable pub hash_token : String → String
  hash_token token = concat ("sha256" ∷ ":" ∷ sha256 token ∷ [])

  -- the last entry with this digest; every entry is compared
  unfoldable pub match_token : String → Option String → List ReviewerEntry → Option String
  match_token provided found [] = found
  match_token provided found (e ∷ es) =
      match_token provided (if provided == e.token_hash then some e.name else found) es

  -- a missing header is the empty token
  unfoldable pub authenticate : String → ReviewerRegistry → Option String
  unfolding hash_token match_token max_token_length
  authenticate token entries =
      if token == "" || ltb max_token_length (size token)
      then none
      else match_token (hash_token token) none entries

  unfoldable pub digest_of : ℕ → Option Json → Result String String
  unfolding is_token_hash reviewer_message
  digest_of i (some (text token_hash)) =
      raise_if (not (is_token_hash token_hash))
        (reviewer_message i " token_hash must be 'sha256:' and 64 hex digits")
      >> ok token_hash
  digest_of i _ = err (reviewer_message i " token_hash must be 'sha256:' and 64 hex digits")

  unfoldable pub created_of : Option Json → String
  created_of value = elim value [ some (text created) ↦ created | _ ↦ "" ]

  -- one `item` of the loop of `parse_registry`
  unfoldable pub parse_entry : ℕ → List String → List String → Json → Result String ReviewerEntry
  unfolding name_of digest_of created_of key_of Json.get max_name_length reviewer_message
  parse_entry i names hashes (object ms) =
      let name = name_of (Json.get "name" ms) in
      raise_if (name == "") (reviewer_message i " has no name")
      >> raise_if (ltb max_name_length (size name)) (reviewer_message i " name is too long")
      >> digest_of i (Json.get "token_hash" ms)
      >>= λ token_hash.
          raise_if (contains names (key_of name)) (reviewer_message i ": duplicate name")
          >> raise_if (contains hashes token_hash) (reviewer_message i ": duplicate token_hash")
          >> ok (record {
            name = name;
            token_hash = token_hash;
            created_at = created_of (Json.get "created_at" ms);
          })
  parse_entry i names hashes _ = err (reviewer_message i " must be an object")

  unfoldable pub parse_entries :
      ℕ → List String → List String → Items → Result String (List ReviewerEntry)
  unfolding parse_entry key_of
  parse_entries i names hashes nil = ok []
  parse_entries i names hashes (item v vs) = parse_entry i names hashes v >>= λ e.
      parse_entries (suc i) (key_of e.name ∷ names) (e.token_hash ∷ hashes) vs >>= λ es. ok (e ∷ es)

  unfoldable pub parse_reviewers : Option Json → Result String ReviewerRegistry
  unfolding parse_entries
  parse_reviewers reviewers = elim reviewers [
    | some (array vs) ↦ parse_entries 0 [] [] vs
    | _ ↦ err "'reviewers' must be a list"
  ]

  -- `True == 1` in Python too
  unfoldable pub is_version : Option Json → Bool
  unfolding file_version
  is_version value = elim value [
    | some (integer n) ↦ eqb n file_version
    | some (boolean b) ↦ b
    | _ ↦ false
  ]

  unfoldable pub parse_registry : Json → Result String ReviewerRegistry
  unfolding parse_reviewers is_version Json.get version_message
  parse_registry (object ms) =
      raise_if (not (is_version (Json.get "version" ms)))
        (version_message (repr (Json.get "version" ms)))
      >> parse_reviewers (Json.get "reviewers" ms)
  parse_registry _ = err "the tokens file must hold a JSON object"

  unfoldable pub read_registry : TokensFile → Result String ReviewerRegistry
  unfolding parse_registry
  read_registry missing = err "cannot read the reviewer tokens file: No such file or directory"
  read_registry (unreadable reason) = err reason
  read_registry (holds content) = parse_registry content

  unfoldable pub load_for_edit : TokensFile → Result String (List ReviewerEntry)
  unfolding read_registry
  load_for_edit missing = ok []
  load_for_edit (unreadable reason) = read_registry (unreadable reason)
  load_for_edit (holds content) = read_registry (holds content)

  unfoldable pub entry_json : ReviewerEntry → Json
  entry_json e = object (
      member "created_at" (text e.created_at)
        (member "name" (text e.name) (member "token_hash" (text e.token_hash) end)))

  unfoldable pub entries_json : List ReviewerEntry → Items
  unfolding entry_json
  entries_json [] = nil
  entries_json (e ∷ es) = item (entry_json e) (entries_json es)

  -- the payload, its keys sorted
  unfoldable pub registry_json : List ReviewerEntry → Json
  unfolding entries_json file_version
  registry_json reviewers = object (
      member "reviewers" (array (entries_json reviewers))
        (member "version" (integer file_version) end))

  -- the file that `_write_atomic` leaves
  unfoldable pub write_atomic : List ReviewerEntry → Result String TokensFile
  unfolding registry_json parse_registry
  write_atomic reviewers =
      parse_registry (registry_json reviewers) >>= λ _. ok (holds (registry_json reviewers))

  -- `[r for r in reviewers if normalise_identity(r["name"]) != key]`
  unfoldable pub others : String → List ReviewerEntry → List ReviewerEntry
  unfolding key_of
  others key reviewers = keep (λ r. not (key_of r.name == key)) reviewers

  unfoldable pub existing : String → List ReviewerEntry → List ReviewerEntry
  unfolding key_of
  existing key reviewers = keep (λ r. key_of r.name == key) reviewers

  unfoldable pub refuse_existing : Bool → List ReviewerEntry → Result String (Unit {0})
  unfolding has_token_message
  refuse_existing replace [] = ok tt
  refuse_existing replace (r ∷ _) = raise_if (not replace) (has_token_message r.name)

  -- `add_reviewer` with the token that `generate_token` makes and the time: the token and the file
  unfoldable pub add_reviewer :
      String → Bool → String → String → TokensFile → Result String (String × TokensFile)
  unfolding clean_name key_of load_for_edit existing refuse_existing others hash_token write_atomic
      max_name_length
  add_reviewer raw_name replace token created file =
      let name = clean_name raw_name in
      raise_if (name == "") "the reviewer name must not be blank"
      >> raise_if (ltb max_name_length (size name)) "the reviewer name is too long"
      >> load_for_edit file
      >>= λ reviewers.
          refuse_existing replace (existing (key_of name) reviewers)
          >> write_atomic (
              others (key_of name) reviewers
              ++ record { name = name; token_hash = hash_token token; created_at = created } ∷ [])
          >>= λ written. ok (token, written)

  unfoldable pub remove_reviewer : String → TokensFile → Result String (Bool × TokensFile)
  unfolding key_of load_for_edit others write_atomic
  remove_reviewer name file = load_for_edit file >>= λ reviewers.
      let kept = others (key_of name) reviewers in
      if eqb (length kept) (length reviewers)
      then ok (false, file)
      else write_atomic kept >>= λ written. ok (true, written)

-- ===== src/Tokens/Samples.antt =====
-- A client address with three failures, and a tokens file of two reviewers. The sample digests are of
-- the form that the file wants, one for the first token and one for all others.
use grc_audit_swarm.Base.{
  String, ◌≡◌, ◌↔◌, ◌≢◌, ◌≤◌, refl, List, [], ◌∷◌, Option, some, ok, ◌==◌, if◌then◌else◌, arith,
}
use grc_audit_swarm.Json.{Json}
use grc_audit_swarm.Tokens.Limiter.{
  retry_after, answer, drop_expired, pruned, prune, record_failure, wait_from,
}
use grc_audit_swarm.Tokens.Limiter.Refines.{
  Chronological, Call, ask, fail, calls, history, recent, retry_after-refines,
}
use grc_audit_swarm.Tokens.Limiter.Waiting.{Told, retry_after-Told}
use grc_audit_swarm.Tokens.Registry.{
  ReviewerEntry, ReviewerRegistry, TokensFile, holds, size, hash_token, authenticate,
  parse_registry, registry_json,
}
use grc_audit_swarm.Tokens.Registry.Entries.{
  RegistryValid, parse_registry-RegistryValid, parse_registry-registry_json,
}
use grc_audit_swarm.Tokens.Registry.Holders.{Holder, authenticate_iff}

abbrev attempts : List Call
attempts =
    fail "10.0.0.1" 10
    ∷ fail "10.0.0.2" 15
    ∷ fail "10.0.0.1" 50
    ∷ ask "10.0.0.1" 65
    ∷ fail "10.0.0.1" 65
    ∷ []

ordered : Chronological 0 attempts
ordered = (omega arith, (omega arith, (omega arith, (omega arith, (omega arith, tt)))))

-- the failure at 10 is out of the window, those at 50 and 65 count
third-blocked : (retry_after 2 60 1 "10.0.0.1" 72 (calls 2 60 1 attempts [])).1 ≡ ok (some 39)
unfolding retry_after answer drop_expired pruned prune record_failure wait_from
third-blocked = refl

retry_after-refines_example :
    (retry_after 2 60 1 "10.0.0.1" 72 (calls 2 60 1 attempts [])).1
    ≡ answer 2 60 1 72 (recent 2 60 1 72 (history 2 60 1 "10.0.0.1" attempts []))
retry_after-refines_example =
    retry_after-refines 2 60 1 attempts "10.0.0.1" 72 ordered (omega arith)

retry_after-Told_example :
    Told 2 60 1
      (retry_after 2 60 1 "10.0.0.1" 72 (calls 2 60 1 attempts [])).1
      72
      (history 2 60 1 "10.0.0.1" attempts [])
      (recent 2 60 1 72 (history 2 60 1 "10.0.0.1" attempts []))
retry_after-Told_example =
    retry_after-Told 2 60 1 attempts "10.0.0.1" 72 ordered (omega arith) (omega arith) (omega arith)

abbrev casefold : String → String
casefold s = s

abbrev sha256 : String → String
sha256 token =
    if token == "grcrt_1"
    then "aaaaaaaaaaaaaaaaaaaaaaaaaaaaaaaaaaaaaaaaaaaaaaaaaaaaaaaaaaaaaaaa"
    else "0123456789abcdef0123456789abcdef0123456789abcdef0123456789abcdef"

abbrev repr : Option Json → String
repr value = "None"

abbrev ann : ReviewerEntry
ann = record {
  name = "Ann Lee";
  token_hash = "sha256:aaaaaaaaaaaaaaaaaaaaaaaaaaaaaaaaaaaaaaaaaaaaaaaaaaaaaaaaaaaaaaaa";
  created_at = "2026-01-01";
}

abbrev bob : ReviewerEntry
bob = record {
  name = "Bob";
  token_hash = "sha256:0123456789abcdef0123456789abcdef0123456789abcdef0123456789abcdef";
  created_at = "2026-01-02";
}

abbrev reviewers : ReviewerRegistry
reviewers = ann ∷ bob ∷ []

abbrev file : TokensFile
file = holds (registry_json casefold sha256 repr reviewers)

reviewers-parse :
    parse_registry casefold sha256 repr (registry_json casefold sha256 repr reviewers)
    ≡ ok reviewers
unfolding parse_registry registry_json
reviewers-parse = refl

reviewers-RegistryValid : RegistryValid casefold sha256 repr reviewers
reviewers-RegistryValid =
    parse_registry-RegistryValid casefold sha256 repr (registry_json casefold sha256 repr reviewers)
      reviewers reviewers-parse

parse_registry-RegistryValid_example : RegistryValid casefold sha256 repr reviewers
parse_registry-RegistryValid_example =
    parse_registry-RegistryValid casefold sha256 repr (registry_json casefold sha256 repr reviewers)
      reviewers reviewers-parse

parse_registry-registry_json_example :
    parse_registry casefold sha256 repr (registry_json casefold sha256 repr reviewers)
    ≡ ok reviewers
parse_registry-registry_json_example =
    parse_registry-registry_json casefold sha256 repr reviewers reviewers-RegistryValid

abbrev token : String
token = "grcrt_1"

authenticate_iff_example : (authenticate casefold sha256 repr token reviewers ≡ some "Ann Lee") ↔ (
    (token ≢ "")
    × (size token ≤ 256)
    × Holder (hash_token casefold sha256 repr token) "Ann Lee" reviewers)
authenticate_iff_example =
    authenticate_iff casefold sha256 repr token "Ann Lee" reviewers reviewers-RegistryValid

abbrev renewed : TokensFile
renewed = holds (
    registry_json casefold sha256 repr (
      ann
      ∷ record {
        name = "Bob";
        token_hash = "sha256:0123456789abcdef0123456789abcdef0123456789abcdef0123456789abcdef";
        created_at = "2026-02-01";
      }
      ∷ []))

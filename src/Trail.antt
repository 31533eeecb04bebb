-- ===== src/Trail.antt =====
-- src/swarm/trail.py: the hash-chained approval trail. `Digests` is what the module takes from
-- hashlib and hmac (hex digests of a text's bytes) and from the environment (the key).
pub mod Canonical
pub mod Chain
pub mod Verify
pub mod Intact
pub mod Samples
use grc_audit_swarm.Base.{
  ℕ, zero, suc, ◌-◌, String, ◌≡◌, Bool, true, false, not, ◌&&◌, ◌||◌, Option, none, some, List, [],
  ◌∷◌, ◌++◌, ◌==◌, any, last?, get_elem?, length, is_empty, eqb, ltb, take, map, if◌then◌else◌,
  Result, err, ok, value_or, ◌>>=◌,
}
use grc_audit_swarm.Dict
use grc_audit_swarm.Dict.{Dict}
use Canonical.{canonical, canonical_list}

pub record Digests : Type 0 where
  pub sha256 : String → String
  pub hmac_sha256 : String → String → String
  -- the key derived from VAULT_ENCRYPTION_KEY under the trail's label, if that is set
  pub trail_key : Option String

abbrev pub Entry : Type 0
Entry = Dict

abbrev pub genesis_hash : String
genesis_hash = "0000000000000000000000000000000000000000000000000000000000000000"

abbrev pub alg_keyed : String
alg_keyed = "hmac-sha256"

abbrev pub alg_plain : String
alg_plain = "sha256"

-- every field but `entry_hash`
unfoldable pub canonical_entry : Entry → String
unfolding canonical Dict.without
canonical_entry e = canonical (Dict.without "entry_hash" e)

-- An algorithm with the key that it needs: a keyed digest without a key, which raises, has none.
pub data Seal : Type 0 where
  plain : Seal
  keyed : String → Seal

abbrev pub alg_of : Seal → String
alg_of plain = alg_plain
alg_of (keyed _) = alg_keyed

unfoldable pub digest : Digests → String → Seal → String
digest h text plain = h.sha256 text
digest h text (keyed k) = h.hmac_sha256 k text

abbrev pub seal_of_key : Option String → Seal
seal_of_key none = plain
seal_of_key (some k) = keyed k

-- what `append_entry` seals with
abbrev pub current_seal : Digests → Seal
current_seal h = seal_of_key h.trail_key

unfoldable pub is_chained : Entry → Bool
unfolding Dict.is_key
is_chained e = Dict.is_key "prev_hash" e || Dict.is_key "entry_hash" e || Dict.is_key "hash_alg" e

-- `prev_hash` of the first chained entry, after the unchained entries `prefix`
unfoldable pub legacy_seal : Digests → List Entry → Seal → String
unfolding digest canonical_list
legacy_seal h [] seal = genesis_hash
legacy_seal h (e ∷ es) seal = digest h (canonical_list (e ∷ es)) seal

abbrev pub last_hash : List Entry → String
last_hash trail = elim (last? trail) [ none ↦ "" | some e ↦ Dict.get_or "entry_hash" e "" ]

-- the fields that an entry brings; `str(v)` is `v`, since they are texts
unfoldable pub stored_fields : Entry → Entry
unfolding Dict.without
stored_fields e = Dict.without "prev_hash" (Dict.without "entry_hash" (Dict.without "hash_alg" e))

-- the entry that `append_entry` stores after `prev`
unfoldable pub seal_entry : Digests → String → Entry → Entry
unfolding stored_fields Dict.set digest canonical_entry
seal_entry h prev e =
    let stored =
      Dict.set "prev_hash" prev (Dict.set "hash_alg" (alg_of (current_seal h)) (stored_fields e)) in
    Dict.set "entry_hash" (digest h (canonical_entry stored) (current_seal h)) stored

unfoldable pub previous_hash : Digests → List Entry → String
previous_hash h trail =
    if any is_chained trail then last_hash trail else legacy_seal h trail (current_seal h)

-- the trail with the entry that is stored at its end
unfoldable pub append_entry : Digests → List Entry → Entry → List Entry
append_entry h trail e = trail ++ seal_entry h (previous_hash h trail) e ∷ []

-- entry count and head hash
unfoldable pub head : List Entry → ℕ × Option String
unfolding Dict.get
head trail = (
  length trail,
  elim (last? trail) [
    | none ↦ none
    | some e ↦ elim (Dict.get "entry_hash" e) [
      | none ↦ none
      | some hash ↦ if hash == "" then none else some hash
    ]
  ],
)

pub data TrailStatus : Type 0 where
  intact legacy_unchained broken truncated unkeyed key_unavailable : TrailStatus
  artifact_changed decision_changed anchor_mismatch : TrailStatus

-- What the loop of `verify_trail` carries from one entry to the next.
pub record Scan : Type 0 where
  pub index : ℕ
  pub expected_prev : Option String
  pub keyed_entries : ℕ
  pub last_plain : Option ℕ

-- the status with which the loop stops, and the `first_broken_index` that it reports
abbrev pub Stop : Type 0
Stop = TrailStatus × Option ℕ

-- what an entry's `hash_alg` asks for: an unknown one breaks the chain
pub data SealAnswer : Type 0 where
  unknown no_key : SealAnswer
  with_seal : Seal → SealAnswer

abbrev pub keyed_answer : Option String → SealAnswer
keyed_answer none = no_key
keyed_answer (some k) = with_seal (keyed k)

abbrev pub answer : Option String → String → SealAnswer
answer key alg =
    if alg == alg_keyed
    then keyed_answer key
    else if alg == alg_plain
    then with_seal plain
    else unknown

unfoldable pub entry_seal : Digests → Entry → SealAnswer
unfolding Dict.get
entry_seal h e = elim (Dict.get "hash_alg" e) [ none ↦ unknown | some alg ↦ answer h.trail_key alg ]

-- the stored hash, unless it is missing or empty
unfoldable pub stored_hash : Entry → Option String
unfolding Dict.get
stored_hash e = elim (Dict.get "entry_hash" e) [
  | none ↦ none
  | some hash ↦ if hash == "" then none else some hash
]

unfoldable pub counted : Seal → String → Scan → Scan
counted plain hash s = record {
  index = suc s.index;
  expected_prev = some hash;
  keyed_entries = s.keyed_entries;
  last_plain = elim s.last_plain [ none ↦ some s.index | some i ↦ some i ];
}
counted (keyed k) hash s = record {
  index = suc s.index;
  expected_prev = some hash;
  keyed_entries = suc s.keyed_entries;
  last_plain = none;
}

module _ (h : Digests) (prefix : List Entry) where
  -- the comparisons of an entry whose hash fields are there
  unfoldable pub check_links : Entry → String → Seal → Scan → Result Stop Scan
  check_links e hash seal s =
      let expected = value_or s.expected_prev (legacy_seal h prefix seal) in
      if not (Dict.get_or "prev_hash" e "" == expected)
      then err (broken, some s.index)
      else if not (digest h (canonical_entry e) seal == hash)
      then err (broken, some s.index)
      else ok (counted seal hash s)

  -- one round of the loop
  unfoldable pub check_entry : Entry → Scan → Result Stop Scan
  check_entry e s = elim (stored_hash e) [
    | none ↦ err (broken, some s.index)
    | some hash ↦ elim (entry_seal h e) [
      | unknown ↦ err (broken, some s.index)
      | no_key ↦ err (key_unavailable, none)
      | with_seal seal ↦ check_links e hash seal s
    ]
  ]

  unfoldable pub scan : List Entry → Scan → Result Stop Scan
  scan [] s = ok s
  scan (e ∷ es) s = check_entry e s >>= λ s'. scan es s'

-- the unchained entries at the start, and the rest
unfoldable pub legacy_prefix : List Entry → List Entry
unfolding is_chained
legacy_prefix [] = []
legacy_prefix (e ∷ es) = let rest = legacy_prefix es in if is_chained e then [] else e ∷ rest

unfoldable pub chained_part : List Entry → List Entry
unfolding is_chained
chained_part [] = []
chained_part (e ∷ es) = let rest = chained_part es in if is_chained e then e ∷ es else rest

abbrev pub scan_start : List Entry → Scan
scan_start prefix = record {
  index = length prefix;
  expected_prev = none;
  keyed_entries = 0;
  last_plain = none;
}

unfoldable pub scan_trail : Digests → List Entry → Result Stop Scan
scan_trail h trail =
    scan h (legacy_prefix trail) (chained_part trail) (scan_start (legacy_prefix trail))

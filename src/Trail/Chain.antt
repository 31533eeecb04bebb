-- ===== src/Trail/Chain.antt =====
-- What the scan of `verify_trail` makes of an entry that `append_entry` has sealed.
use grc_audit_swarm.Base.{
  String, ◌≡◌, refl, sym, ◌∙◌, ap, true, false, Option, none, some, List, [], ◌∷◌, ◌++◌, arith, ok,
  ◌>>=◌, any, value_or, Bool-cases, inl, inr, eq_iff, bind-ok, ◌≢◌, bind-ap, bind_assoc,
  bind_returned, last?, eq-false_of_ne, ◌==◌,
}
use grc_audit_swarm.Dict
use grc_audit_swarm.Dict.{get-set, get-without, without-set}
use grc_audit_swarm.Trail.{
  head, Digests, Entry, Scan, scan, check_entry, scan_trail, seal_entry, append_entry, is_chained,
  legacy_prefix, chained_part, scan_start, current_seal, previous_hash, counted, digest, alg_of,
  canonical_entry, stored_fields, Seal, entry_seal, legacy_seal, stored_hash, keyed, with_seal,
  plain, answer, check_links, seal_of_key, last_hash,
}

module _ (h : Digests) (prefix : List Entry) where
  pub scan-append :
      (es : List Entry) (e : Entry) (s : Scan)
      → scan h prefix (es ++ e ∷ []) s ≡ (scan h prefix es s >>= λ t. check_entry h prefix e t)
  unfolding scan
  scan-append [] e s = bind-ok (check_entry h prefix e s)
  scan-append (x ∷ es) e s =
      bind-ap (check_entry h prefix x s) (scan-append es e)
      ∙ sym (bind_assoc (check_entry h prefix x s) (scan h prefix es) (check_entry h prefix e))

-- hashlib's hex digests are never empty
pub record NonBlank (h : Digests) : Type 0 where
  pub sha256 : (x : String) → h.sha256 x ≢ ""
  pub hmac_sha256 : (k x : String) → h.hmac_sha256 k x ≢ ""

answer-alg_of :
    (key : Option String) → answer key (alg_of (seal_of_key key)) ≡ with_seal (seal_of_key key)
answer-alg_of none = refl
answer-alg_of (some k) = refl

-- What the checks of an entry come to, from its three fields.
module _ (h : Digests) (x : Entry) where
  is_chained-of_prev : (p : String) → Dict.get "prev_hash" x ≡ some p → is_chained x ≡ true
  unfolding is_chained
  is_chained-of_prev p e = ground arith

  stored_hash-of_get :
      (hash : String) → Dict.get "entry_hash" x ≡ some hash → hash ≢ "" → stored_hash x ≡ some hash
  unfolding stored_hash
  stored_hash-of_get hash e n = ground (arith, eq_iff hash "")

  entry_seal-of_get :
      Dict.get "hash_alg" x ≡ some (alg_of (current_seal h))
      → entry_seal h x ≡ with_seal (current_seal h)
  unfolding entry_seal
  entry_seal-of_get e = cc (answer-alg_of h.trail_key)

  check_entry-of_fields :
      (prefix : List Entry) (s : Scan) (hash : String) (seal : Seal)
      → stored_hash x ≡ some hash
      → entry_seal h x ≡ with_seal seal
      → Dict.get "prev_hash" x ≡ some (value_or s.expected_prev (legacy_seal h prefix seal))
      → digest h (canonical_entry x) seal ≡ hash
      → check_entry h prefix x s ≡ ok (counted seal hash s)
  unfolding check_entry check_links Dict.get_or
  check_entry-of_fields prefix s hash seal a b c d = ground (
    arith,
    eq_iff (value_or s.expected_prev (legacy_seal h prefix seal))
        (value_or s.expected_prev (legacy_seal h prefix seal)),
    eq_iff hash hash,
  )

digest-ne : (h : Digests) → NonBlank h → (x : String) (s : Seal) → digest h x s ≢ ""
unfolding digest
digest-ne h n x plain = n.sha256 x
digest-ne h n x (keyed k) = n.hmac_sha256 k x

module _ (h : Digests) (prev : String) (e : Entry) where
  abbrev sealed : Entry
  sealed = seal_entry h prev e

  abbrev unsealed : Entry
  unsealed =
      Dict.set "prev_hash" prev (Dict.set "hash_alg" (alg_of (current_seal h)) (stored_fields e))

  sealed-prev : Dict.get "prev_hash" sealed ≡ some prev
  unfolding seal_entry
  sealed-prev = simp (get-set)

  sealed-alg : Dict.get "hash_alg" sealed ≡ some (alg_of (current_seal h))
  unfolding seal_entry
  sealed-alg = simp (get-set)

  sealed-hash :
      Dict.get "entry_hash" sealed ≡ some (digest h (canonical_entry sealed) (current_seal h))
  unfolding seal_entry canonical_entry
  sealed-hash = simp (get-set, without-set)

  -- the hash that the entry stores
  abbrev pub new_hash : String
  new_hash = digest h (canonical_entry sealed) (current_seal h)

  sealed-IsChained : is_chained sealed ≡ true
  sealed-IsChained = is_chained-of_prev h sealed prev sealed-prev

  check_entry-sealed :
      (prefix : List Entry) (s : Scan)
      → NonBlank h
      → value_or s.expected_prev (legacy_seal h prefix (current_seal h)) ≡ prev
      → check_entry h prefix sealed s ≡ ok (counted (current_seal h) new_hash s)
  check_entry-sealed prefix s n e =
      check_entry-of_fields h sealed prefix s new_hash (current_seal h)
        (stored_hash-of_get h sealed new_hash sealed-hash
          (digest-ne h n (canonical_entry sealed) (current_seal h)))
        (entry_seal-of_get h sealed sealed-alg) (sealed-prev ∙ ap some (sym e)) refl

-- What a scan expects of the entry that comes next.
module _ (h : Digests) (prefix : List Entry) where
  abbrev expected_after : List Entry → Scan → Option String
  expected_after [] s = s.expected_prev
  expected_after (x ∷ xs) s = some (last_hash (x ∷ xs))

  check_entry-expected :
      (x : Entry) (s t : Scan)
      → check_entry h prefix x s ≡ ok t
      → t.expected_prev ≡ some (Dict.get_or "entry_hash" x "")
  unfolding check_entry check_links stored_hash counted Dict.get_or
  check_entry-expected x s t e = ground arith

  scan-expected :
      (xs : List Entry) (s t : Scan)
      → scan h prefix xs s ≡ ok t
      → t.expected_prev ≡ expected_after xs s
  unfolding scan
  scan-expected [] s t e = cc
  scan-expected (x ∷ []) s t e =
      check_entry-expected x s t (sym (bind-ok (check_entry h prefix x s)) ∙ e)
  scan-expected (x ∷ y ∷ xs) s t e =
      let (u, _, rest) = bind_returned (check_entry h prefix x s) (scan h prefix (y ∷ xs)) e in
      scan-expected (y ∷ xs) u t rest

-- Where the legacy entries of a longer trail end.
module _ (x : Entry) (chained : is_chained x ≡ true) where
  legacy_prefix-append :
      (trail : List Entry) → legacy_prefix (trail ++ x ∷ []) ≡ legacy_prefix trail
  unfolding legacy_prefix
  legacy_prefix-append [] = rw chained
  legacy_prefix-append (e ∷ es) = ground (arith, legacy_prefix-append es)

  chained_part-append :
      (trail : List Entry) → chained_part (trail ++ x ∷ []) ≡ chained_part trail ++ x ∷ []
  unfolding chained_part
  chained_part-append [] = rw chained
  chained_part-append (e ∷ es) = elim (Bool-cases (is_chained e)) [
    | inl yes_chained ↦ rw yes_chained
    | inr not_chained ↦ rw not_chained (chained_part-append es)
  ]

chained_part-nil :
    (trail : List Entry)
    → any is_chained trail ≡ false
    → (chained_part trail ≡ []) × (legacy_prefix trail ≡ trail)
unfolding chained_part legacy_prefix
chained_part-nil [] e = (refl, refl)
chained_part-nil (x ∷ xs) e = ground (arith, chained_part-nil xs)

last_hash-chained_part :
    (trail : List Entry)
    → any is_chained trail ≡ true
    → (y : Entry) × (ys : List Entry) × (chained_part trail ≡ y ∷ ys)
      × (last_hash (y ∷ ys) ≡ last_hash trail)
unfolding chained_part
last_hash-chained_part [] e = cc
last_hash-chained_part (x ∷ []) e = elim (Bool-cases (is_chained x)) [
  | inl c ↦ (x, [], rw c, refl)
  | inr c ↦ cc
]
last_hash-chained_part (x ∷ z ∷ xs) e = elim (Bool-cases (is_chained x)) [
  | inl c ↦ (x, z ∷ xs, rw c, refl)
  | inr c ↦
      let (y, ys, part, last) = last_hash-chained_part (z ∷ xs) (rw c at e) in
      (y, ys, rw c part, last)
]

module _ (h : Digests) (trail : List Entry) where
  abbrev legacy : List Entry
  legacy = legacy_prefix trail

  previous_hash-expected :
      value_or
        (expected_after h legacy (chained_part trail) (scan_start legacy))
        (legacy_seal h legacy (current_seal h))
      ≡ previous_hash h trail
  unfolding previous_hash
  previous_hash-expected = elim (Bool-cases (any is_chained trail)) [
    | inl c ↦ let (y, ys, part, last) = last_hash-chained_part trail c in rw (c, part) last
    | inr c ↦ let (part, all) = chained_part-nil trail c in rw (c, part) (rw all refl)
  ]

  -- the entry that `append_entry` stores
  abbrev pub appended : Entry → Entry
  appended e = seal_entry h (previous_hash h trail) e

  pub scan_trail-append :
      (e : Entry) (s : Scan)
      → NonBlank h
      → scan_trail h trail ≡ ok s
      → scan_trail h (append_entry h trail e)
        ≡ ok (counted (current_seal h) (new_hash h (previous_hash h trail) e) s)
  unfolding scan_trail append_entry
  scan_trail-append e s n ok_s =
      let chained = sealed-IsChained h (previous_hash h trail) e in
      rw (legacy_prefix-append _ chained trail, chained_part-append _ chained trail)
        (scan-append h legacy (chained_part trail) (appended e) (scan_start legacy)
          ∙ ap (λ r. r >>= check_entry h legacy (appended e)) ok_s
          ∙ check_entry-sealed h (previous_hash h trail) e legacy s n (
              ap (λ o. value_or o (legacy_seal h legacy (current_seal h)))
                (scan-expected h legacy (chained_part trail) (scan_start legacy) s ok_s)
              ∙ previous_hash-expected))

  pub chained_part-append_entry :
      (e : Entry) → chained_part (append_entry h trail e) ≡ chained_part trail ++ appended e ∷ []
  unfolding append_entry
  chained_part-append_entry e =
      chained_part-append _ (sealed-IsChained h (previous_hash h trail) e) trail

  last?-append : (es : List Entry) (x : Entry) → last? (es ++ x ∷ []) ≡ some x
  last?-append [] x = refl
  last?-append (e ∷ []) x = refl
  last?-append (e ∷ d ∷ es) x = last?-append (d ∷ es) x

  -- the head of a trail is the hash of the entry appended last
  pub head-append_entry :
      (e : Entry)
      → NonBlank h
      → (head (append_entry h trail e)).1 ≡ some (new_hash h (previous_hash h trail) e)
  unfolding head append_entry
  head-append_entry e n =
      let hash = new_hash h (previous_hash h trail) e in
      let stored = sealed-hash h (previous_hash h trail) e in
      let shown : (hash == "") ≡ false =
        eq-false_of_ne hash "" (digest-ne h n _ (current_seal h)) in
      rw (last?-append trail (appended e), head, stored, shown) refl

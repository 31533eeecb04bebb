-- ===== src/Sessions/Forward.antt =====
-- Anchors only move forward, along the same chain.
use grc_audit_swarm.Base.{
  ◌-◌, ◌≤◌, String, ◌≡◌, ◌≢◌, refl, Bool, true, false, inl, inr, Option, none, some, List, [], ◌∷◌,
  ◌==◌, ltb, eqb, get_elem?, value_or, Result, ok, ◌>>=◌, if◌then◌else◌, arith, eq_iff, length,
  Bool-cases, Option-cases, bind_returned, last?, suc, get_elem?-end, subst,
}
use grc_audit_swarm.Dict
use grc_audit_swarm.Store.{lookup, assign, lookup-assign}
use grc_audit_swarm.Trail.{Digests, Entry, head}
use grc_audit_swarm.Trail.Verify.{Anchor, verify_trail, hash_at, anchor_check, live_anchor}
use grc_audit_swarm.Sessions.{
  StoredAnchor, Anchors, AnchorsFile, missing, unreadable, holds, AnchorsUnreadable, load_anchors,
  get_trail_anchor, no_anchor, verifies, follows, settle, move_anchor, save_trail_anchor,
}

-- the session's anchor, or the empty one
abbrev pub anchor_at : String → AnchorsFile → StoredAnchor
anchor_at thread_id file = value_or (get_trail_anchor thread_id file) no_anchor

-- the anchor as `verify_trail` takes it
abbrev pub as_anchor : StoredAnchor → Anchor
as_anchor a = record { count = a.count; head_hash = a.head_hash }

-- What a call for one session's trail makes of the anchors.
pub record Forward (thread_id : String) (trail : List Entry) (file : AnchorsFile) (accepted : Bool)
    (file' : AnchorsFile) : Type 0 where
  pub others : (j : String) → thread_id ≢ j → get_trail_anchor j file' ≡ get_trail_anchor j file
  pub unwritten : accepted ≡ false → file' ≡ file
  pub grows : (anchor_at thread_id file).count ≤ (anchor_at thread_id file').count
  pub was_kept :
      accepted ≡ true
      → anchor_check trail (live_anchor (some (as_anchor (anchor_at thread_id file)))) ≡ none
  pub covers : accepted ≡ true → (anchor_at thread_id file').count ≡ length trail
  pub fits :
      accepted ≡ true
      → anchor_check trail (live_anchor (some (as_anchor (anchor_at thread_id file')))) ≡ none

follows-anchor_check :
    (a : StoredAnchor) (trail : List Entry)
    → a.count ≤ length trail
    → follows a trail ≡ true
    → anchor_check trail (live_anchor (some (as_anchor a))) ≡ none
unfolding follows anchor_check
follows-anchor_check a trail le h = elim (Bool-cases (eqb a.count 0)) [
  | inl b ↦ rw b refl
  | inr b ↦
      let short : ltb (length trail) a.count ≡ false = ground arith in
      let same : (hash_at (get_elem? trail (a.count - 1)) == a.head_hash) ≡ true = rw b at h in
      rw (b, short, same) refl
]

last-hash_at :
    (e : Option Entry) (hash : String)
    → ◌≡◌ {A = Option String}
        (elim e [
          | none ↦ none
          | some e ↦ elim (Dict.get "entry_hash" e) [
            | none ↦ none
            | some hash ↦ if hash == "" then none else some hash
          ]
        ])
        (some hash)
    → hash_at e ≡ hash
unfolding Dict.get_or
last-hash_at none hash h = cc
last-hash_at (some e) hash h = elim (Option-cases (Dict.get "entry_hash" e)) [
  | inl n ↦ let never : none ≡ some hash = rw n at h in absurd cc
  | inr (hash', e') ↦
      let same : (if hash' == "" then none else some hash') ≡ some hash = rw e' at h in
      rw (e', Dict.get_or) (ground (arith, eq_iff hash' ""))
]

-- the head's hash is that of the last entry
head-hash_at :
    (trail : List Entry) (hash : String)
    → (head trail).1 ≡ some hash
    → hash_at (get_elem? trail (length trail - 1)) ≡ hash
unfolding head Dict.get_or
head-hash_at [] hash h = cc
head-hash_at (x ∷ xs) hash h =
    let last_index : suc (length xs) - 1 ≡ length xs = omega arith in
    rw (last_index, get_elem?-end x xs) (last-hash_at (last? (x ∷ xs)) hash h)

refused-Forward :
    (thread_id : String) (trail : List Entry) (file : AnchorsFile)
    → Forward thread_id trail file false file
refused-Forward thread_id trail file = record {
  others = λ j ne. refl;
  unwritten = λ e. refl;
  grows = omega arith;
  was_kept = λ e. absurd cc;
  covers = λ e. absurd cc;
  fits = λ e. absurd cc;
}

current-Forward :
    (thread_id : String) (trail : List Entry) (file : AnchorsFile)
    → follows (anchor_at thread_id file) trail ≡ true
    → (anchor_at thread_id file).count ≡ length trail
    → Forward thread_id trail file true file
current-Forward thread_id trail file on covered =
    let fits = follows-anchor_check (anchor_at thread_id file) trail (omega arith) on in
    record {
      others = λ j ne. refl;
      unwritten = λ e. refl;
      grows = omega arith;
      was_kept = λ e. fits;
      covers = λ e. covered;
      fits = λ e. fits;
    }

head-follows :
    (trail : List Entry) (new : StoredAnchor)
    → (head trail).1 ≡ some new.head_hash
    → new.count ≡ length trail
    → follows new trail ≡ true
unfolding follows
head-follows trail new top covered =
    rw (covered, head-hash_at trail new.head_hash top)
      (ground (arith, eq_iff new.head_hash new.head_hash))

-- the file after an anchor is written
moved-Forward :
    (thread_id : String) (trail : List Entry) (file : AnchorsFile) (anchors : Anchors)
    (new : StoredAnchor)
    → ((j : String) → get_trail_anchor j file ≡ lookup j anchors)
    → (anchor_at thread_id file).count ≤ length trail
    → follows (anchor_at thread_id file) trail ≡ true
    → (head trail).1 ≡ some new.head_hash
    → new.count ≡ length trail
    → Forward thread_id trail file true (holds (assign thread_id new anchors))
unfolding get_trail_anchor
moved-Forward thread_id trail file anchors new same le on top covered =
    let here : anchor_at thread_id (holds (assign thread_id new anchors)) ≡ new =
      rw (lookup-assign thread_id thread_id new anchors)
        (ground (arith, eq_iff thread_id thread_id)) in
    let on_new : follows new trail ≡ true = head-follows trail new top covered in
    record {
      others = λ j ne.
          rw (lookup-assign thread_id j new anchors, same j) (ground (arith, eq_iff thread_id j));
      unwritten = λ e. absurd cc;
      grows = rw here (omega arith);
      was_kept = λ e. follows-anchor_check (anchor_at thread_id file) trail le on;
      covers = λ e. rw here covered;
      fits = λ e. rw here (follows-anchor_check new trail (omega arith) on_new);
    }

module _ (h : Digests) (now : String) where
  move_anchor-Forward :
      (thread_id : String) (trail : List Entry) (hash : String) (file file' : AnchorsFile)
      (anchors : Anchors) (accepted : Bool)
      → ((j : String) → get_trail_anchor j file ≡ lookup j anchors)
      → (head trail).1 ≡ some hash
      → settle file
          (move_anchor h now thread_id trail (length trail) hash (anchor_at thread_id file) anchors)
        ≡ (accepted, file')
      → Forward thread_id trail file accepted file'
  unfolding settle move_anchor
  move_anchor-Forward thread_id trail hash file file' anchors accepted same top e =
      let stored = anchor_at thread_id file in
      let as_is = λ (o : Bool × AnchorsFile). Forward thread_id trail file o.0 o.1 in
      elim (Bool-cases (ltb (length trail) stored.count)) [
        | inl b ↦ subst as_is (rw b at e) (refused-Forward thread_id trail file)
        | inr b ↦ elim (Bool-cases (follows stored trail)) [
          | inr off ↦ subst as_is (rw (b, off) at e) (refused-Forward thread_id trail file)
          | inl on ↦ elim (Bool-cases (eqb (length trail) stored.count)) [
            | inl c ↦
                subst as_is (rw (b, on, c) at e)
                  (current-Forward thread_id trail file on (ground arith))
            | inr c ↦ elim (Bool-cases (verifies (verify_trail h trail none none none).status)) [
              | inr v ↦ subst as_is (rw (b, on, c, v) at e) (refused-Forward thread_id trail file)
              | inl v ↦ subst as_is (rw (b, on, c, v) at e) (
                  moved-Forward thread_id trail file anchors
                    (record { count = length trail; head_hash = hash; updated_at = now }) same
                    (ground arith) on top refl)
            ]
          ]
        ]
      ]

  pub load_anchors-lookup :
      (file : AnchorsFile) (anchors : Anchors)
      → load_anchors file ≡ ok anchors
      → (j : String) → get_trail_anchor j file ≡ lookup j anchors
  unfolding load_anchors get_trail_anchor lookup
  load_anchors-lookup missing anchors e j =
      let none_there : [] ≡ anchors = cc in rw (← none_there) refl
  load_anchors-lookup unreadable anchors e j = cc
  load_anchors-lookup (holds held) anchors e j =
      let all_there : held ≡ anchors = cc in rw all_there refl

  -- `save_trail_anchor` changes no other session's anchor, and when it refuses a trail nothing is
  -- written. The count of the anchor never decreases. A trail is accepted only if it fits the anchor
  -- there was, and then the anchor covers the whole trail and the trail fits it.
  pub save_trail_anchor-Forward :
      (thread_id : String) (trail : List Entry) (file file' : AnchorsFile) (accepted : Bool)
      → save_trail_anchor h now thread_id trail file ≡ ok (accepted, file')
      → Forward thread_id trail file accepted file'
  unfolding save_trail_anchor head
  save_trail_anchor-Forward thread_id trail file file' accepted e =
      let as_is = λ (o : Bool × AnchorsFile). Forward thread_id trail file o.0 o.1 in
      elim (Option-cases (head trail).1) [
        | inl n ↦
            let out : ◌≡◌ {A = Result AnchorsUnreadable (Bool × AnchorsFile)} (ok (false, file))
                (ok (accepted, file')) =
              rw (n, save_trail_anchor) at e in
            let pair : ◌≡◌ {A = Bool × AnchorsFile} (false, file) (accepted, file') = cc in
            subst as_is pair (refused-Forward thread_id trail file)
        | inr (hash, top) ↦
            let run : (load_anchors file >>= λ anchors. ok (
                  settle file (
                    move_anchor h now thread_id trail (length trail) hash
                      (value_or (lookup thread_id anchors) no_anchor) anchors)))
                ≡ ok (accepted, file') =
              rw (top, save_trail_anchor) at e in
            let (anchors, loaded, out) = bind_returned (load_anchors file) _ run in
            let same = load_anchors-lookup file anchors loaded in
            let pair : settle file (
                  move_anchor h now thread_id trail (length trail) hash
                    (value_or (lookup thread_id anchors) no_anchor) anchors)
                ≡ (accepted, file') =
              cc in
            move_anchor-Forward thread_id trail hash file file' anchors accepted same top
              (rw (same thread_id) pair)
      ]

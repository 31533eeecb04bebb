-- ===== src/Sessions/Writes.antt =====
-- What the writers of the sessions file leave of the sessions.
use grc_audit_swarm.Base.{
  ◌==◌, if◌then◌else◌, Bool-cases, String, ◌≡◌, ◌≢◌, refl, ap, ◌∙◌, Bool, true, false, inl, inr,
  Option, some, none, List, ◌∷◌, is_some, arith, eq_iff, Option-cases, Bool-cases, [],
}
use grc_audit_swarm.Json.{Items, Json}
use grc_audit_swarm.Store.{lookup, assign, lookup-assign, lookup-discard}
use grc_audit_swarm.Sessions.{
  Session, SessionsFile, no_file, corrupt, sessions, Disk, load, update_fields, save_session,
  update_session, delete_session, get_session,
}

-- a call that writes the sessions file
pub data Write : Type 0 where
  save : (now thread_id name scope_text : String) → Option Items → Session → Write
  update : (thread_id : String) → Session → Write
  delete : (thread_id : String) → Write

abbrev pub subject : Write → String
subject (save _ thread_id _ _ _ _) = thread_id
subject (update thread_id _) = thread_id
subject (delete thread_id) = thread_id

abbrev pub write : Write → Disk → Disk
write (save now thread_id name scope_text chat_history extra) disk =
    save_session now thread_id name scope_text chat_history extra disk
write (update thread_id fields) disk = (update_session thread_id fields disk).1
write (delete thread_id) disk = delete_session thread_id disk

-- the content of a file that cannot be parsed is moved aside, and no backup is lost
abbrev pub Saved : SessionsFile → List String → List String → Type 0
Saved (corrupt content) before after = after ≡ content ∷ before
Saved _ before after = after ≡ before

-- What a write leaves: every other session, and a corrupt file's content.
pub record Kept (w : Write) (disk : Disk) : Type 0 where
  pub others : (j : String) → subject w ≢ j → get_session j (write w disk) ≡ get_session j disk
  pub nothing_lost : Saved disk.file disk.backups (write w disk).backups

load-Saved : (disk : Disk) → Saved disk.file disk.backups (load disk).1.backups
unfolding load
load-Saved disk =
    elim disk.file as (λ f. Saved f disk.backups (load (record disk { file = f })).1.backups) [
      | no_file ↦ refl
      | corrupt content ↦ refl
      | sessions map ↦ refl
    ]

-- loading moves a corrupt file aside, and reads the same sessions again
load-again : (disk : Disk) (j : String) → get_session j (load disk).1 ≡ get_session j disk
unfolding load get_session lookup
load-again disk j =
    elim disk.file
      as (λ f.
        get_session j (load (record disk { file = f })).1
        ≡ get_session j (record disk { file = f })) [
          | no_file ↦ refl
          | corrupt content ↦ refl
          | sessions map ↦ refl
        ]

-- the last of the fields with a key
abbrev pub last_value : String → Session → Option Json
last_value k [] = none
last_value k ((j, v) ∷ fields) = elim (last_value k fields) [
  | some w ↦ some w
  | none ↦ if j == k then some v else none
]

-- a key of a session, if there is the session and it has the key
abbrev pub field_of : String → Option Session → Option Json
field_of k none = none
field_of k (some entry) = lookup k entry

abbrev pub first_of : Option Json → Option Json → Option Json
first_of (some v) other = some v
first_of none other = other

-- A merge of the fields: the session is there as before, and has the last value that the fields give
-- a key, and its own value of any other.
abbrev pub Merged : Session → Option Session → Option Session → Type 0
Merged fields none after = after ≡ none
Merged fields (some entry) after =
    (is_some after ≡ true)
    × ((k : String) → field_of k after ≡ first_of (last_value k fields) (lookup k entry))

lookup-update_fields :
    (k : String) (entry fields : Session)
    → lookup k (update_fields entry fields) ≡ first_of (last_value k fields) (lookup k entry)
unfolding update_fields
lookup-update_fields k entry [] = refl
lookup-update_fields k entry ((j, v) ∷ fields) = elim (Option-cases (last_value k fields)) [
  | inl absent ↦
      let later = lookup-update_fields k (assign j v entry) fields in
      let e : lookup k (update_fields (assign j v entry) fields) ≡ lookup k (assign j v entry) =
        rw absent at later in
      elim (Bool-cases (j == k)) [
        | inl same ↦ rw (absent, same) (e ∙ (lookup-assign j k v entry ∙ rw same refl))
        | inr other ↦ rw (absent, other) (e ∙ (lookup-assign j k v entry ∙ rw other refl))
      ]
  | inr (w, found) ↦
      let later = lookup-update_fields k (assign j v entry) fields in rw found (rw found at later)
]

module _ (thread_id : String) (fields : Session) (disk : Disk) where
  update_session-absent :
      lookup thread_id (load disk).0 ≡ none
      → update_session thread_id fields disk ≡ (false, (load disk).1)
  unfolding update_session
  update_session-absent n = rw (n, update_session) refl

  update_session-present :
      (entry : Session)
      → lookup thread_id (load disk).0 ≡ some entry
      → update_session thread_id fields disk ≡ (
        true,
        record (load disk).1 {
          file = sessions (assign thread_id (update_fields entry fields) (load disk).0);
        },
      )
  unfolding update_session
  update_session-present entry e = rw (e, update_session) refl

  -- `update_session` says whether the session exists. If it does, the session then has the last value
  -- that the fields give a key, and its own value of every other; an unknown session is not created.
  pub update_session-existing :
      ((update_session thread_id fields disk).0 ≡ is_some (get_session thread_id disk))
      × Merged fields
          (get_session thread_id disk)
          (get_session thread_id (update_session thread_id fields disk).1)
  unfolding get_session load
  update_session-existing = elim (Option-cases (lookup thread_id (load disk).0)) [
    | inl n ↦ rw (update_session-absent n, n) (refl, load-again disk thread_id ∙ n)
    | inr (entry, e) ↦
        let stored : lookup thread_id (assign thread_id (update_fields entry fields) (load disk).0)
            ≡ some (update_fields entry fields) =
          lookup-assign thread_id thread_id (update_fields entry fields) (load disk).0
          ∙ ground (arith, eq_iff thread_id thread_id) in
        rw (update_session-present entry e, e)
          (refl, (rw stored (refl, λ k. lookup-update_fields k entry fields)))
  ]

-- Saving, updating or deleting a session leaves every other session as it was, and the content of a
-- sessions file that cannot be parsed is moved aside, never lost.
pub write-Kept : (w : Write) (disk : Disk) → Kept w disk
unfolding save_session delete_session get_session load
write-Kept (save now thread_id name scope_text chat_history extra) disk = record {
  others =
      λ j ne. rw (lookup-assign thread_id j _ (load disk).0) (ground (arith, eq_iff thread_id j));
  nothing_lost = load-Saved disk;
}
write-Kept (update thread_id fields) disk = elim (Option-cases (lookup thread_id (load disk).0)) [
  | inl n ↦ record {
    others = λ j ne.
        ap (λ (r : Bool × Disk). get_session j r.1) (update_session-absent thread_id fields disk n)
        ∙ load-again disk j;
    nothing_lost = rw (write, update_session-absent thread_id fields disk n) (load-Saved disk);
  }
  | inr (entry, e) ↦ record {
    others = λ j ne.
        rw
          (
            write,
            update_session-present thread_id fields disk entry e,
            lookup-assign thread_id j (update_fields entry fields) (load disk).0,
          )
          (ground (arith, eq_iff thread_id j));
    nothing_lost =
        rw (write, update_session-present thread_id fields disk entry e) (load-Saved disk);
  }
]
write-Kept (delete thread_id) disk = record {
  others =
      λ j ne. rw (lookup-discard thread_id j (load disk).0) (ground (arith, eq_iff thread_id j));
  nothing_lost = load-Saved disk;
}

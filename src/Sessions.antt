-- ===== src/Sessions.antt =====
-- src/swarm/session_manager.py: the sessions file and the file of the trails' anchors. A file that
-- cannot be read for another reason than its content raises in the program, and is not modelled.
pub mod Forward
pub mod Followed
pub mod Writes
mod Samples
use grc_audit_swarm.Base.{
  ℕ, ◌-◌, String, Bool, true, false, not, ◌&&◌, Option, none, some, List, [], ◌∷◌, ◌==◌, ltb, eqb,
  get_elem?, is_some, value_or, Result, err, ok, ◌>>=◌, if◌then◌else◌, suc, ◌||◌, zero,
}
use grc_audit_swarm.Store.{lookup, assign, discard}
use grc_audit_swarm.Json.{Json, Items, text, array, nil, item}
use grc_audit_swarm.Trail.{Digests, Entry, TrailStatus, broken, key_unavailable, head}
use grc_audit_swarm.Trail.Verify.{Verdict, Anchor, verify_trail, hash_at}

-- An entry of the anchors file as it is read: a count that is no number, or negative, is 0.
pub record StoredAnchor : Type 0 where
  pub count : ℕ
  pub head_hash : String
  pub updated_at : String

abbrev pub Anchors : Type 0
Anchors = List (String × StoredAnchor)

-- a file whose JSON is no object reads as missing
pub data AnchorsFile : Type 0 where
  missing unreadable : AnchorsFile
  holds : Anchors → AnchorsFile

-- a session's fields
abbrev pub Session : Type 0
Session = List (String × Json)

pub data SessionsFile : Type 0 where
  no_file : SessionsFile
  corrupt : String → SessionsFile
  sessions : List (String × Session) → SessionsFile

-- what the module keeps on disk, with the corrupt files that were moved aside
pub record Disk : Type 0 where
  pub file : SessionsFile
  pub backups : List String
  pub anchors : AnchorsFile

-- what reading an unreadable anchors file raises
pub data AnchorsUnreadable : Type 0 where
  anchors_unreadable : AnchorsUnreadable

-- `_load_anchors`
unfoldable pub load_anchors : AnchorsFile → Result AnchorsUnreadable Anchors
load_anchors missing = ok []
load_anchors unreadable = err anchors_unreadable
load_anchors (holds anchors) = ok anchors

-- `get_trail_anchor`
unfoldable pub get_trail_anchor : String → AnchorsFile → Option StoredAnchor
unfolding lookup
get_trail_anchor thread_id missing = none
get_trail_anchor thread_id unreadable = none
get_trail_anchor thread_id (holds anchors) = lookup thread_id anchors

abbrev pub no_anchor : StoredAnchor
no_anchor = record { count = 0; head_hash = ""; updated_at = "" }

-- a check that neither fails nor lacks its key
abbrev pub verifies : TrailStatus → Bool
verifies broken = false
verifies key_unavailable = false
verifies _ = true

-- whether the entry at the anchored position is the anchored head
unfoldable pub follows : StoredAnchor → List Entry → Bool
follows current trail =
    eqb current.count 0 || hash_at (get_elem? trail (current.count - 1)) == current.head_hash

-- what becomes of the anchors: nothing, since the trail is refused or its anchor current, or a write
pub data Move : Type 0 where
  refused current : Move
  moved : Anchors → Move

unfoldable pub settle : AnchorsFile → Move → Bool × AnchorsFile
settle file refused = (false, file)
settle file current = (true, file)
settle file (moved anchors) = (true, holds anchors)

module _ (h : Digests) (now : String) where
  -- `save_trail_anchor` once the trail's head and the stored anchor are known
  unfoldable pub move_anchor : String → List Entry → ℕ → String → StoredAnchor → Anchors → Move
  unfolding follows assign
  move_anchor thread_id trail count head_hash stored anchors =
      if ltb count stored.count
      then refused
      else if not (follows stored trail)
      then refused
      else if eqb count stored.count
      then current
      else if not (verifies (verify_trail h trail none none none).status)
      then refused
      else moved (
          assign thread_id (record { count = count; head_hash = head_hash; updated_at = now })
            anchors)

  unfoldable pub save_trail_anchor :
      String → List Entry → AnchorsFile → Result AnchorsUnreadable (Bool × AnchorsFile)
  unfolding head load_anchors move_anchor settle lookup
  save_trail_anchor thread_id trail file = elim (head trail).1 [
    | none ↦ ok (false, file)
    | some head_hash ↦ load_anchors file >>= λ anchors. ok (
        settle file (
          move_anchor thread_id trail (head trail).0 head_hash
            (value_or (lookup thread_id anchors) no_anchor) anchors))
  ]

-- `_load`: a corrupt file is moved aside first
unfoldable pub load : Disk → List (String × Session) × Disk
load disk = elim disk.file [
  | no_file ↦ ([], disk)
  | corrupt content ↦ ([], record disk { file = no_file; backups = content ∷ disk.backups })
  | sessions map ↦ (map, disk)
]

-- `text[:n]`
unfoldable pub first_characters : ℕ → String → String
first_characters zero s = ""
first_characters (suc n) String.[] = ""
first_characters (suc n) (String.◌∷◌ c s) = String.◌∷◌ c (first_characters n s)

-- `entry.update(fields)`
unfoldable pub update_fields : Session → Session → Session
unfolding assign
update_fields entry [] = entry
update_fields entry ((k, v) ∷ fields) = update_fields (assign k v entry) fields

-- `chat_history or entry.get("chat_history", [])`
unfoldable pub chat_or_kept : Option Items → Session → Json
unfolding lookup
chat_or_kept (some (item v vs)) entry = array (item v vs)
chat_or_kept _ entry = value_or (lookup "chat_history" entry) (array nil)

-- `entry.setdefault(key, value)`
unfoldable pub set_default : String → Json → Session → Session
unfolding lookup assign
set_default key value entry = if is_some (lookup key entry) then entry else assign key value entry

-- the entry that `save_session` stores, at the time `now`
unfoldable pub saved_entry : String → String → String → Option Items → Session → Session → Session
unfolding set_default update_fields chat_or_kept first_characters
saved_entry now name scope_text chat_history extra entry =
    let kept = set_default "created_at" (text now) entry in
    update_fields
      (update_fields kept (
        ("name", text name)
        ∷ ("scope_preview", text (first_characters 200 scope_text))
        ∷ ("scope_text", text scope_text)
        ∷ ("chat_history", chat_or_kept chat_history kept)
        ∷ []))
      extra

unfoldable pub save_session :
    String → String → String → String → Option Items → Session → Disk → Disk
unfolding load saved_entry lookup assign
save_session now thread_id name scope_text chat_history extra disk =
    let (map, disk') = load disk in
    record disk' {
      file = sessions (
          assign thread_id
            (saved_entry now name scope_text chat_history extra
              (value_or (lookup thread_id map) []))
            map);
    }

unfoldable pub update_session : String → Session → Disk → Bool × Disk
unfolding load update_fields lookup assign
update_session thread_id fields disk =
    let (map, disk') = load disk in
    elim (lookup thread_id map) [
      | none ↦ (false, disk')
      | some entry ↦ (
        true,
        record disk' { file = sessions (assign thread_id (update_fields entry fields) map) },
      )
    ]

unfoldable pub without_anchor : String → AnchorsFile → AnchorsFile
unfolding lookup discard
without_anchor thread_id missing = missing
without_anchor thread_id unreadable = unreadable
without_anchor thread_id (holds anchors) =
    if is_some (lookup thread_id anchors) then holds (discard thread_id anchors) else holds anchors

unfoldable pub delete_session : String → Disk → Disk
unfolding load discard without_anchor
delete_session thread_id disk =
    let (map, disk') = load disk in
    record disk' {
      file = sessions (discard thread_id map);
      anchors = without_anchor thread_id disk'.anchors;
    }

unfoldable pub get_session : String → Disk → Option Session
unfolding load lookup
get_session thread_id disk = lookup thread_id (load disk).0

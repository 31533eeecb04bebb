-- ===== src/Sessions/Samples.antt =====
-- A trail that grows, its anchor, and a sessions file that cannot be parsed.
use grc_audit_swarm.Base.{
  length, ◌≤◌, ◌≡◌, refl, true, false, List, [], ◌∷◌, none, ok, arith, is_some,
}
use grc_audit_swarm.Json.{text}
use grc_audit_swarm.Trail.{
  head, is_chained, legacy_seal, seal_entry, previous_hash, Entry, append_entry,
}
use grc_audit_swarm.Trail.Samples.{digests, digests-NonBlank, trail, trail_scan, trail-scan, entry}
use grc_audit_swarm.Trail.Intact.{append_all}
use grc_audit_swarm.Sessions.{
  AnchorsFile, missing, holds, Disk, corrupt, sessions, save_trail_anchor, update_session,
  get_session, follows, load_anchors, get_trail_anchor,
}
use grc_audit_swarm.Sessions.Forward.{anchor_at, Forward, save_trail_anchor-Forward}
use grc_audit_swarm.Sessions.Followed.{Anchored, save_trail_anchor-Anchored}
use grc_audit_swarm.Sessions.Writes.{save, Kept, write-Kept, Merged, update_session-existing}

abbrev longer : List Entry
longer = append_all digests trail (entry "Bob" ∷ entry "Cy" ∷ [])

none-loaded : load_anchors missing ≡ ok []
unfolding load_anchors
none-loaded = refl

none-shorter : (anchor_at "s-1" missing).count ≤ length trail
unfolding get_trail_anchor
none-shorter = omega arith

none-follows : follows (anchor_at "s-1" missing) trail ≡ true
unfolding follows get_trail_anchor
none-follows = refl

longer-Anchored : Anchored digests "2026-01-01" "s-1" longer missing
longer-Anchored =
    save_trail_anchor-Anchored digests "2026-01-01" "s-1" trail trail_scan (entry "Bob")
      (entry "Cy" ∷ []) missing [] digests-NonBlank trail-scan none-loaded none-shorter none-follows

save_trail_anchor-Anchored_example : Anchored digests "2026-01-01" "s-1" longer missing
save_trail_anchor-Anchored_example =
    save_trail_anchor-Anchored digests "2026-01-01" "s-1" trail trail_scan (entry "Bob")
      (entry "Cy" ∷ []) missing [] digests-NonBlank trail-scan none-loaded none-shorter none-follows

save_trail_anchor-Forward_example : Forward "s-1" longer missing true longer-Anchored.file'
save_trail_anchor-Forward_example =
    save_trail_anchor-Forward digests "2026-01-01" "s-1" longer missing longer-Anchored.file' true
      longer-Anchored.saved

abbrev ahead : AnchorsFile
ahead = holds (("s-1", record { count = 9; head_hash = "#"; updated_at = "2026-01-01" }) ∷ [])

-- a trail that is shorter than its anchor is refused
truncated-refused : save_trail_anchor digests "2026-01-02" "s-1" trail ahead ≡ ok (false, ahead)
unfolding save_trail_anchor append_entry head seal_entry previous_hash is_chained legacy_seal
truncated-refused = refl

abbrev damaged : Disk
damaged = record { file = corrupt "{"; backups = []; anchors = missing }

abbrev stored : Disk
stored = record {
  file = sessions (("s-1", ("name", text "A") ∷ []) ∷ ("s-2", ("name", text "B") ∷ []) ∷ []);
  backups = [];
  anchors = missing;
}

write-Kept_example : Kept (save "2026-01-01" "s-1" "A" "scope" none []) damaged
write-Kept_example = write-Kept (save "2026-01-01" "s-1" "A" "scope" none []) damaged

update_session-existing_example :
    ((update_session "s-2" (("status", text "done") ∷ []) stored).0
      ≡ is_some (get_session "s-2" stored))
    × Merged
        (("status", text "done") ∷ [])
        (get_session "s-2" stored)
        (get_session "s-2" (update_session "s-2" (("status", text "done") ∷ []) stored).1)
update_session-existing_example =
    update_session-existing "s-2" (("status", text "done") ∷ []) stored

-- ===== src/Sessions/Followed.antt =====
-- Trails that the flow extends, and the anchors that are saved of them.
use grc_audit_swarm.Base.{
  ℕ, suc, ◌-◌, ◌≤◌, ◌<◌, String, ◌≡◌, refl, ap, ◌∙◌, sym, true, false, inl, inr, some, none, List,
  [], ◌∷◌, ◌++◌, ltb, eqb, get_elem?, length, length-append, value_or, ok, arith, Bool-cases, zero,
  ◌+◌,
}
use grc_audit_swarm.Store.{lookup, assign}
use grc_audit_swarm.Trail.{Digests, Entry, Scan, head, append_entry, scan_trail, intact}
use grc_audit_swarm.Trail.Chain.{NonBlank, scan_trail-append, head-append_entry, new_hash, appended}
use grc_audit_swarm.Trail.Verify.{verify_trail, anchor_check, live_anchor}
use grc_audit_swarm.Trail.Intact.{append_all, append_entry-intact, append_entry-anchored}
use grc_audit_swarm.Sessions.{
  StoredAnchor, Anchors, AnchorsFile, holds, load_anchors, no_anchor, verifies, follows, settle,
  move_anchor, save_trail_anchor,
}
use grc_audit_swarm.Sessions.Forward.{
  anchor_at, as_anchor, save_trail_anchor-Forward, load_anchors-lookup,
}

get_elem?-append :
    (xs ys : List Entry) (i : ℕ) → i < length xs → get_elem? (xs ++ ys) i ≡ get_elem? xs i
get_elem?-append [] ys i h = absurd (omega arith)
get_elem?-append (x ∷ xs) ys zero h = refl
get_elem?-append (x ∷ xs) ys (suc i) h = get_elem?-append xs ys i (omega arith)

-- an anchor that a trail follows is one that its extensions follow
follows-append :
    (a : StoredAnchor) (trail more : List Entry)
    → a.count ≤ length trail
    → follows a trail ≡ true
    → follows a (trail ++ more) ≡ true
unfolding follows
follows-append a trail more le h = elim (Bool-cases (eqb a.count 0)) [
  | inl b ↦ rw b refl
  | inr b ↦
      let inside : a.count - 1 < length trail = ground arith in
      rw (get_elem?-append trail more (a.count - 1) inside) h
]

module _ (h : Digests) (now : String) where
  save_trail_anchor-accepts :
      (thread_id : String) (trail : List Entry) (hash : String) (file : AnchorsFile)
      (anchors : Anchors)
      → (head trail).1 ≡ some hash
      → load_anchors file ≡ ok anchors
      → (anchor_at thread_id file).count ≤ length trail
      → follows (anchor_at thread_id file) trail ≡ true
      → verifies (verify_trail h trail none none none).status ≡ true
      → (file' : AnchorsFile) × (save_trail_anchor h now thread_id trail file ≡ ok (true, file'))
  unfolding save_trail_anchor move_anchor settle head
  save_trail_anchor-accepts thread_id trail hash file anchors top loaded le on v =
      let here : value_or (lookup thread_id anchors) no_anchor ≡ anchor_at thread_id file =
        ap (λ o. value_or o no_anchor)
          (sym (load_anchors-lookup h now file anchors loaded thread_id)) in
      let long : ltb (length trail) (anchor_at thread_id file).count ≡ false = ground arith in
      elim (Bool-cases (eqb (length trail) (anchor_at thread_id file).count)) [
        | inl c ↦ (file, rw (top, save_trail_anchor, loaded, here, long, on, c) refl)
        | inr c ↦ (
          holds (
              assign thread_id (record { count = length trail; head_hash = hash; updated_at = now })
                anchors),
          rw (top, save_trail_anchor, loaded, here, long, on, c, v) refl,
        )
      ]

  -- the stored anchor after a save of `trail`, and what the verification with it says
  pub record Anchored (thread_id : String) (trail : List Entry) (file : AnchorsFile) : Type 0 where
    pub file' : AnchorsFile
    pub saved : save_trail_anchor h now thread_id trail file ≡ ok (true, file')
    pub covers : (anchor_at thread_id file').count ≡ length trail
    pub verified :
        (verify_trail h trail (some (as_anchor (anchor_at thread_id file'))) none none).status
        ≡ intact

  append_entry-Anchored :
      (thread_id : String) (trail : List Entry) (s : Scan) (x : Entry) (file : AnchorsFile)
      (anchors : Anchors)
      → NonBlank h
      → scan_trail h trail ≡ ok s
      → load_anchors file ≡ ok anchors
      → (anchor_at thread_id file).count ≤ length trail
      → follows (anchor_at thread_id file) trail ≡ true
      → Anchored thread_id (append_entry h trail x) file
  unfolding append_entry
  append_entry-Anchored thread_id trail s x file anchors n scanned loaded le on =
      let later = append_entry h trail x in
      let long : length later ≡ length trail + 1 = length-append trail (appended h trail x ∷ []) in
      let (file', saved) =
        save_trail_anchor-accepts thread_id later (new_hash h _ x) file anchors
          (head-append_entry h trail x n) loaded (omega arith)
          (follows-append (anchor_at thread_id file) trail (appended h trail x ∷ []) le on)
          (ap verifies (append_entry-intact h trail s x n scanned)) in
      let forward = save_trail_anchor-Forward h now thread_id later file file' true saved in
      let covers = forward.covers refl in
      let live : live_anchor (some (as_anchor (anchor_at thread_id file')))
          ≡ some (as_anchor (anchor_at thread_id file')) =
        ground arith in
      record {
        file' = file';
        saved = saved;
        covers = covers;
        verified =
            append_entry-anchored h trail s x (as_anchor (anchor_at thread_id file')) n scanned
              (omega arith) (ap (anchor_check later) (sym live) ∙ forward.fits refl);
      }

  -- If the stored anchor of a session, or none, lies on a trail whose chain verifies, then after any
  -- entries are appended the new trail is accepted, the anchor covers all of it, and with that anchor
  -- the trail verifies as intact.
  pub save_trail_anchor-Anchored :
      (thread_id : String) (trail : List Entry) (s : Scan) (x : Entry) (es : List Entry)
      (file : AnchorsFile) (anchors : Anchors)
      → NonBlank h
      → scan_trail h trail ≡ ok s
      → load_anchors file ≡ ok anchors
      → (anchor_at thread_id file).count ≤ length trail
      → follows (anchor_at thread_id file) trail ≡ true
      → Anchored thread_id (append_all h trail (x ∷ es)) file
  unfolding append_entry
  save_trail_anchor-Anchored thread_id trail s x [] file anchors n scanned loaded le on =
      append_entry-Anchored thread_id trail s x file anchors n scanned loaded le on
  save_trail_anchor-Anchored thread_id trail s x (y ∷ es) file anchors n scanned loaded le on =
      let long : length (append_entry h trail x) ≡ length trail + 1 =
        length-append trail (appended h trail x ∷ []) in
      save_trail_anchor-Anchored thread_id (append_entry h trail x) _ y es file anchors n
        (scan_trail-append h trail x s n scanned) loaded (omega arith)
        (follows-append (anchor_at thread_id file) trail (appended h trail x ∷ []) le on)

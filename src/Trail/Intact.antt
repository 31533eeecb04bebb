-- ===== src/Trail/Intact.antt =====
-- The trails that `append_entry` builds, and what `verify_trail` says of them.
use mathlib.Core.List.{append-nil, append_assoc}
use grc_audit_swarm.Base.{
  ℕ, suc, String, ◌≡◌, refl, sym, ◌∙◌, ap, Bool, true, false, none, some, List, [], ◌∷◌, ◌++◌,
  arith, ok, is_empty, length, get_elem?, ◌-◌, last?, length-append, eq_iff, ◌<◌,
}
use grc_audit_swarm.Trail.{
  Digests, Entry, Scan, scan_trail, append_entry, intact, chained_part, counted, current_seal,
  legacy_prefix, last_hash,
}
use grc_audit_swarm.Trail.Chain.{NonBlank, scan_trail-append, chained_part-append_entry, appended}
use grc_audit_swarm.Trail.Verify.{
  Verdict, verify_trail, verify_chain, verify_contents, result, anchor_check, Anchor, live_anchor,
}

is_empty-append_last : (xs : List Entry) (x : Entry) → is_empty (xs ++ x ∷ []) ≡ false
is_empty-append_last [] x = refl
is_empty-append_last (y ∷ ys) x = refl

verify_trail-scanned :
    (h : Digests) (trail : List Entry) (s : Scan)
    → is_empty (chained_part trail) ≡ false
    → scan_trail h trail ≡ ok s
    → verify_trail h trail none none none
      ≡ verify_contents h trail s (length (legacy_prefix trail)) false none none
unfolding verify_trail verify_chain anchor_check
verify_trail-scanned h trail s some_chained e = rw (some_chained, e, verify_chain) refl

verify_contents-intact :
    (h : Digests) (trail : List Entry) (s : Scan) (n : ℕ) (hash : String)
    → (anchored : Bool)
    → (verify_contents h trail (counted (current_seal h) hash s) n anchored none none).status
      ≡ intact
unfolding verify_contents result counted
verify_contents-intact h trail s n hash anchored = ground arith

module _ (h : Digests) (trail : List Entry) (s : Scan) where
  pub append_entry-intact :
      (e : Entry)
      → NonBlank h
      → scan_trail h trail ≡ ok s
      → (verify_trail h (append_entry h trail e) none none none).status ≡ intact
  append_entry-intact e n ok_s =
      let scanned = scan_trail-append h trail e s n ok_s in
      let some_chained =
        ap is_empty (chained_part-append_entry h trail e)
        ∙ is_empty-append_last (chained_part trail) _ in
      ap (λ (v : Verdict). v.status)
        (verify_trail-scanned h (append_entry h trail e) _ some_chained scanned)
      ∙ verify_contents-intact h (append_entry h trail e) s _ _ false

-- the trail after appending the entries one by one
abbrev pub append_all : Digests → List Entry → List Entry → List Entry
append_all h trail [] = trail
append_all h trail (e ∷ es) = append_all h (append_entry h trail e) es

scan-append_all :
    (h : Digests) (es trail : List Entry) (s : Scan)
    → NonBlank h
    → scan_trail h trail ≡ ok s
    → (t : Scan) × (scan_trail h (append_all h trail es) ≡ ok t)
scan-append_all h [] trail s n e = (s, e)
scan-append_all h (x ∷ es) trail s n e =
    scan-append_all h es (append_entry h trail x) _ n (scan_trail-append h trail x s n e)

-- A trail whose chain verifies stays intact under every further append: whatever legacy entries it
-- starts with, and whatever unkeyed entries came before the key was set.
pub append_all-intact :
    (h : Digests) (trail : List Entry) (s : Scan) (x : Entry) (es : List Entry)
    → NonBlank h
    → scan_trail h trail ≡ ok s
    → (verify_trail h (append_all h trail (x ∷ es)) none none none).status ≡ intact
append_all-intact h trail s x [] n e = append_entry-intact h trail s x n e
append_all-intact h trail s x (y ∷ es) n e =
    append_all-intact h (append_entry h trail x) _ y es n (scan_trail-append h trail x s n e)

-- the anchor that is recorded for a trail
abbrev pub anchor_of : List Entry → Anchor
anchor_of trail = record { count = length trail; head_hash = last_hash trail }

append_entry-append :
    (h : Digests) (trail : List Entry) (e : Entry) (more : List Entry)
    → append_entry h trail e ++ more ≡ trail ++ appended h trail e ∷ more
unfolding append_entry
append_entry-append h trail e more = append_assoc trail (appended h trail e ∷ []) more

append_all-extends :
    (h : Digests) (trail es : List Entry)
    → (more : List Entry) × (append_all h trail es ≡ trail ++ more)
append_all-extends h trail [] = ([], sym (append-nil trail))
append_all-extends h trail (e ∷ es) =
    let (more, path) = append_all-extends h (append_entry h trail e) es in
    (appended h trail e ∷ more, path ∙ append_entry-append h trail e more)

get_elem?-last :
    (x : Entry) (xs more : List Entry) → get_elem? (x ∷ (xs ++ more)) (length xs) ≡ last? (x ∷ xs)
get_elem?-last x [] more = refl
get_elem?-last x (y ∷ ys) more = get_elem?-last y ys more

suc-sub-one : (n : ℕ) → suc n - 1 ≡ n
suc-sub-one n = omega arith

-- An anchor taken of a trail fits every extension of the trail.
anchor_check-extended :
    (trail more : List Entry)
    → is_empty trail ≡ false
    → anchor_check (trail ++ more) (some (anchor_of trail)) ≡ none
unfolding anchor_check
anchor_check-extended [] more e = cc
anchor_check-extended (x ∷ xs) more e =
    rw (suc-sub-one (length xs), get_elem?-last x xs more)
      (ground (arith, length-append xs more, eq_iff (last_hash (x ∷ xs)) (last_hash (x ∷ xs))))

live_anchor-some : (a : Anchor) → 0 < a.count → live_anchor (some a) ≡ some a
live_anchor-some a pos = ground arith

verify_chain-anchored :
    (h : Digests) (trail : List Entry) (s : Scan) (a : Anchor)
    → scan_trail h trail ≡ ok s
    → anchor_check trail (some a) ≡ none
    → verify_chain h trail (some a) none none
      ≡ verify_contents h trail s (length (legacy_prefix trail)) true none none
unfolding verify_chain
verify_chain-anchored h trail s a e fits = cc

verify_trail-anchored :
    (h : Digests) (trail : List Entry) (s : Scan) (a : Anchor)
    → is_empty (chained_part trail) ≡ false
    → scan_trail h trail ≡ ok s
    → 0 < a.count
    → anchor_check trail (some a) ≡ none
    → verify_trail h trail (some a) none none
      ≡ verify_contents h trail s (length (legacy_prefix trail)) true none none
unfolding verify_trail
verify_trail-anchored h trail s a some_chained e live fits =
    rw (some_chained, live_anchor-some a live) (verify_chain-anchored h trail s a e fits)

grown_trail :
    (h : Digests) (trail : List Entry) (x : Entry) (current more : List Entry)
    → current ≡ trail ++ more
    → append_entry h current x ≡ trail ++ (more ++ appended h current x ∷ [])
unfolding append_entry
grown_trail h trail x current more later =
    ap (λ t. t ++ appended h current x ∷ []) later ∙ append_assoc trail more _

pub append_entry-anchored :
    (h : Digests) (trail : List Entry) (s : Scan) (e : Entry) (a : Anchor)
    → NonBlank h
    → scan_trail h trail ≡ ok s
    → 0 < a.count
    → anchor_check (append_entry h trail e) (some a) ≡ none
    → (verify_trail h (append_entry h trail e) (some a) none none).status ≡ intact
append_entry-anchored h trail s e a n ok_s live fits =
    let some_chained =
      ap is_empty (chained_part-append_entry h trail e)
      ∙ is_empty-append_last (chained_part trail) _ in
    ap (λ (v : Verdict). v.status)
      (verify_trail-anchored h (append_entry h trail e) _ a some_chained
        (scan_trail-append h trail e s n ok_s) live fits)
    ∙ verify_contents-intact h (append_entry h trail e) s _ _ true

module _ (h : Digests) (trail : List Entry) (n : NonBlank h)
    (some_entry : is_empty trail ≡ false) where
  count-pos : 0 < length trail
  count-pos = ground arith

  -- `current` is a later state of `trail`
  extended-anchored :
      (x : Entry) (es current more : List Entry) (s : Scan)
      → current ≡ trail ++ more
      → scan_trail h current ≡ ok s
      → (verify_trail h (append_all h current (x ∷ es)) (some (anchor_of trail)) none none).status
        ≡ intact
  extended-anchored x [] current more s later ok_s =
      append_entry-anchored h current s x (anchor_of trail) n ok_s count-pos (
        ap (λ t. anchor_check t (some (anchor_of trail))) (grown_trail h trail x current more later)
        ∙ anchor_check-extended trail (more ++ appended h current x ∷ []) some_entry)
  extended-anchored x (y ∷ es) current more s later ok_s =
      extended-anchored y es (append_entry h current x) (more ++ appended h current x ∷ []) _
        (grown_trail h trail x current more later) (scan_trail-append h current x s n ok_s)

-- An anchor taken of a trail whose chain verifies accepts every later state of the trail: with it
-- the trail is still intact after any further appends.
pub append_all-anchored :
    (h : Digests) (trail : List Entry) (s : Scan) (x : Entry) (es : List Entry)
    → NonBlank h
    → is_empty trail ≡ false
    → scan_trail h trail ≡ ok s
    → (verify_trail h (append_all h trail (x ∷ es)) (some (anchor_of trail)) none none).status
      ≡ intact
append_all-anchored h trail s x es n some_entry e =
    extended-anchored h trail n some_entry x es trail [] s (sym (append-nil trail)) e

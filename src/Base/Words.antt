-- ===== src/Base/Words.antt =====
-- Joining the words of a text by single spaces leaves a text with the same words.
use Prim.Native.Char.{Char, code}
use Prim.Native.String.{String, [], ◌∷◌, ◌++◌}
use Prim.Native.String.append
use mathlib.Core.Path.{◌≡◌, refl, ap, ◌∙◌}
use mathlib.Core.Bool.{true, false}
use mathlib.Core.Logic.{inl, inr}
use mathlib.Core.List.{List}
use grc_audit_swarm.Base.Tests.{Bool-cases}
use grc_audit_swarm.Base.Lists.{All}
use grc_audit_swarm.Base.Text.{is_space, split, join, put, starts_word}

-- a word: at least one character, and no white space
abbrev IsWord : String → Type 0
IsWord [] = ⊥
IsWord (c ∷ []) = is_space (code c) ≡ false
IsWord (c ∷ d ∷ s) = (is_space (code c) ≡ false) × IsWord (d ∷ s)

cons-IsWord : (c : Char) (w : String) → is_space (code c) ≡ false → IsWord w → IsWord (c ∷ w)
cons-IsWord c [] h hs = absurd hs
cons-IsWord c (d ∷ w) h hs = (h, hs)

put-Words :
    (c : Char) (ws : List String)
    → is_space (code c) ≡ false
    → All IsWord ws
    → All IsWord (put c ws)
put-Words c List.[] h hs = (h, tt)
put-Words c (List.◌∷◌ w ws) h (hw, hs) = (cons-IsWord c w h hw, hs)

split-Words : (s : String) → All IsWord (split s)
unfolding split
split-Words [] = tt
split-Words (c ∷ s) = elim (Bool-cases (is_space (code c))) [
  | inl e ↦ rw e (split-Words s)
  | inr e ↦ elim (Bool-cases (starts_word s)) [
    | inl b ↦ rw (e, b) (put-Words c (split s) e (split-Words s))
    | inr b ↦ rw (e, b) (e, split-Words s)
  ]
]

IsWord-starts : (c : Char) (s : String) → IsWord (c ∷ s) → is_space (code c) ≡ false
IsWord-starts c [] h = h
IsWord-starts c (d ∷ s) h = h.0

split-put :
    (c : Char) (s : String)
    → is_space (code c) ≡ false
    → starts_word s ≡ true
    → split (c ∷ s) ≡ put c (split s)
unfolding split
split-put c s h b = rw (h, b) refl

split-word : (w : String) → IsWord w → split w ≡ List.◌∷◌ w List.[]
unfolding split
split-word [] h = absurd h
split-word (c ∷ []) h = rw h refl
split-word (c ∷ d ∷ s) (h, hs) =
    split-put c (d ∷ s) h (rw (IsWord-starts d s hs) refl) ∙ ap (put c) (split-word (d ∷ s) hs)

space-append : (s : String) → " " ++ s ≡ " " ∷ s
space-append s = append.cons " " "" s ∙ ap (λ r. " " ∷ r) (append.nil s)

split-space : (s : String) → split (" " ∷ s) ≡ split s
unfolding split is_space
split-space s = refl

-- a word, a space and the rest: the word, then the words of the rest
split-before : (w s : String) → IsWord w → split (w ++ (" " ∷ s)) ≡ List.◌∷◌ w (split s)
unfolding split is_space
split-before [] s h = absurd h
split-before (c ∷ []) s h = rw (append.cons c "" (" " ∷ s), append.nil (" " ∷ s), h) refl
split-before (c ∷ d ∷ w) s (h, hs) =
    let starts : starts_word ((d ∷ w) ++ (" " ∷ s)) ≡ true =
      rw (append.cons d w (" " ∷ s), IsWord-starts d w hs) refl in
    ap split (append.cons c (d ∷ w) (" " ∷ s))
    ∙ split-put c ((d ∷ w) ++ (" " ∷ s)) h starts
    ∙ ap (put c) (split-before (d ∷ w) s hs)

-- the words of words joined by single spaces
split-join : (ws : List String) → All IsWord ws → split (join " " ws) ≡ ws
unfolding split
split-join List.[] h = refl
split-join (List.◌∷◌ w List.[]) (h, _) = split-word w h
split-join (List.◌∷◌ w (List.◌∷◌ v ws)) (h, hs) =
    ap (λ r. split (w ++ r)) (space-append (join " " (List.◌∷◌ v ws)))
    ∙ split-before w (join " " (List.◌∷◌ v ws)) h
    ∙ ap (List.◌∷◌ w) (split-join (List.◌∷◌ v ws) hs)

pub join-split_idempotent :
    (s : String) → join " " (split (join " " (split s))) ≡ join " " (split s)
join-split_idempotent s = ap (join " ") (split-join (split s) (split-Words s))

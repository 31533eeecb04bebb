-- ===== src/Base/Text.antt =====
-- The methods of `str` that the program uses, over the code points of a text.
use Prim.Native.Nat.{ℕ, zero, suc, ◌%◌, ◌/◌}
use Prim.Native.Char.{Char, code}
use Prim.Native.String.{String, [], ◌∷◌, ◌++◌}
use Prim.Native.String.append
use mathlib.Core.Path.{◌≡◌, refl}
use mathlib.Core.Logic.{◌≢◌}
use mathlib.Core.Bool.{Bool, true, false, ◌&&◌, ◌||◌, not}
use mathlib.Core.List.{List}
use grc_audit_swarm.Base.Tests.{leb, ltb, eqb, if◌then◌else◌}

-- `str.isspace`: the white space of `split` and `strip`
unfoldable pub is_space : ℕ → Bool
is_space c =
    leb 9 c && leb c 13
    || leb 28 c && leb c 32
    || eqb c 133
    || eqb c 160
    || eqb c 5760
    || leb 8192 c && leb c 8202
    || leb 8232 c && leb c 8233
    || eqb c 8239
    || eqb c 8287
    || eqb c 12288

unfoldable pub lstrip : String → String
unfolding is_space
lstrip [] = []
lstrip (c ∷ s) = let rest = lstrip s in if is_space (code c) then rest else c ∷ s

-- a character before an already stripped end
abbrev rstrip_cons : Char → String → String
rstrip_cons c [] = if is_space (code c) then [] else c ∷ []
rstrip_cons c (d ∷ s) = c ∷ d ∷ s

unfoldable pub rstrip : String → String
unfolding is_space
rstrip [] = []
rstrip (c ∷ s) = rstrip_cons c (rstrip s)

unfoldable pub strip : String → String
unfolding lstrip rstrip
strip s = rstrip (lstrip s)

-- `not s.strip()`: nothing but white space
unfoldable pub is_blank : String → Bool
unfolding is_space
is_blank [] = true
is_blank (c ∷ s) = is_space (code c) && is_blank s

-- `"".join(parts)`, by which the f-strings are written
abbrev pub concat : List String → String
concat List.[] = []
concat (List.◌∷◌ p ps) = p ++ concat ps

-- `sep.join(parts)`
abbrev pub join : String → List String → String
join sep List.[] = []
join sep (List.◌∷◌ p List.[]) = p
join sep (List.◌∷◌ p (List.◌∷◌ q ps)) = p ++ sep ++ join sep (List.◌∷◌ q ps)

-- One character in front of the words of the rest: a space ends a word, `open` says whether the
-- rest begins inside one.
abbrev pub put : Char → List String → List String
put c List.[] = List.◌∷◌ (c ∷ []) List.[]
put c (List.◌∷◌ w ws) = List.◌∷◌ (c ∷ w) ws

abbrev pub starts_word : String → Bool
starts_word [] = false
starts_word (c ∷ _) = not (is_space (code c))

-- `str.split()`: the maximal runs of characters that are not white space
unfoldable pub split : String → List String
unfolding is_space
split [] = List.[]
split (c ∷ s) =
    let words = split s in
    if is_space (code c)
    then words
    else if starts_word s
    then put c words
    else List.◌∷◌ (c ∷ []) words

digit : ℕ → String
digit n =
    if eqb n 0
    then "0"
    else if eqb n 1
    then "1"
    else if eqb n 2
    then "2"
    else if eqb n 3
    then "3"
    else if eqb n 4
    then "4"
    else if eqb n 5
    then "5"
    else if eqb n 6
    then "6"
    else if eqb n 7
    then "7"
    else if eqb n 8
    then "8"
    else "9"

decimal_on : ℕ → ℕ → String → String
unfolding digit
decimal_on zero n tail = tail
decimal_on (suc fuel) n tail =
    let s = digit (n % 10) ++ tail in
    let rest = decimal_on fuel (n / 10) s in if ltb n 10 then s else rest

-- `str(n)`: `n + 1` rounds are enough for the digits of `n`
unfoldable pub decimal : ℕ → String
unfolding decimal_on
decimal n = decimal_on (suc n) n ""

pub append-NonBlank : (s t : String) → s ≢ "" → s ++ t ≢ ""
append-NonBlank [] t n e = n refl
append-NonBlank (c ∷ s) t n e = let e' : c ∷ (s ++ t) ≡ "" = rw (← append.cons c s t) e in cc

-- ===== src/Trail/Canonical.antt =====
-- `json.dumps(value, sort_keys=True, separators=(",", ":"), ensure_ascii=False)` for a dictionary of
-- texts and for a list of such: `_canonical` of src/swarm/trail.py.
use Prim.Native.Nat.{ℕ, ◌-◌}
use Prim.Native.Char.{Char, code}
use Prim.Native.String.{compare}
use text.Mathlib.Text.{is_le}
use grc_audit_swarm.Base.{String, List, [], ◌∷◌, eqb, ltb, concat, join, map, if◌then◌else◌}
use grc_audit_swarm.Dict.{Dict}

-- the last hexadecimal digit of a control character's escape, and the digit before it
hex_low : ℕ → String
hex_low n =
    if eqb n 0
    then "0"
    else if eqb n 1
    then "1"
    else if eqb n 2
    then "2"
    else if eqb n 3
    then "3"
    else if eqb n 4
    then "4"
    else if eqb n 5
    then "5"
    else if eqb n 6
    then "6"
    else if eqb n 7
    then "7"
    else if eqb n 8
    then "8"
    else if eqb n 9
    then "9"
    else if eqb n 10
    then "a"
    else if eqb n 11
    then "b"
    else if eqb n 12
    then "c"
    else if eqb n 13
    then "d"
    else if eqb n 14
    then "e"
    else "f"

control_escape : ℕ → String
unfolding hex_low
control_escape n =
    if ltb n 16
    then concat ("\\u000" ∷ hex_low n ∷ [])
    else concat ("\\u001" ∷ hex_low (n - 16) ∷ [])

escape_char : Char → String
unfolding control_escape
escape_char c =
    let n = code c in
    if eqb n 34
    then "\\\""
    else if eqb n 92
    then "\\\\"
    else if eqb n 10
    then "\\n"
    else if eqb n 13
    then "\\r"
    else if eqb n 9
    then "\\t"
    else if eqb n 12
    then "\\f"
    else if eqb n 8
    then "\\b"
    else if ltb n 32
    then control_escape n
    else String.◌∷◌ c String.[]

escape : String → String
unfolding escape_char
escape String.[] = String.[]
escape (String.◌∷◌ c s) = concat (escape_char c ∷ escape s ∷ [])

unfoldable pub quoted : String → String
unfolding escape
quoted s = concat ("\"" ∷ escape s ∷ "\"" ∷ [])

-- insertion by key, in front of the items whose keys are not smaller
insert_item : String → String → Dict → Dict
insert_item k v [] = (k, v) ∷ []
insert_item k v ((j, w) ∷ d) =
    let rest = insert_item k v d in
    if is_le (compare k j) then (k, v) ∷ (j, w) ∷ d else (j, w) ∷ rest

sort_items : Dict → Dict
unfolding insert_item
sort_items [] = []
sort_items ((k, v) ∷ d) = insert_item k v (sort_items d)

items_json : Dict → List String
unfolding quoted
items_json [] = []
items_json ((k, v) ∷ d) = concat (quoted k ∷ ":" ∷ quoted v ∷ []) ∷ items_json d

unfoldable pub canonical : Dict → String
unfolding items_json sort_items
canonical d = concat ("{" ∷ join "," (items_json (sort_items d)) ∷ "}" ∷ [])

unfoldable pub canonical_list : List Dict → String
unfolding canonical
canonical_list ds = concat ("[" ∷ join "," (map canonical ds) ∷ "]" ∷ [])

-- ===== src/Evidence/Reading.antt =====
-- The parts of Python that src/swarm/evidence.py reads a vault record by: the truth of a value, a
-- missing key, a text in a text.
use grc_audit_swarm.Base.{
  ℕ, suc, String, Bool, true, false, not, ◌&&◌, ◌||◌, Option, none, some, ◌==◌, eqb, if◌then◌else◌,
  Result, ok, err,
}
use grc_audit_swarm.Json.{Json, Items, Members, get}
use Prim.Native.Char.{Char, code}

-- How a verification stops: with False, or with an exception that is not caught.
pub data Stop : Type 0 where
  answers_false : Stop
  raises : String → Stop

-- the truth of a value
abbrev pub truthy : Json → Bool
truthy Json.null = false
truthy (Json.boolean b) = b
truthy (Json.integer n) = not (eqb n 0)
truthy (Json.other_number s) = true
truthy (Json.text s) = not (s == "")
truthy (Json.array Items.nil) = false
truthy (Json.array (Items.item j js)) = true
truthy (Json.object Members.end) = false
truthy (Json.object (Members.member k v ms)) = true

abbrev pub truthy_of : Option Json → Bool
truthy_of none = false
truthy_of (some j) = truthy j

abbrev pub size : String → ℕ
size String.[] = 0
size (String.◌∷◌ c s) = suc (size s)

-- whether a text begins with another
unfoldable pub starts : String → String → Bool
starts String.[] text = true
starts (String.◌∷◌ c s) String.[] = false
starts (String.◌∷◌ c s) (String.◌∷◌ d text) = String.◌∷◌ c "" == String.◌∷◌ d "" && starts s text

-- `part in text`
unfoldable pub occurs : String → String → Bool
unfolding starts
occurs part String.[] = starts part ""
occurs part (String.◌∷◌ c text) = starts part (String.◌∷◌ c text) || occurs part text

-- a character with `_` and `-` as spaces
abbrev pub spaced : Char → Char
spaced c = if eqb (code c) 95 || eqb (code c) 45 then " " else c

abbrev pub map_text : (Char → Char) → String → String
map_text g String.[] = ""
map_text g (String.◌∷◌ c s) = String.◌∷◌ (g c) (map_text g s)

-- `record[key]`
abbrev pub required : String → Members → Result Stop Json
required key ms = elim (get key ms) [ none ↦ err answers_false | some j ↦ ok j ]

-- a use of a value that only a text supports
abbrev pub as_text : Json → Result Stop String
as_text (Json.text s) = ok s
as_text _ = err (raises "this value is no text")

abbrev pub or_false : Option String → Result Stop String
or_false none = err answers_false
or_false (some s) = ok s

abbrev pub members_of : Option Json → Option Members
members_of (some (Json.object ms)) = some ms
members_of _ = none

-- ===== src/Dict.antt =====
-- The `dict[str, str]` of a trail entry, as its items in insertion order.
use grc_audit_swarm.Base.{
  String, ◌≡◌, refl, Bool, true, false, Option, none, some, List, [], ◌∷◌, ◌==◌, eq_iff, arith,
  if◌then◌else◌,
}

abbrev pub Dict : Type 0
Dict = List (String × String)

-- `d.get(k)`
unfoldable pub get : String → Dict → Option String
get k [] = none
get k ((j, v) ∷ d) = if j == k then some v else get k d

-- `d.get(k, default)`
unfoldable pub get_or : String → Dict → String → String
unfolding get
get_or k d default = elim (get k d) [ none ↦ default | some v ↦ v ]

-- `d.get(k) == v` for a text `v`
unfoldable pub has : String → String → Dict → Bool
unfolding get
has k v d = elim (get k d) [ none ↦ false | some w ↦ w == v ]

-- `k in d`
unfoldable pub is_key : String → Dict → Bool
unfolding get
is_key k d = elim (get k d) [ none ↦ false | some _ ↦ true ]

-- `d[k] = v`: an item keeps its place, a new one comes last
unfoldable pub set : String → String → Dict → Dict
set k v [] = (k, v) ∷ []
set k v ((j, w) ∷ d) = if j == k then (k, v) ∷ d else (j, w) ∷ set k v d

-- `d.update(e)`
unfoldable pub update : Dict → Dict → Dict
unfolding set
update d [] = d
update d ((k, v) ∷ e) = update (set k v d) e

-- `{k: v for k, v in d.items() if k != key}`
unfoldable pub without : String → Dict → Dict
without k [] = []
without k ((j, v) ∷ d) = let rest = without k d in if j == k then rest else (j, v) ∷ rest

pub get-set : (k j v : String) (d : Dict) → get j (set k v d) ≡ (if k == j then some v else get j d)
unfolding get set
get-set k j v [] = refl
get-set k j v ((i, w) ∷ d) = ground (arith, eq_iff k j, eq_iff i k, eq_iff i j, get-set k j v d)

pub get-without :
    (k j : String) (d : Dict) → get j (without k d) ≡ (if k == j then none else get j d)
unfolding get without
get-without k j [] = ground arith
get-without k j ((i, w) ∷ d) = ground (arith, eq_iff i k, eq_iff i j, eq_iff k j, get-without k j d)

-- an item that the second dictionary lacks is that of the first
pub get-update_of_absent : (k : String) (d e : Dict) → get k e ≡ none → get k (update d e) ≡ get k d
unfolding get update
get-update_of_absent k d [] h = refl
get-update_of_absent k d ((j, v) ∷ e) h =
    ground (arith, eq_iff j k, get-set j k v d, get-update_of_absent k (set j v d) e)

pub without-set : (k v : String) (d : Dict) → without k (set k v d) ≡ without k d
unfolding without set
without-set k v [] = ground (arith, eq_iff k k)
without-set k v ((j, w) ∷ d) = ground (arith, eq_iff j k, eq_iff k k, without-set k v d)

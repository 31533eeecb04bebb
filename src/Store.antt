-- ===== src/Store.antt =====
-- A `dict` with text keys as its items in insertion order: the maps of the limiter, of the sessions
-- and of the jobs.
use grc_audit_swarm.Base.{
  String, ◌≡◌, refl, Option, none, some, List, [], ◌∷◌, ◌==◌, eq_iff, arith, if◌then◌else◌,
}

module _ {ℓ} {A : Type ℓ} where
  -- `d.get(k)`
  unfoldable pub lookup : String → List (String × A) → Option A
  lookup k [] = none
  lookup k ((j, v) ∷ d) = if j == k then some v else lookup k d

  -- `d[k] = v`: an item keeps its place, a new one comes last
  unfoldable pub assign : String → A → List (String × A) → List (String × A)
  assign k v [] = (k, v) ∷ []
  assign k v ((j, w) ∷ d) = if j == k then (k, v) ∷ d else (j, w) ∷ assign k v d

  -- `d.pop(k, None)`
  unfoldable pub discard : String → List (String × A) → List (String × A)
  discard k [] = []
  discard k ((j, v) ∷ d) = let rest = discard k d in if j == k then rest else (j, v) ∷ rest

  pub lookup-assign :
      (k j : String) (v : A) (d : List (String × A))
      → lookup j (assign k v d) ≡ (if k == j then some v else lookup j d)
  unfolding lookup assign
  lookup-assign k j v [] = refl
  lookup-assign k j v ((i, w) ∷ d) =
      ground (arith, eq_iff k j, eq_iff i k, eq_iff i j, lookup-assign k j v d)

  pub lookup-discard :
      (k j : String) (d : List (String × A))
      → lookup j (discard k d) ≡ (if k == j then none else lookup j d)
  unfolding lookup discard
  lookup-discard k j [] = ground arith
  lookup-discard k j ((i, w) ∷ d) =
      ground (arith, eq_iff i k, eq_iff i j, eq_iff k j, lookup-discard k j d)

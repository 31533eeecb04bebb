-- ===== src/Base/Lists.antt =====
-- Lists measured and indexed by native numbers, and the loops over lists that the program writes.
use Prim.Native.Nat.{ℕ, zero, suc, ◌+◌}
use Prim.Native.String.{String}
use mathlib.Core.Path.{◌≡◌, refl}
use mathlib.Core.Bool.{Bool, true, false, ◌&&◌, ◌||◌}
use mathlib.Core.Option.{Option, none, some}
use mathlib.Core.List.{List, [], ◌∷◌, ◌++◌}
use mathlib.Core.Logic.{◌≢◌}
use native.Mathlib.Omega.{arith}
use text.Mathlib.TextEquality.{eq_iff}
use text.Mathlib.Text.{◌==◌}
use grc_audit_swarm.Base.Tests.{if◌then◌else◌}

module _ {ℓ} {A : Type ℓ} where
  abbrev pub length : List A → ℕ
  length [] = 0
  length (x ∷ xs) = suc (length xs)

  abbrev pub get_elem? : List A → ℕ → Option A
  get_elem? [] i = none
  get_elem? (x ∷ xs) zero = some x
  get_elem? (x ∷ xs) (suc i) = get_elem? xs i

  abbrev pub take : ℕ → List A → List A
  take zero xs = []
  take (suc n) [] = []
  take (suc n) (x ∷ xs) = x ∷ take n xs

  -- `xs[-1]`, and nothing for an empty list
  abbrev pub last? : List A → Option A
  last? [] = none
  last? (x ∷ []) = some x
  last? (x ∷ y ∷ xs) = last? (y ∷ xs)

  abbrev pub is_empty : List A → Bool
  is_empty [] = true
  is_empty (_ ∷ _) = false

  -- `any(p(x) for x in xs)`
  abbrev pub any : (A → Bool) → List A → Bool
  any p [] = false
  any p (x ∷ xs) = p x || any p xs

  abbrev pub all : (A → Bool) → List A → Bool
  all p [] = true
  all p (x ∷ xs) = p x && all p xs

  -- `next((x for x in xs if p(x)), None)`
  abbrev pub find_first : (A → Bool) → List A → Option A
  find_first p [] = none
  find_first p (x ∷ xs) = if p x then some x else find_first p xs

  -- `[x for x in xs if p(x)]`
  abbrev pub keep : (A → Bool) → List A → List A
  keep p [] = []
  keep p (x ∷ xs) = if p x then x ∷ keep p xs else keep p xs

  abbrev pub All {κ} : (A → Type κ) → List A → Type κ
  All P [] = Unit
  All P (x ∷ xs) = P x × All P xs

  pub length-append : (xs ys : List A) → length (xs ++ ys) ≡ length xs + length ys
  length-append [] ys = omega arith
  length-append (x ∷ xs) ys = omega (arith, length-append xs ys)

  -- the last index holds the last element
  pub get_elem?-end : (x : A) (xs : List A) → get_elem? (x ∷ xs) (length xs) ≡ last? (x ∷ xs)
  get_elem?-end x [] = refl
  get_elem?-end x (y ∷ ys) = get_elem?-end y ys

abbrev pub contains : List String → String → Bool
contains [] s = false
contains (x ∷ xs) s = x == s || contains xs s

-- what is new to `k ∷ ks` is not `k`, and new to `ks`
pub all_new {ℓ} :
    {A : Type ℓ} (f : A → String) (k : String) (ks : List String) (xs : List A)
    → All (λ x. contains (k ∷ ks) (f x) ≡ false) xs
    → All (λ x. k ≢ f x) xs × All (λ x. contains ks (f x) ≡ false) xs
all_new f k ks [] h = (tt, tt)
all_new f k ks (x ∷ xs) (h, hs) =
    let (a, b) = all_new f k ks xs hs in
    ((λ e. ground (arith, eq_iff k (f x)), a), (ground arith, b))

pub all_joined {ℓ} :
    {A : Type ℓ} (f : A → String) (k : String) (ks : List String) (xs : List A)
    → All (λ x. k ≢ f x) xs
    → All (λ x. contains ks (f x) ≡ false) xs
    → All (λ x. contains (k ∷ ks) (f x) ≡ false) xs
all_joined f k ks [] a b = tt
all_joined f k ks (x ∷ xs) (a, as') (b, bs) =
    (ground (arith, eq_iff k (f x)), all_joined f k ks xs as' bs)

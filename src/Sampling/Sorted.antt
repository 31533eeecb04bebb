-- ===== src/Sampling/Sorted.antt =====
-- Sorting different numbers puts them in increasing order.
use grc_audit_swarm.Base.{
  ℕ, ◌<◌, ◌≡◌, ◌≢◌, refl, inl, inr, List, [], ◌∷◌, leb, length, All, Bool-cases, arith, suc,
}
use grc_audit_swarm.Sampling.{insert, sorted}

abbrev pub Increasing : List ℕ → Type 0
Increasing [] = Unit
Increasing (x ∷ xs) = All (λ y. x < y) xs × Increasing xs

-- no number twice
abbrev pub Different : List ℕ → Type 0
Different [] = Unit
Different (x ∷ xs) = All (λ y. x ≢ y) xs × Different xs

insert-All {κ} : (P : ℕ → Type κ) (x : ℕ) (xs : List ℕ) → P x → All P xs → All P (insert x xs)
unfolding insert
insert-All P x [] p ps = (p, tt)
insert-All P x (y ∷ ys) p (q, ps) = elim (Bool-cases (leb x y)) [
  | inl b ↦ rw b (p, (q, ps))
  | inr b ↦ rw b (q, insert-All P x ys p ps)
]

All-above : (x y : ℕ) (xs : List ℕ) → x < y → All (λ z. y < z) xs → All (λ z. x < z) xs
All-above x y [] h hs = tt
All-above x y (z ∷ zs) h (g, gs) = (omega arith, All-above x y zs h gs)

insert-Increasing :
    (x : ℕ) (xs : List ℕ) → All (λ y. x ≢ y) xs → Increasing xs → Increasing (insert x xs)
unfolding insert
insert-Increasing x [] n h = (tt, tt)
insert-Increasing x (y ∷ ys) (n, ns) (h, hs) = elim (Bool-cases (leb x y)) [
  | inl b ↦ let below : x < y = ground arith in rw b ((below, All-above x y ys below h), (h, hs))
  | inr b ↦ rw b (insert-All (λ z. y < z) x ys (ground arith) h, insert-Increasing x ys ns hs)
]

pub sorted-All {κ} : (P : ℕ → Type κ) (xs : List ℕ) → All P xs → All P (sorted xs)
unfolding sorted
sorted-All P [] h = tt
sorted-All P (x ∷ xs) (h, hs) = insert-All P x (sorted xs) h (sorted-All P xs hs)

pub sorted-Increasing : (xs : List ℕ) → Different xs → Increasing (sorted xs)
unfolding sorted
sorted-Increasing [] h = tt
sorted-Increasing (x ∷ xs) (h, hs) =
    insert-Increasing x (sorted xs) (sorted-All (λ y. x ≢ y) xs h) (sorted-Increasing xs hs)

length-insert : (x : ℕ) (xs : List ℕ) → length (insert x xs) ≡ suc (length xs)
unfolding insert
length-insert x [] = refl
length-insert x (y ∷ ys) = ground (arith, length-insert x ys)

pub length-sorted : (xs : List ℕ) → length (sorted xs) ≡ length xs
unfolding sorted
length-sorted [] = refl
length-sorted (x ∷ xs) = omega (arith, length-insert x (sorted xs), length-sorted xs)

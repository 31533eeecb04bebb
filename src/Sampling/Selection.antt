-- ===== src/Sampling/Selection.antt =====
-- What a selection receipt promises.
use grc_audit_swarm.Base.{
  ℕ, zero, suc, ◌+◌, ◌<◌, ◌≤◌, ◌≡◌, refl, ap, ◌∙◌, sym, String, inl, inr, some, List, [], ◌∷◌, leb,
  eqb, length, get_elem?, All, Bool-cases, arith, min, ◌||◌,
}
use grc_audit_swarm.Sampling.{
  Generator, SampleSelectionReceipt, pick, range_from, sorted, receipt, sample_method,
  select_random, deterministic_sample_selection, not_applicable, full_population,
}
use grc_audit_swarm.Sampling.Sorted.{
  Increasing, Different, sorted-All, sorted-Increasing, length-sorted,
}

-- `random.Random(seed).sample(range(n), k)` for `k` at most `n`: `k` different numbers below `n`
pub record Draws (g : Generator) : Type 0 where
  pub count : (seed : String) (n k : ℕ) → k ≤ n → length (g.sample seed n k) ≡ k
  pub inside : (seed : String) (n k : ℕ) → k ≤ n → All (λ i. i < n) (g.sample seed n k)
  pub different : (seed : String) (n k : ℕ) → k ≤ n → Different (g.sample seed n k)

-- The selection that a receipt states for `items` and a wanted size.
pub record Selects (items : List String) (size : ℕ) (r : SampleSelectionReceipt) : Type 0 where
  pub population : r.population_count ≡ length items
  pub bounded : r.sample_size ≡ min size (length items)
  pub counted : length r.selected_indices ≡ r.sample_size
  pub ordered : Increasing r.selected_indices
  pub inside : All (λ i. i < length items) r.selected_indices
  pub items_at : pick items r.selected_indices ≡ some r.selected_items

length-range_from : (i n : ℕ) → length (range_from i n) ≡ n
unfolding range_from
length-range_from i zero = refl
length-range_from i (suc n) = omega (arith, length-range_from (suc i) n)

range_from-above : (i j n : ℕ) → i < j → All (λ k. i < k) (range_from j n)
unfolding range_from
range_from-above i j zero h = tt
range_from-above i j (suc n) h = (h, range_from-above i (suc j) n (omega arith))

range_from-Increasing : (i n : ℕ) → Increasing (range_from i n)
unfolding range_from
range_from-Increasing i zero = tt
range_from-Increasing i (suc n) =
    (range_from-above i (suc i) n (omega arith), range_from-Increasing (suc i) n)

range_from-below : (i n m : ℕ) → i + n ≤ m → All (λ k. k < m) (range_from i n)
unfolding range_from
range_from-below i zero m h = tt
range_from-below i (suc n) m h = (omega arith, range_from-below (suc i) n m (omega arith))

-- picking every index from `i` on gives the items from there
drop : ℕ → List String → List String
drop zero xs = xs
drop (suc i) [] = []
drop (suc i) (x ∷ xs) = drop i xs

drop-end : (i : ℕ) (xs : List String) → i ≡ length xs → drop i xs ≡ []
unfolding drop
drop-end zero [] h = refl
drop-end zero (x ∷ xs) h = absurd (omega arith)
drop-end (suc i) [] h = refl
drop-end (suc i) (x ∷ xs) h = drop-end i xs (omega arith)

drop-step :
    (i : ℕ) (xs : List String)
    → i < length xs
    → (x : String) × (get_elem? xs i ≡ some x) × (drop i xs ≡ x ∷ drop (suc i) xs)
unfolding drop
drop-step i [] h = absurd (omega arith)
drop-step zero (x ∷ xs) h = (x, refl, refl)
drop-step (suc i) (x ∷ xs) h = drop-step i xs (omega arith)

pick-cons :
    (items : List String) (i : ℕ) (is : List ℕ) (x : String) (xs : List String)
    → get_elem? items i ≡ some x
    → pick items is ≡ some xs
    → pick items (i ∷ is) ≡ some (x ∷ xs)
unfolding pick
pick-cons items i is x xs found rest = rw (found, pick, rest) refl

pick-range :
    (i n : ℕ) (items : List String)
    → i + n ≡ length items
    → pick items (range_from i n) ≡ some (drop i items)
unfolding range_from pick
pick-range i zero items h = ap some (sym (drop-end i items (omega arith)))
pick-range i (suc n) items h =
    let (x, found, split) = drop-step i items (omega arith) in
    pick-cons items i (range_from (suc i) n) x (drop (suc i) items) found
      (pick-range (suc i) n items (omega arith))
    ∙ ap some (sym split)

-- picking indices that are in range never fails
pick-inside :
    (items : List String) (is : List ℕ)
    → All (λ i. i < length items) is
    → (xs : List String) × (pick items is ≡ some xs)
unfolding pick
pick-inside items [] h = ([], refl)
pick-inside items (i ∷ is) (h, hs) =
    let (x, found, _) = drop-step i items h in
    let (xs, rest) = pick-inside items is hs in (x ∷ xs, pick-cons items i is x xs found rest)

module _ (g : Generator) (items : List String) (size : ℕ) (session_id control_id : String) where
  select_random-Selects :
      Draws g
      → size ≤ length items
      → (r : SampleSelectionReceipt) × (select_random g items size session_id control_id ≡ some r)
        × Selects items size r
  unfolding select_random receipt
  select_random-Selects law le =
      let drawn = g.sample (g.hmac_sha256 session_id control_id) (length items) size in
      let inside = sorted-All (λ i. i < length items) drawn (law.inside _ (length items) size le) in
      let (xs, picked) = pick-inside items (sorted drawn) inside in
      (
        receipt g items session_id control_id size (sample_method g size) (sorted drawn) xs,
        rw (picked, select_random) refl,
        record {
          population = refl;
          bounded = omega arith;
          counted = length-sorted drawn ∙ law.count _ (length items) size le;
          ordered = sorted-Increasing drawn (law.different _ (length items) size le);
          inside = inside;
          items_at = picked;
        },
      )

  -- If the generator draws different numbers in range, a selection always returns a receipt, for as
  -- many items as were asked for, or all if there are fewer. Its indices are in increasing order,
  -- each is in range, and its items are those at the indices.
  pub selection-Selects :
      Draws g
      → (r : SampleSelectionReceipt) × (deterministic_sample_selection g items size session_id
            control_id
          ≡ some r)
        × Selects items size r
  unfolding deterministic_sample_selection receipt drop
  selection-Selects law = elim (Bool-cases (eqb size 0 || eqb (length items) 0)) [
    | inl b ↦ (
      receipt g items session_id control_id 0 not_applicable [] [],
      rw b refl,
      record {
        population = refl;
        bounded = ground arith;
        counted = refl;
        ordered = tt;
        inside = tt;
        items_at = refl;
      },
    )
    | inr b ↦ elim (Bool-cases (leb (length items) size)) [
      | inl c ↦ (
        receipt g items session_id control_id (length items) full_population
            (range_from 0 (length items)) items,
        rw (b, c) refl,
        record {
          population = refl;
          bounded = ground arith;
          counted = length-range_from 0 (length items);
          ordered = range_from-Increasing 0 (length items);
          inside = range_from-below 0 (length items) (length items) (omega arith);
          items_at = pick-range 0 (length items) items (omega arith);
        },
      )
      | inr c ↦
          let (r, returned, selects) = select_random-Selects law (ground arith) in
          (r, rw (b, c) returned, selects)
    ]
  ]

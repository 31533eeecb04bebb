-- ===== src/Sampling/Samples.antt =====
-- A generator that draws the first numbers in descending order, and a population of four.
use grc_audit_swarm.Base.{
  ℕ, zero, suc, ◌<◌, ◌≤◌, ◌≡◌, ◌≢◌, refl, String, some, List, [], ◌∷◌, length, All, arith,
}
use grc_audit_swarm.Sampling.{Generator, SampleSelectionReceipt, deterministic_sample_selection}
use grc_audit_swarm.Sampling.Sorted.{Different}
use grc_audit_swarm.Sampling.Selection.{Draws, Selects, selection-Selects}

abbrev first_numbers : ℕ → List ℕ
first_numbers zero = []
first_numbers (suc k) = k ∷ first_numbers k

first_numbers-count : (k : ℕ) → length (first_numbers k) ≡ k
first_numbers-count zero = refl
first_numbers-count (suc k) = omega (arith, first_numbers-count k)

first_numbers-inside : (k n : ℕ) → k ≤ n → All (λ i. i < n) (first_numbers k)
first_numbers-inside zero n h = tt
first_numbers-inside (suc k) n h = (h, first_numbers-inside k n (omega arith))

all_other : (j k : ℕ) → k ≤ j → All (λ i. j ≢ i) (first_numbers k)
all_other j zero h = tt
all_other j (suc k) h = ((λ e. omega arith), all_other j k (omega arith))

first_numbers-Different : (k : ℕ) → Different (first_numbers k)
first_numbers-Different zero = tt
first_numbers-Different (suc k) = (all_other k k (omega arith), first_numbers-Different k)

abbrev generator : Generator
generator = record {
  sha256 = λ text. text;
  hmac_sha256 = λ key text. text;
  sample = λ seed n k. first_numbers k;
}

generator-Draws : Draws generator
generator-Draws = record {
  count = λ seed n k h. first_numbers-count k;
  inside = λ seed n k h. first_numbers-inside k n h;
  different = λ seed n k h. first_numbers-Different k;
}

abbrev population : List String
population = "INV-1" ∷ "INV-2" ∷ "INV-3" ∷ "INV-4" ∷ []

selection-Selects_example :
    (r : SampleSelectionReceipt) × (deterministic_sample_selection generator population 2 "s-1"
        "CTRL-1"
      ≡ some r)
    × Selects population 2 r
selection-Selects_example = selection-Selects generator population 2 "s-1" "CTRL-1" generator-Draws

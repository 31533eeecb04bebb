-- ===== src/Sampling.antt =====
-- src/swarm/sampling.py: sample sizes, and the seeded selection of a sample. SHA-256, HMAC and the
-- generator's `sample` are parameters; frequency, nature and rating are taken as the enumerations.
pub mod Sorted
pub mod Selection
mod Samples
use grc_audit_swarm.Base.{
  ℕ, zero, suc, String, Option, none, some, List, [], ◌∷◌, leb, eqb, get_elem?, length, concat,
  join, map, if◌then◌else◌, ◌||◌,
}
use grc_audit_swarm.Schema.{
  ControlFrequency, ControlNature, RiskRating, SamplingMethod, manual, automated,
  it_dependent_manual, annual, quarterly, monthly, weekly, daily, multiple_times_per_day,
  event_driven, continuous, test_of_one, random, full_population, not_applicable,
}
use grc_audit_swarm.Trail.Canonical.{quoted}

-- `_SAMPLE_TABLE`: the sizes for a low or medium and for a high risk
unfoldable pub sample_table : ControlFrequency → ℕ × ℕ
sample_table annual = (1, 1)
sample_table quarterly = (2, 2)
sample_table monthly = (2, 5)
sample_table weekly = (5, 15)
sample_table daily = (20, 40)
sample_table multiple_times_per_day = (25, 60)
sample_table continuous = (25, 45)
sample_table event_driven = (5, 15)

unfoldable pub size_for : RiskRating → ℕ × ℕ → ℕ
size_for RiskRating.high (low_med_n, high_n) = high_n
size_for _ (low_med_n, high_n) = low_med_n

unfoldable pub recommended_sample_size : ControlFrequency → ControlNature → RiskRating → ℕ
unfolding sample_table size_for
recommended_sample_size frequency automated rating = 1
recommended_sample_size frequency manual rating = size_for rating (sample_table frequency)
recommended_sample_size frequency it_dependent_manual rating =
    size_for rating (sample_table frequency)

pub record SampleSelectionReceipt : Type 0 where
  pub session_id : String
  pub control_id : String
  pub population_count : ℕ
  pub population_sha256 : String
  pub sample_size : ℕ
  pub sampling_method : SamplingMethod
  pub seed_hmac_sha256 : String
  pub selected_indices : List ℕ
  pub selected_items : List String

-- `[items[i] for i in indices]`: none where an index is out of range, which raises
unfoldable pub pick : List String → List ℕ → Option (List String)
pick items [] = some []
pick items (i ∷ is) = elim (get_elem? items i) [
  | none ↦ none
  | some x ↦ elim (pick items is) [ none ↦ none | some xs ↦ some (x ∷ xs) ]
]

-- `range(i, i + n)`
unfoldable pub range_from : ℕ → ℕ → List ℕ
range_from i zero = []
range_from i (suc n) = i ∷ range_from (suc i) n

unfoldable pub insert : ℕ → List ℕ → List ℕ
insert x [] = x ∷ []
insert x (y ∷ ys) = let rest = insert x ys in if leb x y then x ∷ y ∷ ys else y ∷ rest

-- `sorted`
unfoldable pub sorted : List ℕ → List ℕ
unfolding insert
sorted [] = []
sorted (x ∷ xs) = insert x (sorted xs)

-- what the module takes of hashlib, hmac and random
pub record Generator : Type 0 where
  pub sha256 : String → String
  pub hmac_sha256 : String → String → String
  -- `random.Random(int(seed, 16)).sample(range(n), k)`
  pub sample : String → ℕ → ℕ → List ℕ

module _ (g : Generator) where
  unfoldable pub compute_ipe_population_digest : List String → String
  unfolding quoted
  compute_ipe_population_digest items =
      g.sha256 (concat ("[" ∷ join "," (map quoted items) ∷ "]" ∷ []))

  unfoldable pub receipt :
      List String
      → String
      → String
      → ℕ
      → SamplingMethod
      → List ℕ
      → List String
      → SampleSelectionReceipt
  unfolding compute_ipe_population_digest
  receipt items session_id control_id size method indices selected = record {
    session_id = session_id;
    control_id = control_id;
    population_count = length items;
    population_sha256 = compute_ipe_population_digest items;
    sample_size = size;
    sampling_method = method;
    seed_hmac_sha256 = g.hmac_sha256 session_id control_id;
    selected_indices = indices;
    selected_items = selected;
  }

  unfoldable pub sample_method : ℕ → SamplingMethod
  sample_method size = if eqb size 1 then test_of_one else random

  -- the seeded selection of fewer items than there are
  unfoldable pub select_random : List String → ℕ → String → String → Option SampleSelectionReceipt
  unfolding receipt sample_method sorted pick
  select_random items size session_id control_id =
      let indices = sorted (g.sample (g.hmac_sha256 session_id control_id) (length items) size) in
      elim (pick items indices) [
        | none ↦ none
        | some selected ↦
            some (receipt items session_id control_id size (sample_method size) indices selected)
      ]

  -- nothing where an index raises; a negative size is 0
  unfoldable pub deterministic_sample_selection :
      List String → ℕ → String → String → Option SampleSelectionReceipt
  unfolding receipt select_random range_from
  deterministic_sample_selection items size session_id control_id =
      if eqb size 0 || eqb (length items) 0
      then some (receipt items session_id control_id 0 not_applicable [] [])
      else if leb (length items) size
      then some (
          receipt items session_id control_id (length items) full_population
            (range_from 0 (length items)) items)
      else select_random items size session_id control_id

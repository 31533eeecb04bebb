-- ===== src/Linters/Racm/Sizes.antt =====
-- The recommended sample sizes against the linter's minimum.
use grc_audit_swarm.Base.{ℕ, ◌≤◌, String, ◌≡◌, refl, true, some, arith, ltb, false}
use grc_audit_swarm.Schema.{
  ControlFrequency, ControlNature, RiskRating, manual, automated, it_dependent_manual, annual,
  quarterly, monthly, weekly, daily, multiple_times_per_day, event_driven, continuous,
}
use grc_audit_swarm.Sampling.{recommended_sample_size, sample_table, size_for}
use grc_audit_swarm.Linters.{Tools, passed}
use grc_audit_swarm.Linters.Racm.{is_manual, lint_size, min_sample_size}

-- the two columns of the table
table-min :
    (frequency : ControlFrequency)
    → (min_sample_size frequency ≤ (sample_table frequency).0)
      × ((sample_table frequency).0 ≤ (sample_table frequency).1)
unfolding min_sample_size sample_table
table-min annual = (omega arith, omega arith)
table-min quarterly = (omega arith, omega arith)
table-min monthly = (omega arith, omega arith)
table-min weekly = (omega arith, omega arith)
table-min daily = (omega arith, omega arith)
table-min multiple_times_per_day = (omega arith, omega arith)
table-min event_driven = (omega arith, omega arith)
table-min continuous = (omega arith, omega arith)

size_for-min :
    (frequency : ControlFrequency) (rating : RiskRating)
    → min_sample_size frequency ≤ size_for rating (sample_table frequency)
unfolding size_for
size_for-min frequency RiskRating.low = (table-min frequency).0
size_for-min frequency RiskRating.medium = (table-min frequency).0
size_for-min frequency RiskRating.high =
    omega (arith, (table-min frequency).0, (table-min frequency).1)

size_for-high :
    (frequency : ControlFrequency) (rating : RiskRating)
    → size_for rating (sample_table frequency) ≤ size_for RiskRating.high (sample_table frequency)
unfolding size_for
size_for-high frequency RiskRating.low = (table-min frequency).1
size_for-high frequency RiskRating.medium = (table-min frequency).1
size_for-high frequency RiskRating.high = omega arith

lint_size-enough :
    (t : Tools) (cid : String) (frequency : ControlFrequency) (size : ℕ)
    → min_sample_size frequency ≤ size
    → passed (lint_size t cid (some frequency) (some size)) ≡ true
unfolding passed lint_size
lint_size-enough t cid frequency size h =
    let enough : ltb size (min_sample_size frequency) ≡ false = ground arith in rw enough refl

-- The recommended size for a manual or IT-dependent manual control, whatever its frequency and
-- rating, is one that the linter of the matrix accepts, and a high risk never gets a smaller one.
pub recommended_sample_size-passed :
    (t : Tools) (cid : String) (frequency : ControlFrequency) (nature : ControlNature)
    (rating : RiskRating)
    → is_manual (some nature) ≡ true
    → (passed (
          lint_size t cid (some frequency) (some (recommended_sample_size frequency nature rating)))
        ≡ true)
      × (recommended_sample_size frequency nature rating
          ≤ recommended_sample_size frequency nature RiskRating.high)
unfolding recommended_sample_size
recommended_sample_size-passed t cid frequency automated rating m = absurd cc
recommended_sample_size-passed t cid frequency manual rating m = (
  lint_size-enough t cid frequency _ (size_for-min frequency rating),
  size_for-high frequency rating,
)
recommended_sample_size-passed t cid frequency it_dependent_manual rating m = (
  lint_size-enough t cid frequency _ (size_for-min frequency rating),
  size_for-high frequency rating,
)

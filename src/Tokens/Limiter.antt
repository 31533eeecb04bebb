-- ===== src/Tokens/Limiter.antt =====
-- `FailureLimiter` of src/api/reviewer_tokens.py. A time is a number of ticks of the monotonic clock,
-- of which `second` make a second; the window is a number of ticks too.
pub mod Refines
pub mod Waiting
use Prim.Native.Nat.{◌/◌}
use grc_audit_swarm.Base.{
  String, ℕ, ◌+◌, ◌-◌, Bool, Option, none, some, List, [], ◌∷◌, ◌++◌, leb, ltb, max, length,
  is_empty, value_or, Result, err, ok, if◌then◌else◌,
}
use grc_audit_swarm.Store.{lookup, assign, discard}

-- `self._failures`: the times of the failures of each client address, the oldest first
abbrev pub Failures : Type 0
Failures = List (String × List ℕ)

-- what `q[0]` raises on an empty deque
pub data IndexError : Type 0 where
  index_error : IndexError

module _ (max_failures window second : ℕ) where
  -- the loop of `_prune`
  unfoldable pub drop_expired : ℕ → List ℕ → List ℕ
  drop_expired now [] = []
  drop_expired now (t ∷ q) =
      let rest = drop_expired now q in if leb (t + window) now then rest else t ∷ q

  unfoldable pub pruned : String → ℕ → Failures → List ℕ
  unfolding lookup drop_expired
  pruned key now failures = drop_expired now (value_or (lookup key failures) [])

  -- what `_prune` leaves in the dictionary
  unfoldable pub prune : String → ℕ → Failures → Failures
  unfolding pruned assign discard
  prune key now failures =
      let q = pruned key now failures in
      if is_empty q then discard key failures else assign key q failures

  -- `max(1, int(self.window - (now - q[0])) + 1)`; a pruned queue starts inside the window
  unfoldable pub wait_from : ℕ → List ℕ → Result IndexError (Option ℕ)
  wait_from now [] = err index_error
  wait_from now (t ∷ _) = ok (some (max 1 ((t + window - now) / second + 1)))

  unfoldable pub answer : ℕ → List ℕ → Result IndexError (Option ℕ)
  unfolding wait_from
  answer now q = if ltb (length q) max_failures then ok none else wait_from now q

  unfoldable pub retry_after : String → ℕ → Failures → Failures × Result IndexError (Option ℕ)
  unfolding pruned prune answer
  retry_after key now failures = (prune key now failures, answer now (pruned key now failures))

  unfoldable pub record_failure : String → ℕ → Failures → Failures
  unfolding pruned prune assign
  record_failure key now failures =
      assign key (pruned key now failures ++ now ∷ []) (prune key now failures)

  unfoldable pub reset : Failures → Failures
  reset failures = []

-- ===== src/Tokens/Limiter/Refines.antt =====
-- The limiter against the whole history of failures, which it does not keep.
use grc_audit_swarm.Base.{
  String, ℕ, ◌+◌, ◌≤◌, ◌<◌, ◌≡◌, refl, ap, ◌∙◌, sym, not, List, [], ◌∷◌, ◌++◌, ◌==◌, eq_iff, leb,
  arith, keep, is_empty, value_or, if◌then◌else◌, All, Bool-cases, inl, inr,
}
use grc_audit_swarm.Store.{lookup, assign, discard, lookup-assign, lookup-discard}
use grc_audit_swarm.Tokens.Limiter.{
  Failures, drop_expired, pruned, prune, answer, retry_after, record_failure, reset,
}

-- a call of the limiter, with the clock's reading at it
pub data Call : Type 0 where
  ask : String → ℕ → Call
  fail : String → ℕ → Call
  clear : ℕ → Call

abbrev pub time : Call → ℕ
time (ask key now) = now
time (fail key now) = now
time (clear now) = now

-- the readings of a monotonic clock
abbrev pub Chronological : ℕ → List Call → Type 0
Chronological last [] = Unit
Chronological last (c ∷ cs) = (last ≤ time c) × Chronological (time c) cs

abbrev pub last_time : ℕ → List Call → ℕ
last_time last [] = last
last_time last (c ∷ cs) = last_time (time c) cs

module _ (max_failures window second : ℕ) where
  abbrev pub call : Call → Failures → Failures
  call (ask key now) failures = (retry_after max_failures window second key now failures).0
  call (fail key now) failures = record_failure max_failures window second key now failures
  call (clear now) failures = reset max_failures window second failures

  abbrev pub calls : List Call → Failures → Failures
  calls [] failures = failures
  calls (c ∷ cs) failures = calls cs (call c failures)

  -- The specification: every failure of the address since the last reset is kept for good.
  abbrev pub note : String → Call → List ℕ → List ℕ
  note key (ask _ _) times = times
  note key (fail k now) times = if k == key then times ++ now ∷ [] else times
  note key (clear _) times = []

  abbrev pub history : String → List Call → List ℕ → List ℕ
  history key [] times = times
  history key (c ∷ cs) times = history key cs (note key c times)

  -- the failures less than a window ago
  abbrev pub recent : ℕ → List ℕ → List ℕ
  recent now = keep λ t. not (leb (t + window) now)

  -- the queue of an address, empty when it has none
  abbrev queue : String → Failures → List ℕ
  queue key failures = value_or (lookup key failures) []

  abbrev Sorted : List ℕ → Type 0
  Sorted [] = Unit
  Sorted (t ∷ q) = All (λ u. t ≤ u) q × Sorted q

  recent-none : (now : ℕ) (q : List ℕ) → All (λ u. now < u + window) q → recent now q ≡ q
  recent-none now [] h = refl
  recent-none now (u ∷ q) (h, hs) = ground (arith, recent-none now q hs)

  All-within :
      (now t : ℕ) (q : List ℕ)
      → now < t + window
      → All (λ u. t ≤ u) q
      → All (λ u. now < u + window) q
  All-within now t [] h least = tt
  All-within now t (u ∷ q) h (l, least) = (omega arith, All-within now t q h least)

  drop_expired-recent :
      (now : ℕ) (q : List ℕ)
      → Sorted q
      → drop_expired max_failures window second now q ≡ recent now q
  unfolding drop_expired
  drop_expired-recent now [] s = refl
  drop_expired-recent now (t ∷ q) (least, s) = elim (Bool-cases (leb (t + window) now)) [
    | inl e ↦ rw e (drop_expired-recent now q s)
    | inr e ↦
        rw e (sym (ap (λ r. t ∷ r) (recent-none now q (All-within now t q (ground arith) least))))
  ]

  -- what the loop drops is out of the window at every later time too
  recent-drop_expired :
      (now later : ℕ) (q : List ℕ)
      → now ≤ later
      → recent later (drop_expired max_failures window second now q) ≡ recent later q
  unfolding drop_expired
  recent-drop_expired now later [] h = refl
  recent-drop_expired now later (t ∷ q) h = ground (arith, recent-drop_expired now later q h)

  recent-append : (now : ℕ) (q r : List ℕ) → recent now (q ++ r) ≡ recent now q ++ recent now r
  recent-append now [] r = refl
  recent-append now (t ∷ q) r = ground (arith, recent-append now q r)

  All-drop_expired {κ} :
      (P : ℕ → Type κ) (now : ℕ) (q : List ℕ)
      → All P q
      → All P (drop_expired max_failures window second now q)
  unfolding drop_expired
  All-drop_expired P now [] h = tt
  All-drop_expired P now (t ∷ q) (h, hs) = elim (Bool-cases (leb (t + window) now)) [
    | inl e ↦ rw e (All-drop_expired P now q hs)
    | inr e ↦ rw e (h, hs)
  ]

  Sorted-drop_expired :
      (now : ℕ) (q : List ℕ) → Sorted q → Sorted (drop_expired max_failures window second now q)
  unfolding drop_expired
  Sorted-drop_expired now [] h = tt
  Sorted-drop_expired now (t ∷ q) (h, hs) = elim (Bool-cases (leb (t + window) now)) [
    | inl e ↦ rw e (Sorted-drop_expired now q hs)
    | inr e ↦ rw e (h, hs)
  ]

  pub All-append {κ} : (P : ℕ → Type κ) (q : List ℕ) (t : ℕ) → All P q → P t → All P (q ++ t ∷ [])
  All-append P [] t h p = (p, tt)
  All-append P (u ∷ q) t (h, hs) p = (h, All-append P q t hs p)

  Sorted-append : (q : List ℕ) (t : ℕ) → Sorted q → All (λ u. u ≤ t) q → Sorted (q ++ t ∷ [])
  Sorted-append [] t h m = (tt, tt)
  Sorted-append (u ∷ q) t (h, hs) (m, ms) = (All-append _ q t h m, Sorted-append q t hs ms)

  pub All-weaken : (q : List ℕ) (s t : ℕ) → s ≤ t → All (λ u. u ≤ s) q → All (λ u. u ≤ t) q
  All-weaken [] s t h m = tt
  All-weaken (u ∷ q) s t h (m, ms) = (omega arith, All-weaken q s t h ms)

  queue-store :
      (key j : String) (q : List ℕ) (failures : Failures)
      → queue j (if is_empty q then discard key failures else assign key q failures)
        ≡ (if key == j then q else queue j failures)
  queue-store key j [] failures = rw (lookup-discard key j failures) (ground arith)
  queue-store key j (t ∷ q) failures = rw (lookup-assign key j (t ∷ q) failures) (ground arith)

  queue-prune :
      (key j : String) (now : ℕ) (failures : Failures)
      → queue j (prune max_failures window second key now failures) ≡ (
          if key == j then pruned max_failures window second key now failures else queue j failures)
  unfolding prune
  queue-prune key j now failures =
      queue-store key j (pruned max_failures window second key now failures) failures

  queue-record :
      (key j : String) (now : ℕ) (failures : Failures)
      → queue j (record_failure max_failures window second key now failures) ≡ (
          if key == j
          then pruned max_failures window second key now failures ++ now ∷ []
          else queue j failures)
  unfolding record_failure
  queue-record key j now failures =
      let q = pruned max_failures window second key now failures in
      rw (lookup-assign key j (q ++ now ∷ []) (prune max_failures window second key now failures))
        (ground (arith, queue-prune key j now failures))

  -- One address: its queue is in order and not later than the clock, and has the recent failures.
  record Agrees (last : ℕ) (q times : List ℕ) : Type 0 where
    sorted : Sorted q
    past : All (λ u. u ≤ last) q
    same : (now : ℕ) → last ≤ now → recent now q ≡ recent now times

  later-Agrees :
      (last now : ℕ) (q times : List ℕ) → last ≤ now → Agrees last q times → Agrees now q times
  later-Agrees last now q times h a = record {
    sorted = a.sorted;
    past = All-weaken q last now h a.past;
    same = λ later l. a.same later (omega arith);
  }

  drop-Agrees :
      (last now : ℕ) (q times : List ℕ)
      → last ≤ now
      → Agrees last q times
      → Agrees now (drop_expired max_failures window second now q) times
  drop-Agrees last now q times h a = record {
    sorted = Sorted-drop_expired now q a.sorted;
    past = All-drop_expired _ now q (All-weaken q last now h a.past);
    same = λ later l. recent-drop_expired now later q l ∙ a.same later (omega arith);
  }

  append-Agrees :
      (now : ℕ) (q times : List ℕ)
      → Agrees now q times
      → Agrees now (q ++ now ∷ []) (times ++ now ∷ [])
  append-Agrees now q times a = record {
    sorted = Sorted-append q now a.sorted a.past;
    past = All-append _ q now a.past (omega arith);
    same = λ later l.
        rw (recent-append later q (now ∷ []), recent-append later times (now ∷ []), a.same later l)
          refl;
  }

  pruned-Agrees :
      (k key : String) (last now : ℕ) (failures : Failures) (times : List ℕ)
      → k ≡ key
      → last ≤ now
      → Agrees last (queue key failures) times
      → Agrees now (pruned max_failures window second k now failures) times
  unfolding pruned
  pruned-Agrees k key last now failures times e h a =
      rw e (drop-Agrees last now (queue key failures) times h a)

  call-Agrees :
      (c : Call) (last : ℕ) (failures : Failures) (key : String) (times : List ℕ)
      → last ≤ time c
      → Agrees last (queue key failures) times
      → Agrees (time c) (queue key (call c failures)) (note key c times)
  unfolding retry_after reset
  call-Agrees (ask k now) last failures key times h a = elim (Bool-cases (k == key)) [
    | inl e ↦
        rw (queue-prune k key now failures, e)
          (pruned-Agrees k key last now failures times (ground (arith, eq_iff k key)) h a)
    | inr e ↦
        rw (queue-prune k key now failures, e)
          (later-Agrees last now (queue key failures) times h a)
  ]
  call-Agrees (fail k now) last failures key times h a = elim (Bool-cases (k == key)) [
    | inl e ↦
        rw (queue-record k key now failures, e)
          (append-Agrees now (pruned max_failures window second k now failures) times
            (pruned-Agrees k key last now failures times (ground (arith, eq_iff k key)) h a))
    | inr e ↦
        rw (queue-record k key now failures, e)
          (later-Agrees last now (queue key failures) times h a)
  ]
  call-Agrees (clear now) last failures key times h a = record {
    sorted = tt;
    past = tt;
    same = λ _ _. refl;
  }

  calls-Agrees :
      (cs : List Call) (last : ℕ) (failures : Failures) (key : String) (times : List ℕ)
      → Chronological last cs
      → Agrees last (queue key failures) times
      → Agrees (last_time last cs) (queue key (calls cs failures)) (history key cs times)
  calls-Agrees [] last failures key times ordered a = a
  calls-Agrees (c ∷ cs) last failures key times (h, ordered) a =
      calls-Agrees cs (time c) (call c failures) key (note key c times) ordered
        (call-Agrees c last failures key times h a)

  -- After any calls in the order of the clock, from an empty limiter, `retry_after` answers as if
  -- every failure since the last reset had been kept and those less than a window old were counted.
  pub retry_after-refines :
      (cs : List Call) (key : String) (now : ℕ)
      → Chronological 0 cs
      → last_time 0 cs ≤ now
      → (retry_after max_failures window second key now (calls cs [])).1
        ≡ answer max_failures window second now (recent now (history key cs []))
  unfolding retry_after pruned lookup
  retry_after-refines cs key now ordered h =
      let a : Agrees (last_time 0 cs) (queue key (calls cs [])) (history key cs []) =
        calls-Agrees cs 0 [] key [] ordered
          (record { sorted = tt; past = tt; same = λ _ _. refl }) in
      ap (answer max_failures window second now)
        (drop_expired-recent now (queue key (calls cs [])) a.sorted ∙ a.same now h)

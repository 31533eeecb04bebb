-- ===== src/Tokens/Limiter/Waiting.antt =====
-- What a blocked client address is told, and that waiting so long helps.
use Prim.Native.Nat.{◌/◌, suc}
use native.Mathlib.Nat.{div-lt_iff_lt-mul}
use grc_audit_swarm.Base.{
  String, ℕ, ◌+◌, ◌*◌, ◌≤◌, ◌<◌, ◌≡◌, ◌⊎◌, refl, arith, List, [], ◌∷◌, none, some, ok, length, leb,
  Bool-cases, inl, inr, ltb, All, ap, ◌-◌, Result, Option, ◌==◌, ◌++◌,
}
use grc_audit_swarm.Tokens.Limiter.{retry_after, answer, wait_from, IndexError}
use grc_audit_swarm.Tokens.Limiter.Refines.{
  Call, Chronological, last_time, calls, history, recent, retry_after-refines, All-weaken, ask,
  fail, All-append, clear,
}

module _ (max_failures window second : ℕ) where
  length-recent :
      (now : ℕ) (q : List ℕ) → length (recent max_failures window second now q) ≤ length q
  length-recent now [] = omega arith
  length-recent now (t ∷ q) = ground (arith, length-recent now q)

  -- what is recent later is recent now
  length-later :
      (now later : ℕ) (q : List ℕ)
      → now ≤ later
      → length (recent max_failures window second later q)
        ≤ length (recent max_failures window second now q)
  length-later now later [] h = omega arith
  length-later now later (t ∷ q) h = ground (arith, length-later now later q h)

  -- the oldest recent failure is not recent once it has expired
  length-expired :
      (now later t : ℕ) (q r : List ℕ)
      → now ≤ later
      → recent max_failures window second now q ≡ t ∷ r
      → t + window ≤ later
      → length (recent max_failures window second later q) < suc (length r)
  length-expired now later t [] r h e x = cc
  length-expired now later t (u ∷ q) r h e x = elim (Bool-cases (leb (u + window) now)) [
    | inl b ↦
        let e' : recent max_failures window second now q ≡ t ∷ r = rw b at e in
        let ih = length-expired now later t q r h e' x in ground arith
    | inr b ↦
        let e' : u ∷ recent max_failures window second now q ≡ t ∷ r = rw b at e in
        let eu : u ≡ t = cc in
        let er : recent max_failures window second now q ≡ r = cc in
        let fewer = length-later now later q h in
        let size : length (recent max_failures window second now q) ≡ length r = ap length er in
        ground arith
  ]

  next_multiple : (d p : ℕ) → 0 < p → d < (d / p + 1) * p
  next_multiple d p h = omega arith

  quotient_le : (a b p : ℕ) → 0 < p → a ≤ b → a / p ≤ b / p
  quotient_le a b p h le =
      let wide = next_multiple b p h in
      let less : a / p < b / p + 1 = (div-lt_iff_lt-mul h).1 (omega arith) in omega arith

  head-recent :
      (now t : ℕ) (q r : List ℕ)
      → recent max_failures window second now q ≡ t ∷ r
      → All (λ u. u ≤ now) q
      → (t ≤ now) × (now < t + window)
  head-recent now t [] r e p = cc
  head-recent now t (u ∷ q) r e (p, ps) = elim (Bool-cases (leb (u + window) now)) [
    | inl b ↦
        let e' : recent max_failures window second now q ≡ t ∷ r = rw b at e in
        head-recent now t q r e' ps
    | inr b ↦
        let e' : u ∷ recent max_failures window second now q ≡ t ∷ r = rw b at e in
        let eu : u ≡ t = cc in (ground arith, ground arith)
  ]

  -- An outcome for the failures `times`, of which `q` are less than a window old: the address is
  -- allowed if they are few; else it is told a number of whole seconds after which some have expired.
  pub Told : Result IndexError (Option ℕ) → ℕ → List ℕ → List ℕ → Type 0
  Told outcome now times q =
      ((outcome ≡ ok none) × (length q < max_failures))
      ⊎ ((n : ℕ) × (outcome ≡ ok (some n))
          × (max_failures ≤ length q)
          × (1 ≤ n)
          × (n ≤ window / second + 1)
          × (length (recent max_failures window second (now + n * second) times) < length q))

  answer-Told :
      (now : ℕ) (times q : List ℕ)
      → 0 < max_failures
      → 0 < second
      → All (λ u. u ≤ now) times
      → recent max_failures window second now times ≡ q
      → Told (answer max_failures window second now q) now times q
  unfolding Told answer wait_from
  answer-Told now times [] m s p e = inl (ground arith, m)
  answer-Told now times (t ∷ q) m s p e =
      let (past, inside) = head-recent now t times q e p in
      let n = (t + window - now) / second + 1 in
      let grow : n ≤ window / second + 1 =
        omega (arith, quotient_le (t + window - now) window second s (omega arith)) in
      let wide : t + window ≤ now + n * second =
        omega (arith, next_multiple (t + window - now) second s) in
      let fewer = length-expired now (now + n * second) t times q (omega arith) e wide in
      elim (Bool-cases (ltb (suc (length q)) max_failures)) [
        | inl b ↦ inl (rw b refl, ground arith)
        | inr b ↦
            inr (
              n,
              rw b (ap (λ m. ok (some m)) (omega arith)),
              ground arith,
              omega arith,
              grow,
              fewer,
            )
      ]

  history-past :
      (cs : List Call) (last : ℕ) (key : String) (times : List ℕ)
      → Chronological last cs
      → All (λ u. u ≤ last) times
      → All (λ u. u ≤ last_time last cs) (history max_failures window second key cs times)
  history-past [] last key times ordered p = p
  history-past (ask k now ∷ cs) last key times (h, ordered) p =
      history-past cs now key times ordered
        (All-weaken max_failures window second times last now h p)
  history-past (fail k now ∷ cs) last key times (h, ordered) p =
      let p' = All-weaken max_failures window second times last now h p in
      elim (Bool-cases (k == key)) [
        | inl e ↦ rw e (
            history-past cs now key (times ++ now ∷ []) ordered
              (All-append max_failures window second _ times now p' (omega arith)))
        | inr e ↦ rw e (history-past cs now key times ordered p')
      ]
  history-past (clear now ∷ cs) last key times (h, ordered) p =
      history-past cs now key [] ordered tt

  -- With a limit of at least one failure, `retry_after` never raises. After any calls in the order of
  -- the clock it allows an address exactly when fewer than `max_failures` of its failures are less
  -- than a window old; otherwise it returns between one second and one more than the window has, and
  -- after so many seconds, without another failure, fewer failures count.
  pub retry_after-Told :
      (cs : List Call) (key : String) (now : ℕ)
      → Chronological 0 cs
      → last_time 0 cs ≤ now
      → 0 < max_failures
      → 0 < second
      → Told
          (retry_after max_failures window second key now
            (calls max_failures window second cs [])).1
          now
          (history max_failures window second key cs [])
          (recent max_failures window second now (history max_failures window second key cs []))
  retry_after-Told cs key now ordered h m s =
      let times = history max_failures window second key cs [] in
      let p =
        All-weaken max_failures window second times (last_time 0 cs) now h
          (history-past cs 0 key [] ordered tt) in
      rw (retry_after-refines max_failures window second cs key now ordered h)
        (answer-Told now times (recent max_failures window second now times) m s p refl)

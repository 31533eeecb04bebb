-- ===== src/Flow/Methods.antt =====
-- Methods of an object: they read and write its state and return a value or raise. A method that
-- raises leaves the state as it is at that point.
use grc_audit_swarm.Base.{◌≡◌, refl, ◌∙◌, ap, Result, ok, err}

abbrev pub Method : Type 0 → Type 0 → Type 0 → Type 0
Method S E A = S → Result E A × S

module _ {S E : Type 0} where
  abbrev after : {A B : Type 0} → Result E A × S → (A → Method S E B) → Result E B × S
  after (ok a, s) k = k a s
  after (err e, s) k = (err e, s)

  infixl 10 ◌>>=◌ ◌>>◌
  unfoldable pub ◌>>=◌ : {A B : Type 0} → Method S E A → (A → Method S E B) → Method S E B
  (m >>= k) s = after (m s) k

  abbrev pub ◌>>◌ : {A B : Type 0} → Method S E A → Method S E B → Method S E B
  m >> k = m >>= λ _. k

  -- a value read of the state, or the exception that reading it raises
  unfoldable pub reading : {A : Type 0} → (S → Result E A) → Method S E A
  reading g s = (g s, s)

  unfoldable pub modify : (S → S) → Method S E (Unit {0})
  modify g s = (ok tt, g s)

  -- A step that raises, or else updates the state.
  unfoldable pub updating : (S → Result E S) → Method S E (Unit {0})
  updating g s = elim (g s) [ ok t ↦ (ok tt, t) | err e ↦ (err e, s) ]

  -- the state of the object after a call
  abbrev pub state_after : {A : Type 0} → Result E A × S → S
  state_after (r, s) = s

  abbrev pub answer_of : {A : Type 0} → Result E A × S → Result E A
  answer_of (r, s) = r

  -- A method that raises has changed nothing.
  abbrev pub Atomic : {A : Type 0} → Method S E A → Type 0
  Atomic m = (s : S) (e : E) → answer_of (m s) ≡ err e → state_after (m s) ≡ s

  -- A method that never raises.
  abbrev pub Returns : {A : Type 0} → Method S E A → Type 0
  Returns {A} m = (s : S) → (a : A) × (answer_of (m s) ≡ ok a)

  -- A method that only reads.
  abbrev pub Reads : {A : Type 0} → Method S E A → Type 0
  Reads m = (s : S) → state_after (m s) ≡ s

  pub reading-Reads : {A : Type 0} (g : S → Result E A) → Reads (reading g)
  unfolding reading
  reading-Reads g s = refl

  pub modify-Returns : (g : S → S) → Returns (modify g)
  unfolding modify
  modify-Returns g s = (tt, refl)

  pub updating-Atomic : (g : S → Result E S) → Atomic (updating g)
  unfolding updating
  updating-Atomic g s e h = raised (g s) s e h
    where
      raised :
          (r : Result E S) (s : S) (e : E)
          → answer_of
              (elim r as (λ _. Result E (Unit {0}) × S) [ ok t ↦ (ok tt, t) | err e ↦ (err e, s) ])
            ≡ err e
          → state_after
              (elim r as (λ _. Result E (Unit {0}) × S) [ ok t ↦ (ok tt, t) | err e ↦ (err e, s) ])
            ≡ s
      raised (ok t) s e h = cc
      raised (err x) s e h = refl

  pub reading-eq :
      {A : Type 0} (g : S → Result E A) (s : S) (r : Result E A) → g s ≡ r → reading g s ≡ (r, s)
  unfolding reading
  reading-eq g s r h = ap (λ x. (x, s)) h

  pub modify-eq : (g : S → S) (s : S) → modify g s ≡ (ok tt, g s)
  unfolding modify
  modify-eq g s = refl

  module _ {A B : Type 0} (m : Method S E A) (k : A → Method S E B) where
    pub >>=-ok : (s t : S) (a : A) → m s ≡ (ok a, t) → (m >>= k) s ≡ k a t
    unfolding ◌>>=◌
    >>=-ok s t a h = ap (λ r. after r k) h

    pub >>=-err : (s t : S) (e : E) → m s ≡ (err e, t) → (m >>= k) s ≡ (err e, t)
    unfolding ◌>>=◌
    >>=-err s t e h = ap (λ r. after r k) h

    -- what checks first and acts then is atomic
    pub Reads-then : Reads m → ((a : A) → Atomic (k a)) → Atomic (m >>= k)
    unfolding ◌>>=◌
    Reads-then r safe s e h = go (m s) (r s) h
      where
        go :
            (p : Result E A × S)
            → state_after p ≡ s
            → answer_of (after p k) ≡ err e
            → state_after (after p k) ≡ s
        go (ok a, t) same h = safe a t e h ∙ same
        go (err x, t) same h = same

    -- so is what acts atomically and then only does what cannot fail
    pub then-Returns : Atomic m → ((a : A) → Returns (k a)) → Atomic (m >>= k)
    unfolding ◌>>=◌
    then-Returns safe returns s e h = go (m s) (safe s) h
      where
        go :
            (p : Result E A × S)
            → ((x : E) → answer_of p ≡ err x → state_after p ≡ s)
            → answer_of (after p k) ≡ err e
            → state_after (after p k) ≡ s
        go (ok a, t) same h = let (b, never) = returns a t in cc
        go (err x, t) same h = same x refl

    pub Returns-then : Returns m → ((a : A) → Returns (k a)) → Returns (m >>= k)
    unfolding ◌>>=◌
    Returns-then first second s = go (m s) (first s)
      where
        go :
            (p : Result E A × S)
            → (a : A) × (answer_of p ≡ ok a)
            → (b : B) × (answer_of (after p k) ≡ ok b)
        go (ok a, t) r = second a t
        go (err x, t) (a, never) = cc

    -- A block that returns has run each of its steps.
    pub >>=-runs :
        (s t : S) (b : B)
        → (m >>= k) s ≡ (ok b, t)
        → (a : A) × (u : S) × (m s ≡ (ok a, u)) × (k a u ≡ (ok b, t))
    unfolding ◌>>=◌
    >>=-runs s t b h = go (m s) h
      where
        go :
            (p : Result E A × S)
            → after p k ≡ (ok b, t)
            → (a : A) × (u : S) × (p ≡ (ok a, u)) × (k a u ≡ (ok b, t))
        go (ok a, u) h = (a, u, refl, h)
        go (err x, u) h = cc

-- What every call, returning or raising, does to the state, for a reflexive and transitive relation.
module _ {S E : Type 0} (R : S → S → Type 0) where
  abbrev pub Keeps : {A : Type 0} → Method S E A → Type 0
  Keeps m = (s : S) → R s (state_after (m s))

  module _ (refl_r : (s : S) → R s s) where
    pub reading-Keeps : {A : Type 0} (g : S → Result E A) → Keeps (reading g)
    unfolding reading
    reading-Keeps g s = refl_r s

    pub updating-Keeps :
        (g : S → Result E S) → ((s t : S) → g s ≡ ok t → R s t) → Keeps (updating g)
    unfolding updating
    updating-Keeps g step s = go (g s) (step s)
      where
        go :
            (r : Result E S)
            → ((t : S) → r ≡ ok t → R s t)
            → R s (
                state_after (elim r as (λ _. Result E (Unit {0}) × S) [
                  | ok t ↦ (ok tt, t)
                  | err e ↦ (err e, s)
                ]))
        go (ok t) step = step t refl
        go (err x) step = refl_r s

  module _ (trans_r : (s t u : S) → R s t → R t u → R s u) {A B : Type 0} where
    pub >>=-Keeps :
        (m : Method S E A) (k : A → Method S E B)
        → Keeps m
        → ((a : A) → Keeps (k a))
        → Keeps (m >>= k)
    unfolding ◌>>=◌
    >>=-Keeps m k first second s = go (m s) (first s)
      where
        go : (p : Result E A × S) → R s (state_after p) → R s (state_after (after p k))
        go (ok a, t) r = trans_r s t _ r (second a t)
        go (err x, t) r = r

pub modify-Keeps :
    {S : Type 0} (E : Type 0) (R : S → S → Type 0) (g : S → S)
    → ((s : S) → R s (g s))
    → Keeps R (modify {E = E} g)
unfolding modify
modify-Keeps E R g step s = step s

-- What a block that returns has done in its first step.
module _ {S E : Type 0} where
  pub reading-runs :
      {A B : Type 0} (g : S → Result E A) (k : A → Method S E B) (s t : S) (b : B)
      → (reading g >>= k) s ≡ (ok b, t)
      → (a : A) × (g s ≡ ok a) × (k a s ≡ (ok b, t))
  unfolding reading ◌>>=◌
  reading-runs {A} {B} g k s t b h = go (g s) h
    where
      go :
          (r : Result E A) → after (r, s) k ≡ (ok b, t) → (a : A) × (r ≡ ok a) × (k a s ≡ (ok b, t))
      go (ok a) h = (a, refl, h)
      go (err x) h = cc

  pub updating-runs :
      {B : Type 0} (g : S → Result E S) (k : Unit {0} → Method S E B) (s t : S) (b : B)
      → (updating g >>= k) s ≡ (ok b, t)
      → (u : S) × (g s ≡ ok u) × (k tt u ≡ (ok b, t))
  unfolding updating ◌>>=◌
  updating-runs {B} g k s t b h = go (g s) h
    where
      go :
          (r : Result E S)
          → after
              (elim r as (λ _. Result E (Unit {0}) × S) [ ok u ↦ (ok tt, u) | err e ↦ (err e, s) ])
              k
            ≡ (ok b, t)
          → (u : S) × (r ≡ ok u) × (k tt u ≡ (ok b, t))
      go (ok u) h = (u, refl, h)
      go (err x) h = cc

  pub modify-runs : (g : S → S) (s t : S) → modify {E = E} g s ≡ (ok tt, t) → g s ≡ t
  unfolding modify
  modify-runs g s t h = ap (λ p. p.1) h

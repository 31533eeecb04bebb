-- ===== src/Base/Exceptions.antt =====
-- What a call comes to: a value, or an exception of type `E` that it raises.
use mathlib.Core.Bool.{Bool, true, false}
use mathlib.Core.Path.{◌≡◌, refl}

pub data Result {ℓ} (E A : Type ℓ) : Type ℓ where
  err : E → Result E A
  ok : A → Result E A

module _ {ℓ} {E A B : Type ℓ} where
  infixl 10 ◌>>=◌ ◌>>◌
  abbrev pub ◌>>=◌ : Result E A → (A → Result E B) → Result E B
  err x >>= next = err x
  ok a >>= next = next a

  abbrev pub ◌>>◌ : Result E A → Result E B → Result E B
  first >> second = first >>= λ _. second

  -- A block that returns has run each of its steps.
  pub bind_returned :
      {b : B} (first : Result E A) (next : A → Result E B)
      → (first >>= next) ≡ ok b
      → (a : A) × (first ≡ ok a) × (next a ≡ ok b)
  bind_returned (err x) next returned = cc
  bind_returned (ok a) next returned = (a, refl, returned)

  -- two continuations that agree
  pub bind-ap :
      (first : Result E A) {next other : A → Result E B}
      → ((a : A) → next a ≡ other a)
      → (first >>= next) ≡ (first >>= other)
  bind-ap (err x) same = refl
  bind-ap (ok a) same = same a

module _ {ℓ} {E : Type ℓ} where
  -- `if test: raise x`
  abbrev pub raise_if : Bool → E → Result E (Unit {ℓ})
  raise_if true x = err x
  raise_if false x = ok tt

  pub raise_if-returned :
      (test : Bool) (x : E) {u : Unit {ℓ}} → raise_if test x ≡ ok u → test ≡ false
  raise_if-returned true x h = cc
  raise_if-returned false x h = refl

module _ {ℓ} {E A : Type ℓ} where
  pub bind-ok : (first : Result E A) → (first >>= ok) ≡ first
  bind-ok (err x) = refl
  bind-ok (ok a) = refl

module _ {ℓ} {E A B C : Type ℓ} where
  pub bind_assoc :
      (first : Result E A) (next : A → Result E B) (last : B → Result E C)
      → ((first >>= next) >>= last) ≡ (first >>= λ a. next a >>= last)
  bind_assoc (err x) next last = refl
  bind_assoc (ok a) next last = refl

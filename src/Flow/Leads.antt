-- ===== src/Flow/Leads.antt =====
-- Calls of methods that return, with what holds of the value and of the state that they leave.
use grc_audit_swarm.Base.{◌≡◌, refl, ap, Result, ok}
use grc_audit_swarm.Flow.Methods.{Method, ◌>>=◌, reading, modify, updating}

-- The call returns, and what it returns and leaves is as `P` has it.
pub record Leads {S E A : Type 0} (m : Method S E A) (s : S) (P : A → S → Type 0) : Type 0 where
  pub answer : A
  pub state : S
  pub returns : m s ≡ (ok answer, state)
  pub holds : P answer state

module _ {S E : Type 0} where
  pub bind-Leads :
      {A B : Type 0} {m : Method S E A} {k : A → Method S E B} {s : S} {P : A → S → Type 0}
      {Q : B → S → Type 0}
      → Leads m s P
      → ((a : A) (t : S) → P a t → Leads (k a) t Q)
      → Leads (m >>= k) s Q
  unfolding ◌>>=◌
  bind-Leads {A} {B} {m} {k} {s} {P} {Q} first second =
      let rest = second first.answer first.state first.holds in
      record {
        answer = rest.answer;
        state = rest.state;
        returns = rw first.returns rest.returns;
        holds = rest.holds;
      }

  pub modify-Leads :
      (g : S → S) {s : S} {P : Unit {0} → S → Type 0} → P tt (g s) → Leads (modify {E = E} g) s P
  unfolding modify
  modify-Leads g holds = record { answer = tt; state = _; returns = refl; holds = holds }

  pub reading-Leads :
      {A : Type 0} (g : S → Result E A) {s : S} {P : A → S → Type 0} (a : A)
      → g s ≡ ok a
      → P a s
      → Leads (reading g) s P
  unfolding reading
  reading-Leads {A} g {s} a e holds = record {
    answer = a;
    state = s;
    returns = ap (λ r. (r, s)) e;
    holds = holds;
  }

  pub updating-Leads :
      (g : S → Result E S) {s : S} {P : Unit {0} → S → Type 0} (t : S)
      → g s ≡ ok t
      → P tt t
      → Leads (updating g) s P
  unfolding updating
  updating-Leads g t e holds = record {
    answer = tt;
    state = t;
    returns = rw (e, updating) refl;
    holds = holds;
  }

pub weaken :
    {S E A : Type 0} {m : Method S E A} {s : S} {P Q : A → S → Type 0}
    → Leads m s P
    → ((a : A) (t : S) → P a t → Q a t)
    → Leads m s Q
weaken l more = record {
  answer = l.answer;
  state = l.state;
  returns = l.returns;
  holds = more l.answer l.state l.holds;
}

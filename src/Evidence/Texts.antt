-- ===== src/Evidence/Texts.antt =====
-- A text that stands in another.
use grc_audit_swarm.Base.{
  String, ◌≡◌, sym, ap, ◌∙◌, true, ◌==◌, eq_iff, arith, Bool-cases, inl, inr,
}
use Prim.Native.String.{◌++◌}
use Prim.Native.String.append
use grc_audit_swarm.Evidence.{starts, occurs}

-- `quote` stands in `text`.
abbrev pub StandsIn : String → String → Type 0
StandsIn quote text = (before : String) × (after : String) × (text ≡ before ++ (quote ++ after))

starts-split :
    (part text : String) → starts part text ≡ true → (after : String) × (text ≡ part ++ after)
unfolding starts
starts-split String.[] text h = (text, sym (append.nil text))
starts-split (String.◌∷◌ c s) String.[] h = cc
starts-split (String.◌∷◌ c s) (String.◌∷◌ d text) h =
    let first : (String.◌∷◌ c "" == String.◌∷◌ d "") ≡ true = ground arith in
    let rest : starts s text ≡ true = ground arith in
    let same : String.◌∷◌ c "" ≡ String.◌∷◌ d "" =
      (eq_iff (String.◌∷◌ c "") (String.◌∷◌ d "")).0 first in
    let (after, e) = starts-split s text rest in
    let e' : String.◌∷◌ d text ≡ String.◌∷◌ c (s ++ after) = cc in
    (after, e' ∙ sym (append.cons c s after))

pub occurs-StandsIn : (part text : String) → occurs part text ≡ true → StandsIn part text
unfolding occurs
occurs-StandsIn part String.[] h =
    let (after, e) = starts-split part "" h in ("", after, e ∙ sym (append.nil (part ++ after)))
occurs-StandsIn part (String.◌∷◌ c text) h = elim (Bool-cases (starts part (String.◌∷◌ c text))) [
  | inl here ↦
      let (after, e) = starts-split part (String.◌∷◌ c text) here in
      ("", after, e ∙ sym (append.nil (part ++ after)))
  | inr elsewhere ↦
      let later : occurs part text ≡ true = ground arith in
      let (before, after, e) = occurs-StandsIn part text later in
      (String.◌∷◌ c before, after, ap (String.◌∷◌ c) e ∙ sym (append.cons c before (part ++ after)))
]

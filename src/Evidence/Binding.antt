-- ===== src/Evidence/Binding.antt =====
-- The session that a vault record is bound to.
use grc_audit_swarm.Base.{
  String, ◌≡◌, refl, ◌∙◌, true, Option, none, some, ◌==◌, eq_iff, arith, Bool-cases, inl, inr, ◌⊎◌,
  Option-cases, ◌||◌,
}
use grc_audit_swarm.Json.{Members, get}
use grc_audit_swarm.Evidence.{VaultTools, of_this_session, record_session_id, members_of, set_text}

module _ (v : VaultTools) where
  -- The record names a session: in its metadata, or else in the parameters among these.
  abbrev pub Names : Members → String → Type 0
  Names ms sid =
      (metadata : Members) × (members_of (get "metadata" ms) ≡ some metadata)
      × ((set_text v (get "session_id" metadata) ≡ some sid)
          ⊎ ((params : Members) × (set_text v (get "session_id" metadata) ≡ none)
              × (members_of (get "parameters" metadata) ≡ some params)
              × (set_text v (get "session_id" params) ≡ some sid)))

  -- No session is asked for, or the record names none, or this one, or the form in which this one's
  -- account numbers are redacted.
  abbrev pub IsCitable : Option String → Members → Type 0
  IsCitable none ms = Unit {0}
  IsCitable (some sid) ms =
      (sid ≡ "")
      ⊎ (¬ ((bound : String) × Names ms bound))
      ⊎ ((bound : String) × Names ms bound × ((bound ≡ sid) ⊎ (bound ≡ v.redact sid)))

  record_session_id-Names :
      (ms : Members) (sid : String) → record_session_id v ms ≡ some sid → Names ms sid
  unfolding record_session_id
  record_session_id-Names ms sid h = elim (Option-cases (members_of (get "metadata" ms))) [
    | inl n ↦
        let never : ◌≡◌ {A = Option String} none (some sid) = rw (n, record_session_id) at h in cc
    | inr (metadata, has) ↦ elim (Option-cases (set_text v (get "session_id" metadata))) [
      | inr (own, named) ↦
          let e : ◌≡◌ {A = Option String} (some own) (some sid) =
            rw (has, named, record_session_id) at h in
          (metadata, has, inl (named ∙ e))
      | inl unnamed ↦ elim (Option-cases (members_of (get "parameters" metadata))) [
        | inl n ↦
            let never : ◌≡◌ {A = Option String} none (some sid) =
              rw (has, unnamed, n, record_session_id) at h in
            cc
        | inr (params, given) ↦
            let e : set_text v (get "session_id" params) ≡ some sid =
              rw (has, unnamed, given, record_session_id) at h in
            (metadata, has, inr (params, unnamed, given, e))
      ]
    ]
  ]

  Names-record_session_id :
      (ms : Members) (sid : String) → Names ms sid → record_session_id v ms ≡ some sid
  unfolding record_session_id
  Names-record_session_id ms sid (metadata, has, named) = elim named [
    | inl own ↦ rw (has, own, record_session_id) refl
    | inr (params, unnamed, given, theirs) ↦ rw (has, unnamed, given, record_session_id) theirs
  ]

  pub of_this_session-IsCitable :
      (session : Option String) (ms : Members)
      → of_this_session v session (record_session_id v ms) ≡ true
      → IsCitable session ms
  of_this_session-IsCitable none ms h = tt
  of_this_session-IsCitable (some sid) ms h = elim (Option-cases (record_session_id v ms)) [
    | inl n ↦ inr (inl (λ (bound, named). let e = Names-record_session_id ms bound named in cc))
    | inr (bound, found) ↦
        let named = record_session_id-Names ms bound found in
        let h' : (sid == "" || bound == sid || bound == v.redact sid) ≡ true = rw found at h in
        elim (Bool-cases (sid == "")) [
          | inl blank ↦ inl ((eq_iff sid "").0 blank)
          | inr asked ↦ elim (Bool-cases (bound == sid)) [
            | inl here ↦ inr (inr (bound, named, inl ((eq_iff bound sid).0 here)))
            | inr other ↦
                inr (inr (bound, named, inr ((eq_iff bound (v.redact sid)).0 (ground arith))))
          ]
        ]
  ]

-- ===== src/Recovery/Manager/Decide.antt =====
-- What a decision to retry promises, and when there is one.
use ai_calling_agent.Common.{
  ℕ, ◌+◌, ◌-◌, ◌≤◌, ◌<◌, Bool, true, String, Option, none, some, ◌≡◌, ◌↔◌, if◌then◌else◌, get_elem?,
  max, min, refl, sym, ◌∙◌, arith, Option-cases, inl, inr,
}
use ai_calling_agent.Model.{CallAttempt, RetryPolicy, Db, Settings}
use ai_calling_agent.Policy.Sound.{IsSound, spacing_available}
use ai_calling_agent.Recovery.Manager.{
  retry_in, rule_allows, spends_budget, provider_error_failures, with_hint, decide,
}

with_hint_bounds :
    (s : Settings) (hint : Option ℕ) (base : ℕ)
    → (base ≤ with_hint s hint base)
      × (with_hint s hint base ≤ max base s.dograh_retry_after_max_seconds)
unfolding with_hint
with_hint_bounds s none base = omega arith
with_hint_bounds s (some h) base = ground arith

with_hint-eq :
    (s : Settings) (hint : Option ℕ) (base : ℕ)
    → with_hint s hint base
      ≡ elim hint [ none ↦ base | some h ↦ max base (min h s.dograh_retry_after_max_seconds) ]
unfolding with_hint
with_hint-eq s none base = refl
with_hint-eq s (some h) base = ground arith

module _ (s : Settings) (db : Db) (attempt : CallAttempt) (policy : RetryPolicy)
    (never_connected : Bool) (key : String) (hint : Option ℕ) where
  -- The rules of the policy for this kind of failure allow a retry.
  abbrev pub IsAllowed : Type 0
  IsAllowed =
      rule_allows (if never_connected then policy.never_connected_rules else policy.mid_call_rules)
        key
      ≡ true

  -- The failure does not count against the provider's budget, or the budget is not spent.
  abbrev pub IsInBudget : Type 0
  IsInBudget =
      (never_connected ≡ true)
      → (spends_budget key ≡ true)
      → provider_error_failures db attempt ≤ s.dograh_provider_error_max_retries

  -- A retry was allowed by the rules and the budget, comes after the attempt, within the retries of
  -- the policy, and waits the spacing that the policy has for it, or, where the provider's hint, cut
  -- down to its cap, is longer, as long as that hint says: so never less than the spacing, and never
  -- more than the larger of spacing and cap.
  pub decide_retry :
      (delay number : ℕ)
      → decide s db attempt policy never_connected key hint ≡ retry_in delay number
      → IsAllowed
        × IsInBudget
        × (number ≡ attempt.attempt_number + 1)
        × (number ≤ policy.max_retries + 1)
        × (base : ℕ) × (get_elem? policy.retry_spacing_seconds (attempt.attempt_number - 1)
            ≡ some base)
        × (base ≤ delay)
        × (delay ≤ max base s.dograh_retry_after_max_seconds)
        × (delay ≡ elim hint [
          | none ↦ base
          | some h ↦ max base (min h s.dograh_retry_after_max_seconds)
        ])
  unfolding decide
  decide_retry delay number h =
      elim (Option-cases (get_elem? policy.retry_spacing_seconds (attempt.attempt_number - 1))) [
        | inl missing ↦ absurd (ground arith)
        | inr (base, found) ↦
            let at_delay : with_hint s hint base ≡ delay = ground arith in
            (
              ground arith,
              (λ never spends. ground arith),
              ground arith,
              ground arith,
              base,
              found,
              omega (arith, with_hint_bounds s hint base),
              omega (arith, with_hint_bounds s hint base),
              sym at_delay ∙ with_hint-eq s hint base,
            )
      ]

  decide_of_spacing :
      (base : ℕ)
      → IsAllowed
      → IsInBudget
      → attempt.attempt_number ≤ policy.max_retries
      → get_elem? policy.retry_spacing_seconds (attempt.attempt_number - 1) ≡ some base
      → decide s db attempt policy never_connected key hint
        ≡ retry_in (with_hint s hint base) (attempt.attempt_number + 1)
  unfolding decide
  decide_of_spacing base allowed budget more found = ground arith

  -- Under a sound policy a call is retried exactly if the rules allow it, the provider's budget is
  -- not spent, and the attempts made so far do not exceed the retries of the policy.
  pub decide_retry_iff :
      IsSound s policy
      → 0 < attempt.attempt_number
      → ((delay : ℕ) × (decide s db attempt policy never_connected key hint
            ≡ retry_in delay (attempt.attempt_number + 1)))
        ↔ (IsAllowed × IsInBudget × (attempt.attempt_number ≤ policy.max_retries))
  decide_retry_iff sound first = (
    λ h.
        let r = decide_retry h.0 (attempt.attempt_number + 1) h.1 in (r.0, r.1, omega (arith, r.3)),
    λ h.
        let (base, found, lo, hi) =
          spacing_available s policy attempt.attempt_number sound first h.2 in
        (with_hint s hint base, decide_of_spacing base h.0 h.1 h.2 found),
  )

-- ===== src/Dialer/Trigger/Ending.antt =====
-- How a trigger ends that failed or was accepted: what it leaves on hold.
use ai_calling_agent.Common.{
  ℕ, true, false, String, [], ◌∷◌, none, some, str_eq, ◌≡◌, refl, arith, ◌⊎◌, inl, inr,
  Option-cases,
}
use ai_calling_agent.Model.{Uuid, Contact, CallAttempt, Db, Settings, seconds_of, num, text}
use ai_calling_agent.Outbound.Streak.{note_permanent_failure}
use ai_calling_agent.Phone.{PhoneLib}
use ai_calling_agent.Queue.Job.{IdempotencyKey, Purpose}
use ai_calling_agent.Recovery.Manager.{log_event, save_contact}
use ai_calling_agent.Telephony.Client.{ApiError, is_ambiguous}
use ai_calling_agent.Telephony.Failure.{
  TriggerPolicy, ambiguous, limited, permanent, transient, TriggerFailure, classify_trigger_error,
  HaltCategory, systemic_failure, provider_configuration_category,
}
use ai_calling_agent.Dialer.Attempts.{change_attempt, held_event, latest_is_hold, latest_type}
use ai_calling_agent.Dialer.Attempts.Rows.{
  row_id, row_id-map, IsCalm, IsCalm-refl, IsCalm-trans, change_attempt-IsCalm, log_event-IsCalm,
}
use ai_calling_agent.Dialer.Quiet.{
  IsQuiet, reconcile_with_dograh-IsCalm, record_trigger_failure-IsQuiet,
}
use ai_calling_agent.Dialer.Reconcile.{failed_attempt, adopted_attempt, reconcile_with_dograh}
use ai_calling_agent.Dialer.State.{State, Outside}
use ai_calling_agent.Dialer.Trigger.{
  Prior, Ran, finished, raised, same_category, category_text, halt_text, hold_for_provider_halt,
  trigger_event_type, breaker_failure, trigger_failed, trigger_ambiguous, trigger_permanent,
  by_policy, trigger_error, trigger_accepted,
}

-- The state that a run leaves.
abbrev pub state_of : {A : Type 0} → Ran A → State
state_of (finished st _) = st
state_of (raised st) = st

-- Of the attempts, at most the one of the id has come to wait for the provider.
unfoldable pub IsHolding : Uuid → Db → Db → Type 0
IsHolding id db db' =
    ((contact : Uuid) (number : ℕ)
      → row_id contact number db'.attempts ≡ row_id contact number db.attempts)
    × ((i : Uuid) → latest_is_hold db' i ≡ true → (i ≡ id) ⊎ (latest_is_hold db i ≡ true))

-- A run that sends nothing more, and leaves at most the attempt of the id on hold.
abbrev pub IsEnding : Uuid → State → State → Type 0
IsEnding id st st' = IsHolding id st.db st'.db × (st'.requests ≡ st.requests)

pub IsCalm-IsHolding : (id : Uuid) (db db' : Db) → IsCalm db db' → IsHolding id db db'
unfolding IsCalm IsHolding
IsCalm-IsHolding id db db' calm = (calm.0, λ i h. inr (calm.1 i h))

pub IsQuiet-IsEnding : (id : Uuid) (st st' : State) → IsQuiet st st' → IsEnding id st st'
IsQuiet-IsEnding id st st' quiet = (IsCalm-IsHolding id st.db st'.db quiet.0, quiet.1)

hold-IsHolding :
    (o : Outside) (attempt : CallAttempt) (contact : Contact) (category : HaltCategory) (db : Db)
    → IsHolding attempt.id db (
        save_contact contact (
          log_event attempt.id held_event
            (("category", text (halt_text category)) ∷ [])
            (change_attempt attempt.id (failed_attempt o.now) db)))
unfolding IsHolding save_contact log_event change_attempt latest_is_hold latest_type
hold-IsHolding o attempt contact category db = (
  λ c n. row_id-map c n attempt.id (failed_attempt o.now) (λ a. (refl, refl, refl)) db.attempts,
  λ i h. ground arith,
)

pub hold_for_provider_halt-IsEnding :
    (o : Outside) (attempt : CallAttempt) (contact : Contact) (prior : Prior)
    (category : HaltCategory) (st : State)
    → IsEnding attempt.id st
        (state_of (hold_for_provider_halt st.db o attempt contact prior category st))
unfolding hold_for_provider_halt
hold_for_provider_halt-IsEnding o attempt contact prior category st =
    let restored : Contact = record contact {
      status = prior.status;
      attempt_count = prior.attempt_count;
    } in
    let held = hold-IsHolding o attempt restored category st.db in
    let kept = IsCalm-IsHolding attempt.id st.db st.db (IsCalm-refl st.db) in
    ground (arith, held, kept)

other_event : (policy : TriggerPolicy) → str_eq (trigger_event_type policy) held_event ≡ false
other_event ambiguous = refl
other_event limited = refl
other_event permanent = refl
other_event transient = refl

policy-classify_trigger_error :
    (e : ApiError) → is_ambiguous e ≡ true → (classify_trigger_error e).policy ≡ ambiguous
unfolding classify_trigger_error
policy-classify_trigger_error e h = ground arith

module _ {Number : Type 0} (lib : PhoneLib Number) (uuid5 : IdempotencyKey → Purpose → Uuid)
    (str_of : ℕ → String) (s : Settings) (o : Outside) (attempt : CallAttempt)
    (contact : Contact) where
  trigger_failed-IsQuiet :
      (committed : Db) (e : ApiError) (failure : TriggerFailure) (st : State)
      → IsQuiet st (trigger_failed lib uuid5 str_of s committed o attempt contact e failure st)
  unfolding trigger_failed
  trigger_failed-IsQuiet committed e failure st =
      record_trigger_failure-IsQuiet lib uuid5 str_of s o attempt contact
        (trigger_event_type failure.policy) (category_text e.category) failure.reason_key
        failure.retry_after_seconds (breaker_failure s o st) (other_event failure.policy)

  trigger_ambiguous-IsQuiet :
      (committed : Db) (e : ApiError) (failure : TriggerFailure) (st : State)
      → IsQuiet st
          (state_of (trigger_ambiguous lib uuid5 str_of s committed o attempt contact e failure st))
  unfolding trigger_ambiguous
  trigger_ambiguous-IsQuiet committed e failure st =
      let calm = reconcile_with_dograh-IsCalm str_of attempt o.first_lookup st.db in
      let db1 = (reconcile_with_dograh str_of attempt o.first_lookup st.db).0 in
      let later = trigger_failed-IsQuiet committed e failure (record st { db = db1 }) in
      let failed = IsCalm-trans st.db db1 _ calm later.0 in ground (arith, calm, failed, later)

  trigger_permanent-IsEnding :
      (prior : Prior) (e : ApiError) (failure : TriggerFailure) (st : State)
      → IsEnding attempt.id st (
          state_of
            (trigger_permanent lib uuid5 str_of s st.db o attempt contact prior e failure st))
  unfolding trigger_permanent
  trigger_permanent-IsEnding prior e failure st =
      let streak =
        (note_permanent_failure same_category o.redis_up o.now
          (seconds_of s.provider_halt_streak_ttl_seconds) e.category contact.id st.streak).0 in
      let st1 : State = record st { streak = streak } in
      let held = hold_for_provider_halt-IsEnding o attempt contact prior systemic_failure st1 in
      let failed =
        IsQuiet-IsEnding attempt.id st1
          (trigger_failed lib uuid5 str_of s st.db o attempt contact e failure st1)
          (trigger_failed-IsQuiet st.db e failure st1) in
      ground (arith, held, failed)

  by_policy-IsEnding :
      (policy : TriggerPolicy) (prior : Prior) (e : ApiError) (failure : TriggerFailure)
      (st : State)
      → IsEnding attempt.id st (
          state_of (by_policy lib uuid5 str_of s st.db o policy attempt contact prior e failure st))
  by_policy-IsEnding ambiguous prior e failure st =
      IsQuiet-IsEnding attempt.id st
        (state_of (trigger_ambiguous lib uuid5 str_of s st.db o attempt contact e failure st))
        (trigger_ambiguous-IsQuiet st.db e failure st)
  by_policy-IsEnding permanent prior e failure st = trigger_permanent-IsEnding prior e failure st
  by_policy-IsEnding limited prior e failure st =
      IsQuiet-IsEnding attempt.id st
        (trigger_failed lib uuid5 str_of s st.db o attempt contact e failure st)
        (trigger_failed-IsQuiet st.db e failure st)
  by_policy-IsEnding transient prior e failure st =
      IsQuiet-IsEnding attempt.id st
        (trigger_failed lib uuid5 str_of s st.db o attempt contact e failure st)
        (trigger_failed-IsQuiet st.db e failure st)

  trigger_error-configuration :
      (prior : Prior) (e : ApiError) (st : State) (category : HaltCategory)
      → provider_configuration_category e ≡ some category
      → trigger_error lib uuid5 str_of s st.db o attempt contact prior e st
        ≡ hold_for_provider_halt st.db o attempt contact prior category st
  unfolding trigger_error
  trigger_error-configuration prior e st category h = ground arith

  trigger_error-policy :
      (prior : Prior) (e : ApiError) (st : State)
      → provider_configuration_category e ≡ none
      → trigger_error lib uuid5 str_of s st.db o attempt contact prior e st
        ≡ by_policy lib uuid5 str_of s st.db o
            (classify_trigger_error e).policy
            attempt
            contact
            prior
            e
            (classify_trigger_error e)
            st
  unfolding trigger_error
  trigger_error-policy prior e st h = ground arith

  pub trigger_error-IsEnding :
      (prior : Prior) (e : ApiError) (st : State)
      → IsEnding attempt.id st
          (state_of (trigger_error lib uuid5 str_of s st.db o attempt contact prior e st))
  trigger_error-IsEnding prior e st = elim (Option-cases (provider_configuration_category e)) [
    | inl fine ↦
        rw (trigger_error-policy prior e st fine) (
          by_policy-IsEnding (classify_trigger_error e).policy prior e (classify_trigger_error e)
            st)
    | inr (category, fault) ↦
        rw (trigger_error-configuration prior e st category fault)
          (hold_for_provider_halt-IsEnding o attempt contact prior category st)
  ]

  -- An ambiguous failure holds nothing.
  pub trigger_error-IsQuiet :
      (prior : Prior) (e : ApiError) (st : State)
      → is_ambiguous e ≡ true
      → provider_configuration_category e ≡ none
      → IsQuiet st (state_of (trigger_error lib uuid5 str_of s st.db o attempt contact prior e st))
  unfolding classify_trigger_error
  trigger_error-IsQuiet prior e st open_end fine =
      rw (trigger_error-policy prior e st fine, policy-classify_trigger_error e open_end)
        (trigger_ambiguous-IsQuiet st.db e (classify_trigger_error e) st)

  pub trigger_accepted-IsQuiet :
      (committed : Db) (run_id : ℕ) (st : State)
      → IsQuiet st (trigger_accepted lib uuid5 str_of s committed o attempt run_id st)
  unfolding trigger_accepted
  trigger_accepted-IsQuiet committed run_id st = (
    IsCalm-trans st.db _ _
        (change_attempt-IsCalm attempt.id (adopted_attempt (str_of run_id)) st.db
          (λ a. (refl, refl, refl)))
        (log_event-IsCalm attempt.id "DOGRAH_CALL_TRIGGERED" (("workflow_run_id", num run_id) ∷ [])
          _ refl),
    refl,
  )

-- ===== src/Dialer/Trigger.antt =====
-- The trigger of a call at the provider, and the hold when the provider itself is at fault.
pub mod Ending
pub mod Placing
use ai_calling_agent.Common.{
  ℕ, ◌+◌, Bool, true, false, not, ◌&&◌, ◌||◌, String, List, [], ◌∷◌, Option, none, some, leb, ltb,
  ◌==◌, if◌then◌else◌,
}
use ai_calling_agent.Common.Result.{Result, ok, err}
use ai_calling_agent.Common.Text.{codes}
use ai_calling_agent.Model.{Uuid, Contact, CallAttempt, Db, Settings, Value, num, text, seconds_of}
use ai_calling_agent.Model.Enums.{ContactStatus}
use ai_calling_agent.Outbound.Control.{provider_halt, engage}
use ai_calling_agent.Outbound.Streak.{note_permanent_failure, reset_streak}
use ai_calling_agent.Phone.{PhoneLib}
use ai_calling_agent.Queue.Job.{IdempotencyKey, Purpose}
use ai_calling_agent.Recovery.Manager.{log_event, save_contact}
use ai_calling_agent.Telephony.Breaker.{record_success, record_failure}
use ai_calling_agent.Telephony.Client.{
  ErrorCategory, timeout, connection_error, authentication_error, validation_error, rate_limited,
  provider_unavailable, provider_rejected, ambiguous_request, unknown_provider_error, ApiError,
  trigger_call,
}
use ai_calling_agent.Telephony.Failure.{
  TriggerPolicy, ambiguous, permanent, TriggerFailure, classify_trigger_error, HaltCategory,
  authentication, rejected, quota_exhausted, configuration, systemic_failure,
  provider_configuration_category,
}
use ai_calling_agent.Dialer.Attempts.{change_attempt, ambiguous_event, held_event}
use ai_calling_agent.Dialer.Reconcile.{
  on_db, failed_attempt, adopted_attempt, reconcile_with_dograh, record_trigger_failure,
}
use ai_calling_agent.Dialer.State.{
  Request, State, Outside, JobOutcome, reconciled_existing_run, provider_halted,
}

-- The values of the two enumerations.
abbrev pub category_text : ErrorCategory → String
category_text timeout = "timeout"
category_text connection_error = "connection_error"
category_text authentication_error = "authentication_error"
category_text validation_error = "validation_error"
category_text rate_limited = "rate_limited"
category_text provider_unavailable = "provider_unavailable"
category_text provider_rejected = "provider_rejected"
category_text ambiguous_request = "ambiguous_request"
category_text unknown_provider_error = "unknown_provider_error"

abbrev pub halt_text : HaltCategory → String
halt_text authentication = "authentication_error"
halt_text rejected = "provider_rejected"
halt_text quota_exhausted = "quota_exhausted"
halt_text configuration = "configuration_error"
halt_text systemic_failure = "systemic_failure"

abbrev pub same_category : ErrorCategory → ErrorCategory → Bool
same_category timeout timeout = true
same_category connection_error connection_error = true
same_category authentication_error authentication_error = true
same_category validation_error validation_error = true
same_category rate_limited rate_limited = true
same_category provider_unavailable provider_unavailable = true
same_category provider_rejected provider_rejected = true
same_category ambiguous_request ambiguous_request = true
same_category unknown_provider_error unknown_provider_error = true
same_category _ _ = false

-- `_Prior`
pub record Prior : Type 0 where
  pub status : ContactStatus
  pub attempt_count : ℕ

-- How a run of the worker's code ends: it returns, or an exception leaves it and the session goes
-- back to its last commit.
pub data Ran (A : Type 0) : Type 0 where
  finished : State → A → Ran A
  raised : State → Ran A

-- `_hold_for_provider_halt`. A control that cannot be written raises. The reason text comes from a
-- fixed vocabulary, by the category.
unfoldable pub hold_for_provider_halt :
    Db → Outside → CallAttempt → Contact → Prior → HaltCategory → State → Ran (Option JobOutcome)
hold_for_provider_halt committed o attempt contact prior category st =
    let db1 =
      save_contact (record contact { status = prior.status; attempt_count = prior.attempt_count })
        (log_event attempt.id held_event (("category", text (halt_text category)) ∷ [])
          (change_attempt attempt.id (failed_attempt o.now) st.db)) in
    let (controls, written) =
      engage o.controls_up o.now provider_halt (codes "system") (some (codes (halt_text category)))
        (some (codes (halt_text category))) true st.controls in
    elim written [
      | err _ ↦ raised (record st { db = committed })
      | ok changed ↦
          finished
            (record st {
              db = db1;
              controls = controls;
              streak = if changed then reset_streak o.redis_up st.streak else st.streak;
            })
            (some provider_halted)
    ]

-- `_trigger_event_type`
abbrev pub trigger_event_type : TriggerPolicy → String
trigger_event_type ambiguous = ambiguous_event
trigger_event_type _ = "DOGRAH_TRIGGER_FAILED"

abbrev pub breaker_failure : Settings → Outside → State → State
breaker_failure s o st = record st {
  breaker =
      record_failure s.circuit_breaker_error_threshold (seconds_of s.circuit_breaker_open_seconds)
        o.now st.breaker;
}

abbrev pub breaker_success : State → State
breaker_success st = record st { breaker = record_success st.breaker }

module _ {Number : Type 0} (lib : PhoneLib Number) (uuid5 : IdempotencyKey → Purpose → Uuid)
    (str_of : ℕ → String) (s : Settings) (committed : Db) (o : Outside) where
  -- A trigger that the provider refused for this contact, or lost: the breaker and RecoveryManager.
  unfoldable pub trigger_failed : CallAttempt → Contact → ApiError → TriggerFailure → State → State
  trigger_failed attempt contact e failure st =
      record_trigger_failure lib uuid5 str_of s o attempt contact
        (trigger_event_type failure.policy) (category_text e.category) failure.reason_key
        failure.retry_after_seconds (breaker_failure s o st)

  -- The outcome of the first lookup, after an ambiguous trigger.
  unfoldable pub trigger_ambiguous :
      CallAttempt → Contact → ApiError → TriggerFailure → State → Ran (Option JobOutcome)
  trigger_ambiguous attempt contact e failure st =
      let (db1, resolved, note) = reconcile_with_dograh str_of attempt o.first_lookup st.db in
      let st1 = record st { db = db1 } in
      elim resolved [
        | none ↦ finished (trigger_failed attempt contact e failure st1) none
        | some reconciled_existing_run ↦
            finished (breaker_success st1) (some reconciled_existing_run)
        | some outcome ↦ finished (breaker_failure s o st1) (some outcome)
      ]

  -- The systemic detector, for a permanent failure.
  unfoldable pub trigger_permanent :
      CallAttempt → Contact → Prior → ApiError → TriggerFailure → State → Ran (Option JobOutcome)
  trigger_permanent attempt contact prior e failure st =
      let (streak, count) =
        note_permanent_failure same_category o.redis_up o.now
          (seconds_of s.provider_halt_streak_ttl_seconds) e.category contact.id st.streak in
      let st1 = record st { streak = streak } in
      if leb s.provider_halt_systemic_threshold count
      then hold_for_provider_halt committed o attempt contact prior systemic_failure st1
      else finished (trigger_failed attempt contact e failure st1) none

  abbrev pub by_policy :
      TriggerPolicy
      → CallAttempt
      → Contact
      → Prior
      → ApiError
      → TriggerFailure
      → State
      → Ran (Option JobOutcome)
  by_policy ambiguous attempt contact prior e failure st =
      trigger_ambiguous attempt contact e failure st
  by_policy permanent attempt contact prior e failure st =
      trigger_permanent attempt contact prior e failure st
  by_policy _ attempt contact prior e failure st =
      finished (trigger_failed attempt contact e failure st) none

  -- `except DograhApiError`
  unfoldable pub trigger_error :
      CallAttempt → Contact → Prior → ApiError → State → Ran (Option JobOutcome)
  trigger_error attempt contact prior e st = elim (provider_configuration_category e) [
    | some category ↦ hold_for_provider_halt committed o attempt contact prior category st
    | none ↦
        by_policy (classify_trigger_error e).policy attempt contact prior e
          (classify_trigger_error e) st
  ]

  -- A trigger that the provider accepted: the attempt stays initiated.
  unfoldable pub trigger_accepted : CallAttempt → ℕ → State → State
  trigger_accepted attempt run_id st = record (breaker_success st) {
    streak = reset_streak o.redis_up st.streak;
    db =
        log_event attempt.id "DOGRAH_CALL_TRIGGERED" (("workflow_run_id", num run_id) ∷ [])
          (change_attempt attempt.id (adopted_attempt (str_of run_id)) st.db);
  }

  -- `_place_call_via_dograh`. The session was committed before; without a configured client no
  -- request leaves the process. An interrupted run leaves what was committed, and the request.
  unfoldable pub place_call : CallAttempt → Contact → Prior → State → Ran (Option JobOutcome)
  place_call attempt contact prior st =
      if not o.configured
      then hold_for_provider_halt committed o attempt contact prior configuration st
      else let st1 = record st {
        requests =
            record { contact = contact.id; number = attempt.attempt_number; answer = o.answer }
            ∷ st.requests;
      } in
        if o.interrupted
        then raised (record st1 { db = committed })
        else elim (trigger_call o.answer) [
          | ok run_id ↦ finished (trigger_accepted attempt run_id st1) none
          | err e ↦ trigger_error attempt contact prior e st1
        ]

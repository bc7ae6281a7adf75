-- ===== src/Webhook.antt =====
-- The completion webhook of the provider
-- (backend/app/services/telephony/dograh_webhook_service.py, backend/app/schemas/dograh_webhook.py):
-- what it is given, what it may change, and whether it belongs to the attempt that it names.
--
-- A delivery is one transaction: an exception returns the state that it started from. The reading
-- and the text of a UUID are arguments, as are `str` of a number and `str.lower`. The metadata of an
-- audit row leaves out what repeats the payload or the state before.
pub mod Transcript
pub mod Handler
pub mod Settle
pub mod Process
pub mod Once
pub mod OptOut
pub mod Settled
pub mod Calm
use ai_calling_agent.Common.{
  ℕ, Bool, true, false, not, ◌&&◌, ◌||◌, String, List, [], ◌∷◌, Option, none, some, ◌==◌, ltb, min,
  if◌then◌else◌, any, is_some, str_eq,
}
use ai_calling_agent.Common.Result.{Result, ok, err}
use ai_calling_agent.Common.Text.{Text, text_eq}
use ai_calling_agent.Calling.Window.{Time}
use ai_calling_agent.Model.{Uuid, Contact, Campaign, CallAttempt, Db, Value, text}
use ai_calling_agent.Recovery.Manager.{World, record_audit, is_dograh}
use ai_calling_agent.Webhook.Transcript.{ConversationSession, TranscriptResult}

-- The run id of a payload: an `int`, where a negative one is left out, or a `str`.
pub data RunValue : Type 0 where
  number : ℕ → RunValue
  label : String → RunValue

-- What `float()` makes of the reported length, in microseconds, and `int()` of the workflow id.
pub data DurationValue : Type 0 where
  unreadable non_finite negative : DurationValue
  length_of : ℕ → DurationValue

pub data WorkflowValue : Type 0 where
  unreadable not_positive : WorkflowValue
  workflow : ℕ → WorkflowValue

-- `DograhWebhookPayload`, less the fields that nothing reads.
pub record Payload : Type 0 where
  pub call_attempt_id : String
  pub contact_id : Option String
  pub campaign_id : Option String
  pub workflow_run_id : Option RunValue
  pub workflow_id : WorkflowValue
  pub call_status : Option Text
  pub call_disposition : Option Text
  pub mapped_call_disposition : Option Text
  pub duration_seconds : DurationValue
  -- The answer of the fetch, if the payload has a link.
  pub transcript : Option TranscriptResult

-- The rows that a webhook reads and writes beside those of `Db`: the processed events, the sessions,
-- the contacts that have a suppression row, and two columns of an attempt.
pub record WebhookState : Type 0 where
  pub world : World
  pub processed : List String
  pub sessions : List ConversationSession
  pub suppressed_contacts : List Uuid
  pub durations : Uuid → Option ℕ
  pub workflow_ids : Uuid → Option ℕ

-- `DograhWebhookResult.outcome`
pub data WebhookOutcome : Type 0 where
  already_processed non_final_ignored ended_normally dropped_mid_call never_connected :
      WebhookOutcome

-- `DograhWebhookError` by its status, the conflict of a unique constraint, and a failed assertion.
pub data WebhookError : Type 0 where
  http_status : ℕ → WebhookError
  integrity_error assertion_error : WebhookError

-- What leaves a delivery: the state as committed, and the result or the exception.
abbrev pub Delivered : Type 0
Delivered = WebhookState × Result WebhookError WebhookOutcome

module _ (str_of : ℕ → String) (uuid_text : Uuid → String) where
  abbrev pub run_text : RunValue → String
  run_text (number n) = str_of n
  run_text (label t) = t

  -- `payload.workflow_run_id or payload.call_attempt_id`
  abbrev is_truthy : RunValue → Bool
  is_truthy (number n) = not (n == 0)
  is_truthy (label t) = not (str_eq t "")

  abbrev run_or : Option RunValue → String → String
  run_or none fallback = fallback
  run_or (some run) fallback = if is_truthy run then run_text run else fallback

  unfoldable pub event_id : Payload → String
  event_id payload =
      Prim.Native.String.◌++◌ "dograh:" (run_or payload.workflow_run_id payload.call_attempt_id)

  abbrev differs : Option String → String → Bool
  differs none value = false
  differs (some echoed) value = not (str_eq echoed value)

  -- The run is recorded for another attempt.
  unfoldable pub owned_by_other : Db → CallAttempt → String → Bool
  owned_by_other db attempt run =
      any
        (λ (a : CallAttempt).
          elim a.provider_call_id [ none ↦ false | some own ↦ str_eq own run ]
          && not (a.id == attempt.id))
        db.attempts

  abbrev run_problem : Db → CallAttempt → Bool → String → Option String
  run_problem db attempt unresolved run =
      let mismatch = differs attempt.provider_call_id run in
      let adopts = not (is_some attempt.provider_call_id) || unresolved in
      if mismatch
      then some "run_mismatch"
      else if adopts && owned_by_other db attempt run
      then some "run_owned_by_other_attempt"
      else none

  -- `_validate_correlation`: the problem, if there is one.
  unfoldable pub correlation_problem : Db → Payload → CallAttempt → Contact → Bool → Option String
  unfolding owned_by_other
  correlation_problem db payload attempt contact unresolved =
      if is_some attempt.provider && not (is_dograh attempt.provider)
      then some "attempt_not_dograh"
      else if differs payload.contact_id (uuid_text attempt.contact_id)
      then some "contact_mismatch"
      else if differs payload.campaign_id (uuid_text contact.campaign_id)
      then some "campaign_mismatch"
      else elim payload.workflow_run_id [
        | none ↦ none
        | some run ↦ run_problem db attempt unresolved (run_text run)
      ]

-- A change of the session only.
abbrev pub in_db : (Db → Db) → WebhookState → WebhookState
in_db f st = record st { world = record st.world { db = f st.world.db } }

-- `_reject_correlation`: the audit row is committed before the request fails.
unfoldable pub reject_correlation : CallAttempt → String → WebhookState → Delivered
reject_correlation attempt problem st = (
  in_db
      (record_audit "dograh-webhook" "dograh.webhook_correlation_rejected" attempt.id
        (("problem", text problem) ∷ []))
      st,
  err (http_status 409),
)

-- `_parse_duration`, in microseconds, and `_parse_positive_int`.
unfoldable pub parse_duration : DurationValue → Option ℕ
parse_duration (length_of n) = some (min n 86400000000)
parse_duration _ = none

unfoldable pub parse_positive_int : WorkflowValue → Option ℕ
parse_positive_int (workflow n) = if ltb 0 n then some n else none
parse_positive_int _ = none

-- `claim_event` of backend/app/services/processed_event_service.py: the unique constraint lets one
-- delivery of an event through.
abbrev pub seen : String → List String → Bool
seen event events = any (λ e. str_eq e event) events

unfoldable pub claim_event : String → WebhookState → Option WebhookState
claim_event event st =
    if seen event st.processed then none else some (record st { processed = event ∷ st.processed })

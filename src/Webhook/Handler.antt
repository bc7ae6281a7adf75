-- ===== src/Webhook/Handler.antt =====
-- What a webhook writes (backend/app/services/telephony/dograh_webhook_service.py).
--
-- The attempt and the contact are rows of the session that the source mutates: they are passed on
-- as they are so far, and each assignment is written to its row.
use ai_calling_agent.Common.{
  ℕ, Bool, true, false, String, List, [], ◌∷◌, Option, none, some, ◌==◌, if◌then◌else◌, any,
  is_some,
}
use ai_calling_agent.Common.Table.{put_row}
use ai_calling_agent.Common.Text.{Text}
use ai_calling_agent.Calling.Window.{Time}
use ai_calling_agent.Model.{Uuid, Contact, CallAttempt}
use ai_calling_agent.Model.Enums.{
  ContactStatus, CallAttemptState, initiated, connected, failed_to_connect, dropped_mid_call,
  ended_normally, NeverConnectedFailureReason, MidCallDisconnectReason,
}
use ai_calling_agent.Recovery.Manager.{save_contact}
use ai_calling_agent.Dialer.Attempts.{change_attempt}
use ai_calling_agent.Webhook.{Payload, WebhookState, in_db, parse_duration, parse_positive_int}
use ai_calling_agent.Webhook.Transcript.{
  ConversationSession, TranscriptResult, apply_transcript_result,
}

-- `db.get(CallAttempt, id)`
unfoldable pub attempt_by_id : Uuid → List CallAttempt → Option CallAttempt
attempt_by_id id [] = none
attempt_by_id id (a ∷ rows) =
    let rest = attempt_by_id id rows in if a.id == id then some a else rest

-- The attempt has an outcome.
abbrev pub is_terminal : CallAttemptState → Bool
is_terminal initiated = false
is_terminal connected = false
is_terminal failed_to_connect = true
is_terminal dropped_mid_call = true
is_terminal ended_normally = true

-- The values of the two enumerations.
abbrev pub never_connected_text : NeverConnectedFailureReason → String
never_connected_text NeverConnectedFailureReason.no_answer = "no_answer"
never_connected_text NeverConnectedFailureReason.busy = "busy"
never_connected_text NeverConnectedFailureReason.invalid_number = "invalid_number"
never_connected_text NeverConnectedFailureReason.rejected = "rejected"
never_connected_text NeverConnectedFailureReason.network_error = "network_error"
never_connected_text NeverConnectedFailureReason.provider_error = "provider_error"

abbrev pub mid_call_text : MidCallDisconnectReason → String
mid_call_text MidCallDisconnectReason.technical_issue = "technical_issue"
mid_call_text MidCallDisconnectReason.network_problem = "network_problem"
mid_call_text MidCallDisconnectReason.provider_error = "provider_error"
mid_call_text MidCallDisconnectReason.ai_error = "ai_error"
mid_call_text MidCallDisconnectReason.unknown = "unknown"
mid_call_text MidCallDisconnectReason.customer_hangup = "customer_hangup"

-- `classification.reason_key or reason.value`; no key is empty.
abbrev pub key_or : Option String → String → String
key_or none fallback = fallback
key_or (some key) fallback = key

-- The three ends of an attempt.
abbrev pub never_connected_attempt : NeverConnectedFailureReason → Time → CallAttempt → CallAttempt
never_connected_attempt reason now attempt = record attempt {
  state = failed_to_connect;
  connection_failure_reason = some reason;
  ended_at = some now;
}

abbrev pub ended_attempt : Time → CallAttempt → CallAttempt
ended_attempt now attempt = record attempt { state = ended_normally; ended_at = some now }

abbrev pub dropped_attempt : MidCallDisconnectReason → Time → CallAttempt → CallAttempt
dropped_attempt reason now attempt = record attempt {
  state = dropped_mid_call;
  disconnect_reason = some reason;
  ended_at = some now;
}

-- The contact after a call, whose status an opt-out leaves as it is.
abbrev pub contact_after : Bool → ContactStatus → Contact → Contact
contact_after opted_out status contact =
    if opted_out then contact else record contact { status = status }

abbrev pub session_of : ConversationSession → Uuid → Bool
session_of session id = session.call_attempt_id == id

-- `_populate_transcript`
unfoldable pub populated :
    (Text → Text) → Option TranscriptResult → ConversationSession → ConversationSession
populated lower none session = session
populated lower (some result) session = apply_transcript_result lower result session

-- The session of a call that did connect; one session for an attempt is all that its unique
-- constraint takes.
unfoldable pub add_session :
    (Text → Text) → CallAttempt → Time → Payload → WebhookState → Option WebhookState
add_session lower attempt now payload st =
    if any (λ s. session_of s attempt.id) st.sessions
    then none
    else some (record st {
      sessions =
          populated lower payload.transcript (record {
            call_attempt_id = attempt.id;
            ended_at = now;
            transcript_status = none;
            transcript_unavailable_reason = none;
            keeps_transcript_url = false;
            messages = [];
          })
          ∷ st.sessions;
    })

-- Assignments to the attempt of an id, and the contact as it is.
abbrev pub saved : Uuid → (CallAttempt → CallAttempt) → Contact → WebhookState → WebhookState
saved id change contact = in_db (λ db. save_contact contact (change_attempt id change db))

-- The columns that a webhook fills in: the length of the call, and the workflow, whose first value
-- stays.
abbrev pub noted_duration : CallAttempt → Option ℕ → WebhookState → WebhookState
noted_duration attempt none st = st
noted_duration attempt (some n) st = record st { durations = put_row attempt.id n st.durations }

abbrev pub noted_workflow : CallAttempt → Option ℕ → WebhookState → WebhookState
noted_workflow attempt none st = st
noted_workflow attempt (some n) st =
    if is_some (st.workflow_ids attempt.id)
    then st
    else record st { workflow_ids = put_row attempt.id n st.workflow_ids }

unfoldable pub noted : CallAttempt → Payload → WebhookState → WebhookState
unfolding parse_duration parse_positive_int
noted attempt payload st =
    noted_workflow attempt (parse_positive_int payload.workflow_id)
      (noted_duration attempt (parse_duration payload.duration_seconds) st)

-- ===== src/Examples/Webhooks.antt =====
-- The webhook of a call that ended with an opt-out, delivered twice.
use ai_calling_agent.Common.{
  ℕ, ◌≤◌, ◌≡◌, refl, true, String, [], ◌∷◌, Option, none, some, ◌==◌, if◌then◌else◌, str_eq,
}
use ai_calling_agent.Common.Text.{codes, strip, strip_left, is_space}
use ai_calling_agent.Model.{Uuid, CallAttempt, Contact}
use ai_calling_agent.Recovery.Manager.{save_contact}
use ai_calling_agent.Dialer.Attempts.{is_unresolved_ambiguous_trigger, change_attempt}
use ai_calling_agent.Telephony.Outcome.{
  is_opt_out, token, collapse, strip_front, strip_back, classify_call_outcome, combine, vocabulary,
  is_word,
}
use ai_calling_agent.Webhook.{correlation_problem, claim_event}
use ai_calling_agent.Model.Enums.{ContactStatus, CallAttemptState}
use ai_calling_agent.Webhook.{Payload, number, length_of, WebhookState, event_id, seen}
use ai_calling_agent.Webhook.Handler.{attempt_by_id, add_session}
use ai_calling_agent.Webhook.Settle.{Process}
use ai_calling_agent.Webhook.Process.{process_dograh_webhook}
use ai_calling_agent.Webhook.Once.Claiming.{WebhookDelivery, decided}
use ai_calling_agent.Webhook.Once.{decisions, decisions_once, processed_by}
use ai_calling_agent.Webhook.OptOut.Applied.{IsOptedOut}
use ai_calling_agent.Webhook.OptOut.Shut.{process_dograh_webhook-opt_out}
use ai_calling_agent.Webhook.Settled.{IsRefused, process_dograh_webhook-settled}
use ai_calling_agent.Examples.Calls.{uuid5, attempt}
use ai_calling_agent.Examples.Phones.{phone_book}
use ai_calling_agent.Examples.Policies.{settings, db, noon, contact}

abbrev str_of : ℕ → String
str_of n = if n == 900 then "900" else "0"

abbrev uuid_text : Uuid → String
uuid_text id = if id == 11 then "attempt-11" else "other"

abbrev parse_uuid : String → Option Uuid
parse_uuid s = if str_eq s "attempt-11" then some 11 else none

-- The attempt as its trigger left it.
abbrev placed_attempt : CallAttempt
placed_attempt = record attempt {
  state = CallAttemptState.initiated;
  connection_failure_reason = none;
  provider_call_id = some "900";
  ended_at = none;
}

abbrev dialing_contact : Contact
dialing_contact = record contact { status = ContactStatus.dialing }

abbrev start_of : CallAttempt → WebhookState
start_of a = record {
  world = record {
    db = record db {
      attempts = a ∷ [];
      contacts = λ i. if i == 3 then some dialing_contact else none;
    };
    schedule = [];
  };
  processed = [];
  sessions = [];
  suppressed_contacts = [];
  durations = λ _. none;
  workflow_ids = λ _. none;
}

abbrev opt_out : Payload
opt_out = record {
  call_attempt_id = "attempt-11";
  contact_id = none;
  campaign_id = none;
  workflow_run_id = some (number 900);
  workflow_id = ai_calling_agent.Webhook.WorkflowValue.unreadable;
  call_status = some (codes "completed");
  call_disposition = some (codes "do_not_call");
  mapped_call_disposition = none;
  duration_seconds = length_of 30000000;
  transcript = none;
}

abbrev process : Process
process = record { now = noon; redis_up = true; opt_out_codes = codes "do_not_call" ∷ [] }

abbrev delivery : WebhookDelivery
delivery = record { process = process; known = []; payload = opt_out }

decisions_once_example :
    decisions phone_book uuid5 str_of uuid_text parse_uuid
      (λ t. t)
      settings
      "dograh:900"
      (delivery ∷ delivery ∷ [])
      (start_of placed_attempt)
    ≤ 1
decisions_once_example =
    decisions_once phone_book uuid5 str_of uuid_text parse_uuid (λ t. t) settings "dograh:900"
      (delivery ∷ delivery ∷ []) (start_of placed_attempt)

opt_out_is_one : is_opt_out (λ t. t) (some (codes "do_not_call")) none process.opt_out_codes ≡ true
unfolding is_opt_out token collapse strip_front strip_back strip strip_left is_space
opt_out_is_one = refl

abbrev after_opt_out : WebhookState
after_opt_out =
    (process_dograh_webhook phone_book uuid5 str_of uuid_text parse_uuid (λ t. t) settings process
      [] opt_out (start_of placed_attempt)).0

opt_out_decides :
    decided
      (process_dograh_webhook phone_book uuid5 str_of uuid_text parse_uuid
        (λ t. t)
        settings
        process
        []
        opt_out
        (start_of placed_attempt)).1
    ≡ true
unfolding process_dograh_webhook attempt_by_id correlation_problem is_unresolved_ambiguous_trigger
    classify_call_outcome combine vocabulary is_word token strip_back strip_front collapse strip
    claim_event is_opt_out add_session save_contact change_attempt
opt_out_decides = refl

process_dograh_webhook-opt_out_example :
    IsOptedOut phone_book uuid5 str_of uuid_text parse_uuid
      (λ t. t)
      settings
      dialing_contact
      (start_of placed_attempt)
      after_opt_out
unfolding attempt_by_id
process_dograh_webhook-opt_out_example =
    process_dograh_webhook-opt_out phone_book uuid5 str_of uuid_text parse_uuid (λ t. t) settings
      process [] opt_out 11 placed_attempt dialing_contact (start_of placed_attempt) refl refl refl
      (λ h. absurd (cc h)) opt_out_is_one opt_out_decides

-- The same words for an attempt that ended long ago.
abbrev settled_attempt : CallAttempt
settled_attempt = record placed_attempt { state = CallAttemptState.ended_normally }

process_dograh_webhook-settled_example : IsRefused (start_of settled_attempt) (
    processed_by phone_book uuid5 str_of uuid_text parse_uuid
      (λ t. t)
      settings
      process
      []
      opt_out
      (start_of settled_attempt))
unfolding attempt_by_id is_unresolved_ambiguous_trigger
process_dograh_webhook-settled_example =
    process_dograh_webhook-settled phone_book uuid5 str_of uuid_text parse_uuid (λ t. t) settings
      process [] opt_out 11 settled_attempt (start_of settled_attempt) refl refl (λ e. cc) (λ e. cc)
      refl

-- ===== src/Webhook/Process.antt =====
-- `process_dograh_webhook` (backend/app/services/telephony/dograh_webhook_service.py), from the
-- first test for a known event to the outcome.
--
-- The first test reads the processed events on its own: they are an argument, since another
-- delivery may commit between it and the claim of the event.
use ai_calling_agent.Common.{
  ℕ, Bool, true, false, not, ◌&&◌, String, List, [], Option, none, some, if◌then◌else◌,
}
use ai_calling_agent.Common.Result.{ok, err}
use ai_calling_agent.Common.Text.{Text}
use ai_calling_agent.Model.{Uuid, Contact, Campaign, CallAttempt, Settings}
use ai_calling_agent.Model.Enums.{}
use ai_calling_agent.Phone.{PhoneLib}
use ai_calling_agent.Queue.Job.{IdempotencyKey, Purpose}
use ai_calling_agent.Recovery.Manager.{record_audit}
use ai_calling_agent.Dialer.Attempts.{is_unresolved_ambiguous_trigger}
use ai_calling_agent.Telephony.Outcome.{CallOutcome, classify_call_outcome, is_opt_out}
use ai_calling_agent.Webhook.{
  Payload, WebhookState, already_processed, non_final_ignored, http_status, Delivered, event_id,
  correlation_problem, in_db, reject_correlation, seen, claim_event,
}
use ai_calling_agent.Webhook.Handler.{attempt_by_id, is_terminal, saved, noted}
use ai_calling_agent.Webhook.Settle.{
  Process, adoption_audit, closed_contact, linked, linked_contact, settle_call,
  suppress_for_opt_out,
}

module _ {Number : Type 0} (lib : PhoneLib Number) (uuid5 : IdempotencyKey → Purpose → Uuid)
    (str_of : ℕ → String) (uuid_text : Uuid → String) (parse_uuid : String → Option Uuid)
    (lower : Text → Text) (s : Settings) where
  -- From the claim of the event on.
  unfoldable pub apply_outcome :
      Process
      → Payload
      → CallAttempt
      → Contact
      → Campaign
      → Bool
      → CallOutcome
      → WebhookState
      → WebhookState
      → Delivered
  unfolding noted suppress_for_opt_out settle_call
  apply_outcome p payload attempt contact campaign unresolved outcome start st =
      let opted_out =
        is_opt_out lower payload.call_disposition payload.mapped_call_disposition p.opt_out_codes in
      let attempt' =
        linked lib uuid5 str_of uuid_text parse_uuid lower s unresolved payload attempt in
      let contact' =
        linked_contact lib uuid5 str_of uuid_text parse_uuid lower s unresolved contact in
      let st1 =
        in_db (adoption_audit lib uuid5 str_of uuid_text parse_uuid lower s unresolved attempt) (
          saved attempt.id (linked lib uuid5 str_of uuid_text parse_uuid lower s unresolved payload)
            contact' (noted attempt payload st)) in
      if opted_out
      then settle_call lib uuid5 str_of uuid_text parse_uuid lower s p payload attempt'
          (closed_contact lib uuid5 str_of uuid_text parse_uuid lower s contact') campaign outcome
          true start
          (suppress_for_opt_out lib uuid5 str_of uuid_text parse_uuid lower s attempt' contact' st1)
      else settle_call lib uuid5 str_of uuid_text parse_uuid lower s p payload attempt' contact'
          campaign outcome false start st1

  -- An attempt that has its outcome, and is no provisional failure, is refused and left on record.
  unfoldable pub judge :
      Process → Payload → CallAttempt → Contact → Campaign → Bool → WebhookState → Delivered
  unfolding apply_outcome
  judge p payload attempt contact campaign unresolved st =
      if not unresolved && is_terminal attempt.state
      then (
        in_db (record_audit "dograh-webhook" "dograh.invalid_provider_transition" attempt.id []) st,
        ok already_processed,
      )
      else let outcome = classify_call_outcome lower payload.call_status payload.call_disposition in
        if outcome.non_final
        then (st, ok non_final_ignored)
        else elim (claim_event (event_id str_of uuid_text payload) st) [
          | none ↦ (st, ok already_processed)
          | some st' ↦ apply_outcome p payload attempt contact campaign unresolved outcome st st'
        ]

  unfoldable pub correlate :
      Process → Payload → CallAttempt → Contact → Campaign → WebhookState → Delivered
  unfolding judge
  correlate p payload attempt contact campaign st =
      let unresolved = is_unresolved_ambiguous_trigger st.world.db attempt in
      elim (correlation_problem str_of uuid_text st.world.db payload attempt contact unresolved) [
        | some problem ↦ reject_correlation attempt problem st
        | none ↦ judge p payload attempt contact campaign unresolved st
      ]

  -- `process_dograh_webhook`; `known` are the processed events that its first test reads.
  unfoldable pub process_dograh_webhook : Process → List String → Payload → WebhookState → Delivered
  unfolding correlate
  process_dograh_webhook p known payload st =
      if seen (event_id str_of uuid_text payload) known
      then (st, ok already_processed)
      else elim (parse_uuid payload.call_attempt_id) [
        | none ↦ (st, err (http_status 422))
        | some id ↦ elim (attempt_by_id id st.world.db.attempts) [
          | none ↦ (st, err (http_status 404))
          | some attempt ↦ elim (st.world.db.contacts attempt.contact_id) [
            | none ↦ (st, err (http_status 404))
            | some contact ↦ elim (st.world.db.campaigns contact.campaign_id) [
              | none ↦ (st, err (http_status 404))
              | some campaign ↦ correlate p payload attempt contact campaign st
            ]
          ]
        ]
      ]

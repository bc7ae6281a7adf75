-- ===== src/Webhook/Settle.antt =====
-- How a webhook settles an attempt (backend/app/services/telephony/dograh_webhook_service.py): the
-- opt-out, the run that is adopted, and the three outcomes.
use ai_calling_agent.Common.{
  ℕ, Bool, true, false, ◌||◌, String, List, [], ◌∷◌, Option, none, some, if◌then◌else◌, elem,
  is_some,
}
use ai_calling_agent.Common.Result.{ok, err}
use ai_calling_agent.Common.Text.{Text, text_in}
use ai_calling_agent.Calling.Window.{Time}
use ai_calling_agent.Model.{Uuid, Contact, Campaign, CallAttempt, Db, Settings, num, text}
use ai_calling_agent.Model.Enums.{ContactStatus}
use ai_calling_agent.Phone.{PhoneLib, canonical_number}
use ai_calling_agent.Queue.Job.{IdempotencyKey, Purpose}
use ai_calling_agent.Recovery.Manager.{
  World, record_audit, save_contact, enqueue_call_analysis, handle_disconnect,
}
use ai_calling_agent.Dialer.Attempts.{change_attempt, is_failed_to_connect}
use ai_calling_agent.Dialer.Reconcile.{adopted_attempt, reopened_attempt}
use ai_calling_agent.Telephony.Outcome.{CallOutcome, is_ended}
use ai_calling_agent.Webhook.{
  Payload, WebhookState, never_connected, integrity_error, assertion_error, Delivered, run_text,
  in_db, WebhookOutcome,
}
use ai_calling_agent.Webhook.Handler.{
  never_connected_text, mid_call_text, key_or, never_connected_attempt, ended_attempt,
  dropped_attempt, contact_after, add_session,
}

-- What the process is given beside the payload: the clock, whether Redis answers, and the configured
-- opt-out codes.
pub record Process : Type 0 where
  pub now : Time
  pub redis_up : Bool
  pub opt_out_codes : List Text

-- `_suppress_for_opt_out` writes the audit row only if its insert made the row.
abbrev opt_out_audit : CallAttempt → Contact → Db → Db
opt_out_audit attempt contact db = record db {
  audits =
      record {
        actor = "dograh-webhook";
        action = "dograh.opt_out_suppressed";
        entity_type = "contact";
        entity_id = some contact.id;
        metadata = ("call_attempt_id", num attempt.id) ∷ [];
      }
      ∷ db.audits;
}

module _ {Number : Type 0} (lib : PhoneLib Number) (uuid5 : IdempotencyKey → Purpose → Uuid)
    (str_of : ℕ → String) (uuid_text : Uuid → String) (parse_uuid : String → Option Uuid)
    (lower : Text → Text) (s : Settings) where
  -- `insert_if_absent`: the number or the contact has a row already, or there is a new one.
  unfoldable pub insert_if_absent : Contact → WebhookState → WebhookState × Bool
  insert_if_absent contact st =
      let key = canonical_number lib s.default_region contact.normalized_phone_number in
      if text_in key st.world.db.suppressions || elem contact.id st.suppressed_contacts
      then (st, false)
      else (
        record (in_db (λ db. record db { suppressions = key ∷ db.suppressions }) st) {
          suppressed_contacts = contact.id ∷ st.suppressed_contacts;
        },
        true,
      )

  abbrev pub closed_contact : Contact → Contact
  closed_contact contact = record contact { status = ContactStatus.closed }

  -- `_suppress_for_opt_out`
  unfoldable pub suppress_for_opt_out : CallAttempt → Contact → WebhookState → WebhookState
  unfolding insert_if_absent
  suppress_for_opt_out attempt contact st =
      let (st', inserted) = insert_if_absent contact st in
      in_db
        (λ db.
          let db' = save_contact (closed_contact contact) db in
          if inserted then opt_out_audit attempt contact db' else db')
        st'

  abbrev pub adopted : Payload → CallAttempt → CallAttempt
  adopted payload attempt = elim payload.workflow_run_id [
    | none ↦ attempt
    | some run ↦ adopted_attempt (run_text str_of uuid_text run) attempt
  ]

  -- The attempt with the run that it turns out to have: one that an ambiguous trigger left is
  -- reopened; a webhook that comes before the dialer's own answer only names its run.
  abbrev pub linked : Bool → Payload → CallAttempt → CallAttempt
  linked unresolved payload attempt =
      if unresolved
      then adopted payload (reopened_attempt attempt)
      else if is_some attempt.provider_call_id
      then attempt
      else adopted payload attempt

  abbrev pub linked_contact : Bool → Contact → Contact
  linked_contact unresolved contact =
      if unresolved then record contact { status = ContactStatus.dialing } else contact

  abbrev pub adoption_audit : Bool → CallAttempt → Db → Db
  adoption_audit unresolved attempt db =
      if unresolved
      then record_audit "dograh-webhook" "dograh.reconciliation_run_adopted" attempt.id
          (("stage", text "webhook") ∷ []) db
      else db

  -- `handle_disconnect` over the rows as they are now.
  unfoldable pub disconnect :
      Process → CallAttempt → Contact → Campaign → Bool → String → World → World
  disconnect p attempt contact campaign never key w =
      (handle_disconnect uuid5 p.redis_up s p.now lib attempt contact campaign never key none w).0

  -- The last part: the outcome, after the claim. `start` is the state that an exception returns to.
  unfoldable pub settle_never_connected :
      Process
      → CallAttempt
      → Contact
      → Campaign
      → CallOutcome
      → WebhookState
      → WebhookState
      → Delivered
  unfolding disconnect
  settle_never_connected p attempt contact campaign outcome start st =
      elim outcome.never_connected_reason [
        | none ↦ (start, err assertion_error)
        | some reason ↦
            let attempt' = never_connected_attempt reason p.now attempt in
            let st' =
              in_db
                (λ db.
                  record_audit "dograh-webhook" "call_attempt.never_connected_via_dograh_webhook"
                    attempt.id (("reason", text (never_connected_text reason)) ∷ [])
                    (save_contact contact
                      (change_attempt attempt.id (never_connected_attempt reason p.now) db)))
                st in
            (
              record st' {
                world =
                    disconnect p attempt' contact campaign true
                      (key_or outcome.reason_key (never_connected_text reason)) st'.world;
              },
              ok never_connected,
            )
      ]

  unfoldable pub settle_dropped :
      Process
      → CallAttempt
      → Contact
      → Campaign
      → CallOutcome
      → Bool
      → WebhookState
      → WebhookState
      → Delivered
  unfolding disconnect
  settle_dropped p attempt contact campaign outcome opted_out start st =
      elim outcome.mid_call_reason [
        | none ↦ (start, err assertion_error)
        | some reason ↦
            let attempt' = dropped_attempt reason p.now attempt in
            let contact' = contact_after opted_out ContactStatus.disconnected contact in
            let st' =
              in_db
                (λ db.
                  record_audit "dograh-webhook" "call_attempt.dropped_mid_call_via_dograh_webhook"
                    attempt.id (("reason", text (mid_call_text reason)) ∷ [])
                    (save_contact contact'
                      (change_attempt attempt.id (dropped_attempt reason p.now) db)))
                st in
            (
              record st' {
                world =
                    disconnect p attempt' contact' campaign false
                      (key_or outcome.reason_key (mid_call_text reason)) st'.world;
              },
              ok WebhookOutcome.dropped_mid_call,
            )
      ]

  unfoldable pub settle_ended : Process → CallAttempt → Contact → Bool → WebhookState → Delivered
  settle_ended p attempt contact opted_out st =
      let attempt' = ended_attempt p.now attempt in
      let contact' = contact_after opted_out ContactStatus.completed contact in
      (
        in_db
            (λ db. enqueue_call_analysis attempt' contact' (
              record_audit "dograh-webhook" "call_attempt.ended_normally_via_dograh_webhook"
                attempt.id []
                (save_contact contact' (change_attempt attempt.id (ended_attempt p.now) db))))
            st,
        ok WebhookOutcome.ended_normally,
      )

  unfoldable pub settle_call :
      Process
      → Payload
      → CallAttempt
      → Contact
      → Campaign
      → CallOutcome
      → Bool
      → WebhookState
      → WebhookState
      → Delivered
  unfolding settle_never_connected settle_dropped settle_ended
  settle_call p payload attempt contact campaign outcome opted_out start st =
      if is_failed_to_connect outcome.state
      then settle_never_connected p attempt contact campaign outcome start st
      else elim (add_session lower attempt p.now payload st) [
        | none ↦ (start, err integrity_error)
        | some st' ↦
            if is_ended outcome.state
            then settle_ended p attempt contact opted_out st'
            else settle_dropped p attempt contact campaign outcome opted_out start st'
      ]

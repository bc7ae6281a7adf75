-- ===== src/Webhook/Once.antt =====
-- How often the webhooks of one event decide the outcome of a call.
pub mod Claiming
use ai_calling_agent.Common.{
  ℕ, suc, ◌+◌, ◌≤◌, Bool, true, false, not, ◌&&◌, String, List, [], ◌∷◌, Option, none, some, ◌≡◌,
  refl, sym, ◌∙◌, if◌then◌else◌, ◌⊎◌, inl, inr, arith, str_eq, eq_iff, eq_refl, Bool-cases,
  Option-cases,
}
use mathlib.Core.Path.{subst}
use ai_calling_agent.Common.Result.{Result, ok, err}
use ai_calling_agent.Common.Text.{Text}
use ai_calling_agent.Model.{Uuid, Contact, Campaign, CallAttempt, Settings}
use ai_calling_agent.Model.Enums.{
  CallAttemptState, initiated, connected, failed_to_connect, dropped_mid_call, ended_normally,
}
use ai_calling_agent.Phone.{PhoneLib}
use ai_calling_agent.Queue.Job.{IdempotencyKey, Purpose}
use ai_calling_agent.Telephony.Outcome.{CallOutcome, is_opt_out, classify_call_outcome}
use ai_calling_agent.Webhook.{
  Payload, WebhookState, WebhookError, WebhookOutcome, already_processed, non_final_ignored,
  never_connected, Delivered, event_id, reject_correlation, seen, claim_event, correlation_problem,
  in_db,
}
use ai_calling_agent.Webhook.Handler.{add_session, noted, is_terminal, attempt_by_id, saved}
use ai_calling_agent.Webhook.Settle.{
  Process, insert_if_absent, suppress_for_opt_out, disconnect, settle_never_connected,
  settle_dropped, settle_ended, settle_call, linked, linked_contact, closed_contact, adoption_audit,
}
use ai_calling_agent.Webhook.Process.{apply_outcome, judge, correlate, process_dograh_webhook}
use ai_calling_agent.Dialer.Attempts.{is_unresolved_ambiguous_trigger}
use ai_calling_agent.Webhook.Once.Claiming.{WebhookDelivery, IsClaim, decided, judge-IsClaim}

module _ {Number : Type 0} (lib : PhoneLib Number) (uuid5 : IdempotencyKey → Purpose → Uuid)
    (str_of : ℕ → String) (uuid_text : Uuid → String) (parse_uuid : String → Option Uuid)
    (lower : Text → Text) (s : Settings) where
  abbrev judged : Process → Payload → CallAttempt → Contact → Campaign → WebhookState → Delivered
  judged p payload attempt contact campaign st =
      judge lib uuid5 str_of uuid_text parse_uuid lower s p payload attempt contact campaign
        (is_unresolved_ambiguous_trigger st.world.db attempt) st

  abbrev pub processed_by : Process → List String → Payload → WebhookState → Delivered
  processed_by = process_dograh_webhook lib uuid5 str_of uuid_text parse_uuid lower s

  correlate-IsClaim :
      (p : Process) (payload : Payload) (attempt : CallAttempt) (contact : Contact)
      (campaign : Campaign) (st : WebhookState)
      → IsClaim (event_id str_of uuid_text payload) st (
          correlate lib uuid5 str_of uuid_text parse_uuid lower s p payload attempt contact campaign
            st)
  unfolding correlate reject_correlation
  correlate-IsClaim p payload attempt contact campaign st =
      let unresolved = is_unresolved_ambiguous_trigger st.world.db attempt in
      elim (Option-cases
        (correlation_problem str_of uuid_text st.world.db payload attempt contact unresolved)) [
          | inl fits ↦
              rw (fits, correlate)
                (judge-IsClaim lib uuid5 str_of uuid_text parse_uuid lower s p payload attempt
                  contact campaign unresolved st)
          | inr (problem, e) ↦ rw (e, correlate) (inr (refl, refl))
        ]

  -- A delivery is over before the correlation, with nothing done, or is what the correlation makes
  -- of the rows that it found.
  pub process-elim :
      (P : Delivered → Type 0) (p : Process) (known : List String) (payload : Payload)
      (st : WebhookState)
      → ((result : Result WebhookError WebhookOutcome) → decided result ≡ false → P (st, result))
      → ((id : Uuid) (attempt : CallAttempt) (contact : Contact) (campaign : Campaign)
          → parse_uuid payload.call_attempt_id ≡ some id
          → attempt_by_id id st.world.db.attempts ≡ some attempt
          → P (
              correlate lib uuid5 str_of uuid_text parse_uuid lower s p payload attempt contact
                campaign st))
      → P (processed_by p known payload st)
  unfolding process_dograh_webhook
  process-elim P p known payload st over found =
      elim (Bool-cases (seen (event_id str_of uuid_text payload) known)) [
        | inl dup ↦ rw dup (over _ refl)
        | inr fresh ↦ rw fresh (elim (Option-cases (parse_uuid payload.call_attempt_id)) [
          | inl e ↦ rw (e, process_dograh_webhook) (over _ refl)
          | inr (id, e1) ↦
              rw (e1, process_dograh_webhook)
                (elim (Option-cases (attempt_by_id id st.world.db.attempts)) [
                  | inl e ↦ rw (e, process_dograh_webhook) (over _ refl)
                  | inr (attempt, e2) ↦
                      rw (e2, process_dograh_webhook)
                        (elim (Option-cases (st.world.db.contacts attempt.contact_id)) [
                          | inl e ↦ rw (e, process_dograh_webhook) (over _ refl)
                          | inr (contact, e) ↦
                              rw (e, process_dograh_webhook)
                                (elim (Option-cases (st.world.db.campaigns contact.campaign_id)) [
                                  | inl e ↦ rw (e, process_dograh_webhook) (over _ refl)
                                  | inr (campaign, e) ↦
                                      rw (e, process_dograh_webhook)
                                        (found id attempt contact campaign e1 e2)
                                ])
                        ])
                ])
        ])
      ]

  process-IsClaim :
      (p : Process) (known : List String) (payload : Payload) (st : WebhookState)
      → IsClaim (event_id str_of uuid_text payload) st (processed_by p known payload st)
  process-IsClaim p known payload st =
      process-elim (IsClaim (event_id str_of uuid_text payload) st) p known payload st
        (λ result undecided. inr (undecided, refl))
        (λ id attempt contact campaign e1 e2.
          correlate-IsClaim p payload attempt contact campaign st)

  -- Of deliveries one after another: how many of those of one event decided an outcome.
  unfoldable pub decisions : String → List WebhookDelivery → WebhookState → ℕ
  decisions event [] st = 0
  decisions event (d ∷ ds) st =
      let (st', result) = processed_by d.process d.known d.payload st in
      let rest = decisions event ds st' in
      if str_eq (event_id str_of uuid_text d.payload) event && decided result
      then suc rest
      else rest

  -- However often the webhooks of an event are delivered, among those of any other events, with
  -- whatever words, and whatever each had read of the processed events before: at most one of them
  -- decides the outcome of a call, and none if the event was processed before.
  pub decisions_once :
      (event : String) (ds : List WebhookDelivery) (st : WebhookState)
      → decisions event ds st ≤ (if seen event st.processed then 0 else 1)
  unfolding decisions
  decisions_once event [] st = ground arith
  decisions_once event (d ∷ ds) st =
      let own = event_id str_of uuid_text d.payload in
      let step = process-IsClaim d.process d.known d.payload st in
      let later = decisions_once event ds (processed_by d.process d.known d.payload st).0 in
      let same = eq_iff own event in
      elim step [
        | inl (did, events, new) ↦
            let later' = rw events at later in
            elim (Bool-cases (str_eq own event)) [
              | inl mine ↦ let e = same.0 mine in rw (did, mine) (ground arith)
              | inr other ↦ rw other (ground arith)
            ]
        | inr (did_not, events) ↦ let later' = rw events at later in rw did_not (ground arith)
      ]

-- ===== src/Webhook/OptOut/Shut.antt =====
-- A webhook with an opt-out code that decides an outcome: nobody calls the number again.
use ai_calling_agent.Common.{
  ℕ, Bool, true, not, ◌&&◌, String, List, ◌∷◌, Option, some, ◌≡◌, inl, inr, Bool-cases,
  Option-cases,
}
use ai_calling_agent.Common.Text.{Text}
use ai_calling_agent.Model.{Uuid, Contact, Campaign, CallAttempt, Settings}
use ai_calling_agent.Phone.{PhoneLib}
use ai_calling_agent.Queue.Job.{IdempotencyKey, Purpose}
use ai_calling_agent.Dialer.Attempts.{is_unresolved_ambiguous_trigger}
use ai_calling_agent.Telephony.Outcome.{is_opt_out, classify_call_outcome}
use ai_calling_agent.Webhook.{
  Payload, WebhookState, claim_event, reject_correlation, seen, event_id, correlation_problem,
}
use ai_calling_agent.Webhook.Handler.{attempt_by_id, is_terminal}
use ai_calling_agent.Webhook.Settle.{Process}
use ai_calling_agent.Webhook.Process.{judge, correlate, process_dograh_webhook}
use ai_calling_agent.Webhook.Once.Claiming.{decided}
use ai_calling_agent.Webhook.OptOut.Applied.{IsListed, IsOptedOut, apply_outcome-IsOptedOut}

module _ {Number : Type 0} (lib : PhoneLib Number) (uuid5 : IdempotencyKey → Purpose → Uuid)
    (str_of : ℕ → String) (uuid_text : Uuid → String) (parse_uuid : String → Option Uuid)
    (lower : Text → Text) (s : Settings) where
  judge-IsOptedOut :
      (p : Process) (payload : Payload) (attempt : CallAttempt) (contact : Contact)
      (campaign : Campaign) (unresolved : Bool) (st : WebhookState)
      → IsListed lib uuid5 str_of uuid_text parse_uuid lower s contact st
      → is_opt_out lower payload.call_disposition payload.mapped_call_disposition p.opt_out_codes
        ≡ true
      → let d =
          judge lib uuid5 str_of uuid_text parse_uuid lower s p payload attempt contact campaign
            unresolved st in
        decided d.1 ≡ true → IsOptedOut lib uuid5 str_of uuid_text parse_uuid lower s contact st d.0
  unfolding judge claim_event
  judge-IsOptedOut p payload attempt contact campaign unresolved st listed out did =
      let outcome = classify_call_outcome lower payload.call_status payload.call_disposition in
      let event = event_id str_of uuid_text payload in
      elim (Bool-cases (not unresolved && is_terminal attempt.state)) [
        | inl over ↦ absurd (cc (rw over at did))
        | inr live ↦ rw live (elim (Bool-cases outcome.non_final) [
          | inl open_call ↦ absurd (cc (rw open_call at (rw live at did)))
          | inr final ↦ rw final (elim (Bool-cases (seen event st.processed)) [
            | inl dup ↦ absurd (cc (rw dup at (rw final at (rw live at did))))
            | inr fresh ↦ rw fresh (
                apply_outcome-IsOptedOut lib uuid5 str_of uuid_text parse_uuid lower s p payload
                  attempt contact campaign unresolved outcome st
                  (record st { processed = event ∷ st.processed }) listed out
                  (rw fresh at (rw final at (rw live at did))))
          ])
        ])
      ]

  correlate-IsOptedOut :
      (p : Process) (payload : Payload) (attempt : CallAttempt) (contact : Contact)
      (campaign : Campaign) (st : WebhookState)
      → IsListed lib uuid5 str_of uuid_text parse_uuid lower s contact st
      → is_opt_out lower payload.call_disposition payload.mapped_call_disposition p.opt_out_codes
        ≡ true
      → let d =
          correlate lib uuid5 str_of uuid_text parse_uuid lower s p payload attempt contact campaign
            st in
        decided d.1 ≡ true → IsOptedOut lib uuid5 str_of uuid_text parse_uuid lower s contact st d.0
  unfolding correlate reject_correlation
  correlate-IsOptedOut p payload attempt contact campaign st listed out did =
      let unresolved = is_unresolved_ambiguous_trigger st.world.db attempt in
      elim (Option-cases
        (correlation_problem str_of uuid_text st.world.db payload attempt contact unresolved)) [
          | inl fits ↦
              rw (fits, correlate)
                (judge-IsOptedOut p payload attempt contact campaign unresolved st listed out
                  (rw (fits, correlate) at did))
          | inr (problem, e) ↦ absurd (cc (rw (e, correlate) at did))
        ]

  -- A webhook whose code is an opt-out and that decides the outcome of its attempt, whatever that
  -- outcome is: the contact's row is closed, its number is suppressed under every spelling, and no
  -- entry of the schedule is added or changed. A contact that has a suppression row already has one
  -- for its number.
  pub process_dograh_webhook-opt_out :
      (p : Process) (known : List String) (payload : Payload) (id : Uuid) (attempt : CallAttempt)
      (contact : Contact) (st : WebhookState)
      → parse_uuid payload.call_attempt_id ≡ some id
      → attempt_by_id id st.world.db.attempts ≡ some attempt
      → st.world.db.contacts attempt.contact_id ≡ some contact
      → IsListed lib uuid5 str_of uuid_text parse_uuid lower s contact st
      → is_opt_out lower payload.call_disposition payload.mapped_call_disposition p.opt_out_codes
        ≡ true
      → decided
          (process_dograh_webhook lib uuid5 str_of uuid_text parse_uuid lower s p known payload
            st).1
        ≡ true
      → IsOptedOut lib uuid5 str_of uuid_text parse_uuid lower s contact st
          (process_dograh_webhook lib uuid5 str_of uuid_text parse_uuid lower s p known payload
            st).0
  unfolding process_dograh_webhook
  process_dograh_webhook-opt_out p known payload id attempt contact st e1 e2 e3 listed out did =
      elim (Bool-cases (seen (event_id str_of uuid_text payload) known)) [
        | inl dup ↦ absurd (cc (rw dup at did))
        | inr fresh ↦
            let did1 = rw (e1, process_dograh_webhook) at (rw fresh at did) in
            let did2 = rw (e2, process_dograh_webhook) at did1 in
            let did3 = rw (e3, process_dograh_webhook) at did2 in
            rw fresh (
              rw (e1, process_dograh_webhook)
                (rw (e2, process_dograh_webhook)
                  (rw (e3, process_dograh_webhook)
                    (elim (Option-cases (st.world.db.campaigns contact.campaign_id)) [
                      | inl e ↦ absurd (cc (rw (e, process_dograh_webhook) at did3))
                      | inr (campaign, e) ↦
                          rw (e, process_dograh_webhook)
                            (correlate-IsOptedOut p payload attempt contact campaign st listed out
                              (rw (e, process_dograh_webhook) at did3))
                    ]))))
      ]

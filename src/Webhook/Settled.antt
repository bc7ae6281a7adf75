-- ===== src/Webhook/Settled.antt =====
-- A webhook for an attempt that has its outcome.
use ai_calling_agent.Common.{
  ℕ, true, false, String, List, Option, some, ◌≡◌, ◌≢◌, refl, inl, inr, Option-cases,
}
use ai_calling_agent.Common.Text.{Text}
use ai_calling_agent.Model.{Uuid, Contact, Campaign, CallAttempt, Settings}
use ai_calling_agent.Model.Enums.{
  CallAttemptState, initiated, connected, failed_to_connect, dropped_mid_call, ended_normally,
}
use ai_calling_agent.Phone.{PhoneLib}
use ai_calling_agent.Queue.Job.{IdempotencyKey, Purpose}
use ai_calling_agent.Recovery.Manager.{record_audit}
use ai_calling_agent.Dialer.Attempts.{is_unresolved_ambiguous_trigger}
use ai_calling_agent.Webhook.{
  Payload, WebhookState, Delivered, in_db, reject_correlation, correlation_problem,
}
use ai_calling_agent.Webhook.Handler.{is_terminal, attempt_by_id}
use ai_calling_agent.Webhook.Settle.{Process}
use ai_calling_agent.Webhook.Process.{judge, correlate}
use ai_calling_agent.Webhook.Once.Claiming.{decided}
use ai_calling_agent.Webhook.Once.{processed_by, process-elim}

-- Nothing is written but audit rows, and no outcome is decided.
abbrev pub IsRefused : WebhookState → Delivered → Type 0
IsRefused st d =
    (decided d.1 ≡ false) × (d.0 ≡ in_db (λ db. record db { audits = d.0.world.db.audits }) st)

is_terminal_of_ne :
    (state : CallAttemptState) → state ≢ initiated → state ≢ connected → is_terminal state ≡ true
is_terminal_of_ne initiated begun up = absurd (begun refl)
is_terminal_of_ne connected begun up = absurd (up refl)
is_terminal_of_ne failed_to_connect begun up = refl
is_terminal_of_ne dropped_mid_call begun up = refl
is_terminal_of_ne ended_normally begun up = refl

module _ {Number : Type 0} (lib : PhoneLib Number) (uuid5 : IdempotencyKey → Purpose → Uuid)
    (str_of : ℕ → String) (uuid_text : Uuid → String) (parse_uuid : String → Option Uuid)
    (lower : Text → Text) (s : Settings) where
  correlate-IsRefused :
      (p : Process) (payload : Payload) (attempt : CallAttempt) (contact : Contact)
      (campaign : Campaign) (st : WebhookState)
      → is_terminal attempt.state ≡ true
      → is_unresolved_ambiguous_trigger st.world.db attempt ≡ false
      → IsRefused st (
          correlate lib uuid5 str_of uuid_text parse_uuid lower s p payload attempt contact campaign
            st)
  unfolding correlate reject_correlation judge record_audit
  correlate-IsRefused p payload attempt contact campaign st over plain =
      let unresolved = is_unresolved_ambiguous_trigger st.world.db attempt in
      elim (Option-cases
        (correlation_problem str_of uuid_text st.world.db payload attempt contact unresolved)) [
          | inl fits ↦ rw (fits, correlate) (rw plain (rw over (refl, refl)))
          | inr (problem, e) ↦ rw (e, correlate) (refl, refl)
        ]

  -- An attempt that has its outcome, being neither initiated nor connected, and is no failure that
  -- an ambiguous trigger left provisional, is never touched again by a webhook that names it,
  -- whatever the event, the words and the run: the delivery decides nothing, and writes audit rows
  -- at most.
  pub process_dograh_webhook-settled :
      (p : Process) (known : List String) (payload : Payload) (id : Uuid) (attempt : CallAttempt)
      (st : WebhookState)
      → parse_uuid payload.call_attempt_id ≡ some id
      → attempt_by_id id st.world.db.attempts ≡ some attempt
      → attempt.state ≢ initiated
      → attempt.state ≢ connected
      → is_unresolved_ambiguous_trigger st.world.db attempt ≡ false
      → IsRefused st (processed_by lib uuid5 str_of uuid_text parse_uuid lower s p known payload st)
  process_dograh_webhook-settled p known payload id attempt st e1 e2 begun up plain =
      let over = is_terminal_of_ne attempt.state begun up in
      process-elim lib uuid5 str_of uuid_text parse_uuid lower s (IsRefused st) p known payload st
        (λ result undecided. (undecided, refl))
        (λ id' attempt' contact campaign f1 f2.
          let same : id' ≡ id = cc in
          let row : attempt' ≡ attempt = cc in
          correlate-IsRefused p payload attempt' contact campaign st (rw row over) (rw row plain))

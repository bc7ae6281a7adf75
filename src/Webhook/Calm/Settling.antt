-- ===== src/Webhook/Calm/Settling.antt =====
-- The three outcomes of a webhook and the opt-out make no attempt and put none on hold.
use ai_calling_agent.Common.{
  ℕ, Bool, true, false, String, Option, none, refl, sym, arith, inl, inr, Bool-cases, Option-cases,
}
use mathlib.Core.Path.{subst}
use ai_calling_agent.Common.Text.{Text}
use ai_calling_agent.Model.{Uuid, Contact, Campaign, CallAttempt, Settings, Db}
use ai_calling_agent.Phone.{PhoneLib}
use ai_calling_agent.Queue.Job.{IdempotencyKey, Purpose}
use ai_calling_agent.Recovery.Manager.{World, save_contact}
use ai_calling_agent.Dialer.Attempts.{is_failed_to_connect}
use ai_calling_agent.Dialer.Attempts.Calm.{handle_disconnect-IsCalm, enqueue_call_analysis-IsCalm}
use ai_calling_agent.Dialer.Attempts.Rows.{
  IsCalm, IsCalm-trans, IsCalm-same, change_attempt-IsCalm, record_audit-IsCalm,
  save_contact-IsCalm,
}
use ai_calling_agent.Telephony.Outcome.{CallOutcome, is_ended}
use ai_calling_agent.Webhook.{Payload, WebhookState}
use ai_calling_agent.Webhook.Handler.{add_session}
use ai_calling_agent.Webhook.Settle.{
  Process, suppress_for_opt_out, insert_if_absent, disconnect, settle_never_connected,
  settle_dropped, settle_ended, settle_call,
}
use ai_calling_agent.Webhook.OptOut.{add_session-world}

-- The session of one state and of another.
abbrev pub IsCalmFrom : Db → WebhookState → Type 0
IsCalmFrom db st = IsCalm db st.world.db

module _ {Number : Type 0} (lib : PhoneLib Number) (uuid5 : IdempotencyKey → Purpose → Uuid)
    (str_of : ℕ → String) (uuid_text : Uuid → String) (parse_uuid : String → Option Uuid)
    (lower : Text → Text) (s : Settings) where
  disconnect-IsCalm :
      (p : Process) (attempt : CallAttempt) (contact : Contact) (campaign : Campaign) (never : Bool)
      (key : String) (w : World)
      → IsCalm w.db
          (disconnect lib uuid5 str_of uuid_text parse_uuid lower s p attempt contact campaign never
            key w).db
  unfolding disconnect
  disconnect-IsCalm p attempt contact campaign never key w =
      handle_disconnect-IsCalm uuid5 p.redis_up s p.now lib attempt contact campaign never key none
        w

  settle_never_connected-IsCalm :
      (db : Db) (p : Process) (attempt : CallAttempt) (contact : Contact) (campaign : Campaign)
      (outcome : CallOutcome) (start st : WebhookState)
      → IsCalmFrom db start
      → IsCalmFrom db st
      → IsCalmFrom db
          (settle_never_connected lib uuid5 str_of uuid_text parse_uuid lower s p attempt contact
            campaign outcome start st).0
  unfolding settle_never_connected
  settle_never_connected-IsCalm db p attempt contact campaign outcome start st first calm =
      elim (Option-cases outcome.never_connected_reason) [
        | inl e ↦ rw (e, settle_never_connected) first
        | inr (reason, e) ↦
            rw (e, settle_never_connected)
              (IsCalm-trans db _ _ calm (
                IsCalm-trans _ _ _ (change_attempt-IsCalm attempt.id _ _ (λ a. (refl, refl, refl)))
                  (IsCalm-trans _ _ _ (save_contact-IsCalm _ _) (
                    IsCalm-trans _ _ _ (record_audit-IsCalm _ _ _ _ _)
                      (disconnect-IsCalm p _ contact campaign true _ _)))))
      ]

  settle_dropped-IsCalm :
      (db : Db) (p : Process) (attempt : CallAttempt) (contact : Contact) (campaign : Campaign)
      (outcome : CallOutcome) (opted_out : Bool) (start st : WebhookState)
      → IsCalmFrom db start
      → IsCalmFrom db st
      → IsCalmFrom db
          (settle_dropped lib uuid5 str_of uuid_text parse_uuid lower s p attempt contact campaign
            outcome opted_out start st).0
  unfolding settle_dropped
  settle_dropped-IsCalm db p attempt contact campaign outcome opted_out start st first calm =
      elim (Option-cases outcome.mid_call_reason) [
        | inl e ↦ rw (e, settle_dropped) first
        | inr (reason, e) ↦
            rw (e, settle_dropped)
              (IsCalm-trans db _ _ calm (
                IsCalm-trans _ _ _ (change_attempt-IsCalm attempt.id _ _ (λ a. (refl, refl, refl)))
                  (IsCalm-trans _ _ _ (save_contact-IsCalm _ _) (
                    IsCalm-trans _ _ _ (record_audit-IsCalm _ _ _ _ _)
                      (disconnect-IsCalm p _ _ campaign false _ _)))))
      ]

  settle_ended-IsCalm :
      (db : Db) (p : Process) (attempt : CallAttempt) (contact : Contact) (opted_out : Bool)
      (st : WebhookState)
      → IsCalmFrom db st
      → IsCalmFrom db
          (settle_ended lib uuid5 str_of uuid_text parse_uuid lower s p attempt contact opted_out
            st).0
  unfolding settle_ended
  settle_ended-IsCalm db p attempt contact opted_out st calm = IsCalm-trans db _ _ calm (
      IsCalm-trans _ _ _ (change_attempt-IsCalm attempt.id _ _ (λ a. (refl, refl, refl))) (
        IsCalm-trans _ _ _ (save_contact-IsCalm _ _) (
          IsCalm-trans _ _ _ (record_audit-IsCalm _ _ _ _ _) (enqueue_call_analysis-IsCalm _ _ _))))

  pub settle_call-IsCalm :
      (db : Db) (p : Process) (payload : Payload) (attempt : CallAttempt) (contact : Contact)
      (campaign : Campaign) (outcome : CallOutcome) (opted_out : Bool) (start st : WebhookState)
      → IsCalmFrom db start
      → IsCalmFrom db st
      → IsCalmFrom db
          (settle_call lib uuid5 str_of uuid_text parse_uuid lower s p payload attempt contact
            campaign outcome opted_out start st).0
  unfolding settle_call
  settle_call-IsCalm db p payload attempt contact campaign outcome opted_out start st first calm =
      elim (Bool-cases (is_failed_to_connect outcome.state)) [
        | inl failed ↦ rw failed (
            settle_never_connected-IsCalm db p attempt contact campaign outcome start st first calm)
        | inr up ↦ rw up (elim (Option-cases (add_session lower attempt p.now payload st)) [
          | inl e ↦ rw (e, settle_call) first
          | inr (st', e) ↦
              rw (e, settle_call)
                (let world =
                    add_session-world lib uuid5 str_of uuid_text parse_uuid lower s attempt p.now
                      payload st st' e in
                  let calm' = subst (λ (w : World). IsCalm db w.db) (sym world) calm in
                  elim (Bool-cases (is_ended outcome.state)) [
                    | inl ended ↦
                        rw ended (settle_ended-IsCalm db p attempt contact opted_out st' calm')
                    | inr broken ↦ rw broken (
                        settle_dropped-IsCalm db p attempt contact campaign outcome opted_out start
                          st' first calm')
                  ])
        ])
      ]

  pub suppress-IsCalm :
      (db : Db) (attempt : CallAttempt) (contact : Contact) (st : WebhookState)
      → IsCalmFrom db st
      → IsCalmFrom db
          (suppress_for_opt_out lib uuid5 str_of uuid_text parse_uuid lower s attempt contact st)
  unfolding suppress_for_opt_out insert_if_absent save_contact
  suppress-IsCalm db attempt contact st calm =
      IsCalm-trans db _ _ calm (IsCalm-same st.world.db _ (ground arith) (ground arith))

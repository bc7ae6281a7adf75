-- ===== src/Webhook/Calm.antt =====
-- A webhook makes no attempt and puts none on hold.
mod Settling
use ai_calling_agent.Common.{
  ℕ, Bool, true, false, not, ◌&&◌, String, List, ◌∷◌, Option, none, refl, sym, arith, inl, inr,
  Bool-cases, Option-cases,
}
use mathlib.Core.Path.{subst}
use ai_calling_agent.Common.Text.{Text}
use ai_calling_agent.Model.{Uuid, Contact, Campaign, CallAttempt, Settings, Db}
use ai_calling_agent.Phone.{PhoneLib}
use ai_calling_agent.Queue.Job.{IdempotencyKey, Purpose}
use ai_calling_agent.Recovery.Manager.{World, save_contact}
use ai_calling_agent.Dialer.Attempts.{is_failed_to_connect, is_unresolved_ambiguous_trigger}
use ai_calling_agent.Dialer.Attempts.Calm.{handle_disconnect-IsCalm, enqueue_call_analysis-IsCalm}
use ai_calling_agent.Dialer.Attempts.Rows.{
  IsCalm, IsKeyed, IsCalm-refl, IsCalm-trans, IsCalm-same, change_attempt-IsCalm,
  record_audit-IsCalm, save_contact-IsCalm,
}
use ai_calling_agent.Telephony.Outcome.{CallOutcome, is_ended, is_opt_out, classify_call_outcome}
use ai_calling_agent.Webhook.{
  Payload, WebhookState, in_db, claim_event, reject_correlation, seen, event_id,
  correlation_problem,
}
use ai_calling_agent.Webhook.Handler.{noted, saved, add_session, is_terminal}
use ai_calling_agent.Webhook.Settle.{
  Process, suppress_for_opt_out, insert_if_absent, disconnect, settle_never_connected,
  settle_dropped, settle_ended, settle_call, linked, linked_contact, closed_contact, adoption_audit,
}
use ai_calling_agent.Webhook.Process.{apply_outcome, judge, correlate}
use ai_calling_agent.Webhook.Once.{processed_by, process-elim}
use ai_calling_agent.Webhook.OptOut.{add_session-world}
use ai_calling_agent.Webhook.OptOut.Applied.{noted-world}
use ai_calling_agent.Webhook.Calm.Settling.{IsCalmFrom, settle_call-IsCalm, suppress-IsCalm}

module _ {Number : Type 0} (lib : PhoneLib Number) (uuid5 : IdempotencyKey → Purpose → Uuid)
    (str_of : ℕ → String) (uuid_text : Uuid → String) (parse_uuid : String → Option Uuid)
    (lower : Text → Text) (s : Settings) where
  linked-IsKeyed :
      (unresolved : Bool) (payload : Payload)
      → IsKeyed (linked lib uuid5 str_of uuid_text parse_uuid lower s unresolved payload)
  linked-IsKeyed unresolved payload a = (ground arith, ground arith, ground arith)

  adoption_audit-IsCalm :
      (unresolved : Bool) (attempt : CallAttempt) (db : Db)
      → IsCalm db
          (adoption_audit lib uuid5 str_of uuid_text parse_uuid lower s unresolved attempt db)
  adoption_audit-IsCalm true attempt db = record_audit-IsCalm _ _ _ _ db
  adoption_audit-IsCalm false attempt db = IsCalm-refl db

  abbrev linked_by : Bool → Payload → CallAttempt → CallAttempt
  linked_by = linked lib uuid5 str_of uuid_text parse_uuid lower s

  abbrev contact_by : Bool → Contact → Contact
  contact_by = linked_contact lib uuid5 str_of uuid_text parse_uuid lower s

  -- The state when the run is adopted.
  abbrev linked_state : Bool → Payload → CallAttempt → Contact → WebhookState → WebhookState
  linked_state unresolved payload attempt contact st =
      in_db (adoption_audit lib uuid5 str_of uuid_text parse_uuid lower s unresolved attempt) (
        saved attempt.id (linked_by unresolved payload) (contact_by unresolved contact)
          (noted attempt payload st))

  linked_state-IsCalm :
      (db : Db) (unresolved : Bool) (payload : Payload) (attempt : CallAttempt) (contact : Contact)
      (st : WebhookState)
      → IsCalmFrom db st
      → IsCalmFrom db (linked_state unresolved payload attempt contact st)
  linked_state-IsCalm db unresolved payload attempt contact st calm =
      let world = noted-world attempt payload st in
      let calm' = subst (λ (w : World). IsCalm db w.db) (sym world) calm in
      IsCalm-trans db _ _ calm' (
        IsCalm-trans _ _ _
          (change_attempt-IsCalm attempt.id (linked_by unresolved payload) _
            (linked-IsKeyed unresolved payload))
          (IsCalm-trans _ _ _ (save_contact-IsCalm _ _)
            (adoption_audit-IsCalm unresolved attempt _)))

  apply_outcome-IsCalm :
      (db : Db) (p : Process) (payload : Payload) (attempt : CallAttempt) (contact : Contact)
      (campaign : Campaign) (unresolved : Bool) (outcome : CallOutcome) (start st : WebhookState)
      → IsCalmFrom db start
      → IsCalmFrom db st
      → IsCalmFrom db
          (apply_outcome lib uuid5 str_of uuid_text parse_uuid lower s p payload attempt contact
            campaign unresolved outcome start st).0
  unfolding apply_outcome
  apply_outcome-IsCalm db p payload attempt contact campaign unresolved outcome start st first
        calm =
      let attempt' = linked_by unresolved payload attempt in
      let contact' = contact_by unresolved contact in
      let st' = linked_state unresolved payload attempt contact st in
      let linked_calm = linked_state-IsCalm db unresolved payload attempt contact st calm in
      elim (Bool-cases (
        is_opt_out lower payload.call_disposition payload.mapped_call_disposition
          p.opt_out_codes)) [
            | inl out ↦ rw out (
                settle_call-IsCalm lib uuid5 str_of uuid_text parse_uuid lower s db p payload
                  attempt' (closed_contact lib uuid5 str_of uuid_text parse_uuid lower s contact')
                  campaign outcome true start
                  (suppress_for_opt_out lib uuid5 str_of uuid_text parse_uuid lower s attempt'
                    contact' st')
                  first
                  (suppress-IsCalm lib uuid5 str_of uuid_text parse_uuid lower s db attempt'
                    contact' st' linked_calm))
            | inr stays ↦ rw stays (
                settle_call-IsCalm lib uuid5 str_of uuid_text parse_uuid lower s db p payload
                  attempt' contact' campaign outcome false start st' first linked_calm)
          ]

  judge-IsCalm :
      (p : Process) (payload : Payload) (attempt : CallAttempt) (contact : Contact)
      (campaign : Campaign) (unresolved : Bool) (st : WebhookState)
      → IsCalmFrom st.world.db
          (judge lib uuid5 str_of uuid_text parse_uuid lower s p payload attempt contact campaign
            unresolved st).0
  unfolding judge claim_event
  judge-IsCalm p payload attempt contact campaign unresolved st =
      let outcome = classify_call_outcome lower payload.call_status payload.call_disposition in
      let event = event_id str_of uuid_text payload in
      let same = IsCalm-refl st.world.db in
      elim (Bool-cases (not unresolved && is_terminal attempt.state)) [
        | inl over ↦ rw over (record_audit-IsCalm _ _ _ _ st.world.db)
        | inr live ↦ rw live (elim (Bool-cases outcome.non_final) [
          | inl open_call ↦ rw open_call same
          | inr final ↦ rw final (elim (Bool-cases (seen event st.processed)) [
            | inl dup ↦ rw dup same
            | inr fresh ↦ rw fresh (
                apply_outcome-IsCalm st.world.db p payload attempt contact campaign unresolved
                  outcome st (record st { processed = event ∷ st.processed }) same same)
          ])
        ])
      ]

  correlate-IsCalm :
      (p : Process) (payload : Payload) (attempt : CallAttempt) (contact : Contact)
      (campaign : Campaign) (st : WebhookState)
      → IsCalmFrom st.world.db
          (correlate lib uuid5 str_of uuid_text parse_uuid lower s p payload attempt contact
            campaign st).0
  unfolding correlate reject_correlation
  correlate-IsCalm p payload attempt contact campaign st =
      let unresolved = is_unresolved_ambiguous_trigger st.world.db attempt in
      elim (Option-cases
        (correlation_problem str_of uuid_text st.world.db payload attempt contact unresolved)) [
          | inl fits ↦
              rw (fits, correlate) (judge-IsCalm p payload attempt contact campaign unresolved st)
          | inr (problem, e) ↦ rw (e, correlate) (record_audit-IsCalm _ _ _ _ st.world.db)
        ]

  pub process_dograh_webhook-IsCalm :
      (p : Process) (known : List String) (payload : Payload) (st : WebhookState)
      → IsCalmFrom st.world.db
          (processed_by lib uuid5 str_of uuid_text parse_uuid lower s p known payload st).0
  process_dograh_webhook-IsCalm p known payload st =
      process-elim lib uuid5 str_of uuid_text parse_uuid lower s (λ d. IsCalmFrom st.world.db d.0) p
        known payload st (λ result undecided. IsCalm-refl st.world.db)
        (λ id attempt contact campaign e1 e2.
          correlate-IsCalm p payload attempt contact campaign st)

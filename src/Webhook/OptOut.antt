-- ===== src/Webhook/OptOut.antt =====
-- What a webhook with an opt-out code leaves.
pub mod Applied
pub mod Shut
use ai_calling_agent.Common.{
  ℕ, Bool, true, false, not, ◌&&◌, ◌||◌, String, List, [], ◌∷◌, Option, none, some, ◌≡◌, refl, sym,
  ◌∙◌, ap, if◌then◌else◌, ◌⊎◌, inl, inr, arith, Bool-cases, Option-cases, elem, ==_refl,
}
use mathlib.Core.Path.{subst}
use ai_calling_agent.Common.Text.{Text, text_in, text_eq}
use ai_calling_agent.Common.Table.{put_row_self}
use ai_calling_agent.Model.{Uuid, Contact, Campaign, CallAttempt, Settings, Db}
use ai_calling_agent.Model.Enums.{ContactStatus}
use ai_calling_agent.Phone.{PhoneLib, canonical_number}
use ai_calling_agent.Eligibility.{is_suppressed}
use ai_calling_agent.Queue.Job.{IdempotencyKey, Purpose}
use ai_calling_agent.Recovery.Manager.{
  World, suppressed, terminalize, handle_disconnect, enqueue_call_analysis, record_audit, log_event,
  save_contact, is_suppression, is_closed,
}
use ai_calling_agent.Dialer.Attempts.{change_attempt, is_failed_to_connect}
use ai_calling_agent.Telephony.Outcome.{CallOutcome, is_ended, is_opt_out, classify_call_outcome}
use ai_calling_agent.Webhook.{Payload, WebhookState, Delivered, in_db}
use ai_calling_agent.Webhook.Handler.{ended_attempt, add_session, noted, saved, attempt_by_id}
use ai_calling_agent.Webhook.Settle.{
  Process, suppress_for_opt_out, insert_if_absent, disconnect, settle_never_connected,
  settle_dropped, settle_ended, settle_call, linked, linked_contact, closed_contact, adoption_audit,
}
use ai_calling_agent.Webhook.Process.{apply_outcome, judge, correlate, process_dograh_webhook}
use ai_calling_agent.Webhook.Once.Claiming.{decided}
use ai_calling_agent.Webhook.Once.{processed_by}

-- The contact has the given row, and neither the schedule nor the suppressions change.
pub record IsShut (contact : Contact) (before after : World) : Type 0 where
  pub schedule : after.schedule ≡ before.schedule
  pub row : after.db.contacts contact.id ≡ some contact
  pub listed : after.db.suppressions ≡ before.db.suppressions

enqueue_call_analysis-kept :
    (attempt : CallAttempt) (contact : Contact) (db : Db)
    → ((enqueue_call_analysis attempt contact db).contacts ≡ db.contacts)
      × ((enqueue_call_analysis attempt contact db).suppressions ≡ db.suppressions)
unfolding enqueue_call_analysis record_audit log_event
enqueue_call_analysis-kept attempt contact db = (ground arith, ground arith)

terminalize-IsShut :
    (attempt : CallAttempt) (contact : Contact) (w : World)
    → IsShut contact w (terminalize attempt contact suppressed w)
unfolding terminalize is_suppression save_contact record_audit log_event
terminalize-IsShut attempt contact w =
    let kept = enqueue_call_analysis-kept attempt contact in
    record {
      schedule = refl;
      row =
          ap (λ (t : ℕ → Option Contact). t contact.id) (kept _).0
          ∙ put_row_self contact.id contact w.db.contacts;
      listed = (kept _).1;
    }

-- Writes of other columns in between.
IsShut-after :
    (contact : Contact) (before mid after : World)
    → mid.schedule ≡ before.schedule
    → mid.db.suppressions ≡ before.db.suppressions
    → IsShut contact mid after
    → IsShut contact before after
IsShut-after contact before mid after e f shut = record {
  schedule = shut.schedule ∙ e;
  row = shut.row;
  listed = shut.listed ∙ f;
}

module _ {Number : Type 0} (lib : PhoneLib Number) (uuid5 : IdempotencyKey → Purpose → Uuid)
    (str_of : ℕ → String) (uuid_text : Uuid → String) (parse_uuid : String → Option Uuid)
    (lower : Text → Text) (s : Settings) where
  disconnect-IsShut :
      (p : Process) (attempt : CallAttempt) (contact : Contact) (campaign : Campaign) (never : Bool)
      (key : String) (w : World)
      → is_closed contact.status ≡ true
      → IsShut contact w (
          disconnect lib uuid5 str_of uuid_text parse_uuid lower s p attempt contact campaign never
            key w)
  unfolding disconnect handle_disconnect
  disconnect-IsShut p attempt contact campaign never key w closed =
      rw (closed, disconnect) (terminalize-IsShut attempt contact w)

  pub add_session-world :
      (attempt : CallAttempt) (now : ℕ) (payload : Payload) (st st' : WebhookState)
      → add_session lower attempt now payload st ≡ some st'
      → st'.world ≡ st.world
  unfolding add_session
  add_session-world attempt now payload st st' e = ground arith

  settle_ended-IsShut :
      (p : Process) (attempt : CallAttempt) (contact : Contact) (st : WebhookState)
      → IsShut contact st.world
          (settle_ended lib uuid5 str_of uuid_text parse_uuid lower s p attempt contact true
            st).0.world
  unfolding settle_ended save_contact record_audit change_attempt
  settle_ended-IsShut p attempt contact st =
      let kept = enqueue_call_analysis-kept (ended_attempt p.now attempt) contact in
      record {
        schedule = refl;
        row =
            ap (λ (t : ℕ → Option Contact). t contact.id) (kept _).0
            ∙ put_row_self contact.id contact st.world.db.contacts;
        listed = (kept _).1;
      }

  settle_never_connected-IsShut :
      (p : Process) (attempt : CallAttempt) (contact : Contact) (campaign : Campaign)
      (outcome : CallOutcome) (start st : WebhookState)
      → is_closed contact.status ≡ true
      → let d =
          settle_never_connected lib uuid5 str_of uuid_text parse_uuid lower s p attempt contact
            campaign outcome start st in
        decided d.1 ≡ true → IsShut contact st.world d.0.world
  unfolding settle_never_connected save_contact record_audit change_attempt
  settle_never_connected-IsShut p attempt contact campaign outcome start st closed did =
      elim (Option-cases outcome.never_connected_reason) [
        | inl e ↦ absurd (cc (rw (e, settle_never_connected) at did))
        | inr (reason, e) ↦
            rw (e, settle_never_connected)
              (IsShut-after contact st.world _ _ refl refl
                (disconnect-IsShut p _ contact campaign true _ _ closed))
      ]

  settle_dropped-IsShut :
      (p : Process) (attempt : CallAttempt) (contact : Contact) (campaign : Campaign)
      (outcome : CallOutcome) (start st : WebhookState)
      → is_closed contact.status ≡ true
      → let d =
          settle_dropped lib uuid5 str_of uuid_text parse_uuid lower s p attempt contact campaign
            outcome true start st in
        decided d.1 ≡ true → IsShut contact st.world d.0.world
  unfolding settle_dropped save_contact record_audit change_attempt
  settle_dropped-IsShut p attempt contact campaign outcome start st closed did =
      elim (Option-cases outcome.mid_call_reason) [
        | inl e ↦ absurd (cc (rw (e, settle_dropped) at did))
        | inr (reason, e) ↦
            rw (e, settle_dropped)
              (IsShut-after contact st.world _ _ refl refl
                (disconnect-IsShut p _ contact campaign false _ _ closed))
      ]

  -- From the claim of the event on, with a contact that the opt-out has closed.
  settle_call-IsShut :
      (p : Process) (payload : Payload) (attempt : CallAttempt) (contact : Contact)
      (campaign : Campaign) (outcome : CallOutcome) (start st : WebhookState)
      → is_closed contact.status ≡ true
      → let d =
          settle_call lib uuid5 str_of uuid_text parse_uuid lower s p payload attempt contact
            campaign outcome true start st in
        decided d.1 ≡ true → IsShut contact st.world d.0.world
  unfolding settle_call
  settle_call-IsShut p payload attempt contact campaign outcome start st closed did =
      let world = add_session-world attempt p.now payload st in
      let never =
        settle_never_connected-IsShut p attempt contact campaign outcome start st closed in
      let added = Option-cases (add_session lower attempt p.now payload st) in
      elim (Bool-cases (is_failed_to_connect outcome.state)) [
        | inl failed ↦ rw failed (never (rw failed at did))
        | inr up ↦ rw up (elim added [
          | inl no_session ↦ absurd (cc (rw (no_session, settle_call) at (rw up at did)))
          | inr (st', e) ↦
              rw (e, settle_call)
                (let did' = rw (e, settle_call) at (rw up at did) in
                  rw (sym (world st' e)) (elim (Bool-cases (is_ended outcome.state)) [
                    | inl ended ↦ rw ended (settle_ended-IsShut p attempt contact st')
                    | inr broken ↦ rw broken (
                        settle_dropped-IsShut p attempt contact campaign outcome start st' closed
                          (rw broken at did'))
                  ]))
        ])
      ]

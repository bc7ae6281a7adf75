-- ===== src/Webhook/Once/Claiming.antt =====
-- A delivery decides an outcome exactly if it claims its event.
use ai_calling_agent.Common.{
  ℕ, Bool, true, false, not, ◌&&◌, String, List, ◌∷◌, Option, some, ◌≡◌, refl, ◌∙◌, ◌⊎◌, inl, inr,
  arith, Bool-cases, Option-cases,
}
use mathlib.Core.Path.{subst}
use ai_calling_agent.Common.Result.{Result, ok, err}
use ai_calling_agent.Common.Text.{Text}
use ai_calling_agent.Model.{Uuid, Contact, Campaign, CallAttempt, Settings}
use ai_calling_agent.Model.Enums.{}
use ai_calling_agent.Phone.{PhoneLib}
use ai_calling_agent.Queue.Job.{IdempotencyKey, Purpose}
use ai_calling_agent.Telephony.Outcome.{CallOutcome, is_opt_out, classify_call_outcome}
use ai_calling_agent.Webhook.{
  Payload, WebhookState, WebhookError, WebhookOutcome, already_processed, non_final_ignored,
  never_connected, Delivered, event_id, seen, claim_event, in_db,
}
use ai_calling_agent.Webhook.Handler.{add_session, noted, is_terminal, saved}
use ai_calling_agent.Webhook.Settle.{
  Process, insert_if_absent, suppress_for_opt_out, disconnect, settle_never_connected,
  settle_dropped, settle_ended, settle_call, linked, linked_contact, closed_contact, adoption_audit,
}
use ai_calling_agent.Webhook.Process.{apply_outcome, judge}

-- The delivery decided the outcome of the attempt.
abbrev pub decided : Result WebhookError WebhookOutcome → Bool
decided (err fault) = false
decided (ok already_processed) = false
decided (ok non_final_ignored) = false
decided (ok WebhookOutcome.ended_normally) = true
decided (ok WebhookOutcome.dropped_mid_call) = true
decided (ok never_connected) = true

-- After a claim: an outcome keeps the events, and an exception returns those of the start.
abbrev IsSettled : List String → List String → Delivered → Type 0
IsSettled before claimed d =
    ((decided d.1 ≡ true) × (d.0.processed ≡ claimed))
    ⊎ ((decided d.1 ≡ false) × (d.0.processed ≡ before))

-- Of a whole delivery: it decides exactly if it claims the event, which nobody had claimed.
abbrev pub IsClaim : String → WebhookState → Delivered → Type 0
IsClaim event st d =
    ((decided d.1 ≡ true)
      × (d.0.processed ≡ event ∷ st.processed)
      × (seen event st.processed ≡ false))
    ⊎ ((decided d.1 ≡ false) × (d.0.processed ≡ st.processed))

-- A delivery, with the events that its first test read, however old.
pub record WebhookDelivery : Type 0 where
  pub process : Process
  pub known : List String
  pub payload : Payload

module _ {Number : Type 0} (lib : PhoneLib Number) (uuid5 : IdempotencyKey → Purpose → Uuid)
    (str_of : ℕ → String) (uuid_text : Uuid → String) (parse_uuid : String → Option Uuid)
    (lower : Text → Text) (s : Settings) where
  add_session-processed :
      (attempt : CallAttempt) (now : ℕ) (payload : Payload) (st st' : WebhookState)
      → add_session lower attempt now payload st ≡ some st'
      → st'.processed ≡ st.processed
  unfolding add_session
  add_session-processed attempt now payload st st' e = ground arith

  suppress-processed :
      (attempt : CallAttempt) (contact : Contact) (st : WebhookState)
      → (suppress_for_opt_out lib uuid5 str_of uuid_text parse_uuid lower s attempt contact
          st).processed
        ≡ st.processed
  unfolding suppress_for_opt_out insert_if_absent
  suppress-processed attempt contact st = ground arith

  abbrev settled_call :
      Process
      → Payload
      → CallAttempt
      → Contact
      → Campaign
      → CallOutcome
      → Bool
      → WebhookState
      → WebhookState
      → Delivered
  settled_call = settle_call lib uuid5 str_of uuid_text parse_uuid lower s

  settle_call-IsSettled :
      (p : Process) (payload : Payload) (attempt : CallAttempt) (contact : Contact)
      (campaign : Campaign) (outcome : CallOutcome) (opted_out : Bool) (start st : WebhookState)
      → IsSettled start.processed st.processed
          (settled_call p payload attempt contact campaign outcome opted_out start st)
  unfolding settle_call settle_never_connected settle_dropped settle_ended disconnect
  settle_call-IsSettled p payload attempt contact campaign outcome opted_out start st =
      let keeps = λ (st' : WebhookState). add_session-processed attempt p.now payload st st' in
      elim (Option-cases (add_session lower attempt p.now payload st)) [
        | inl e ↦ ground arith
        | inr (st', e) ↦ let kept = keeps st' e in ground arith
      ]

  -- The writes between the claim and the outcome keep the events.
  noted-processed :
      (attempt : CallAttempt) (payload : Payload) (st : WebhookState)
      → (noted attempt payload st).processed ≡ st.processed
  unfolding noted
  noted-processed attempt payload st = ground arith

  abbrev applied :
      Process
      → Payload
      → CallAttempt
      → Contact
      → Campaign
      → Bool
      → CallOutcome
      → WebhookState
      → WebhookState
      → Delivered
  applied = apply_outcome lib uuid5 str_of uuid_text parse_uuid lower s

  apply_outcome-IsSettled :
      (p : Process) (payload : Payload) (attempt : CallAttempt) (contact : Contact)
      (campaign : Campaign) (unresolved : Bool) (outcome : CallOutcome) (start st : WebhookState)
      → IsSettled start.processed st.processed
          (applied p payload attempt contact campaign unresolved outcome start st)
  unfolding apply_outcome
  apply_outcome-IsSettled p payload attempt contact campaign unresolved outcome start st =
      let same = noted-processed attempt payload st in
      let attempt' =
        linked lib uuid5 str_of uuid_text parse_uuid lower s unresolved payload attempt in
      let contact' =
        linked_contact lib uuid5 str_of uuid_text parse_uuid lower s unresolved contact in
      let st1 =
        in_db (adoption_audit lib uuid5 str_of uuid_text parse_uuid lower s unresolved attempt) (
          saved attempt.id (linked lib uuid5 str_of uuid_text parse_uuid lower s unresolved payload)
            contact' (noted attempt payload st)) in
      elim (Bool-cases (
        is_opt_out lower payload.call_disposition payload.mapped_call_disposition
          p.opt_out_codes)) [
            | inl out ↦
                let closed =
                  closed_contact lib uuid5 str_of uuid_text parse_uuid lower s contact' in
                let st2 =
                  suppress_for_opt_out lib uuid5 str_of uuid_text parse_uuid lower s attempt'
                    contact' st1 in
                let kept = suppress-processed attempt' contact' st1 in
                rw out (
                  subst
                    (λ (events : List String).
                      IsSettled start.processed events
                        (settled_call p payload attempt' closed campaign outcome true start st2))
                    (kept ∙ same)
                    (settle_call-IsSettled p payload attempt' closed campaign outcome true start
                      st2))
            | inr stays ↦ rw stays (
                subst
                  (λ (events : List String).
                    IsSettled start.processed events
                      (settled_call p payload attempt' contact' campaign outcome false start st1))
                  same
                  (settle_call-IsSettled p payload attempt' contact' campaign outcome false start
                    st1))
          ]

  pub judge-IsClaim :
      (p : Process) (payload : Payload) (attempt : CallAttempt) (contact : Contact)
      (campaign : Campaign) (unresolved : Bool) (st : WebhookState)
      → IsClaim (event_id str_of uuid_text payload) st (
          judge lib uuid5 str_of uuid_text parse_uuid lower s p payload attempt contact campaign
            unresolved st)
  unfolding judge claim_event
  judge-IsClaim p payload attempt contact campaign unresolved st =
      let outcome = classify_call_outcome lower payload.call_status payload.call_disposition in
      let event = event_id str_of uuid_text payload in
      elim (Bool-cases (not unresolved && is_terminal attempt.state)) [
        | inl over ↦ rw over (inr (refl, refl))
        | inr live ↦ rw live (elim (Bool-cases outcome.non_final) [
          | inl open_call ↦ rw open_call (inr (refl, refl))
          | inr final ↦ rw final (elim (Bool-cases (seen event st.processed)) [
            | inl dup ↦ rw dup (inr (refl, refl))
            | inr fresh ↦
                rw fresh
                  (elim (apply_outcome-IsSettled p payload attempt contact campaign unresolved
                    outcome st (record st { processed = event ∷ st.processed })) [
                      | inl (d, e) ↦ inl (d, e, refl)
                      | inr (d, e) ↦ inr (d, e)
                    ])
          ])
        ])
      ]

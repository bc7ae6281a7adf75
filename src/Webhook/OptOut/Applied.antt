-- ===== src/Webhook/OptOut/Applied.antt =====
-- From the claim of the event on: what an opt-out leaves.
use ai_calling_agent.Common.{
  ℕ, Bool, true, false, String, Option, none, some, ◌≡◌, refl, ◌∙◌, inl, inr, arith, Bool-cases,
  elem,
}
use mathlib.Core.Path.{subst}
use ai_calling_agent.Common.Text.{Text, text_in, text_eq_iff}
use ai_calling_agent.Model.{Uuid, Contact, Campaign, CallAttempt, Settings}
use ai_calling_agent.Phone.{PhoneLib, canonical_number}
use ai_calling_agent.Eligibility.{is_suppressed}
use ai_calling_agent.Queue.Job.{IdempotencyKey, Purpose}
use ai_calling_agent.Recovery.Manager.{World, is_closed, save_contact, record_audit}
use ai_calling_agent.Dialer.Attempts.{change_attempt}
use ai_calling_agent.Telephony.Outcome.{CallOutcome, is_opt_out}
use ai_calling_agent.Webhook.{Payload, WebhookState, in_db}
use ai_calling_agent.Webhook.Handler.{noted, saved}
use ai_calling_agent.Webhook.Settle.{
  Process, suppress_for_opt_out, insert_if_absent, linked, linked_contact, closed_contact,
  adoption_audit,
}
use ai_calling_agent.Webhook.Process.{apply_outcome}
use ai_calling_agent.Webhook.Once.Claiming.{decided}
use ai_calling_agent.Webhook.OptOut.{IsShut, settle_call-IsShut}

pub noted-world :
    (attempt : CallAttempt) (payload : Payload) (st : WebhookState)
    → (noted attempt payload st).world ≡ st.world
unfolding noted
noted-world attempt payload st = ground arith

noted-contacts :
    (attempt : CallAttempt) (payload : Payload) (st : WebhookState)
    → (noted attempt payload st).suppressed_contacts ≡ st.suppressed_contacts
unfolding noted
noted-contacts attempt payload st = ground arith

abbrev pub is_closed_row : Option Contact → Bool
is_closed_row none = false
is_closed_row (some contact) = is_closed contact.status

closed_row :
    (contact : Contact) (before after : World) (id : Uuid)
    → IsShut contact before after
    → is_closed contact.status ≡ true
    → contact.id ≡ id
    → is_closed_row (after.db.contacts id) ≡ true
closed_row contact before after id shut closed same =
    subst (λ i. is_closed_row (after.db.contacts i) ≡ true) same (rw shut.row closed)

still_listed :
    (contact : Contact) (before after : World) (key : Text)
    → IsShut contact before after
    → text_in key before.db.suppressions ≡ true
    → text_in key after.db.suppressions ≡ true
still_listed contact before after key shut there = rw shut.listed there

module _ {Number : Type 0} (lib : PhoneLib Number) (uuid5 : IdempotencyKey → Purpose → Uuid)
    (str_of : ℕ → String) (uuid_text : Uuid → String) (parse_uuid : String → Option Uuid)
    (lower : Text → Text) (s : Settings) where
  abbrev key_of : Contact → Text
  key_of contact = canonical_number lib s.default_region contact.normalized_phone_number

  -- A contact that has a suppression row has one for its number.
  abbrev pub IsListed : Contact → WebhookState → Type 0
  IsListed contact st =
      elem contact.id st.suppressed_contacts ≡ true
      → text_in (key_of contact) st.world.db.suppressions ≡ true

  suppress-listed :
      (attempt : CallAttempt) (contact : Contact) (st : WebhookState)
      → IsListed contact st
      → text_in
          (key_of contact)
          (suppress_for_opt_out lib uuid5 str_of uuid_text parse_uuid lower s attempt contact
            st).world.db.suppressions
        ≡ true
  unfolding suppress_for_opt_out insert_if_absent save_contact
  suppress-listed attempt contact st listed =
      let self = (text_eq_iff (key_of contact) (key_of contact)).1 refl in
      elim (Bool-cases (text_in (key_of contact) st.world.db.suppressions)) [
        | inl there ↦ rw there (ground arith)
        | inr missing ↦ elim (Bool-cases (elem contact.id st.suppressed_contacts)) [
          | inl other ↦ absurd (cc (listed other))
          | inr fresh ↦ rw (missing, fresh) (rw self refl)
        ]
      ]

  suppress-schedule :
      (attempt : CallAttempt) (contact : Contact) (st : WebhookState)
      → (suppress_for_opt_out lib uuid5 str_of uuid_text parse_uuid lower s attempt contact
          st).world.schedule
        ≡ st.world.schedule
  unfolding suppress_for_opt_out insert_if_absent
  suppress-schedule attempt contact st = ground arith

  -- The schedule is as it was, the contact's row is closed, and every spelling of its number is
  -- suppressed.
  abbrev pub IsOptedOut : Contact → WebhookState → WebhookState → Type 0
  IsOptedOut contact before after =
      (after.world.schedule ≡ before.world.schedule)
      × (is_closed_row (after.world.db.contacts contact.id) ≡ true)
      × ((number : Text)
          → canonical_number lib s.default_region number ≡ key_of contact
          → is_suppressed lib s after.world.db number ≡ true)

  abbrev linked_to : Bool → Contact → Contact
  linked_to unresolved contact =
      linked_contact lib uuid5 str_of uuid_text parse_uuid lower s unresolved contact

  same_id : (contact : Contact) (unresolved : Bool) → (linked_to unresolved contact).id ≡ contact.id
  same_id contact unresolved = ground arith

  same_key :
      (contact : Contact) (unresolved : Bool)
      → key_of (linked_to unresolved contact) ≡ key_of contact
  same_key contact true = refl
  same_key contact false = refl

  -- The state before the opt-out is written.
  abbrev linked_state : CallAttempt → Payload → Contact → Bool → WebhookState → WebhookState
  linked_state attempt payload contact unresolved st =
      in_db (adoption_audit lib uuid5 str_of uuid_text parse_uuid lower s unresolved attempt) (
        saved attempt.id (linked lib uuid5 str_of uuid_text parse_uuid lower s unresolved payload)
          (linked_to unresolved contact) (noted attempt payload st))

  before_opt_out :
      (attempt : CallAttempt) (payload : Payload) (contact : Contact) (unresolved : Bool)
      (st : WebhookState)
      → IsListed contact st
      → ((linked_state attempt payload contact unresolved st).world.schedule ≡ st.world.schedule)
        × IsListed
            (linked_to unresolved contact)
            (linked_state attempt payload contact unresolved st)
  unfolding save_contact record_audit change_attempt
  before_opt_out attempt payload contact true st listed =
      let world = noted-world attempt payload st in
      let contacts = noted-contacts attempt payload st in
      (rw world refl, λ has_row. rw world (listed (rw contacts at has_row)))
  before_opt_out attempt payload contact false st listed =
      let world = noted-world attempt payload st in
      let contacts = noted-contacts attempt payload st in
      (rw world refl, λ has_row. rw world (listed (rw contacts at has_row)))

  pub apply_outcome-IsOptedOut :
      (p : Process) (payload : Payload) (attempt : CallAttempt) (contact : Contact)
      (campaign : Campaign) (unresolved : Bool) (outcome : CallOutcome) (start st : WebhookState)
      → IsListed contact st
      → is_opt_out lower payload.call_disposition payload.mapped_call_disposition p.opt_out_codes
        ≡ true
      → let d =
          apply_outcome lib uuid5 str_of uuid_text parse_uuid lower s p payload attempt contact
            campaign unresolved outcome start st in
        decided d.1 ≡ true → IsOptedOut contact st d.0
  unfolding apply_outcome is_suppressed
  apply_outcome-IsOptedOut p payload attempt contact campaign unresolved outcome start st listed out
        did =
      let attempt' =
        linked lib uuid5 str_of uuid_text parse_uuid lower s unresolved payload attempt in
      let contact' =
        linked_contact lib uuid5 str_of uuid_text parse_uuid lower s unresolved contact in
      let st1 = linked_state attempt payload contact unresolved st in
      let st2 =
        suppress_for_opt_out lib uuid5 str_of uuid_text parse_uuid lower s attempt' contact' st1 in
      let closed = closed_contact lib uuid5 str_of uuid_text parse_uuid lower s contact' in
      let shut =
        settle_call-IsShut lib uuid5 str_of uuid_text parse_uuid lower s p payload attempt' closed
          campaign outcome start st2 refl (rw out at did) in
      let before = before_opt_out attempt payload contact unresolved st listed in
      rw out (
        shut.schedule ∙ (suppress-schedule attempt' contact' st1 ∙ before.0),
        closed_row closed st2.world _ contact.id shut refl (same_id contact unresolved),
        λ number same. rw same (
            still_listed closed st2.world _ (key_of contact) shut (
              subst (λ (k : Text). text_in k st2.world.db.suppressions ≡ true)
                (same_key contact unresolved) (suppress-listed attempt' contact' st1 before.1))),
      )

-- ===== src/Dialer/Once/Runs.antt =====
-- The runs of `_dial`, and the invariant.
pub mod Jobs
use ai_calling_agent.Common.{
  ℕ, ◌+◌, ◌≤◌, ◌<◌, Bool, true, false, ◌&&◌, ◌||◌, not, List, [], ◌∷◌, Option, none, some, ◌==◌,
  if◌then◌else◌, ◌≡◌, refl, arith, ◌∙◌, sym, inl, inr, ltb, String, Bool-cases, ◌⊎◌, is_some,
  Option-cases,
}
use ai_calling_agent.Common.Result.{Result, ok, err, Result-cases}
use ai_calling_agent.Common.Text.{Text}
use ai_calling_agent.Calling.Window.{Zone}
use ai_calling_agent.Eligibility.{EligibilityResult, eligible, refused, transient, check_dial}
use ai_calling_agent.Model.{Uuid, CallAttempt, Contact, Campaign, Db, Settings}
use ai_calling_agent.Outbound.Gate.{BlockReason}
use ai_calling_agent.Phone.{PhoneLib}
use ai_calling_agent.Policy.{get_effective_policy}
use ai_calling_agent.Queue.Job.{IdempotencyKey, Purpose, DialJob}
use ai_calling_agent.Telephony.Client.Placed.{may_be_placed}
use ai_calling_agent.Dialer.Attempts.{attempt_of, is_held_attempt, latest_is_hold}
use ai_calling_agent.Dialer.Attempts.Rows.{row_id, row_id-some, IsCalm, IsCalm-refl, IsCalm-trans}
use ai_calling_agent.Dialer.Dial.{
  is_paused, claimed_contact, lost, claimed, claim_attempt, dialed, claim_and_place, final_gate,
  retry_gate, checked, with_existing, dial,
}
use ai_calling_agent.Dialer.Quiet.{
  second_reconciliation_gate-IsCalm, resolve_unresolved_claim-IsQuiet,
}
use ai_calling_agent.Dialer.Reconcile.{second_reconciliation_gate, resolve_unresolved_claim}
use ai_calling_agent.Dialer.State.{Request, State, Outside, JobOutcome, already_processed}
use ai_calling_agent.Dialer.Trigger.{Prior, Ran, finished, raised, place_call}
use ai_calling_agent.Dialer.Trigger.Ending.{state_of}
use ai_calling_agent.Dialer.Trigger.Placing.{request_of, place_call-IsPlaced}
use ai_calling_agent.Dialer.Once.{IsSafe, IsFresh, IsSafe-calm, IsFresh-calm}
use ai_calling_agent.Dialer.Once.Claiming.{
  IsClaimed, IsFound, IsFound-calm, held-IsFound, claim_attempt-IsClaimed,
}
use ai_calling_agent.Dialer.Once.Placing.{placed-IsSafe}

abbrev pub IsSafeState : State → Type 0
IsSafeState st = IsSafe st.db st.requests

state_of-dialed : (r : Ran (Option JobOutcome)) → state_of (dialed r) ≡ state_of r
state_of-dialed (finished st none) = refl
state_of-dialed (finished st (some outcome)) = refl
state_of-dialed (raised st) = refl

module _ {Number : Type 0} (lib : PhoneLib Number) (zone_info : Text → Option Zone)
    (uuid5 : IdempotencyKey → Purpose → Uuid) (str_of : ℕ → String) (s : Settings)
    (o : Outside) where
  module _ (held : Option CallAttempt) (contact : Contact) (number : ℕ) (st : State) where
    abbrev prior_of : Prior
    prior_of = record { status = contact.status; attempt_count = contact.attempt_count }

    claim_and_place-lost :
        claim_attempt o held contact number st.db ≡ lost
        → claim_and_place lib zone_info uuid5 str_of s o held contact number st
          ≡ finished st already_processed
    unfolding claim_and_place
    claim_and_place-lost h = rw (claim_and_place, h) refl

    claim_and_place-claimed :
        (db1 : Db) (a : CallAttempt)
        → claim_attempt o held contact number st.db ≡ claimed db1 a
        → claim_and_place lib zone_info uuid5 str_of s o held contact number st
          ≡ dialed (
              place_call lib uuid5 str_of s db1 o a
                (claimed_contact contact)
                prior_of
                (record st { db = db1 }))
    unfolding claim_and_place place_call
    claim_and_place-claimed db1 a h = rw (claim_and_place, h) refl

    claim_and_place-IsSafe :
        IsSafeState st
        → IsFresh o.new_attempt_id st.db
        → IsFound st.db st.requests contact.id number held
        → IsSafeState
            (state_of (claim_and_place lib zone_info uuid5 str_of s o held contact number st))
    unfolding IsClaimed
    claim_and_place-IsSafe safe fresh found =
        elim (claim_attempt-IsClaimed o contact number st.db st.requests held safe fresh found) [
          | inl h ↦ rw (claim_and_place-lost h) safe
          | inr (db1, a, h, claim) ↦
              let st1 : State = record st { db = db1 } in
              let run =
                place_call-IsPlaced lib uuid5 str_of s o a (claimed_contact contact) prior_of st1 in
              rw
                (
                  claim_and_place-claimed db1 a h,
                  state_of-dialed (
                      place_call lib uuid5 str_of s db1 o a (claimed_contact contact) prior_of st1),
                )
                (placed-IsSafe contact.id number a db1 _ st.requests claim
                  (request_of lib uuid5 str_of s o a (claimed_contact contact)) refl claim.4 _ run.0
                  run.1)
        ]

    final_gate-IsSafe :
        IsSafeState st
        → IsFresh o.new_attempt_id st.db
        → IsFound st.db st.requests contact.id number held
        → IsSafeState (state_of (final_gate lib zone_info uuid5 str_of s o held contact number st))
    unfolding final_gate
    final_gate-IsSafe safe fresh found =
        let run = claim_and_place-IsSafe safe fresh found in ground (arith, safe, run)

  retry_gate-IsSafe :
      (held : Option CallAttempt) (contact : Contact) (number : ℕ) (st : State)
      → IsSafeState st
      → IsFresh o.new_attempt_id st.db
      → IsFound st.db st.requests contact.id number held
      → IsSafeState (state_of (retry_gate lib zone_info uuid5 str_of s o held contact number st))
  unfolding retry_gate
  retry_gate-IsSafe held contact number st safe fresh found =
      let calm = second_reconciliation_gate-IsCalm str_of s contact number o.second_lookup st.db in
      let db1 = (second_reconciliation_gate str_of s contact number o.second_lookup st.db).0 in
      let safe1 = IsSafe-calm st.db db1 st.requests calm safe in
      let run = final_gate-IsSafe held contact number st safe fresh found in
      let run1 =
        final_gate-IsSafe held contact number (record st { db = db1 }) safe1
          (IsFresh-calm o.new_attempt_id st.db db1 calm fresh)
          (IsFound-calm st.db db1 st.requests contact.id number held calm found) in
      ground (arith, safe1, run1, run)

  checked-IsSafe :
      (held : Option CallAttempt) (contact : Contact) (campaign : Campaign) (number : ℕ)
      (st : State)
      → IsSafeState st
      → IsFresh o.new_attempt_id st.db
      → IsFound st.db st.requests contact.id number held
      → IsSafeState
          (state_of (checked lib zone_info uuid5 str_of s o held contact campaign number st))
  unfolding checked
  checked-IsSafe held contact campaign number st safe fresh found =
      let run = retry_gate-IsSafe held contact number st safe fresh found in
      ground (arith, safe, run)

  held-latest :
      (db : Db) (a : CallAttempt) → is_held_attempt db a ≡ true → latest_is_hold db a.id ≡ true
  unfolding is_held_attempt
  held-latest db a h = ground arith

  -- An attempt that is there is claimed again only from a hold.
  existing-IsSafe :
      (existing : CallAttempt) (contact : Contact) (campaign : Campaign) (number : ℕ) (st : State)
      → attempt_of st.db contact.id number ≡ some existing
      → IsSafeState st
      → IsFresh o.new_attempt_id st.db
      → IsSafeState (
          state_of (
            with_existing lib zone_info uuid5 str_of s o
              (some existing)
              contact
              campaign
              number
              st))
  unfolding with_existing
  existing-IsSafe existing contact campaign number st is_there safe fresh =
      let (row, own, same_number) =
        row_id-some contact.id number st.db.attempts existing is_there in
      let again = λ (h : is_held_attempt st.db existing ≡ true).
        checked-IsSafe (some existing) contact campaign number st safe fresh (
          held-IsFound o contact number st.db st.requests existing safe row same_number
            (held-latest st.db existing h)) in
      let st1 = (resolve_unresolved_claim lib uuid5 str_of s o existing contact st).0 in
      let quiet = resolve_unresolved_claim-IsQuiet lib uuid5 str_of s o existing contact st in
      let resolved : IsSafe st1.db st1.requests =
        rw quiet.1 (IsSafe-calm st.db st1.db st.requests quiet.0 safe) in
      ground (arith, safe, again, resolved)

  with_existing-IsSafe :
      (found : Option CallAttempt) (contact : Contact) (campaign : Campaign) (number : ℕ)
      (st : State)
      → attempt_of st.db contact.id number ≡ found
      → IsSafeState st
      → IsFresh o.new_attempt_id st.db
      → IsSafeState
          (state_of (with_existing lib zone_info uuid5 str_of s o found contact campaign number st))
  unfolding with_existing IsFound
  with_existing-IsSafe none contact campaign number st missing safe fresh =
      checked-IsSafe none contact campaign number st safe fresh tt
  with_existing-IsSafe (some existing) contact campaign number st is_there safe fresh =
      existing-IsSafe existing contact campaign number st is_there safe fresh

  pub dial-IsSafe :
      (job : DialJob) (st : State)
      → IsSafeState st
      → IsFresh o.new_attempt_id st.db
      → IsSafeState (state_of (dial lib zone_info uuid5 str_of s o job st))
  unfolding dial
  dial-IsSafe job st safe fresh = elim (Option-cases (st.db.contacts job.contact_id)) [
    | inl e ↦ rw (dial, e) safe
    | inr (contact, e) ↦ elim (Option-cases (st.db.campaigns job.campaign_id)) [
      | inl e' ↦ rw (dial, e, e') safe
      | inr (campaign, e') ↦
          rw (dial, e, e')
            (with_existing-IsSafe (attempt_of st.db contact.id job.attempt_number) contact campaign
              job.attempt_number st refl safe fresh)
    ]
  ]

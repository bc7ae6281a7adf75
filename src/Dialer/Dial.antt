-- ===== src/Dialer/Dial.antt =====
-- `_dial` of the worker: the last checks, the durable claim of the attempt, and the trigger.
use ai_calling_agent.Common.{
  ℕ, ◌+◌, Bool, true, false, String, [], Option, none, some, ltb, if◌then◌else◌, is_some,
}
use ai_calling_agent.Common.Result.{ok, err}
use ai_calling_agent.Common.Text.{Text}
use ai_calling_agent.Calling.Window.{Zone}
use ai_calling_agent.Eligibility.{eligible, refused, transient, check_dial}
use ai_calling_agent.Model.{Uuid, Contact, Campaign, CallAttempt, Db, Settings}
use ai_calling_agent.Model.Enums.{ContactStatus, CampaignStatus, initiated}
use ai_calling_agent.Outbound.Gate.{BlockReason, is_budget_reason}
use ai_calling_agent.Phone.{PhoneLib}
use ai_calling_agent.Policy.{get_effective_policy}
use ai_calling_agent.Queue.Job.{IdempotencyKey, Purpose, DialJob}
use ai_calling_agent.Recovery.Manager.{log_event, save_contact}
use ai_calling_agent.Dialer.Attempts.{
  attempt_of, change_attempt, get_or_create, is_held_attempt, resumed_event,
}
use ai_calling_agent.Dialer.Reconcile.{second_reconciliation_gate, resolve_unresolved_claim}
use ai_calling_agent.Dialer.State.{
  State, Outside, JobOutcome, admitted_and_dialed, not_eligible, already_processed, campaign_paused,
  outside_window, budget_blocked, outbound_blocked,
}
use ai_calling_agent.Dialer.Trigger.{Prior, Ran, finished, raised, place_call}

abbrev pub is_paused : CampaignStatus → Bool
is_paused CampaignStatus.paused = true
is_paused _ = false

-- `_resume_held_attempt`: the assignments, and the event.
abbrev pub resumed_attempt : Outside → CallAttempt → CallAttempt
resumed_attempt o a = record a {
  state = initiated;
  connection_failure_reason = none;
  ended_at = none;
  started_at = o.now;
}

unfoldable pub resume_held_attempt : Outside → CallAttempt → Db → Db
resume_held_attempt o attempt db =
    log_event attempt.id resumed_event [] (change_attempt attempt.id (resumed_attempt o) db)

-- The contact of a claimed attempt.
abbrev pub claimed_contact : Contact → Contact
claimed_contact contact = record contact {
  attempt_count = contact.attempt_count + 1;
  status = ContactStatus.dialing;
  next_retry_at = none;
  retry_attempt_id = none;
  retry_attempt_number = none;
}

-- What the claim comes to: another worker was first, or the attempt is this worker's.
pub data Claim : Type 0 where
  lost : Claim
  claimed : Db → CallAttempt → Claim

unfoldable pub claim_attempt : Outside → Option CallAttempt → Contact → ℕ → Db → Claim
claim_attempt o (some held) contact number db =
    claimed (save_contact (claimed_contact contact) (resume_held_attempt o held db))
      (resumed_attempt o held)
claim_attempt o none contact number db =
    let (db1, attempt, created) = get_or_create o.new_attempt_id o.now contact.id number db in
    if created then claimed (save_contact (claimed_contact contact) db1) attempt else lost

abbrev pub blocked_outcome : BlockReason → JobOutcome
blocked_outcome reason = if is_budget_reason reason then budget_blocked else outbound_blocked

-- `outcome or ADMITTED_AND_DIALED`
abbrev pub dialed : Ran (Option JobOutcome) → Ran JobOutcome
dialed (finished st none) = finished st admitted_and_dialed
dialed (finished st (some outcome)) = finished st outcome
dialed (raised st) = raised st

module _ {Number : Type 0} (lib : PhoneLib Number) (zone_info : Text → Option Zone)
    (uuid5 : IdempotencyKey → Purpose → Uuid) (str_of : ℕ → String) (s : Settings)
    (o : Outside) where
  -- From the claim on. What is committed before the trigger is what the claim wrote.
  unfoldable pub claim_and_place : Option CallAttempt → Contact → ℕ → State → Ran JobOutcome
  claim_and_place held contact number st =
      let prior : Prior = record {
        status = contact.status;
        attempt_count = contact.attempt_count;
      } in
      elim (claim_attempt o held contact number st.db) [
        | lost ↦ finished st already_processed
        | claimed db1 attempt ↦ dialed (
            place_call lib uuid5 str_of s db1 o attempt (claimed_contact contact) prior
              (record st { db = db1 }))
      ]

  -- The gate at its second reading.
  unfoldable pub final_gate : Option CallAttempt → Contact → ℕ → State → Ran JobOutcome
  final_gate held contact number st = elim o.second_gate [
    | some reason ↦ finished st (blocked_outcome reason)
    | none ↦ claim_and_place held contact number st
  ]

  -- The check of an ambiguous predecessor, for a retry.
  unfoldable pub retry_gate : Option CallAttempt → Contact → ℕ → State → Ran JobOutcome
  retry_gate held contact number st =
      let (db1, blocked) =
        if ltb 1 number
        then second_reconciliation_gate str_of s contact number o.second_lookup st.db
        else (st.db, none) in
      elim blocked [
        | some outcome ↦ finished (record st { db = db1 }) outcome
        | none ↦ final_gate held contact number (record st { db = db1 })
      ]

  -- The eligibility checks, which raise where the window cannot be computed.
  unfoldable pub checked : Option CallAttempt → Contact → Campaign → ℕ → State → Ran JobOutcome
  checked held contact campaign number st =
      if is_paused campaign.status
      then finished st campaign_paused
      else elim (check_dial lib zone_info s st.db contact campaign
          (some (get_effective_policy s st.db campaign)) o.now) [
            | err _ ↦ raised st
            | ok eligible ↦ retry_gate held contact number st
            | ok (refused r) ↦
                if transient (refused r)
                then finished st outside_window
                else finished st not_eligible
          ]

  -- An attempt that exists: done, on hold for the provider, or a claim that was never resolved.
  unfoldable pub with_existing :
      Option CallAttempt → Contact → Campaign → ℕ → State → Ran JobOutcome
  with_existing none contact campaign number st = checked none contact campaign number st
  with_existing (some existing) contact campaign number st =
      if is_some existing.provider_call_id
      then finished st already_processed
      else if is_held_attempt st.db existing
      then checked (some existing) contact campaign number st
      else let (st1, outcome) = resolve_unresolved_claim lib uuid5 str_of s o existing contact st in
        finished st1 outcome

  -- `_dial`
  unfoldable pub dial : DialJob → State → Ran JobOutcome
  dial job st = elim (st.db.contacts job.contact_id) [
    | none ↦ finished st not_eligible
    | some contact ↦ elim (st.db.campaigns job.campaign_id) [
      | none ↦ finished st not_eligible
      | some campaign ↦
          with_existing (attempt_of st.db contact.id job.attempt_number) contact campaign
            job.attempt_number st
    ]
  ]

-- ===== src/Dialer/Once/Runs/Jobs.antt =====
-- The way of a job from its delivery to its acknowledgement, and the invariant.
use ai_calling_agent.Common.{ℕ, Bool, true, false, Option, none, some, arith, inl, inr, String}
use ai_calling_agent.Common.Result.{Result-cases}
use ai_calling_agent.Common.Text.{Text}
use ai_calling_agent.Calling.Window.{Time, Zone}
use ai_calling_agent.Model.{Uuid, Settings}
use ai_calling_agent.Phone.{PhoneLib}
use ai_calling_agent.Queue.Job.{IdempotencyKey, Purpose, DialJob, RecoveryJob}
use ai_calling_agent.Dialer.Attempts.Rows.{}
use ai_calling_agent.Dialer.Dial.{dial}
use ai_calling_agent.Dialer.Settle.{
  left_unacked, settle_paused, retry_of, return_retry, settle_outside_window,
}
use ai_calling_agent.Dialer.Process.{
  closed_window, settle_dialed, after_dial, reset_held, admit_and_dial, within_window, process_job,
  process_claimed_job,
}
use ai_calling_agent.Dialer.State.{State, Outside, JobOutcome, campaign_paused, outside_window}
use ai_calling_agent.Dialer.Trigger.{Ran, finished, raised}
use ai_calling_agent.Dialer.Trigger.Ending.{state_of}
use ai_calling_agent.Dialer.Once.{IsFresh}
use ai_calling_agent.Dialer.Once.Runs.{IsSafeState, dial-IsSafe}

module _ (same_key : IdempotencyKey → IdempotencyKey → Bool) where
  settle_paused-IsSafe :
      (message_id : ℕ) (job : DialJob) (st : State)
      → IsSafeState st
      → IsSafeState (settle_paused same_key message_id job st).0
  unfolding settle_paused
  settle_paused-IsSafe message_id job st safe = ground (arith, safe)

  return_retry-IsSafe :
      (message_id : ℕ) (retry : Option RecoveryJob) (due : Option Time) (st : State)
      → IsSafeState st
      → IsSafeState (return_retry same_key message_id retry due st).0
  unfolding return_retry
  return_retry-IsSafe message_id (some retry) (some due) st safe = safe
  return_retry-IsSafe message_id (some retry) none st safe = safe
  return_retry-IsSafe message_id none due st safe = safe

  settle_outside_window-IsSafe :
      (message_id : ℕ) (job : DialJob) (due : Option Time) (st : State)
      → IsSafeState st
      → IsSafeState (settle_outside_window same_key message_id job due st).0
  unfolding settle_outside_window
  settle_outside_window-IsSafe message_id job due st safe =
      let returned = return_retry-IsSafe message_id (retry_of same_key job) due st safe in
      ground (arith, safe, returned)

module _ {Number : Type 0} (lib : PhoneLib Number) (zone_info : Text → Option Zone)
    (uuid5 : IdempotencyKey → Purpose → Uuid) (str_of : ℕ → String)
    (same_key : IdempotencyKey → IdempotencyKey → Bool) (s : Settings) where
  module _ (o : Outside) (message_id : ℕ) (job : DialJob) where
    settle_closed-IsSafe :
        (st : State)
        → IsSafeState st
        → IsSafeState (
            state_of (
              settle_dialed lib zone_info uuid5 str_of same_key s o message_id job st
                outside_window))
    unfolding settle_dialed
    settle_closed-IsSafe st safe = elim (Result-cases (closed_window zone_info s st.db job o.now)) [
      | inr (e, h) ↦ rw (settle_dialed, h) safe
      | inl ((closed, due), h) ↦
          rw (settle_dialed, h) (settle_outside_window-IsSafe same_key message_id job due st safe)
    ]

    settle_dialed-IsSafe :
        (outcome : JobOutcome) (st : State)
        → IsSafeState st
        → IsSafeState (
            state_of
              (settle_dialed lib zone_info uuid5 str_of same_key s o message_id job st outcome))
    unfolding settle_dialed left_unacked
    settle_dialed-IsSafe campaign_paused st safe =
        settle_paused-IsSafe same_key message_id job st safe
    settle_dialed-IsSafe outside_window st safe = settle_closed-IsSafe st safe
    settle_dialed-IsSafe _ st safe = safe

    after_dial-IsSafe :
        (r : Ran JobOutcome)
        → IsSafeState (state_of r)
        → IsSafeState
            (state_of (after_dial lib zone_info uuid5 str_of same_key s o message_id job r))
    after_dial-IsSafe (finished st outcome) safe = settle_dialed-IsSafe outcome st safe
    after_dial-IsSafe (raised st) safe = safe

    admit_and_dial-IsSafe :
        (st : State)
        → IsSafeState st
        → IsFresh o.new_attempt_id st.db
        → IsSafeState
            (state_of (admit_and_dial lib zone_info uuid5 str_of same_key s o message_id job st))
    unfolding admit_and_dial
    admit_and_dial-IsSafe st safe fresh =
        let run =
          after_dial-IsSafe (dial lib zone_info uuid5 str_of s o job st)
            (dial-IsSafe lib zone_info uuid5 str_of s o job st safe fresh) in
        ground (arith, safe, run)

    within_window-IsSafe :
        (st : State)
        → IsSafeState st
        → IsFresh o.new_attempt_id st.db
        → IsSafeState
            (state_of (within_window lib zone_info uuid5 str_of same_key s o message_id job st))
    unfolding within_window
    within_window-IsSafe st safe fresh =
        elim (Result-cases (closed_window zone_info s st.db job o.now)) [
          | inr (e, h) ↦ rw (within_window, h) safe
          | inl ((true, due), h) ↦
              rw (within_window, h)
                (settle_outside_window-IsSafe same_key message_id job due st safe)
          | inl ((false, due), h) ↦ rw (within_window, h) (admit_and_dial-IsSafe st safe fresh)
        ]

    process_job-IsSafe :
        (st : State)
        → IsSafeState st
        → IsFresh o.new_attempt_id st.db
        → IsSafeState
            (state_of (process_job lib zone_info uuid5 str_of same_key s o message_id job st))
    unfolding process_job
    process_job-IsSafe st safe fresh =
        let paused = settle_paused-IsSafe same_key message_id job st safe in
        let run = within_window-IsSafe st safe fresh in ground (arith, safe, paused, run)

    reset_held-IsSafe :
        (hold : Uuid) (r : Ran JobOutcome)
        → IsSafeState (state_of r)
        → IsSafeState
            (state_of (reset_held lib zone_info uuid5 str_of same_key s o hold message_id r))
    reset_held-IsSafe hold (finished st outcome) safe = ground (arith, safe)
    reset_held-IsSafe hold (raised st) safe = safe

    pub process_claimed_job-IsSafe :
        (hold : Uuid) (st : State)
        → IsSafeState st
        → IsFresh o.new_attempt_id st.db
        → IsSafeState (
            state_of
              (process_claimed_job lib zone_info uuid5 str_of same_key s o hold message_id job st))
    unfolding process_claimed_job
    process_claimed_job-IsSafe hold st safe fresh =
        reset_held-IsSafe hold
          (process_job lib zone_info uuid5 str_of same_key s o message_id job st)
          (process_job-IsSafe st safe fresh)

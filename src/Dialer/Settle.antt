-- ===== src/Dialer/Settle.antt =====
-- How the worker (backend/app/services/queue/dialer_worker.py) settles a job that it does not dial
-- now: it is dropped, returned or held.
use ai_calling_agent.Common.{
  ℕ, Bool, true, false, not, ◌&&◌, Option, none, some, ◌==◌, if◌then◌else◌, is_some,
}
use ai_calling_agent.Calling.Window.{Time}
use ai_calling_agent.Model.{Uuid, Db}
use ai_calling_agent.Model.Enums.{ContactStatus}
use ai_calling_agent.Queue.Job.{IdempotencyKey, DialJob, idempotency_key, RecoveryJob, reconnect}
use ai_calling_agent.Queue.Stream.{Stream, ack}
use ai_calling_agent.Recovery.Scheduler.{schedule, schedule_dial}
use ai_calling_agent.Dialer.Attempts.{attempt_of}
use ai_calling_agent.Dialer.State.{
  State, JobOutcome, already_processed, in_flight, outbound_blocked, provider_halted,
  reconcile_deferred, campaign_paused, campaign_paused_held, window_deferred, window_held,
  budget_blocked,
}

-- `_LEFT_UNACKED`
unfoldable pub left_unacked : JobOutcome → Bool
left_unacked in_flight = true
left_unacked reconcile_deferred = true
left_unacked outbound_blocked = true
left_unacked provider_halted = true
left_unacked budget_blocked = true
left_unacked campaign_paused_held = true
left_unacked window_held = true
left_unacked _ = false

abbrev pub is_pending : ContactStatus → Bool
is_pending ContactStatus.pending = true
is_pending _ = false

-- The record of this job is still the contact's row: `QueueEnqueueService` would queue it again.
unfoldable pub rebuildable : Db → DialJob → Bool
rebuildable db job =
    (job.attempt_number == 1)
    && not (is_some job.recovery_type)
    && (elim (db.contacts job.contact_id) [
      | none ↦ false
      | some contact ↦ is_pending contact.status && (contact.attempt_count == 0)
    ])

-- The provider has a call of this attempt.
unfoldable pub already_dialed : Db → DialJob → Bool
already_dialed db job = elim (attempt_of db job.contact_id job.attempt_number) [
  | none ↦ false
  | some a ↦ is_some a.provider_call_id
]

abbrev pub ack_message : ℕ → State → State
ack_message message_id st = record st { stream = ack message_id st.stream }

module _ (same_key : IdempotencyKey → IdempotencyKey → Bool) where
  -- `queue.redis.delete(enqueue_guard_key(...))`
  unfoldable pub delete_guard : IdempotencyKey → Stream → Stream
  delete_guard key s = record s { guards = λ k. if same_key k key then none else s.guards k }

  -- `_settle_paused`
  unfoldable pub settle_paused : ℕ → DialJob → State → State × JobOutcome
  settle_paused message_id job st =
      if rebuildable st.db job
      then (
        ack_message message_id
            (record st { stream = delete_guard (idempotency_key job) st.stream }),
        campaign_paused,
      )
      else if already_dialed st.db job
      then (ack_message message_id st, already_processed)
      else (st, campaign_paused_held)

  -- The job of a retry, in the form of the schedule.
  abbrev pub returned_job : DialJob → Uuid → RecoveryJob
  returned_job job attempt_id = record {
    job_id = job.job_id;
    attempt_id = attempt_id;
    contact_id = job.contact_id;
    campaign_id = job.campaign_id;
    attempt_number = job.attempt_number;
    recovery_type = reconnect;
    trace_id = job.trace_id;
  }

  abbrev pub retry_of : DialJob → Option RecoveryJob
  retry_of job = elim job.recovery_type [
    | none ↦ none
    | some _ ↦ elim job.previous_attempt_id [ none ↦ none | some a ↦ some (returned_job job a) ]
  ]

  -- A retry goes back to the schedule that it came from; anything else is held.
  unfoldable pub return_retry : ℕ → Option RecoveryJob → Option Time → State → State × JobOutcome
  return_retry message_id (some retry_job) (some due_at) st = (
    ack_message message_id (record st { schedule = schedule retry_job due_at st.schedule }),
    window_deferred,
  )
  return_retry message_id _ _ st = (st, window_held)

  -- `_settle_outside_window`
  unfoldable pub settle_outside_window : ℕ → DialJob → Option Time → State → State × JobOutcome
  settle_outside_window message_id job due_at st =
      if rebuildable st.db job && is_some due_at
      then elim due_at [
        | none ↦ (st, window_held)
        | some due ↦ (
          ack_message message_id (record st {
            schedule = schedule_dial job due st.schedule;
            stream = delete_guard (idempotency_key job) st.stream;
          }),
          window_deferred,
        )
      ]
      else if already_dialed st.db job
      then (ack_message message_id st, already_processed)
      else return_retry message_id (retry_of job) due_at st

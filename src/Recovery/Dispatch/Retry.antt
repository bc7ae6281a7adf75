-- ===== src/Recovery/Dispatch/Retry.antt =====
-- `_process_one` of the dispatch (backend/app/services/recovery/dispatch.py): a retry that is due.
--
-- Ids that `DialJob.new` draws are arguments, and the status that a skip records beside its reason is
-- left out.
use ai_calling_agent.Common.{
  ℕ, ◌+◌, Bool, true, false, not, ◌||◌, String, [], ◌∷◌, Option, none, some, if◌then◌else◌, is_some,
}
use ai_calling_agent.Common.Result.{Result, ok, err, ◌>>=◌}
use ai_calling_agent.Common.Text.{Text}
use ai_calling_agent.Calling.Window.{Time, Zone, WindowError, invalid_timezone, no_dialable_window}
use ai_calling_agent.Dialer.Attempts.{attempt_of}
use ai_calling_agent.Eligibility.{is_suppressed}
use ai_calling_agent.Model.{Uuid, Contact, Campaign, Db, Settings, seconds_of, num, text, flag}
use ai_calling_agent.Model.Enums.{ContactStatus, CampaignStatus}
use ai_calling_agent.Phone.{PhoneLib}
use ai_calling_agent.Policy.{get_effective_policy, window_is_open, next_open_time}
use ai_calling_agent.Queue.Job.{
  IdempotencyKey, DialJob, new_dial_job, idempotency_key, RecoveryJob, retry,
}
use ai_calling_agent.Queue.Stream.{
  Stream, enqueue_once, Admission, queued, already_guarded, backlog_full,
}
use ai_calling_agent.Recovery.Manager.{log_event, save_contact, is_closed, is_completed}
use ai_calling_agent.Recovery.Scheduler.{Schedule, reschedule}

-- What the dispatcher shares with the rest: the session, the schedule and the dial stream.
pub record Shared : Type 0 where
  pub db : Db
  pub schedule : Schedule
  pub stream : Stream

-- `PAUSE_RECHECK_SECONDS`, `DISPATCH_ERROR_RETRY_SECONDS`, and `ENQUEUE_GUARD_TTL_SECONDS` of
-- backend/app/services/queue/enqueue_service.py
abbrev pub pause_recheck : Time
pause_recheck = seconds_of 60

abbrev pub error_retry : Time
error_retry = seconds_of 30

abbrev pub is_retry_scheduled : ContactStatus → Bool
is_retry_scheduled ContactStatus.retry_scheduled = true
is_retry_scheduled _ = false

abbrev pub is_waiting : ContactStatus → Bool
is_waiting ContactStatus.pending = true
is_waiting _ = false

abbrev pub is_paused : CampaignStatus → Bool
is_paused CampaignStatus.paused = true
is_paused _ = false

abbrev pub is_active : CampaignStatus → Bool
is_active CampaignStatus.active = true
is_active _ = false

-- `_clear_schedule`
abbrev pub cleared : Contact → Contact
cleared contact = record contact {
  next_retry_at = none;
  retry_attempt_id = none;
  retry_attempt_number = none;
}

abbrev pub postponed : Time → Contact → Contact
postponed due contact = record contact { next_retry_at = some due }

-- `_log_skip`
abbrev pub log_skip : RecoveryJob → String → Bool → Db → Db
log_skip job reason rescheduled db =
    log_event job.attempt_id "RECOVERY_SKIPPED"
      (("reason", text reason) ∷ ("rescheduled", flag rescheduled) ∷ []) db

-- A terminal skip: the entry is gone, and the contact waits for no retry.
abbrev pub skip : RecoveryJob → Contact → String → Shared → Shared × ℕ
skip job contact reason sh =
    (record sh { db = log_skip job reason false (save_contact (cleared contact) sh.db) }, 0)

-- The entry goes back for later.
abbrev pub postpone : RecoveryJob → Contact → Time → Shared → Shared
postpone job contact due sh = record sh {
  db = save_contact (postponed due contact) sh.db;
  schedule = reschedule (retry job) due sh.schedule;
}

abbrev pub skip_for_now : RecoveryJob → Contact → Time → String → Shared → Shared × ℕ
skip_for_now job contact due reason sh =
    let later = postpone job contact due sh in
    (record later { db = log_skip job reason true later.db }, 0)

-- `record_audit_event` of a dispatched contact.
abbrev pub dispatched_audit : Contact → RecoveryJob → Db → Db
dispatched_audit contact job db = record db {
  audits =
      record {
        actor = "recovery-dispatcher";
        action = "recovery.dispatched";
        entity_type = "contact";
        entity_id = some contact.id;
        metadata = ("attempt_number", num job.attempt_number) ∷ [];
      }
      ∷ db.audits;
}

module _ {Number : Type 0} (lib : PhoneLib Number) (zone_info : Text → Option Zone)
    (same_key : IdempotencyKey → IdempotencyKey → Bool) (guard_ttl : Time) (s : Settings)
    (now : Time) where
  -- A window that cannot be evaluated is looked at again in a minute; other errors leave.
  abbrev pub look_again : Result WindowError (Option Time) → Result WindowError (Option Time)
  look_again (err invalid_timezone) = ok (some (now + pause_recheck))
  look_again (err no_dialable_window) = ok (some (now + pause_recheck))
  look_again r = r

  -- `_next_window_time`
  unfoldable pub next_window_time : Db → Campaign → Result WindowError (Option Time)
  next_window_time db campaign = look_again do
    open_now ← window_is_open zone_info s campaign (get_effective_policy s db campaign) now
    if open_now then ok none else do
      due ← next_open_time zone_info s campaign (get_effective_policy s db campaign) now
      ok (some due)

  -- The hand-over to the dial stream, by its answer.
  abbrev pub hand_over : RecoveryJob → Contact → Shared → Stream × Admission → Shared × ℕ
  hand_over job contact sh (stream, backlog_full) =
      (postpone job contact (now + pause_recheck) (record sh { stream = stream }), 0)
  hand_over job contact sh (stream, already_guarded) = (
    record sh {
      stream = stream;
      db =
          log_skip job "already_queued" false
            (save_contact (postponed (now + seconds_of s.retry_redispatch_seconds) contact) sh.db);
    },
    0,
  )
  hand_over job contact sh (stream, queued) = (
    record sh {
      stream = stream;
      db = dispatched_audit contact job (
          log_event job.attempt_id "RECONNECT_STARTED"
            (("next_attempt_number", num job.attempt_number) ∷ [])
            (save_contact (postponed (now + seconds_of s.retry_redispatch_seconds) contact) sh.db));
    },
    1,
  )

  abbrev pub retry_dial : Uuid × Uuid → RecoveryJob → Contact → Campaign → DialJob
  retry_dial ids job contact campaign =
      new_dial_job ids.0 ids.1 now campaign.id contact.id job.attempt_number
        (some job.recovery_type) (some job.attempt_id)

  -- `_process_one` in an open window.
  unfoldable pub process_due : Uuid × Uuid → RecoveryJob → Contact → Campaign → Shared → Shared × ℕ
  process_due ids job contact campaign sh =
      if is_some (attempt_of sh.db contact.id job.attempt_number)
      then skip job contact "attempt_already_exists" sh
      else let dial = retry_dial ids job contact campaign in
        hand_over job contact sh (
          enqueue_once same_key now guard_ttl s.queue_max_backlog (idempotency_key dial) dial
            sh.stream)

  -- `_process_one` of a contact and a campaign that are there.
  unfoldable pub process_retry :
      Uuid × Uuid → RecoveryJob → Contact → Campaign → Shared → Result WindowError (Shared × ℕ)
  process_retry ids job contact campaign sh =
      if is_closed contact.status || is_suppressed lib s sh.db contact.normalized_phone_number
      then ok (skip job contact "suppressed" sh)
      else if is_some contact.purged_at || not (is_retry_scheduled contact.status)
      then ok (skip job contact "contact_not_retryable" sh)
      else if is_completed campaign.status
      then ok (skip job contact "campaign_completed" sh)
      else if is_paused campaign.status
      then ok (skip_for_now job contact (now + pause_recheck) "campaign_paused" sh)
      else elim (next_window_time sh.db campaign) [
        | err e ↦ err e
        | ok (some due) ↦ ok (skip_for_now job contact due "calling_window_closed" sh)
        | ok none ↦ ok (process_due ids job contact campaign sh)
      ]

  -- `_process_one`
  unfoldable pub process_one : Uuid × Uuid → RecoveryJob → Shared → Result WindowError (Shared × ℕ)
  process_one ids job sh = elim (sh.db.contacts job.contact_id) [
    | none ↦ ok (sh, 0)
    | some contact ↦ elim (sh.db.campaigns job.campaign_id) [
      | none ↦ ok (sh, 0)
      | some campaign ↦ process_retry ids job contact campaign sh
    ]
  ]

-- ===== src/Recovery/Dispatch/Deferred.antt =====
-- `_process_deferred_dial` of the dispatch: a first dial that waited for its window.
use ai_calling_agent.Common.{ℕ, ◌+◌, Bool, not, ◌||◌, Option, none, some, ◌==◌, if◌then◌else◌}
use ai_calling_agent.Common.Result.{Result, ok, err}
use ai_calling_agent.Common.Text.{Text}
use ai_calling_agent.Calling.Window.{Time, Zone, WindowError}
use ai_calling_agent.Eligibility.{is_suppressed}
use ai_calling_agent.Model.{Contact, Campaign, Settings}
use ai_calling_agent.Phone.{PhoneLib}
use ai_calling_agent.Queue.Job.{IdempotencyKey, DialJob, idempotency_key, dial_job}
use ai_calling_agent.Queue.Stream.{
  Stream, enqueue_once, Admission, queued, already_guarded, backlog_full,
}
use ai_calling_agent.Recovery.Scheduler.{reschedule}
use ai_calling_agent.Recovery.Dispatch.Retry.{
  Shared, is_active, is_paused, is_waiting, next_window_time, pause_recheck,
}

module _ {Number : Type 0} (lib : PhoneLib Number) (zone_info : Text → Option Zone)
    (same_key : IdempotencyKey → IdempotencyKey → Bool) (guard_ttl : Time) (s : Settings)
    (now : Time) where
  -- `_process_deferred_dial` in an open window.
  abbrev pub deferred_over : DialJob → Shared → Stream × Admission → Shared × ℕ
  deferred_over job sh (stream, backlog_full) = (
    record sh {
      stream = stream;
      schedule = reschedule (dial_job job) (now + pause_recheck) sh.schedule;
    },
    0,
  )
  deferred_over job sh (stream, already_guarded) = (record sh { stream = stream }, 0)
  deferred_over job sh (stream, queued) = (record sh { stream = stream }, 1)

  abbrev pub deferred_later : DialJob → Time → Shared → Shared × ℕ
  deferred_later job due sh =
      (record sh { schedule = reschedule (dial_job job) due sh.schedule }, 0)

  -- `_process_deferred_dial` of a contact and a campaign that are there.
  unfoldable pub process_deferred_of :
      DialJob → Contact → Campaign → Shared → Result WindowError (Shared × ℕ)
  process_deferred_of job contact campaign sh =
      if not (is_waiting contact.status) || not (contact.attempt_count == 0)
      then ok (sh, 0)
      else if is_suppressed lib s sh.db contact.normalized_phone_number
      then ok (sh, 0)
      else if is_paused campaign.status
      then ok (deferred_later job (now + pause_recheck) sh)
      else if not (is_active campaign.status)
      then ok (sh, 0)
      else elim (next_window_time lib zone_info same_key guard_ttl s now sh.db campaign) [
        | err e ↦ err e
        | ok (some due) ↦ ok (deferred_later job due sh)
        | ok none ↦ ok (
            deferred_over job sh (
              enqueue_once same_key now guard_ttl s.queue_max_backlog (idempotency_key job) job
                sh.stream))
      ]

  -- `_process_deferred_dial`
  unfoldable pub process_deferred : DialJob → Shared → Result WindowError (Shared × ℕ)
  process_deferred job sh = elim (sh.db.contacts job.contact_id) [
    | none ↦ ok (sh, 0)
    | some contact ↦ elim (sh.db.campaigns job.campaign_id) [
      | none ↦ ok (sh, 0)
      | some campaign ↦ process_deferred_of job contact campaign sh
    ]
  ]

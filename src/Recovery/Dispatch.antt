-- ===== src/Recovery/Dispatch.antt =====
-- The dispatch of due entries (backend/app/services/recovery/dispatch.py): a retry or a deferred
-- first dial goes from the schedule to the dial stream, back into the schedule, or away.
--
-- The session of an entry is committed or rolled back; what was done in Redis stays. `commits` says
-- whether the commit succeeds.
pub mod Retry
pub mod Deferred
pub mod Lossless
pub mod Steady
use ai_calling_agent.Common.{
  ℕ, ◌+◌, ◌*◌, Bool, true, false, not, ◌&&◌, ◌||◌, String, List, [], ◌∷◌, Option, none, some, ◌==◌,
  if◌then◌else◌, is_some,
}
use ai_calling_agent.Common.Result.{Result, ok, err, ◌>>=◌}
use ai_calling_agent.Common.Text.{Text}
use ai_calling_agent.Calling.Window.{
  Time, Zone, WindowError, equal_ends, invalid_timezone, no_dialable_window,
}
use ai_calling_agent.Dialer.Attempts.{attempt_of}
use ai_calling_agent.Eligibility.{is_suppressed}
use ai_calling_agent.Model.{Uuid, Contact, Campaign, Db, Settings, seconds_of, num, text, flag}
use ai_calling_agent.Model.Enums.{ContactStatus, CampaignStatus}
use ai_calling_agent.Phone.{PhoneLib}
use ai_calling_agent.Policy.{get_effective_policy, window_is_open, next_open_time}
use ai_calling_agent.Queue.Job.{
  IdempotencyKey, DialJob, new_dial_job, idempotency_key, RecoveryJob, Entry, retry, dial_job,
}
use ai_calling_agent.Queue.Stream.{
  Stream, enqueue_once, Admission, queued, already_guarded, backlog_full,
}
use ai_calling_agent.Recovery.Manager.{log_event, save_contact, is_closed, is_completed}
use ai_calling_agent.Recovery.Scheduler.{Schedule, put_back, reschedule, due_jobs, claim}
use ai_calling_agent.Recovery.Dispatch.Retry.{Shared, error_retry, process_one}
use ai_calling_agent.Recovery.Dispatch.Deferred.{process_deferred}

module _ {Number : Type 0} (lib : PhoneLib Number) (zone_info : Text → Option Zone)
    (same_key : IdempotencyKey → IdempotencyKey → Bool) (guard_ttl : Time) (s : Settings)
    (now : Time) where
  unfoldable pub process_entry : Uuid × Uuid → Entry → Shared → Result WindowError (Shared × ℕ)
  process_entry ids (retry job) sh = process_one lib zone_info same_key guard_ttl s now ids job sh
  process_entry ids (dial_job job) sh =
      process_deferred lib zone_info same_key guard_ttl s now job sh

  -- The claimed entry is put back, unless it is in the schedule again.
  abbrev pub restored : Db → Entry → Shared → Shared
  restored db entry sh = record sh {
    db = db;
    schedule = (put_back entry (now + error_retry) sh.schedule).0;
  }

  -- The end of the session of an entry.
  abbrev pub settled : Bool → Entry → Shared → Result WindowError (Shared × ℕ) → Shared × ℕ
  settled commits entry sh (err _) = (restored sh.db entry sh, 0)
  settled true entry sh (ok r) = r
  settled false entry sh (ok (after, n)) = (restored sh.db entry after, n)

  -- One turn of the loop: an entry that another worker has claimed is left alone.
  unfoldable pub dispatch_one : Bool → Uuid × Uuid → Entry → Shared → Shared × ℕ
  dispatch_one commits ids entry sh =
      let (schedule, won) = claim entry sh.schedule in
      let claimed = record sh { schedule = schedule } in
      if won then settled commits entry claimed (process_entry ids entry claimed) else (sh, 0)

  -- The loop; each entry comes with whether its commit succeeds, and its ids.
  unfoldable pub dispatch_all : List (Bool × (Uuid × Uuid) × Entry) → Shared → Shared × ℕ
  dispatch_all [] sh = (sh, 0)
  dispatch_all ((commits, ids, entry) ∷ entries) sh =
      let (sh1, n) = dispatch_one commits ids entry sh in
      let (sh2, k) = dispatch_all entries sh1 in (sh2, n + k)

  -- `dispatch_due_recovery_jobs`
  abbrev pub with_answers :
      (Entry → Bool) → (Entry → Uuid × Uuid) → List Entry → List (Bool × (Uuid × Uuid) × Entry)
  with_answers commits ids [] = []
  with_answers commits ids (e ∷ entries) = (commits e, ids e, e) ∷ with_answers commits ids entries

  unfoldable pub dispatch_due_recovery_jobs :
      (Entry → Bool) → (Entry → Uuid × Uuid) → Shared → Shared × ℕ
  dispatch_due_recovery_jobs commits ids sh =
      dispatch_all (with_answers commits ids (due_jobs now 50 sh.schedule)) sh

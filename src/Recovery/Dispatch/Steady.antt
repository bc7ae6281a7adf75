-- ===== src/Recovery/Dispatch/Steady.antt =====
-- A dispatch of due entries makes no attempt and puts none on hold, and guards only what it queues.
mod Entries
use ai_calling_agent.Common.{
  ℕ, Bool, true, false, not, ◌||◌, ◌==◌, String, List, [], ◌∷◌, Option, none, some, is_some, refl,
  inl, inr, Bool-cases, Option-cases,
}
use ai_calling_agent.Common.Result.{Result, ok, err}
use ai_calling_agent.Common.Text.{Text}
use ai_calling_agent.Calling.Window.{Time, Zone, WindowError}
use ai_calling_agent.Dialer.Attempts.{attempt_of}
use ai_calling_agent.Dialer.Attempts.Rows.{
  IsCalm, IsCalm-refl, IsCalm-trans, IsCalm-same, log_event-IsCalm, save_contact-IsCalm,
}
use ai_calling_agent.Eligibility.{is_suppressed}
use ai_calling_agent.Model.{Uuid, Contact, Campaign, Settings}
use ai_calling_agent.Phone.{PhoneLib}
use ai_calling_agent.Queue.Job.{
  IdempotencyKey, DialJob, RecoveryJob, Entry, retry, dial_job, idempotency_key,
}
use ai_calling_agent.Queue.Stream.{
  Stream, enqueue_once, Admission, queued, already_guarded, backlog_full,
}
use ai_calling_agent.Recovery.Manager.{is_closed, is_completed}
use ai_calling_agent.Recovery.Scheduler.{due_jobs, claim}
use ai_calling_agent.Recovery.Dispatch.{
  process_entry, settled, dispatch_one, dispatch_all, with_answers, dispatch_due_recovery_jobs,
}
use ai_calling_agent.Recovery.Dispatch.Deferred.{
  deferred_over, deferred_later, process_deferred_of, process_deferred,
}
use ai_calling_agent.Recovery.Dispatch.Retry.{
  Shared, skip, skip_for_now, cleared, postponed, hand_over, retry_dial, process_due, process_retry,
  process_one, next_window_time, is_retry_scheduled, is_waiting, is_paused, is_active,
}
use ai_calling_agent.Recovery.Dispatch.Lossless.Backed.{
  IsBacked, IsBacked-refl, IsBacked-trans, enqueue_once-IsBacked,
}
use ai_calling_agent.Recovery.Dispatch.Steady.Entries.{
  IsSteady, IsSteady-refl, IsSteady-trans, IsSteadyRun, process_deferred-IsSteady,
  process_one-IsSteady,
}

module _ {Number : Type 0} (lib : PhoneLib Number) (zone_info : Text → Option Zone)
    (same_key : IdempotencyKey → IdempotencyKey → Bool) (guard_ttl : Time) (s : Settings)
    (now : Time) where
  settled-IsSteady :
      (commits : Bool) (x : Entry) (sh : Shared) (r : Result WindowError (Shared × ℕ))
      → IsSteadyRun same_key now sh r
      → IsSteady same_key now sh (settled lib zone_info same_key guard_ttl s now commits x sh r).0
  settled-IsSteady commits x sh (err e) steady = steady
  settled-IsSteady true x sh (ok (after, n)) steady = steady
  settled-IsSteady false x sh (ok (after, n)) steady = (IsCalm-refl sh.db, steady.1)

  process_entry-IsSteady :
      (ids : Uuid × Uuid) (x : Entry) (sh : Shared)
      → IsSteadyRun same_key now sh (process_entry lib zone_info same_key guard_ttl s now ids x sh)
  unfolding process_entry
  process_entry-IsSteady ids (retry job) sh =
      process_one-IsSteady lib zone_info same_key guard_ttl s now ids job sh
  process_entry-IsSteady ids (dial_job job) sh =
      process_deferred-IsSteady lib zone_info same_key guard_ttl s now job sh

  dispatch_one-IsSteady :
      (commits : Bool) (ids : Uuid × Uuid) (x : Entry) (sh : Shared)
      → IsSteady same_key now sh
          (dispatch_one lib zone_info same_key guard_ttl s now commits ids x sh).0
  unfolding dispatch_one
  dispatch_one-IsSteady commits ids x sh =
      let claimed = record sh { schedule = (claim x sh.schedule).0 } in
      let run = settled-IsSteady commits x claimed _ (process_entry-IsSteady ids x claimed) in
      elim (Bool-cases (claim x sh.schedule).1) [
        | inl won ↦ rw (dispatch_one, won) run
        | inr lost ↦ rw (dispatch_one, lost) (IsSteady-refl same_key now sh)
      ]

  dispatch_all-IsSteady :
      (entries : List (Bool × (Uuid × Uuid) × Entry)) (sh : Shared)
      → IsSteady same_key now sh (dispatch_all lib zone_info same_key guard_ttl s now entries sh).0
  unfolding dispatch_all
  dispatch_all-IsSteady [] sh = IsSteady-refl same_key now sh
  dispatch_all-IsSteady ((commits, ids, x) ∷ entries) sh =
      let sh1 = (dispatch_one lib zone_info same_key guard_ttl s now commits ids x sh).0 in
      let sh2 = (dispatch_all lib zone_info same_key guard_ttl s now entries sh1).0 in
      IsSteady-trans same_key now sh sh1 sh2 (dispatch_one-IsSteady commits ids x sh)
        (dispatch_all-IsSteady entries sh1)

  pub dispatch_due_recovery_jobs-IsSteady :
      (commits : Entry → Bool) (ids : Entry → Uuid × Uuid) (sh : Shared)
      → IsSteady same_key now sh
          (dispatch_due_recovery_jobs lib zone_info same_key guard_ttl s now commits ids sh).0
  unfolding dispatch_due_recovery_jobs
  dispatch_due_recovery_jobs-IsSteady commits ids sh =
      dispatch_all-IsSteady
        (with_answers lib zone_info same_key guard_ttl s now commits ids
          (due_jobs now 50 sh.schedule))
        sh

-- ===== src/Recovery/Dispatch/Lossless/Retries.antt =====
-- The branches of the processing of a retry.
use ai_calling_agent.Common.{
  ℕ, ◌+◌, ◌<◌, Bool, true, false, String, Option, none, some, ◌≡◌, refl, arith, ◌∙◌, sym, ap, inl,
  inr,
}
use ai_calling_agent.Common.Result.{ok, Result-cases}
use ai_calling_agent.Common.Text.{Text}
use ai_calling_agent.Calling.Window.{Time, Zone}
use ai_calling_agent.Model.{Uuid, Contact, Campaign, Db, Settings, seconds_of}
use ai_calling_agent.Model.Enums.{ContactStatus}
use ai_calling_agent.Phone.{PhoneLib}
use ai_calling_agent.Queue.Job.{IdempotencyKey, new_dial_job, idempotency_key, RecoveryJob, retry}
use ai_calling_agent.Queue.Stream.{
  Stream, enqueue_once, Admission, queued, already_guarded, backlog_full, guard_lives,
}
use ai_calling_agent.Recovery.Dispatch.Retry.{
  Shared, pause_recheck, is_retry_scheduled, cleared, postponed, log_skip, skip, skip_for_now,
  next_window_time, hand_over, retry_dial, process_due, process_retry,
}
use ai_calling_agent.Recovery.Dispatch.Lossless.{key_of, IsTouched, retry_owed, is_owed}
use ai_calling_agent.Recovery.Dispatch.Lossless.Moves.{
  is_full, IsFair, IsGuarding, enqueue_once-guards, dropped-IsFair, later-IsFair, queued-IsFair,
}
use ai_calling_agent.Recovery.Dispatch.Lossless.Rows.{IsTouched-rows, save_contact-IsTouched}
use ai_calling_agent.Recovery.Manager.{log_event, save_contact, is_closed}

closed-unwaiting :
    (status : ContactStatus) → is_closed status ≡ true → is_retry_scheduled status ≡ false
closed-unwaiting ContactStatus.closed h = refl
closed-unwaiting _ h = absurd cc

module _ (db : Db) (contact new : Contact) where
  -- A contact's row with other retry columns, and an event.
  logged-IsTouched :
      (job : RecoveryJob) (reason : String) (rescheduled : Bool)
      → IsTouched db (save_contact new db)
      → IsTouched db (log_skip job reason rescheduled (save_contact new db))
  unfolding log_event
  logged-IsTouched job reason rescheduled touched =
      IsTouched-rows db (save_contact new db) _ refl refl refl refl touched

module _ {Number : Type 0} (lib : PhoneLib Number) (zone_info : Text → Option Zone)
    (same_key : IdempotencyKey → IdempotencyKey → Bool) (guard_ttl : Time) (s : Settings)
    (now : Time) where
  module _ (job : RecoveryJob) (contact : Contact) (sh : Shared)
      (own : sh.db.contacts contact.id ≡ some contact) where
    cleared-IsTouched : IsTouched sh.db (save_contact (cleared contact) sh.db)
    cleared-IsTouched = save_contact-IsTouched sh.db contact (cleared contact) own refl refl

    postponed-IsTouched :
        (due : Time) → IsTouched sh.db (save_contact (postponed due contact) sh.db)
    postponed-IsTouched due =
        save_contact-IsTouched sh.db contact (postponed due contact) own refl refl

    skip-IsFair :
        (reason : String)
        → is_owed lib s sh.db (retry job) ≡ false
        → IsFair lib s now (retry job) sh (skip job contact reason sh).0
    skip-IsFair reason unowed =
        dropped-IsFair lib s now (retry job) sh
          (log_skip job reason false (save_contact (cleared contact) sh.db))
          (logged-IsTouched sh.db contact (cleared contact) job reason false cleared-IsTouched)
          unowed

    skip_for_now-IsFair :
        (due : Time) (reason : String)
        → IsFair lib s now (retry job) sh (skip_for_now job contact due reason sh).0
    skip_for_now-IsFair due reason =
        later-IsFair lib s now (retry job) sh
          (log_skip job reason true (save_contact (postponed due contact) sh.db)) sh.stream due
          (logged-IsTouched sh.db contact (postponed due contact) job reason true
            (postponed-IsTouched due))
          (λ k h. h)

    hand_over-IsFair :
        (stream : Stream) (answer : Admission)
        → IsGuarding lib s now sh.stream stream
        → (is_full answer ≡ false → guard_lives now (stream.guards (key_of (retry job))) ≡ true)
        → IsFair lib s now
            (retry job)
            sh
            (hand_over lib zone_info same_key guard_ttl s now job contact sh (stream, answer)).0
    unfolding log_event
    hand_over-IsFair stream backlog_full others guarded =
        later-IsFair lib s now (retry job) sh
          (save_contact (postponed (now + pause_recheck) contact) sh.db) stream
          (now + pause_recheck) (postponed-IsTouched (now + pause_recheck)) others
    hand_over-IsFair stream already_guarded others guarded =
        queued-IsFair lib s now (retry job) sh _ stream
          (logged-IsTouched sh.db contact _ job "already_queued" false
            (postponed-IsTouched (now + seconds_of s.retry_redispatch_seconds)))
          others (guarded refl)
    hand_over-IsFair stream queued others guarded =
        queued-IsFair lib s now (retry job) sh _ stream
          (IsTouched-rows sh.db
            (save_contact (postponed (now + seconds_of s.retry_redispatch_seconds) contact) sh.db) _
            refl refl refl refl (postponed-IsTouched (now + seconds_of s.retry_redispatch_seconds)))
          others (guarded refl)

  -- An entry whose contact and campaign are there.
  module _ (same_key_refl : (k : IdempotencyKey) → same_key k k ≡ true) (positive : 0 < guard_ttl)
      (contact : Contact) (campaign : Campaign) (sh : Shared)
      (own : sh.db.contacts contact.id ≡ some contact)
      (owner : sh.db.campaigns campaign.id ≡ some campaign) where
    module _ (ids : Uuid × Uuid) (job : RecoveryJob) (its_contact : contact.id ≡ job.contact_id)
        (its_campaign : campaign.id ≡ job.campaign_id) where
      is_owed-retry : is_owed lib s sh.db (retry job) ≡ retry_owed lib s sh.db job contact campaign
      unfolding is_owed
      is_owed-retry = rw (sym its_contact, sym its_campaign, own, owner) refl

      enqueued-IsFair :
          IsFair lib s now
            (retry job)
            sh
            (hand_over lib zone_info same_key guard_ttl s now job contact sh (
              enqueue_once same_key now guard_ttl s.queue_max_backlog
                (idempotency_key
                  (retry_dial lib zone_info same_key guard_ttl s now ids job contact campaign))
                (retry_dial lib zone_info same_key guard_ttl s now ids job contact campaign)
                sh.stream)).0
      unfolding new_dial_job
      enqueued-IsFair =
          let dial = retry_dial lib zone_info same_key guard_ttl s now ids job contact campaign in
          let guards =
            enqueue_once-guards same_key same_key_refl now guard_ttl positive s.queue_max_backlog
              (idempotency_key dial) dial sh.stream in
          let same : idempotency_key dial ≡ key_of (retry job) =
            rw (its_contact, its_campaign) refl in
          let (stream, answer) =
            enqueue_once same_key now guard_ttl s.queue_max_backlog (idempotency_key dial) dial
              sh.stream in
          hand_over-IsFair job contact sh own stream answer guards.0 (λ h.
            sym (ap (λ (k : IdempotencyKey). guard_lives now (stream.guards k)) same) ∙ guards.1 h)

      process_due-IsFair :
          IsFair lib s now
            (retry job)
            sh
            (process_due lib zone_info same_key guard_ttl s now ids job contact campaign sh).0
      unfolding process_due retry_owed
      process_due-IsFair =
          let unowed = is_owed-retry in
          let dropped = skip-IsFair job contact sh own "attempt_already_exists" in
          ground (arith, unowed, dropped, enqueued-IsFair)

      pub process_retry-IsFair :
          (after : Shared) (n : ℕ)
          → process_retry lib zone_info same_key guard_ttl s now ids job contact campaign sh
            ≡ ok (after, n)
          → IsFair lib s now (retry job) sh after
      unfolding process_retry retry_owed
      process_retry-IsFair after n h =
          let unowed = is_owed-retry in
          let closed = closed-unwaiting contact.status in
          let dropped1 = skip-IsFair job contact sh own "suppressed" in
          let dropped2 = skip-IsFair job contact sh own "contact_not_retryable" in
          let dropped3 = skip-IsFair job contact sh own "campaign_completed" in
          let later =
            skip_for_now-IsFair job contact sh own (now + pause_recheck) "campaign_paused" in
          elim (Result-cases
            (next_window_time lib zone_info same_key guard_ttl s now sh.db campaign)) [
              | inr (e, w) ↦ ground (arith, unowed, closed, dropped1, dropped2, dropped3, later)
              | inl (some due, w) ↦
                  let shut = skip_for_now-IsFair job contact sh own due "calling_window_closed" in
                  ground (arith, unowed, closed, dropped1, dropped2, dropped3, later, shut)
              | inl (none, w) ↦
                  ground
                    (arith, unowed, closed, dropped1, dropped2, dropped3, later, process_due-IsFair)
            ]

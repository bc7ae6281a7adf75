-- ===== src/Recovery/Dispatch/Steady/Entries.antt =====
-- What one due entry does to the session and the dial stream.
use ai_calling_agent.Common.{
  ℕ, Bool, not, ◌||◌, ◌==◌, String, Option, none, some, is_some, refl, inl, inr, Bool-cases,
  Option-cases,
}
use ai_calling_agent.Common.Result.{Result, ok, err}
use ai_calling_agent.Common.Text.{Text}
use ai_calling_agent.Calling.Window.{Time, Zone, WindowError}
use ai_calling_agent.Dialer.Attempts.{attempt_of}
use ai_calling_agent.Dialer.Attempts.Rows.{
  IsCalm, IsCalm-refl, IsCalm-trans, IsCalm-same, log_event-IsCalm, save_contact-IsCalm,
}
use ai_calling_agent.Eligibility.{is_suppressed}
use ai_calling_agent.Model.{Uuid, Contact, Campaign, Settings}
use ai_calling_agent.Phone.{PhoneLib}
use ai_calling_agent.Queue.Job.{IdempotencyKey, DialJob, RecoveryJob, idempotency_key}
use ai_calling_agent.Queue.Stream.{
  Stream, enqueue_once, Admission, queued, already_guarded, backlog_full,
}
use ai_calling_agent.Recovery.Manager.{is_closed, is_completed}
use ai_calling_agent.Recovery.Dispatch.{}
use ai_calling_agent.Recovery.Dispatch.Deferred.{
  deferred_over, deferred_later, process_deferred_of, process_deferred,
}
use ai_calling_agent.Recovery.Dispatch.Retry.{
  Shared, skip, skip_for_now, cleared, postponed, hand_over, retry_dial, process_due, process_retry,
  process_one, next_window_time, is_retry_scheduled, is_waiting, is_paused, is_active,
}
use ai_calling_agent.Recovery.Dispatch.Lossless.Backed.{
  IsBacked, IsBacked-refl, IsBacked-trans, enqueue_once-IsBacked,
}

module _ (same_key : IdempotencyKey → IdempotencyKey → Bool) (now : Time) where
  abbrev pub IsSteady : Shared → Shared → Type 0
  IsSteady sh after = IsCalm sh.db after.db × IsBacked same_key now sh.stream after.stream

  pub IsSteady-refl : (sh : Shared) → IsSteady sh sh
  IsSteady-refl sh = (IsCalm-refl sh.db, IsBacked-refl same_key now sh.stream)

  pub IsSteady-trans : (a b c : Shared) → IsSteady a b → IsSteady b c → IsSteady a c
  IsSteady-trans a b c p q = (
    IsCalm-trans a.db b.db c.db p.0 q.0,
    IsBacked-trans same_key now a.stream b.stream c.stream p.1 q.1,
  )

  -- What an entry leaves; after an exception the session is rolled back.
  abbrev pub IsSteadyRun : Shared → Result WindowError (Shared × ℕ) → Type 0
  IsSteadyRun sh (ok (after, n)) = IsSteady sh after
  IsSteadyRun sh (err e) = IsSteady sh sh

  skip-IsSteady :
      (job : RecoveryJob) (contact : Contact) (reason : String) (sh : Shared)
      → IsSteady sh (skip job contact reason sh).0
  skip-IsSteady job contact reason sh = (
    IsCalm-trans sh.db _ _ (save_contact-IsCalm (cleared contact) sh.db)
        (log_event-IsCalm _ _ _ _ refl),
    IsBacked-refl same_key now sh.stream,
  )

  skip_for_now-IsSteady :
      (job : RecoveryJob) (contact : Contact) (due : Time) (reason : String) (sh : Shared)
      → IsSteady sh (skip_for_now job contact due reason sh).0
  skip_for_now-IsSteady job contact due reason sh = (
    IsCalm-trans sh.db _ _ (save_contact-IsCalm (postponed due contact) sh.db)
        (log_event-IsCalm _ _ _ _ refl),
    IsBacked-refl same_key now sh.stream,
  )

module _ {Number : Type 0} (lib : PhoneLib Number) (zone_info : Text → Option Zone)
    (same_key : IdempotencyKey → IdempotencyKey → Bool) (guard_ttl : Time) (s : Settings)
    (now : Time) where
  hand_over-IsSteady :
      (job : RecoveryJob) (contact : Contact) (sh : Shared) (answer : Stream × Admission)
      → IsBacked same_key now sh.stream answer.0
      → IsSteady same_key now sh
          (hand_over lib zone_info same_key guard_ttl s now job contact sh answer).0
  hand_over-IsSteady job contact sh (stream, backlog_full) backed =
      (save_contact-IsCalm _ sh.db, backed)
  hand_over-IsSteady job contact sh (stream, already_guarded) backed =
      (IsCalm-trans sh.db _ _ (save_contact-IsCalm _ sh.db) (log_event-IsCalm _ _ _ _ refl), backed)
  hand_over-IsSteady job contact sh (stream, queued) backed = (
    IsCalm-trans sh.db _ _ (save_contact-IsCalm _ sh.db)
        (IsCalm-trans _ _ _ (log_event-IsCalm _ _ _ _ refl) (IsCalm-same _ _ refl refl)),
    backed,
  )

  process_due-IsSteady :
      (ids : Uuid × Uuid) (job : RecoveryJob) (contact : Contact) (campaign : Campaign)
      (sh : Shared)
      → IsSteady same_key now sh
          (process_due lib zone_info same_key guard_ttl s now ids job contact campaign sh).0
  unfolding process_due
  process_due-IsSteady ids job contact campaign sh =
      elim (Bool-cases (is_some (attempt_of sh.db contact.id job.attempt_number))) [
        | inl there ↦ rw there (skip-IsSteady same_key now job contact _ sh)
        | inr absent ↦ rw absent (
            hand_over-IsSteady job contact sh _ (
              enqueue_once-IsBacked same_key now guard_ttl s.queue_max_backlog
                (retry_dial lib zone_info same_key guard_ttl s now ids job contact campaign)
                sh.stream))
      ]

  after_window-IsSteady :
      (ids : Uuid × Uuid) (job : RecoveryJob) (contact : Contact) (campaign : Campaign)
      (sh : Shared) (r : Result WindowError (Option Time))
      → IsSteadyRun same_key now sh (elim r [
        | err e ↦ err e
        | ok (some due) ↦ ok (skip_for_now job contact due "calling_window_closed" sh)
        | ok none ↦
            ok (process_due lib zone_info same_key guard_ttl s now ids job contact campaign sh)
      ])
  after_window-IsSteady ids job contact campaign sh (err e) = IsSteady-refl same_key now sh
  after_window-IsSteady ids job contact campaign sh (ok (some due)) =
      skip_for_now-IsSteady same_key now job contact due _ sh
  after_window-IsSteady ids job contact campaign sh (ok none) =
      process_due-IsSteady ids job contact campaign sh

  process_retry-IsSteady :
      (ids : Uuid × Uuid) (job : RecoveryJob) (contact : Contact) (campaign : Campaign)
      (sh : Shared)
      → IsSteadyRun same_key now sh
          (process_retry lib zone_info same_key guard_ttl s now ids job contact campaign sh)
  unfolding process_retry
  process_retry-IsSteady ids job contact campaign sh =
      let gone = skip-IsSteady same_key now job contact in
      let later = skip_for_now-IsSteady same_key now job contact in
      elim (Bool-cases
        (is_closed contact.status || is_suppressed lib s sh.db contact.normalized_phone_number)) [
          | inl h ↦ rw h (gone _ sh)
          | inr h1 ↦
              rw h1
                (elim (Bool-cases
                  (is_some contact.purged_at || not (is_retry_scheduled contact.status))) [
                    | inl h ↦ rw h (gone _ sh)
                    | inr h2 ↦ rw h2 (elim (Bool-cases (is_completed campaign.status)) [
                      | inl h ↦ rw h (gone _ sh)
                      | inr h3 ↦ rw h3 (elim (Bool-cases (is_paused campaign.status)) [
                        | inl h ↦ rw h (later _ _ sh)
                        | inr h4 ↦ rw h4 (
                            after_window-IsSteady ids job contact campaign sh (
                              next_window_time lib zone_info same_key guard_ttl s now sh.db
                                campaign))
                      ])
                    ])
                  ])
        ]

  pub process_one-IsSteady :
      (ids : Uuid × Uuid) (job : RecoveryJob) (sh : Shared)
      → IsSteadyRun same_key now sh (process_one lib zone_info same_key guard_ttl s now ids job sh)
  unfolding process_one
  process_one-IsSteady ids job sh = elim (Option-cases (sh.db.contacts job.contact_id)) [
    | inl e ↦ rw (e, process_one) (IsSteady-refl same_key now sh)
    | inr (contact, e) ↦ elim (Option-cases (sh.db.campaigns job.campaign_id)) [
      | inl e' ↦ rw (e, process_one, e') (IsSteady-refl same_key now sh)
      | inr (campaign, e') ↦
          rw (e, process_one, e') (process_retry-IsSteady ids job contact campaign sh)
    ]
  ]

  deferred_over-IsSteady :
      (job : DialJob) (sh : Shared) (answer : Stream × Admission)
      → IsBacked same_key now sh.stream answer.0
      → IsSteady same_key now sh
          (deferred_over lib zone_info same_key guard_ttl s now job sh answer).0
  deferred_over-IsSteady job sh (stream, backlog_full) backed = (IsCalm-refl sh.db, backed)
  deferred_over-IsSteady job sh (stream, already_guarded) backed = (IsCalm-refl sh.db, backed)
  deferred_over-IsSteady job sh (stream, queued) backed = (IsCalm-refl sh.db, backed)

  -- A deferred first dial writes no row.
  deferred_after_window-IsSteady :
      (job : DialJob) (sh : Shared) (r : Result WindowError (Option Time))
      → IsSteadyRun same_key now sh (elim r [
        | err e ↦ err e
        | ok (some due) ↦ ok (deferred_later lib zone_info same_key guard_ttl s now job due sh)
        | ok none ↦ ok (
            deferred_over lib zone_info same_key guard_ttl s now job sh (
              enqueue_once same_key now guard_ttl s.queue_max_backlog
                (idempotency_key job)
                job
                sh.stream))
      ])
  deferred_after_window-IsSteady job sh (err e) = IsSteady-refl same_key now sh
  deferred_after_window-IsSteady job sh (ok (some due)) = IsSteady-refl same_key now sh
  deferred_after_window-IsSteady job sh (ok none) =
      deferred_over-IsSteady job sh _
        (enqueue_once-IsBacked same_key now guard_ttl s.queue_max_backlog job sh.stream)

  process_deferred_of-IsSteady :
      (job : DialJob) (contact : Contact) (campaign : Campaign) (sh : Shared)
      → IsSteadyRun same_key now sh
          (process_deferred_of lib zone_info same_key guard_ttl s now job contact campaign sh)
  unfolding process_deferred_of
  process_deferred_of-IsSteady job contact campaign sh =
      let same = IsSteady-refl same_key now sh in
      elim (Bool-cases (not (is_waiting contact.status) || not (contact.attempt_count == 0))) [
        | inl h ↦ rw h same
        | inr h1 ↦
            rw h1 (elim (Bool-cases (is_suppressed lib s sh.db contact.normalized_phone_number)) [
              | inl h ↦ rw h same
              | inr h2 ↦ rw h2 (elim (Bool-cases (is_paused campaign.status)) [
                | inl h ↦ rw h same
                | inr h3 ↦ rw h3 (elim (Bool-cases (not (is_active campaign.status))) [
                  | inl h ↦ rw h same
                  | inr h4 ↦ rw h4 (
                      deferred_after_window-IsSteady job sh
                        (next_window_time lib zone_info same_key guard_ttl s now sh.db campaign))
                ])
              ])
            ])
      ]

  pub process_deferred-IsSteady :
      (job : DialJob) (sh : Shared)
      → IsSteadyRun same_key now sh (process_deferred lib zone_info same_key guard_ttl s now job sh)
  unfolding process_deferred
  process_deferred-IsSteady job sh = elim (Option-cases (sh.db.contacts job.contact_id)) [
    | inl e ↦ rw (e, process_deferred) (IsSteady-refl same_key now sh)
    | inr (contact, e) ↦ elim (Option-cases (sh.db.campaigns job.campaign_id)) [
      | inl e' ↦ rw (e, process_deferred, e') (IsSteady-refl same_key now sh)
      | inr (campaign, e') ↦
          rw (e, process_deferred, e') (process_deferred_of-IsSteady job contact campaign sh)
    ]
  ]

-- ===== src/Recovery/Dispatch/Lossless/Deferrals.antt =====
-- The branches of the processing of a deferred first dial.
use ai_calling_agent.Common.{
  ℕ, ◌+◌, ◌<◌, Bool, true, false, Option, none, some, ◌≡◌, refl, arith, sym, inl, inr,
}
use ai_calling_agent.Common.Result.{ok, Result-cases}
use ai_calling_agent.Common.Text.{Text}
use ai_calling_agent.Calling.Window.{Time, Zone}
use ai_calling_agent.Model.{Contact, Campaign, Settings}
use ai_calling_agent.Phone.{PhoneLib}
use ai_calling_agent.Queue.Job.{IdempotencyKey, DialJob, idempotency_key, dial_job}
use ai_calling_agent.Queue.Stream.{
  Stream, enqueue_once, Admission, queued, already_guarded, backlog_full, guard_lives,
}
use ai_calling_agent.Recovery.Dispatch.Retry.{Shared, pause_recheck, next_window_time}
use ai_calling_agent.Recovery.Dispatch.Deferred.{deferred_over, deferred_later, process_deferred_of}
use ai_calling_agent.Recovery.Dispatch.Lossless.{dial_owed, is_owed}
use ai_calling_agent.Recovery.Dispatch.Lossless.Moves.{
  is_full, IsFair, IsGuarding, enqueue_once-guards, dropped-IsFair, later-IsFair, queued-IsFair,
}
use ai_calling_agent.Recovery.Dispatch.Lossless.Rows.{IsTouched-refl}

module _ {Number : Type 0} (lib : PhoneLib Number) (zone_info : Text → Option Zone)
    (same_key : IdempotencyKey → IdempotencyKey → Bool) (guard_ttl : Time) (s : Settings)
    (now : Time) where
  -- An entry whose contact and campaign are there.
  module _ (same_key_refl : (k : IdempotencyKey) → same_key k k ≡ true) (positive : 0 < guard_ttl)
      (contact : Contact) (campaign : Campaign) (sh : Shared)
      (own : sh.db.contacts contact.id ≡ some contact)
      (owner : sh.db.campaigns campaign.id ≡ some campaign) where
    -- A deferred first dial.
    module _ (job : DialJob) (its_contact : contact.id ≡ job.contact_id)
        (its_campaign : campaign.id ≡ job.campaign_id) where
      is_owed-dial : is_owed lib s sh.db (dial_job job) ≡ dial_owed lib s sh.db contact campaign
      unfolding is_owed
      is_owed-dial = rw (sym its_contact, sym its_campaign, own, owner) refl

      deferred_over-IsFair :
          (stream : Stream) (answer : Admission)
          → IsGuarding lib s now sh.stream stream
          → (is_full answer ≡ false → guard_lives now (stream.guards (idempotency_key job)) ≡ true)
          → IsFair lib s now
              (dial_job job)
              sh
              (deferred_over lib zone_info same_key guard_ttl s now job sh (stream, answer)).0
      deferred_over-IsFair stream backlog_full others guarded =
          later-IsFair lib s now (dial_job job) sh sh.db stream (now + pause_recheck)
            (IsTouched-refl sh.db) others
      deferred_over-IsFair stream already_guarded others guarded =
          queued-IsFair lib s now (dial_job job) sh sh.db stream (IsTouched-refl sh.db) others
            (guarded refl)
      deferred_over-IsFair stream queued others guarded =
          queued-IsFair lib s now (dial_job job) sh sh.db stream (IsTouched-refl sh.db) others
            (guarded refl)

      deferred_later-IsFair :
          (due : Time)
          → IsFair lib s now
              (dial_job job)
              sh
              (deferred_later lib zone_info same_key guard_ttl s now job due sh).0
      deferred_later-IsFair due =
          later-IsFair lib s now (dial_job job) sh sh.db sh.stream due (IsTouched-refl sh.db)
            (λ k h. h)

      pub process_deferred_of-IsFair :
          (after : Shared) (n : ℕ)
          → process_deferred_of lib zone_info same_key guard_ttl s now job contact campaign sh
            ≡ ok (after, n)
          → IsFair lib s now (dial_job job) sh after
      unfolding process_deferred_of dial_owed
      process_deferred_of-IsFair after n h =
          let unowed = is_owed-dial in
          let dropped = dropped-IsFair lib s now (dial_job job) sh sh.db (IsTouched-refl sh.db) in
          let later = deferred_later-IsFair (now + pause_recheck) in
          elim (Result-cases
            (next_window_time lib zone_info same_key guard_ttl s now sh.db campaign)) [
              | inr (e, w) ↦ ground (arith, unowed, dropped, later)
              | inl (some due, w) ↦
                  let shut = deferred_later-IsFair due in
                  ground (arith, unowed, dropped, later, shut)
              | inl (none, w) ↦
                  let guards =
                    enqueue_once-guards same_key same_key_refl now guard_ttl positive
                      s.queue_max_backlog (idempotency_key job) job sh.stream in
                  let (stream, answer) =
                    enqueue_once same_key now guard_ttl s.queue_max_backlog (idempotency_key job)
                      job sh.stream in
                  let over = deferred_over-IsFair stream answer guards.0 guards.1 in
                  ground (arith, unowed, dropped, later, over)
            ]

-- ===== src/Examples/Redials.antt =====
-- A retry that is due, its dispatch, and the rebuild of a schedule that was lost.
use ai_calling_agent.Common.{
  ◌≡◌, refl, true, false, List, [], ◌∷◌, none, some, is_some, ◌==◌, ◌||◌, if◌then◌else◌, ==_refl,
  arith, keep,
}
use ai_calling_agent.Dialer.Attempts.{find_attempt}
use ai_calling_agent.Eligibility.{is_suppressed}
use ai_calling_agent.Model.{Contact, seconds_of}
use ai_calling_agent.Model.Enums.{ContactStatus}
use ai_calling_agent.Queue.Job.{IdempotencyKey, Entry, retry, new_recovery_job, Entry-discrete}
use ai_calling_agent.Recovery.Dispatch.Retry.{Shared}
use ai_calling_agent.Recovery.Dispatch.{dispatch_due_recovery_jobs}
use ai_calling_agent.Recovery.Dispatch.Lossless.{key_of, is_kept, IsIndexed, is_owed, retry_owed}
use ai_calling_agent.Recovery.Dispatch.Lossless.Runs.{dispatch_due_recovery_jobs_lossless}
use ai_calling_agent.Recovery.Dispatch.Lossless.Backed.{is_queued}
use ai_calling_agent.Queue.Stream.{guard_lives}
use ai_calling_agent.Recovery.Rebuild.{is_due_row, entries_of, rebuild_retry_schedule}
use ai_calling_agent.Recovery.Rebuild.Order.{IsOrdered}
use ai_calling_agent.Recovery.Rebuild.Paging.{rebuild_retry_schedule-eq-one_query}
use ai_calling_agent.Recovery.Scheduler.{add_missing}
use ai_calling_agent.Redis.Zset.{score}
use ai_calling_agent.Redis.Zset.Laws.{same_refl}
use ai_calling_agent.Examples.Calls.{uuid5, attempt}
use ai_calling_agent.Examples.Phones.{phone_book}
use ai_calling_agent.Examples.Policies.{settings, contact, db, noon, zone_info}
use ai_calling_agent.Examples.Streams.{two_entries, same_key}

abbrev waits : Contact
waits = record contact {
  status = ContactStatus.retry_scheduled;
  next_retry_at = some noon;
  retry_attempt_id = some 11;
  retry_attempt_number = some 2;
}

abbrev redial : Entry
redial = retry (new_recovery_job uuid5 11 3 7 2)

abbrev before : Shared
before = record {
  db = record db { contacts = λ i. if i == 3 then some waits else none; attempts = attempt ∷ [] };
  schedule = (redial, noon) ∷ [];
  stream = two_entries;
}

same_key_refl : (k : IdempotencyKey) → same_key k k ≡ true
same_key_refl k =
    let same_campaign = ==_refl k.campaign_id in
    let same_contact = ==_refl k.contact_id in
    let same_number = ==_refl k.attempt_number in ground arith

before-IsIndexed : IsIndexed before.db
unfolding IsIndexed
before-IsIndexed = (λ i c h. ground arith, λ i c h. ground arith)

redial-is_owed : is_owed phone_book settings before.db redial ≡ true
unfolding is_owed retry_owed is_suppressed find_attempt new_recovery_job
redial-is_owed = refl

redial_is_there : is_some (score Entry-discrete redial before.schedule) ≡ true
unfolding score
redial_is_there = rw (same_refl Entry-discrete redial) refl

-- The commit fails.
abbrev after : Shared
after =
    (dispatch_due_recovery_jobs phone_book zone_info same_key (seconds_of 3600) settings noon
      (λ _. false) (λ _. (50, 51)) before).0

dispatch_due_recovery_jobs_lossless_example :
    ((is_some (score Entry-discrete redial after.schedule)
        || is_queued same_key noon (key_of redial) after.stream
        || guard_lives noon (before.stream.guards (key_of redial)))
      ≡ true)
    × (is_kept noon redial after ≡ true)
    × (is_owed phone_book settings after.db redial ≡ true)
dispatch_due_recovery_jobs_lossless_example =
    dispatch_due_recovery_jobs_lossless phone_book zone_info same_key same_key_refl
      (seconds_of 3600) (unfold seconds_of in omega arith) settings noon (λ _. false)
      (λ _. (50, 51)) before redial before-IsIndexed redial-is_owed redial_is_there

-- Two contacts wait for a retry, in pages of one.
abbrev rows : List Contact
rows = waits ∷ record contact { id = 4 } ∷ record waits { id = 5; retry_attempt_id = none } ∷ []

rows-IsOrdered : IsOrdered rows
unfolding IsOrdered
rows-IsOrdered = ((omega arith, (omega arith, tt)), ((omega arith, tt), (tt, tt)))

rebuild_retry_schedule-eq-one_query_example :
    rebuild_retry_schedule uuid5 (attempt ∷ []) 1 rows []
    ≡ add_missing (entries_of uuid5 (attempt ∷ []) (keep is_due_row rows)) []
rebuild_retry_schedule-eq-one_query_example =
    rebuild_retry_schedule-eq-one_query uuid5 (attempt ∷ []) 1 rows [] (omega arith) rows-IsOrdered

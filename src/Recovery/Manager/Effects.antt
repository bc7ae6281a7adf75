-- ===== src/Recovery/Manager/Effects.antt =====
-- What `handle_disconnect` leaves behind.
use ai_calling_agent.Common.{
  ℕ, ◌+◌, Bool, false, String, Option, some, ◌≡◌, refl, ◌∙◌, ◌&&◌, ◌||◌, if◌then◌else◌, arith, ap,
}
use ai_calling_agent.Common.Table.{put_row_self}
use ai_calling_agent.Calling.Window.{Time}
use ai_calling_agent.Model.{Contact, Campaign, CallAttempt, RetryPolicy, Db, Settings, seconds_of}
use ai_calling_agent.Model.Enums.{ContactStatus}
use ai_calling_agent.Eligibility.{is_suppressed}
use ai_calling_agent.Phone.{PhoneLib}
use ai_calling_agent.Policy.{get_effective_policy}
use ai_calling_agent.Queue.Job.{
  IdempotencyKey, Purpose, new_recovery_job, retry, Entry, Entry-discrete,
}
use ai_calling_agent.Redis.Zset.{same, score}
use ai_calling_agent.Redis.Zset.Laws.{score-add}
use ai_calling_agent.Recovery.Scheduler.{schedule}
use ai_calling_agent.Recovery.Manager.{
  World, Decision, StopReason, retry_in, stop, suppressed, campaign_completed, decide, spaced,
  log_event, record_audit, save_contact, scheduled_contact, schedule_retry, terminalize,
  enqueue_call_analysis, carry_out, handle_disconnect, is_closed, is_completed, is_suppression,
}

contacts-save_contact :
    (contact : Contact) (db : Db) → (save_contact contact db).contacts contact.id ≡ some contact
unfolding save_contact
contacts-save_contact contact db = put_row_self contact.id contact db.contacts

contacts-enqueue_call_analysis :
    (attempt : CallAttempt) (contact : Contact) (db : Db)
    → (enqueue_call_analysis attempt contact db).contacts ≡ db.contacts
unfolding enqueue_call_analysis record_audit log_event
contacts-enqueue_call_analysis attempt contact db = ground arith

module _ {Number : Type 0} (lib : PhoneLib Number) (uuid5 : IdempotencyKey → Purpose → ℕ)
    (redis_up : Bool) (s : Settings) (now : Time) (attempt : CallAttempt) (contact : Contact)
    (campaign : Campaign) (never_connected : Bool) (key : String) (hint : Option ℕ)
    (w : World) where
  abbrev after : World × Decision
  after =
      handle_disconnect uuid5 redis_up s now lib attempt contact campaign never_connected key hint w

  schedule-terminalize :
      (reason : StopReason) → (terminalize attempt contact reason w).schedule ≡ w.schedule
  unfolding terminalize
  schedule-terminalize reason = refl

  contact-terminalize :
      (reason : StopReason)
      → (terminalize attempt contact reason w).db.contacts contact.id
        ≡ some (
            if is_suppression reason
            then contact
            else record contact { status = ContactStatus.completed_partial })
  unfolding terminalize is_suppression
  contact-terminalize suppressed =
      ap (λ (t : ℕ → Option Contact). t contact.id)
        (contacts-enqueue_call_analysis attempt contact _)
      ∙ contacts-save_contact contact _
  contact-terminalize _ =
      ap (λ (t : ℕ → Option Contact). t contact.id)
        (contacts-enqueue_call_analysis attempt
          (record contact { status = ContactStatus.completed_partial }) _)
      ∙ contacts-save_contact (record contact { status = ContactStatus.completed_partial }) _

  decide-not_suppressed :
      (policy : RetryPolicy) (reason : StopReason)
      → decide s w.db attempt policy never_connected key hint ≡ stop reason
      → is_suppression reason ≡ false
  unfolding decide spaced is_suppression
  decide-not_suppressed policy reason h = ground arith

  -- What a call that is not retried leaves, whatever the reason: it stops for a suppression
  -- exactly if the contact is closed or its number is on the suppression list; the schedule is
  -- as it was; and the contact's row keeps its status if it stops for a suppression, and is
  -- completed in part otherwise, with nothing else of it changed.
  pub handle_disconnect_stop :
      (reason : StopReason)
      → after.1 ≡ stop reason
      → (is_suppression reason
          ≡ (is_closed contact.status || is_suppressed lib s w.db contact.normalized_phone_number))
        × (after.0.schedule ≡ w.schedule)
        × (after.0.db.contacts contact.id
            ≡ some (
                if is_closed contact.status
                  || is_suppressed lib s w.db contact.normalized_phone_number
                then contact
                else record contact { status = ContactStatus.completed_partial }))
  unfolding handle_disconnect carry_out is_suppression
  handle_disconnect_stop reason h =
      let never = decide-not_suppressed (get_effective_policy s w.db campaign) reason in
      let kept = schedule-terminalize reason in
      let row = contact-terminalize reason in
      (
        ground arith,
        ground (arith, schedule-terminalize suppressed, schedule-terminalize campaign_completed),
        ground (arith, contact-terminalize suppressed, contact-terminalize campaign_completed),
      )

  contact-schedule_retry :
      (delay number : ℕ)
      → (schedule_retry uuid5 redis_up s now attempt contact campaign delay number w).db.contacts
          contact.id
        ≡ some (scheduled_contact contact attempt (now + seconds_of delay) number)
  unfolding schedule_retry record_audit log_event save_contact scheduled_contact
  contact-schedule_retry delay number =
      put_row_self contact.id (scheduled_contact contact attempt (now + seconds_of delay) number)
        w.db.contacts

  -- The job of a retry.
  abbrev job_of : ℕ → Entry
  job_of number = retry (new_recovery_job uuid5 attempt.id contact.id campaign.id number)

  schedule-schedule_retry :
      (delay number : ℕ) (j : Entry)
      → score Entry-discrete j
          (schedule_retry uuid5 redis_up s now attempt contact campaign delay number w).schedule
        ≡ (if redis_up && same Entry-discrete (job_of number) j
            then some (now + seconds_of delay)
            else score Entry-discrete j w.schedule)
  unfolding schedule_retry schedule
  schedule-schedule_retry delay number j =
      ground (arith, score-add Entry-discrete (job_of number) j (now + seconds_of delay) w.schedule)

  -- What a retry leaves: a contact that was neither closed nor on the suppression list, of a campaign
  -- that was not completed, waits for the retry, with its due time, attempt and number on its row,
  -- which is otherwise as it was; while Redis answers the
  -- schedule has the job of that retry at the same due time; and no other entry of it changes.
  pub handle_disconnect_retry :
      (delay number : ℕ)
      → after.1 ≡ retry_in delay number
      → (is_closed contact.status ≡ false)
        × (is_suppressed lib s w.db contact.normalized_phone_number ≡ false)
        × (is_completed campaign.status ≡ false)
        × (after.0.db.contacts contact.id
            ≡ some (record contact {
              status = ContactStatus.retry_scheduled;
              next_retry_at = some (now + seconds_of delay);
              retry_attempt_id = some attempt.id;
              retry_attempt_number = some number;
            }))
        × ((j : Entry)
            → score Entry-discrete j after.0.schedule ≡ (
                if redis_up
                  && same Entry-discrete
                      (retry (new_recovery_job uuid5 attempt.id contact.id campaign.id number))
                      j
                then some (now + seconds_of delay)
                else score Entry-discrete j w.schedule))
  unfolding handle_disconnect carry_out scheduled_contact
  handle_disconnect_retry delay number h =
      let kept = contact-schedule_retry delay number in
      let cached = schedule-schedule_retry delay number in
      let d =
        decide s w.db attempt (get_effective_policy s w.db campaign) never_connected key hint in
      (
        ground arith,
        ground arith,
        ground arith,
        ground (arith, kept),
        λ j. ground (arith, cached j),
      )

-- ===== src/Recovery/Rebuild.antt =====
-- The rebuild of the schedule from the database (backend/app/services/recovery/rebuild.py).
--
-- `rows` is the table of contacts in the order of their ids. The pages run on fuel: each further
-- page starts after a row that the last one had, so one more than the rows are enough. Rows that
-- another rebuilder has locked are its own; here there is one.
pub mod Order
pub mod Paging
use ai_calling_agent.Common.{
  ℕ, zero, suc, ◌+◌, Bool, true, false, ◌&&◌, List, [], ◌∷◌, Option, none, some, ◌==◌,
  if◌then◌else◌, is_some, ltb, length, take, keep,
}
use ai_calling_agent.Calling.Window.{Time}
use ai_calling_agent.Model.{Uuid, Contact, CallAttempt}
use ai_calling_agent.Queue.Job.{
  IdempotencyKey, Purpose, RecoveryJob, new_recovery_job, Entry, retry,
}
use ai_calling_agent.Recovery.Dispatch.Retry.{is_retry_scheduled}
use ai_calling_agent.Recovery.Scheduler.{Schedule, add_missing}

-- The attempt of the greatest number of a contact.
abbrev pub later_attempt : CallAttempt → Option CallAttempt → CallAttempt
later_attempt a none = a
later_attempt a (some b) = if ltb a.attempt_number b.attempt_number then b else a

unfoldable pub latest_attempt : Uuid → List CallAttempt → Option CallAttempt
latest_attempt contact [] = none
latest_attempt contact (a ∷ attempts) =
    let rest = latest_attempt contact attempts in
    if a.contact_id == contact then some (later_attempt a rest) else rest

-- The query's condition.
abbrev pub is_due_row : Contact → Bool
is_due_row contact = is_retry_scheduled contact.status && is_some contact.next_retry_at

abbrev pub is_after : Option Uuid → Contact → Bool
is_after none contact = true
is_after (some last_id) contact = ltb last_id contact.id

-- One page of the query.
unfoldable pub page_after : ℕ → Option Uuid → List Contact → List Contact
page_after size last_id rows =
    take size (keep (λ (c : Contact). is_due_row c && is_after last_id c) rows)

abbrev pub last_of : Contact → List Contact → Uuid
last_of contact [] = contact.id
last_of contact (next ∷ rows) = last_of next rows

module _ (uuid5 : IdempotencyKey → Purpose → Uuid) (attempts : List CallAttempt) where
  -- A retry that is not named is derived from the latest attempt.
  unfoldable pub derived_job : Contact → Option RecoveryJob
  derived_job contact = elim (latest_attempt contact.id attempts) [
    | none ↦ none
    | some a ↦
        some (new_recovery_job uuid5 a.id contact.id contact.campaign_id (a.attempt_number + 1))
  ]

  -- `_job_for`
  unfoldable pub job_for : Contact → Option RecoveryJob
  job_for contact = elim contact.retry_attempt_id [
    | none ↦ derived_job contact
    | some attempt_id ↦ elim contact.retry_attempt_number [
      | none ↦ derived_job contact
      | some number ↦ some (new_recovery_job uuid5 attempt_id contact.id contact.campaign_id number)
    ]
  ]

  -- The entries of a page, each with its due time.
  unfoldable pub entries_of : List Contact → List (Entry × Time)
  entries_of [] = []
  entries_of (contact ∷ rows) =
      let rest = entries_of rows in
      elim (job_for contact) [
        | none ↦ rest
        | some job ↦ elim contact.next_retry_at [ none ↦ rest | some due ↦ (retry job, due) ∷ rest ]
      ]

  unfoldable pub rebuild_pages : ℕ → ℕ → Option Uuid → List Contact → Schedule → Schedule × ℕ
  rebuild_pages zero size last_id rows z = (z, 0)
  rebuild_pages (suc fuel) size last_id rows z = elim (page_after size last_id rows) [
    | [] ↦ (z, 0)
    | contact ∷ more ↦
        let (z1, added) = add_missing (entries_of (contact ∷ more)) z in
        if ltb (length (contact ∷ more)) size
        then (z1, added)
        else let (z2, later) = rebuild_pages fuel size (some (last_of contact more)) rows z1 in
          (z2, added + later)
  ]

  -- `rebuild_retry_schedule`
  unfoldable pub rebuild_retry_schedule : ℕ → List Contact → Schedule → Schedule × ℕ
  rebuild_retry_schedule size rows z = rebuild_pages (suc (length rows)) size none rows z

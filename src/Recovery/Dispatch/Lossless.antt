-- ===== src/Recovery/Dispatch/Lossless.antt =====
-- Who is owed a call, and what a dispatch does with the entry of that call.
pub mod Rows
pub mod Moves
pub mod Backed
pub mod Retries
pub mod Deferrals
pub mod Runs
use ai_calling_agent.Common.{
  ℕ, ◌+◌, ◌<◌, Bool, true, false, not, ◌&&◌, ◌||◌, String, List, [], ◌∷◌, Option, none, some, ◌==◌,
  if◌then◌else◌, is_some, ltb, ◌≡◌, refl, arith,
}
use ai_calling_agent.Common.Text.{Text}
use ai_calling_agent.Calling.Window.{Time}
use ai_calling_agent.Dialer.Attempts.{attempt_of}
use ai_calling_agent.Eligibility.{is_suppressed}
use ai_calling_agent.Model.{Uuid, Contact, Campaign, Db, Settings}
use ai_calling_agent.Phone.{PhoneLib}
use ai_calling_agent.Queue.Job.{
  IdempotencyKey, DialJob, idempotency_key, RecoveryJob, Entry, retry, dial_job, Entry-discrete,
}
use ai_calling_agent.Queue.Stream.{guard_lives}
use ai_calling_agent.Recovery.Dispatch.Retry.{
  Shared, is_retry_scheduled, is_waiting, is_paused, is_active, cleared,
}
use ai_calling_agent.Recovery.Manager.{is_completed}
use ai_calling_agent.Redis.Zset.{score}

-- The key of an entry's guard.
abbrev pub key_of : Entry → IdempotencyKey
key_of (retry job) = record {
  campaign_id = job.campaign_id;
  contact_id = job.contact_id;
  attempt_number = job.attempt_number;
}
key_of (dial_job job) = idempotency_key job

-- The entry is in the schedule, or a dial job of it has been queued, as its guard tells.
unfoldable pub is_kept : Time → Entry → Shared → Bool
is_kept now e sh =
    is_some (score Entry-discrete e sh.schedule) || guard_lives now (sh.stream.guards (key_of e))

-- A contact without its retry.
abbrev pub forget : Option Contact → Option Contact
forget none = none
forget (some contact) = some (cleared contact)

-- The rows differ in retries, events and audits at most.
unfoldable pub IsTouched : Db → Db → Type 0
IsTouched db db' =
    (db'.attempts ≡ db.attempts)
    × (db'.campaigns ≡ db.campaigns)
    × (db'.suppressions ≡ db.suppressions)
    × ((i : Uuid) → forget (db'.contacts i) ≡ forget (db.contacts i))

-- Each row stands under its id.
unfoldable pub IsIndexed : Db → Type 0
IsIndexed db =
    ((i : Uuid) (c : Contact) → db.contacts i ≡ some c → c.id ≡ i)
    × ((i : Uuid) (c : Campaign) → db.campaigns i ≡ some c → c.id ≡ i)

module _ {Number : Type 0} (lib : PhoneLib Number) (s : Settings) where
  unfoldable pub retry_owed : Db → RecoveryJob → Contact → Campaign → Bool
  retry_owed db job contact campaign =
      is_retry_scheduled contact.status
      && not (is_some contact.purged_at)
      && not (is_suppressed lib s db contact.normalized_phone_number)
      && not (is_completed campaign.status)
      && not (is_some (attempt_of db contact.id job.attempt_number))

  unfoldable pub dial_owed : Db → Contact → Campaign → Bool
  dial_owed db contact campaign =
      is_waiting contact.status
      && (contact.attempt_count == 0)
      && not (is_suppressed lib s db contact.normalized_phone_number)
      && (is_paused campaign.status || is_active campaign.status)

  abbrev pub with_rows : Option Contact → Option Campaign → (Contact → Campaign → Bool) → Bool
  with_rows none campaign f = false
  with_rows (some contact) none f = false
  with_rows (some contact) (some campaign) f = f contact campaign

  -- The call of the entry is owed: its contact still waits for it, and its campaign may go on.
  unfoldable pub is_owed : Db → Entry → Bool
  is_owed db (retry job) =
      with_rows (db.contacts job.contact_id) (db.campaigns job.campaign_id) (retry_owed db job)
  is_owed db (dial_job job) =
      with_rows (db.contacts job.contact_id) (db.campaigns job.campaign_id) (dial_owed db)

-- ===== src/Dialer/Letters.antt =====
-- The dead letters of backend/app/services/queue/dialer_worker.py: what the worker records of a job
-- that the stream gave up.
use ai_calling_agent.Common.{
  Bool, true, false, String, List, [], ◌∷◌, Option, none, some, if◌then◌else◌,
}
use ai_calling_agent.Model.{Uuid, Contact, Db, num}
use ai_calling_agent.Model.Enums.{ContactStatus}
use ai_calling_agent.Queue.Job.{}
use ai_calling_agent.Queue.Stream.{DeadRow, parse, drain_dead_letters}
use ai_calling_agent.Recovery.Manager.{save_contact}
use ai_calling_agent.Dialer.State.{State}

abbrev pub parkable : ContactStatus → Bool
parkable ContactStatus.pending = true
parkable ContactStatus.retry_scheduled = true
parkable _ = false

-- The contact of a dead letter is not dialed again by itself.
abbrev pub parked : Contact → Contact
parked contact = record contact {
  status = ContactStatus.needs_review;
  next_retry_at = none;
  retry_attempt_id = none;
  retry_attempt_number = none;
}

abbrev pub dead_letter_audit : String → Option Uuid → DeadRow → Db → Db
dead_letter_audit entity_type entity_id letter db = record db {
  audits =
      record {
        actor = "dead-letter-handler";
        action = "queue.dead_lettered";
        entity_type = entity_type;
        entity_id = entity_id;
        metadata = ("times_delivered", num letter.times_delivered) ∷ [];
      }
      ∷ db.audits;
}

-- `_record_dead_letter`
unfoldable pub record_dead_letter : DeadRow → Db → Db
record_dead_letter letter db = elim (parse letter.raw) [
  | none ↦ dead_letter_audit "queue_message" none letter db
  | some job ↦ elim (db.contacts job.contact_id) [
    | none ↦ dead_letter_audit "queue_message" none letter db
    | some contact ↦
        dead_letter_audit "contact" (some contact.id) letter
          (if parkable contact.status then save_contact (parked contact) db else db)
  ]
]

unfoldable pub record_dead_letters : List DeadRow → Db → Db
record_dead_letters [] db = db
record_dead_letters (letter ∷ letters) db =
    record_dead_letters letters (record_dead_letter letter db)

-- `handle_dead_letters`, where the database answers.
unfoldable pub handle_dead_letters : State → State
handle_dead_letters st =
    let (stream1, letters) = drain_dead_letters st.stream in
    record st { stream = stream1; db = record_dead_letters letters st.db }

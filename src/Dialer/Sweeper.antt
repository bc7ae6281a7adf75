-- ===== src/Dialer/Sweeper.antt =====
-- The stuck-call sweeper (backend/app/services/queue/stuck_call_sweeper.py): attempts that a worker
-- claimed and lost.
--
-- A sweep locks the rows that it acts on; here it is one step. The age and the contact's id of the
-- metadata are left out.
pub mod Settling
pub mod Counting
pub mod Ending
use ai_calling_agent.Common.{
  ℕ, ◌+◌, ◌-◌, Bool, true, false, not, ◌&&◌, ◌||◌, String, List, [], ◌∷◌, Option, none, some, ltb,
  ◌==◌, if◌then◌else◌, is_some, take, length, keep,
}
use ai_calling_agent.Calling.Window.{Time}
use ai_calling_agent.Model.{
  Uuid, Contact, CallAttempt, Db, Settings, Value, num, text, flag, seconds_of,
}
use ai_calling_agent.Model.Enums.{ContactStatus, failed_to_connect, NeverConnectedFailureReason}
use ai_calling_agent.Outbound.Gate.{BlockReason}
use ai_calling_agent.Recovery.Manager.{log_event, record_audit, save_contact}
use ai_calling_agent.Dialer.Attempts.{change_attempt, is_initiated, ambiguous_event}

-- `SweepResult`
pub record SweepResult : Type 0 where
  pub actioned : ℕ
  pub blocked : Bool

abbrev pub is_dialing : ContactStatus → Bool
is_dialing ContactStatus.dialing = true
is_dialing _ = false

-- The query's condition; `cutoff` is a time before now.
abbrev pub contact_dials : Option Contact → Bool
contact_dials none = false
contact_dials (some contact) = is_dialing contact.status

unfoldable pub is_stuck : Time → Db → CallAttempt → Bool
is_stuck cutoff db a =
    is_initiated a.state && ltb a.started_at cutoff && contact_dials (db.contacts a.contact_id)

-- ORDER BY started_at, id
abbrev pub comes_first : CallAttempt → CallAttempt → Bool
comes_first a b = ltb a.started_at b.started_at || ((a.started_at == b.started_at) && ltb a.id b.id)

unfoldable pub place_by_age : CallAttempt → List CallAttempt → List CallAttempt
place_by_age a [] = a ∷ []
place_by_age a (b ∷ rows) =
    let rest = place_by_age a rows in if comes_first a b then a ∷ b ∷ rows else b ∷ rest

unfoldable pub by_age : List CallAttempt → List CallAttempt
by_age [] = []
by_age (a ∷ rows) = place_by_age a (by_age rows)

unfoldable pub stuck_attempts : Time → ℕ → Db → List CallAttempt
stuck_attempts cutoff limit db = take limit (by_age (keep (is_stuck cutoff db) db.attempts))

abbrev pub reason_of : CallAttempt → String
reason_of a = if is_some a.provider_call_id then "no_terminal_webhook" else "no_provider_call_id"

abbrev pub swept_attempt : Time → CallAttempt → CallAttempt
swept_attempt now a = record a {
  provider = elim a.provider [ none ↦ some "dograh" | some p ↦ some p ];
  state = failed_to_connect;
  connection_failure_reason = some NeverConnectedFailureReason.provider_error;
  ended_at = some now;
}

-- What the sweep does about an attempt without a provider's id: the call may exist all the same.
unfoldable pub give_up : Time → CallAttempt → Db → Db
give_up now a db =
    if is_some a.provider_call_id
    then db
    else log_event a.id ambiguous_event
        (("category", text "swept_stuck") ∷ ("reconcile", text "not_attempted") ∷ [])
        (change_attempt a.id (swept_attempt now) db)

abbrev pub reviewed : Contact → Contact
reviewed contact = record contact { status = ContactStatus.needs_review }

abbrev pub review : Uuid → Db → Db
review contact_id db = elim (db.contacts contact_id) [
  | none ↦ db
  | some c ↦ save_contact (reviewed c) db
]

-- `_mark_for_review`
unfoldable pub mark_for_review : Time → CallAttempt → Db → Db
mark_for_review now a db =
    let details =
      ("reason", text (reason_of a))
      ∷ ("had_provider_call_id", flag (is_some a.provider_call_id))
      ∷ ("attempt_number", num a.attempt_number)
      ∷ [] in
    record_audit "stuck-call-sweeper" "sweeper.needs_review" a.id details
      (log_event a.id "SWEEPER_NEEDS_REVIEW" details (review a.contact_id (give_up now a db)))

unfoldable pub mark_all : Time → List CallAttempt → Db → Db
mark_all now [] db = db
mark_all now (a ∷ rows) db = mark_all now rows (mark_for_review now a db)

-- `sweep_stuck_attempts`; the reason is the kill switch's.
unfoldable pub sweep_stuck_attempts : Time → Time → ℕ → Option BlockReason → Db → Db × SweepResult
sweep_stuck_attempts now stuck_after limit (some reason) db =
    (db, record { actioned = 0; blocked = true })
sweep_stuck_attempts now stuck_after limit none db =
    let rows = stuck_attempts (now - stuck_after) limit db in
    (mark_all now rows db, record { actioned = length rows; blocked = false })

-- ===== src/Dialer/Attempts.antt =====
-- The rows of call attempts (backend/app/repositories/call_attempt_repository.py) and what their
-- events say of them.
--
-- An assignment to an attempt changes the row of its id. `occurred_at` orders events as they were
-- written, so the latest is the first of the list.
pub mod Rows
pub mod Calm
use ai_calling_agent.Common.{
  ℕ, ◌+◌, Bool, true, false, not, ◌&&◌, ◌||◌, String, List, [], ◌∷◌, map, Option, none, some, ◌==◌,
  if◌then◌else◌, is_some, any, str_eq,
}
use ai_calling_agent.Calling.Window.{Time}
use ai_calling_agent.Model.{Uuid, CallAttempt, CallEvent, Db}
use ai_calling_agent.Model.Enums.{CallAttemptState, initiated, failed_to_connect}

-- `get_by_contact_and_number`
unfoldable pub find_attempt : Uuid → ℕ → List CallAttempt → Option CallAttempt
find_attempt contact number [] = none
find_attempt contact number (a ∷ rows) =
    let rest = find_attempt contact number rows in
    if (a.contact_id == contact) && (a.attempt_number == number) then some a else rest

abbrev pub attempt_of : Db → Uuid → ℕ → Option CallAttempt
attempt_of db contact number = find_attempt contact number db.attempts

-- Assignments to an attempt.
unfoldable pub change_attempt : Uuid → (CallAttempt → CallAttempt) → Db → Db
change_attempt id g db = record db {
  attempts = map (λ (a : CallAttempt). if a.id == id then g a else a) db.attempts;
}

-- A new row; its id is drawn by the caller.
abbrev pub new_attempt : Uuid → Time → Uuid → ℕ → CallAttempt
new_attempt id now contact number = record {
  id = id;
  contact_id = contact;
  attempt_number = number;
  state = initiated;
  connection_failure_reason = none;
  disconnect_reason = none;
  provider = none;
  provider_call_id = none;
  started_at = now;
  ended_at = none;
}

-- `get_or_create`: the row, and whether this call made it. The database's unique constraint makes
-- the test and the insertion one step.
unfoldable pub get_or_create : Uuid → Time → Uuid → ℕ → Db → Db × CallAttempt × Bool
get_or_create id now contact number db = elim (attempt_of db contact number) [
  | some a ↦ (db, a, false)
  | none ↦
      let a = new_attempt id now contact number in
      (record db { attempts = a ∷ db.attempts }, a, true)
]

-- `_latest_event_type`
unfoldable pub latest_type : Uuid → List CallEvent → Option String
latest_type attempt [] = none
latest_type attempt (e ∷ events) =
    let rest = latest_type attempt events in
    if e.call_attempt_id == attempt then some e.event_type else rest

abbrev pub held_event : String
held_event = "DOGRAH_PROVIDER_HALT_HELD"

abbrev pub resumed_event : String
resumed_event = "DOGRAH_PROVIDER_HALT_RESUMED"

abbrev pub ambiguous_event : String
ambiguous_event = "DOGRAH_TRIGGER_AMBIGUOUS"

abbrev pub is_type : String → Option String → Bool
is_type t none = false
is_type t (some u) = str_eq u t

abbrev pub is_initiated : CallAttemptState → Bool
is_initiated initiated = true
is_initiated _ = false

abbrev pub is_failed_to_connect : CallAttemptState → Bool
is_failed_to_connect failed_to_connect = true
is_failed_to_connect _ = false

-- The latest event of the attempt is the mark of a hold.
unfoldable pub latest_is_hold : Db → Uuid → Bool
latest_is_hold db attempt = is_type held_event (latest_type attempt db.events)

-- `_is_held_attempt`
unfoldable pub is_held_attempt : Db → CallAttempt → Bool
is_held_attempt db a =
    not (is_some a.provider_call_id) && is_failed_to_connect a.state && latest_is_hold db a.id

-- `is_unresolved_ambiguous_trigger` of
-- backend/app/services/telephony/dograh_reconciliation.py
unfoldable pub is_unresolved_ambiguous_trigger : Db → CallAttempt → Bool
is_unresolved_ambiguous_trigger db a =
    is_failed_to_connect a.state
    && not (is_some a.provider_call_id)
    && any (λ (e : CallEvent). (e.call_attempt_id == a.id) && str_eq e.event_type ambiguous_event)
        db.events

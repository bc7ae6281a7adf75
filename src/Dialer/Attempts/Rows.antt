-- ===== src/Dialer/Attempts/Rows.antt =====
-- Which attempts there are, and which of them wait for the provider: what the worker's writes keep.
use ai_calling_agent.Common.{
  ℕ, true, false, ◌&&◌, String, List, [], ◌∷◌, map, Option, none, some, ◌==◌, if◌then◌else◌, str_eq,
  ◌≡◌, refl, ◌∙◌, arith,
}
use ai_calling_agent.Model.{Uuid, CallAttempt, Contact, Db, Value}
use ai_calling_agent.Recovery.Manager.{log_event, record_audit, save_contact}
use ai_calling_agent.Dialer.Attempts.{
  find_attempt, change_attempt, latest_type, latest_is_hold, held_event,
}

-- The id of the first row with the key.
unfoldable pub row_id : Uuid → ℕ → List CallAttempt → Option Uuid
row_id contact number [] = none
row_id contact number (a ∷ rows) =
    let rest = row_id contact number rows in
    if (a.contact_id == contact) && (a.attempt_number == number) then some a.id else rest

pub row_id-some :
    (contact : Uuid) (number : ℕ) (rows : List CallAttempt) (a : CallAttempt)
    → find_attempt contact number rows ≡ some a
    → (row_id contact number rows ≡ some a.id)
      × (a.contact_id ≡ contact)
      × (a.attempt_number ≡ number)
unfolding row_id find_attempt
row_id-some contact number [] a h = absurd cc
row_id-some contact number (b ∷ rows) a h =
    let rest = row_id-some contact number rows a in ground arith

pub row_id-none :
    (contact : Uuid) (number : ℕ) (rows : List CallAttempt)
    → find_attempt contact number rows ≡ none
    → row_id contact number rows ≡ none
unfolding row_id find_attempt
row_id-none contact number [] h = refl
row_id-none contact number (b ∷ rows) h = let rest = row_id-none contact number rows in ground arith

-- An assignment that leaves the key and the id alone.
abbrev pub IsKeyed : (CallAttempt → CallAttempt) → Type 0
IsKeyed g =
    (a : CallAttempt)
    → ((g a).id ≡ a.id)
      × ((g a).contact_id ≡ a.contact_id)
      × ((g a).attempt_number ≡ a.attempt_number)

pub row_id-map :
    (contact : Uuid) (number : ℕ) (id : Uuid) (g : CallAttempt → CallAttempt)
    → IsKeyed g
    → (rows : List CallAttempt)
    → row_id contact number (map (λ (a : CallAttempt). if a.id == id then g a else a) rows)
      ≡ row_id contact number rows
unfolding row_id
row_id-map contact number id g k [] = refl
row_id-map contact number id g k (a ∷ rows) =
    let rest = row_id-map contact number id g k rows in let same = k a in ground arith

-- The rows have the same keys and ids, and no attempt has come to wait for the provider.
unfoldable pub IsCalm : Db → Db → Type 0
IsCalm db db' =
    ((contact : Uuid) (number : ℕ)
      → row_id contact number db'.attempts ≡ row_id contact number db.attempts)
    × ((i : Uuid) → latest_is_hold db' i ≡ true → latest_is_hold db i ≡ true)

pub IsCalm-refl : (db : Db) → IsCalm db db
unfolding IsCalm
IsCalm-refl db = (λ c n. refl, λ i h. h)

pub IsCalm-trans : (a b c : Db) → IsCalm a b → IsCalm b c → IsCalm a c
unfolding IsCalm
IsCalm-trans a b c p q = (λ x n. q.0 x n ∙ p.0 x n, λ i h. p.1 i (q.1 i h))

pub IsCalm-same :
    (db db' : Db) → db'.attempts ≡ db.attempts → db'.events ≡ db.events → IsCalm db db'
unfolding IsCalm latest_is_hold
IsCalm-same db db' rows events = (λ c n. cc, λ i h. cc)

pub change_attempt-IsCalm :
    (id : Uuid) (g : CallAttempt → CallAttempt) (db : Db)
    → IsKeyed g
    → IsCalm db (change_attempt id g db)
unfolding IsCalm change_attempt latest_is_hold
change_attempt-IsCalm id g db k = (λ c n. row_id-map c n id g k db.attempts, λ i h. h)

pub log_event-IsCalm :
    (id : Uuid) (event : String) (payload : List (String × Value)) (db : Db)
    → str_eq event held_event ≡ false
    → IsCalm db (log_event id event payload db)
unfolding IsCalm log_event latest_is_hold latest_type
log_event-IsCalm id event payload db other = (λ c n. refl, λ i h. ground arith)

pub record_audit-IsCalm :
    (actor action : String) (id : Uuid) (metadata : List (String × Value)) (db : Db)
    → IsCalm db (record_audit actor action id metadata db)
unfolding record_audit
record_audit-IsCalm actor action id metadata db = IsCalm-same _ _ refl refl

pub save_contact-IsCalm : (contact : Contact) (db : Db) → IsCalm db (save_contact contact db)
unfolding save_contact
save_contact-IsCalm contact db = IsCalm-same _ _ refl refl

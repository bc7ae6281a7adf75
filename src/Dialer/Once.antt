-- ===== src/Dialer/Once.antt =====
-- The calls of one attempt of one contact: those that may have been placed, and the invariant of
-- the database about them.
pub mod Claiming
pub mod Placing
pub mod Runs
pub mod Steps
use ai_calling_agent.Common.{
  ℕ, ◌+◌, ◌≤◌, ◌<◌, Bool, true, false, ◌&&◌, List, [], ◌∷◌, Option, none, some, ◌==◌, if◌then◌else◌,
  ◌≡◌, refl, arith, ◌∙◌, sym,
}
use ai_calling_agent.Model.{Uuid, Db}
use ai_calling_agent.Telephony.Client.Placed.{may_be_placed}
use ai_calling_agent.Dialer.Attempts.{latest_is_hold}
use ai_calling_agent.Dialer.Attempts.Rows.{row_id, IsCalm}
use ai_calling_agent.Dialer.State.{Request}

-- The requests for an attempt of a contact whose call the provider may have placed.
unfoldable pub placed : Uuid → ℕ → List Request → ℕ
placed contact number [] = 0
placed contact number (r ∷ requests) =
    let rest = placed contact number requests in
    if (r.contact == contact) && (r.number == number) && may_be_placed r.answer
    then rest + 1
    else rest

-- No two attempts share their id.
unfoldable pub IsUnique : Db → Type 0
IsUnique db =
    (c : Uuid) (n : ℕ) (c' : Uuid) (n' : ℕ) (i : Uuid)
    → row_id c n db.attempts ≡ some i
    → row_id c' n' db.attempts ≡ some i
    → (c ≡ c') × (n ≡ n')

-- The attempt exists, and does not wait for the provider.
unfoldable pub IsSettled : Db → Uuid → ℕ → Type 0
IsSettled db contact number =
    (i : Uuid) × (row_id contact number db.attempts ≡ some i) × (latest_is_hold db i ≡ false)

unfoldable pub IsSafe : Db → List Request → Type 0
IsSafe db requests =
    IsUnique db
    × ((c : Uuid) (n : ℕ) → placed c n requests ≤ 1)
    × ((c : Uuid) (n : ℕ) → 0 < placed c n requests → IsSettled db c n)

-- The id of a new row is not in use.
unfoldable pub IsFresh : Uuid → Db → Type 0
IsFresh id db =
    ((c : Uuid) (n : ℕ) → ¬ (row_id c n db.attempts ≡ some id)) × (latest_is_hold db id ≡ false)

unhold :
    (db db' : Db) (i : Uuid)
    → IsCalm db db'
    → latest_is_hold db i ≡ false
    → latest_is_hold db' i ≡ false
unfolding IsCalm
unhold db db' i calm h = let back = calm.1 i in ground arith

pub IsFresh-calm : (id : Uuid) (db db' : Db) → IsCalm db db' → IsFresh id db → IsFresh id db'
unfolding IsFresh IsCalm
IsFresh-calm id db db' calm fresh =
    (λ c n h. fresh.0 c n (sym (calm.0 c n) ∙ h), unhold db db' id calm fresh.1)

IsUnique-calm : (db db' : Db) → IsCalm db db' → IsUnique db → IsUnique db'
unfolding IsUnique IsCalm
IsUnique-calm db db' calm unique =
    λ c n c' n' i h h'. unique c n c' n' i (sym (calm.0 c n) ∙ h) (sym (calm.0 c' n') ∙ h')

pub IsSettled-calm :
    (db db' : Db) (c : Uuid) (n : ℕ) → IsCalm db db' → IsSettled db c n → IsSettled db' c n
unfolding IsSettled IsCalm
IsSettled-calm db db' c n calm (i, row, free) = (i, calm.0 c n ∙ row, unhold db db' i calm free)

pub IsSafe-calm :
    (db db' : Db) (requests : List Request)
    → IsCalm db db'
    → IsSafe db requests
    → IsSafe db' requests
unfolding IsSafe
IsSafe-calm db db' requests calm (unique, once, settled) = (
  IsUnique-calm db db' calm unique,
  once,
  λ c n h. IsSettled-calm db db' c n calm (settled c n h),
)

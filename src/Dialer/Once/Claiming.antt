-- ===== src/Dialer/Once/Claiming.antt =====
-- The durable claim of an attempt, and the invariant.
use ai_calling_agent.Common.{
  ℕ, ◌<◌, true, false, List, [], ◌∷◌, Option, none, some, ◌≡◌, refl, arith, ◌∙◌, ==_refl,
  Option-cases, inl, inr, ◌⊎◌,
}
use ai_calling_agent.Model.{Uuid, CallAttempt, Contact, Db}
use ai_calling_agent.Recovery.Manager.{log_event, save_contact}
use ai_calling_agent.Dialer.Attempts.{
  attempt_of, new_attempt, get_or_create, latest_type, latest_is_hold, resumed_event,
}
use ai_calling_agent.Dialer.Attempts.Rows.{
  row_id, row_id-none, IsCalm, IsCalm-trans, change_attempt-IsCalm, log_event-IsCalm,
  save_contact-IsCalm,
}
use ai_calling_agent.Dialer.Dial.{
  resumed_attempt, resume_held_attempt, claimed_contact, lost, claimed, claim_attempt,
}
use ai_calling_agent.Dialer.Once.{placed, IsUnique, IsSettled, IsSafe, IsFresh, IsSafe-calm}
use ai_calling_agent.Dialer.State.{Request, Outside}

-- What a claim leaves: the attempt is there, not on hold, and was never placed.
unfoldable pub IsClaimed : Uuid → ℕ → List Request → Db → CallAttempt → Type 0
IsClaimed contact number requests db a =
    IsSafe db requests
    × (row_id contact number db.attempts ≡ some a.id)
    × (latest_is_hold db a.id ≡ false)
    × (placed contact number requests ≡ 0)
    × (a.attempt_number ≡ number)

-- The attempt that a run found has no call, or it found none.
unfoldable pub IsFound : Db → List Request → Uuid → ℕ → Option CallAttempt → Type 0
IsFound db requests contact number none = Unit
IsFound db requests contact number (some a) =
    (row_id contact number db.attempts ≡ some a.id)
    × (a.attempt_number ≡ number)
    × (placed contact number requests ≡ 0)

pub IsFound-calm :
    (db db' : Db) (requests : List Request) (contact : Uuid) (number : ℕ)
    (held : Option CallAttempt)
    → IsCalm db db'
    → IsFound db requests contact number held
    → IsFound db' requests contact number held
unfolding IsFound IsCalm
IsFound-calm db db' requests contact number none calm found = found
IsFound-calm db db' requests contact number (some a) calm (row, same_number, unsent) =
    (calm.0 contact number ∙ row, same_number, unsent)

unplaced :
    (db : Db) (requests : List Request) (c : Uuid) (n : ℕ)
    → IsSafe db requests
    → ¬ (IsSettled db c n)
    → placed c n requests ≡ 0
unfolding IsSafe
unplaced db requests c n (unique, once, settled) free =
    let some_placed = λ (h : 0 < placed c n requests). free (settled c n h) in ground arith

resume_held_attempt-IsCalm :
    (o : Outside) (a : CallAttempt) (db : Db) → IsCalm db (resume_held_attempt o a db)
unfolding resume_held_attempt
resume_held_attempt-IsCalm o a db =
    IsCalm-trans db _ _
      (change_attempt-IsCalm a.id (resumed_attempt o) db (λ b. (refl, refl, refl)))
      (log_event-IsCalm a.id resumed_event [] _ refl)

resumed-latest :
    (o : Outside) (a : CallAttempt) (contact : Contact) (db : Db)
    → latest_is_hold (save_contact contact (resume_held_attempt o a db)) a.id ≡ false
unfolding save_contact resume_held_attempt log_event latest_is_hold latest_type
resumed-latest o a contact db = rw (==_refl a.id) refl

held-IsClaimed :
    (o : Outside) (a : CallAttempt) (contact : Contact) (number : ℕ) (db : Db)
    (requests : List Request)
    → IsSafe db requests
    → IsFound db requests contact.id number (some a)
    → IsClaimed contact.id number requests
        (save_contact (claimed_contact contact) (resume_held_attempt o a db))
        (resumed_attempt o a)
unfolding IsClaimed IsCalm IsFound
held-IsClaimed o a contact number db requests safe (row, same_number, unsent) =
    let resumed = resume_held_attempt o a db in
    let calm : IsCalm db (save_contact (claimed_contact contact) resumed) =
      IsCalm-trans db resumed _ (resume_held_attempt-IsCalm o a db)
        (save_contact-IsCalm (claimed_contact contact) resumed) in
    (
      IsSafe-calm db _ requests calm safe,
      calm.0 contact.id number ∙ row,
      resumed-latest o a (claimed_contact contact) db,
      unsent,
      same_number,
    )

module _ (o : Outside) (contact : Contact) (number : ℕ) (db : Db) (requests : List Request) where
  abbrev made : Db
  made = record db { attempts = new_attempt o.new_attempt_id o.now contact.id number ∷ db.attempts }

  made-IsUnique :
      IsUnique db
      → IsFresh o.new_attempt_id db
      → row_id contact.id number db.attempts ≡ none
      → IsUnique made
  unfolding IsUnique IsFresh row_id
  made-IsUnique unique (fresh, free) missing = λ c n c' n' i h h'.
      let before = unique c n c' n' i in
      let fresh1 = fresh c n in let fresh2 = fresh c' n' in ground arith

  made-IsSettled :
      (c : Uuid) (n : ℕ)
      → row_id contact.id number db.attempts ≡ none
      → IsSettled db c n
      → IsSettled made c n
  unfolding IsSettled row_id latest_is_hold
  made-IsSettled c n missing (i, row, free) = (i, ground arith, free)

  not-IsSettled : row_id contact.id number db.attempts ≡ none → ¬ (IsSettled db contact.id number)
  unfolding IsSettled
  not-IsSettled missing (i, row, free) = ground arith

  held-IsSettled :
      (a : CallAttempt)
      → row_id contact.id number db.attempts ≡ some a.id
      → latest_is_hold db a.id ≡ true
      → ¬ (IsSettled db contact.id number)
  unfolding IsSettled
  held-IsSettled a own hold (i, row, free) = ground arith

  made-IsSafe :
      IsSafe db requests
      → IsFresh o.new_attempt_id db
      → row_id contact.id number db.attempts ≡ none
      → IsSafe made requests
  unfolding IsSafe
  made-IsSafe (unique, once, settled) fresh missing = (
    made-IsUnique unique fresh missing,
    once,
    λ c n h. made-IsSettled c n missing (settled c n h),
  )

  made-row : row_id contact.id number made.attempts ≡ some o.new_attempt_id
  unfolding row_id
  made-row = ground arith

  made-IsClaimed :
      IsSafe db requests
      → IsFresh o.new_attempt_id db
      → row_id contact.id number db.attempts ≡ none
      → IsClaimed contact.id number requests
          (save_contact (claimed_contact contact) made)
          (new_attempt o.new_attempt_id o.now contact.id number)
  unfolding IsClaimed IsCalm IsFresh save_contact latest_is_hold
  made-IsClaimed safe fresh missing =
      let calm : IsCalm made (save_contact (claimed_contact contact) made) =
        save_contact-IsCalm (claimed_contact contact) made in
      (
        IsSafe-calm made _ requests calm (made-IsSafe safe fresh missing),
        calm.0 contact.id number ∙ made-row,
        fresh.1,
        unplaced db requests contact.id number safe (not-IsSettled missing),
        refl,
      )

  claim_attempt-missing :
      attempt_of db contact.id number ≡ none
      → claim_attempt o none contact number db
        ≡ claimed
            (save_contact (claimed_contact contact) made)
            (new_attempt o.new_attempt_id o.now contact.id number)
  unfolding claim_attempt get_or_create
  claim_attempt-missing h = ground arith

  claim_attempt-taken :
      (a : CallAttempt)
      → attempt_of db contact.id number ≡ some a
      → claim_attempt o none contact number db ≡ lost
  unfolding claim_attempt get_or_create
  claim_attempt-taken a h = ground arith

  -- An attempt on hold has no call.
  pub held-IsFound :
      (a : CallAttempt)
      → IsSafe db requests
      → row_id contact.id number db.attempts ≡ some a.id
      → a.attempt_number ≡ number
      → latest_is_hold db a.id ≡ true
      → IsFound db requests contact.id number (some a)
  unfolding IsFound
  held-IsFound a safe row same_number hold =
      (row, same_number, unplaced db requests contact.id number safe (held-IsSettled a row hold))

  -- A claim of an attempt that was missing or on hold.
  pub claim_attempt-IsClaimed :
      (held : Option CallAttempt)
      → IsSafe db requests
      → IsFresh o.new_attempt_id db
      → IsFound db requests contact.id number held
      → (claim_attempt o held contact number db ≡ lost)
        ⊎ ((db1 : Db) × (a : CallAttempt) × (claim_attempt o held contact number db ≡ claimed db1 a)
            × IsClaimed contact.id number requests db1 a)
  unfolding claim_attempt
  claim_attempt-IsClaimed (some held) safe fresh found =
      inr (_, _, refl, held-IsClaimed o held contact number db requests safe found)
  claim_attempt-IsClaimed none safe fresh found =
      elim (Option-cases (attempt_of db contact.id number)) [
        | inl missing ↦ inr (
          _,
          _,
          claim_attempt-missing missing,
          made-IsClaimed safe fresh (row_id-none contact.id number db.attempts missing),
        )
        | inr (a, taken) ↦ inl (claim_attempt-taken a taken)
      ]

-- ===== src/Outbound/Streak.antt =====
-- The systemic detector (backend/app/services/provider_halt.py): how many different contacts in a
-- row failed for good with one category.
use ai_calling_agent.Common.{
  ℕ, ◌+◌, Bool, false, ◌&&◌, List, [], ◌∷◌, Option, none, some, ltb, if◌then◌else◌, length, elem,
}
use ai_calling_agent.Calling.Window.{Time}
use ai_calling_agent.Model.{Uuid}
use ai_calling_agent.Telephony.Client.{ErrorCategory}

-- The category's key and the set of contacts, which expire together.
pub record Streak : Type 0 where
  pub category : Option ErrorCategory
  pub contacts : List Uuid
  pub deadline : Time

abbrev pub no_streak : Streak
no_streak = record { category = none; contacts = []; deadline = 0 }

-- `note_permanent_failure`, with `_STREAK_SCRIPT`; no answer from Redis counts as no streak.
module _ (same_category : ErrorCategory → ErrorCategory → Bool) where
  abbrev pub continues : Time → ErrorCategory → Streak → Bool
  continues now category s = elim s.category [
    | none ↦ false
    | some c ↦ same_category c category && ltb now s.deadline
  ]

  unfoldable pub note_permanent_failure :
      Bool → Time → Time → ErrorCategory → Uuid → Streak → Streak × ℕ
  note_permanent_failure redis_up now ttl category contact_id s =
      let before = if continues now category s then s.contacts else [] in
      let contacts = if elem contact_id before then before else contact_id ∷ before in
      if redis_up
      then (
        record { category = some category; contacts = contacts; deadline = now + ttl },
        length contacts,
      )
      else (s, 0)

-- `reset_streak`
abbrev pub reset_streak : Bool → Streak → Streak
reset_streak redis_up s = if redis_up then no_streak else s

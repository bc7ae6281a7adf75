-- ===== src/Outbound/Budget.antt =====
-- The daily budget (backend/app/services/spend_cap.py): attempts of the budget day against the cap.
--
-- The estimate of the spend is arithmetic on floats, which is not modelled: `spend_of` gives it from
-- the attempts of the day, in the ten-thousandths that the source rounds to, or nothing where no
-- price is set. The audit of a reached cap and the log throttles are left out.
use ai_calling_agent.Common.{
  ℕ, ◌+◌, Bool, false, ◌&&◌, List, Option, none, some, ltb, leb, ◌==◌, if◌then◌else◌, length, keep,
}
use ai_calling_agent.Calling.Window.{Time, Zone}
use ai_calling_agent.Model.{CallAttempt, Db}

pub data BudgetReason : Type 0 where
  daily_dial_cap_reached daily_spend_cap_reached budget_unavailable : BudgetReason

-- `BudgetStatus`
pub record BudgetStatus : Type 0 where
  pub day_number : ℕ
  pub dials : ℕ
  pub dial_cap : ℕ
  pub estimated_spend : Option ℕ
  pub spend_cap : Option ℕ

abbrev pub at_cap : Option ℕ → Option ℕ → Bool
at_cap (some cap) (some spend) = leb cap spend
at_cap _ _ = false

-- `BudgetStatus.reached`
unfoldable pub reached : BudgetStatus → Option BudgetReason
reached b =
    if leb b.dial_cap b.dials
    then some daily_dial_cap_reached
    else if at_cap b.spend_cap b.estimated_spend
    then some daily_spend_cap_reached
    else none

-- The settings of the budget, its zone already loaded.
pub record BudgetSettings : Type 0 where
  pub zone : Zone
  pub daily_dial_cap : ℕ
  pub daily_estimated_spend_cap : Option ℕ
  pub cache_ttl : ℕ

-- `budget_window`
unfoldable pub budget_window : Zone → Time → Time × Time × ℕ
budget_window zone now =
    let day_number = zone.date_of now in
    (zone.instant day_number 0, zone.instant (day_number + 1) 0, day_number)

abbrev pub started_between : Time → Time → CallAttempt → Bool
started_between start end a = leb start a.started_at && ltb a.started_at end

module _ (spend_of : List CallAttempt → Option ℕ) (b : BudgetSettings) where
  -- `compute_status`
  unfoldable pub compute_status : Db → Time → BudgetStatus
  unfolding budget_window
  compute_status db now =
      let (start, end, day_number) = budget_window b.zone now in
      let today = keep (started_between start end) db.attempts in
      record {
        day_number = day_number;
        dials = length today;
        dial_cap = b.daily_dial_cap;
        estimated_spend = spend_of today;
        spend_cap = b.daily_estimated_spend_cap;
      }

  -- `current_status`: the status that the process computed less than the time to live ago, by its
  -- own clock, on the same day; and else a new one, if the database answers.
  unfoldable pub current_status :
      Bool → ℕ → Option (ℕ × BudgetStatus) → Db → Time → Option BudgetStatus
  current_status db_up clock cache db now =
      let computed = if db_up then some (compute_status db now) else none in
      elim cache [
        | none ↦ computed
        | some c ↦
            if ltb clock (c.0 + b.cache_ttl) && (c.1.day_number == b.zone.date_of now)
            then some c.1
            else computed
      ]

  -- `block_reason`
  unfoldable pub budget_block_reason :
      Bool → ℕ → Option (ℕ × BudgetStatus) → Db → Time → Option BudgetReason
  budget_block_reason db_up clock cache db now = elim (current_status db_up clock cache db now) [
    | none ↦ some budget_unavailable
    | some status ↦ reached status
  ]

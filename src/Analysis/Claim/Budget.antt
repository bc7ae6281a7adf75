-- ===== src/Analysis/Claim/Budget.antt =====
-- The ledger of the day's estimated spend (backend/app/services/analysis/budget.py).
use ai_calling_agent.Common.{ℕ, ◌+◌, ◌-◌, Bool, String, Option, none, some, ltb, leb, if◌then◌else◌}
use ai_calling_agent.Common.Table.{put_row}
use ai_calling_agent.Calling.Window.{Time}

abbrev pub BudgetDay : Type 0
BudgetDay = ℕ

-- `analysis_budget_day`: what the day's analyses have reserved.
abbrev pub Ledger : Type 0
Ledger = BudgetDay → Option ℕ

-- The settings that are read here, and `budget_day_for`, which asks the time zone database.
pub record AnalysisSettings : Type 0 where
  pub is_mock : Bool
  pub daily_cap : Option ℕ
  pub estimated_cost : Option ℕ
  pub budget_recheck_seconds : ℕ
  pub budget_day_for : Time → BudgetDay

pub data BudgetDecision : Type 0 where
  reserved not_required not_configured cap_reached : BudgetDecision

-- The value of the enumeration, which is recorded as the reason of a deferral.
abbrev pub decision_value : BudgetDecision → String
decision_value reserved = "reserved"
decision_value not_required = "not_required"
decision_value not_configured = "budget_not_configured"
decision_value cap_reached = "budget_cap_reached"

-- The conditional upsert of one day; it returns no row if the cap would be passed.
unfoldable pub upsert_day : BudgetDay → ℕ → ℕ → Ledger → Option Ledger
upsert_day day cost cap ledger = elim (ledger day) [
  | none ↦ some (put_row day cost ledger)
  | some spent ↦ if leb (spent + cost) cap then some (put_row day (spent + cost) ledger) else none
]

abbrev upserted : ℕ → Ledger → Option Ledger → Ledger × Option ℕ × BudgetDecision
upserted cost ledger none = (ledger, none, cap_reached)
upserted cost ledger (some ledger') = (ledger', some cost, reserved)

-- The part of `reserve` after its two early returns: the ledger, and the cost if it is reserved.
unfoldable pub reserve_cost : AnalysisSettings → Time → Ledger → Ledger × Option ℕ × BudgetDecision
unfolding upsert_day
reserve_cost s now ledger = elim s.daily_cap [
  | none ↦ (ledger, none, not_configured)
  | some cap ↦ elim s.estimated_cost [
    | none ↦ (ledger, none, not_configured)
    | some cost ↦
        if ltb cap cost
        then (ledger, none, cap_reached)
        else upserted cost ledger (upsert_day (s.budget_day_for now) cost cap ledger)
  ]
]

-- `release`: the UPDATE never takes a day below zero, and changes no day that has no row.
unfoldable pub release_cost : Option BudgetDay → Option ℕ → Ledger → Ledger
release_cost none cost ledger = ledger
release_cost (some day) none ledger = ledger
release_cost (some day) (some cost) ledger =
    if ltb 0 cost
    then elim (ledger day) [ none ↦ ledger | some spent ↦ put_row day (spent - cost) ledger ]
    else ledger

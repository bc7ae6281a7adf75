-- ===== src/Outbound/Gate.antt =====
-- The gate before every new call (backend/app/services/outbound_gate.py), with the readings of the
-- two controls (kill_switch.py and provider_halt.py beside it).
use ai_calling_agent.Common.{
  ℕ, ◌+◌, ◌≤◌, Bool, true, false, ◌⊎◌, List, Option, none, some, ◌≡◌, if◌then◌else◌, arith, ◌↔◌,
  ◌==◌,
}
use ai_calling_agent.Common.Result.{Result, ok, err}
use ai_calling_agent.Calling.Window.{Time}
use ai_calling_agent.Model.{CallAttempt, Db}
use ai_calling_agent.Outbound.Budget.{
  BudgetReason, BudgetStatus, BudgetSettings, reached, compute_status, current_status,
  budget_block_reason,
}
use ai_calling_agent.Outbound.Control.{
  ControlKey, kill_switch, provider_halt, ControlRow, Controls, ControlError, Cached, is_engaged,
  read_all,
}

pub data BlockReason : Type 0 where
  kill_switch_enabled kill_switch_unavailable provider_halt_engaged provider_halt_unavailable :
      BlockReason
  over_budget : BudgetReason → BlockReason

-- `is_budget_reason`
unfoldable pub is_budget_reason : BlockReason → Bool
is_budget_reason (over_budget _) = true
is_budget_reason _ = false

-- `kill_switch.block_reason`; the first flag is the static one of the settings.
unfoldable pub kill_switch_reason :
    Bool → Result ControlError (ControlKey → Option ControlRow) → Option BlockReason
kill_switch_reason true read = some kill_switch_enabled
kill_switch_reason false (err _) = some kill_switch_unavailable
kill_switch_reason false (ok rows) =
    if is_engaged (rows kill_switch) then some kill_switch_enabled else none

-- `provider_halt.block_reason`
unfoldable pub provider_halt_reason :
    Result ControlError (ControlKey → Option ControlRow) → Option BlockReason
provider_halt_reason (err _) = some provider_halt_unavailable
provider_halt_reason (ok rows) =
    if is_engaged (rows provider_halt) then some provider_halt_engaged else none

-- `a or b` of two reasons.
abbrev pub or_else : Option BlockReason → Option BlockReason → Option BlockReason
or_else none b = b
or_else (some a) b = some a

abbrev pub budget_reason : Option BudgetReason → Option BlockReason
budget_reason none = none
budget_reason (some r) = some (over_budget r)

-- What one process knows when it asks: whether the database answers, its clock and its caches.
pub record Reader : Type 0 where
  pub db_up : Bool
  pub clock : ℕ
  pub control_ttl : ℕ
  pub static_kill_switch : Bool
  pub controls_cache : Option Cached
  pub budget_cache : Option (ℕ × BudgetStatus)

module _ (spend_of : List CallAttempt → Option ℕ) (b : BudgetSettings) where
  abbrev pub control_read :
      Reader → Controls → Option Cached × Result ControlError (ControlKey → Option ControlRow)
  control_read r c = read_all r.db_up r.control_ttl r.clock r.controls_cache c

  -- `block_reason`. The second reading of the controls comes from the cache that the first left.
  unfoldable pub block_reason : Reader → Controls → Db → Time → Option BlockReason
  block_reason r c db now =
      let (cache, first) = read_all r.db_up r.control_ttl r.clock r.controls_cache c in
      let (_, second) = read_all r.db_up r.control_ttl r.clock cache c in
      or_else (kill_switch_reason r.static_kill_switch first) (
        or_else (provider_halt_reason second)
          (budget_reason (budget_block_reason spend_of b r.db_up r.clock r.budget_cache db now)))

  -- A process without a cache in force: none, or one at least as old as its time to live; or, of the
  -- budget, one of another day.
  abbrev pub HasNoCache : Reader → Time → Type 0
  HasNoCache r now =
      ((r.controls_cache ≡ none)
        ⊎ ((cached : Cached) × (r.controls_cache ≡ some cached)
            × (cached.read_at + r.control_ttl ≤ r.clock)))
      × ((r.budget_cache ≡ none)
          ⊎ ((at : ℕ) × (status : BudgetStatus) × (r.budget_cache ≡ some (at, status))
              × ((at + b.cache_ttl ≤ r.clock)
                  ⊎ ((status.day_number == b.zone.date_of now) ≡ false))))

  -- A process whose caches are empty, or as old as their time to live, or, for the budget, of
  -- another day, is let through exactly if the database answers, the static flag is off, neither control is engaged in the table, and the attempts of the day are within
  -- both caps: it fails closed.
  pub block_reason-none_iff :
      (r : Reader) (c : Controls) (db : Db) (now : Time)
      → HasNoCache r now
      → (block_reason r c db now ≡ none) ↔ (
          (r.db_up ≡ true)
          × (r.static_kill_switch ≡ false)
          × (is_engaged (c.rows kill_switch) ≡ false)
          × (is_engaged (c.rows provider_halt) ≡ false)
          × (reached (compute_status spend_of b db now) ≡ none))
  unfolding block_reason read_all kill_switch_reason provider_halt_reason budget_block_reason
      current_status
  block_reason-none_iff r c db now h = (
    λ p. (ground arith, ground arith, ground arith, ground arith, ground arith),
    λ p. ground arith,
  )

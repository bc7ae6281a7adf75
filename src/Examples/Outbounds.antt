-- ===== src/Examples/Outbounds.antt =====
-- The gate of a process with old caches, and calls of the two controls.
use ai_calling_agent.Common.{
  ℕ, ◌+◌, ◌≡◌, ◌↔◌, inl, inr, refl, true, false, List, [], ◌∷◌, Option, none, some, arith,
}
use ai_calling_agent.Common.Text.{codes}
use ai_calling_agent.Model.{CallAttempt}
use ai_calling_agent.Outbound.Budget.{BudgetSettings, reached, compute_status}
use ai_calling_agent.Outbound.Control.{kill_switch, provider_halt, Controls, is_engaged}
use ai_calling_agent.Outbound.Control.Transitions.{
  ControlOp, engage_op, release_op, operate_all, engaged_count, released_count, state_bit,
  audit_count, audited_count, operate_all-balance,
}
use ai_calling_agent.Outbound.Gate.{Reader, block_reason, block_reason-none_iff}
use ai_calling_agent.Examples.Policies.{db, noon}
use ai_calling_agent.Examples.Windows.{kolkata}

abbrev pub no_controls : Controls
no_controls = record { rows = λ _. none; audits = [] }

abbrev budget : BudgetSettings
budget = record {
  zone = kolkata;
  daily_dial_cap = 100;
  daily_estimated_spend_cap = none;
  cache_ttl = 30;
}

abbrev spend_of : List CallAttempt → Option ℕ
spend_of attempts = none

abbrev reader : Reader
reader = record {
  db_up = true;
  clock = 100;
  control_ttl = 5;
  static_kill_switch = false;
  controls_cache = some (record { read_at = 90; cached_rows = λ _. none });
  budget_cache = some (0, compute_status spend_of budget db noon);
}

block_reason-none_iff_example : (block_reason spend_of budget reader no_controls db noon ≡ none) ↔ (
    (true ≡ true)
    × (false ≡ false)
    × (is_engaged (no_controls.rows kill_switch) ≡ false)
    × (is_engaged (no_controls.rows provider_halt) ≡ false)
    × (reached (compute_status spend_of budget db noon) ≡ none))
block_reason-none_iff_example =
    block_reason-none_iff spend_of budget reader no_controls db noon
      (inr (_, refl, omega arith), inr (_, _, refl, inl (omega arith)))

-- The kill switch is engaged without an audit; two processes engage the provider halt with one, the
-- database fails once, and one releases it.
abbrev calls : List ControlOp
calls =
    engage_op true 9 kill_switch (codes "asha") none none false
    ∷ engage_op true 10 provider_halt (codes "worker") none none true
    ∷ engage_op true 11 provider_halt (codes "worker") none none true
    ∷ release_op false 12 provider_halt (codes "ravi")
    ∷ release_op true 13 provider_halt (codes "ravi")
    ∷ []

operate_all-balance_example :
    (state_bit provider_halt (operate_all calls no_controls)
        + released_count provider_halt calls no_controls
      ≡ 0 + engaged_count provider_halt calls no_controls)
    × (audit_count provider_halt (operate_all calls no_controls)
        ≡ 0 + audited_count provider_halt calls no_controls)
operate_all-balance_example = operate_all-balance provider_halt calls no_controls

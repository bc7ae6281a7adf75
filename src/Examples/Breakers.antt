-- ===== src/Examples/Breakers.antt =====
-- A breaker with a threshold of two failures.
use ai_calling_agent.Common.{◌+◌, ◌≡◌, [], ◌∷◌, if◌then◌else◌, leb, ltb}
use ai_calling_agent.Telephony.Breaker.{
  Breaker, is_open, record_success, fail_all, is_open-fail_all,
}

abbrev closed : Breaker
closed = record { errors = 1; open_until = 0 }

is_open-fail_all_example :
    is_open 150 (fail_all 2 60 (120 ∷ 100 ∷ []) (record_success closed))
    ≡ (if leb 2 2 then ltb 150 (120 + 60) else is_open 150 closed)
is_open-fail_all_example = is_open-fail_all 2 60 150 120 (100 ∷ []) closed

-- ===== src/Telephony/Breaker.antt =====
-- The circuit breaker (backend/app/services/telephony/circuit_breaker.py): a counter of failures in
-- Redis, and a key that is there while the circuit is open, up to its deadline.
use ai_calling_agent.Common.{
  ℕ, suc, ◌+◌, Bool, List, [], ◌∷◌, ◌≡◌, refl, ltb, leb, if◌then◌else◌, length, arith,
}
use ai_calling_agent.Calling.Window.{Time}

-- A deadline of zero is no key.
pub record Breaker : Type 0 where
  pub errors : ℕ
  pub open_until : Time

-- `is_open`
unfoldable pub is_open : Time → Breaker → Bool
is_open now b = ltb now b.open_until

-- `record_success`
unfoldable pub record_success : Breaker → Breaker
record_success b = record b { errors = 0 }

module _ (error_threshold : ℕ) (open_for : Time) where
  -- `record_failure`
  unfoldable pub record_failure : Time → Breaker → Breaker
  record_failure now b =
      let errors = b.errors + 1 in
      if leb error_threshold errors
      then record { errors = errors; open_until = now + open_for }
      else record b { errors = errors }

  -- A row of failures, the last one first.
  unfoldable pub fail_all : List Time → Breaker → Breaker
  fail_all [] b = b
  fail_all (now ∷ earlier) b = record_failure now (fail_all earlier b)

  errors-fail_all :
      (times : List Time) (b : Breaker) → (fail_all times (record_success b)).errors ≡ length times
  unfolding fail_all record_failure record_success
  errors-fail_all [] b = refl
  errors-fail_all (now ∷ earlier) b = ground (arith, errors-fail_all earlier b)

  deadline-record_failure :
      (now last old : Time) (n : ℕ) (b : Breaker)
      → b.errors ≡ n
      → b.open_until ≡ (if leb error_threshold n then last + open_for else old)
      → (record_failure now b).open_until
        ≡ (if leb error_threshold (suc n) then now + open_for else old)
  unfolding record_failure
  deadline-record_failure now last old n b e d = ground arith

  deadline-fail_all :
      (now : Time) (earlier : List Time) (b : Breaker)
      → (fail_all (now ∷ earlier) (record_success b)).open_until
        ≡ (if leb error_threshold (suc (length earlier)) then now + open_for else b.open_until)
  unfolding fail_all
  deadline-fail_all now [] b = unfold record_failure record_success in ground arith
  deadline-fail_all now (t ∷ earlier) b =
      deadline-record_failure now t b.open_until (suc (length earlier))
        (fail_all (t ∷ earlier) (record_success b)) (errors-fail_all (t ∷ earlier) b)
        (deadline-fail_all t earlier b)

  -- After a success and then a row of failures, the circuit is open up to the given time after the
  -- last failure if the row is as long as the threshold, and otherwise as it was before.
  pub is_open-fail_all :
      (at now : Time) (earlier : List Time) (b : Breaker)
      → is_open at (fail_all (now ∷ earlier) (record_success b)) ≡ (
          if leb error_threshold (suc (length earlier))
          then ltb at (now + open_for)
          else is_open at b)
  unfolding is_open
  is_open-fail_all at now earlier b = ground (arith, deadline-fail_all now earlier b)

-- ===== src/Examples/Windows.antt =====
-- Concrete zones and windows.
use ai_calling_agent.Common.{
  ℕ, ◌+◌, ◌*◌, ◌-◌, ◌/◌, ◌%◌, ◌≤◌, ◌≡◌, ◌↔◌, ◌⊎◌, refl, true, false, arith,
}
use ai_calling_agent.Common.Result.{ok, err}
use ai_calling_agent.Calling.Window.{
  Zone, Time, no_dialable_window, day, minute, is_within_calling_window, is_dialable_now,
  window_within_bound, next_window_open, intervals, inside, first_opening, try_days, try_spans,
  advance, intersect, meet_one, meet, place, sorted,
}
use ai_calling_agent.Calling.Window.Inside.{in_window, is_within-eq-in_window}
use ai_calling_agent.Calling.Window.Bound.{IsPartOf, window_within_bound_iff}
use ai_calling_agent.Calling.Window.Opening.{IsFixed}
use ai_calling_agent.Calling.Window.Earliest.{next_window_open_earliest, next_window_open_total}

abbrev hour : ℕ
hour = 60 * minute

-- Asia/Kolkata: five hours and a half ahead, the whole year.
abbrev pub kolkata_offset : ℕ
kolkata_offset = 330 * minute

abbrev pub kolkata : Zone
kolkata = record {
  time_of = λ u. (u + kolkata_offset) % day;
  date_of = λ u. (u + kolkata_offset) / day;
  instant = λ d t. d * day + t - kolkata_offset;
}

pub kolkata-IsFixed : IsFixed kolkata kolkata_offset
kolkata-IsFixed = record { time = λ u. refl; date = λ u. refl; clock = λ d t h. omega (arith, h) }

-- 3:00 in Kolkata on the second day of the clock.
abbrev early : Time
early = day + 21 * hour + 30 * minute

is_within-eq-in_window_example :
    is_within_calling_window kolkata early (22 * hour) (6 * hour)
    ≡ ok (in_window (22 * hour) (6 * hour) (kolkata.time_of early))
is_within-eq-in_window_example =
    is_within-eq-in_window kolkata early (22 * hour) (6 * hour) (omega arith) (omega arith)

window_within_bound_iff_example :
    (window_within_bound (23 * hour) (2 * hour) (22 * hour) (6 * hour) ≡ ok true)
    ↔ IsPartOf (23 * hour) (2 * hour) (22 * hour) (6 * hour)
window_within_bound_iff_example =
    window_within_bound_iff (23 * hour) (2 * hour) (22 * hour) (6 * hour) (omega arith)
      (omega arith) (omega arith) (omega arith) (omega arith)

opens_at_nine :
    next_window_open kolkata early (8 * hour) (20 * hour) (9 * hour) (21 * hour)
    ≡ ok (2 * day + 3 * hour + 30 * minute)
unfolding next_window_open is_dialable_now is_within_calling_window intervals inside first_opening
    try_days try_spans advance intersect meet_one meet place sorted
opens_at_nine = refl

next_window_open_earliest_example :
    (early ≤ 2 * day + 3 * hour + 30 * minute)
    × (is_dialable_now kolkata
          (2 * day + 3 * hour + 30 * minute)
          (8 * hour)
          (20 * hour)
          (9 * hour)
          (21 * hour)
        ≡ ok true)
    × ((u : Time)
        → early ≤ u
        → is_dialable_now kolkata u (8 * hour) (20 * hour) (9 * hour) (21 * hour) ≡ ok true
        → 2 * day + 3 * hour + 30 * minute ≤ u)
next_window_open_earliest_example =
    next_window_open_earliest kolkata kolkata_offset kolkata-IsFixed (omega arith) early
      (omega arith) (8 * hour) (20 * hour) (9 * hour) (21 * hour) (omega arith) (omega arith)
      (omega arith) (omega arith) (omega arith) (omega arith) (2 * day + 3 * hour + 30 * minute)
      opens_at_nine

next_window_open_total_example :
    ((r : Time) × (next_window_open kolkata early (8 * hour) (20 * hour) (9 * hour) (21 * hour)
        ≡ ok r))
    ⊎ ((next_window_open kolkata early (8 * hour) (20 * hour) (9 * hour) (21 * hour)
          ≡ err no_dialable_window)
        × ((u : Time)
            → is_dialable_now kolkata u (8 * hour) (20 * hour) (9 * hour) (21 * hour) ≡ ok false))
next_window_open_total_example =
    next_window_open_total kolkata kolkata_offset kolkata-IsFixed (omega arith) early (omega arith)
      (8 * hour) (20 * hour) (9 * hour) (21 * hour) (omega arith) (omega arith) (omega arith)
      (omega arith) (omega arith) (omega arith)

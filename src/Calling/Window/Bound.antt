-- ===== src/Calling/Window/Bound.antt =====
-- The save-time check of a window against the hard bound, and the clamp at evaluation time.
use ai_calling_agent.Common.{ℕ, ◌-◌, ◌<◌, true, ◌≡◌, ◌≢◌, ◌↔◌, ◌&&◌, arith}
use ai_calling_agent.Common.Result.{ok}
use ai_calling_agent.Calling.Window.{
  Zone, Time, TimeOfDay, day, intervals, inside, is_within_calling_window, is_dialable_now,
  window_within_bound,
}
use ai_calling_agent.Calling.Window.Inside.{in_window, is_within-eq-in_window}

-- Every time of the first window is a time of the second.
abbrev pub IsPartOf : (s e hs he : TimeOfDay) → Type 0
IsPartOf s e hs he = (t : ℕ) → t < day → in_window s e t ≡ true → in_window hs he t ≡ true

module _ (s e hs he : TimeOfDay) (differ : s ≢ e) (hard_differ : hs ≢ he) where
  within_bound_sound : e < day → window_within_bound s e hs he ≡ ok true → IsPartOf s e hs he
  unfolding window_within_bound intervals
  within_bound_sound e_day h t below = ground arith

  within_bound_complete :
      s < day → e < day → he < day → IsPartOf s e hs he → window_within_bound s e hs he ≡ ok true
  unfolding window_within_bound intervals
  within_bound_complete s_day e_day he_day h =
      ground (arith, h s s_day, h (e - 1) (omega arith), h he he_day, h (day - 1) (omega arith))

-- The save-time check passes exactly the windows whose every instant lies inside the hard bound,
-- for windows and bounds either of which may run past midnight.
pub window_within_bound_iff :
    (s e hs he : TimeOfDay)
    → s ≢ e
    → hs ≢ he
    → s < day
    → e < day
    → he < day
    → (window_within_bound s e hs he ≡ ok true) ↔ IsPartOf s e hs he
window_within_bound_iff s e hs he differ hard_differ s_day e_day he_day = (
  within_bound_sound s e hs he differ hard_differ e_day,
  within_bound_complete s e hs he differ hard_differ s_day e_day he_day,
)

-- The clamp: dialing is allowed exactly while the campaign window and the hard bound are open.
pub is_dialable_now-eq :
    (z : Zone) (now : Time) (s e hs he : TimeOfDay)
    → s ≢ e
    → hs ≢ he
    → z.time_of now < day
    → is_dialable_now z now s e hs he
      ≡ ok (in_window s e (z.time_of now) && in_window hs he (z.time_of now))
unfolding is_dialable_now is_within_calling_window intervals inside
is_dialable_now-eq z now s e hs he differ hard_differ below = ground arith

-- For a window that passed the save-time check the clamp takes nothing away.
pub is_dialable_now_of_within_bound :
    (z : Zone) (now : Time) (s e hs he : TimeOfDay)
    → s ≢ e
    → hs ≢ he
    → e < day
    → z.time_of now < day
    → window_within_bound s e hs he ≡ ok true
    → is_dialable_now z now s e hs he ≡ is_within_calling_window z now s e
is_dialable_now_of_within_bound z now s e hs he differ hard_differ e_day below h = ground (
  arith,
  is_dialable_now-eq z now s e hs he differ hard_differ below,
  is_within-eq-in_window z now s e differ below,
  within_bound_sound s e hs he differ hard_differ e_day h (z.time_of now) below,
)

-- ===== src/Calling/Window/Inside.antt =====
-- What a window means: which times of day lie in it, ordinary and overnight.
use ai_calling_agent.Common.{
  ℕ, ◌<◌, Bool, ◌&&◌, ◌||◌, List, [], ◌∷◌, ◌++◌, ◌≡◌, ◌≢◌, refl, ltb, leb, if◌then◌else◌, arith,
  any-append,
}
use ai_calling_agent.Common.Result.{ok}
use ai_calling_agent.Calling.Window.{
  Zone, Time, TimeOfDay, Interval, day, intervals, inside, is_within_calling_window, meet_one, meet,
  place, sorted, intersect,
}

-- A window read directly: from start up to end, or round midnight.
abbrev pub in_window : TimeOfDay → TimeOfDay → TimeOfDay → Bool
in_window s e t = if ltb s e then leb s t && ltb t e else leb s t || ltb t e

inside-intervals :
    (s e t : ℕ) (spans : List Interval)
    → t < day
    → intervals s e ≡ ok spans
    → inside spans t ≡ in_window s e t
unfolding intervals inside
inside-intervals s e t spans below h = ground arith

-- A window whose ends differ is open exactly at the times from its start up to its end, past
-- midnight when the end comes first, as the wall clock of the zone reads them.
pub is_within-eq-in_window :
    (z : Zone) (now : Time) (s e : TimeOfDay)
    → s ≢ e
    → z.time_of now < day
    → is_within_calling_window z now s e ≡ ok (in_window s e (z.time_of now))
unfolding is_within_calling_window intervals inside
is_within-eq-in_window z now s e differ below = ground arith

covers : Interval → ℕ → Bool
covers i t = leb i.0 t && ltb t i.1

inside-meet_one :
    (i : Interval) (js : List Interval) (t : ℕ)
    → inside (meet_one i js) t ≡ (leb i.0 t && ltb t i.1 && inside js t)
unfolding inside meet_one
inside-meet_one i [] t = ground arith
inside-meet_one i (j ∷ js) t = ground (arith, inside-meet_one i js t)

inside-append : (a b : List Interval) (t : ℕ) → inside (a ++ b) t ≡ (inside a t || inside b t)
unfolding inside
inside-append a b t = any-append (λ (i : Interval). leb i.0 t && ltb t i.1) a b

inside-meet : (a b : List Interval) (t : ℕ) → inside (meet a b) t ≡ (inside a t && inside b t)
unfolding inside meet
inside-meet [] b t = refl
inside-meet (i ∷ a) b t =
    ground
      (arith, inside-append (meet_one i b) (meet a b) t, inside-meet_one i b t, inside-meet a b t)

inside-place : (i : Interval) (b : List Interval) (t : ℕ) → inside (place i b) t ≡ inside (i ∷ b) t
unfolding inside place
inside-place i [] t = refl
inside-place i (j ∷ b) t = ground (arith, inside-place i b t)

inside-sorted : (a : List Interval) (t : ℕ) → inside (sorted a) t ≡ inside a t
unfolding inside sorted
inside-sorted [] t = refl
inside-sorted (i ∷ a) t = ground (arith, inside-place i (sorted a) t, inside-sorted a t)

-- A time lies in the intersection of two lists of spans exactly if it lies in both.
pub inside-intersect :
    (a b : List Interval) (t : ℕ) → inside (intersect a b) t ≡ (inside a t && inside b t)
unfolding intersect
inside-intersect a b t = ground (arith, inside-sorted (meet a b) t, inside-meet a b t)

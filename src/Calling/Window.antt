-- ===== src/Calling/Window.antt =====
-- The calling window (backend/app/services/calling_window.py).
--
-- A time of day is a number of microseconds since midnight: the source adds the microseconds as a
-- fraction of a float, which orders times of day as these numbers do. An instant is a number of
-- microseconds since some epoch. A `ZoneInfo` is not code of the repository: it is a `Zone`, the
-- three readings of a clock that the module makes through it.
pub mod Inside
pub mod Bound
mod Spans
mod Search
pub mod Opening
pub mod Earliest
use ai_calling_agent.Common.{
  ℕ, zero, suc, ◌+◌, ◌*◌, ◌-◌, ◌/◌, ◌%◌, ◌<◌, min, max, Bool, true, false, ◌&&◌, ◌||◌, List, [],
  ◌∷◌, ◌++◌, map, Option, none, some, ltb, leb, ◌==◌, if◌then◌else◌, any, all,
}
use ai_calling_agent.Common.Result.{Result, ok, err, ◌>>=◌}

-- Microseconds since midnight, and since the epoch.
abbrev pub TimeOfDay : Type 0
TimeOfDay = ℕ

abbrev pub Time : Type 0
Time = ℕ

-- What a `ZoneInfo` says: the wall clock's time of day and day number at an instant, and the
-- instant at which the wall clock of a day shows a time.
pub record Zone : Type 0 where
  pub time_of : Time → TimeOfDay
  pub date_of : Time → ℕ
  pub instant : ℕ → TimeOfDay → Time

pub data WindowError : Type 0 where
  equal_ends invalid_timezone no_dialable_window : WindowError

-- `_DAY`, in microseconds.
abbrev pub day : ℕ
day = 86400 * 1000000

abbrev pub minute : ℕ
minute = 60 * 1000000

-- datetime.time
pub record ClockTime : Type 0 where
  pub hour : ℕ
  pub minute : ℕ
  pub second : ℕ
  pub microsecond : ℕ

-- `_seconds`
unfoldable pub seconds : ClockTime → TimeOfDay
seconds t = (t.hour * 3600 + t.minute * 60 + t.second) * 1000000 + t.microsecond

abbrev pub Interval : Type 0
Interval = ℕ × ℕ

-- `_intervals`: half-open, at most two.
unfoldable pub intervals : TimeOfDay → TimeOfDay → Result WindowError (List Interval)
intervals s e =
    if s == e
    then err equal_ends
    else if ltb s e
    then ok ((s, e) ∷ [])
    else ok ((s, day) ∷ (if ltb 0 e then (0, e) ∷ [] else []))

-- `any(s <= t < e for s, e in spans)`
unfoldable pub inside : List Interval → TimeOfDay → Bool
inside spans t = any (λ (i : Interval). leb i.0 t && ltb t i.1) spans

-- The comprehension of `_intersect`: for each span of the first list, those of the second.
unfoldable pub meet_one : Interval → List Interval → List Interval
meet_one i [] = []
meet_one i (j ∷ js) =
    let rest = meet_one i js in
    if ltb (max i.0 j.0) (min i.1 j.1) then (max i.0 j.0, min i.1 j.1) ∷ rest else rest

unfoldable pub meet : List Interval → List Interval → List Interval
meet [] bs = []
meet (a ∷ as') bs = meet_one a bs ++ meet as' bs

-- `sorted` on pairs, which compares the first components, then the second.
abbrev pub pair_leb : Interval → Interval → Bool
pair_leb a b = ltb a.0 b.0 || (a.0 == b.0 && leb a.1 b.1)

unfoldable pub place : Interval → List Interval → List Interval
place a [] = a ∷ []
place a (b ∷ bs) = if pair_leb a b then a ∷ b ∷ bs else b ∷ place a bs

unfoldable pub sorted : List Interval → List Interval
sorted [] = []
sorted (a ∷ as') = place a (sorted as')

-- `_intersect`
unfoldable pub intersect : List Interval → List Interval → List Interval
unfolding meet_one meet place sorted
intersect a b = sorted (meet a b)

module _ (z : Zone) where
  -- `now` is aware: an instant. (A naive datetime is refused before anything else.)
  unfoldable pub is_within_calling_window : Time → TimeOfDay → TimeOfDay → Result WindowError Bool
  is_within_calling_window now start end = do
    let t = z.time_of now
    spans ← intervals start end
    ok (inside spans t)

  -- `and` does not ask the hard bound once the campaign window is closed.
  unfoldable pub is_dialable_now :
      Time → TimeOfDay → TimeOfDay → TimeOfDay → TimeOfDay → Result WindowError Bool
  is_dialable_now now start end hard_start hard_end = do
    campaign_open ← is_within_calling_window now start end
    if campaign_open then is_within_calling_window now hard_start hard_end else ok false

unfoldable pub window_within_bound :
    TimeOfDay → TimeOfDay → TimeOfDay → TimeOfDay → Result WindowError Bool
window_within_bound start end hard_start hard_end = do
  bound ← intervals hard_start hard_end
  spans ← intervals start end
  ok (all (λ (i : Interval). any (λ (b : Interval). leb b.0 i.0 && leb i.1 b.1) bound) spans)

-- The inner loop of `next_window_open`: minute by minute until the test passes, 180 times at most.
unfoldable pub advance : (Time → Bool) → ℕ → Time → Time
advance test zero candidate = candidate
advance test (suc n) candidate =
    let later = advance test n (candidate + minute) in if test candidate then candidate else later

-- `candidate > now_utc and (best is None or candidate < best)`
abbrev pub better : Time → Time → Option Time → Option Time
better now candidate none = if ltb now candidate then some candidate else none
better now candidate (some best) =
    if ltb now candidate && ltb candidate best then some candidate else some best

module _ (z : Zone) (test : Time → Bool) (now : Time) where
  -- The loop over the open spans on one day.
  unfoldable pub try_spans : ℕ → List Interval → Option Time → Option Time
  try_spans date [] best = best
  try_spans date (span ∷ spans) best =
      try_spans date spans (better now (advance test 180 (z.instant date span.0)) best)

  -- The loop over the days, `rounds` of them from `date` on.
  unfoldable pub try_days : ℕ → ℕ → List Interval → Option Time → Option Time
  try_days date zero spans best = best
  try_days date (suc rounds) spans best =
      try_days (date + 1) rounds spans (try_spans date spans best)

-- The search behind the first test of `next_window_open`.
unfoldable pub first_opening : Zone → (Time → Bool) → Time → List Interval → Result WindowError Time
first_opening z test now [] = err no_dialable_window
first_opening z test now (span ∷ spans) =
    elim (try_days z test now (z.date_of now) 3 (span ∷ spans) none) [
      | none ↦ err no_dialable_window
      | some best ↦ ok best
    ]

-- `is_dialable_now`, with the intervals that it computes at each call computed once.
abbrev dialable_in : Zone → List Interval → List Interval → Time → Bool
dialable_in z spans bound u = inside spans (z.time_of u) && inside bound (z.time_of u)

unfoldable pub next_window_open :
    Zone → Time → TimeOfDay → TimeOfDay → TimeOfDay → TimeOfDay → Result WindowError Time
next_window_open z now start end hard_start hard_end = do
  open_now ← is_dialable_now z now start end hard_start hard_end
  if open_now then ok now else do
    spans ← intervals start end
    bound ← intervals hard_start hard_end
    first_opening z (dialable_in z spans bound) now (intersect spans bound)

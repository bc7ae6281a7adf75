-- ===== src/Calling/Window/Opening.antt =====
-- The next opening of the window is the earliest one, where the zone has a fixed offset.
use ai_calling_agent.Common.{
  ℕ, ◌+◌, ◌*◌, ◌/◌, ◌%◌, ◌<◌, ◌≤◌, true, false, List, [], ◌∷◌, Option, none, some, ltb, ◌≡◌, ◌⊎◌,
  inl, inr, refl, arith, In, All, Bool-cases, ltb→lt, ltb→ge,
}
use ai_calling_agent.Calling.Window.{
  Zone, Time, Interval, day, inside, intersect, try_days, dialable_in,
}
use ai_calling_agent.Calling.Window.Spans.{Proper, inside-In, inside_of_In, Proper-In}
use ai_calling_agent.Calling.Window.Search.{
  AtMost, Passes, Passes-try_days, AtMost-try_days_first, AtMost-try_days_second,
}
use ai_calling_agent.Calling.Window.Inside.{inside-intersect}

-- A zone whose wall clock runs at a fixed distance east of UTC. (One west of it is a distance
-- east of UTC on the day before.)
pub record IsFixed (z : Zone) (offset : ℕ) : Type 0 where
  pub time : (u : Time) → z.time_of u ≡ (u + offset) % day
  pub date : (u : Time) → z.date_of u ≡ (u + offset) / day
  pub clock : (d t : ℕ) → offset ≤ d * day + t → z.instant d t + offset ≡ d * day + t

module _ (z : Zone) (offset : ℕ) (fixed : IsFixed z offset) (spans bound : List Interval) where
  dialable-eq-inside :
      (u : Time) → dialable_in z spans bound u ≡ inside (intersect spans bound) ((u + offset) % day)
  dialable-eq-inside u = rw (inside-intersect, fixed.time u) refl

  time-instant : (d t : ℕ) → t < day → offset ≤ d * day + t → (z.instant d t + offset) % day ≡ t
  time-instant d t below h = omega (arith, fixed.clock d t h)

  -- The start of an open span passes the test, on every day after the epoch's first.
  start_passes :
      (d : ℕ) (i : Interval)
      → offset ≤ d * day
      → All Proper (intersect spans bound)
      → In i (intersect spans bound)
      → dialable_in z spans bound (z.instant d i.0) ≡ true
  start_passes d i late proper m =
      let p = Proper-In (intersect spans bound) i proper m in
      rw (dialable-eq-inside, time-instant d i.0 (omega arith) (omega arith))
        (inside_of_In (intersect spans bound) i i.0 m (omega arith) p.0)

  starts_pass :
      (d : ℕ) (rest : List Interval)
      → offset ≤ d * day
      → All Proper (intersect spans bound)
      → ((i : Interval) → In i rest → In i (intersect spans bound))
      → All (λ (i : Interval). dialable_in z spans bound (z.instant d i.0) ≡ true) rest
  starts_pass d [] late proper sub = tt
  starts_pass d (i ∷ rest) late proper sub = (
    start_passes d i late proper (sub i (inl refl)),
    starts_pass d rest late proper (λ j m. sub j (inr m)),
  )

  module _ (now : Time) (late : day ≤ now) (near : offset < day)
      (proper : All Proper (intersect spans bound)) where
    -- What the three days of attempts find.
    abbrev pub found : Option Time
    found =
        try_days z (dialable_in z spans bound) now (z.date_of now) 3 (intersect spans bound) none

    pub Passes-found : Passes (dialable_in z spans bound) now found
    Passes-found =
        Passes-try_days z (dialable_in z spans bound) now 3 (z.date_of now) (intersect spans bound)
          none
          (λ k later.
            starts_pass k (intersect spans bound) (omega (arith, fixed.date now)) proper (λ i m. m))
          tt

    -- The start of a span is found on the first day, or else on the second.
    AtMost-found_start :
        (i : Interval)
        → In i (intersect spans bound)
        → AtMost found (z.instant (z.date_of now) i.0)
          ⊎ ((z.instant (z.date_of now) i.0 ≤ now)
              × AtMost found (z.instant (z.date_of now + 1) i.0))
    AtMost-found_start i m =
        let p = Proper-In (intersect spans bound) i proper m in
        let today = start_passes (z.date_of now) i (omega (arith, fixed.date now)) proper m in
        let tomorrow =
          start_passes (z.date_of now + 1) i (omega (arith, fixed.date now)) proper m in
        elim (Bool-cases (ltb now (z.instant (z.date_of now) i.0))) [
          | inl ahead ↦ inl (
              AtMost-try_days_first z (dialable_in z spans bound) now 2 (z.date_of now)
                (intersect spans bound) none i m today (ground arith))
          | inr past ↦ inr (
            ground arith,
            AtMost-try_days_second z (dialable_in z spans bound) now 1 (z.date_of now)
                (intersect spans bound) none i m tomorrow
                (omega (
                  arith,
                  fixed.date now,
                  fixed.clock (z.date_of now + 1) i.0 (omega (arith, fixed.date now)),
                )),
          )
        ]

    AtMost-le : (best : Option Time) (c u : Time) → AtMost best c → c ≤ u → AtMost best u
    AtMost-le none c u h k = absurd h
    AtMost-le (some b) c u h k = omega arith

    AtMost-found-In :
        (u : Time) (i : Interval)
        → dialable_in z spans bound now ≡ false
        → now ≤ u
        → In i (intersect spans bound)
        → i.0 ≤ (u + offset) % day
        → (u + offset) % day < i.1
        → AtMost found u
    AtMost-found-In u i shut later m lo hi = elim (AtMost-found_start i m) [
      | inl first ↦ AtMost-le found (z.instant (z.date_of now) i.0) u first (
          omega (
            arith,
            fixed.date now,
            fixed.clock (z.date_of now) i.0 (omega (arith, fixed.date now)),
          ))
      | inr (past, second) ↦ elim (Bool-cases (ltb ((now + offset) % day) i.1)) [
        | inl within ↦ absurd (
            ground (
              arith,
              dialable-eq-inside now,
              inside_of_In (intersect spans bound) i ((now + offset) % day) m
                  (omega (
                    arith,
                    fixed.date now,
                    fixed.clock (z.date_of now) i.0 (omega (arith, fixed.date now)),
                  ))
                  (ltb→lt _ _ within),
            ))
        | inr over ↦ AtMost-le found (z.instant (z.date_of now + 1) i.0) u second (
            omega (
              arith,
              fixed.date now,
              ltb→ge _ _ over,
              fixed.clock (z.date_of now + 1) i.0 (omega (arith, fixed.date now)),
            ))
      ]
    ]

    -- While the window is shut now, no later instant at which it is open precedes what is found.
    pub AtMost-found :
        (u : Time)
        → dialable_in z spans bound now ≡ false
        → now ≤ u
        → dialable_in z spans bound u ≡ true
        → AtMost found u
    AtMost-found u shut later opened =
        let (i, m, lo, hi) =
          inside-In (intersect spans bound) ((u + offset) % day)
            (rw dialable-eq-inside at opened) in
        AtMost-found-In u i shut later m lo hi

    -- One span at least is enough for an opening.
    pub found-ne-none : (i : Interval) → In i (intersect spans bound) → found ≡ none → ⊥
    found-ne-none i m e = elim (AtMost-found_start i m) [
      | inl h ↦ rw e at h
      | inr (past, h) ↦ rw e at h
    ]

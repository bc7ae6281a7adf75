-- ===== src/Calling/Window/Earliest.antt =====
-- `next_window_open` returns the earliest instant at which the window is open, or says that there
-- is none, in a zone of fixed offset.
use ai_calling_agent.Common.{
  ℕ, ◌<◌, ◌≤◌, Bool, true, false, List, [], ◌∷◌, Option, none, some, ltb, ◌==◌, if◌then◌else◌, ◌≡◌,
  ◌≢◌, ◌⊎◌, inl, inr, refl, arith, In, All, Bool-cases, Option-cases,
}
use ai_calling_agent.Common.Result.{ok, err}
use ai_calling_agent.Calling.Window.{
  Zone, Time, TimeOfDay, Interval, no_dialable_window, day, intervals, inside, intersect,
  is_dialable_now, is_within_calling_window, try_days, first_opening, dialable_in, next_window_open,
}
use ai_calling_agent.Calling.Window.Spans.{Proper, Proper-intersect}
use ai_calling_agent.Calling.Window.Search.{AtMost, Passes}
use ai_calling_agent.Calling.Window.Inside.{inside-intersect}
use ai_calling_agent.Calling.Window.Opening.{
  IsFixed, found, Passes-found, AtMost-found, found-ne-none,
}

-- Ends that differ give spans that are not empty and lie within the day.
intervals-Proper :
    (s e : ℕ)
    → s ≢ e
    → s < day
    → e < day
    → (spans : List Interval) × (intervals s e ≡ ok spans) × All Proper spans
unfolding intervals
intervals-Proper s e differ s_day e_day = elim (Bool-cases (s == e)) [
  | inl same ↦ absurd (differ (ground arith))
  | inr different ↦ elim (Bool-cases (ltb s e)) [
    | inl ordinary ↦ ((s, e) ∷ [], rw (different, ordinary), ((ground arith, omega arith), tt))
    | inr overnight ↦ elim (Bool-cases (ltb 0 e)) [
      | inl early ↦ (
        (s, day) ∷ (0, e) ∷ [],
        rw (different, overnight, early),
        ((s_day, omega arith), ((ground arith, omega arith), tt)),
      )
      | inr midnight ↦
          ((s, day) ∷ [], rw (different, overnight, midnight), ((s_day, omega arith), tt))
    ]
  ]
]

module _ (z : Zone) (s e hs he : TimeOfDay) (spans bound : List Interval)
    (campaign : intervals s e ≡ ok spans) (hard : intervals hs he ≡ ok bound) where
  is_dialable_now-dialable_in :
      (u : Time) → is_dialable_now z u s e hs he ≡ ok (dialable_in z spans bound u)
  unfolding is_dialable_now is_within_calling_window
  is_dialable_now-dialable_in u = ground arith

  next_window_open-eq :
      (now : Time)
      → next_window_open z now s e hs he ≡ (
          if dialable_in z spans bound now
          then ok now
          else first_opening z (dialable_in z spans bound) now (intersect spans bound))
  unfolding next_window_open
  next_window_open-eq now = rw (is_dialable_now-dialable_in now, campaign, hard)

module _ (z : Zone) (test : Time → Bool) (now : Time) where
  first_opening_found :
      (spans : List Interval) {r : Time}
      → first_opening z test now spans ≡ ok r
      → try_days z test now (z.date_of now) 3 spans none ≡ some r
  unfolding first_opening
  first_opening_found [] h = cc
  first_opening_found (i ∷ spans) h = ground arith

  first_opening-none :
      (spans : List Interval)
      → ((i : Interval) → In i spans → try_days z test now (z.date_of now) 3 spans none ≢ none)
      → ((r : Time) × (first_opening z test now spans ≡ ok r))
        ⊎ ((first_opening z test now spans ≡ err no_dialable_window) × (spans ≡ []))
  unfolding first_opening
  first_opening-none [] h = inr (refl, refl)
  first_opening-none (i ∷ spans) h =
      elim (Option-cases (try_days z test now (z.date_of now) 3 (i ∷ spans) none)) [
        | inl e ↦ absurd (h i (inl refl) e)
        | inr (r, e) ↦ inl (r, rw (e, first_opening))
      ]

-- What the loops know of the instant that they return.
Passes-least :
    (test : Time → Bool) (now r : Time) (best : Option Time)
    → best ≡ some r
    → Passes test now best
    → ((u : Time) → now ≤ u → test u ≡ true → AtMost best u)
    → (now ≤ r) × (test r ≡ true) × ((u : Time) → now ≤ u → test u ≡ true → r ≤ u)
Passes-least test now r none e p least = cc
Passes-least test now r (some b) e p least =
    let same : b ≡ r = cc e in
    (omega arith, rw (← same) p.1, λ u later opened. rw (← same) (least u later opened))

module _ (z : Zone) (offset : ℕ) (fixed : IsFixed z offset) (near : offset < day) (now : Time)
    (late : day ≤ now) (s e hs he : TimeOfDay) (differ : s ≢ e) (s_day : s < day)
    (e_day : e < day) where
  earliest_of_spans :
      (spans bound : List Interval)
      → intervals s e ≡ ok spans
      → intervals hs he ≡ ok bound
      → All Proper spans
      → (r : Time) → next_window_open z now s e hs he ≡ ok r
      → (now ≤ r)
        × (dialable_in z spans bound r ≡ true)
        × ((u : Time) → now ≤ u → dialable_in z spans bound u ≡ true → r ≤ u)
  earliest_of_spans spans bound campaign hard proper r h =
      let eq = next_window_open-eq z s e hs he spans bound campaign hard now in
      elim (Bool-cases (dialable_in z spans bound now)) [
        | inl opened ↦
            let same : now ≡ r = ground (arith, eq) in
            (omega arith, rw (← same) opened, λ u later _. omega arith)
        | inr shut ↦
            let ahead = Proper-intersect spans bound proper in
            let hit =
              first_opening_found z (dialable_in z spans bound) now (intersect spans bound) {r = r}
                (ground (arith, eq)) in
            Passes-least (dialable_in z spans bound) now r
              (found z offset fixed spans bound now late near ahead) hit
              (Passes-found z offset fixed spans bound now late near ahead)
              (λ u later opened.
                AtMost-found z offset fixed spans bound now late near ahead u shut later opened)
      ]

  -- The window and the hard bound have no time in common.
  abbrev IsNever : Type 0
  IsNever = (u : Time) → is_dialable_now z u s e hs he ≡ ok false

  opening_of_spans :
      (spans bound : List Interval)
      → intervals s e ≡ ok spans
      → intervals hs he ≡ ok bound
      → All Proper spans
      → ((r : Time) × (next_window_open z now s e hs he ≡ ok r))
        ⊎ ((next_window_open z now s e hs he ≡ err no_dialable_window) × IsNever)
  opening_of_spans spans bound campaign hard proper =
      let ahead = Proper-intersect spans bound proper in
      elim (Bool-cases (dialable_in z spans bound now)) [
        | inl opened ↦
            inl (now, rw (next_window_open-eq z s e hs he spans bound campaign hard now, opened))
        | inr shut ↦
            elim (first_opening-none z (dialable_in z spans bound) now (intersect spans bound)
              (λ i m. found-ne-none z offset fixed spans bound now late near ahead i m)) [
                | inl (r, hit) ↦ inl (
                  r,
                  rw (next_window_open-eq z s e hs he spans bound campaign hard now, shut, hit),
                )
                | inr (miss, nothing) ↦ inr (
                  rw (next_window_open-eq z s e hs he spans bound campaign hard now, shut, miss),
                  λ u.
                      rw
                        (
                          is_dialable_now-dialable_in z s e hs he spans bound campaign hard u,
                          ← inside-intersect spans bound (z.time_of u),
                          nothing,
                        )
                        (unfold inside in refl),
                )
              ]
      ]

-- In a zone of fixed offset, and from the second day of the clock on: what `next_window_open`
-- returns is not before now, the window and the hard bound are open then, and they are open at no
-- instant from now up to then.
pub next_window_open_earliest :
    (z : Zone) (offset : ℕ)
    → IsFixed z offset
    → offset < day
    → (now : Time) → day ≤ now
    → (s e hs he : TimeOfDay) → s ≢ e
    → hs ≢ he
    → s < day
    → e < day
    → hs < day
    → he < day
    → (r : Time) → next_window_open z now s e hs he ≡ ok r
    → (now ≤ r)
      × (is_dialable_now z r s e hs he ≡ ok true)
      × ((u : Time) → now ≤ u → is_dialable_now z u s e hs he ≡ ok true → r ≤ u)
next_window_open_earliest z offset fixed near now late s e hs he differ hdiffer sd ed hsd hed r h =
    let (spans, campaign, proper) = intervals-Proper s e differ sd ed in
    let (bound, hard, _) = intervals-Proper hs he hdiffer hsd hed in
    let (after, opened, least) =
      earliest_of_spans z offset fixed near now late s e hs he differ sd ed spans bound campaign
        hard proper r h in
    let eq = is_dialable_now-dialable_in z s e hs he spans bound campaign hard in
    (after, rw (eq r, opened), λ u later o. least u later (ground (arith, eq u)))

-- In such a zone `next_window_open` always comes to an answer: an instant, or the refusal, which
-- it gives only where the window and the hard bound are open together at no instant at all.
pub next_window_open_total :
    (z : Zone) (offset : ℕ)
    → IsFixed z offset
    → offset < day
    → (now : Time) → day ≤ now
    → (s e hs he : TimeOfDay) → s ≢ e
    → hs ≢ he
    → s < day
    → e < day
    → hs < day
    → he < day
    → ((r : Time) × (next_window_open z now s e hs he ≡ ok r))
      ⊎ ((next_window_open z now s e hs he ≡ err no_dialable_window)
          × ((u : Time) → is_dialable_now z u s e hs he ≡ ok false))
next_window_open_total z offset fixed near now late s e hs he differ hdiffer sd ed hsd hed =
    let (spans, campaign, proper) = intervals-Proper s e differ sd ed in
    let (bound, hard, _) = intervals-Proper hs he hdiffer hsd hed in
    opening_of_spans z offset fixed near now late s e hs he differ sd ed spans bound campaign hard
      proper

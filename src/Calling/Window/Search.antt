-- ===== src/Calling/Window/Search.antt =====
-- The search loops of `next_window_open`: what the best opening so far is.
use ai_calling_agent.Common.{
  ℕ, zero, suc, ◌+◌, ◌<◌, ◌≤◌, Bool, true, ◌&&◌, List, [], ◌∷◌, Option, none, some, ltb, ◌≡◌, inl,
  inr, refl, arith, In, All, Bool-cases,
}
use ai_calling_agent.Calling.Window.{Zone, Time, Interval, advance, better, try_spans, try_days}

-- The best opening so far is at most `c`.
abbrev pub AtMost : Option Time → Time → Type 0
AtMost none c = ⊥
AtMost (some b) c = b ≤ c

-- The best opening so far, if any, is a later instant at which the test passes.
abbrev pub Passes : (Time → Bool) → Time → Option Time → Type 0
Passes test now none = Unit
Passes test now (some b) = (now < b) × (test b ≡ true)

advance_of_test : (test : Time → Bool) (n : ℕ) (c : Time) → test c ≡ true → advance test n c ≡ c
unfolding advance
advance_of_test test zero c h = refl
advance_of_test test (suc n) c h = rw h

AtMost-better :
    (now x : Time) (best : Option Time) (c : Time) → AtMost best c → AtMost (better now x best) c
AtMost-better now x none c h = absurd h
AtMost-better now x (some b) c h = ground arith

AtMost-better_new : (now x : Time) (best : Option Time) → now < x → AtMost (better now x best) x
AtMost-better_new now x none h = ground arith
AtMost-better_new now x (some b) h = ground arith

Passes-better :
    (test : Time → Bool) (now x : Time) (best : Option Time)
    → test x ≡ true
    → Passes test now best
    → Passes test now (better now x best)
Passes-better test now x none t h = elim (Bool-cases (ltb now x)) [
  | inl e ↦ rw e (ground arith, t)
  | inr e ↦ rw e tt
]
Passes-better test now x (some b) t h = elim (Bool-cases (ltb now x && ltb x b)) [
  | inl e ↦ rw e (ground arith, t)
  | inr e ↦ rw e h
]

module _ (z : Zone) (test : Time → Bool) (now : Time) where
  AtMost-try_spans :
      (d : ℕ) (spans : List Interval) (best : Option Time) (c : Time)
      → AtMost best c
      → AtMost (try_spans z test now d spans best) c
  unfolding try_spans
  AtMost-try_spans d [] best c h = h
  AtMost-try_spans d (i ∷ spans) best c h =
      AtMost-try_spans d spans (better now (advance test 180 (z.instant d i.0)) best) c
        (AtMost-better now (advance test 180 (z.instant d i.0)) best c h)

  AtMost-try_days :
      (n d : ℕ) (spans : List Interval) (best : Option Time) (c : Time)
      → AtMost best c
      → AtMost (try_days z test now d n spans best) c
  unfolding try_days
  AtMost-try_days zero d spans best c h = h
  AtMost-try_days (suc n) d spans best c h =
      AtMost-try_days n (d + 1) spans (try_spans z test now d spans best) c
        (AtMost-try_spans d spans best c h)

  -- A start that passes the test and lies ahead bounds the best opening.
  AtMost-try_spans_new :
      (d : ℕ) (spans : List Interval) (best : Option Time) (i : Interval)
      → In i spans
      → test (z.instant d i.0) ≡ true
      → now < z.instant d i.0
      → AtMost (try_spans z test now d spans best) (z.instant d i.0)
  unfolding try_spans
  AtMost-try_spans_new d [] best i m t h = elim m [ ]
  AtMost-try_spans_new d (j ∷ spans) best i (inl e) t h =
      AtMost-try_spans d spans (better now (advance test 180 (z.instant d j.0)) best)
        (z.instant d i.0)
        (rw (← e, advance_of_test test 180 (z.instant d i.0) t)
          (AtMost-better_new now (z.instant d i.0) best h))
  AtMost-try_spans_new d (j ∷ spans) best i (inr m) t h =
      AtMost-try_spans_new d spans (better now (advance test 180 (z.instant d j.0)) best) i m t h

  Passes-try_spans :
      (d : ℕ) (rest : List Interval) (best : Option Time)
      → All (λ (i : Interval). test (z.instant d i.0) ≡ true) rest
      → Passes test now best
      → Passes test now (try_spans z test now d rest best)
  unfolding try_spans
  Passes-try_spans d [] best ts h = h
  Passes-try_spans d (i ∷ rest) best ts h =
      Passes-try_spans d rest (better now (advance test 180 (z.instant d i.0)) best) ts.1 (
        rw (advance_of_test test 180 (z.instant d i.0) ts.0)
          (Passes-better test now (z.instant d i.0) best ts.0 h))

  -- After three days of attempts, as `next_window_open` makes them.
  pub Passes-try_days :
      (n d : ℕ) (spans : List Interval) (best : Option Time)
      → ((k : ℕ) → d ≤ k → All (λ (i : Interval). test (z.instant k i.0) ≡ true) spans)
      → Passes test now best
      → Passes test now (try_days z test now d n spans best)
  unfolding try_days
  Passes-try_days zero d spans best ts h = h
  Passes-try_days (suc n) d spans best ts h =
      Passes-try_days n (d + 1) spans (try_spans z test now d spans best)
        (λ k later. ts k (omega arith)) (Passes-try_spans d spans best (ts d (omega arith)) h)

  pub AtMost-try_days_first :
      (n d : ℕ) (spans : List Interval) (best : Option Time) (i : Interval)
      → In i spans
      → test (z.instant d i.0) ≡ true
      → now < z.instant d i.0
      → AtMost (try_days z test now d (suc n) spans best) (z.instant d i.0)
  unfolding try_days
  AtMost-try_days_first n d spans best i m t h =
      AtMost-try_days n (d + 1) spans (try_spans z test now d spans best) (z.instant d i.0)
        (AtMost-try_spans_new d spans best i m t h)

  pub AtMost-try_days_second :
      (n d : ℕ) (spans : List Interval) (best : Option Time) (i : Interval)
      → In i spans
      → test (z.instant (d + 1) i.0) ≡ true
      → now < z.instant (d + 1) i.0
      → AtMost (try_days z test now d (suc (suc n)) spans best) (z.instant (d + 1) i.0)
  unfolding try_days
  AtMost-try_days_second n d spans best i m t h =
      AtMost-try_days_first n (d + 1) spans (try_spans z test now d spans best) i m t h

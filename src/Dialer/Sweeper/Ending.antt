-- ===== src/Dialer/Sweeper/Ending.antt =====
-- Sweeps, one after the other.
use ai_calling_agent.Common.{
  ℕ, zero, suc, ◌-◌, ◌≤◌, ◌<◌, Bool, true, List, [], ◌∷◌, none, take, length, keep, length-take,
  ◌≡◌, refl, arith, ap, Bool-cases, inl, inr, ◌⊎◌, In,
}
use ai_calling_agent.Calling.Window.{Time}
use ai_calling_agent.Model.{CallAttempt, Db}
use ai_calling_agent.Dialer.Sweeper.{
  is_stuck, comes_first, place_by_age, by_age, stuck_attempts, mark_for_review, mark_all,
  sweep_stuck_attempts,
}
use ai_calling_agent.Dialer.Sweeper.Counting.{
  IsIndexed, IsIndexed-mark_all, stuck_count, stuck_count-mark_all, stuck_count-mark_lt,
}

In-place_by_age :
    (b a : CallAttempt) (rows : List CallAttempt) → In b (place_by_age a rows) → In b (a ∷ rows)
unfolding place_by_age
In-place_by_age b a [] h = h
In-place_by_age b a (c ∷ rows) h =
    let later = In-place_by_age b a rows in
    elim (Bool-cases (comes_first a c)) [
      | inl e ↦ rw e at h
      | inr e ↦ elim (rw e at h) as (λ _. In b (a ∷ c ∷ rows)) [
        | inl here ↦ inr (inl here)
        | inr there ↦ elim (later there) [ inl here ↦ inl here | inr old ↦ inr (inr old) ]
      ]
    ]

In-by_age : (b : CallAttempt) (rows : List CallAttempt) → In b (by_age rows) → In b rows
unfolding by_age
In-by_age b [] h = h
In-by_age b (a ∷ rows) h = elim (In-place_by_age b a (by_age rows) h) [
  | inl here ↦ inl here
  | inr there ↦ inr (In-by_age b rows there)
]

In-keep :
    (p : CallAttempt → Bool) (b : CallAttempt) (rows : List CallAttempt)
    → In b (keep p rows)
    → In b rows × (p b ≡ true)
In-keep p b [] h = absurd h
In-keep p b (a ∷ rows) h = elim (Bool-cases (p a)) [
  | inl e ↦ elim (rw e at h) as (λ _. In b (a ∷ rows) × (p b ≡ true)) [
    | inl here ↦ (inl here, rw here e)
    | inr there ↦ let rest = In-keep p b rows there in (inr rest.0, rest.1)
  ]
  | inr e ↦ let rest = In-keep p b rows (rw e at h) in (inr rest.0, rest.1)
]

length-place_by_age :
    (a : CallAttempt) (rows : List CallAttempt) → length (place_by_age a rows) ≡ suc (length rows)
unfolding place_by_age
length-place_by_age a [] = refl
length-place_by_age a (b ∷ rows) = let rest = length-place_by_age a rows in ground arith

length-by_age : (rows : List CallAttempt) → length (by_age rows) ≡ length rows
unfolding by_age
length-by_age [] = refl
length-by_age (a ∷ rows) = omega (arith, length-place_by_age a (by_age rows), length-by_age rows)

Rows-cases :
    (rows : List CallAttempt)
    → (rows ≡ []) ⊎ ((b : CallAttempt) × (more : List CallAttempt) × (rows ≡ b ∷ more))
Rows-cases [] = inl refl
Rows-cases (b ∷ more) = inr (b, more, refl)

module _ (now stuck_after : Time) (m : ℕ) where
  abbrev pub cutoff : Time
  cutoff = now - stuck_after

  abbrev sweep : Db → Db
  sweep db = (sweep_stuck_attempts now stuck_after (suc m) none db).0

  abbrev aged : Db → List CallAttempt
  aged db = by_age (keep (is_stuck cutoff db) db.attempts)

  sweep-rows :
      (db : Db) (b : CallAttempt) (more : List CallAttempt)
      → aged db ≡ b ∷ more
      → sweep db ≡ mark_all now (take m more) (mark_for_review now b db)
  unfolding sweep_stuck_attempts stuck_attempts mark_all
  sweep-rows db b more found =
      ap (λ (rows : List CallAttempt). mark_all now (take (suc m) rows) db) found

  -- A sweep with anything to do takes at least one attempt out.
  sweep-less :
      (db : Db)
      → IsIndexed db
      → 0 < stuck_count cutoff db
      → stuck_count cutoff (sweep db) < stuck_count cutoff db
  unfolding stuck_count
  sweep-less db indexed some_stuck =
      let size = length-by_age (keep (is_stuck cutoff db) db.attempts) in
      elim (Rows-cases (aged db)) [
        | inl none_aged ↦
            let empty : length (aged db) ≡ 0 =
              ap (λ (rows : List CallAttempt). length rows) none_aged in
            absurd (omega (arith, size, empty))
        | inr (b, more, found) ↦
            let there : In b (aged db) = rw found (inl refl) in
            let (own, stuck) =
              In-keep (is_stuck cutoff db) b db.attempts
                (In-by_age b (keep (is_stuck cutoff db) db.attempts) there) in
            let fewer = stuck_count-mark_lt cutoff now b db indexed own stuck in
            let rest = stuck_count-mark_all cutoff now (take m more) (mark_for_review now b db) in
            rw (sweep-rows db b more found) (unfold stuck_count in omega (arith, fewer, rest))
      ]

  IsIndexed-sweep : (db : Db) → IsIndexed db → IsIndexed (sweep db)
  unfolding sweep_stuck_attempts
  IsIndexed-sweep db indexed = IsIndexed-mark_all now (stuck_attempts cutoff (suc m) db) db indexed

  -- One call after the other.
  unfoldable pub sweeps : ℕ → Db → Db
  sweeps zero db = db
  sweeps (suc n) db = sweeps n (sweep db)

  sweep-fewer : (db : Db) → stuck_count cutoff (sweep db) ≤ stuck_count cutoff db
  unfolding sweep_stuck_attempts
  sweep-fewer db = stuck_count-mark_all cutoff now (stuck_attempts cutoff (suc m) db) db

  sweeps-count :
      (n : ℕ) (db : Db)
      → IsIndexed db
      → stuck_count cutoff db ≤ n
      → stuck_count cutoff (sweeps n db) ≡ 0
  unfolding sweeps
  sweeps-count zero db indexed enough = omega (arith, enough)
  sweeps-count (suc n) db indexed enough =
      let less = sweep-less db indexed in
      let fewer = sweep-fewer db in
      let next : stuck_count cutoff (sweep db) ≤ n = ground (arith, less, fewer) in
      sweeps-count n (sweep db) (IsIndexed-sweep db indexed) next

  actioned-none :
      (db : Db)
      → stuck_count cutoff db ≡ 0
      → (sweep_stuck_attempts now stuck_after (suc m) none db).1.actioned ≡ 0
  unfolding sweep_stuck_attempts stuck_attempts stuck_count
  actioned-none db none_stuck = omega (
    arith,
    length-take (suc m) (aged db),
    length-by_age (keep (is_stuck cutoff db) db.attempts),
    none_stuck,
  )

  -- Called again and again at one time, the sweep comes to an end: after as many calls as attempts
  -- are stuck, whatever the positive limit of a batch, none is stuck, and the next call reports that
  -- it has done nothing. No outbound control blocks the calls, and each contact's row stands under
  -- its id.
  pub sweeps_settle :
      (n : ℕ) (db : Db)
      → IsIndexed db
      → stuck_count cutoff db ≤ n
      → (stuck_count cutoff (sweeps n db) ≡ 0)
        × ((sweep_stuck_attempts now stuck_after (suc m) none (sweeps n db)).1.actioned ≡ 0)
  sweeps_settle n db indexed enough =
      let done = sweeps-count n db indexed enough in (done, actioned-none (sweeps n db) done)

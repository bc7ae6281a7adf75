-- ===== src/Calling/Window/Spans.antt =====
-- The spans of a window, and of the intersection of two.
use ai_calling_agent.Common.{
  ℕ, ◌<◌, ◌≤◌, min, max, true, ◌&&◌, List, [], ◌∷◌, ◌++◌, ltb, leb, ◌≡◌, inl, inr, refl, ap, arith,
  In, All, Bool-cases,
}
use ai_calling_agent.Calling.Window.{
  Interval, day, inside, meet_one, meet, place, sorted, intersect,
}

-- The spans that `_intersect` returns are not empty and end within the day.
abbrev pub Proper : Interval → Type 0
Proper i = (i.0 < i.1) × (i.1 ≤ day)

Proper-append : (a b : List Interval) → All Proper a → All Proper b → All Proper (a ++ b)
Proper-append [] b pa pb = pb
Proper-append (i ∷ a) b pa pb = (pa.0, Proper-append a b pa.1 pb)

Proper-meet_one : (i : Interval) (b : List Interval) → i.1 ≤ day → All Proper (meet_one i b)
unfolding meet_one
Proper-meet_one i [] h = tt
Proper-meet_one i (j ∷ b) h = elim (Bool-cases (ltb (max i.0 j.0) (min i.1 j.1))) [
  | inl e ↦ rw e ((ground arith, omega arith), Proper-meet_one i b h)
  | inr e ↦ rw e (Proper-meet_one i b h)
]

Proper-meet : (a b : List Interval) → All Proper a → All Proper (meet a b)
unfolding meet
Proper-meet [] b pa = tt
Proper-meet (i ∷ a) b pa =
    Proper-append (meet_one i b) (meet a b) (Proper-meet_one i b pa.0.1) (Proper-meet a b pa.1)

Proper-place : (i : Interval) (b : List Interval) → Proper i → All Proper b → All Proper (place i b)
unfolding place
Proper-place i [] pi pb = (pi, tt)
Proper-place i (j ∷ b) pi pb = ground (arith, Proper-place i b pi pb.1)

Proper-sorted : (a : List Interval) → All Proper a → All Proper (sorted a)
unfolding sorted
Proper-sorted [] pa = tt
Proper-sorted (i ∷ a) pa = Proper-place i (sorted a) pa.0 (Proper-sorted a pa.1)

pub Proper-intersect : (a b : List Interval) → All Proper a → All Proper (intersect a b)
unfolding intersect
Proper-intersect a b pa = Proper-sorted (meet a b) (Proper-meet a b pa)

-- A time inside a list of spans lies in one of them, and a span holds its own start.
pub inside-In :
    (spans : List Interval) (t : ℕ)
    → inside spans t ≡ true
    → (i : Interval) × (In i spans) × (i.0 ≤ t) × (t < i.1)
unfolding inside
inside-In [] t h = cc
inside-In (i ∷ spans) t h = elim (Bool-cases (leb i.0 t && ltb t i.1)) [
  | inl here ↦ (i, inl refl, ground arith, ground arith)
  | inr elsewhere ↦ let (j, m, lo, hi) = inside-In spans t (ground arith) in (j, inr m, lo, hi)
]

pub inside_of_In :
    (spans : List Interval) (i : Interval) (t : ℕ)
    → In i spans
    → i.0 ≤ t
    → t < i.1
    → inside spans t ≡ true
unfolding inside
inside_of_In [] i t m lo hi = elim m [ ]
inside_of_In (j ∷ spans) i t (inl e) lo hi =
    ground (arith, ap (λ (k : Interval). k.0) e, ap (λ (k : Interval). k.1) e)
inside_of_In (j ∷ spans) i t (inr m) lo hi = ground (arith, inside_of_In spans i t m lo hi)

pub Proper-In : (spans : List Interval) (i : Interval) → All Proper spans → In i spans → Proper i
Proper-In [] i p m = elim m [ ]
Proper-In (j ∷ spans) i p (inl e) = rw e p.0
Proper-In (j ∷ spans) i p (inr m) = Proper-In spans i p.1 m

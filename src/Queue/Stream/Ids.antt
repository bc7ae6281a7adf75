-- ===== src/Queue/Stream/Ids.antt =====
-- The ids and the payloads of a stream, and how the commands change them.
use ai_calling_agent.Common.{
  ℕ, ◌-◌, not, ◌&&◌, List, [], ◌∷◌, ◌++◌, some, ◌≡◌, ◌≢◌, ◌⊎◌, refl, ◌∙◌, ap, ltb, ◌==◌, keep,
  is_some, map, In, arith, Bool-cases, inl, inr, ==_iff,
}
use ai_calling_agent.Calling.Window.{Time}
use ai_calling_agent.Model.{Uuid}
use ai_calling_agent.Queue.Stream.{
  Fields, Message, DeadRow, deliver, is_stale, autoclaim, reset_one,
}

-- The payload under each id.
unfoldable pub view : List Message → List (ℕ × Fields)
view [] = []
view (m ∷ ms) = (m.id, m.fields) ∷ view ms

unfoldable pub buried : List DeadRow → List (ℕ × Fields)
buried [] = []
buried (d ∷ ds) = (d.original_id, d.raw) ∷ buried ds

pub In-append_left : {A : Type 0} (x : A) (xs ys : List A) → In x xs → In x (xs ++ ys)
In-append_left x [] ys i = absurd i
In-append_left x (y ∷ xs) ys (inl p) = inl p
In-append_left x (y ∷ xs) ys (inr i) = inr (In-append_left x xs ys i)

pub view-append : (ms ns : List Message) → view (ms ++ ns) ≡ (view ms ++ view ns)
unfolding view
view-append [] ns = refl
view-append (m ∷ ms) ns = ap (λ (v : List (ℕ × Fields)). (m.id, m.fields) ∷ v) (view-append ms ns)

pub buried-append : (ds es : List DeadRow) → buried (ds ++ es) ≡ (buried ds ++ buried es)
unfolding buried
buried-append [] es = refl
buried-append (d ∷ ds) es =
    ap (λ (v : List (ℕ × Fields)). (d.original_id, d.raw) ∷ v) (buried-append ds es)

pub In-last : {A : Type 0} (x : A) (xs : List A) → In x (xs ++ (x ∷ []))
In-last x [] = inl refl
In-last x (y ∷ xs) = inr (In-last x xs)

pub In-append : {A : Type 0} (x : A) (xs ys : List A) → In x (xs ++ ys) → In x xs ⊎ In x ys
In-append x [] ys i = inr i
In-append x (y ∷ xs) ys (inl p) = inl (inl p)
In-append x (y ∷ xs) ys (inr i) = elim (In-append x xs ys i) [ inl j ↦ inl (inr j) | inr j ↦ inr j ]

-- Reading and claiming change deliveries only.
pub view-deliver :
    (consumer : Uuid) (now : Time) (ms : List Message) → view (deliver consumer now ms).0 ≡ view ms
unfolding view deliver
view-deliver consumer now [] = refl
view-deliver consumer now (m ∷ ms) = elim (Bool-cases (is_some m.delivery)) [
  | inl read ↦ rw read (rw (view-deliver consumer now ms) refl)
  | inr unread ↦ rw unread refl
]

pub In-deliver :
    (consumer : Uuid) (now : Time) (ms : List Message) (m : Message)
    → (deliver consumer now ms).1 ≡ some m
    → In (m.id, m.fields) (view ms)
unfolding view deliver
In-deliver consumer now [] m h = cc
In-deliver consumer now (k ∷ ms) m h = elim (Bool-cases (is_some k.delivery)) [
  | inl read ↦ inr (In-deliver consumer now ms m (ground arith))
  | inr unread ↦ let at : m ≡ k = ground arith in inl (ap (λ (n : Message). (n.id, n.fields)) at)
]

pub view-autoclaim :
    (consumer : Uuid) (now idle : Time) (count : ℕ) (ms : List Message)
    → view (autoclaim consumer now idle count ms).0 ≡ view ms
unfolding view autoclaim
view-autoclaim consumer now idle count [] = refl
view-autoclaim consumer now idle count (m ∷ ms) =
    elim (Bool-cases (is_stale now idle m && ltb 0 count)) [
      | inl stale ↦ rw stale (rw (view-autoclaim consumer now idle (count - 1) ms) refl)
      | inr held ↦ rw held (rw (view-autoclaim consumer now idle count ms) refl)
    ]

pub In-autoclaim :
    (consumer : Uuid) (now idle : Time) (count : ℕ) (ms : List Message) (e : ℕ × Fields)
    → In e (view (autoclaim consumer now idle count ms).1)
    → In e (view ms)
unfolding view autoclaim
In-autoclaim consumer now idle count [] e i = absurd i
In-autoclaim consumer now idle count (m ∷ ms) e i =
    elim (Bool-cases (is_stale now idle m && ltb 0 count)) [
      | inl stale ↦ elim (rw stale at i) [
        | inl p ↦ inl p
        | inr j ↦ inr (In-autoclaim consumer now idle (count - 1) ms e j)
      ]
      | inr held ↦ inr (In-autoclaim consumer now idle count ms e (rw held at i))
    ]

pub view-reset :
    (hold : Uuid) (now : Time) (id : ℕ) (ms : List Message)
    → view (map (reset_one hold now id) ms) ≡ view ms
unfolding view reset_one
view-reset hold now id [] = refl
view-reset hold now id (m ∷ ms) = elim (Bool-cases ((m.id == id) && is_some m.delivery)) [
  | inl hit ↦ rw hit (rw (view-reset hold now id ms) refl)
  | inr miss ↦ rw miss (rw (view-reset hold now id ms) refl)
]

-- Removing one id keeps the entries of the others, and adds none.
abbrev pub without : ℕ → List Message → List Message
without id ms = keep (λ (m : Message). not (m.id == id)) ms

pub view-without_keeps :
    (id j : ℕ) (f : Fields) (ms : List Message)
    → j ≢ id
    → In (j, f) (view ms)
    → In (j, f) (view (without id ms))
unfolding view
view-without_keeps id j f [] other i = absurd i
view-without_keeps id j f (m ∷ ms) other i = elim (Bool-cases (m.id == id)) [
  | inl hit ↦ elim i [
    | inl p ↦ absurd (other (ap (λ (e : ℕ × Fields). e.0) p ∙ (==_iff m.id id).0 hit))
    | inr k ↦ rw hit (view-without_keeps id j f ms other k)
  ]
  | inr miss ↦ elim i [
    | inl p ↦ rw miss (inl p)
    | inr k ↦ rw miss (inr (view-without_keeps id j f ms other k))
  ]
]

pub In-without :
    (id : ℕ) (e : ℕ × Fields) (ms : List Message) → In e (view (without id ms)) → In e (view ms)
unfolding view
In-without id e [] i = absurd i
In-without id e (m ∷ ms) i = elim (Bool-cases (m.id == id)) [
  | inl hit ↦ inr (In-without id e ms (rw hit at i))
  | inr miss ↦ elim (rw miss at i) [ inl p ↦ inl p | inr k ↦ inr (In-without id e ms k) ]
]

-- ===== src/Queue/Stream/Conserved.antt =====
-- No job is lost: until it is acknowledged, an entry is in the stream or in the dead-letter stream.
use ai_calling_agent.Common.{
  ℕ, zero, suc, ◌+◌, ◌<◌, List, [], ◌∷◌, ◌++◌, none, ◌≡◌, ◌⊎◌, refl, sym, ◌∙◌, ap, ltb, ◌==◌, In,
  arith, Bool-cases, Option-cases, inl, inr, ==_iff, ==_refl,
}
use ai_calling_agent.Calling.Window.{Time}
use ai_calling_agent.Model.{Uuid}
use ai_calling_agent.Queue.Stream.{
  Fields, Message, Reason, malformed_payload, max_deliveries_exceeded, Stream, append, ack,
  dead_letter, deliver, parse, read_round, read_more, nothing_arrived, job_read, skipped,
  read_rounds, settle, times_of,
}
use ai_calling_agent.Queue.Stream.Ids.{
  view, buried, In-append_left, view-append, buried-append, In-last, In-append, view-deliver,
  In-deliver, view-without_keeps, In-without,
}

-- The entry of an id with its payload is in the stream, or in the dead-letter stream.
abbrev pub IsKept : ℕ → Fields → Stream → Type 0
IsKept id f s = In (id, f) (view s.messages) ⊎ In (id, f) (buried s.dead)

-- An id has one payload, and is below the next one.
pub record IsOrdered (s : Stream) : Type 0 where
  pub one_payload :
      (id : ℕ) (f g : Fields) → In (id, f) (view s.messages) → In (id, g) (view s.messages) → f ≡ g
  pub below : (id : ℕ) (f : Fields) → In (id, f) (view s.messages) → id < s.next_id

-- A step that loses nothing: the invariant holds after it, and what was kept is kept.
abbrev pub Loses : Stream → Stream → Type 0
Loses s s' = IsOrdered s' × ((id : ℕ) (f : Fields) → IsKept id f s → IsKept id f s')

-- Fewer or the same entries, with the next id as it was.
abbrev pub Within : Stream → Stream → Type 0
Within s s' =
    ((e : ℕ × Fields) → In e (view s'.messages) → In e (view s.messages)) × (s'.next_id ≡ s.next_id)

pub IsOrdered-Within : (s s' : Stream) → Within s s' → IsOrdered s → IsOrdered s'
IsOrdered-Within s s' w o = record {
  one_payload = λ id f g i j. o.one_payload id f g (w.0 (id, f) i) (w.0 (id, g) j);
  below = λ id f i. rw w.1 (o.below id f (w.0 (id, f) i));
}

-- The payload that goes to the dead-letter stream is the one that the stream has.
abbrev pub Agrees : ℕ → Fields → Stream → Type 0
Agrees id g s = (f : Fields) → In (id, f) (view s.messages) → f ≡ g

module _ (s : Stream) (i : ℕ) (g : Fields) (reason : Reason) (times : ℕ) where
  dead_letter-Within : Within s (dead_letter i g reason times s)
  unfolding dead_letter ack
  dead_letter-Within = (λ e k. In-without i e s.messages k, refl)

  dead_letter-IsKept :
      Agrees i g s
      → (id : ℕ) (f : Fields) → IsKept id f s
      → IsKept id f (dead_letter i g reason times s)
  unfolding dead_letter ack buried
  dead_letter-IsKept agrees id f (inr dead) = inr (rw buried-append (In-append_left _ _ _ dead))
  dead_letter-IsKept agrees id f (inl live) = elim (Bool-cases (id == i)) [
    | inr other ↦ inl (view-without_keeps i id f s.messages (λ p. cc (other, p, ==_refl i)) live)
    | inl here ↦
        let same_id = (==_iff id i).0 here in
        let same_payload = agrees f (rw (sym same_id) live) in
        inr (rw (buried-append, same_id, same_payload) (In-last (i, g) (buried s.dead)))
  ]

-- Deliveries change, payloads do not.
pub redelivery-Loses :
    (s : Stream) (messages : List Message)
    → view messages ≡ view s.messages
    → IsOrdered s
    → Loses s (record s { messages = messages })
redelivery-Loses s messages p o = (
  IsOrdered-Within s (record s { messages = messages }) (λ e i. rw p at i, refl) o,
  λ id f k. elim k [ inl live ↦ inl (rw p live) | inr dead ↦ inr dead ],
)

Loses-trans : (s t u : Stream) → Loses s t → Loses t u → Loses s u
Loses-trans s t u a b = (b.0, λ id f k. b.1 id f (a.1 id f k))

module _ (s : Stream) (o : IsOrdered s) (fields : Fields) where
  new_id :
      (id : ℕ) (f g : Fields)
      → In (id, f) (view s.messages)
      → In {A = ℕ × Fields} (id, g) ((s.next_id, fields) ∷ [])
      → ⊥
  new_id id f g a (inl p) = omega (arith, o.below id f a, ap (λ (e : ℕ × Fields). e.0) p)
  new_id id f g a (inr i) = i

module _ (s : Stream) (fields : Fields) where
  same_new :
      (id : ℕ) (f g : Fields)
      → In {A = ℕ × Fields} (id, f) ((s.next_id, fields) ∷ [])
      → In {A = ℕ × Fields} (id, g) ((s.next_id, fields) ∷ [])
      → f ≡ g
  same_new id f g (inl p) (inl q) =
      ap (λ (e : ℕ × Fields). e.1) p ∙ sym (ap (λ (e : ℕ × Fields). e.1) q)
  same_new id f g (inr i) b = absurd i
  same_new id f g (inl p) (inr i) = absurd i

  new_below :
      (id : ℕ) (f : Fields)
      → In {A = ℕ × Fields} (id, f) ((s.next_id, fields) ∷ [])
      → id < s.next_id + 1
  new_below id f (inl p) = omega (arith, ap (λ (e : ℕ × Fields). e.0) p)
  new_below id f (inr i) = absurd i

pub append-Loses : (fields : Fields) (s : Stream) → IsOrdered s → Loses s (append fields s)
unfolding append view
append-Loses fields s o =
    let new : Message = record { id = s.next_id; fields = fields; delivery = none } in
    let split : (e : ℕ × Fields)
        → In e (view (s.messages ++ (new ∷ [])))
        → In e (view s.messages) ⊎ In e ((s.next_id, fields) ∷ []) =
      λ e i. In-append e (view s.messages) _ (rw (view-append s.messages (new ∷ [])) at i) in
    (
      record {
        one_payload = λ id f g i j. elim (split (id, f) i) [
          | inl a ↦ elim (split (id, g) j) [
            | inl b ↦ o.one_payload id f g a b
            | inr b ↦ absurd (new_id s o fields id f g a b)
          ]
          | inr a ↦ elim (split (id, g) j) [
            | inl b ↦ absurd (new_id s o fields id g f b a)
            | inr b ↦ same_new s fields id f g a b
          ]
        ];
        below = λ id f i. elim (split (id, f) i) [
          | inl a ↦ omega (arith, o.below id f a)
          | inr b ↦ new_below s fields id f b
        ];
      },
      λ id f k. elim k [
        | inl live ↦ inl (rw (view-append s.messages (new ∷ [])) (In-append_left _ _ _ live))
        | inr dead ↦ inr dead
      ],
    )

module _ (consumer : Uuid) (now : Time) where
  pub read_round-Loses : (s : Stream) → IsOrdered s → Loses s (read_round consumer now s).0
  unfolding read_round
  read_round-Loses s o =
      let s1 = record s { messages = (deliver consumer now s.messages).0 } in
      let read = redelivery-Loses s s1.messages (view-deliver consumer now s.messages) o in
      elim (Option-cases (deliver consumer now s.messages).1) [
        | inl none_left ↦ rw (read_round, none_left) read
        | inr (m, found) ↦ elim (Option-cases (parse m.fields)) [
          | inr (job, readable) ↦ rw (read_round, found, readable) read
          | inl unreadable_text ↦
              rw (read_round, found, unreadable_text)
                (Loses-trans s s1 _ read (
                  IsOrdered-Within s1 _ (dead_letter-Within s1 m.id m.fields malformed_payload 1)
                      read.0,
                  dead_letter-IsKept s1 m.id m.fields malformed_payload 1 (λ f i.
                      o.one_payload m.id f m.fields (rw (view-deliver consumer now s.messages) at i)
                        (In-deliver consumer now s.messages m found)),
                ))
        ]
      ]

  pub read_rounds-Loses :
      (n : ℕ) (s : Stream) → IsOrdered s → Loses s (read_rounds n consumer now s).0
  unfolding read_rounds
  read_rounds-Loses zero s o = (o, λ id f k. k)
  read_rounds-Loses (suc n) s o =
      let here = read_round-Loses s o in
      let later =
        Loses-trans s _ _ here (read_rounds-Loses n (read_round consumer now s).0 here.0) in
      elim (read_round consumer now s).1
        as (λ r.
          Loses s
            (read_more ((read_round consumer now s).0, r)
              (read_rounds n consumer now (read_round consumer now s).0)).0) [
                | nothing_arrived ↦ here
                | job_read id job ↦ here
                | skipped ↦ later
              ]

unfoldable pub AllAgree : Stream → List Message → Type 0
AllAgree s ms = (m : Message) → In m ms → Agrees m.id m.fields s

pub settle-Loses :
    (most : ℕ) (ms : List Message) (s : Stream)
    → IsOrdered s
    → AllAgree s ms
    → Loses s (settle most ms s).0
unfolding settle AllAgree
settle-Loses most [] s o agree = (o, λ id f k. k)
settle-Loses most (m ∷ ms) s o agree =
    let bury = λ (reason : Reason). dead_letter m.id m.fields reason (times_of m) s in
    let gone : (reason : Reason) → Loses s (settle most ms (bury reason)).0 = λ reason.
      let within = dead_letter-Within s m.id m.fields reason (times_of m) in
      let ordered = IsOrdered-Within s (bury reason) within o in
      Loses-trans s (bury reason) _
        (ordered, dead_letter-IsKept s m.id m.fields reason (times_of m) (agree m (inl refl)))
        (settle-Loses most ms (bury reason) ordered
          (λ k i f j. agree k (inr i) f (within.0 (k.id, f) j))) in
    elim (Option-cases (parse m.fields)) [
      | inl unreadable_text ↦ rw (settle, unreadable_text) (gone malformed_payload)
      | inr (job, readable) ↦ elim (Bool-cases (ltb most (times_of m))) [
        | inl poison ↦ rw (settle, readable, poison) (gone max_deliveries_exceeded)
        | inr fine ↦ rw (settle, readable, fine) (settle-Loses most ms s o (λ k i. agree k (inr i)))
      ]
    ]

-- ===== src/Queue/Stream/Reading.antt =====
-- What `read_one` gives, and that its rounds are enough.
use ai_calling_agent.Common.{
  ℕ, zero, suc, ◌≤◌, ◌<◌, List, [], ◌∷◌, Option, none, some, ◌≡◌, refl, sym, ◌∙◌, ap, ◌==◌,
  if◌then◌else◌, length, is_some, In, arith, Bool-cases, Option-cases, inl, inr, ==_iff,
}
use ai_calling_agent.Calling.Window.{Time}
use ai_calling_agent.Model.{Uuid}
use ai_calling_agent.Queue.Job.{DialJob}
use ai_calling_agent.Queue.Stream.{
  Fields, Message, malformed_payload, Stream, ack, dead_letter, deliver, parse, read_round,
  nothing_arrived, job_read, skipped, read_rounds, read_one,
}
use ai_calling_agent.Queue.Stream.Ids.{view, without, view-deliver, In-deliver}
use ai_calling_agent.Queue.Stream.Conserved.{IsOrdered, read_round-Loses}

-- The job of the first entry that no consumer has read and that can be read.
unfoldable pub first_readable : List Message → Option (ℕ × DialJob)
first_readable [] = none
first_readable (m ∷ ms) =
    let rest = first_readable ms in
    if is_some m.delivery
    then rest
    else elim (parse m.fields) [ none ↦ rest | some job ↦ some (m.id, job) ]

unread : List Message → ℕ
unread [] = 0
unread (m ∷ ms) = let rest = unread ms in if is_some m.delivery then rest else suc rest

unread-le : (ms : List Message) → unread ms ≤ length ms
unfolding unread
unread-le [] = omega arith
unread-le (m ∷ ms) = ground (arith, unread-le ms)

unread-without : (id : ℕ) (ms : List Message) → unread (without id ms) ≤ unread ms
unfolding unread
unread-without id [] = omega arith
unread-without id (m ∷ ms) = ground (arith, unread-without id ms)

-- Removing an unreadable entry.
first_readable-without :
    (id : ℕ) (ms : List Message)
    → ((f : Fields) → In (id, f) (view ms) → parse f ≡ none)
    → first_readable (without id ms) ≡ first_readable ms
unfolding first_readable view
first_readable-without id [] h = refl
first_readable-without id (m ∷ ms) h =
    let later = first_readable-without id ms (λ f i. h f (inr i)) in
    elim (Bool-cases (m.id == id)) [
      | inr other ↦ rw other (ground (arith, later))
      | inl here ↦
          let text : parse m.fields ≡ none =
            h m.fields (inl (ap (λ (i : ℕ). (i, m.fields)) (sym ((==_iff m.id id).0 here)))) in
          rw (here, text, later) (ground arith)
    ]

module _ (consumer : Uuid) (now : Time) where
  deliver-none : (ms : List Message) → (deliver consumer now ms).1 ≡ none → first_readable ms ≡ none
  unfolding deliver first_readable
  deliver-none [] h = refl
  deliver-none (m ∷ ms) h = ground (arith, deliver-none ms)

  deliver_readable :
      (ms : List Message) (m : Message) (job : DialJob)
      → (deliver consumer now ms).1 ≡ some m
      → parse m.fields ≡ some job
      → first_readable ms ≡ some (m.id, job)
  unfolding deliver first_readable
  deliver_readable [] m job h p = cc
  deliver_readable (k ∷ ms) m job h p = elim (Bool-cases (is_some k.delivery)) [
    | inl read ↦ rw read (deliver_readable ms m job (ground arith) p)
    | inr free ↦
        let at : k ≡ m = ground arith in
        let text : parse k.fields ≡ some job = rw at p in
        rw (free, text) (ap (λ (n : Message). some (n.id, job)) at)
  ]

  deliver_unreadable :
      (ms : List Message) (m : Message)
      → (deliver consumer now ms).1 ≡ some m
      → parse m.fields ≡ none
      → (first_readable (deliver consumer now ms).0 ≡ first_readable ms)
        × (suc (unread (deliver consumer now ms).0) ≡ unread ms)
  unfolding deliver first_readable unread
  deliver_unreadable [] m h p = cc
  deliver_unreadable (k ∷ ms) m h p = elim (Bool-cases (is_some k.delivery)) [
    | inl read ↦
        let rest = deliver_unreadable ms m (ground arith) p in
        (rw read (rw read rest.0), rw read (rw read rest.1))
    | inr free ↦
        let at : k ≡ m = ground arith in
        let text : parse k.fields ≡ none = rw at p in (rw (free, text) refl, rw free refl)
  ]

  -- The three outcomes of a round.
  abbrev delivered : Stream → Stream
  delivered s = record s { messages = (deliver consumer now s.messages).0 }

  read_round-none :
      (s : Stream)
      → (deliver consumer now s.messages).1 ≡ none
      → read_round consumer now s ≡ (delivered s, nothing_arrived)
  unfolding read_round
  read_round-none s h = rw (read_round, h) refl

  read_round_readable :
      (s : Stream) (m : Message) (job : DialJob)
      → (deliver consumer now s.messages).1 ≡ some m
      → parse m.fields ≡ some job
      → read_round consumer now s ≡ (delivered s, job_read m.id job)
  unfolding read_round
  read_round_readable s m job h p = rw (read_round, h, p) refl

  read_round_unreadable :
      (s : Stream) (m : Message)
      → (deliver consumer now s.messages).1 ≡ some m
      → parse m.fields ≡ none
      → read_round consumer now s
        ≡ (dead_letter m.id m.fields malformed_payload 1 (delivered s), skipped)
  unfolding read_round
  read_round_unreadable s m h p = rw (read_round, h, p) refl

  read_rounds-eq-first_readable :
      (n : ℕ) (s : Stream)
      → IsOrdered s
      → unread s.messages < n
      → (read_rounds n consumer now s).1 ≡ first_readable s.messages
  unfolding read_rounds
  read_rounds-eq-first_readable zero s o h = absurd (omega (arith, h))
  read_rounds-eq-first_readable (suc n) s o h =
      elim (Option-cases (deliver consumer now s.messages).1) [
        | inl none_left ↦ rw (read_round-none s none_left) (sym (deliver-none s.messages none_left))
        | inr (m, found) ↦ elim (Option-cases (parse m.fields)) [
          | inr (job, readable) ↦
              rw (read_round_readable s m job found readable)
                (sym (deliver_readable s.messages m job found readable))
          | inl text ↦
              let ordered = (read_round-Loses consumer now s o).0 in
              let (same, fewer) = deliver_unreadable s.messages m found text in
              let s1 = delivered s in
              let after = read_round_unreadable s m found text in
              let unreadable_id : (f : Fields) → In (m.id, f) (view s1.messages) → parse f ≡ none =
                λ f i.
                  rw
                    (o.one_payload m.id f m.fields (rw (view-deliver consumer now s.messages) at i)
                      (In-deliver consumer now s.messages m found))
                    text in
              let removed : first_readable
                    (dead_letter m.id m.fields malformed_payload 1 s1).messages
                  ≡ first_readable s1.messages =
                unfold dead_letter ack in first_readable-without m.id s1.messages unreadable_id in
              let rest =
                read_rounds-eq-first_readable n (dead_letter m.id m.fields malformed_payload 1 s1)
                  (rw after at ordered)
                  (unfold dead_letter ack in
                    omega (arith, unread-without m.id s1.messages, fewer, h)) in
              rw after (rest ∙ (removed ∙ same))
        ]
      ]

  -- `read_one` gives the job of the first entry that no consumer has read and that is readable, and
  -- nothing only if there is none: the unreadable ones before it never block it, and the rounds that
  -- the loop is given are enough.
  pub read_one-eq-first_readable :
      (s : Stream) → IsOrdered s → (read_one consumer now s).1 ≡ first_readable s.messages
  unfolding read_one
  read_one-eq-first_readable s o =
      read_rounds-eq-first_readable (suc (length s.messages)) s o
        (omega (arith, unread-le s.messages))

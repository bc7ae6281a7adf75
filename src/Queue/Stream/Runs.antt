-- ===== src/Queue/Stream/Runs.antt =====
-- Runs of the operations of the queue by any workers, and what they keep.
use ai_calling_agent.Common.{
  ℕ, suc, Bool, false, List, [], ◌∷◌, ◌≡◌, refl, ap, leb, ◌==◌, length, map, In, All, Bool-cases,
  inl, inr, ==_refl,
}
use ai_calling_agent.Calling.Window.{Time}
use ai_calling_agent.Model.{Uuid}
use ai_calling_agent.Queue.Job.{DialJob, IdempotencyKey}
use ai_calling_agent.Queue.Stream.{
  Fields, job_fields, Message, Stream, enqueue, enqueue_once, guard_lives, ack, read_one,
  drain_dead_letters, autoclaim, reclaim_stale, reset_one, reset_deliveries,
}
use ai_calling_agent.Queue.Stream.Ids.{
  view, view-autoclaim, In-autoclaim, view-reset, view-without_keeps, In-without,
}
use ai_calling_agent.Queue.Stream.Conserved.{
  IsKept, IsOrdered, IsOrdered-Within, Loses, append-Loses, redelivery-Loses, read_rounds-Loses,
  settle-Loses, AllAgree,
}

pub data StreamOp : Type 0 where
  enqueue_op : DialJob → StreamOp
  enqueue_once_op : Time → Time → ℕ → IdempotencyKey → DialJob → StreamOp
  read_op : Uuid → Time → StreamOp
  ack_op : ℕ → StreamOp
  reclaim_op : ℕ → Uuid → Time → Time → ℕ → StreamOp
  reset_op : Uuid → Time → ℕ → StreamOp
  drain_op : StreamOp

module _ (same_key : IdempotencyKey → IdempotencyKey → Bool) where
  unfoldable pub perform : StreamOp → Stream → Stream
  perform (enqueue_op job) s = (enqueue job s).0
  perform (enqueue_once_op now ttl most key job) s =
      (enqueue_once same_key now ttl most key job s).0
  perform (read_op consumer now) s = (read_one consumer now s).0
  perform (ack_op id) s = ack id s
  perform (reclaim_op most consumer now idle count) s =
      (reclaim_stale most consumer now idle count s).0
  perform (reset_op hold now id) s = reset_deliveries hold now id s
  perform drain_op s = (drain_dead_letters s).0

  unfoldable pub perform_all : List StreamOp → Stream → Stream
  perform_all [] s = s
  perform_all (op ∷ ops) s = perform_all ops (perform op s)

-- The operation acknowledges the entry.
abbrev pub acks : ℕ → StreamOp → Bool
acks id (ack_op j) = j == id
acks id _ = false

In-view : (ms : List Message) (m : Message) → In m ms → In (m.id, m.fields) (view ms)
unfolding view
In-view [] m i = absurd i
In-view (k ∷ ms) m (inl p) = inl (ap (λ (n : Message). (n.id, n.fields)) p)
In-view (k ∷ ms) m (inr i) = inr (In-view ms m i)

module _ (s : Stream) (o : IsOrdered s) where
  reclaim-Loses :
      (most : ℕ) (consumer : Uuid) (now idle : Time) (count : ℕ)
      → Loses s (reclaim_stale most consumer now idle count s).0
  unfolding reclaim_stale AllAgree
  reclaim-Loses most consumer now idle count =
      let found = autoclaim consumer now idle count s.messages in
      let same = view-autoclaim consumer now idle count s.messages in
      let moved = redelivery-Loses s found.0 same o in
      let rest =
        settle-Loses most found.1 (record s { messages = found.0 }) moved.0
          (λ m i f j. o.one_payload m.id f m.fields (rw same at j) (
            In-autoclaim consumer now idle count s.messages (m.id, m.fields)
              (In-view found.1 m i))) in
      (rest.0, λ id f k. rest.1 id f (moved.1 id f k))

  ack-IsOrdered : (id : ℕ) → IsOrdered (ack id s)
  unfolding ack
  ack-IsOrdered id = IsOrdered-Within s (ack id s) (λ e i. In-without id e s.messages i, refl) o

  ack-IsKept : (id j : ℕ) (f : Fields) → (id == j) ≡ false → IsKept j f s → IsKept j f (ack id s)
  unfolding ack
  ack-IsKept id j f other (inr dead) = inr dead
  ack-IsKept id j f other (inl live) =
      inl (view-without_keeps id j f s.messages (λ p. cc (other, p, ==_refl id)) live)

  enqueue_once-Loses :
      (same_key : IdempotencyKey → IdempotencyKey → Bool) (now ttl : Time) (most : ℕ)
      (key : IdempotencyKey) (job : DialJob)
      → Loses s (enqueue_once same_key now ttl most key job s).0
  unfolding enqueue_once
  enqueue_once-Loses same_key now ttl most key job =
      elim (Bool-cases (guard_lives now (s.guards key))) [
        | inl guarded ↦ rw guarded (o, λ id f k. k)
        | inr free ↦ elim (Bool-cases (leb most (length s.messages))) [
          | inl full ↦ rw (free, full) (o, λ id f k. k)
          | inr room ↦
              let added = append-Loses (job_fields job) s o in
              rw (free, room)
                (
                  record { one_payload = added.0.one_payload; below = added.0.below },
                  λ id f k. added.1 id f k,
                )
        ]
      ]

module _ (same_key : IdempotencyKey → IdempotencyKey → Bool) (id : ℕ) (f : Fields) where
  perform-IsKept :
      (op : StreamOp) (s : Stream)
      → acks id op ≡ false
      → IsOrdered s
      → IsKept id f s
      → IsOrdered (perform same_key op s) × IsKept id f (perform same_key op s)
  unfolding perform enqueue read_one reset_deliveries drain_dead_letters
  perform-IsKept (enqueue_op job) s h o k =
      let l = append-Loses (job_fields job) s o in (l.0, l.1 id f k)
  perform-IsKept (enqueue_once_op now ttl most key job) s h o k =
      let l = enqueue_once-Loses s o same_key now ttl most key job in (l.0, l.1 id f k)
  perform-IsKept (read_op consumer now) s h o k =
      let l = read_rounds-Loses consumer now (suc (length s.messages)) s o in (l.0, l.1 id f k)
  perform-IsKept (ack_op j) s h o k = (ack-IsOrdered s o j, ack-IsKept s o j id f h k)
  perform-IsKept (reclaim_op most consumer now idle count) s h o k =
      let l = reclaim-Loses s o most consumer now idle count in (l.0, l.1 id f k)
  perform-IsKept (reset_op hold now j) s h o k =
      let l =
        redelivery-Loses s (map (reset_one hold now j) s.messages)
          (view-reset hold now j s.messages) o in
      (l.0, l.1 id f k)
  perform-IsKept drain_op s h o k = (record { one_payload = o.one_payload; below = o.below }, k)

  -- No job is lost: an entry that is in the stream, whatever any workers enqueue, read, reclaim, hold
  -- or acknowledge after that, is in the stream or in the dead-letter stream with its payload, unless
  -- one of them acknowledged it.
  pub perform_all-IsKept :
      (ops : List StreamOp) (s : Stream)
      → IsOrdered s
      → All (λ op. acks id op ≡ false) ops
      → IsKept id f s
      → IsKept id f (perform_all same_key ops s)
  unfolding perform_all
  perform_all-IsKept [] s o h k = k
  perform_all-IsKept (op ∷ ops) s o h k =
      let (o1, k1) = perform-IsKept op s h.0 o k in
      perform_all-IsKept ops (perform same_key op s) o1 h.1 k1

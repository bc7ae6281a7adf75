-- ===== src/Recovery/Dispatch/Lossless/Backed.antt =====
-- Which jobs of the stream stand behind its guards.
use ai_calling_agent.Common.{
  ℕ, Bool, true, false, ◌||◌, List, [], ◌∷◌, ◌++◌, none, any, ◌≡◌, refl, arith,
}
use ai_calling_agent.Calling.Window.{Time}
use ai_calling_agent.Queue.Job.{IdempotencyKey, DialJob, idempotency_key}
use ai_calling_agent.Queue.Stream.{
  Stream, Message, Fields, job_fields, unreadable, enqueue_once, guard_lives, append,
}

module _ (same_key : IdempotencyKey → IdempotencyKey → Bool) (now : Time) where
  -- A dial job of the key is in the stream.
  abbrev pub is_job_of : IdempotencyKey → Fields → Bool
  is_job_of k (job_fields job) = same_key k (idempotency_key job)
  is_job_of k (unreadable _) = false

  unfoldable pub is_queued : IdempotencyKey → Stream → Bool
  is_queued k stream = any (λ (m : Message). is_job_of k m.fields) stream.messages

  -- Each guard in force was in force before, or has a dial job of its key in the stream; and the
  -- stream keeps the dial jobs that it has.
  unfoldable pub IsBacked : Stream → Stream → Type 0
  IsBacked stream stream' =
      ((k : IdempotencyKey)
        → guard_lives now (stream'.guards k) ≡ true
        → (guard_lives now (stream.guards k) || is_queued k stream') ≡ true)
      × ((k : IdempotencyKey) → is_queued k stream ≡ true → is_queued k stream' ≡ true)

  pub IsBacked-refl : (stream : Stream) → IsBacked stream stream
  unfolding IsBacked
  IsBacked-refl stream = (λ k h. rw h refl, λ k h. h)

  pub IsBacked-trans : (a b c : Stream) → IsBacked a b → IsBacked b c → IsBacked a c
  unfolding IsBacked
  IsBacked-trans a b c p q = (
    λ k h. let first = p.0 k in let later = q.0 k h in let kept = q.1 k in ground arith,
    λ k h. q.1 k (p.1 k h),
  )

  any-append :
      (k : IdempotencyKey) (ms ns : List Message)
      → any (λ (m : Message). is_job_of k m.fields) (ms ++ ns) ≡ (
          any (λ (m : Message). is_job_of k m.fields) ms
          || any (λ (m : Message). is_job_of k m.fields) ns)
  any-append k [] ns = refl
  any-append k (m ∷ ms) ns = let rest = any-append k ms ns in ground arith

  pub enqueue_once-IsBacked :
      (ttl : Time) (max_backlog : ℕ) (job : DialJob) (stream : Stream)
      → IsBacked stream
          (enqueue_once same_key now ttl max_backlog (idempotency_key job) job stream).0
  unfolding IsBacked enqueue_once append is_queued
  enqueue_once-IsBacked ttl max_backlog job stream = (
    λ k h.
        let here =
          any-append k stream.messages
            (record { id = stream.next_id; fields = job_fields job; delivery = none } ∷ []) in
        ground arith,
    λ k h.
        let here =
          any-append k stream.messages
            (record { id = stream.next_id; fields = job_fields job; delivery = none } ∷ []) in
        ground arith,
  )

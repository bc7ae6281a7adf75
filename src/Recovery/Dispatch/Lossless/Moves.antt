-- ===== src/Recovery/Dispatch/Lossless/Moves.antt =====
-- The three things that happen to a claimed entry: it is dropped, it goes back into the schedule, or
-- a job of it is queued.
use ai_calling_agent.Common.{ℕ, ◌<◌, Bool, true, false, ◌≡◌, arith}
use ai_calling_agent.Calling.Window.{Time}
use ai_calling_agent.Model.{Db, Settings}
use ai_calling_agent.Phone.{PhoneLib}
use ai_calling_agent.Queue.Job.{IdempotencyKey, DialJob, Entry, Entry-discrete}
use ai_calling_agent.Queue.Stream.{
  Stream, enqueue_once, Admission, backlog_full, guard_lives, append,
}
use ai_calling_agent.Recovery.Dispatch.Retry.{Shared}
use ai_calling_agent.Recovery.Dispatch.Lossless.{key_of, is_kept, IsTouched, is_owed}
use ai_calling_agent.Recovery.Scheduler.{reschedule}
use ai_calling_agent.Recovery.Scheduler.Claims.{is_entry}
use ai_calling_agent.Redis.Zset.Laws.{score-add, same_refl}

abbrev pub is_full : Admission → Bool
is_full backlog_full = true
is_full _ = false

module _ (same_key : IdempotencyKey → IdempotencyKey → Bool)
    (same_key_refl : (k : IdempotencyKey) → same_key k k ≡ true) (now ttl : Time)
    (positive : 0 < ttl) (max_backlog : ℕ) (key : IdempotencyKey) (job : DialJob) (s : Stream) where
  abbrev enqueued : Stream × Admission
  enqueued = enqueue_once same_key now ttl max_backlog key job s

  -- No guard that lives ends, and unless the stream is full the key is guarded.
  pub enqueue_once-guards :
      ((k : IdempotencyKey)
        → guard_lives now (s.guards k) ≡ true
        → guard_lives now (enqueued.0.guards k) ≡ true)
      × (is_full enqueued.1 ≡ false → guard_lives now (enqueued.0.guards key) ≡ true)
  unfolding enqueue_once append
  enqueue_once-guards = let self = same_key_refl key in (λ k h. ground arith, λ h. ground arith)

module _ {Number : Type 0} (lib : PhoneLib Number) (s : Settings) (now : Time) where
  -- A claimed entry: the rows keep who is owed, other entries are kept, and so is this one if its
  -- call is owed.
  unfoldable pub IsFair : Entry → Shared → Shared → Type 0
  IsFair x sh after =
      IsTouched sh.db after.db
      × ((e : Entry) → is_entry x e ≡ false → is_kept now e sh ≡ true → is_kept now e after ≡ true)
      × (is_owed lib s sh.db x ≡ true → is_kept now x after ≡ true)

  pub dropped-IsFair :
      (x : Entry) (sh : Shared) (db' : Db)
      → IsTouched sh.db db'
      → is_owed lib s sh.db x ≡ false
      → IsFair x sh (record sh { db = db' })
  unfolding IsFair is_kept
  dropped-IsFair x sh db' touched unowed = (touched, λ e other kept. kept, λ h. absurd cc)

  -- No guard of the stream ends.
  abbrev pub IsGuarding : Stream → Stream → Type 0
  IsGuarding stream stream' =
      (k : IdempotencyKey)
      → guard_lives now (stream.guards k) ≡ true
      → guard_lives now (stream'.guards k) ≡ true

  pub later-IsFair :
      (x : Entry) (sh : Shared) (db' : Db) (stream : Stream) (due : Time)
      → IsTouched sh.db db'
      → IsGuarding sh.stream stream
      → IsFair x sh (record { db = db'; schedule = reschedule x due sh.schedule; stream = stream })
  unfolding IsFair is_kept reschedule
  later-IsFair x sh db' stream due touched others =
      let own = score-add Entry-discrete x x due sh.schedule in
      let self = same_refl Entry-discrete x in
      (
        touched,
        λ e other kept.
            let same_score = score-add Entry-discrete x e due sh.schedule in
            let lives = others (key_of e) in ground arith,
        λ h. ground arith,
      )

  pub queued-IsFair :
      (x : Entry) (sh : Shared) (db' : Db) (stream : Stream)
      → IsTouched sh.db db'
      → IsGuarding sh.stream stream
      → guard_lives now (stream.guards (key_of x)) ≡ true
      → IsFair x sh (record sh { db = db'; stream = stream })
  unfolding IsFair is_kept
  queued-IsFair x sh db' stream touched others own =
      (touched, λ e other kept. let lives = others (key_of e) in ground arith, λ h. ground arith)

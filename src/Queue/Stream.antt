-- ===== src/Queue/Stream.antt =====
-- The dial stream (backend/app/services/queue/redis_queue.py): a stream with one consumer group,
-- the guards of first attempts, and the dead-letter stream.
--
-- An entry is read or not: the ids grow, and a group is given entries in their order, so the unread
-- ones are those after its cursor. A read entry carries its row of the pending list. The text of a
-- job stands for the job that `DialJob.from_json` makes of it; any other text is unreadable.
pub mod Ids
pub mod Reading
pub mod Conserved
pub mod Runs
use ai_calling_agent.Common.{
  ℕ, zero, suc, ◌+◌, ◌-◌, Bool, true, false, not, ◌&&◌, ◌||◌, List, [], ◌∷◌, ◌++◌, Option, none,
  some, ltb, leb, ◌==◌, if◌then◌else◌, length, keep, is_some, take, map,
}
use ai_calling_agent.Common.Text.{Text}
use ai_calling_agent.Calling.Window.{Time}
use ai_calling_agent.Model.{Uuid}
use ai_calling_agent.Queue.Job.{DialJob, IdempotencyKey}

pub data Fields : Type 0 where
  job_fields : DialJob → Fields
  unreadable : Text → Fields

-- The row of the pending list of a read entry.
pub record Delivery : Type 0 where
  pub consumer : Uuid
  pub delivered_at : Time
  pub times_delivered : ℕ

pub record Message : Type 0 where
  pub id : ℕ
  pub fields : Fields
  pub delivery : Option Delivery

pub data Reason : Type 0 where
  malformed_payload max_deliveries_exceeded : Reason

-- An entry of the dead-letter stream.
pub record DeadRow : Type 0 where
  pub original_id : ℕ
  pub raw : Fields
  pub reason : Reason
  pub times_delivered : ℕ

-- `dead` is the dead-letter stream, `undrained` the list kept for the worker.
pub record Stream : Type 0 where
  pub messages : List Message
  pub next_id : ℕ
  pub dead : List DeadRow
  pub undrained : List DeadRow
  pub guards : IdempotencyKey → Option Time

-- `_parse`
abbrev pub parse : Fields → Option DialJob
parse (job_fields job) = some job
parse (unreadable _) = none

-- XADD
unfoldable pub append : Fields → Stream → Stream
append fields s = record s {
  messages = s.messages ++ (record { id = s.next_id; fields = fields; delivery = none } ∷ []);
  next_id = s.next_id + 1;
}

-- `enqueue`
unfoldable pub enqueue : DialJob → Stream → Stream × ℕ
enqueue job s = (append (job_fields job) s, s.next_id)

pub data Admission : Type 0 where
  queued already_guarded backlog_full : Admission

abbrev pub guard_lives : Time → Option Time → Bool
guard_lives now none = false
guard_lives now (some until) = ltb now until

-- `enqueue_once`, whose script is `_ENQUEUE_ONCE_LUA`.
module _ (same_key : IdempotencyKey → IdempotencyKey → Bool) where
  unfoldable pub enqueue_once :
      Time → Time → ℕ → IdempotencyKey → DialJob → Stream → Stream × Admission
  enqueue_once now ttl max_backlog guard_key job s =
      if guard_lives now (s.guards guard_key)
      then (s, already_guarded)
      else if leb max_backlog (length s.messages)
      then (s, backlog_full)
      else (
        record (append (job_fields job) s) {
          guards = λ k. if same_key k guard_key then some (now + ttl) else s.guards k;
        },
        queued,
      )

-- XACK and XDEL of one entry.
unfoldable pub ack : ℕ → Stream → Stream
ack message_id s = record s {
  messages = keep (λ (m : Message). not (m.id == message_id)) s.messages;
}

-- `_dead_letter`
unfoldable pub dead_letter : ℕ → Fields → Reason → ℕ → Stream → Stream
unfolding ack
dead_letter message_id fields reason times_delivered s =
    let row : DeadRow = record {
      original_id = message_id;
      raw = fields;
      reason = reason;
      times_delivered = times_delivered;
    } in
    ack message_id (record s { dead = s.dead ++ (row ∷ []); undrained = s.undrained ++ (row ∷ []) })

-- XREADGROUP with COUNT 1 and '>': the first unread entry, and the entries with it read.
unfoldable pub deliver : Uuid → Time → List Message → List Message × Option Message
deliver consumer now [] = ([], none)
deliver consumer now (m ∷ ms) =
    let (later, found) = deliver consumer now ms in
    if is_some m.delivery then (m ∷ later, found) else (
      record m {
        delivery = some (record { consumer = consumer; delivered_at = now; times_delivered = 1 });
      }
          ∷ ms,
      some m,
    )

-- What one round of `read_one` found.
pub data Round : Type 0 where
  nothing_arrived : Round
  job_read : ℕ → DialJob → Round
  skipped : Round

unfoldable pub read_round : Uuid → Time → Stream → Stream × Round
read_round consumer now s =
    let (messages, found) = deliver consumer now s.messages in
    let s1 = record s { messages = messages } in
    elim found [
      | none ↦ (s1, nothing_arrived)
      | some m ↦ elim (parse m.fields) [
        | some job ↦ (s1, job_read m.id job)
        | none ↦ (dead_letter m.id m.fields malformed_payload 1 s1, skipped)
      ]
    ]

abbrev pub read_more :
    Stream × Round → Stream × Option (ℕ × DialJob) → Stream × Option (ℕ × DialJob)
read_more (s, nothing_arrived) rest = (s, none)
read_more (s, job_read id job) rest = (s, some (id, job))
read_more (s, skipped) rest = rest

-- `read_one`: a round for each unread entry, and one that finds none, are enough.
unfoldable pub read_rounds : ℕ → Uuid → Time → Stream → Stream × Option (ℕ × DialJob)
read_rounds zero consumer now s = (s, none)
read_rounds (suc n) consumer now s =
    let round = read_round consumer now s in
    let rest = read_rounds n consumer now round.0 in read_more round rest

unfoldable pub read_one : Uuid → Time → Stream → Stream × Option (ℕ × DialJob)
read_one consumer now s = read_rounds (suc (length s.messages)) consumer now s

-- `drain_dead_letters`
unfoldable pub drain_dead_letters : Stream → Stream × List DeadRow
drain_dead_letters s = (record s { undrained = [] }, s.undrained)

-- XAUTOCLAIM: the first `count` entries that were read and then left for `idle` go to the consumer,
-- one delivery more each.
abbrev pub is_stale : Time → Time → Message → Bool
is_stale now idle m = elim m.delivery [ none ↦ false | some d ↦ leb (d.delivered_at + idle) now ]

abbrev pub redelivered : Uuid → Time → Message → Message
redelivered consumer now m = record m {
  delivery = elim m.delivery [
    | none ↦ none
    | some d ↦ some (record {
      consumer = consumer;
      delivered_at = now;
      times_delivered = d.times_delivered + 1;
    })
  ];
}

unfoldable pub autoclaim : Uuid → Time → Time → ℕ → List Message → List Message × List Message
autoclaim consumer now idle count [] = ([], [])
autoclaim consumer now idle count (m ∷ ms) =
    let stale = is_stale now idle m && ltb 0 count in
    let (rest, claimed) = autoclaim consumer now idle (if stale then count - 1 else count) ms in
    if stale
    then (redelivered consumer now m ∷ rest, redelivered consumer now m ∷ claimed)
    else (m ∷ rest, claimed)

-- `_times_delivered`, of an entry as it was claimed.
abbrev pub times_of : Message → ℕ
times_of m = elim m.delivery [ none ↦ 1 | some d ↦ d.times_delivered ]

-- The loop of `reclaim_stale` over the claimed entries.
unfoldable pub settle : ℕ → List Message → Stream → Stream × List (ℕ × DialJob)
settle max_deliveries [] s = (s, [])
settle max_deliveries (m ∷ ms) s = elim (parse m.fields) [
  | none ↦ settle max_deliveries ms (dead_letter m.id m.fields malformed_payload (times_of m) s)
  | some job ↦
      if ltb max_deliveries (times_of m)
      then settle max_deliveries ms
          (dead_letter m.id m.fields max_deliveries_exceeded (times_of m) s)
      else let (s1, ready) = settle max_deliveries ms s in (s1, (m.id, job) ∷ ready)
]

unfoldable pub reclaim_stale : ℕ → Uuid → Time → Time → ℕ → Stream → Stream × List (ℕ × DialJob)
reclaim_stale max_deliveries consumer now idle count s =
    let (messages, claimed) = autoclaim consumer now idle count s.messages in
    settle max_deliveries claimed (record s { messages = messages })

-- XCLAIM with RETRYCOUNT 0 and JUSTID.
unfoldable pub reset_one : Uuid → Time → ℕ → Message → Message
reset_one hold_consumer now message_id m =
    if (m.id == message_id) && is_some m.delivery
    then record m {
      delivery =
          some (record { consumer = hold_consumer; delivered_at = now; times_delivered = 0 });
    }
    else m

unfoldable pub reset_deliveries : Uuid → Time → ℕ → Stream → Stream
unfolding reset_one
reset_deliveries hold_consumer now message_id s = record s {
  messages = map (reset_one hold_consumer now message_id) s.messages;
}

-- ===== src/Queue/Lease/Client.antt =====
-- ConcurrencyLeaseStore (backend/app/services/queue/concurrency_lease.py): the calls of the three
-- scripts, where Redis may not answer. Logging and the count of reclaimed leases are left out.
use ai_calling_agent.Common.{ℕ, Bool, Option, none, ◌≡◌, ◌≢◌, refl}
use ai_calling_agent.Common.Result.{Result, ok, err}
use ai_calling_agent.Model.{Uuid}
use ai_calling_agent.Queue.Lease.{Leases, Lease, Limits, Rejection, acquire, renew, release}
use ai_calling_agent.Queue.Lease.Scores.{scores}
use ai_calling_agent.Queue.Lease.Atomic.{release_lem}

-- What becomes of a call: a reply, a script that ran without one, or no script.
pub data Reply : Type 0 where
  answered reply_lost unreachable : Reply

-- redis.RedisError
pub data RedisError : Type 0 where
  redis_error : RedisError

-- The state after a call, and what the caller sees.
abbrev pub called : {A : Type 0} → Reply → Leases → Leases × A → Leases × Result RedisError A
called answered l (l1, a) = (l1, ok a)
called reply_lost l (l1, a) = (l1, err redis_error)
called unreachable l (l1, a) = (l, err redis_error)

-- `_release_best_effort`
unfoldable pub release_best_effort : Reply → ℕ → Lease → Leases → Leases
release_best_effort reply now lease l = (called reply l (release now lease l)).0

abbrev pub cleaned_up :
    {A : Type 0} → (Leases → Leases) → Leases × Result RedisError A → Leases × Result RedisError A
cleaned_up clean (l, ok a) = (l, ok a)
cleaned_up clean (l, err e) = (clean l, err e)

module _ (ttl : ℕ) (limits : Limits) (worker : Uuid) where
  -- `acquire`; the lease carries the fresh id and what the caller names.
  unfoldable pub acquire_slot :
      Reply → Reply → ℕ → Lease → Leases → Leases × Result RedisError (Option Rejection)
  acquire_slot reply cleanup now lease l =
      cleaned_up (release_best_effort cleanup now lease)
        (called reply l (acquire ttl limits worker now lease l))

-- `renew` and `release`
unfoldable pub renew_slot : Reply → ℕ → ℕ → Lease → Leases → Leases × Result RedisError Bool
renew_slot reply ttl now lease l = called reply l (renew ttl now lease l)

unfoldable pub release_slot : Reply → ℕ → Lease → Leases → Leases × Result RedisError Bool
release_slot reply now lease l = called reply l (release now lease l)

-- A clean-up that reaches Redis takes the lease out of its sets.
release_best_effort-scores :
    (cleanup : Reply) (now : ℕ) (lease : Lease) (l : Leases)
    → cleanup ≢ unreachable
    → scores lease.lease_id lease (release_best_effort cleanup now lease l) ≡ (none, none, none)
unfolding release_best_effort
release_best_effort-scores answered now lease l reached = (release_lem now lease l).0
release_best_effort-scores reply_lost now lease l reached = (release_lem now lease l).0
release_best_effort-scores unreachable now lease l reached = absurd (reached refl)

-- An `acquire` that raises, whether its script ran or not, leaves the lease in none of its three
-- sets, if the clean-up that it makes reaches Redis.
pub acquire_slot-redis_error :
    (ttl : ℕ) (limits : Limits) (worker : Uuid) (reply cleanup : Reply) (now : ℕ) (lease : Lease)
    (l : Leases)
    → (acquire_slot ttl limits worker reply cleanup now lease l).1 ≡ err redis_error
    → cleanup ≢ unreachable
    → scores lease.lease_id lease (acquire_slot ttl limits worker reply cleanup now lease l).0
      ≡ (none, none, none)
unfolding acquire_slot
acquire_slot-redis_error ttl limits worker answered cleanup now lease l raised reached = cc
acquire_slot-redis_error ttl limits worker reply_lost cleanup now lease l raised reached =
    release_best_effort-scores cleanup now lease (acquire ttl limits worker now lease l).0 reached
acquire_slot-redis_error ttl limits worker unreachable cleanup now lease l raised reached =
    release_best_effort-scores cleanup now lease l reached

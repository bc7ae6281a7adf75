-- ===== src/Queue/Lease.antt =====
-- Concurrency leases (backend/app/services/queue/concurrency_lease.py): the three Lua scripts, each
-- atomic, over the sorted sets of the scopes and the holder keys.
--
-- The keys of the three kinds of scope differ by their prefixes, so each kind has a place of its
-- own. Times are milliseconds, as `TIME` gives them. A key with a TTL that has passed is gone
-- before a command sees it. A lease id is a random token, drawn by the caller.
pub mod Outcomes
pub mod Capacity
pub mod Scores
pub mod Atomic
pub mod Exclusive
pub mod Client
use native.Mathlib.Decide.{ℕ_discrete}
use ai_calling_agent.Common.{
  ℕ, zero, suc, ◌+◌, ◌-◌, Bool, true, false, not, ◌&&◌, ◌||◌, String, List, [], ◌∷◌, Option, none,
  some, ltb, leb, ◌==◌, if◌then◌else◌, length, is_some, str_eq,
}
use ai_calling_agent.Model.{Uuid}
use ai_calling_agent.Redis.Zset.{Zset, score, add, remove, expire_up_to}

-- A sorted set of leases with its key's deadline.
pub record ScopeSet : Type 0 where
  pub members : Zset ℕ
  pub deadline : ℕ

-- The holder record: `lease|live_until|acquired_at|worker`.
pub record Holder : Type 0 where
  pub lease : ℕ
  pub live_until : ℕ
  pub acquired_at : ℕ
  pub worker : Uuid

pub record Leases : Type 0 where
  pub global : ScopeSet
  pub campaigns : Uuid → ScopeSet
  pub providers : String → ScopeSet
  pub holders : Uuid → Option Holder

abbrev pub no_set : ScopeSet
no_set = record { members = []; deadline = 0 }

abbrev pub no_leases : Leases
no_leases = record {
  global = no_set;
  campaigns = λ _. no_set;
  providers = λ _. no_set;
  holders = λ _. none;
}

-- `ConcurrencyLease`
pub record Lease : Type 0 where
  pub lease_id : ℕ
  pub holder_id : Uuid
  pub campaign_id : Uuid
  pub provider_name : String

pub record Limits : Type 0 where
  pub global_limit : ℕ
  pub campaign_limit : ℕ
  pub provider_limit : ℕ

-- The reasons of a rejection, in the order of the checks.
pub data Rejection : Type 0 where
  duplicate_lease at_global at_campaign at_provider : Rejection

-- A key whose deadline has passed is not there.
unfoldable pub evict_set : ℕ → ScopeSet → ScopeSet
evict_set now s = if leb s.deadline now then no_set else s

evict_holder : ℕ → Option Holder → Option Holder
evict_holder now none = none
evict_holder now (some h) = if leb h.live_until now then none else some h

unfoldable pub evict : ℕ → Leases → Leases
unfolding evict_set evict_holder
evict now l = record {
  global = evict_set now l.global;
  campaigns = λ c. evict_set now (l.campaigns c);
  providers = λ p. evict_set now (l.providers p);
  holders = λ h. evict_holder now (l.holders h);
}

-- ZREMRANGEBYSCORE key -inf now
unfoldable pub drop_expired : ℕ → ScopeSet → ScopeSet
drop_expired now s = record s { members = expire_up_to now s.members }

-- ZADD key expires lease; PEXPIRE key ttl
unfoldable pub enter : ℕ → ℕ → ScopeSet → ScopeSet
enter lease expires s = record {
  members = add ℕ_discrete lease expires s.members;
  deadline = expires;
}

-- ZADD key XX expires lease; PEXPIRE key ttl
unfoldable pub extend : ℕ → ℕ → ScopeSet → ScopeSet
extend lease expires s = record {
  members =
      if is_some (score ℕ_discrete lease s.members)
      then add ℕ_discrete lease expires s.members
      else s.members;
  deadline = expires;
}

-- ZREM key lease
unfoldable pub leave : ℕ → ScopeSet → ScopeSet
leave lease s = record s { members = remove ℕ_discrete lease s.members }

abbrev pub holds : ℕ → ScopeSet → Bool
holds lease s = is_some (score ℕ_discrete lease s.members)

-- The three sets of a lease are changed in one way.
unfoldable pub change_scopes : (ScopeSet → ScopeSet) → Uuid → String → Leases → Leases
change_scopes f campaign provider l = record l {
  global = f l.global;
  campaigns = λ c. if c == campaign then f (l.campaigns c) else l.campaigns c;
  providers = λ p. if str_eq p provider then f (l.providers p) else l.providers p;
}

unfoldable pub set_holder : Uuid → Option Holder → Leases → Leases
set_holder holder h l = record l { holders = λ i. if i == holder then h else l.holders i }

abbrev pub is_live : ℕ → Option Holder → Bool
is_live now none = false
is_live now (some h) = ltb now h.live_until

module _ (ttl : ℕ) (limits : Limits) (worker : Uuid) where
  -- The part of the script that follows the clean-up.
  unfoldable pub admit : ℕ → Lease → Leases → Leases × Option Rejection
  admit now lease l =
      if is_live now (l.holders lease.holder_id)
      then (l, some duplicate_lease)
      else if leb limits.global_limit (length l.global.members)
      then (l, some at_global)
      else if leb limits.campaign_limit (length (l.campaigns lease.campaign_id).members)
      then (l, some at_campaign)
      else if leb limits.provider_limit (length (l.providers lease.provider_name).members)
      then (l, some at_provider)
      else (
        set_holder lease.holder_id
            (some (record {
              lease = lease.lease_id;
              live_until = now + ttl;
              acquired_at = now;
              worker = worker;
            }))
            (change_scopes (enter lease.lease_id (now + ttl)) lease.campaign_id lease.provider_name
              l),
        none,
      )

  -- `_ACQUIRE_LUA`: no rejection means that the lease was taken.
  unfoldable pub acquire : ℕ → Lease → Leases → Leases × Option Rejection
  acquire now lease l =
      admit now lease
        (change_scopes (drop_expired now) lease.campaign_id lease.provider_name (evict now l))

-- `not score or tonumber(score) <= now` fails
abbrev pub live_in : ℕ → ℕ → ScopeSet → Bool
live_in now lease s = elim (score ℕ_discrete lease s.members) [ none ↦ false | some e ↦ ltb now e ]

pub names_lease : ℕ → Option Holder → Bool
names_lease lease none = false
names_lease lease (some h) = h.lease == lease

abbrev pub with_deadline : ℕ → Option Holder → Option Holder
with_deadline expires none = none
with_deadline expires (some h) = some (record h { live_until = expires })

-- `_RENEW_LUA`
unfoldable pub renew : ℕ → ℕ → Lease → Leases → Leases × Bool
unfolding names_lease
renew ttl now lease l0 =
    let l = evict now l0 in
    let id = lease.lease_id in
    if not (
      live_in now id l.global
      && live_in now id (l.campaigns lease.campaign_id)
      && live_in now id (l.providers lease.provider_name))
    then (l, false)
    else let l1 = change_scopes (extend id (now + ttl)) lease.campaign_id lease.provider_name l in
      (
        (if names_lease id (l.holders lease.holder_id)
            then set_holder lease.holder_id (with_deadline (now + ttl) (l.holders lease.holder_id))
                l1
            else l1),
        true,
      )

-- `_RELEASE_LUA`, and whether any of the sets still held the lease.
unfoldable pub release : ℕ → Lease → Leases → Leases × Bool
unfolding names_lease
release now lease l0 =
    let l = evict now l0 in
    let id = lease.lease_id in
    let held =
      holds id l.global
      || holds id (l.campaigns lease.campaign_id)
      || holds id (l.providers lease.provider_name) in
    let l1 = change_scopes (leave id) lease.campaign_id lease.provider_name l in
    (
      (if names_lease id (l.holders lease.holder_id)
          then set_holder lease.holder_id none l1
          else l1),
      held,
    )

-- What any number of workers do, one script after another.
pub data Op : Type 0 where
  acquire_op : Uuid → Lease → Op
  renew_op : Lease → Op
  release_op : Lease → Op

module _ (ttl : ℕ) (limits : Limits) where
  unfoldable pub step : ℕ → Op → Leases → Leases
  step now (acquire_op worker lease) l = (acquire ttl limits worker now lease l).0
  step now (renew_op lease) l = (renew ttl now lease l).0
  step now (release_op lease) l = (release now lease l).0

  unfoldable pub run : List (ℕ × Op) → Leases → Leases
  run [] l = l
  run ((now, op) ∷ ops) l = run ops (step now op l)

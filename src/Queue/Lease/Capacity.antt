-- ===== src/Queue/Lease/Capacity.antt =====
-- No scope ever has more leases than its limit.
use native.Mathlib.Decide.{ℕ_discrete}
use ai_calling_agent.Common.{
  ℕ, suc, ◌+◌, ◌≤◌, ◌<◌, String, List, [], ◌∷◌, Option, none, some, ◌==◌, length, str_eq, arith,
  Bool-cases, Option-cases, inl, inr, ==_iff,
}
use text.Mathlib.TextEquality.{eq_iff}
use ai_calling_agent.Model.{Uuid}
use ai_calling_agent.Redis.Zset.Sizes.{
  length-add, length-add_known, length-remove, length-expire_up_to,
}
use ai_calling_agent.Queue.Lease.Outcomes.{
  new_holder, update_holder, admit_taken, admit_refused, renew_live, renew_dead, release-eq,
}
use ai_calling_agent.Queue.Lease.{
  ScopeSet, Holder, Leases, names_lease, with_deadline, Lease, Limits, evict_set, evict,
  drop_expired, enter, extend, leave, change_scopes, set_holder, admit, acquire, renew, release,
  step, run, Op, acquire_op, renew_op, release_op,
}

-- A set within a limit.
abbrev Fits : ℕ → ScopeSet → Type 0
Fits limit s = length s.members ≤ limit

-- Every scope within its limit.
pub record IsWithin (limits : Limits) (l : Leases) : Type 0 where
  pub global_fits : length l.global.members ≤ limits.global_limit
  pub campaign_fits : (c : Uuid) → length (l.campaigns c).members ≤ limits.campaign_limit
  pub provider_fits : (p : String) → length (l.providers p).members ≤ limits.provider_limit

-- A change of a set that adds nothing.
Shrinks : (ScopeSet → ScopeSet) → Type 0
Shrinks f = (s : ScopeSet) → length (f s).members ≤ length s.members

evict_set-Shrinks : (now : ℕ) → Shrinks (evict_set now)
unfolding Shrinks evict_set
evict_set-Shrinks now s = ground arith

drop_expired-Shrinks : (now : ℕ) → Shrinks (drop_expired now)
unfolding Shrinks drop_expired
drop_expired-Shrinks now s = length-expire_up_to now s.members

extend-Shrinks : (lease expires : ℕ) → Shrinks (extend lease expires)
unfolding Shrinks extend
extend-Shrinks lease expires s = ground (arith, length-add_known ℕ_discrete lease expires s.members)

leave-Shrinks : (lease : ℕ) → Shrinks (leave lease)
unfolding Shrinks leave
leave-Shrinks lease s = length-remove ℕ_discrete lease s.members

length-enter :
    (lease expires : ℕ) (s : ScopeSet)
    → length (enter lease expires s).members ≤ suc (length s.members)
unfolding enter
length-enter lease expires s = length-add ℕ_discrete lease expires s.members

module _ (limits : Limits) where
  IsWithin-evict : (now : ℕ) (l : Leases) → IsWithin limits l → IsWithin limits (evict now l)
  unfolding evict Shrinks
  IsWithin-evict now l w = record {
    global_fits = omega (arith, evict_set-Shrinks now l.global, w.global_fits);
    campaign_fits = λ c. omega (arith, evict_set-Shrinks now (l.campaigns c), w.campaign_fits c);
    provider_fits = λ p. omega (arith, evict_set-Shrinks now (l.providers p), w.provider_fits p);
  }

  IsWithin-change_scopes :
      (f : ScopeSet → ScopeSet) (campaign : Uuid) (provider : String) (l : Leases)
      → Shrinks f
      → IsWithin limits l
      → IsWithin limits (change_scopes f campaign provider l)
  unfolding change_scopes Shrinks
  IsWithin-change_scopes f campaign provider l shrinks w = record {
    global_fits = omega (arith, shrinks l.global, w.global_fits);
    campaign_fits = λ c. ground (arith, shrinks (l.campaigns c), w.campaign_fits c);
    provider_fits = λ p. ground (arith, shrinks (l.providers p), w.provider_fits p);
  }

  IsWithin-set_holder :
      (holder : Uuid) (h : Option Holder) (l : Leases)
      → IsWithin limits l
      → IsWithin limits (set_holder holder h l)
  unfolding set_holder
  IsWithin-set_holder holder h l w = record {
    global_fits = w.global_fits;
    campaign_fits = w.campaign_fits;
    provider_fits = w.provider_fits;
  }

  IsWithin-update_holder :
      (lease holder : ℕ) (f : Option Holder → Option Holder) (l : Leases)
      → IsWithin limits l
      → IsWithin limits (update_holder lease holder f l)
  unfolding update_holder
  IsWithin-update_holder lease holder f l w =
      elim (Bool-cases (names_lease lease (l.holders holder))) [
        | inl own ↦ rw own (IsWithin-set_holder holder (f (l.holders holder)) l w)
        | inr other ↦ rw other w
      ]

  IsWithin-enter :
      (lease expires : ℕ) (campaign : Uuid) (provider : String) (l : Leases)
      → length l.global.members < limits.global_limit
      → length (l.campaigns campaign).members < limits.campaign_limit
      → length (l.providers provider).members < limits.provider_limit
      → IsWithin limits l
      → IsWithin limits (change_scopes (enter lease expires) campaign provider l)
  unfolding change_scopes
  IsWithin-enter lease expires campaign provider l g cs ps w = record {
    global_fits = omega (arith, length-enter lease expires l.global, g);
    campaign_fits = λ c. elim (Bool-cases (c == campaign)) [
      | inl at ↦
          rw (at, (==_iff c campaign).0 at)
            (omega (arith, length-enter lease expires (l.campaigns campaign), cs))
      | inr off ↦ rw off (w.campaign_fits c)
    ];
    provider_fits = λ p. elim (Bool-cases (str_eq p provider)) [
      | inl at ↦
          rw (at, (eq_iff p provider).0 at)
            (omega (arith, length-enter lease expires (l.providers provider), ps))
      | inr off ↦ rw off (w.provider_fits p)
    ];
  }

  module _ (ttl : ℕ) where
    IsWithin-admit :
        (worker : Uuid) (now : ℕ) (lease : Lease) (l : Leases)
        → IsWithin limits l
        → IsWithin limits (admit ttl limits worker now lease l).0
    IsWithin-admit worker now lease l w =
        elim (Option-cases (admit ttl limits worker now lease l).1) [
          | inl taken ↦
              let (g, c, p, _, after) = admit_taken ttl limits worker now lease l taken in
              rw after (
                IsWithin-set_holder lease.holder_id
                  (some (new_holder ttl limits worker now lease l))
                  (change_scopes (enter lease.lease_id (now + ttl)) lease.campaign_id
                    lease.provider_name l)
                  (IsWithin-enter lease.lease_id (now + ttl) lease.campaign_id lease.provider_name l
                    g c p w))
          | inr (reason, refused) ↦
              rw (admit_refused ttl limits worker now lease l reason refused) w
        ]

    IsWithin-renew :
        (now : ℕ) (lease : Lease) (l : Leases)
        → IsWithin limits l
        → IsWithin limits (renew ttl now lease l).0
    IsWithin-renew now lease l w =
        let clean = IsWithin-evict now l w in
        let longer =
          IsWithin-change_scopes (extend lease.lease_id (now + ttl)) lease.campaign_id
            lease.provider_name (evict now l) (extend-Shrinks lease.lease_id (now + ttl)) clean in
        elim (Bool-cases (renew ttl now lease l).1) [
          | inl live ↦ rw (renew_live ttl now lease l live) (
              IsWithin-update_holder lease.lease_id lease.holder_id (with_deadline (now + ttl)) _
                longer)
          | inr dead ↦ rw (renew_dead ttl now lease l dead) clean
        ]

    IsWithin-release :
        (now : ℕ) (lease : Lease) (l : Leases)
        → IsWithin limits l
        → IsWithin limits (release now lease l).0
    IsWithin-release now lease l w =
        let fewer =
          IsWithin-change_scopes (leave lease.lease_id) lease.campaign_id lease.provider_name
            (evict now l) (leave-Shrinks lease.lease_id) (IsWithin-evict now l w) in
        rw (release-eq now lease l)
          (IsWithin-update_holder lease.lease_id lease.holder_id (λ _. none) _ fewer)

    IsWithin-step :
        (now : ℕ) (op : Op) (l : Leases)
        → IsWithin limits l
        → IsWithin limits (step ttl limits now op l)
    unfolding step acquire
    IsWithin-step now (acquire_op worker lease) l w = IsWithin-admit worker now lease _ (
        IsWithin-change_scopes (drop_expired now) lease.campaign_id lease.provider_name
          (evict now l) (drop_expired-Shrinks now) (IsWithin-evict now l w))
    IsWithin-step now (renew_op lease) l w = IsWithin-renew now lease l w
    IsWithin-step now (release_op lease) l w = IsWithin-release now lease l w

    -- Whatever any number of workers acquire, renew and release, one script after another and at
    -- whatever times: no scope ever has more leases than its limit.
    pub run-IsWithin :
        (ops : List (ℕ × Op)) (l : Leases)
        → IsWithin limits l
        → IsWithin limits (run ttl limits ops l)
    unfolding run
    run-IsWithin [] l w = w
    run-IsWithin ((now, op) ∷ ops) l w =
        run-IsWithin ops (step ttl limits now op l) (IsWithin-step now op l w)

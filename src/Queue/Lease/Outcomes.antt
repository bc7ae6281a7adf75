-- ===== src/Queue/Lease/Outcomes.antt =====
-- What each script leaves, by its answer.
use ai_calling_agent.Common.{
  ℕ, ◌+◌, ◌<◌, true, false, Option, none, some, ◌≡◌, refl, if◌then◌else◌, length, arith,
}
use ai_calling_agent.Model.{Uuid}
use ai_calling_agent.Queue.Lease.{
  Holder, Leases, Lease, Limits, Rejection, evict, enter, extend, leave, is_live, names_lease,
  with_deadline, change_scopes, set_holder, admit, renew, release,
}

-- A change of the holder record, if it names the lease.
unfoldable pub update_holder : ℕ → Uuid → (Option Holder → Option Holder) → Leases → Leases
update_holder lease holder f l =
    if names_lease lease (l.holders holder) then set_holder holder (f (l.holders holder)) l else l

module _ (ttl : ℕ) (limits : Limits) (worker : Uuid) (now : ℕ) (lease : Lease) (l : Leases) where
  abbrev pub new_holder : Holder
  new_holder = record {
    lease = lease.lease_id;
    live_until = now + ttl;
    acquired_at = now;
    worker = worker;
  }

  pub admit_taken :
      (admit ttl limits worker now lease l).1 ≡ none
      → (length l.global.members < limits.global_limit)
        × (length (l.campaigns lease.campaign_id).members < limits.campaign_limit)
        × (length (l.providers lease.provider_name).members < limits.provider_limit)
        × (is_live now (l.holders lease.holder_id) ≡ false)
        × ((admit ttl limits worker now lease l).0
            ≡ set_holder lease.holder_id (some new_holder) (
                change_scopes
                  (enter lease.lease_id (now + ttl))
                  lease.campaign_id
                  lease.provider_name
                  l))
  unfolding admit
  admit_taken h = (ground arith, ground arith, ground arith, ground arith, ground arith)

  pub admit_refused :
      (reason : Rejection)
      → (admit ttl limits worker now lease l).1 ≡ some reason
      → (admit ttl limits worker now lease l).0 ≡ l
  unfolding admit
  admit_refused reason h = ground arith

module _ (ttl now : ℕ) (lease : Lease) (l : Leases) where
  pub renew_live :
      (renew ttl now lease l).1 ≡ true
      → (renew ttl now lease l).0
        ≡ update_holder lease.lease_id lease.holder_id (with_deadline (now + ttl)) (
            change_scopes
              (extend lease.lease_id (now + ttl))
              lease.campaign_id
              lease.provider_name
              (evict now l))
  unfolding renew update_holder change_scopes
  renew_live h = ground arith

  pub renew_dead : (renew ttl now lease l).1 ≡ false → (renew ttl now lease l).0 ≡ evict now l
  unfolding renew
  renew_dead h = ground arith

module _ (now : ℕ) (lease : Lease) (l : Leases) where
  pub release-eq :
      (release now lease l).0
      ≡ update_holder lease.lease_id lease.holder_id
          (λ _. none)
          (change_scopes (leave lease.lease_id) lease.campaign_id lease.provider_name (evict now l))
  unfolding release update_holder change_scopes
  release-eq = refl

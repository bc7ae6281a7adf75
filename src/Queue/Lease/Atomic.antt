-- ===== src/Queue/Lease/Atomic.antt =====
-- A lease is in all of its scopes or in none, and one lease's scripts leave the others alone.
use ai_calling_agent.Common.{
  ℕ, ◌+◌, true, none, some, ◌≡◌, ◌≢◌, ◌<◌, ◌∙◌, refl, if◌then◌else◌, arith, ==_refl,
}
use ai_calling_agent.Model.{Uuid}
use ai_calling_agent.Queue.Lease.{
  Leases, Lease, Limits, Rejection, evict, drop_expired, enter, extend, leave, names_lease,
  change_scopes, set_holder, acquire, renew, release,
}
use ai_calling_agent.Queue.Lease.Outcomes.{
  new_holder, update_holder, admit_taken, admit_refused, renew_live, release-eq,
}
use ai_calling_agent.Queue.Lease.Scores.{
  scores, IsUntouched, IsUntouched-change, IsUntouched-evict, IsUntouched-update_holder,
  drop_expired-IsStay, until-extend_self, until-extend_other, scores-update_holder,
  scores-change_scopes, scores-change_scopes_all, until-enter_self, until-enter_other,
  until-leave_self, until-leave_other, until,
}

-- `acquire` that is not refused enters the lease into its three sets, each until `now + ttl`, and
-- makes it the holder's; and every time of another lease that is to come stays as it is, in every
-- scope whose key has not expired, those of other campaigns and providers among them.
pub acquire_taken :
    (ttl : ℕ) (limits : Limits) (worker : Uuid) (now : ℕ) (lease : Lease) (l : Leases)
    → (acquire ttl limits worker now lease l).1 ≡ none
    → (scores lease.lease_id lease (acquire ttl limits worker now lease l).0
        ≡ (some (now + ttl), some (now + ttl), some (now + ttl)))
      × ((acquire ttl limits worker now lease l).0.holders lease.holder_id
          ≡ some (new_holder ttl limits worker now lease l))
      × ((id t : ℕ)
          → lease.lease_id ≢ id
          → now < t
          → IsUntouched now id t l (acquire ttl limits worker now lease l).0)
unfolding acquire
acquire_taken ttl limits worker now lease l taken =
    let clean =
      change_scopes (drop_expired now) lease.campaign_id lease.provider_name (evict now l) in
    let own = lease.lease_id in
    let (_, _, _, _, after) = admit_taken ttl limits worker now lease clean taken in
    rw after (
      unfold set_holder in
          scores-change_scopes_all (enter own (now + ttl)) lease clean own (λ _. some (now + ttl))
            (until-enter_self own (now + ttl)),
      unfold set_holder in rw ==_refl refl,
      λ id t other later.
          unfold set_holder in
          IsUntouched-change now id t (enter own (now + ttl)) lease.campaign_id lease.provider_name
            l clean (λ s h. until-enter_other own (now + ttl) id s other ∙ h)
            (IsUntouched-change now id t (drop_expired now) lease.campaign_id lease.provider_name l
              (evict now l) (λ s. drop_expired-IsStay now id t s later)
              (IsUntouched-evict now id t l)),
    )

-- A refused `acquire` leaves what the clean-up at its start left: the lease is in no set that it
-- was not in before.
acquire_refused :
    (ttl : ℕ) (limits : Limits) (worker : Uuid) (now : ℕ) (lease : Lease) (l : Leases)
    (reason : Rejection)
    → (acquire ttl limits worker now lease l).1 ≡ some reason
    → (acquire ttl limits worker now lease l).0
      ≡ change_scopes (drop_expired now) lease.campaign_id lease.provider_name (evict now l)
unfolding acquire
acquire_refused ttl limits worker now lease l reason refused =
    admit_refused ttl limits worker now lease _ reason refused

-- `renew` that reports success found the lease live in its three sets and moves all of them to
-- `now + ttl`; the other leases' times in these sets stay as the expiry of the keys left them.
renew_lem :
    (ttl now : ℕ) (lease : Lease) (l : Leases)
    → (renew ttl now lease l).1 ≡ true
    → (scores lease.lease_id lease (renew ttl now lease l).0
        ≡ (some (now + ttl), some (now + ttl), some (now + ttl)))
      × ((id : ℕ)
          → lease.lease_id ≢ id
          → scores id lease (renew ttl now lease l).0 ≡ scores id lease (evict now l))
renew_lem ttl now lease l live =
    let longer = extend lease.lease_id (now + ttl) in
    rw (renew_live ttl now lease l live, scores-update_holder)
      (
        scores-change_scopes longer lease (evict now l) lease.lease_id (λ _. some (now + ttl))
            (until-extend_self lease.lease_id (now + ttl) _ (unfold renew in ground arith))
            (until-extend_self lease.lease_id (now + ttl) _ (unfold renew in ground arith))
            (until-extend_self lease.lease_id (now + ttl) _ (unfold renew in ground arith)),
        λ id other. rw scores-update_holder (
            scores-change_scopes_all longer lease (evict now l) id (until id)
              (λ s. until-extend_other lease.lease_id (now + ttl) id s other)),
      )

-- `release` takes the lease out of its three sets, and every time of another lease that is to come
-- stays as it is, in every scope whose key has not expired, those of other campaigns and providers
-- among them; the holder's record, unless it has expired, goes if it names the lease, and stays if it
-- names another.
pub release_lem :
    (now : ℕ) (lease : Lease) (l : Leases)
    → (scores lease.lease_id lease (release now lease l).0 ≡ (none, none, none))
      × ((id t : ℕ)
          → lease.lease_id ≢ id
          → now < t
          → IsUntouched now id t l (release now lease l).0)
      × ((release now lease l).0.holders lease.holder_id ≡ (
          if names_lease lease.lease_id ((evict now l).holders lease.holder_id)
          then none
          else (evict now l).holders lease.holder_id))
release_lem now lease l = (
  rw (release-eq now lease l, scores-update_holder)
      (scores-change_scopes_all (leave lease.lease_id) lease (evict now l) lease.lease_id
        (λ _. none) (until-leave_self lease.lease_id)),
  λ id t other later. rw (release-eq now lease l) (
      IsUntouched-update_holder now id t lease.lease_id lease.holder_id (λ _. none) l _
        (IsUntouched-change now id t (leave lease.lease_id) lease.campaign_id lease.provider_name l
          (evict now l) (λ s h. until-leave_other lease.lease_id id s other ∙ h)
          (IsUntouched-evict now id t l))),
  rw (release-eq now lease l)
      (unfold update_holder set_holder change_scopes in ground (arith, ==_refl lease.holder_id)),
)

-- ===== src/Queue/Lease/Scores.antt =====
-- The times of a lease in the sets of its scopes, and what a script's changes do to them.
use native.Mathlib.Decide.{ℕ_discrete}
use text.Mathlib.TextPositions.{eq_refl}
use ai_calling_agent.Common.{
  ℕ, true, Option, none, some, ◌≡◌, ◌≢◌, ◌<◌, String, List, [], ◌∷◌, refl, is_some, arith,
  Bool-cases, inl, inr, ==_refl,
}
use ai_calling_agent.Model.{Uuid}
use ai_calling_agent.Redis.Zset.{score, expire_up_to}
use ai_calling_agent.Redis.Zset.Laws.{same_iff, same_refl, score-add, score-remove}
use ai_calling_agent.Queue.Lease.{
  ScopeSet, Holder, Leases, Lease, evict, evict_set, drop_expired, enter, extend, leave,
  names_lease, change_scopes, set_holder,
}
use ai_calling_agent.Queue.Lease.Outcomes.{update_holder}

-- The score of a lease in a set.
abbrev pub until : ℕ → ScopeSet → Option ℕ
until lease s = score ℕ_discrete lease s.members

-- The three scores of a lease.
abbrev pub scores : ℕ → Lease → Leases → Option ℕ × Option ℕ × Option ℕ
scores id lease l = (
  until id l.global,
  until id (l.campaigns lease.campaign_id),
  until id (l.providers lease.provider_name),
)

pub until-extend_self :
    (lease expires : ℕ) (s : ScopeSet)
    → is_some (until lease s) ≡ true
    → until lease (extend lease expires s) ≡ some expires
unfolding extend
until-extend_self lease expires s h =
    rw (h, score-add ℕ_discrete lease lease expires s.members, same_refl ℕ_discrete lease)

pub until-extend_other :
    (lease expires id : ℕ) (s : ScopeSet)
    → lease ≢ id
    → until id (extend lease expires s) ≡ until id s
unfolding extend
until-extend_other lease expires id s other =
    ground (arith, score-add ℕ_discrete lease id expires s.members, same_iff ℕ_discrete lease id)

-- A change of the holder record leaves the sets.
pub scores-update_holder :
    (lease holder : ℕ) (f : Option Holder → Option Holder) (id : ℕ) (of : Lease) (l : Leases)
    → scores id of (update_holder lease holder f l) ≡ scores id of l
unfolding update_holder set_holder
scores-update_holder lease holder f id of l =
    elim (Bool-cases (names_lease lease (l.holders holder))) [
      | inl own ↦ rw own refl
      | inr other ↦ rw other refl
    ]

-- What a change does to one score of a set, it does to the three scores of a lease.
pub scores-change_scopes :
    (f : ScopeSet → ScopeSet) (lease : Lease) (l : Leases) (id : ℕ) (g : ScopeSet → Option ℕ)
    → until id (f l.global) ≡ g l.global
    → until id (f (l.campaigns lease.campaign_id)) ≡ g (l.campaigns lease.campaign_id)
    → until id (f (l.providers lease.provider_name)) ≡ g (l.providers lease.provider_name)
    → scores id lease (change_scopes f lease.campaign_id lease.provider_name l)
      ≡ (g l.global, g (l.campaigns lease.campaign_id), g (l.providers lease.provider_name))
unfolding change_scopes
scores-change_scopes f lease l id g p q r = rw (==_refl, eq_refl, p, q, r) refl

-- A change after which each set has one score of a lease.
pub scores-change_scopes_all :
    (f : ScopeSet → ScopeSet) (lease : Lease) (l : Leases) (id : ℕ) (g : ScopeSet → Option ℕ)
    → ((s : ScopeSet) → until id (f s) ≡ g s)
    → scores id lease (change_scopes f lease.campaign_id lease.provider_name l)
      ≡ (g l.global, g (l.campaigns lease.campaign_id), g (l.providers lease.provider_name))
scores-change_scopes_all f lease l id g each =
    scores-change_scopes f lease l id g (each l.global) (each (l.campaigns lease.campaign_id))
      (each (l.providers lease.provider_name))

pub until-enter_self :
    (lease expires : ℕ) (s : ScopeSet) → until lease (enter lease expires s) ≡ some expires
unfolding enter
until-enter_self lease expires s =
    rw (score-add ℕ_discrete lease lease expires s.members, same_refl ℕ_discrete lease)

pub until-enter_other :
    (lease expires id : ℕ) (s : ScopeSet)
    → lease ≢ id
    → until id (enter lease expires s) ≡ until id s
unfolding enter
until-enter_other lease expires id s other =
    ground (arith, score-add ℕ_discrete lease id expires s.members, same_iff ℕ_discrete lease id)

pub until-leave_self : (lease : ℕ) (s : ScopeSet) → until lease (leave lease s) ≡ none
unfolding leave
until-leave_self lease s =
    rw (score-remove ℕ_discrete lease lease s.members, same_refl ℕ_discrete lease)

pub until-leave_other :
    (lease id : ℕ) (s : ScopeSet) → lease ≢ id → until id (leave lease s) ≡ until id s
unfolding leave
until-leave_other lease id s other =
    ground (arith, score-remove ℕ_discrete lease id s.members, same_iff ℕ_discrete lease id)

-- A time of a lease stays where it is.
abbrev pub IsStay : ℕ → ℕ → ScopeSet → ScopeSet → Type 0
IsStay id t s s' = until id s ≡ some t → until id s' ≡ some t

-- What leaves a time of a lease where it is in any set leaves it in all sets of a change, those of
-- its own scopes and the others.
pub change_scopes-IsStay :
    (f : ScopeSet → ScopeSet) (id t campaign : ℕ) (provider : String) (l : Leases)
    → ((s : ScopeSet) → IsStay id t s (f s))
    → IsStay id t l.global (change_scopes f campaign provider l).global
      × ((c : Uuid)
          → IsStay id t (l.campaigns c) ((change_scopes f campaign provider l).campaigns c))
      × ((p : String)
          → IsStay id t (l.providers p) ((change_scopes f campaign provider l).providers p))
unfolding change_scopes
change_scopes-IsStay f id t campaign provider l each = (
  each l.global,
  λ c h. let moved = each (l.campaigns c) h in ground arith,
  λ p h. let moved = each (l.providers p) h in ground arith,
)

pub evict_set-IsStay :
    (now id t : ℕ) (s : ScopeSet) → now < s.deadline → IsStay id t s (evict_set now s)
unfolding evict_set
evict_set-IsStay now id t s lives h = ground arith

score-expire_up_to :
    (id t now : ℕ) (z : List (ℕ × ℕ))
    → now < t
    → score ℕ_discrete id z ≡ some t
    → score ℕ_discrete id (expire_up_to now z) ≡ some t
unfolding score expire_up_to
score-expire_up_to id t now [] later h = h
score-expire_up_to id t now ((k, w) ∷ z) later h =
    let rest = score-expire_up_to id t now z later in ground arith

pub drop_expired-IsStay :
    (now id t : ℕ) (s : ScopeSet) → now < t → IsStay id t s (drop_expired now s)
unfolding drop_expired
drop_expired-IsStay now id t s later h = score-expire_up_to id t now s.members later h

-- Every time of a lease that is to come stays as it is, in every scope whose key has not expired.
abbrev pub IsUntouched : ℕ → ℕ → ℕ → Leases → Leases → Type 0
IsUntouched now id t l l' =
    (now < l.global.deadline → IsStay id t l.global l'.global)
    × ((c : Uuid) → now < (l.campaigns c).deadline → IsStay id t (l.campaigns c) (l'.campaigns c))
    × ((p : String) → now < (l.providers p).deadline → IsStay id t (l.providers p) (l'.providers p))

pub IsUntouched-change :
    (now id t : ℕ) (f : ScopeSet → ScopeSet) (campaign : Uuid) (provider : String) (l m : Leases)
    → ((s : ScopeSet) → IsStay id t s (f s))
    → IsUntouched now id t l m
    → IsUntouched now id t l (change_scopes f campaign provider m)
IsUntouched-change now id t f campaign provider l m each untouched =
    let moved = change_scopes-IsStay f id t campaign provider m each in
    (
      λ lives h. moved.0 (untouched.0 lives h),
      λ c lives h. moved.1 c (untouched.1 c lives h),
      λ p lives h. moved.2 p (untouched.2 p lives h),
    )

pub IsUntouched-evict : (now id t : ℕ) (l : Leases) → IsUntouched now id t l (evict now l)
unfolding evict
IsUntouched-evict now id t l = (
  λ lives h. evict_set-IsStay now id t l.global lives h,
  λ c lives h. evict_set-IsStay now id t (l.campaigns c) lives h,
  λ p lives h. evict_set-IsStay now id t (l.providers p) lives h,
)

pub IsUntouched-update_holder :
    (now id t lease : ℕ) (holder : Uuid) (f : Option Holder → Option Holder) (l m : Leases)
    → IsUntouched now id t l m
    → IsUntouched now id t l (update_holder lease holder f m)
unfolding update_holder set_holder
IsUntouched-update_holder now id t lease holder f l m untouched =
    elim (Bool-cases (names_lease lease (m.holders holder))) [
      | inl own ↦ rw own untouched
      | inr other ↦ rw other untouched
    ]

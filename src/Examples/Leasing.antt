-- ===== src/Examples/Leasing.antt =====
-- Two workers and the leases of two contacts.
use native.Mathlib.Decide.{ℕ_discrete}
use ai_calling_agent.Common.{
  ◌<◌, ℕ, ◌≡◌, ◌≢◌, refl, true, List, [], ◌∷◌, none, some, All, arith, if◌then◌else◌,
}
use ai_calling_agent.Redis.Zset.{score, add, expire_up_to}
use ai_calling_agent.Queue.Lease.{
  Leases, Lease, Limits, duplicate_lease, at_global, no_leases, evict_set, evict, drop_expired,
  enter, change_scopes, set_holder, admit, acquire, renew, release, Op, acquire_op, renew_op,
  release_op, run, names_lease,
}
use ai_calling_agent.Queue.Lease.Outcomes.{new_holder}
use ai_calling_agent.Queue.Lease.Capacity.{IsWithin, run-IsWithin}
use ai_calling_agent.Queue.Lease.Scores.{scores, IsUntouched}
use ai_calling_agent.Queue.Lease.Atomic.{acquire_taken, release_lem}
use ai_calling_agent.Queue.Lease.Client.{
  answered, reply_lost, unreachable, acquire_slot, acquire_slot-redis_error,
}
use ai_calling_agent.Queue.Lease.Exclusive.{IsDuring, acquire-duplicate_lease}

abbrev limits : Limits
limits = record { global_limit = 1; campaign_limit = 1; provider_limit = 1 }

abbrev first_lease : Lease
first_lease = record { lease_id = 101; holder_id = 3; campaign_id = 7; provider_name = "dograh" }

abbrev second_lease : Lease
second_lease = record { lease_id = 102; holder_id = 4; campaign_id = 7; provider_name = "dograh" }

abbrev again : Lease
again = record { lease_id = 103; holder_id = 3; campaign_id = 8; provider_name = "mock" }

abbrev ops : List (ℕ × Op)
ops =
    (1000, acquire_op 1 first_lease)
    ∷ (1500, acquire_op 2 second_lease)
    ∷ (1600, renew_op first_lease)
    ∷ []

no_leases-IsWithin : IsWithin limits no_leases
no_leases-IsWithin = record {
  global_fits = omega arith;
  campaign_fits = λ c. omega arith;
  provider_fits = λ p. omega arith;
}

run-IsWithin_example : IsWithin limits (run 5000 limits ops no_leases)
run-IsWithin_example = run-IsWithin limits 5000 ops no_leases no_leases-IsWithin

abbrev one_lease : Leases
one_lease = (acquire 5000 limits 1 1000 first_lease no_leases).0

first_taken : (acquire 5000 limits 1 1000 first_lease no_leases).1 ≡ none
unfolding acquire admit evict evict_set drop_expired change_scopes expire_up_to
first_taken = refl

-- Of another campaign and provider, under wider limits.
abbrev wide : Limits
wide = record { global_limit = 5; campaign_limit = 5; provider_limit = 5 }

abbrev far_lease : Lease
far_lease = record { lease_id = 109; holder_id = 9; campaign_id = 8; provider_name = "other" }

abbrev two_leases : Leases
two_leases = (acquire 5000 wide 2 1500 far_lease one_lease).0

far_taken : (acquire 5000 wide 2 1500 far_lease one_lease).1 ≡ none
unfolding acquire admit evict evict_set drop_expired change_scopes expire_up_to enter set_holder add
far_taken = refl

acquire_taken_example :
    (scores 109 far_lease two_leases ≡ (some 6500, some 6500, some 6500))
    × (two_leases.holders 9 ≡ some (new_holder 5000 wide 2 1500 far_lease one_lease))
    × ((id t : ℕ) → 109 ≢ id → 1500 < t → IsUntouched 1500 id t one_lease two_leases)
acquire_taken_example = acquire_taken 5000 wide 2 1500 far_lease one_lease far_taken

second_refused : (acquire 5000 limits 2 1500 second_lease one_lease).1 ≡ some at_global
unfolding acquire admit evict evict_set drop_expired change_scopes expire_up_to enter set_holder add
second_refused = refl

first_renewed : (renew 5000 1600 first_lease one_lease).1 ≡ true
unfolding renew acquire admit evict evict_set drop_expired change_scopes expire_up_to enter
    set_holder add score ℕ_discrete
first_renewed = refl

release_lem_example :
    (scores 109 far_lease (release 1700 far_lease two_leases).0 ≡ (none, none, none))
    × ((id t : ℕ)
        → 109 ≢ id
        → 1700 < t
        → IsUntouched 1700 id t two_leases (release 1700 far_lease two_leases).0)
    × ((release 1700 far_lease two_leases).0.holders 9 ≡ (
        if names_lease 109 ((evict 1700 two_leases).holders 9)
        then none
        else (evict 1700 two_leases).holders 9))
release_lem_example = release_lem 1700 far_lease two_leases

abbrev meanwhile : List (ℕ × Op)
meanwhile =
    (1500, acquire_op 2 second_lease)
    ∷ (1600, renew_op first_lease)
    ∷ (1700, release_op second_lease)
    ∷ []

meanwhile-IsDuring : All (IsDuring 1000 5000 101) meanwhile
meanwhile-IsDuring = (
  record { after = omega arith; before = omega arith; keeps = refl },
  (
    record { after = omega arith; before = omega arith; keeps = refl },
    (record { after = omega arith; before = omega arith; keeps = refl }, tt),
  ),
)

acquire-duplicate_lease_example :
    (acquire 5000 limits 2 5999 again (run 5000 limits meanwhile one_lease)).1
    ≡ some duplicate_lease
acquire-duplicate_lease_example =
    acquire-duplicate_lease 5000 limits 1 1000 first_lease no_leases first_taken meanwhile
      meanwhile-IsDuring 2 5999 again (omega arith) refl

not_unreachable : answered ≢ unreachable
not_unreachable p = cc

acquire_slot-redis_error_example :
    scores 101 first_lease
      (acquire_slot 5000 limits 1 reply_lost answered 1000 first_lease no_leases).0
    ≡ (none, none, none)
unfolding acquire_slot
acquire_slot-redis_error_example =
    acquire_slot-redis_error 5000 limits 1 reply_lost answered 1000 first_lease no_leases refl
      not_unreachable

-- ===== src/Examples/Dialing.antt =====
-- A call whose answer is lost, and the job that is delivered again.
use ai_calling_agent.Common.{
  ◌∷◌, ◌≤◌, ◌≡◌, refl, true, [], none, ◌*◌, ◌==◌, if◌then◌else◌, arith, some,
}
use ai_calling_agent.Common.Text.{is_blank, is_space}
use ai_calling_agent.Outbound.Streak.{no_streak}
use ai_calling_agent.Telephony.Client.{read_or_write_timeout}
use ai_calling_agent.Telephony.Client.Placed.{may_be_placed}
use ai_calling_agent.Dialer.Attempts.{latest_is_hold, latest_type}
use ai_calling_agent.Dialer.Attempts.Rows.{row_id}
use ai_calling_agent.Model.{Db}
use ai_calling_agent.Model.Enums.{ContactStatus}
use ai_calling_agent.Dialer.Sweeper.{is_stuck, sweep_stuck_attempts}
use ai_calling_agent.Dialer.Sweeper.Counting.{stuck_count, IsIndexed}
use ai_calling_agent.Dialer.Sweeper.Ending.{cutoff, sweeps, sweeps_settle}
use ai_calling_agent.Dialer.Attempts.{new_attempt, find_attempt, get_or_create}
use ai_calling_agent.Dialer.Dial.{
  dial, with_existing, checked, retry_gate, final_gate, claim_and_place, claim_attempt,
}
use ai_calling_agent.Dialer.Settle.{left_unacked}
use ai_calling_agent.Dialer.Process.{
  process_claimed_job, process_job, campaign_is_paused, within_window, closed_window,
  admit_and_dial,
}
use ai_calling_agent.Dialer.Trigger.{place_call}
use ai_calling_agent.Eligibility.{check_dial, is_suppressed}
use ai_calling_agent.Phone.{is_dialable_region}
use ai_calling_agent.Policy.{
  get_effective_policy, window_is_open, load_timezone, build_default_policy,
}
use ai_calling_agent.Calling.Window.{is_within_calling_window, intervals, is_dialable_now, inside}
use ai_calling_agent.Queue.Job.{new_dial_job}
use ai_calling_agent.Dialer.State.{State, Outside, found_runs, lookup_timeout}
use ai_calling_agent.Dialer.Trigger.Ending.{state_of}
use ai_calling_agent.Dialer.Deferral.{deferred_times, defer_or_expire_bounded}
use ai_calling_agent.Dialer.Reconcile.{deferrals, defer_or_expire}
use ai_calling_agent.Dialer.State.{reconcile_expired}
use ai_calling_agent.Model.{CallAttempt}
use ai_calling_agent.Dialer.Once.{placed, IsUnique, IsFresh}
use ai_calling_agent.Dialer.Once.Steps.{run, here, next, Reach-placed}
use ai_calling_agent.Examples.Calls.{uuid5}
use ai_calling_agent.Examples.Outbounds.{no_controls}
use ai_calling_agent.Examples.Phones.{phone_book}
use ai_calling_agent.Examples.Policies.{settings, db, noon, zone_info, contact}
use ai_calling_agent.Examples.Streams.{job, two_entries, same_key}

abbrev first : State
first = record {
  db = db;
  schedule = [];
  stream = two_entries;
  breaker = record { errors = 0; open_until = 0 };
  controls = no_controls;
  streak = no_streak;
  requests = [];
}

abbrev outside : Outside
outside = record {
  now = noon;
  first_gate = none;
  second_gate = none;
  admitted = true;
  redis_up = true;
  controls_up = true;
  first_lookup = lookup_timeout;
  second_lookup = found_runs [];
  configured = true;
  answer = read_or_write_timeout;
  interrupted = true;
  new_attempt_id = 40;
}

abbrev after_first : State
after_first = state_of (
    process_claimed_job phone_book zone_info uuid5 (λ _. "7") same_key settings outside 5 2 job
      first)

first-IsUnique : IsUnique db
unfolding IsUnique row_id
first-IsUnique = λ c n c' n' i h h'. absurd cc

id-IsFresh : IsFresh 40 db
unfolding IsFresh row_id latest_is_hold latest_type
id-IsFresh = (λ c n h. absurd cc, refl)

Reach-placed_example : placed 3 1 after_first.requests ≤ 1
Reach-placed_example =
    Reach-placed phone_book zone_info uuid5 (λ _. "7") same_key settings first after_first
      first-IsUnique refl (next here (run outside 5 2 job id-IsFresh refl)) 3 1

-- The run above sends its request, whose call may have been placed.
first_is_placed : placed 3 1 after_first.requests ≡ 1
unfolding placed may_be_placed process_claimed_job process_job campaign_is_paused within_window
    closed_window admit_and_dial dial with_existing checked retry_gate final_gate claim_and_place
    claim_attempt get_or_create place_call find_attempt check_dial window_is_open
    is_within_calling_window intervals get_effective_policy left_unacked is_dialable_region
    is_suppressed is_dialable_now build_default_policy load_timezone is_blank is_space inside
    new_dial_job
first_is_placed = refl

-- An attempt of a contact that dials, and that no webhook ever finished.
abbrev stuck_attempt : CallAttempt
stuck_attempt = new_attempt 40 noon 3 1

abbrev stuck_db : Db
stuck_db = record db {
  contacts = λ i. if i == 3 then some (record contact { status = ContactStatus.dialing }) else none;
  attempts = stuck_attempt ∷ [];
}

stuck_db-IsIndexed : IsIndexed stuck_db
unfolding IsIndexed
stuck_db-IsIndexed = λ i c h. ground arith

one_is_stuck : stuck_count (cutoff (2 * noon) 60 99) stuck_db ≤ 1
unfolding stuck_count is_stuck
one_is_stuck = omega arith

sweeps_settle_example :
    (stuck_count (cutoff (2 * noon) 60 99) (sweeps (2 * noon) 60 99 1 stuck_db) ≡ 0)
    × ((sweep_stuck_attempts (2 * noon) 60 100 none (sweeps (2 * noon) 60 99 1 stuck_db)).1.actioned
        ≡ 0)
sweeps_settle_example = sweeps_settle (2 * noon) 60 99 1 stuck_db stuck_db-IsIndexed one_is_stuck

-- Three deferrals are allowed.
defer_or_expire_bounded_example :
    (defer_or_expire settings stuck_attempt contact
      (deferred_times settings stuck_attempt contact 3 stuck_db)).1
    ≡ reconcile_expired
unfolding deferrals
defer_or_expire_bounded_example = defer_or_expire_bounded settings stuck_attempt contact 3 stuck_db

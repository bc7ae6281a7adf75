-- ===== src/Examples/Calls.antt =====
-- A failed call of the campaign, the decision about it, and the schedule of retries.
use ai_calling_agent.Common.{
  ℕ, ◌+◌, ◌*◌, ◌≤◌, ◌≡◌, ◌↔◌, refl, max, min, true, false, [], ◌∷◌, none, some, if◌then◌else◌, ◌==◌,
  arith, String, is_some, any, ◌&&◌, get_elem?,
}
use ai_calling_agent.Model.{Uuid, Contact, CallAttempt, seconds_of}
use ai_calling_agent.Model.Enums.{ContactStatus, CallAttemptState, NeverConnectedFailureReason}
use ai_calling_agent.Queue.Job.{
  IdempotencyKey, Purpose, job_name, trace_name, Entry, retry, new_recovery_job, Entry-discrete,
}
use ai_calling_agent.Redis.Zset.{same, score}
use ai_calling_agent.Recovery.Scheduler.{Schedule}
use ai_calling_agent.Recovery.Scheduler.Claims.{claim_once, wins, is_entry}
use ai_calling_agent.Recovery.Manager.{
  World, Decision, retry_in, stop, suppressed, reason_not_retryable, is_suppression, decide,
  handle_disconnect, is_closed, is_completed, rule_allows, rule_alias, spends_budget, with_hint,
  carry_out, spaced,
}
use ai_calling_agent.Recovery.Manager.Decide.{IsAllowed, IsInBudget, decide_retry, decide_retry_iff}
use ai_calling_agent.Recovery.Manager.Effects.{handle_disconnect_stop, handle_disconnect_retry}
use ai_calling_agent.Common.Text.{codes, strip, strip_left, is_space}
use ai_calling_agent.Common.{◌||◌}
use ai_calling_agent.Telephony.Outcome.{
  token, collapse, strip_front, strip_back, is_word, vocabulary, combine, ended_words,
  reason_unrecognized, classify_call_outcome,
}
use ai_calling_agent.Telephony.Outcome.Redial.{is_failure_word, classify_call_outcome-redial}
use ai_calling_agent.Policy.{get_effective_policy}
use ai_calling_agent.Eligibility.{is_suppressed}
use ai_calling_agent.Examples.Phones.{phone_book}
use ai_calling_agent.Examples.Policies.{
  settings, campaign, contact, db, policy, policy-IsSound, noon,
}

-- Some injective naming in place of `uuid5`.
abbrev pub uuid5 : IdempotencyKey → Purpose → Uuid
uuid5 key job_name = 2 * key.attempt_number
uuid5 key trace_name = 2 * key.attempt_number + 1

abbrev pub attempt : CallAttempt
attempt = record {
  id = 11;
  contact_id = 3;
  attempt_number = 1;
  state = CallAttemptState.failed_to_connect;
  connection_failure_reason = some NeverConnectedFailureReason.busy;
  disconnect_reason = none;
  provider = some "dograh";
  provider_call_id = none;
  started_at = noon;
  ended_at = some noon;
}

abbrev world : World
world = record {
  db = record db { policies = λ i. if i == 7 then some policy else none; attempts = attempt ∷ [] };
  schedule = [];
}

-- The provider asked for twenty minutes, which is more than the spacing of five.
busy_retries : decide settings world.db attempt policy true "busy" (some 1200) ≡ retry_in 1200 2
unfolding decide rule_allows rule_alias spends_budget with_hint spaced
busy_retries = refl

decide_retry_example :
    IsAllowed settings world.db attempt policy true "busy" (some 1200)
    × IsInBudget settings world.db attempt policy true "busy" (some 1200)
    × (2 ≡ 1 + 1)
    × (2 ≤ 2 + 1)
    × (base : ℕ) × (get_elem? policy.retry_spacing_seconds 0 ≡ some base)
    × (base ≤ 1200)
    × (1200 ≤ max base 3600)
    × (1200 ≡ max base (min 1200 3600))
decide_retry_example =
    decide_retry settings world.db attempt policy true "busy" (some 1200) 1200 2 busy_retries

decide_retry_iff_example :
    ((delay : ℕ) × (decide settings world.db attempt policy true "busy" (some 1200)
        ≡ retry_in delay 2))
    ↔ (IsAllowed settings world.db attempt policy true "busy" (some 1200)
        × IsInBudget settings world.db attempt policy true "busy" (some 1200)
        × (1 ≤ 2))
decide_retry_iff_example =
    decide_retry_iff settings world.db attempt policy true "busy" (some 1200) policy-IsSound
      (omega arith)

abbrev after_call : String → World × Decision
after_call key =
    handle_disconnect uuid5 true settings noon phone_book attempt contact campaign true key none
      world

rejected_stops : (after_call "rejected").1 ≡ stop (reason_not_retryable "rejected")
unfolding handle_disconnect carry_out decide rule_allows rule_alias get_effective_policy
    is_suppressed
rejected_stops = refl

busy_is_retried : (after_call "busy").1 ≡ retry_in 300 2
unfolding handle_disconnect carry_out decide rule_allows rule_alias spends_budget with_hint spaced
    get_effective_policy is_suppressed
busy_is_retried = refl

-- The contact opted out meanwhile.
abbrev closed_contact : Contact
closed_contact = record contact { status = ContactStatus.closed }

abbrev after_closed : World × Decision
after_closed =
    handle_disconnect uuid5 true settings noon phone_book attempt closed_contact campaign true
      "busy" none world

closed_stops : after_closed.1 ≡ stop suppressed
unfolding handle_disconnect
closed_stops = refl

handle_disconnect_stop_example :
    (is_suppression suppressed ≡ (
      is_closed closed_contact.status
      || is_suppressed phone_book settings world.db closed_contact.normalized_phone_number))
    × (after_closed.0.schedule ≡ world.schedule)
    × (after_closed.0.db.contacts 3
        ≡ some (
            if is_closed closed_contact.status
              || is_suppressed phone_book settings world.db closed_contact.normalized_phone_number
            then closed_contact
            else record closed_contact { status = ContactStatus.completed_partial }))
handle_disconnect_stop_example =
    handle_disconnect_stop phone_book uuid5 true settings noon attempt closed_contact campaign true
      "busy" none world suppressed closed_stops

handle_disconnect_retry_example :
    (is_closed contact.status ≡ false)
    × (is_suppressed phone_book settings world.db contact.normalized_phone_number ≡ false)
    × (is_completed campaign.status ≡ false)
    × ((after_call "busy").0.db.contacts 3
        ≡ some (record contact {
          status = ContactStatus.retry_scheduled;
          next_retry_at = some (noon + seconds_of 300);
          retry_attempt_id = some 11;
          retry_attempt_number = some 2;
        }))
    × ((j : Entry)
        → score Entry-discrete j (after_call "busy").0.schedule ≡ (
            if true && same Entry-discrete (retry (new_recovery_job uuid5 11 3 7 2)) j
            then some (noon + seconds_of 300)
            else score Entry-discrete j world.schedule))
handle_disconnect_retry_example =
    handle_disconnect_retry phone_book uuid5 true settings noon attempt contact campaign true "busy"
      none world 300 2 busy_is_retried

abbrev first_retry : Entry
first_retry = retry (new_recovery_job uuid5 11 3 7 2)

abbrev other_retry : Entry
other_retry = retry (new_recovery_job uuid5 12 4 7 2)

abbrev two_retries : Schedule
two_retries = (first_retry, 100) ∷ (other_retry, 200) ∷ []

claim_once_example : wins first_retry (other_retry ∷ first_retry ∷ first_retry ∷ []) two_retries ≡ (
    if is_some (score Entry-discrete first_retry two_retries)
      && any (λ x. is_entry x first_retry) (other_retry ∷ first_retry ∷ first_retry ∷ [])
    then 1
    else 0)
claim_once_example =
    claim_once first_retry (other_retry ∷ first_retry ∷ first_retry ∷ []) two_retries

unknown_is_not_retried : rule_allows policy.never_connected_rules reason_unrecognized ≡ false
unfolding rule_allows rule_alias
unknown_is_not_retried = refl

busy_has_its_key :
    (classify_call_outcome (λ t. t) (some (codes "busy")) none).reason_key ≡ some "busy"
unfolding classify_call_outcome combine vocabulary token is_word collapse strip_front strip_back
    strip strip_left is_space
busy_has_its_key = refl

classify_call_outcome-redial_example :
    (is_word ended_words (token (λ t. t) (some (codes "busy"))) ≡ false)
    × (is_word ended_words (token (λ t. t) none) ≡ false)
    × ((is_failure_word (token (λ t. t) (some (codes "busy")))
          || is_failure_word (token (λ t. t) none))
        ≡ true)
classify_call_outcome-redial_example =
    classify_call_outcome-redial (λ t. t) (some (codes "busy")) none settings world.db attempt
      policy true "busy" (some 1200) 1200 2 unknown_is_not_retried busy_has_its_key busy_retries

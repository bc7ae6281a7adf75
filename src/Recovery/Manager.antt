-- ===== src/Recovery/Manager.antt =====
-- RecoveryManager (backend/app/services/recovery/manager.py): the one place that decides whether a
-- call that failed or broke off is retried, and the effects of the decision.
--
-- The objects that the source mutates are rows of the session: what it assigns to a contact is
-- written to the row of `Db`. The schedule is the cache in Redis; `redis_up` says whether it
-- answers. Ids drawn at random (a row's own id, a trace id) are left out of the payloads.
pub mod Decide
pub mod Effects
use ai_calling_agent.Common.{
  ℕ, ◌+◌, ◌-◌, Bool, true, false, ◌&&◌, ◌||◌, not, String, List, [], ◌∷◌, Option, none, some, ltb,
  leb, ◌==◌, if◌then◌else◌, length, keep, get_elem?, min, max, str_eq, any, elem,
}
use ai_calling_agent.Common.Assoc.{lookup}
use ai_calling_agent.Common.Table.{put_row}
use ai_calling_agent.Calling.Window.{Time}
use ai_calling_agent.Model.{
  Uuid, Contact, Campaign, CallAttempt, RetryPolicy, Db, Settings, CallEvent, AuditEvent, Value,
  num, text, nothing, seconds_of,
}
use ai_calling_agent.Model.Enums.{
  ContactStatus, CampaignStatus, CallAttemptState, NeverConnectedFailureReason,
}
use ai_calling_agent.Eligibility.{is_suppressed}
use ai_calling_agent.Phone.{PhoneLib}
use ai_calling_agent.Policy.{get_effective_policy}
use ai_calling_agent.Queue.Job.{IdempotencyKey, Purpose, RecoveryJob, new_recovery_job}
use ai_calling_agent.Recovery.Scheduler.{Schedule, schedule}

-- Why a call is not retried.
pub data StopReason : Type 0 where
  suppressed campaign_completed provider_error_budget_exhausted max_attempts_reached : StopReason
  reason_not_retryable : String → StopReason

-- `RecoveryDecision`: a retry after a delay with its attempt number, or none.
pub data Decision : Type 0 where
  retry_in : ℕ → ℕ → Decision
  stop : StopReason → Decision

-- The text of a reason in the audit trail.
unfoldable pub reason_text : StopReason → String
reason_text suppressed = "suppressed"
reason_text campaign_completed = "campaign_completed"
reason_text provider_error_budget_exhausted = "provider_error_budget_exhausted"
reason_text max_attempts_reached = "max_attempts_reached"
reason_text (reason_not_retryable key) = Prim.Native.String.◌++◌ "reason_not_retryable:" key

-- `_RULE_ALIASES`
unfoldable pub rule_alias : String → String
rule_alias key = if str_eq key "provider_rate_limited" then "provider_error" else key

-- `_PROVIDER_BUDGET_REASONS`
unfoldable pub spends_budget : String → Bool
spends_budget key = str_eq key "provider_error" || str_eq key "provider_rate_limited"

-- `rules.get(key, False)`
unfoldable pub rule_allows : List (String × Bool) → String → Bool
unfolding rule_alias
rule_allows rules key = elim (lookup (rule_alias key) rules) [ none ↦ false | some b ↦ b ]

is_provider_failure : CallAttemptState → Option NeverConnectedFailureReason → Bool
is_provider_failure CallAttemptState.failed_to_connect
      (some NeverConnectedFailureReason.provider_error) =
    true
is_provider_failure _ _ = false

abbrev pub is_dograh : Option String → Bool
is_dograh none = false
is_dograh (some p) = str_eq p "dograh"

-- `_provider_error_failures`
unfoldable pub provider_error_failures : Db → CallAttempt → ℕ
unfolding is_provider_failure
provider_error_failures db attempt = length (
    keep
      (λ (a : CallAttempt).
        (a.contact_id == attempt.contact_id)
        && is_dograh a.provider
        && is_provider_failure a.state a.connection_failure_reason
        && leb a.attempt_number attempt.attempt_number)
      db.attempts)

-- A provider's hint lengthens the delay, up to a cap, and never shortens it.
unfoldable pub with_hint : Settings → Option ℕ → ℕ → ℕ
with_hint s none delay = delay
with_hint s (some hint) delay =
    if ltb 0 hint then max delay (min hint s.dograh_retry_after_max_seconds) else delay

-- The last steps of `_decide`. Attempt numbers start at one.
unfoldable pub spaced : Settings → CallAttempt → RetryPolicy → Option ℕ → Decision
spaced s attempt policy hint =
    elim (get_elem? policy.retry_spacing_seconds (attempt.attempt_number - 1)) [
      | none ↦ stop max_attempts_reached
      | some delay ↦ retry_in (with_hint s hint delay) (attempt.attempt_number + 1)
    ]

-- `_decide`; the effective policy is never missing.
unfoldable pub decide :
    Settings → Db → CallAttempt → RetryPolicy → Bool → String → Option ℕ → Decision
unfolding spaced
decide s db attempt policy never_connected key hint =
    let rules = if never_connected then policy.never_connected_rules else policy.mid_call_rules in
    if not (rule_allows rules key)
    then stop (reason_not_retryable key)
    else if never_connected
        && spends_budget key
        && ltb s.dograh_provider_error_max_retries (provider_error_failures db attempt)
    then stop provider_error_budget_exhausted
    else if ltb policy.max_retries attempt.attempt_number
    then stop max_attempts_reached
    else spaced s attempt policy hint

-- What a handler may change: the session, and the schedule in Redis.
pub record World : Type 0 where
  pub db : Db
  pub schedule : Schedule

-- `_log_event`
unfoldable pub log_event : Uuid → String → List (String × Value) → Db → Db
log_event attempt_id event payload db = record db {
  events =
      record { call_attempt_id = attempt_id; event_type = event; payload = payload } ∷ db.events;
}

-- `record_audit_event`
unfoldable pub record_audit : String → String → Uuid → List (String × Value) → Db → Db
record_audit actor action attempt_id metadata db = record db {
  audits =
      record {
        actor = actor;
        action = action;
        entity_type = "call_attempt";
        entity_id = some attempt_id;
        metadata = metadata;
      }
      ∷ db.audits;
}

unfoldable pub save_contact : Contact → Db → Db
save_contact contact db = record db { contacts = put_row contact.id contact db.contacts }

-- `is_eligible` of backend/app/services/analysis/admission.py
unfoldable pub analysis_eligible : CallAttemptState → ContactStatus → Bool
analysis_eligible CallAttemptState.ended_normally ContactStatus.completed = true
analysis_eligible CallAttemptState.ended_normally ContactStatus.completed_partial = true
analysis_eligible CallAttemptState.dropped_mid_call ContactStatus.completed = true
analysis_eligible CallAttemptState.dropped_mid_call ContactStatus.completed_partial = true
analysis_eligible _ _ = false

-- `enqueue_call_analysis`: the durable part, which is all that it does inside the transaction.
unfoldable pub enqueue_call_analysis : CallAttempt → Contact → Db → Db
enqueue_call_analysis attempt contact db =
    if not (analysis_eligible attempt.state contact.status)
    then db
    else if elem attempt.id db.analyses
    then db
    else record_audit "analysis-admission" "analysis.queued" attempt.id [] (
        log_event attempt.id "ANALYSIS_QUEUED" []
          (record db { analyses = attempt.id ∷ db.analyses }))

-- The retry that `_schedule` records on the contact.
unfoldable pub scheduled_contact : Contact → CallAttempt → Time → ℕ → Contact
scheduled_contact contact attempt due_at number = record contact {
  status = ContactStatus.retry_scheduled;
  next_retry_at = some due_at;
  retry_attempt_id = some attempt.id;
  retry_attempt_number = some number;
}

module _ (uuid5 : IdempotencyKey → Purpose → Uuid) (redis_up : Bool) (s : Settings)
    (now : Time) where
  -- `_schedule`. A Redis outage is logged and swallowed: PostgreSQL has the retry.
  unfoldable pub schedule_retry : CallAttempt → Contact → Campaign → ℕ → ℕ → World → World
  schedule_retry attempt contact campaign delay number w =
      let due_at = now + seconds_of delay in
      let job = new_recovery_job uuid5 attempt.id contact.id campaign.id number in
      let details = ("next_attempt_number", num number) ∷ ("delay_seconds", num delay) ∷ [] in
      record {
        db = record_audit "recovery-manager" "recovery.scheduled" attempt.id details (
            log_event attempt.id "RECOVERY_SCHEDULED" details
              (save_contact (scheduled_contact contact attempt due_at number) w.db));
        schedule = if redis_up then schedule job due_at w.schedule else w.schedule;
      }

unfoldable pub is_suppression : StopReason → Bool
is_suppression suppressed = true
is_suppression _ = false

-- `_terminalize`. A suppressed contact is closed already and keeps its status.
unfoldable pub terminalize : CallAttempt → Contact → StopReason → World → World
unfolding is_suppression
terminalize attempt contact reason w =
    let details = ("reason", text (reason_text reason)) ∷ [] in
    let contact' =
      if is_suppression reason
      then contact
      else record contact { status = ContactStatus.completed_partial } in
    record w {
      db = enqueue_call_analysis attempt contact' (
          save_contact contact' (
            record_audit "recovery-manager" "recovery.terminalized" attempt.id details
              (log_event attempt.id "RECOVERY_TERMINALIZED" details w.db)));
    }

abbrev pub is_closed : ContactStatus → Bool
is_closed ContactStatus.closed = true
is_closed _ = false

abbrev pub is_completed : CampaignStatus → Bool
is_completed CampaignStatus.completed = true
is_completed _ = false

-- `handle_disconnect`, which asks the suppression list itself.
module _ (uuid5 : IdempotencyKey → Purpose → Uuid) (redis_up : Bool) (s : Settings)
    (now : Time) where
  unfoldable pub carry_out : CallAttempt → Contact → Campaign → Decision → World → World × Decision
  carry_out attempt contact campaign (retry_in delay number) w = (
    schedule_retry uuid5 redis_up s now attempt contact campaign delay number w,
    retry_in delay number,
  )
  carry_out attempt contact campaign (stop reason) w =
      (terminalize attempt contact reason w, stop reason)

  unfoldable pub handle_disconnect :
      {Number : Type 0}
      → PhoneLib Number
      → CallAttempt
      → Contact
      → Campaign
      → Bool
      → String
      → Option ℕ
      → World
      → World × Decision
  handle_disconnect lib attempt contact campaign never_connected key hint w =
      if is_closed contact.status || is_suppressed lib s w.db contact.normalized_phone_number
      then (terminalize attempt contact suppressed w, stop suppressed)
      else if is_completed campaign.status
      then (terminalize attempt contact campaign_completed w, stop campaign_completed)
      else carry_out attempt contact campaign
          (decide s w.db attempt (get_effective_policy s w.db campaign) never_connected key hint) w

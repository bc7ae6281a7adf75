-- ===== src/Model.antt =====
-- The rows of the database that the modelled parts read and write (backend/app/models/).
--
-- A UUID is a number. A session is a value of `Db`: what is flushed is in it, and a transaction
-- that is rolled back returns the value that it started from.
pub mod Enums
use Enums.{
  ContactStatus, CampaignStatus, CallAttemptState, NeverConnectedFailureReason,
  MidCallDisconnectReason,
}
use ai_calling_agent.Common.{ℕ, ◌*◌, Bool, String, Option, List}
use ai_calling_agent.Common.Text.{Text}
use ai_calling_agent.Calling.Window.{Time, TimeOfDay}

abbrev pub Uuid : Type 0
Uuid = ℕ

-- Contact (backend/app/models/contact.py), without the bookkeeping columns.
pub record Contact : Type 0 where
  pub id : Uuid
  pub campaign_id : Uuid
  pub normalized_phone_number : Text
  pub status : ContactStatus
  pub attempt_count : ℕ
  pub next_retry_at : Option Time
  pub retry_attempt_id : Option Uuid
  pub retry_attempt_number : Option ℕ
  pub purged_at : Option Time

pub record Campaign : Type 0 where
  pub id : Uuid
  pub status : CampaignStatus
  pub timezone : Text

-- CallAttempt (backend/app/models/call_attempt.py).
pub record CallAttempt : Type 0 where
  pub id : Uuid
  pub contact_id : Uuid
  pub attempt_number : ℕ
  pub state : CallAttemptState
  pub connection_failure_reason : Option NeverConnectedFailureReason
  pub disconnect_reason : Option MidCallDisconnectReason
  pub provider : Option String
  pub provider_call_id : Option String
  pub started_at : Time
  pub ended_at : Option Time

-- RetryPolicy (backend/app/models/retry_policy.py). The rules are JSON objects of flags.
pub record RetryPolicy : Type 0 where
  pub max_retries : ℕ
  pub retry_spacing_seconds : List ℕ
  pub never_connected_rules : List (String × Bool)
  pub mid_call_rules : List (String × Bool)
  pub window_start : TimeOfDay
  pub window_end : TimeOfDay

-- The values of the JSON payloads and metadata that are recorded.
pub data Value : Type 0 where
  num : ℕ → Value
  text : String → Value
  flag : Bool → Value
  nothing : Value

pub record CallEvent : Type 0 where
  pub call_attempt_id : Uuid
  pub event_type : String
  pub payload : List (String × Value)

pub record AuditEvent : Type 0 where
  pub actor : String
  pub action : String
  pub entity_type : String
  pub entity_id : Option Uuid
  pub metadata : List (String × Value)

pub record Db : Type 0 where
  pub contacts : Uuid → Option Contact
  pub campaigns : Uuid → Option Campaign
  pub policies : Uuid → Option RetryPolicy
  pub attempts : List CallAttempt
  pub suppressions : List Text
  -- The call attempts whose analysis has been admitted.
  pub analyses : List Uuid
  pub events : List CallEvent
  pub audits : List AuditEvent

-- The settings (backend/app/core/config.py) that the modelled parts read.
pub record Settings : Type 0 where
  pub hard_calling_window_start : TimeOfDay
  pub hard_calling_window_end : TimeOfDay
  pub default_calling_window_start : TimeOfDay
  pub default_calling_window_end : TimeOfDay
  pub default_max_retries : ℕ
  pub default_retry_spacing_seconds : List ℕ
  pub max_retries_ceiling : ℕ
  pub min_retry_backoff_seconds : ℕ
  pub max_retry_backoff_seconds : ℕ
  pub dograh_provider_error_max_retries : ℕ
  pub dograh_retry_after_max_seconds : ℕ
  pub retry_redispatch_seconds : ℕ
  pub queue_max_backlog : ℕ
  pub queue_max_deliveries : ℕ
  pub dograh_connect_timeout_seconds : ℕ
  pub dograh_read_timeout_seconds : ℕ
  pub dograh_reconcile_max_deferrals : ℕ
  pub provider_halt_systemic_threshold : ℕ
  pub provider_halt_streak_ttl_seconds : ℕ
  pub circuit_breaker_error_threshold : ℕ
  pub circuit_breaker_open_seconds : ℕ
  pub sweeper_stuck_after_seconds : ℕ
  pub sweeper_batch_limit : ℕ
  pub retry_rebuild_batch_size : ℕ
  pub allowed_dial_regions : List Text
  pub default_region : Text

-- `timedelta(seconds=n)`
unfoldable pub seconds_of : ℕ → Time
seconds_of n = n * 1000000

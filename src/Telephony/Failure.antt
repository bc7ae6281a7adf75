-- ===== src/Telephony/Failure.antt =====
-- The policy for a trigger that failed (backend/app/services/telephony/dograh_outcome.py).
use ai_calling_agent.Common.{
  ℕ, Bool, true, false, ◌||◌, String, Option, none, some, ◌==◌, if◌then◌else◌,
}
use ai_calling_agent.Telephony.Client.{
  ErrorCategory, authentication_error, provider_rejected, validation_error, rate_limited, ApiError,
  is_ambiguous,
}

pub data TriggerPolicy : Type 0 where
  ambiguous limited permanent transient : TriggerPolicy

-- `TriggerFailure`
pub record TriggerFailure : Type 0 where
  pub policy : TriggerPolicy
  pub reason_key : String
  pub retry_after_seconds : Option ℕ

abbrev pub reason_provider_error : String
reason_provider_error = "provider_error"

abbrev pub reason_rate_limited : String
reason_rate_limited = "provider_rate_limited"

abbrev pub reason_configuration : String
reason_configuration = "provider_configuration_error"

-- `_PERMANENT_CATEGORIES`
abbrev pub is_permanent : ErrorCategory → Bool
is_permanent authentication_error = true
is_permanent provider_rejected = true
is_permanent validation_error = true
is_permanent _ = false

abbrev pub is_rate_limited : ErrorCategory → Bool
is_rate_limited rate_limited = true
is_rate_limited _ = false

unfoldable pub classify_trigger_error : ApiError → TriggerFailure
classify_trigger_error e =
    if is_ambiguous e
    then record {
      policy = ambiguous;
      reason_key = reason_provider_error;
      retry_after_seconds = none;
    }
    else if is_rate_limited e.category
    then record {
      policy = limited;
      reason_key = reason_rate_limited;
      retry_after_seconds = e.retry_after_seconds;
    }
    else if is_permanent e.category
    then record {
      policy = permanent;
      reason_key = reason_configuration;
      retry_after_seconds = none;
    }
    else record {
      policy = transient;
      reason_key = reason_provider_error;
      retry_after_seconds = none;
    }

-- The categories of a provider halt.
pub data HaltCategory : Type 0 where
  authentication rejected quota_exhausted configuration systemic_failure : HaltCategory

-- `provider_configuration_category`, with `_CONFIGURATION_STATUSES`.
unfoldable pub provider_configuration_category : ApiError → Option HaltCategory
provider_configuration_category e =
    if (e.status_code == 401) || (e.status_code == 403)
    then some authentication
    else if e.status_code == 404
    then some rejected
    else if e.status_code == 402
    then some quota_exhausted
    else none

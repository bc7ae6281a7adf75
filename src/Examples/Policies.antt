-- ===== src/Examples/Policies.antt =====
-- A campaign of Kolkata with its policy, a contact, and the requests made of them.
use ai_calling_agent.Common.{
  ℕ, suc, ◌+◌, ◌*◌, ◌≡◌, ◌≢◌, ◌↔◌, ◌⊎◌, refl, true, false, [], ◌∷◌, length, Option, none, some,
  if◌then◌else◌, ◌==◌, arith,
}
use ai_calling_agent.Common.Result.{ok, err}
use ai_calling_agent.Common.Text.{Text, codes, text_eq, is_blank, is_space}
use ai_calling_agent.Calling.Window.{
  Zone, Time, invalid_timezone, day, minute, is_within_calling_window, window_within_bound,
  intervals, is_dialable_now, inside,
}
use ai_calling_agent.Model.{Uuid, Contact, Campaign, RetryPolicy, Db, Settings}
use ai_calling_agent.Model.Enums.{ContactStatus, CampaignStatus}
use ai_calling_agent.Policy.{
  RetryPolicyUpdate, load_timezone, get_effective_policy, window_is_open, put,
  validate_policy_update, validate_rules, within_hard_window, save_policy, check_timezone,
}
use ai_calling_agent.Policy.Sound.{IsSound, put-IsSound, window_is_open-IsSound}
use ai_calling_agent.Phone.{is_dialable_region}
use ai_calling_agent.Eligibility.{
  eligible, refused, outside_calling_window, transient, is_suppressed, check_dial,
}
use ai_calling_agent.Eligibility.Exact.{IsReady, check_dial-eligible_iff, check_dial-transient}
use ai_calling_agent.Examples.Windows.{kolkata}
use ai_calling_agent.Examples.Phones.{phone_book, indian_e164}

abbrev hour : ℕ
hour = 60 * minute

abbrev pub zone_info : Text → Option Zone
zone_info name = if text_eq name (codes "Asia/Kolkata") then some kolkata else none

abbrev pub settings : Settings
settings = record {
  hard_calling_window_start = 9 * hour;
  hard_calling_window_end = 21 * hour;
  default_calling_window_start = 9 * hour;
  default_calling_window_end = 18 * hour;
  default_max_retries = 2;
  default_retry_spacing_seconds = 300 ∷ 1800 ∷ [];
  max_retries_ceiling = 5;
  min_retry_backoff_seconds = 60;
  max_retry_backoff_seconds = 86400;
  dograh_provider_error_max_retries = 1;
  dograh_retry_after_max_seconds = 3600;
  retry_redispatch_seconds = 120;
  queue_max_backlog = 1000;
  queue_max_deliveries = 5;
  dograh_connect_timeout_seconds = 5;
  dograh_read_timeout_seconds = 15;
  dograh_reconcile_max_deferrals = 3;
  provider_halt_systemic_threshold = 3;
  provider_halt_streak_ttl_seconds = 3600;
  circuit_breaker_error_threshold = 5;
  circuit_breaker_open_seconds = 30;
  sweeper_stuck_after_seconds = 1800;
  sweeper_batch_limit = 100;
  retry_rebuild_batch_size = 500;
  allowed_dial_regions = codes "IN" ∷ [];
  default_region = codes "IN";
}

abbrev pub campaign : Campaign
campaign = record { id = 7; status = CampaignStatus.active; timezone = codes "Asia/Kolkata" }

abbrev pub contact : Contact
contact = record {
  id = 3;
  campaign_id = 7;
  normalized_phone_number = indian_e164;
  status = ContactStatus.pending;
  attempt_count = 0;
  next_retry_at = none;
  retry_attempt_id = none;
  retry_attempt_number = none;
  purged_at = none;
}

abbrev pub db : Db
db = record {
  contacts = λ i. if i == 3 then some contact else none;
  campaigns = λ i. if i == 7 then some campaign else none;
  policies = λ _. none;
  attempts = [];
  suppressions = [];
  analyses = [];
  events = [];
  audits = [];
}

abbrev update : RetryPolicyUpdate
update = record {
  max_retries = 1;
  retry_spacing_seconds = 600 ∷ [];
  window_start = 10 * hour;
  window_end = 17 * hour;
  timezone = none;
  never_connected_rules = some (("busy", false) ∷ []);
  mid_call_rules = none;
}

abbrev db_after : Db
db_after = save_policy settings "admin" db campaign update

put_accepts : put zone_info settings "admin" db 7 update ≡ ok db_after
unfolding put validate_policy_update validate_rules within_hard_window check_timezone
    window_within_bound intervals
put_accepts = refl

put-IsSound_example :
    IsSound settings (get_effective_policy settings db_after campaign)
    × ((j : Uuid) → j ≢ 7 → db_after.policies j ≡ db.policies j)
    × (length db_after.audits ≡ suc (length db.audits))
put-IsSound_example =
    put-IsSound zone_info settings "admin" db db_after campaign update refl put_accepts

abbrev pub policy : RetryPolicy
policy = record {
  max_retries = 2;
  retry_spacing_seconds = 300 ∷ 1800 ∷ [];
  never_connected_rules = ("busy", true) ∷ ("provider_error", true) ∷ [];
  mid_call_rules = ("technical_issue", true) ∷ [];
  window_start = 10 * hour;
  window_end = 17 * hour;
}

pub policy-IsSound : IsSound settings policy
unfolding window_within_bound intervals
policy-IsSound = record {
  spacing_each = refl;
  retries_capped = omega arith;
  spacing_allowed = ((omega arith, omega arith), ((omega arith, omega arith), tt));
  ends_differ = omega arith;
  within_hard = refl;
}

-- Noon in Kolkata, and eight in the evening.
abbrev pub noon : Time
noon = 2 * day + 6 * hour + 30 * minute

abbrev evening : Time
evening = 2 * day + 14 * hour + 30 * minute

kolkata_loaded : load_timezone zone_info campaign.timezone ≡ ok kolkata
unfolding load_timezone is_blank is_space
kolkata_loaded = refl

window_is_open-IsSound_example :
    window_is_open zone_info settings campaign policy noon
    ≡ is_within_calling_window kolkata noon policy.window_start policy.window_end
window_is_open-IsSound_example =
    window_is_open-IsSound zone_info settings campaign policy kolkata noon kolkata_loaded
      policy-IsSound (omega arith) (omega arith) (omega arith)

check_dial-eligible_iff_example :
    (check_dial phone_book zone_info settings db contact campaign (some policy) noon ≡ ok eligible)
    ↔ (IsReady phone_book zone_info settings db contact campaign noon
        × (window_is_open zone_info settings campaign policy noon ≡ ok true))
check_dial-eligible_iff_example =
    check_dial-eligible_iff phone_book zone_info settings db contact campaign noon (some policy)

shut_in_the_evening :
    check_dial phone_book zone_info settings db contact campaign (some policy) evening
    ≡ ok (refused outside_calling_window)
unfolding check_dial is_dialable_region window_is_open load_timezone is_blank is_space
    is_dialable_now is_within_calling_window intervals inside is_suppressed
shut_in_the_evening = refl

check_dial-transient_example :
    IsReady phone_book zone_info settings db contact campaign evening
    × ((window_is_open zone_info settings campaign policy evening ≡ ok false)
        ⊎ (window_is_open zone_info settings campaign policy evening ≡ err invalid_timezone))
unfolding transient
check_dial-transient_example =
    check_dial-transient phone_book zone_info settings db contact campaign evening (some policy)
      (refused outside_calling_window) shut_in_the_evening refl

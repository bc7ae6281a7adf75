-- ===== src/Policy.antt =====
-- The retry policy of a campaign (backend/app/services/retry_policy_service.py): defaults, the
-- effective policy, validation and the audited update.
--
-- The IANA database is not code of the repository: it is the parameter `zone_info`, which gives the
-- `Zone` of a name, or nothing where `ZoneInfo(name)` raises.
pub mod Sound
use ai_calling_agent.Common.{
  ℕ, ◌≤◌, Bool, true, false, not, ◌&&◌, ◌||◌, String, List, [], ◌∷◌, ◌++◌, Option, none, some, ltb,
  leb, ◌==◌, if◌then◌else◌, any, all, length, is_some, str_eq, map,
}
use ai_calling_agent.Common.Assoc.{merge, lookup}
use ai_calling_agent.Common.Result.{Result, ok, err, ◌>>=◌}
use ai_calling_agent.Common.Table.{put_row}
use ai_calling_agent.Common.Text.{Text, is_blank}
use ai_calling_agent.Calling.Window.{
  Time, TimeOfDay, Zone, WindowError, invalid_timezone, is_dialable_now, next_window_open,
  window_within_bound,
}
use ai_calling_agent.Model.{Uuid, Campaign, RetryPolicy, AuditEvent, Value, num, text, Db, Settings}

-- `load_timezone` of calling_window.py.
unfoldable pub load_timezone : (Text → Option Zone) → Text → Result WindowError Zone
load_timezone zone_info name =
    if is_blank name || ltb 64 (length name)
    then err invalid_timezone
    else elim (zone_info name) [ none ↦ err invalid_timezone | some z ↦ ok z ]

abbrev pub default_never_connected_rules : List (String × Bool)
default_never_connected_rules =
    ("no_answer", true)
    ∷ ("busy", true)
    ∷ ("invalid_number", false)
    ∷ ("rejected", false)
    ∷ ("network_error", true)
    ∷ ("provider_error", true)
    ∷ []

abbrev pub default_mid_call_rules : List (String × Bool)
default_mid_call_rules =
    ("technical_issue", true)
    ∷ ("network_problem", true)
    ∷ ("provider_error", true)
    ∷ ("ai_error", true)
    ∷ ("unknown", true)
    ∷ ("customer_hangup", false)
    ∷ []

-- `_NEVER_CONNECTED_KEYS` and `_MID_CALL_KEYS`: the values of the two enumerations.
abbrev pub never_connected_keys : List String
never_connected_keys =
    "no_answer" ∷ "busy" ∷ "invalid_number" ∷ "rejected" ∷ "network_error" ∷ "provider_error" ∷ []

abbrev pub mid_call_keys : List String
mid_call_keys =
    "technical_issue" ∷ "network_problem" ∷ "provider_error" ∷ "ai_error" ∷ "unknown"
    ∷ "customer_hangup" ∷ []

unfoldable pub build_default_policy : Settings → RetryPolicy
build_default_policy s = record {
  max_retries = s.default_max_retries;
  retry_spacing_seconds = s.default_retry_spacing_seconds;
  never_connected_rules = default_never_connected_rules;
  mid_call_rules = default_mid_call_rules;
  window_start = s.default_calling_window_start;
  window_end = s.default_calling_window_end;
}

-- A campaign without a stored row is judged by the default policy.
unfoldable pub get_effective_policy : Settings → Db → Campaign → RetryPolicy
get_effective_policy s db campaign = elim (db.policies campaign.id) [
  | none ↦ build_default_policy s
  | some stored ↦ stored
]

-- INSERT … ON CONFLICT DO NOTHING, and whether this call made the row.
unfoldable pub ensure_policy : Settings → Db → Uuid → Db × Bool
ensure_policy s db campaign_id = elim (db.policies campaign_id) [
  | some _ ↦ (db, false)
  | none ↦ (record db { policies = put_row campaign_id (build_default_policy s) db.policies }, true)
]

module _ (zone_info : Text → Option Zone) (s : Settings) where
  unfoldable pub window_is_open : Campaign → RetryPolicy → Time → Result WindowError Bool
  window_is_open campaign policy now = do
    zone ← load_timezone zone_info campaign.timezone
    is_dialable_now zone now policy.window_start policy.window_end s.hard_calling_window_start
        s.hard_calling_window_end

  unfoldable pub next_open_time : Campaign → RetryPolicy → Time → Result WindowError Time
  next_open_time campaign policy now = do
    zone ← load_timezone zone_info campaign.timezone
    next_window_open zone now policy.window_start policy.window_end s.hard_calling_window_start
        s.hard_calling_window_end

-- backend/app/schemas/retry_policy.py; `none` is an omitted field.
pub record RetryPolicyUpdate : Type 0 where
  pub max_retries : ℕ
  pub retry_spacing_seconds : List ℕ
  pub window_start : TimeOfDay
  pub window_end : TimeOfDay
  pub timezone : Option Text
  pub never_connected_rules : Option (List (String × Bool))
  pub mid_call_rules : Option (List (String × Bool))

pub data PolicyError : Type 0 where
  too_many_retries spacing_count spacing_range window_ends outside_hard_window unknown_reason
        bad_timezone campaign_not_found bad_hard_window :
      PolicyError

abbrev pub refuse_if : Bool → PolicyError → Result PolicyError (Unit {0})
refuse_if true e = err e
refuse_if false e = ok tt

-- `_validate_rules`; an omitted dictionary is not looked at.
unfoldable pub validate_rules :
    Option (List (String × Bool)) → List String → Result PolicyError (Unit {0})
validate_rules none allowed = ok tt
validate_rules (some rules) allowed =
    refuse_if (any (λ (r : String × Bool). not (any (λ k. str_eq r.0 k) allowed)) rules)
      unknown_reason

-- The windows differ in their ends, so an error is that of the hard bound.
unfoldable pub within_hard_window : Settings → TimeOfDay → TimeOfDay → Result PolicyError Bool
within_hard_window s start end =
    elim (window_within_bound start end s.hard_calling_window_start s.hard_calling_window_end) [
      | ok b ↦ ok b
      | err _ ↦ err bad_hard_window
    ]

unfoldable pub validate_policy_update : Settings → RetryPolicyUpdate → Result PolicyError (Unit {0})
unfolding within_hard_window
validate_policy_update s u = do
  _ ← refuse_if (ltb s.max_retries_ceiling u.max_retries) too_many_retries
  _ ← refuse_if (not (length u.retry_spacing_seconds == u.max_retries)) spacing_count
  _ ←
      refuse_if
        (any (λ n. not (leb s.min_retry_backoff_seconds n && leb n s.max_retry_backoff_seconds))
          u.retry_spacing_seconds)
        spacing_range
  _ ← refuse_if (u.window_start == u.window_end) window_ends
  within ← within_hard_window s u.window_start u.window_end
  _ ← refuse_if (not within) outside_hard_window
  _ ← validate_rules u.never_connected_rules never_connected_keys
  validate_rules u.mid_call_rules mid_call_keys

-- A dictionary of the request, if it is there, laid over the stored one.
abbrev pub merged : List (String × Bool) → Option (List (String × Bool)) → List (String × Bool)
merged old none = old
merged old (some new) = merge old new

-- The assignments of `put` to the locked row.
unfoldable pub apply_update : RetryPolicyUpdate → RetryPolicy → RetryPolicy
apply_update u policy = record {
  max_retries = u.max_retries;
  retry_spacing_seconds = u.retry_spacing_seconds;
  never_connected_rules = merged policy.never_connected_rules u.never_connected_rules;
  mid_call_rules = merged policy.mid_call_rules u.mid_call_rules;
  window_start = u.window_start;
  window_end = u.window_end;
}

-- The scalar part of `_snapshot`; an audit row has the snapshots before and after.
unfoldable pub snapshot : RetryPolicy → List (String × Value)
snapshot policy =
    ("max_retries", num policy.max_retries)
    ∷ ("window_start", num policy.window_start)
    ∷ ("window_end", num policy.window_end)
    ∷ []

unfoldable pub check_timezone : (Text → Option Zone) → Option Text → Result PolicyError (Unit {0})
check_timezone zone_info none = ok tt
check_timezone zone_info (some name) = elim (load_timezone zone_info name) [
  | ok _ ↦ ok tt
  | err _ ↦ err bad_timezone
]

abbrev pub with_timezone : Option Text → Campaign → Campaign
with_timezone none campaign = campaign
with_timezone (some name) campaign = record campaign { timezone = name }

unfoldable pub stored_policy : Settings → Db → Uuid → RetryPolicy
stored_policy s db campaign_id = elim (db.policies campaign_id) [
  | none ↦ build_default_policy s
  | some p ↦ p
]

-- What `put` writes, once the request is valid and the campaign's row is locked.
unfoldable pub save_policy : Settings → String → Db → Campaign → RetryPolicyUpdate → Db
unfolding stored_policy snapshot
save_policy s actor db campaign u =
    let (db1, _) = ensure_policy s db campaign.id in
    let before = stored_policy s db1 campaign.id in
    let after = apply_update u before in
    record db1 {
      policies = put_row campaign.id after db1.policies;
      campaigns = put_row campaign.id (with_timezone u.timezone campaign) db1.campaigns;
      audits =
          record {
            actor = actor;
            action = "retry_policy.updated";
            entity_type = "campaign";
            entity_id = some campaign.id;
            metadata = snapshot before ++ snapshot after;
          }
          ∷ db1.audits;
    }

abbrev pub find_campaign : Db → Uuid → Result PolicyError Campaign
find_campaign db campaign_id = elim (db.campaigns campaign_id) [
  | none ↦ err campaign_not_found
  | some c ↦ ok c
]

-- `RetryPolicyService.put`
unfoldable pub put :
    (Text → Option Zone) → Settings → String → Db → Uuid → RetryPolicyUpdate → Result PolicyError Db
unfolding save_policy check_timezone
put zone_info s actor db campaign_id u = do
  _ ← validate_policy_update s u
  _ ← check_timezone zone_info u.timezone
  campaign ← find_campaign db campaign_id
  ok (save_policy s actor db campaign u)

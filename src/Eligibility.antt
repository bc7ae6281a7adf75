-- ===== src/Eligibility.antt =====
-- Eligibility (backend/app/services/eligibility_service.py): may this contact be a member of this
-- campaign, and may it be dialed right now.
pub mod Exact
use ai_calling_agent.Common.{
  ℕ, Bool, true, false, ◌&&◌, ◌||◌, not, String, List, [], ◌∷◌, Option, none, some, if◌then◌else◌,
  is_some, any,
}
use ai_calling_agent.Common.Result.{Result, ok, err, ◌>>=◌}
use ai_calling_agent.Common.Text.{Text, text_in}
use ai_calling_agent.Phone.{PhoneLib, canonical_number, is_dialable_region}
use ai_calling_agent.Calling.Window.{Time, Zone, WindowError, invalid_timezone}
use ai_calling_agent.Model.{Contact, Campaign, RetryPolicy, Db, Settings}
use ai_calling_agent.Model.Enums.{
  ContactStatus, pending, dialing, retry_scheduled, closed, CampaignStatus, draft, active, paused,
}
use ai_calling_agent.Policy.{build_default_policy, window_is_open}

-- Why a check refused. The messages and codes of the source name these.
pub data Refusal : Type 0 where
  campaign_not_accepting contact_closed suppressed campaign_not_active purged contact_not_dialable
        region_not_allowed outside_calling_window :
      Refusal

-- `EligibilityResult`
pub data EligibilityResult : Type 0 where
  eligible : EligibilityResult
  refused : Refusal → EligibilityResult

-- `EligibilityResult.transient`: "not now".
unfoldable pub transient : EligibilityResult → Bool
transient (refused outside_calling_window) = true
transient _ = false

accepts_members : CampaignStatus → Bool
accepts_members draft = true
accepts_members active = true
accepts_members paused = true
accepts_members _ = false

abbrev pub is_closed : ContactStatus → Bool
is_closed closed = true
is_closed _ = false

abbrev pub is_active : CampaignStatus → Bool
is_active active = true
is_active _ = false

-- The statuses from which a dial may start.
unfoldable pub is_pre_dial : ContactStatus → Bool
is_pre_dial pending = true
is_pre_dial dialing = true
is_pre_dial retry_scheduled = true
is_pre_dial _ = false

-- A window that cannot be read for its time zone is held shut; other faults leave the check.
held_if_unreadable : Result WindowError Bool → Result WindowError Bool
held_if_unreadable (err invalid_timezone) = ok false
held_if_unreadable r = r

-- A campaign with no stored policy is judged by the default one.
abbrev pub judged_by : Settings → Option RetryPolicy → RetryPolicy
judged_by s none = build_default_policy s
judged_by s (some p) = p

module _ {Number : Type 0} (lib : PhoneLib Number) (s : Settings) where
  -- `SuppressionRepository.is_suppressed`
  unfoldable pub is_suppressed : Db → Text → Bool
  is_suppressed db number = text_in (canonical_number lib s.default_region number) db.suppressions

  -- `CampaignEligibilityService.check`
  unfoldable pub check_membership : Db → Contact → Campaign → EligibilityResult
  unfolding accepts_members
  check_membership db contact campaign =
      if not (accepts_members campaign.status)
      then refused campaign_not_accepting
      else if is_closed contact.status
      then refused contact_closed
      else if is_suppressed db contact.normalized_phone_number
      then refused suppressed
      else eligible

module _ {Number : Type 0} (lib : PhoneLib Number) (zone_info : Text → Option Zone)
    (s : Settings) where
  -- `DialEligibilityService.check`
  unfoldable pub check_dial :
      Db → Contact → Campaign → Option RetryPolicy → Time → Result WindowError EligibilityResult
  unfolding is_pre_dial held_if_unreadable
  check_dial db contact campaign retry_policy now =
      if not (is_active campaign.status)
      then ok (refused campaign_not_active)
      else if is_some contact.purged_at
      then ok (refused purged)
      else if not (is_pre_dial contact.status)
      then ok (refused contact_not_dialable)
      else if is_suppressed lib s db contact.normalized_phone_number
      then ok (refused suppressed)
      else if not (is_dialable_region lib contact.normalized_phone_number s.allowed_dial_regions)
      then ok (refused region_not_allowed)
      else do
        open_now ←
            held_if_unreadable (window_is_open zone_info s campaign (judged_by s retry_policy) now)
        if open_now then ok eligible else ok (refused outside_calling_window)

-- ===== src/Eligibility/Exact.antt =====
-- When the dial check passes, and when it says "not now".
use ai_calling_agent.Common.{true, false, Option, none, ◌≡◌, ◌↔◌, ◌⊎◌, inl, inr, refl, arith}
use ai_calling_agent.Common.Result.{ok, err}
use ai_calling_agent.Common.Text.{Text}
use ai_calling_agent.Phone.{PhoneLib, is_dialable_region}
use ai_calling_agent.Calling.Window.{Time, Zone, invalid_timezone}
use ai_calling_agent.Model.{Contact, Campaign, RetryPolicy, Db, Settings}
use ai_calling_agent.Model.Enums.{active}
use ai_calling_agent.Policy.{window_is_open}
use ai_calling_agent.Eligibility.{
  EligibilityResult, eligible, transient, is_pre_dial, is_suppressed, check_dial, judged_by,
}

module _ {Number : Type 0} (lib : PhoneLib Number) (zone_info : Text → Option Zone) (s : Settings)
    (db : Db) (contact : Contact) (campaign : Campaign) (now : Time) where
  -- All that must hold of a contact and its campaign besides the calling window.
  pub record IsReady : Type 0 where
    pub campaign_active : campaign.status ≡ active
    pub not_purged : contact.purged_at ≡ none
    pub pre_dial : is_pre_dial contact.status ≡ true
    pub not_suppressed : is_suppressed lib s db contact.normalized_phone_number ≡ false
    pub region_allowed :
        is_dialable_region lib contact.normalized_phone_number s.allowed_dial_regions ≡ true

  check_dial_open :
      (policy : Option RetryPolicy)
      → IsReady
      → window_is_open zone_info s campaign (judged_by s policy) now ≡ ok true
      → check_dial lib zone_info s db contact campaign policy now ≡ ok eligible
  unfolding check_dial
  check_dial_open policy ready opened = ground arith

  IsReady-check_dial :
      (policy : Option RetryPolicy) (r : EligibilityResult)
      → check_dial lib zone_info s db contact campaign policy now ≡ ok r
      → (r ≡ eligible) ⊎ (transient r ≡ true)
      → IsReady
  unfolding check_dial transient
  IsReady-check_dial policy r h verdict = record {
    campaign_active = ground arith;
    not_purged = ground arith;
    pre_dial = ground arith;
    not_suppressed = ground arith;
    region_allowed = ground arith;
  }

  window-check_dial :
      (policy : Option RetryPolicy)
      → check_dial lib zone_info s db contact campaign policy now ≡ ok eligible
      → window_is_open zone_info s campaign (judged_by s policy) now ≡ ok true
  unfolding check_dial
  window-check_dial policy h = ground arith

  -- A contact may be dialed exactly if its campaign is active, it is neither purged nor suppressed,
  -- its status is one from which a dial starts, its region is allowed, and the window of the policy
  -- in force is open.
  pub check_dial-eligible_iff :
      (policy : Option RetryPolicy)
      → (check_dial lib zone_info s db contact campaign policy now ≡ ok eligible)
        ↔ (IsReady × (window_is_open zone_info s campaign (judged_by s policy) now ≡ ok true))
  check_dial-eligible_iff policy = (
    λ h. (IsReady-check_dial policy eligible h (inl refl), window-check_dial policy h),
    λ h. check_dial_open policy h.0 h.1,
  )

  -- "Not now" is said only of a contact that nothing but the window keeps from being dialed, and
  -- the window is then shut, or its time zone cannot be read.
  pub check_dial-transient :
      (policy : Option RetryPolicy) (r : EligibilityResult)
      → check_dial lib zone_info s db contact campaign policy now ≡ ok r
      → transient r ≡ true
      → IsReady
        × ((window_is_open zone_info s campaign (judged_by s policy) now ≡ ok false)
            ⊎ (window_is_open zone_info s campaign (judged_by s policy) now ≡ err invalid_timezone))
  unfolding check_dial transient
  check_dial-transient policy r h verdict =
      (IsReady-check_dial policy r h (inr verdict), ground arith)

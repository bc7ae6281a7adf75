-- ===== src/Dialer/Attempts/Calm.antt =====
-- The writes of RecoveryManager and of the lookups neither make an attempt nor let one wait for the
-- provider.
use ai_calling_agent.Common.{ℕ, Bool, String, [], ◌∷◌, Option, refl, arith}
use ai_calling_agent.Calling.Window.{Time}
use ai_calling_agent.Model.{Uuid, CallAttempt, Contact, Campaign, Db, Settings}
use ai_calling_agent.Policy.{get_effective_policy}
use ai_calling_agent.Queue.Job.{IdempotencyKey, Purpose}
use ai_calling_agent.Phone.{PhoneLib}
use ai_calling_agent.Recovery.Manager.{
  World, Decision, StopReason, retry_in, stop, suppressed, campaign_completed, decide, log_event,
  schedule_retry, terminalize, enqueue_call_analysis, carry_out, handle_disconnect,
}
use ai_calling_agent.Dialer.Attempts.Rows.{
  IsCalm, IsCalm-refl, IsCalm-trans, IsCalm-same, log_event-IsCalm, record_audit-IsCalm,
  save_contact-IsCalm,
}

pub enqueue_call_analysis-IsCalm :
    (attempt : CallAttempt) (contact : Contact) (db : Db)
    → IsCalm db (enqueue_call_analysis attempt contact db)
unfolding enqueue_call_analysis
enqueue_call_analysis-IsCalm attempt contact db =
    let added : Db = record db { analyses = attempt.id ∷ db.analyses } in
    let logged =
      IsCalm-trans db added _ (IsCalm-same db added refl refl)
        (log_event-IsCalm attempt.id "ANALYSIS_QUEUED" [] added refl) in
    let audited = IsCalm-trans db _ _ logged (
      record_audit-IsCalm "analysis-admission" "analysis.queued" attempt.id []
        (log_event attempt.id "ANALYSIS_QUEUED" [] added)) in
    ground (arith, audited, IsCalm-refl db)

terminalize-IsCalm :
    (attempt : CallAttempt) (contact : Contact) (reason : StopReason) (w : World)
    → IsCalm w.db (terminalize attempt contact reason w).db
unfolding terminalize
terminalize-IsCalm attempt contact reason w =
    IsCalm-trans w.db _ _ (log_event-IsCalm attempt.id "RECOVERY_TERMINALIZED" _ w.db refl) (
      IsCalm-trans _ _ _ (record_audit-IsCalm _ _ _ _ _)
        (IsCalm-trans _ _ _ (save_contact-IsCalm _ _) (enqueue_call_analysis-IsCalm attempt _ _)))

module _ (uuid5 : IdempotencyKey → Purpose → Uuid) (redis_up : Bool) (s : Settings)
    (now : Time) where
  schedule_retry-IsCalm :
      (attempt : CallAttempt) (contact : Contact) (campaign : Campaign) (delay number : ℕ)
      (w : World)
      → IsCalm w.db (schedule_retry uuid5 redis_up s now attempt contact campaign delay number w).db
  unfolding schedule_retry
  schedule_retry-IsCalm attempt contact campaign delay number w =
      IsCalm-trans w.db _ _ (save_contact-IsCalm _ w.db) (
        IsCalm-trans _ _ _ (log_event-IsCalm attempt.id "RECOVERY_SCHEDULED" _ _ refl)
          (record_audit-IsCalm _ _ _ _ _))

  carry_out-IsCalm :
      (attempt : CallAttempt) (contact : Contact) (campaign : Campaign) (d : Decision) (w : World)
      → IsCalm w.db (carry_out uuid5 redis_up s now attempt contact campaign d w).0.db
  unfolding carry_out
  carry_out-IsCalm attempt contact campaign (retry_in delay number) w =
      schedule_retry-IsCalm attempt contact campaign delay number w
  carry_out-IsCalm attempt contact campaign (stop reason) w =
      terminalize-IsCalm attempt contact reason w

  pub handle_disconnect-IsCalm :
      {Number : Type 0} (lib : PhoneLib Number) (attempt : CallAttempt) (contact : Contact)
      (campaign : Campaign) (never_connected : Bool) (key : String) (hint : Option ℕ) (w : World)
      → IsCalm w.db
          (handle_disconnect uuid5 redis_up s now lib attempt contact campaign never_connected key
            hint w).0.db
  unfolding handle_disconnect
  handle_disconnect-IsCalm lib attempt contact campaign never_connected key hint w =
      let d =
        decide s w.db attempt (get_effective_policy s w.db campaign) never_connected key hint in
      ground (
        arith,
        terminalize-IsCalm attempt contact suppressed w,
        terminalize-IsCalm attempt contact campaign_completed w,
        carry_out-IsCalm attempt contact campaign d w,
      )

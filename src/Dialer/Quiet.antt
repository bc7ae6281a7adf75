-- ===== src/Dialer/Quiet.antt =====
-- The writes of the worker around a trigger that send no request, make no attempt and put none on
-- hold.
use ai_calling_agent.Common.{
  ℕ, ◌+◌, ◌-◌, true, false, String, List, [], ◌∷◌, Option, none, str_eq, ◌≡◌, refl, arith,
  Option-cases, inl, inr,
}
use ai_calling_agent.Model.{Uuid, CallAttempt, Contact, Db, Settings, num, text}
use ai_calling_agent.Model.Enums.{ContactStatus}
use ai_calling_agent.Phone.{PhoneLib}
use ai_calling_agent.Queue.Job.{IdempotencyKey, Purpose}
use ai_calling_agent.Recovery.Manager.{log_event, record_audit}
use ai_calling_agent.Dialer.Attempts.{attempt_of, change_attempt, ambiguous_event, held_event}
use ai_calling_agent.Dialer.Attempts.Calm.{handle_disconnect-IsCalm}
use ai_calling_agent.Dialer.Attempts.Rows.{
  IsCalm, IsCalm-refl, IsCalm-trans, change_attempt-IsCalm, log_event-IsCalm, record_audit-IsCalm,
  save_contact-IsCalm,
}
use ai_calling_agent.Dialer.Reconcile.{
  failed_attempt, adopted_attempt, reopened_attempt, reopen_for_adoption, audit_lookup,
  resolve_found_runs, reconcile_with_dograh, deferrals, optional_number, defer_or_expire,
  after_second_lookup, second_reconciliation_gate, never_connected_failure, record_trigger_failure,
  resolve_unresolved_claim,
}
use ai_calling_agent.Dialer.State.{State, Outside, Lookup, found_runs, lookup_timeout, lookup_error}

-- The two changes of a state that matter to a possible call.
abbrev pub IsQuiet : State → State → Type 0
IsQuiet st st' = IsCalm st.db st'.db × (st'.requests ≡ st.requests)

reopen_for_adoption-IsCalm :
    (attempt : CallAttempt) (contact : Contact) (db : Db)
    → IsCalm db (reopen_for_adoption attempt contact db)
unfolding reopen_for_adoption
reopen_for_adoption-IsCalm attempt contact db =
    IsCalm-trans db _ _
      (change_attempt-IsCalm attempt.id reopened_attempt db (λ a. (refl, refl, refl)))
      (save_contact-IsCalm _ _)

audit_lookup-IsCalm :
    (attempt : CallAttempt) (stage : String) (lookup : Lookup) (db : Db)
    → IsCalm db (audit_lookup attempt stage lookup db)
unfolding audit_lookup
audit_lookup-IsCalm attempt stage (found_runs _) db = IsCalm-refl db
audit_lookup-IsCalm attempt stage lookup_timeout db = record_audit-IsCalm _ _ _ _ db
audit_lookup-IsCalm attempt stage lookup_error db = record_audit-IsCalm _ _ _ _ db

module _ (str_of : ℕ → String) where
  resolve_found_runs-IsCalm :
      (attempt : CallAttempt) (run_id : ℕ) (more : List ℕ) (stage : String) (db : Db)
      → IsCalm db (resolve_found_runs str_of attempt run_id more stage db).0
  unfolding resolve_found_runs
  resolve_found_runs-IsCalm attempt run_id [] stage db =
      IsCalm-trans db _ _
        (change_attempt-IsCalm attempt.id (adopted_attempt (str_of run_id)) db
          (λ a. (refl, refl, refl)))
        (IsCalm-trans _ _ _ (log_event-IsCalm attempt.id "DOGRAH_TRIGGER_RECONCILED" _ _ refl)
          (record_audit-IsCalm _ _ _ _ _))
  resolve_found_runs-IsCalm attempt run_id (other ∷ more) stage db =
      IsCalm-trans db _ _ (log_event-IsCalm attempt.id "DOGRAH_RECONCILE_MULTIPLE" _ db refl)
        (record_audit-IsCalm _ _ _ _ _)

  pub reconcile_with_dograh-IsCalm :
      (attempt : CallAttempt) (lookup : Lookup) (db : Db)
      → IsCalm db (reconcile_with_dograh str_of attempt lookup db).0
  unfolding reconcile_with_dograh
  reconcile_with_dograh-IsCalm attempt (found_runs []) db = IsCalm-refl db
  reconcile_with_dograh-IsCalm attempt (found_runs (run_id ∷ more)) db =
      resolve_found_runs-IsCalm attempt run_id more "first" db
  reconcile_with_dograh-IsCalm attempt lookup_timeout db =
      audit_lookup-IsCalm attempt "first" lookup_timeout db
  reconcile_with_dograh-IsCalm attempt lookup_error db =
      audit_lookup-IsCalm attempt "first" lookup_error db

defer_or_expire-IsCalm :
    (s : Settings) (previous : CallAttempt) (contact : Contact) (db : Db)
    → IsCalm db (defer_or_expire s previous contact db).0
unfolding defer_or_expire
defer_or_expire-IsCalm s previous contact db =
    let deferred = deferrals previous.id db.audits in
    let expired =
      IsCalm-trans db _ _
        (record_audit-IsCalm "dialer-worker" "dograh.reconciliation_expired" previous.id
          (("deferrals", num deferred) ∷ []) db)
        (save_contact-IsCalm (record contact { status = ContactStatus.completed_partial }) _) in
    let again =
      record_audit-IsCalm "dialer-worker" "dograh.reconciliation_deferred" previous.id
        (("deferrals", num (deferred + 1)) ∷ []) db in
    ground (arith, expired, again)

module _ (str_of : ℕ → String) (s : Settings) where
  after_second_lookup-IsCalm :
      (previous : CallAttempt) (contact : Contact) (number : ℕ) (lookup : Lookup) (db : Db)
      → IsCalm db (after_second_lookup str_of s previous contact number lookup db).0
  unfolding after_second_lookup
  after_second_lookup-IsCalm previous contact number (found_runs []) db = ground (
    arith,
    IsCalm-refl db,
    record_audit-IsCalm "dialer-worker" "dograh.reconciliation_retry_allowed" previous.id
        (("next_attempt_number", num number) ∷ []) db,
  )
  after_second_lookup-IsCalm previous contact number (found_runs (run_id ∷ more)) db =
      let adopted =
        IsCalm-trans db _ _ (reopen_for_adoption-IsCalm previous contact db)
          (resolve_found_runs-IsCalm str_of previous run_id more "second" _) in
      ground (arith, IsCalm-refl db, adopted)
  after_second_lookup-IsCalm previous contact number lookup_timeout db =
      IsCalm-trans db _ _ (audit_lookup-IsCalm previous "second" lookup_timeout db)
        (defer_or_expire-IsCalm s previous contact _)
  after_second_lookup-IsCalm previous contact number lookup_error db =
      IsCalm-trans db _ _ (audit_lookup-IsCalm previous "second" lookup_error db)
        (defer_or_expire-IsCalm s previous contact _)

  pub second_reconciliation_gate-IsCalm :
      (contact : Contact) (number : ℕ) (lookup : Lookup) (db : Db)
      → IsCalm db (second_reconciliation_gate str_of s contact number lookup db).0
  unfolding second_reconciliation_gate
  second_reconciliation_gate-IsCalm contact number lookup db =
      elim (Option-cases (attempt_of db contact.id (number - 1))) [
        | inl e ↦ rw (second_reconciliation_gate, e) (IsCalm-refl db)
        | inr (previous, e) ↦
            rw (second_reconciliation_gate, e)
              (ground (
                arith,
                IsCalm-refl db,
                after_second_lookup-IsCalm previous contact number lookup db,
              ))
      ]

module _ {Number : Type 0} (lib : PhoneLib Number) (uuid5 : IdempotencyKey → Purpose → Uuid)
    (str_of : ℕ → String) (s : Settings) where
  never_connected_failure-IsQuiet :
      (o : Outside) (attempt : CallAttempt) (contact : Contact) (key : String) (hint : Option ℕ)
      (st : State)
      → IsQuiet st (never_connected_failure lib uuid5 str_of s o attempt contact key hint st)
  unfolding never_connected_failure
  never_connected_failure-IsQuiet o attempt contact key hint st =
      elim (Option-cases (st.db.campaigns contact.campaign_id)) [
        | inl e ↦ rw (never_connected_failure, e) (IsCalm-refl st.db, refl)
        | inr (campaign, e) ↦
            rw (never_connected_failure, e)
              (
                handle_disconnect-IsCalm uuid5 o.redis_up s o.now lib attempt contact campaign true
                    key hint (record { db = st.db; schedule = st.schedule }),
                refl,
              )
      ]

  pub record_trigger_failure-IsQuiet :
      (o : Outside) (attempt : CallAttempt) (contact : Contact) (event category key : String)
      (hint : Option ℕ) (st : State)
      → str_eq event held_event ≡ false
      → IsQuiet st
          (record_trigger_failure lib uuid5 str_of s o attempt contact event category key hint st)
  unfolding record_trigger_failure
  record_trigger_failure-IsQuiet o attempt contact event category key hint st other =
      let details =
        ("category", text category)
        ∷ ("reason_key", text key)
        ∷ ("retry_after_seconds", optional_number hint)
        ∷ [] in
      let failed = change_attempt attempt.id (failed_attempt o.now) st.db in
      let logged = log_event attempt.id event details failed in
      let action = Prim.Native.String.◌++◌ "dograh." key in
      let audited = record_audit "dialer-worker" action attempt.id details logged in
      let written =
        IsCalm-trans st.db failed audited
          (change_attempt-IsCalm attempt.id (failed_attempt o.now) st.db (λ a. (refl, refl, refl)))
          (IsCalm-trans failed logged audited
            (log_event-IsCalm attempt.id event details failed other)
            (record_audit-IsCalm "dialer-worker" action attempt.id details logged)) in
      let later =
        never_connected_failure-IsQuiet o (failed_attempt o.now attempt) contact key hint
          (record st { db = audited }) in
      (IsCalm-trans st.db audited _ written later.0, later.1)

  -- A lookup that resolves nothing is followed by a failure.
  pub resolve_unresolved_claim-IsQuiet :
      (o : Outside) (existing : CallAttempt) (contact : Contact) (st : State)
      → IsQuiet st (resolve_unresolved_claim lib uuid5 str_of s o existing contact st).0
  unfolding resolve_unresolved_claim
  resolve_unresolved_claim-IsQuiet o existing contact st =
      let calm = reconcile_with_dograh-IsCalm str_of existing o.first_lookup st.db in
      let db1 = (reconcile_with_dograh str_of existing o.first_lookup st.db).0 in
      let later =
        record_trigger_failure-IsQuiet o existing contact ambiguous_event "orphaned_claim"
          "provider_error" none (record st { db = db1 }) refl in
      let failed = IsCalm-trans st.db db1 _ calm later.0 in
      ground (arith, calm, failed, later, IsCalm-refl st.db)

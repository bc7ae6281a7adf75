-- ===== src/Dialer/Reconcile.antt =====
-- What the worker does about a trigger whose outcome it does not know: the two lookups of the
-- provider's runs, and the failure that RecoveryManager decides about.
--
-- `str_of` is Python's `str` of an integer. Of the metadata only what a decision or an operator
-- reads is kept.
use ai_calling_agent.Common.{
  ℕ, ◌+◌, ◌-◌, true, false, not, ◌&&◌, ◌||◌, String, List, [], ◌∷◌, Option, none, some, leb, ltb,
  ◌==◌, if◌then◌else◌, is_some, str_eq,
}
use ai_calling_agent.Calling.Window.{Time}
use ai_calling_agent.Model.{
  Uuid, Contact, CallAttempt, Db, AuditEvent, Settings, Value, num, text, nothing, seconds_of,
}
use ai_calling_agent.Model.Enums.{
  ContactStatus, CallAttemptState, failed_to_connect, NeverConnectedFailureReason,
}
use ai_calling_agent.Phone.{PhoneLib}
use ai_calling_agent.Queue.Job.{IdempotencyKey, Purpose}
use ai_calling_agent.Recovery.Manager.{log_event, record_audit, save_contact, handle_disconnect}
use ai_calling_agent.Dialer.Attempts.{
  attempt_of, change_attempt, is_initiated, is_unresolved_ambiguous_trigger, ambiguous_event,
}
use ai_calling_agent.Dialer.State.{
  State, Outside, Lookup, found_runs, lookup_timeout, lookup_error, JobOutcome, already_processed,
  reconciled_existing_run, reconcile_multiple_candidates, reconcile_deferred, reconcile_expired,
  in_flight, ambiguous_recovery,
}

-- A change of the session only.
abbrev pub on_db : (Db → Db) → State → State
on_db f st = record st { db = f st.db }

-- The assignments to an attempt whose trigger did not yield a run.
abbrev pub failed_attempt : Time → CallAttempt → CallAttempt
failed_attempt now a = record a {
  provider = some "dograh";
  state = failed_to_connect;
  connection_failure_reason = some NeverConnectedFailureReason.provider_error;
  ended_at = some now;
}

-- The attempt has the provider's run; what became of the call, its webhook says.
abbrev pub adopted_attempt : String → CallAttempt → CallAttempt
adopted_attempt run_id a = record a { provider = some "dograh"; provider_call_id = some run_id }

-- `reopen_for_adoption` of backend/app/services/telephony/dograh_reconciliation.py
abbrev pub reopened_attempt : CallAttempt → CallAttempt
reopened_attempt a = record a {
  state = CallAttemptState.initiated;
  ended_at = none;
  connection_failure_reason = none;
}

unfoldable pub reopen_for_adoption : CallAttempt → Contact → Db → Db
reopen_for_adoption attempt contact db =
    save_contact (record contact { status = ContactStatus.dialing })
      (change_attempt attempt.id reopened_attempt db)

abbrev pub optional_number : Option ℕ → Value
optional_number none = nothing
optional_number (some n) = num n

-- A failed lookup is audited; a trusted one is not.
unfoldable pub audit_lookup : CallAttempt → String → Lookup → Db → Db
audit_lookup attempt stage (found_runs _) db = db
audit_lookup attempt stage lookup_timeout db =
    record_audit "dialer-worker" "dograh.reconciliation_lookup_timeout" attempt.id
      (("stage", text stage) ∷ []) db
audit_lookup attempt stage lookup_error db =
    record_audit "dialer-worker" "dograh.reconciliation_lookup_error" attempt.id
      (("stage", text stage) ∷ []) db

module _ (str_of : ℕ → String) where
  -- `_resolve_found_runs`, of one run or more: one is adopted, of several none is chosen.
  unfoldable pub resolve_found_runs : CallAttempt → ℕ → List ℕ → String → Db → Db × JobOutcome
  resolve_found_runs attempt run_id [] stage db =
      let details = ("workflow_run_id", num run_id) ∷ ("stage", text stage) ∷ [] in
      (
        record_audit "dialer-worker" "dograh.reconciliation_run_adopted" attempt.id details (
            log_event attempt.id "DOGRAH_TRIGGER_RECONCILED" details
              (change_attempt attempt.id (adopted_attempt (str_of run_id)) db)),
        reconciled_existing_run,
      )
  resolve_found_runs attempt run_id (other ∷ more) stage db =
      let details = ("stage", text stage) ∷ [] in
      (
        record_audit "dialer-worker" "dograh.reconciliation_multiple_runs" attempt.id details
            (log_event attempt.id "DOGRAH_RECONCILE_MULTIPLE" details db),
        reconcile_multiple_candidates,
      )

  -- `_reconcile_with_dograh`: an outcome, or nothing resolved and a note.
  unfoldable pub reconcile_with_dograh : CallAttempt → Lookup → Db → Db × Option JobOutcome × String
  reconcile_with_dograh attempt (found_runs []) db = (db, none, "no_run_found")
  reconcile_with_dograh attempt (found_runs (run_id ∷ more)) db =
      let (db1, outcome) = resolve_found_runs attempt run_id more "first" db in
      (db1, some outcome, "resolved")
  reconcile_with_dograh attempt lookup_timeout db =
      (audit_lookup attempt "first" lookup_timeout db, none, "unavailable")
  reconcile_with_dograh attempt lookup_error db =
      (audit_lookup attempt "first" lookup_error db, none, "unavailable")

-- How often the retry has been deferred: audit rows on the previous attempt.
unfoldable pub deferrals : Uuid → List AuditEvent → ℕ
deferrals attempt [] = 0
deferrals attempt (a ∷ audits) =
    let rest = deferrals attempt audits in
    if str_eq a.entity_type "call_attempt"
      && (elim a.entity_id [ none ↦ false | some i ↦ i == attempt ])
      && str_eq a.action "dograh.reconciliation_deferred"
    then rest + 1
    else rest

-- `_defer_or_expire_reconciliation`
unfoldable pub defer_or_expire : Settings → CallAttempt → Contact → Db → Db × JobOutcome
defer_or_expire s previous contact db =
    let deferred = deferrals previous.id db.audits in
    if leb s.dograh_reconcile_max_deferrals deferred
    then (
      save_contact (record contact { status = ContactStatus.completed_partial })
          (record_audit "dialer-worker" "dograh.reconciliation_expired" previous.id
            (("deferrals", num deferred) ∷ []) db),
      reconcile_expired,
    )
    else (
      record_audit "dialer-worker" "dograh.reconciliation_deferred" previous.id
          (("deferrals", num (deferred + 1)) ∷ []) db,
      reconcile_deferred,
    )

module _ (str_of : ℕ → String) (s : Settings) where
  -- What follows a lookup before a retry. The row of the previous attempt is read again under a
  -- lock; nothing has changed it in the meantime here.
  unfoldable pub after_second_lookup :
      CallAttempt → Contact → ℕ → Lookup → Db → Db × Option JobOutcome
  after_second_lookup previous contact number (found_runs runs) db =
      if is_some (attempt_of db contact.id number)
      then (db, some already_processed)
      else elim runs [
        | [] ↦ (
          record_audit "dialer-worker" "dograh.reconciliation_retry_allowed" previous.id
              (("next_attempt_number", num number) ∷ []) db,
          none,
        )
        | run_id ∷ more ↦
            let (db1, outcome) =
              resolve_found_runs str_of previous run_id more "second"
                (reopen_for_adoption previous contact db) in
            (db1, some outcome)
      ]
  after_second_lookup previous contact number failed db =
      let (db1, outcome) =
        defer_or_expire s previous contact (audit_lookup previous "second" failed db) in
      (db1, some outcome)

  -- `_second_reconciliation_gate`: an outcome that blocks the dial, or none.
  unfoldable pub second_reconciliation_gate : Contact → ℕ → Lookup → Db → Db × Option JobOutcome
  second_reconciliation_gate contact number lookup db =
      elim (attempt_of db contact.id (number - 1)) [
        | none ↦ (db, none)
        | some previous ↦
            if is_initiated previous.state
            then (db, some already_processed)
            else if is_some previous.provider_call_id
                || not (is_unresolved_ambiguous_trigger db previous)
            then (db, none)
            else after_second_lookup previous contact number lookup db
      ]

module _ {Number : Type 0} (lib : PhoneLib Number) (uuid5 : IdempotencyKey → Purpose → Uuid)
    (str_of : ℕ → String) (s : Settings) where
  -- `_handle_never_connected_failure`
  unfoldable pub never_connected_failure :
      Outside → CallAttempt → Contact → String → Option ℕ → State → State
  never_connected_failure o attempt contact reason_key retry_after st =
      elim (st.db.campaigns contact.campaign_id) [
        | none ↦ st
        | some campaign ↦
            let w =
              (handle_disconnect uuid5 o.redis_up s o.now lib attempt contact campaign true
                reason_key retry_after (record { db = st.db; schedule = st.schedule })).0 in
            record st { db = w.db; schedule = w.schedule }
      ]

  -- `_record_dograh_trigger_failure`
  unfoldable pub record_trigger_failure :
      Outside → CallAttempt → Contact → String → String → String → Option ℕ → State → State
  record_trigger_failure o attempt contact event_type category reason_key retry_after st =
      let details =
        ("category", text category)
        ∷ ("reason_key", text reason_key)
        ∷ ("retry_after_seconds", optional_number retry_after)
        ∷ [] in
      never_connected_failure o (failed_attempt o.now attempt) contact reason_key retry_after (
        on_db
          (λ db.
            record_audit "dialer-worker" (Prim.Native.String.◌++◌ "dograh." reason_key) attempt.id
              details
              (log_event attempt.id event_type details
                (change_attempt attempt.id (failed_attempt o.now) db)))
          st)

  -- `_resolve_unresolved_dograh_claim`
  unfoldable pub resolve_unresolved_claim :
      Outside → CallAttempt → Contact → State → State × JobOutcome
  resolve_unresolved_claim o existing contact st =
      if not (is_initiated existing.state)
      then (st, already_processed)
      else if ltb o.now (
          existing.started_at
          + seconds_of (s.dograh_connect_timeout_seconds + s.dograh_read_timeout_seconds + 5))
      then (st, in_flight)
      else let (db1, resolved, note) = reconcile_with_dograh str_of existing o.first_lookup st.db in
        let st1 = record st { db = db1 } in
        elim resolved [
          | some outcome ↦ (st1, outcome)
          | none ↦ (
            record_trigger_failure o existing contact ambiguous_event "orphaned_claim"
                "provider_error" none st1,
            ambiguous_recovery,
          )
        ]

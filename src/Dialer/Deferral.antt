-- ===== src/Dialer/Deferral.antt =====
-- How often the retry after an ambiguous attempt is deferred.
use ai_calling_agent.Common.{ℕ, zero, suc, ◌+◌, leb, if◌then◌else◌, ◌≡◌, arith, ==_refl}
use ai_calling_agent.Model.{Contact, CallAttempt, Db, Settings}
use ai_calling_agent.Recovery.Manager.{record_audit, save_contact}
use ai_calling_agent.Dialer.Reconcile.{deferrals, defer_or_expire}
use ai_calling_agent.Dialer.State.{reconcile_deferred, reconcile_expired}

module _ (s : Settings) (previous : CallAttempt) (contact : Contact) where
  abbrev after : Db → Db
  after db = (defer_or_expire s previous contact db).0

  abbrev count : Db → ℕ
  count db = deferrals previous.id db.audits

  count-after :
      (db : Db)
      → count (after db)
        ≡ (if leb s.dograh_reconcile_max_deferrals (count db) then count db else count db + 1)
  unfolding defer_or_expire deferrals record_audit save_contact
  count-after db = let self = ==_refl previous.id in ground arith

  outcome-after :
      (db : Db)
      → (defer_or_expire s previous contact db).1 ≡ (
          if leb s.dograh_reconcile_max_deferrals (count db)
          then reconcile_expired
          else reconcile_deferred)
  unfolding defer_or_expire
  outcome-after db = ground arith

  -- The session after so many redeliveries whose lookups all fail.
  unfoldable pub deferred_times : ℕ → Db → Db
  deferred_times zero db = db
  deferred_times (suc n) db = deferred_times n (after db)

  -- However often the lookup before a retry fails: the retry is deferred until its deferrals reach
  -- the limit of the settings, those of before included, and the redelivery after that gives it up,
  -- as does each later one.
  pub defer_or_expire_bounded :
      (n : ℕ) (db : Db)
      → (defer_or_expire s previous contact (deferred_times n db)).1 ≡ (
          if leb s.dograh_reconcile_max_deferrals (deferrals previous.id db.audits + n)
          then reconcile_expired
          else reconcile_deferred)
  unfolding deferred_times
  defer_or_expire_bounded zero db = let now = outcome-after db in ground arith
  defer_or_expire_bounded (suc n) db =
      let later = defer_or_expire_bounded n (after db) in
      let counted = count-after db in ground arith

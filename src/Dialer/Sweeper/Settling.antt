-- ===== src/Dialer/Sweeper/Settling.antt =====
-- What a sweep writes to attempts and events.
use ai_calling_agent.Common.{
  ℕ, List, [], ◌∷◌, Option, none, some, refl, arith, Option-cases, inl, inr,
}
use ai_calling_agent.Calling.Window.{Time}
use ai_calling_agent.Model.{Uuid, CallAttempt, Db, text}
use ai_calling_agent.Outbound.Gate.{BlockReason}
use ai_calling_agent.Dialer.Attempts.{change_attempt, ambiguous_event}
use ai_calling_agent.Dialer.Attempts.Rows.{
  IsCalm, IsCalm-refl, IsCalm-trans, change_attempt-IsCalm, log_event-IsCalm, record_audit-IsCalm,
  save_contact-IsCalm,
}
use ai_calling_agent.Dialer.Sweeper.{
  swept_attempt, give_up, reviewed, review, mark_for_review, mark_all, sweep_stuck_attempts,
}

give_up-IsCalm : (now : Time) (a : CallAttempt) (db : Db) → IsCalm db (give_up now a db)
unfolding give_up
give_up-IsCalm now a db =
    let changed = change_attempt a.id (swept_attempt now) db in
    let marked =
      IsCalm-trans db changed _
        (change_attempt-IsCalm a.id (swept_attempt now) db (λ b. (refl, refl, refl)))
        (log_event-IsCalm a.id ambiguous_event
          (("category", text "swept_stuck") ∷ ("reconcile", text "not_attempted") ∷ []) changed
          refl) in
    ground (arith, marked, IsCalm-refl db)

review-IsCalm : (contact_id : Uuid) (db : Db) → IsCalm db (review contact_id db)
review-IsCalm contact_id db = elim (Option-cases (db.contacts contact_id)) [
  | inl e ↦ rw (review, e) (IsCalm-refl db)
  | inr (c, e) ↦ rw (review, e) (save_contact-IsCalm (reviewed c) db)
]

mark_for_review-IsCalm :
    (now : Time) (a : CallAttempt) (db : Db) → IsCalm db (mark_for_review now a db)
unfolding mark_for_review
mark_for_review-IsCalm now a db = IsCalm-trans db _ _ (give_up-IsCalm now a db) (
    IsCalm-trans _ _ _ (review-IsCalm a.contact_id (give_up now a db)) (
      IsCalm-trans _ _ _ (log_event-IsCalm a.id "SWEEPER_NEEDS_REVIEW" _ _ refl)
        (record_audit-IsCalm _ _ _ _ _)))

mark_all-IsCalm :
    (now : Time) (rows : List CallAttempt) (db : Db) → IsCalm db (mark_all now rows db)
unfolding mark_all
mark_all-IsCalm now [] db = IsCalm-refl db
mark_all-IsCalm now (a ∷ rows) db =
    IsCalm-trans db _ _ (mark_for_review-IsCalm now a db)
      (mark_all-IsCalm now rows (mark_for_review now a db))

pub sweep_stuck_attempts-IsCalm :
    (now stuck_after : Time) (limit : ℕ) (reason : Option BlockReason) (db : Db)
    → IsCalm db (sweep_stuck_attempts now stuck_after limit reason db).0
unfolding sweep_stuck_attempts
sweep_stuck_attempts-IsCalm now stuck_after limit (some reason) db = IsCalm-refl db
sweep_stuck_attempts-IsCalm now stuck_after limit none db = mark_all-IsCalm now _ db

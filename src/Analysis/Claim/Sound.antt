-- ===== src/Analysis/Claim/Sound.antt =====
-- What holds of the analyses and of the ledger at all times.
use ai_calling_agent.Common.{
  ℕ, ◌≤◌, Bool, true, ◌&&◌, String, List, [], ◌∷◌, Option, none, some, ◌≡◌, arith, is_some,
  Option-cases, inl, inr, Bool-cases,
}
use ai_calling_agent.Calling.Window.{Time}
use ai_calling_agent.Model.{Uuid}
use ai_calling_agent.Model.Enums.{failed}
use ai_calling_agent.Analysis.Claim.{
  CallAnalysis, Analyses, claim_for_processing, renew_lease, complete, schedule_retry, fail, fenced,
  finish_claim, reserve, is_processing, claimable, claimed_row, renewed_row, completed_row,
  retry_row, ended_row,
}
use ai_calling_agent.Analysis.Claim.Budget.{
  AnalysisSettings, BudgetDay, BudgetDecision, reserved, not_required, not_configured, cap_reached,
  Ledger, reserve_cost, upsert_day, release_cost,
}
use ai_calling_agent.Analysis.Claim.Ends.{
  get_or_create_pending, skip, skipped_row, budget_day_of, reserved_cost_of, finalize_exhausted,
  fail_rows,
}
use ai_calling_agent.Analysis.Claim.Runs.{
  OutcomeWrite, renewal, completion, retry, failure, skipping, write, AnalysisOp, admission,
  claiming, outcome, finalization, perform_op, perform_ops,
}
use ai_calling_agent.Analysis.Claim.Rows.{IsKept, written, any_token}
use ai_calling_agent.Analysis.Claim.Kept.{perform_ops-keeps}

-- A row in processing has an owner and a lease, any other has neither; and the claims so far are
-- within the limit.
pub record IsSoundRow (max_attempts : ℕ) (row : CallAnalysis) : Type 0 where
  pub owned : is_some row.claim_token ≡ is_processing row.status
  pub leased : is_some row.lease_expires_at ≡ is_processing row.status
  pub bounded : row.attempt_count ≤ max_attempts

abbrev pub IsSoundAt : ℕ → Option CallAnalysis → Type 0
IsSoundAt max_attempts none = Unit
IsSoundAt max_attempts (some row) = IsSoundRow max_attempts row

written_sound :
    (max_attempts : ℕ) (w : OutcomeWrite) (now : Time) (row : CallAnalysis)
    → IsSoundRow max_attempts row
    → is_processing row.status ≡ true
    → IsSoundRow max_attempts (written w now row)
unfolding written
written_sound max_attempts (renewal n) now row sound busy = ground arith
written_sound max_attempts (completion fields) now row sound busy = ground arith
written_sound max_attempts (retry code due refund) now row sound busy = ground arith
written_sound max_attempts (failure code) now row sound busy = ground arith
written_sound max_attempts (skipping code release_budget) now row sound busy = ground arith

sound-IsKept :
    (s : AnalysisSettings) (lease_seconds max_attempts : ℕ)
    → IsKept s lease_seconds max_attempts (λ t. Unit {0}) (IsSoundAt max_attempts)
sound-IsKept s lease_seconds max_attempts = record {
  admits = λ call_attempt_id due held. ground arith;
  claims = λ row t now day cost held drawn can. ground arith;
  defers = λ row decision now held. ground arith;
  writes = λ row w t now held mine. written_sound max_attempts w now row held (ground arith);
  ends = λ row now held gone. ground arith;
}

-- The reservations of a day are within the cap, which is set.
abbrev pub IsWithinCap : ℕ → Option ℕ → Type 0
IsWithinCap cap none = Unit
IsWithinCap cap (some spent) = spent ≤ cap

module _ (s : AnalysisSettings) (lease_seconds max_attempts cap : ℕ)
    (capped : s.daily_cap ≡ some cap) (day : BudgetDay) where
  reserve-within :
      (now : Time) (row : CallAnalysis) (ledger : Ledger)
      → IsWithinCap cap (ledger day)
      → IsWithinCap cap ((reserve s now row ledger).0 day)
  unfolding reserve reserve_cost upsert_day
  reserve-within now row ledger held = ground arith

  release-within :
      (d : Option BudgetDay) (cost : Option ℕ) (ledger : Ledger)
      → IsWithinCap cap (ledger day)
      → IsWithinCap cap (release_cost d cost ledger day)
  unfolding release_cost
  release-within d cost ledger held = ground arith

  admit-within :
      (id call_attempt_id : Uuid) (due : Option Time) (st : Analyses)
      → IsWithinCap cap (st.ledger day)
      → IsWithinCap cap (
          (perform_op s lease_seconds max_attempts (admission id call_attempt_id due) st).0.ledger
            day)
  unfolding perform_op get_or_create_pending
  admit-within id call_attempt_id due st held = ground arith

  finalize-within :
      (now : Time) (limit : ℕ) (scanned : List Uuid) (st : Analyses)
      → IsWithinCap cap (st.ledger day)
      → IsWithinCap cap ((finalize_exhausted now max_attempts limit scanned st).0.ledger day)
  unfolding finalize_exhausted fail_rows
  finalize-within now limit scanned st held = held

  finish-within :
      (id : Uuid) (now : Time) (row : CallAnalysis) (st : Analyses)
      (answer : Ledger × CallAnalysis × BudgetDecision)
      → IsWithinCap cap (st.ledger day)
      → IsWithinCap cap (answer.0 day)
      → IsWithinCap cap ((finish_claim s id now row answer st).0.ledger day)
  unfolding finish_claim
  finish-within id now row st (ledger, row', reserved) held after = after
  finish-within id now row st (ledger, row', not_required) held after = after
  finish-within id now row st (ledger, row', not_configured) held after = held
  finish-within id now row st (ledger, row', cap_reached) held after = held

  claim-within :
      (id token : Uuid) (now : Time) (st : Analyses)
      → IsWithinCap cap (st.ledger day)
      → IsWithinCap cap
          ((claim_for_processing s id token now lease_seconds max_attempts st).0.ledger day)
  unfolding claim_for_processing
  claim-within id token now st held = elim (Option-cases (st.rows id)) [
    | inl e ↦ rw (e, claim_for_processing) held
    | inr (row, e) ↦ elim (Bool-cases (claimable max_attempts now row)) [
      | inr no_claim ↦ rw (e, claim_for_processing) (rw no_claim held)
      | inl can ↦
          rw (e, claim_for_processing)
            (rw can (
              let mine = claimed_row token now lease_seconds row in
              finish-within id now row st (reserve s now mine st.ledger) held
                (reserve-within now mine st.ledger held)))
    ]
  ]

  fenced-ledger :
      (id token : Uuid) (change : CallAnalysis → CallAnalysis) (st : Analyses)
      → (fenced id token change st).0.ledger ≡ st.ledger
  unfolding fenced
  fenced-ledger id token change st = ground arith

  skip-within :
      (id token : Uuid) (now : Time) (code : String) (release_budget : Bool) (st : Analyses)
      → IsWithinCap cap (st.ledger day)
      → IsWithinCap cap ((skip id token now code release_budget st).0.ledger day)
  unfolding skip
  skip-within id token now code release_budget st held =
      let same = fenced-ledger id token (skipped_row now code release_budget) st in
      let row = st.rows id in
      elim (Bool-cases
        ((fenced id token (skipped_row now code release_budget) st).1 && release_budget)) [
          | inl yes_release ↦
              rw yes_release
                (rw same (release-within (budget_day_of row) (reserved_cost_of row) st.ledger held))
          | inr no_release ↦ rw no_release (rw same held)
        ]

  write-within :
      (w : OutcomeWrite) (id token : Uuid) (now : Time) (st : Analyses)
      → IsWithinCap cap (st.ledger day)
      → IsWithinCap cap ((write w id token now st).0.ledger day)
  unfolding write renew_lease complete schedule_retry fail
  write-within (renewal n) id token now st held =
      rw (fenced-ledger id token (renewed_row now n) st) held
  write-within (completion fields) id token now st held =
      rw (fenced-ledger id token (completed_row now fields) st) held
  write-within (retry code due refund) id token now st held =
      rw (fenced-ledger id token (retry_row now code due refund) st) held
  write-within (failure code) id token now st held =
      rw (fenced-ledger id token (ended_row failed now code) st) held
  write-within (skipping code release_budget) id token now st held =
      skip-within id token now code release_budget st held

  perform_op-within :
      (op : AnalysisOp) (st : Analyses)
      → IsWithinCap cap (st.ledger day)
      → IsWithinCap cap ((perform_op s lease_seconds max_attempts op st).0.ledger day)
  unfolding perform_op
  perform_op-within (admission id call_attempt_id due) st held =
      admit-within id call_attempt_id due st held
  perform_op-within (claiming id token now) st held = claim-within id token now st held
  perform_op-within (outcome w id token now) st held = write-within w id token now st held
  perform_op-within (finalization now limit scanned) st held =
      finalize-within now limit scanned st held

  perform_ops-within :
      (ops : List AnalysisOp) (st : Analyses)
      → IsWithinCap cap (st.ledger day)
      → IsWithinCap cap ((perform_ops s lease_seconds max_attempts ops st).ledger day)
  unfolding perform_ops
  perform_ops-within [] st held = held
  perform_ops-within (op ∷ ops) st held =
      perform_ops-within ops (perform_op s lease_seconds max_attempts op st).0
        (perform_op-within op st held)

-- Whatever any workers and sweepers claim, write, admit and finalize, from tables in which it
-- holds: an analysis in processing has an owner and a lease, any other has neither, no count of
-- attempts passes the limit, and the reservations of each day are within the cap that is set.
pub perform_ops_sound :
    (s : AnalysisSettings) (lease_seconds max_attempts cap : ℕ) (ops : List AnalysisOp)
    (st : Analyses)
    → s.daily_cap ≡ some cap
    → ((id : Uuid) → IsSoundAt max_attempts (st.rows id))
    → ((day : BudgetDay) → IsWithinCap cap (st.ledger day))
    → let st' = perform_ops s lease_seconds max_attempts ops st in
      ((id : Uuid) → IsSoundAt max_attempts (st'.rows id))
      × ((day : BudgetDay) → IsWithinCap cap (st'.ledger day))
perform_ops_sound s lease_seconds max_attempts cap ops st capped sound within = (
  λ id.
      perform_ops-keeps s lease_seconds max_attempts (λ t. Unit {0}) (IsSoundAt max_attempts)
        (sound-IsKept s lease_seconds max_attempts) id ops st (any_token ops) (sound id),
  λ day. perform_ops-within s lease_seconds max_attempts cap capped day ops st (within day),
)

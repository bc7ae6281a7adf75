-- ===== src/Analysis/Claim/Rows.antt =====
-- What the operations do to the row of one analysis, and the induction over any sequence of them.
use ai_calling_agent.Common.{
  ℕ, true, ◌&&◌, List, [], ◌∷◌, Option, none, some, ◌≡◌, refl, arith, All,
}
use ai_calling_agent.Calling.Window.{Time}
use ai_calling_agent.Model.{Uuid}
use ai_calling_agent.Model.Enums.{failed}
use ai_calling_agent.Analysis.Claim.{
  CallAnalysis, Analyses, renew_lease, complete, schedule_retry, fail, fenced, has_token,
  is_processing, claimed_row, claimable, deferred_row, renewed_row, completed_row, retry_row,
  ended_row,
}
use ai_calling_agent.Analysis.Claim.Budget.{AnalysisSettings, BudgetDay, BudgetDecision}
use ai_calling_agent.Analysis.Claim.Ends.{
  pending_row, skip, skipped_row, exhausted, lease_expired_code,
}
use ai_calling_agent.Analysis.Claim.Runs.{
  OutcomeWrite, renewal, completion, retry, failure, skipping, write, AnalysisOp, admission,
  claiming, outcome, finalization,
}

-- The row that a fenced write leaves.
unfoldable pub written : OutcomeWrite → Time → CallAnalysis → CallAnalysis
written (renewal lease_seconds) now row = renewed_row now lease_seconds row
written (completion fields) now row = completed_row now fields row
written (retry code due refund_attempt) now row = retry_row now code due refund_attempt row
written (failure code) now row = ended_row failed now code row
written (skipping code release_budget) now row = skipped_row now code release_budget row

pub write-rows :
    (w : OutcomeWrite) (id token : Uuid) (now : Time) (st : Analyses) (j : Uuid)
    → (write w id token now st).0.rows j ≡ (fenced id token (written w now) st).0.rows j
unfolding write written renew_lease complete schedule_retry fail skip
write-rows (renewal n) id token now st j = refl
write-rows (completion fields) id token now st j = refl
write-rows (retry code due refund) id token now st j = refl
write-rows (failure code) id token now st j = refl
write-rows (skipping code release_budget) id token now st j = ground arith

-- A property of the row of one analysis: what the operations must keep. `Drawn` is what is known of
-- the tokens that the claims draw.
pub record IsKept (s : AnalysisSettings) (lease_seconds max_attempts : ℕ) (Drawn : Uuid → Type 0)
    (Q : Option CallAnalysis → Type 0) : Type 0 where
  pub admits :
      (call_attempt_id : Uuid) (due : Option Time)
      → Q none
      → Q (some (pending_row call_attempt_id due))
  pub claims :
      (row : CallAnalysis) (token : Uuid) (now : Time) (day : Option BudgetDay) (cost : Option ℕ)
      → Q (some row)
      → Drawn token
      → claimable max_attempts now row ≡ true
      → Q (
          some (record (claimed_row token now lease_seconds row) {
            budget_day = day;
            reserved_cost = cost;
          }))
  pub defers :
      (row : CallAnalysis) (decision : BudgetDecision) (now : Time)
      → Q (some row)
      → Q (some (deferred_row s decision now row))
  pub writes :
      (row : CallAnalysis) (w : OutcomeWrite) (token : Uuid) (now : Time)
      → Q (some row)
      → has_token row.claim_token token && is_processing row.status ≡ true
      → Q (some (written w now row))
  pub ends :
      (row : CallAnalysis) (now : Time)
      → Q (some row)
      → exhausted max_attempts now (some row) ≡ true
      → Q (some (ended_row failed now lease_expired_code row))

-- The token that an operation draws.
abbrev pub Draws : (Uuid → Type 0) → AnalysisOp → Type 0
Draws Drawn (claiming id token now) = Drawn token
Draws Drawn _ = Unit

pub any_token : (ops : List AnalysisOp) → All (Draws (λ t. Unit {0})) ops
any_token [] = tt
any_token (admission id call_attempt_id due ∷ ops) = (tt, any_token ops)
any_token (claiming id token now ∷ ops) = (tt, any_token ops)
any_token (outcome w id token now ∷ ops) = (tt, any_token ops)
any_token (finalization now limit scanned ∷ ops) = (tt, any_token ops)

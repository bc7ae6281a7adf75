-- ===== src/Analysis/Claim/Fence.antt =====
-- A worker whose claim was taken over writes nothing, and a finished analysis stays as it is.
use ai_calling_agent.Common.{
  ℕ, Bool, true, false, List, Option, none, some, ◌≡◌, refl, ◌≢◌, arith, All,
}
use ai_calling_agent.Calling.Window.{Time}
use ai_calling_agent.Model.{Uuid}
use ai_calling_agent.Model.Enums.{AnalysisStatus, completed, failed, skipped}
use ai_calling_agent.Analysis.Claim.{
  CallAnalysis, Analyses, renew_lease, complete, schedule_retry, fail, fenced, has_token,
  claim_for_processing, finish_claim, reserve,
}
use ai_calling_agent.Analysis.Claim.Budget.{AnalysisSettings}
use ai_calling_agent.Analysis.Claim.Ends.{skip, skipped_row}
use ai_calling_agent.Analysis.Claim.Runs.{
  OutcomeWrite, renewal, completion, retry, failure, skipping, write, AnalysisOp, claiming,
  perform_op, perform_ops,
}
use ai_calling_agent.Analysis.Claim.Rows.{IsKept, Draws, written, any_token}
use ai_calling_agent.Analysis.Claim.Kept.{perform_ops-keeps}

-- The row names the token as its owner's.
abbrev pub holds_token : Option CallAnalysis → Uuid → Bool
holds_token none token = false
holds_token (some row) token = has_token row.claim_token token

fenced-lost :
    (id token : Uuid) (change : CallAnalysis → CallAnalysis) (st : Analyses)
    → holds_token (st.rows id) token ≡ false
    → fenced id token change st ≡ (st, false)
unfolding fenced
fenced-lost id token change st lost = ground arith

write-lost :
    (w : OutcomeWrite) (id token : Uuid) (now : Time) (st : Analyses)
    → holds_token (st.rows id) token ≡ false
    → write w id token now st ≡ (st, false)
unfolding write renew_lease complete schedule_retry fail skip
write-lost (renewal n) id token now st lost = fenced-lost id token _ st lost
write-lost (completion fields) id token now st lost = fenced-lost id token _ st lost
write-lost (retry code due refund) id token now st lost = fenced-lost id token _ st lost
write-lost (failure code) id token now st lost = fenced-lost id token _ st lost
write-lost (skipping code release_budget) id token now st lost =
    rw (fenced-lost id token (skipped_row now code release_budget) st lost) refl

written-token :
    (w : OutcomeWrite) (now : Time) (row : CallAnalysis) (token : Uuid)
    → has_token row.claim_token token ≡ false
    → holds_token (some (written w now row)) token ≡ false
unfolding written
written-token (renewal n) now row token lost = lost
written-token (completion fields) now row token lost = refl
written-token (retry code due refund) now row token lost = refl
written-token (failure code) now row token lost = refl
written-token (skipping code release_budget) now row token lost = ground arith

-- No operation gives a row the token of a worker that has lost it.
lost-IsKept :
    (s : AnalysisSettings) (lease_seconds max_attempts : ℕ) (token : Uuid)
    → IsKept s lease_seconds max_attempts (λ t. t ≢ token) (λ o. holds_token o token ≡ false)
lost-IsKept s lease_seconds max_attempts token = record {
  admits = λ call_attempt_id due held. refl;
  claims = λ row t now day cost held drawn can. ground arith;
  defers = λ row decision now held. ground arith;
  writes = λ row w t now held mine. written-token w now row token held;
  ends = λ row now held gone. refl;
}

abbrev pub is_finished : AnalysisStatus → Bool
is_finished completed = true
is_finished failed = true
is_finished skipped = true
is_finished _ = false

final-IsKept :
    (s : AnalysisSettings) (lease_seconds max_attempts : ℕ) (row : CallAnalysis)
    → is_finished row.status ≡ true
    → IsKept s lease_seconds max_attempts (λ t. Unit {0}) (λ o. o ≡ some row)
final-IsKept s lease_seconds max_attempts row done = record {
  admits = λ call_attempt_id due held. cc;
  claims = λ r t now day cost held drawn can. ground arith;
  defers = λ r decision now held. ground arith;
  writes = λ r w t now held mine. ground arith;
  ends = λ r now held gone. ground arith;
}

-- A claim that is given puts its own token on the row.
claim-token :
    (s : AnalysisSettings) (lease_seconds max_attempts : ℕ) (id mine theirs : Uuid) (now : Time)
    (st : Analyses)
    → theirs ≢ mine
    → (perform_op s lease_seconds max_attempts (claiming id theirs now) st).1 ≡ true
    → holds_token
        ((perform_op s lease_seconds max_attempts (claiming id theirs now) st).0.rows id)
        mine
      ≡ false
unfolding perform_op claim_for_processing finish_claim reserve
claim-token s lease_seconds max_attempts id mine theirs now st other given = ground arith

module _ (s : AnalysisSettings) (lease_seconds max_attempts : ℕ) where
  -- Once an analysis was claimed by another worker: whatever is claimed, written, admitted or
  -- finalized after that, each write of the former owner, be it a renewal, a result, a retry, a
  -- failure or a skip, reports failure and changes neither table. No claim draws the former owner's
  -- token.
  pub write_superseded :
      (id mine theirs : Uuid) (now later : Time) (w : OutcomeWrite) (ops : List AnalysisOp)
      (st : Analyses)
      → theirs ≢ mine
      → (perform_op s lease_seconds max_attempts (claiming id theirs now) st).1 ≡ true
      → All (Draws (λ t. t ≢ mine)) ops
      → let st' =
          perform_ops s lease_seconds max_attempts ops
            (perform_op s lease_seconds max_attempts (claiming id theirs now) st).0 in
        write w id mine later st' ≡ (st', false)
  write_superseded id mine theirs now later w ops st other given drawn =
      let after = (perform_op s lease_seconds max_attempts (claiming id theirs now) st).0 in
      write-lost w id mine later (perform_ops s lease_seconds max_attempts ops after) (
        perform_ops-keeps s lease_seconds max_attempts (λ t. t ≢ mine)
          (λ o. holds_token o mine ≡ false) (lost-IsKept s lease_seconds max_attempts mine) id ops
          after drawn (claim-token s lease_seconds max_attempts id mine theirs now st other given))

  -- A finished analysis, be it completed, failed or skipped, keeps its whole row whatever is
  -- claimed, written, admitted or finalized after that, under any tokens.
  pub perform_ops-finished :
      (id : Uuid) (row : CallAnalysis) (ops : List AnalysisOp) (st : Analyses)
      → st.rows id ≡ some row
      → is_finished row.status ≡ true
      → (perform_ops s lease_seconds max_attempts ops st).rows id ≡ some row
  perform_ops-finished id row ops st e done =
      perform_ops-keeps s lease_seconds max_attempts (λ t. Unit {0}) (λ o. o ≡ some row)
        (final-IsKept s lease_seconds max_attempts row done) id ops st (any_token ops) e

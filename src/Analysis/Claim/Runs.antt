-- ===== src/Analysis/Claim/Runs.antt =====
-- Any sequence of what the workers and sweepers do to the analyses. `limits` are the settings that
-- all of them share; the tokens, the clock and the fields are each call's own.
use ai_calling_agent.Common.{ℕ, Bool, true, false, String, List, [], ◌∷◌, Option, none, some}
use ai_calling_agent.Calling.Window.{Time}
use ai_calling_agent.Model.{Uuid, Value}
use ai_calling_agent.Analysis.Claim.{
  Analyses, ClaimResult, claimed, claim_for_processing, renew_lease, complete, schedule_retry, fail,
}
use ai_calling_agent.Analysis.Claim.Budget.{AnalysisSettings}
use ai_calling_agent.Analysis.Claim.Ends.{get_or_create_pending, skip, finalize_exhausted}

-- The writes that a token allows.
pub data OutcomeWrite : Type 0 where
  renewal : ℕ → OutcomeWrite
  completion : List (String × Value) → OutcomeWrite
  retry : String → Time → Bool → OutcomeWrite
  failure : String → OutcomeWrite
  skipping : String → Bool → OutcomeWrite

unfoldable pub write : OutcomeWrite → Uuid → Uuid → Time → Analyses → Analyses × Bool
write (renewal lease_seconds) id token now = renew_lease id token now lease_seconds
write (completion fields) id token now = complete id token now fields
write (retry code due refund_attempt) id token now =
    schedule_retry id token now code due refund_attempt
write (failure code) id token now = fail id token now code
write (skipping code release_budget) id token now = skip id token now code release_budget

pub data AnalysisOp : Type 0 where
  admission : (id call_attempt_id : Uuid) → Option Time → AnalysisOp
  claiming : (id token : Uuid) → Time → AnalysisOp
  outcome : OutcomeWrite → (id token : Uuid) → Time → AnalysisOp
  finalization : Time → ℕ → List Uuid → AnalysisOp

abbrev pub is_claimed : ClaimResult → Bool
is_claimed (claimed row) = true
is_claimed _ = false

-- An exception leaves the tables.
abbrev admission_result : Option (Analyses × Uuid × Bool) → Analyses → Analyses × Bool
admission_result none st = (st, false)
admission_result (some (st', _, created)) st = (st', created)

module _ (s : AnalysisSettings) (lease_seconds max_attempts : ℕ) where
  -- The operation on the tables, and whether it did what it was called for.
  unfoldable pub perform_op : AnalysisOp → Analyses → Analyses × Bool
  perform_op (admission id call_attempt_id due) st =
      admission_result (get_or_create_pending id call_attempt_id due st) st
  perform_op (claiming id token now) st =
      let (st', result) = claim_for_processing s id token now lease_seconds max_attempts st in
      (st', is_claimed result)
  perform_op (outcome w id token now) st = write w id token now st
  perform_op (finalization now limit scanned) st =
      ((finalize_exhausted now max_attempts limit scanned st).0, true)

  unfoldable pub perform_ops : List AnalysisOp → Analyses → Analyses
  perform_ops [] st = st
  perform_ops (op ∷ ops) st = perform_ops ops (perform_op op st).0

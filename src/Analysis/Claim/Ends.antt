-- ===== src/Analysis/Claim/Ends.antt =====
-- The other writes of backend/app/services/analysis/repository.py: the admission of an analysis,
-- the skip that gives its reservation back, and the end of those that can no longer be claimed.
use ai_calling_agent.Common.{
  ℕ, Bool, true, false, ◌&&◌, String, List, [], Option, none, some, ltb, leb, if◌then◌else◌, keep,
  take, length, elem,
}
use ai_calling_agent.Common.Table.{put_row}
use ai_calling_agent.Calling.Window.{Time}
use ai_calling_agent.Model.{Uuid}
use ai_calling_agent.Model.Enums.{
  AnalysisStatus, pending, processing, completed, failed, retry_wait, skipped,
}
use ai_calling_agent.Analysis.Claim.{CallAnalysis, Analyses, is_before, ended_row, fenced}
use ai_calling_agent.Analysis.Claim.Budget.{BudgetDay, release_cost}

abbrev pub pending_row : Uuid → Option Time → CallAnalysis
pending_row call_attempt_id next_attempt_at = record {
  call_attempt_id = call_attempt_id;
  status = pending;
  attempt_count = 0;
  claim_token = none;
  lease_expires_at = none;
  next_attempt_at = next_attempt_at;
  budget_day = none;
  reserved_cost = none;
  error_code = none;
  processing_started_at = none;
  completed_at = none;
  failed_at = none;
  fields = [];
}

-- `get_or_create_pending`: the id of the row, and whether this call made it. The unique constraint
-- makes the test and the insertion one step. `id` is drawn at random; one that is taken fails the
-- INSERT, and then the assertion that the row of the call attempt is there.
unfoldable pub get_or_create_pending :
    Uuid → Uuid → Option Time → Analyses → Option (Analyses × Uuid × Bool)
get_or_create_pending id call_attempt_id next_attempt_at st = elim (st.by_attempt call_attempt_id) [
  | some existing ↦ some (st, existing, false)
  | none ↦ elim (st.rows id) [
    | some _ ↦ none
    | none ↦ some (
      record st {
        rows = put_row id (pending_row call_attempt_id next_attempt_at) st.rows;
        by_attempt = put_row call_attempt_id id st.by_attempt;
      },
      id,
      true,
    )
  ]
]

-- What `skip` reads of the row before it writes.
abbrev pub budget_day_of : Option CallAnalysis → Option BudgetDay
budget_day_of none = none
budget_day_of (some row) = row.budget_day

abbrev pub reserved_cost_of : Option CallAnalysis → Option ℕ
reserved_cost_of none = none
reserved_cost_of (some row) = row.reserved_cost

-- `release_budget and reserved`
abbrev pub gives_back : Bool → Option ℕ → Bool
gives_back release_budget none = false
gives_back release_budget (some cost) = release_budget && ltb 0 cost

abbrev pub skipped_row : Time → String → Bool → CallAnalysis → CallAnalysis
skipped_row now code release_budget row =
    let ended = ended_row skipped now code row in
    if gives_back release_budget row.reserved_cost
    then record ended { reserved_cost = some 0 }
    else ended

-- `skip`
unfoldable pub skip : Uuid → Uuid → Time → String → Bool → Analyses → Analyses × Bool
skip id token now code release_budget st =
    let (st', applied) = fenced id token (skipped_row now code release_budget) st in
    if applied && release_budget
    then (
      record st' {
        ledger =
            release_cost (budget_day_of (st.rows id)) (reserved_cost_of (st.rows id)) st'.ledger;
      },
      applied,
    )
    else (st', applied)

-- The attempts are used up, and no worker owns the row.
abbrev pub has_no_owner : AnalysisStatus → CallAnalysis → Time → Bool
has_no_owner pending row now = true
has_no_owner retry_wait row now = true
has_no_owner processing row now = is_before row.lease_expires_at now
has_no_owner completed row now = false
has_no_owner failed row now = false
has_no_owner skipped row now = false

abbrev pub exhausted : ℕ → Time → Option CallAnalysis → Bool
exhausted max_attempts now none = false
exhausted max_attempts now (some row) =
    leb max_attempts row.attempt_count && has_no_owner row.status row now

abbrev pub lease_expired_code : String
lease_expired_code = "lease_expired_attempts_exhausted"

-- The UPDATE of the rows that the SELECT found.
abbrev pub fail_found : Time → Option CallAnalysis → Option CallAnalysis
fail_found now none = none
fail_found now (some row) = some (ended_row failed now lease_expired_code row)

unfoldable pub fail_rows : Time → List Uuid → Analyses → Analyses
fail_rows now ids st = record st {
  rows = λ (id : Uuid). if elem id ids then fail_found now (st.rows id) else st.rows id;
}

-- `finalize_exhausted`; `scanned` are the ids of the table in the order in which the SELECT meets
-- them, less those whose rows are locked by other transactions.
unfoldable pub finalize_exhausted : Time → ℕ → ℕ → List Uuid → Analyses → Analyses × ℕ
finalize_exhausted now max_attempts limit scanned st =
    let ids = take limit (keep (λ (id : Uuid). exhausted max_attempts now (st.rows id)) scanned) in
    (fail_rows now ids st, length ids)

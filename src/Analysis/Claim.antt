-- ===== src/Analysis/Claim.antt =====
-- Who may write the outcome of an analysis (backend/app/services/analysis/repository.py,
-- backend/app/services/analysis/budget.py): the claim with its fencing token and lease, the fenced
-- writes, and the ledger of the day's estimated spend.
--
-- A table is a function of its primary key. An UPDATE with its WHERE is one step, and a SAVEPOINT
-- that is rolled back returns the tables that it started from. A cost is a number of millionths,
-- as the columns are Numeric(12, 6). The result columns that `complete` is given as keywords are an
-- association list. Tokens drawn at random are arguments.
pub mod Budget
pub mod Ends
pub mod Runs
pub mod Rows
pub mod Kept
pub mod Fence
pub mod Sound
use ai_calling_agent.Common.{
  ℕ, ◌+◌, ◌-◌, Bool, true, false, ◌&&◌, ◌||◌, String, List, [], ◌∷◌, Option, none, some, ltb, leb,
  ◌==◌, if◌then◌else◌, keep, take, length, any,
}
use ai_calling_agent.Common.Assoc.{merge}
use ai_calling_agent.Common.Table.{put_row}
use ai_calling_agent.Calling.Window.{Time}
use ai_calling_agent.Model.{Uuid, Value, seconds_of}
use ai_calling_agent.Model.Enums.{
  AnalysisStatus, pending, processing, completed, failed, retry_wait, skipped,
}
use ai_calling_agent.Analysis.Claim.Budget.{
  AnalysisSettings, BudgetDay, Ledger, BudgetDecision, reserved, not_required, not_configured,
  cap_reached, reserve_cost, release_cost, decision_value,
}

-- CallAnalysis (backend/app/models/call_analysis.py), without the columns of bookkeeping.
pub record CallAnalysis : Type 0 where
  pub call_attempt_id : Uuid
  pub status : AnalysisStatus
  pub attempt_count : ℕ
  pub claim_token : Option Uuid
  pub lease_expires_at : Option Time
  pub next_attempt_at : Option Time
  pub budget_day : Option BudgetDay
  pub reserved_cost : Option ℕ
  pub error_code : Option String
  pub processing_started_at : Option Time
  pub completed_at : Option Time
  pub failed_at : Option Time
  pub fields : List (String × Value)

-- The table of analyses, by id, with its unique index on the call attempt, and the ledger of days.
pub record Analyses : Type 0 where
  pub rows : Uuid → Option CallAnalysis
  pub by_attempt : Uuid → Option Uuid
  pub ledger : Ledger

-- A column compared with a time: NULL compares as unknown, which a WHERE takes for no.
abbrev pub at_or_before : Option Time → Time → Bool
at_or_before none now = false
at_or_before (some t) now = leb t now

abbrev pub is_before : Option Time → Time → Bool
is_before none now = false
is_before (some t) now = ltb t now

abbrev pub unset_or_due : Option Time → Time → Bool
unset_or_due none now = true
unset_or_due (some t) now = leb t now

-- The status part of the WHERE of a claim: due, or left by a worker whose lease is up.
abbrev pub is_ready : AnalysisStatus → CallAnalysis → Time → Bool
is_ready pending row now = unset_or_due row.next_attempt_at now
is_ready retry_wait row now = at_or_before row.next_attempt_at now
is_ready processing row now = is_before row.lease_expires_at now
is_ready completed row now = false
is_ready failed row now = false
is_ready skipped row now = false

abbrev pub claimable : ℕ → Time → CallAnalysis → Bool
claimable max_attempts now row = ltb row.attempt_count max_attempts && is_ready row.status row now

abbrev pub claimed_row : Uuid → Time → ℕ → CallAnalysis → CallAnalysis
claimed_row token now lease_seconds row = record row {
  status = processing;
  attempt_count = row.attempt_count + 1;
  claim_token = some token;
  lease_expires_at = some (now + seconds_of lease_seconds);
  processing_started_at = some now;
  next_attempt_at = none;
}

-- `budget.reserve`: an analysis that holds a reservation never reserves again.
unfoldable pub reserve :
    AnalysisSettings → Time → CallAnalysis → Ledger → Ledger × CallAnalysis × BudgetDecision
reserve s now row ledger =
    if s.is_mock then (ledger, row, not_required) else elim row.reserved_cost [
      | some _ ↦ (ledger, row, reserved)
      | none ↦
          let (ledger', cost, decision) = reserve_cost s now ledger in
          elim cost [
            | none ↦ (ledger', row, decision)
            | some c ↦ (
              ledger',
              record row { budget_day = some (s.budget_day_for now); reserved_cost = some c },
              decision,
            )
          ]
    ]

-- The answer of a claim: the analysis is this worker's, it is put off with a reason, or it cannot
-- be claimed.
pub data ClaimResult : Type 0 where
  claimed : CallAnalysis → ClaimResult
  deferred : BudgetDecision → ClaimResult
  not_claimable : ClaimResult

-- `_defer`, at the row that the rolled back claim left as it was.
abbrev pub is_deferrable : AnalysisStatus → Bool
is_deferrable pending = true
is_deferrable retry_wait = true
is_deferrable _ = false

abbrev pub deferred_row : AnalysisSettings → BudgetDecision → Time → CallAnalysis → CallAnalysis
deferred_row s decision now row =
    if is_deferrable row.status
    then record row {
      next_attempt_at = some (now + seconds_of s.budget_recheck_seconds);
      error_code = some (decision_value decision);
    }
    else row

abbrev pub put_analysis : Uuid → CallAnalysis → Analyses → Analyses
put_analysis id row st = record st { rows = put_row id row st.rows }

-- The end of a claim's SAVEPOINT: the ledger and the row after the reservation, or the exception
-- that rolls both back.
unfoldable pub finish_claim :
    AnalysisSettings
    → Uuid
    → Time
    → CallAnalysis
    → Ledger × CallAnalysis × BudgetDecision
    → Analyses
    → Analyses × ClaimResult
finish_claim s id now row (ledger, row', reserved) st =
    (put_analysis id row' (record st { ledger = ledger }), claimed row')
finish_claim s id now row (ledger, row', not_required) st =
    (put_analysis id row' (record st { ledger = ledger }), claimed row')
finish_claim s id now row (ledger, row', not_configured) st =
    (put_analysis id (deferred_row s not_configured now row) st, deferred not_configured)
finish_claim s id now row (ledger, row', cap_reached) st =
    (put_analysis id (deferred_row s cap_reached now row) st, deferred cap_reached)

-- `claim_for_processing`
unfoldable pub claim_for_processing :
    AnalysisSettings → Uuid → Uuid → Time → ℕ → ℕ → Analyses → Analyses × ClaimResult
claim_for_processing s id token now lease_seconds max_attempts st = elim (st.rows id) [
  | none ↦ (st, not_claimable)
  | some row ↦
      if claimable max_attempts now row
      then finish_claim s id now row
          (reserve s now (claimed_row token now lease_seconds row) st.ledger) st
      else (st, not_claimable)
]

-- `_fenced`: only the owner of the claim writes, and only while the row is in processing.
abbrev pub is_processing : AnalysisStatus → Bool
is_processing processing = true
is_processing _ = false

abbrev pub has_token : Option Uuid → Uuid → Bool
has_token none token = false
has_token (some t) token = t == token

unfoldable pub fenced : Uuid → Uuid → (CallAnalysis → CallAnalysis) → Analyses → Analyses × Bool
fenced id token change st = elim (st.rows id) [
  | none ↦ (st, false)
  | some row ↦
      if has_token row.claim_token token && is_processing row.status
      then (put_analysis id (change row) st, true)
      else (st, false)
]

abbrev pub renewed_row : Time → ℕ → CallAnalysis → CallAnalysis
renewed_row now lease_seconds row = record row {
  lease_expires_at = some (now + seconds_of lease_seconds);
}

abbrev pub completed_row : Time → List (String × Value) → CallAnalysis → CallAnalysis
completed_row now fields row = record row {
  status = completed;
  completed_at = some now;
  error_code = none;
  claim_token = none;
  lease_expires_at = none;
  next_attempt_at = none;
  fields = merge row.fields fields;
}

-- A retry; polling for a result that is not ready gives its attempt back.
abbrev pub retry_row : Time → String → Time → Bool → CallAnalysis → CallAnalysis
retry_row now code due refund_attempt row = record row {
  status = retry_wait;
  failed_at = some now;
  error_code = some code;
  next_attempt_at = some due;
  claim_token = none;
  lease_expires_at = none;
  attempt_count = if refund_attempt then row.attempt_count - 1 else row.attempt_count;
}

-- The terminal end without a result, as `fail`, `skip` and `finalize_exhausted` write it.
abbrev pub ended_row : AnalysisStatus → Time → String → CallAnalysis → CallAnalysis
ended_row status now code row = record row {
  status = status;
  failed_at = some now;
  error_code = some code;
  claim_token = none;
  lease_expires_at = none;
  next_attempt_at = none;
}

unfoldable pub renew_lease : Uuid → Uuid → Time → ℕ → Analyses → Analyses × Bool
renew_lease id token now lease_seconds = fenced id token (renewed_row now lease_seconds)

unfoldable pub complete : Uuid → Uuid → Time → List (String × Value) → Analyses → Analyses × Bool
complete id token now fields = fenced id token (completed_row now fields)

unfoldable pub schedule_retry :
    Uuid → Uuid → Time → String → Time → Bool → Analyses → Analyses × Bool
schedule_retry id token now code due refund_attempt =
    fenced id token (retry_row now code due refund_attempt)

unfoldable pub fail : Uuid → Uuid → Time → String → Analyses → Analyses × Bool
fail id token now code = fenced id token (ended_row failed now code)

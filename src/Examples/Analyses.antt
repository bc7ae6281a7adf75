-- ===== src/Examples/Analyses.antt =====
-- An analysis whose worker lost its lease, one that is finished, and a day's cap.
use ai_calling_agent.Common.{
  ◌≡◌, refl, true, false, List, [], ◌∷◌, none, some, ◌==◌, if◌then◌else◌, arith,
}
use ai_calling_agent.Model.{Uuid}
use ai_calling_agent.Model.Enums.{pending, completed}
use ai_calling_agent.Analysis.Claim.{
  CallAnalysis, Analyses, claim_for_processing, finish_claim, reserve,
}
use ai_calling_agent.Analysis.Claim.Budget.{AnalysisSettings, BudgetDay}
use ai_calling_agent.Analysis.Claim.Ends.{pending_row}
use ai_calling_agent.Analysis.Claim.Runs.{
  AnalysisOp, claiming, outcome, admission, finalization, completion, retry, write, perform_op,
  perform_ops,
}
use ai_calling_agent.Analysis.Claim.Fence.{write_superseded, perform_ops-finished}
use ai_calling_agent.Analysis.Claim.Sound.{IsSoundAt, IsWithinCap, perform_ops_sound}

-- Ten units a day, of which an analysis takes four.
abbrev capped : AnalysisSettings
capped = record {
  is_mock = false;
  daily_cap = some 10;
  estimated_cost = some 4;
  budget_recheck_seconds = 900;
  budget_day_for = λ now. 0;
}

-- Analysis 5 was claimed with token 21, whose lease was up at 100.
abbrev left_row : CallAnalysis
left_row = record (pending_row 11 none) {
  status = ai_calling_agent.Model.Enums.processing;
  attempt_count = 1;
  claim_token = some 21;
  lease_expires_at = some 100;
  budget_day = some 0;
  reserved_cost = some 4;
}

abbrev finished_row : CallAnalysis
finished_row = record (pending_row 12 none) { status = completed; attempt_count = 1 }

abbrev tables : Analyses
tables = record {
  rows = λ i. if i == 5 then some left_row else if i == 6 then some finished_row else none;
  by_attempt = λ i. if i == 11 then some 5 else if i == 12 then some 6 else none;
  ledger = λ day. if day == 0 then some 4 else none;
}

-- Token 22 takes the analysis over, and asks for a retry.
abbrev taken_over : Analyses
taken_over = (perform_op capped 60 3 (claiming 5 22 200) tables).0

taken : (perform_op capped 60 3 (claiming 5 22 200) tables).1 ≡ true
unfolding perform_op claim_for_processing finish_claim reserve
taken = refl

abbrev later_ops : List AnalysisOp
later_ops = outcome (retry "provider_timeout" 400 false) 5 22 300 ∷ claiming 5 23 500 ∷ []

abbrev after_later : Analyses
after_later = perform_ops capped 60 3 later_ops taken_over

-- The first worker comes back with its result.
write_superseded_example : write (completion []) 5 21 600 after_later ≡ (after_later, false)
write_superseded_example =
    write_superseded capped 60 3 5 21 22 200 600 (completion []) later_ops tables (λ e. omega arith)
      taken (tt, (λ e. omega arith, tt))

perform_ops-finished_example :
    (perform_ops capped 60 3 (claiming 6 24 700 ∷ []) tables).rows 6 ≡ some finished_row
perform_ops-finished_example =
    perform_ops-finished capped 60 3 6 finished_row (claiming 6 24 700 ∷ []) tables refl refl

tables_sound : (id : Uuid) → IsSoundAt 3 (tables.rows id)
tables_sound id = ground arith

tables_within : (day : BudgetDay) → IsWithinCap 10 (tables.ledger day)
tables_within day = ground arith

-- Two more analyses are admitted; the budget of the day is enough for one of them.
abbrev busy_day : List AnalysisOp
busy_day =
    admission 7 13 none
    ∷ admission 8 14 none
    ∷ claiming 7 25 700
    ∷ claiming 8 26 700
    ∷ finalization 800 100 (5 ∷ 7 ∷ 8 ∷ [])
    ∷ []

perform_ops_sound_example :
    ((id : Uuid) → IsSoundAt 3 ((perform_ops capped 60 3 busy_day tables).rows id))
    × ((day : BudgetDay) → IsWithinCap 10 ((perform_ops capped 60 3 busy_day tables).ledger day))
perform_ops_sound_example =
    perform_ops_sound capped 60 3 10 busy_day tables refl tables_sound tables_within

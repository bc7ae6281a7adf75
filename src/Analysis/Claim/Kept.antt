-- ===== src/Analysis/Claim/Kept.antt =====
-- The induction over any sequence of operations: what each of them keeps of one row, all keep.
use ai_calling_agent.Common.{
  ℕ, Bool, true, ◌&&◌, List, [], ◌∷◌, Option, some, ◌≡◌, refl, arith, All, take, keep, elem, ◌==◌,
  ==_iff, zero, suc, Option-cases, Bool-cases, inl, inr,
}
use mathlib.Core.Path.{subst}
use ai_calling_agent.Common.Table.{put_row}
use ai_calling_agent.Calling.Window.{Time}
use ai_calling_agent.Model.{Uuid}
use ai_calling_agent.Analysis.Claim.{
  CallAnalysis, Analyses, claim_for_processing, fenced, has_token, is_processing, reserve,
  finish_claim, claimed_row, claimable, deferred_row,
}
use ai_calling_agent.Analysis.Claim.Budget.{
  AnalysisSettings, BudgetDay, BudgetDecision, Ledger, reserved, not_required, not_configured,
  cap_reached, reserve_cost,
}
use ai_calling_agent.Analysis.Claim.Ends.{
  get_or_create_pending, pending_row, finalize_exhausted, fail_rows, exhausted,
}
use ai_calling_agent.Analysis.Claim.Runs.{
  OutcomeWrite, AnalysisOp, admission, claiming, outcome, finalization, perform_op, perform_ops,
}
use ai_calling_agent.Analysis.Claim.Rows.{Draws, IsKept, write-rows, written}

-- A reservation changes the two columns of the budget, if anything.
reserve-row :
    (s : AnalysisSettings) (now : Time) (row : CallAnalysis) (ledger : Ledger)
    → (day : Option BudgetDay) × (cost : Option ℕ) × ((reserve s now row ledger).1
        ≡ record row { budget_day = day; reserved_cost = cost })
unfolding reserve
reserve-row s now row ledger = elim (Bool-cases s.is_mock) [
  | inl mock ↦ (row.budget_day, row.reserved_cost, rw mock refl)
  | inr real ↦ elim (Option-cases row.reserved_cost) [
    | inr (c, e) ↦ (row.budget_day, row.reserved_cost, ground arith)
    | inl e ↦ elim (Option-cases (reserve_cost s now ledger).1) [
      | inl no_cost ↦ (row.budget_day, row.reserved_cost, ground arith)
      | inr (c, e') ↦ (some (s.budget_day_for now), some c, ground arith)
    ]
  ]
]

elem-take : (n : ℕ) (ids : List Uuid) (j : Uuid) → elem j (take n ids) ≡ true → elem j ids ≡ true
elem-take zero ids j found = cc
elem-take (suc n) [] j found = cc
elem-take (suc n) (i ∷ ids) j found = let rest = elem-take n ids j in ground arith

elem-keep :
    (test : Uuid → Bool) (ids : List Uuid) (j : Uuid)
    → elem j (keep test ids) ≡ true
    → test j ≡ true
elem-keep test [] j found = cc
elem-keep test (i ∷ ids) j found =
    let rest = elem-keep test ids j in
    elim (Bool-cases (j == i)) [
      | inl same ↦
          let e = (==_iff j i).0 same in
          elim (Bool-cases (test i)) [ inl here ↦ rw e here | inr out ↦ rest (rw out at found) ]
      | inr other ↦ elim (Bool-cases (test i)) [
        | inl here ↦ rest (rw (other) at (rw here at found))
        | inr out ↦ rest (rw out at found)
      ]
    ]

-- An id that is found passes the test of the SELECT.
elem-take-keep :
    (n : ℕ) (test : Uuid → Bool) (ids : List Uuid) (j : Uuid)
    → elem j (take n (keep test ids)) ≡ true
    → test j ≡ true
elem-take-keep n test ids j found = elem-keep test ids j (elem-take n (keep test ids) j found)

module _ (s : AnalysisSettings) (lease_seconds max_attempts : ℕ) (Drawn : Uuid → Type 0)
    (Q : Option CallAnalysis → Type 0) (kept : IsKept s lease_seconds max_attempts Drawn Q)
    (id : Uuid) where
  -- A row is written: the property holds at `id` if it holds of the new row, should that be its.
  put-keeps :
      (rows : Uuid → Option CallAnalysis) (j : Uuid) (row : CallAnalysis)
      → Q (rows id)
      → (Q (rows j) → Q (some row))
      → Q (put_row j row rows id)
  put-keeps rows j row held changes = elim (Bool-cases (id == j)) [
    | inl same ↦ let e = (==_iff id j).0 same in rw same (changes (subst (λ k. Q (rows k)) e held))
    | inr other ↦ rw other held
  ]

  fenced-keeps :
      (j token : Uuid) (w : OutcomeWrite) (now : Time) (st : Analyses)
      → Q (st.rows id)
      → Q ((fenced j token (written w now) st).0.rows id)
  unfolding fenced
  fenced-keeps j token w now st held = elim (Option-cases (st.rows j)) [
    | inl e ↦ rw (e, fenced) held
    | inr (row, e) ↦
        elim (Bool-cases (has_token row.claim_token token && is_processing row.status)) [
          | inl mine ↦
              rw (e, fenced)
                (rw mine (
                  put-keeps st.rows j (written w now row) held
                    (λ held'. kept.writes row w token now (subst Q e held') mine)))
          | inr not_mine ↦ rw (e, fenced) (rw not_mine held)
        ]
  ]

  finish-keeps :
      (j : Uuid) (now : Time) (token : Uuid) (row : CallAnalysis) (st : Analyses)
      (answer : Ledger × CallAnalysis × BudgetDecision)
      → st.rows j ≡ some row
      → (Q (some row) → Q (some answer.1))
      → Q (st.rows id)
      → Q ((finish_claim s j now row answer st).0.rows id)
  unfolding finish_claim
  finish-keeps j now token row st (ledger, row', reserved) e gives held =
      put-keeps st.rows j row' held (λ held'. gives (subst Q e held'))
  finish-keeps j now token row st (ledger, row', not_required) e gives held =
      put-keeps st.rows j row' held (λ held'. gives (subst Q e held'))
  finish-keeps j now token row st (ledger, row', not_configured) e gives held =
      put-keeps st.rows j (deferred_row s not_configured now row) held
        (λ held'. kept.defers row not_configured now (subst Q e held'))
  finish-keeps j now token row st (ledger, row', cap_reached) e gives held =
      put-keeps st.rows j (deferred_row s cap_reached now row) held
        (λ held'. kept.defers row cap_reached now (subst Q e held'))

  claim-keeps :
      (j token : Uuid) (now : Time) (st : Analyses)
      → Drawn token
      → Q (st.rows id)
      → Q ((claim_for_processing s j token now lease_seconds max_attempts st).0.rows id)
  unfolding claim_for_processing
  claim-keeps j token now st drawn held = elim (Option-cases (st.rows j)) [
    | inl e ↦ rw (e, claim_for_processing) held
    | inr (row, e) ↦ elim (Bool-cases (claimable max_attempts now row)) [
      | inr no_claim ↦ rw (e, claim_for_processing) (rw no_claim held)
      | inl can ↦
          let mine = claimed_row token now lease_seconds row in
          let (day, cost, same) = reserve-row s now mine st.ledger in
          rw (e, claim_for_processing)
            (rw can (
              finish-keeps j now token row st (reserve s now mine st.ledger) e
                (λ held'. rw same (kept.claims row token now day cost held' drawn can)) held))
    ]
  ]

  admit-keeps :
      (j call_attempt_id : Uuid) (due : Option Time) (st : Analyses)
      → Q (st.rows id)
      → Q ((perform_op s lease_seconds max_attempts (admission j call_attempt_id due) st).0.rows id)
  unfolding perform_op get_or_create_pending
  admit-keeps j call_attempt_id due st held = elim (Option-cases (st.by_attempt call_attempt_id)) [
    | inr (existing, e) ↦ rw (e, get_or_create_pending) held
    | inl e ↦ elim (Option-cases (st.rows j)) [
      | inr (row, e') ↦ rw (e, get_or_create_pending) (rw (e', get_or_create_pending) held)
      | inl e' ↦
          rw (e, get_or_create_pending)
            (rw (e', get_or_create_pending)
              (put-keeps st.rows j (pending_row call_attempt_id due) held
                (λ held'. kept.admits call_attempt_id due (subst Q e' held'))))
    ]
  ]

  finalize-keeps :
      (now : Time) (limit : ℕ) (scanned : List Uuid) (st : Analyses)
      → Q (st.rows id)
      → Q ((finalize_exhausted now max_attempts limit scanned st).0.rows id)
  unfolding finalize_exhausted fail_rows
  finalize-keeps now limit scanned st held =
      let test = λ (j : Uuid). exhausted max_attempts now (st.rows j) in
      elim (Bool-cases (elem id (take limit (keep test scanned)))) [
        | inr out ↦ rw out held
        | inl found ↦
            let gone = elem-take-keep limit test scanned id found in
            rw found (elim (Option-cases (st.rows id)) [
              | inl e ↦ rw e (subst Q e held)
              | inr (row, e) ↦ rw e (
                  kept.ends row now (subst Q e held) (
                    subst (λ (o : Option CallAnalysis). exhausted max_attempts now o ≡ true) e
                      gone))
            ])
      ]

  perform_op-keeps :
      (op : AnalysisOp) (st : Analyses)
      → Draws Drawn op
      → Q (st.rows id)
      → Q ((perform_op s lease_seconds max_attempts op st).0.rows id)
  unfolding perform_op
  perform_op-keeps (admission j call_attempt_id due) st drawn held =
      admit-keeps j call_attempt_id due st held
  perform_op-keeps (claiming j token now) st drawn held = claim-keeps j token now st drawn held
  perform_op-keeps (outcome w j token now) st drawn held =
      rw (write-rows w j token now st id) (fenced-keeps j token w now st held)
  perform_op-keeps (finalization now limit scanned) st drawn held =
      finalize-keeps now limit scanned st held

  pub perform_ops-keeps :
      (ops : List AnalysisOp) (st : Analyses)
      → All (Draws Drawn) ops
      → Q (st.rows id)
      → Q ((perform_ops s lease_seconds max_attempts ops st).rows id)
  unfolding perform_ops
  perform_ops-keeps [] st drawn held = held
  perform_ops-keeps (op ∷ ops) st drawn held =
      perform_ops-keeps ops (perform_op s lease_seconds max_attempts op st).0 drawn.1
        (perform_op-keeps op st drawn.0 held)

-- ===== src/Examples/Leads.antt =====
-- A lead that asks for a price, and one that also wants a call back.
use ai_calling_agent.Common.{◌≤◌, true, false, arith}
use ai_calling_agent.Analysis.Scoring.{
  ScoringSignals, compute_lead_score, IsNoWorse, compute_lead_score_mono,
}

abbrev asks_price : ScoringSignals
asks_price = record {
  explicit_interest = true;
  purchase_intent = false;
  requested_callback = false;
  requested_pricing = true;
  has_timeline = false;
  information_requested = false;
  objection_count = 2;
  explicit_rejection = false;
  opted_out = false;
}

abbrev wants_call : ScoringSignals
wants_call = record asks_price { requested_callback = true; objection_count = 1 }

wants_call-IsNoWorse : IsNoWorse asks_price wants_call
wants_call-IsNoWorse = record {
  interest = omega arith;
  intent = omega arith;
  callback = omega arith;
  pricing = omega arith;
  timeline = omega arith;
  information = omega arith;
  objections = omega arith;
  rejection = omega arith;
  opt_out = omega arith;
}

compute_lead_score_mono_example :
    (compute_lead_score asks_price ≤ compute_lead_score wants_call)
    × (compute_lead_score wants_call ≤ 100)
compute_lead_score_mono_example = compute_lead_score_mono asks_price wants_call wants_call-IsNoWorse

-- ===== src/Analysis/Scoring.antt =====
-- The lead score (backend/app/services/analysis/scoring.py). The source clamps a negative sum to
-- zero at the end; the subtractions here stop at zero, which gives the same number.
use ai_calling_agent.Common.{ℕ, ◌+◌, ◌*◌, ◌-◌, ◌≤◌, Bool, if◌then◌else◌, min, arith}

-- `ScoringSignals`
pub record ScoringSignals : Type 0 where
  pub explicit_interest : Bool
  pub purchase_intent : Bool
  pub requested_callback : Bool
  pub requested_pricing : Bool
  pub has_timeline : Bool
  pub information_requested : Bool
  pub objection_count : ℕ
  pub explicit_rejection : Bool
  pub opted_out : Bool

abbrev points : Bool → ℕ → ℕ
points signal n = if signal then n else 0

-- The sum of what speaks for the lead.
positive_points : ScoringSignals → ℕ
positive_points signals =
    points signals.explicit_interest 35
    + points signals.purchase_intent 25
    + points signals.requested_callback 20
    + points signals.requested_pricing 10
    + points signals.has_timeline 10
    + points signals.information_requested 10

objection_penalty : ScoringSignals → ℕ
objection_penalty signals = min (signals.objection_count * 8) 24

unfoldable pub compute_lead_score : ScoringSignals → ℕ
unfolding positive_points objection_penalty
compute_lead_score signals =
    if signals.opted_out
    then 0
    else min 100
        (positive_points signals - objection_penalty signals - points signals.explicit_rejection 40)

-- The second lead has every positive signal of the first, no more objections, and no rejection or
-- opt-out that the first has not.
pub record IsNoWorse (a b : ScoringSignals) : Type 0 where
  pub interest : points a.explicit_interest 1 ≤ points b.explicit_interest 1
  pub intent : points a.purchase_intent 1 ≤ points b.purchase_intent 1
  pub callback : points a.requested_callback 1 ≤ points b.requested_callback 1
  pub pricing : points a.requested_pricing 1 ≤ points b.requested_pricing 1
  pub timeline : points a.has_timeline 1 ≤ points b.has_timeline 1
  pub information : points a.information_requested 1 ≤ points b.information_requested 1
  pub objections : b.objection_count ≤ a.objection_count
  pub rejection : points b.explicit_rejection 1 ≤ points a.explicit_rejection 1
  pub opt_out : points b.opted_out 1 ≤ points a.opted_out 1

scaled : (n : ℕ) (a b : Bool) → points a 1 ≤ points b 1 → points a n ≤ points b n
scaled n a b h = ground arith

positive_points_mono :
    (a b : ScoringSignals) → IsNoWorse a b → positive_points a ≤ positive_points b
unfolding positive_points
positive_points_mono a b w = omega (
  arith,
  scaled 35 _ _ w.interest,
  scaled 25 _ _ w.intent,
  scaled 20 _ _ w.callback,
  scaled 10 _ _ w.pricing,
  scaled 10 _ _ w.timeline,
  scaled 10 _ _ w.information,
)

-- A lead that is no worse in every signal has no lower a score, and no score is above 100.
pub compute_lead_score_mono :
    (a b : ScoringSignals)
    → IsNoWorse a b
    → (compute_lead_score a ≤ compute_lead_score b) × (compute_lead_score b ≤ 100)
unfolding compute_lead_score objection_penalty
compute_lead_score_mono a b w =
    let more = positive_points_mono a b w in
    let rejected = scaled 40 _ _ w.rejection in
    (ground (arith, more, rejected, w.objections, w.opt_out), ground arith)

-- ===== src/Dialer/Once/Placing.antt =====
-- A trigger after a claim, and the invariant.
use ai_calling_agent.Common.{
  ℕ, ◌+◌, ◌≤◌, ◌<◌, true, false, List, ◌∷◌, ◌≡◌, arith, ◌∙◌, sym, inl, inr, Bool-cases, ◌⊎◌,
}
use ai_calling_agent.Model.{Uuid, CallAttempt, Db}
use ai_calling_agent.Telephony.Client.Placed.{may_be_placed}
use ai_calling_agent.Dialer.Attempts.Rows.{IsCalm}
use ai_calling_agent.Dialer.Trigger.Ending.{IsHolding}
use ai_calling_agent.Dialer.Once.{placed, IsUnique, IsSettled, IsSafe, IsSettled-calm}
use ai_calling_agent.Dialer.Once.Claiming.{IsClaimed}
use ai_calling_agent.Dialer.State.{Request}

-- A request adds at most one to the count of its own attempt, and nothing to another's.
placed-cons :
    (c : Uuid) (n : ℕ) (r : Request) (requests : List Request)
    → (placed c n (r ∷ requests) ≡ placed c n requests)
      ⊎ ((placed c n (r ∷ requests) ≡ placed c n requests + 1)
          × (c ≡ r.contact)
          × (n ≡ r.number)
          × (may_be_placed r.answer ≡ true))
unfolding placed
placed-cons c n r requests = ground arith

placed-refused :
    (c : Uuid) (n : ℕ) (r : Request) (requests : List Request)
    → may_be_placed r.answer ≡ false
    → placed c n (r ∷ requests) ≡ placed c n requests
unfolding placed
placed-refused c n r requests refused = ground arith

module _ (c : Uuid) (n : ℕ) (a : CallAttempt) (db db' : Db) (requests : List Request)
    (claim : IsClaimed c n requests db a) where
  hold-IsUnique : IsHolding a.id db db' → IsUnique db'
  unfolding IsHolding IsClaimed IsSafe IsUnique
  hold-IsUnique holding = λ c1 n1 c2 n2 i h h'.
      claim.0.0 c1 n1 c2 n2 i (sym (holding.0 c1 n1) ∙ h) (sym (holding.0 c2 n2) ∙ h')

  hold-IsSettled :
      (c1 : Uuid) (n1 : ℕ)
      → IsHolding a.id db db'
      → 0 < placed c1 n1 requests
      → IsSettled db c1 n1
      → IsSettled db' c1 n1
  unfolding IsHolding IsClaimed IsSafe IsUnique IsSettled
  hold-IsSettled c1 n1 holding positive (i, row, free) =
      let key = claim.0.0 c n c1 n1 i in
      let marked = holding.1 i in
      let mine = claim.1 in let unsent = claim.3 in (i, holding.0 c1 n1 ∙ row, ground arith)

  claimed-IsSettled : IsSettled db c n
  unfolding IsClaimed IsSettled
  claimed-IsSettled = (a.id, claim.1, claim.2)

  module _ (r : Request) (same_contact : r.contact ≡ c) (same_number : r.number ≡ n) where
    sent-once :
        (c1 : Uuid) (n1 : ℕ)
        → ((c1 : Uuid) (n1 : ℕ) → placed c1 n1 requests ≤ 1)
        → placed c n requests ≡ 0
        → placed c1 n1 (r ∷ requests) ≤ 1
    unfolding placed
    sent-once c1 n1 once unsent = let before = once c1 n1 in ground arith

    sent-IsSettled :
        (c1 : Uuid) (n1 : ℕ)
        → IsCalm db db'
        → ((c1 : Uuid) (n1 : ℕ) → 0 < placed c1 n1 requests → IsSettled db c1 n1)
        → 0 < placed c1 n1 (r ∷ requests)
        → IsSettled db' c1 n1
    sent-IsSettled c1 n1 calm settled positive = elim (placed-cons c1 n1 r requests) [
      | inl same ↦ IsSettled-calm db db' c1 n1 calm (settled c1 n1 (rw⁻¹ same positive))
      | inr (more, at_contact, at_number, open_end) ↦
          rw (at_contact, same_contact, at_number, same_number)
            (IsSettled-calm db db' c n calm claimed-IsSettled)
    ]

    -- The database and the requests after the trigger.
    pub placed-IsSafe :
        (requests' : List Request)
        → IsHolding a.id db db'
        → (requests' ≡ requests)
          ⊎ ((requests' ≡ r ∷ requests) × (may_be_placed r.answer ≡ true → IsCalm db db'))
        → IsSafe db' requests'
    unfolding IsClaimed IsSafe
    placed-IsSafe requests' holding (inl same) = rw same (
      hold-IsUnique holding,
      claim.0.1,
      λ c1 n1 p. hold-IsSettled c1 n1 holding p (claim.0.2 c1 n1 p),
    )
    placed-IsSafe requests' holding (inr (same, calm)) =
        elim (Bool-cases (may_be_placed r.answer)) [
          | inl open_end ↦ rw same (
            hold-IsUnique holding,
            λ c1 n1. sent-once c1 n1 claim.0.1 claim.3,
            λ c1 n1 p. sent-IsSettled c1 n1 (calm open_end) claim.0.2 p,
          )
          | inr refused ↦ rw same (
            hold-IsUnique holding,
            λ c1 n1. sent-once c1 n1 claim.0.1 claim.3,
            λ c1 n1 p.
                let q : 0 < placed c1 n1 requests =
                  rw⁻¹ (placed-refused c1 n1 r requests refused) p in
                hold-IsSettled c1 n1 holding q (claim.0.2 c1 n1 q),
          )
        ]

-- ===== src/Dialer/Trigger/Placing.antt =====
-- How a trigger ends: the request it has sent, and what it leaves on hold.
use ai_calling_agent.Common.{
  ℕ, true, false, String, ◌∷◌, none, ◌≡◌, refl, ◌∙◌, arith, ◌⊎◌, inl, inr, Bool-cases,
}
use ai_calling_agent.Common.Result.{ok, err, Result-cases}
use ai_calling_agent.Model.{Uuid, Contact, CallAttempt, Settings}
use ai_calling_agent.Phone.{PhoneLib}
use ai_calling_agent.Queue.Job.{IdempotencyKey, Purpose}
use ai_calling_agent.Telephony.Client.{ApiError, trigger_call}
use ai_calling_agent.Telephony.Client.Placed.{may_be_placed, trigger_call-ambiguous}
use ai_calling_agent.Telephony.Failure.{configuration}
use ai_calling_agent.Dialer.Attempts.Rows.{IsCalm, IsCalm-refl}
use ai_calling_agent.Dialer.Quiet.{}
use ai_calling_agent.Dialer.State.{Request, State, Outside}
use ai_calling_agent.Dialer.Trigger.{
  Prior, finished, raised, hold_for_provider_halt, trigger_error, trigger_accepted, place_call,
}
use ai_calling_agent.Dialer.Trigger.Ending.{
  IsCalm-IsHolding, IsHolding, IsQuiet-IsEnding, hold_for_provider_halt-IsEnding, state_of,
  trigger_accepted-IsQuiet, trigger_error-IsEnding, trigger_error-IsQuiet,
}

module _ {Number : Type 0} (lib : PhoneLib Number) (uuid5 : IdempotencyKey → Purpose → Uuid)
    (str_of : ℕ → String) (s : Settings) (o : Outside) (attempt : CallAttempt)
    (contact : Contact) where
  -- The request of this attempt.
  abbrev pub request_of : Request
  request_of = record { contact = contact.id; number = attempt.attempt_number; answer = o.answer }

  abbrev pub IsPlaced : State → State → Type 0
  IsPlaced st st' =
      IsHolding attempt.id st.db st'.db
      × ((st'.requests ≡ st.requests)
          ⊎ ((st'.requests ≡ request_of ∷ st.requests)
              × (may_be_placed o.answer ≡ true → IsCalm st.db st'.db)))

  module _ (prior : Prior) (st : State) where
    abbrev sent : State
    sent = record st { requests = request_of ∷ st.requests }

    abbrev placed_state : State
    placed_state = state_of (place_call lib uuid5 str_of s st.db o attempt contact prior st)

    place_call-unconfigured :
        o.configured ≡ false
        → place_call lib uuid5 str_of s st.db o attempt contact prior st
          ≡ hold_for_provider_halt st.db o attempt contact prior configuration st
    unfolding place_call
    place_call-unconfigured h = ground arith

    place_call-interrupted :
        o.configured ≡ true
        → o.interrupted ≡ true
        → place_call lib uuid5 str_of s st.db o attempt contact prior st ≡ raised sent
    unfolding place_call
    place_call-interrupted h i = ground arith

    place_call-ok :
        (run_id : ℕ)
        → o.configured ≡ true
        → o.interrupted ≡ false
        → trigger_call o.answer ≡ ok run_id
        → place_call lib uuid5 str_of s st.db o attempt contact prior st
          ≡ finished (trigger_accepted lib uuid5 str_of s st.db o attempt run_id sent) none
    unfolding place_call
    place_call-ok run_id h i answered = ground arith

    place_call-err :
        (e : ApiError)
        → o.configured ≡ true
        → o.interrupted ≡ false
        → trigger_call o.answer ≡ err e
        → place_call lib uuid5 str_of s st.db o attempt contact prior st
          ≡ trigger_error lib uuid5 str_of s st.db o attempt contact prior e sent
    unfolding place_call
    place_call-err e h i answered = ground arith

    place_call-answered : o.configured ≡ true → o.interrupted ≡ false → IsPlaced st placed_state
    place_call-answered h i = elim (Result-cases (trigger_call o.answer)) [
      | inl (run_id, answered) ↦
          let quiet =
            trigger_accepted-IsQuiet lib uuid5 str_of s o attempt contact st.db run_id sent in
          let ending =
            IsQuiet-IsEnding attempt.id sent
              (trigger_accepted lib uuid5 str_of s st.db o attempt run_id sent) quiet in
          rw (place_call-ok run_id h i answered) (ending.0, inr (quiet.1, λ _. quiet.0))
      | inr (e, answered) ↦
          let ending = trigger_error-IsEnding lib uuid5 str_of s o attempt contact prior e sent in
          let known = trigger_call-ambiguous o.answer e answered in
          rw (place_call-err e h i answered) (
            ending.0,
            inr (
              ending.1,
              λ p.
                  (trigger_error-IsQuiet lib uuid5 str_of s o attempt contact prior e sent
                    (known.0 ∙ p) (known.1 p)).0,
            ),
          )
    ]

    -- A run of the trigger sends no request but its own, and that once; and where the call may
    -- have been placed, no attempt is on hold afterwards that was not before.
    pub place_call-IsPlaced : IsPlaced st placed_state
    place_call-IsPlaced = elim (Bool-cases o.configured) [
      | inr h ↦
          let ending = hold_for_provider_halt-IsEnding o attempt contact prior configuration st in
          rw (place_call-unconfigured h) (ending.0, inl ending.1)
      | inl h ↦ elim (Bool-cases o.interrupted) [
        | inl i ↦ rw (place_call-interrupted h i) (
          IsCalm-IsHolding attempt.id st.db st.db (IsCalm-refl st.db),
          inr (refl, λ _. IsCalm-refl st.db),
        )
        | inr i ↦ place_call-answered h i
      ]
    ]

-- ===== src/Telephony/Outcome/Redial.antt =====
-- After which words of a webhook a number may be dialed again.
use ai_calling_agent.Common.{
  ℕ, Bool, true, false, ◌||◌, String, [], ◌∷◌, Option, none, some, if◌then◌else◌, ◌≡◌, arith,
  Option-cases, inl, inr, ◌⊎◌, ◌∙◌, sym,
}
use ai_calling_agent.Common.Text.{Text}
use ai_calling_agent.Model.{CallAttempt, RetryPolicy, Db, Settings}
use ai_calling_agent.Recovery.Manager.{retry_in, decide, rule_allows}
use ai_calling_agent.Recovery.Manager.Decide.{decide_retry}
use ai_calling_agent.Telephony.Outcome.{
  CallOutcome, token, is_word, vocabulary, ended_words, no_answer_words, provider_error_words,
  technical_words, reason_unrecognized, is_ended, combine, classify_call_outcome,
}

-- A word for a call that did not come about, or broke off.
unfoldable pub is_failure_word : Text → Bool
is_failure_word t =
    is_word ("busy" ∷ []) t
    || is_word no_answer_words t
    || is_word provider_error_words t
    || is_word technical_words t

-- What an outcome that a word has says of the word.
abbrev SaysOf : Text → CallOutcome → Type 0
SaysOf t o =
    (is_ended o.state ≡ is_word ended_words t)
    × (o.recognized ≡ true)
    × ((key : String)
        → o.reason_key ≡ some key
        → (is_failure_word t ≡ true) × (is_word ended_words t ≡ false) × (o.non_final ≡ false))
    × (is_word ended_words t ≡ true → o.non_final ≡ false)

vocabulary-some : (t : Text) (o : CallOutcome) → vocabulary t ≡ some o → SaysOf t o
unfolding vocabulary is_failure_word
vocabulary-some t o h = (
  ground arith,
  ground arith,
  λ key k. (ground arith, ground arith, ground arith),
  λ e. ground arith,
)

vocabulary-none : (t : Text) → vocabulary t ≡ none → is_word ended_words t ≡ false
unfolding vocabulary
vocabulary-none t h = ground arith

combine-redial :
    (t u : Text) (key : String)
    → (combine (vocabulary t) (vocabulary u)).reason_key ≡ some key
    → (key ≡ reason_unrecognized)
      ⊎ ((is_word ended_words t ≡ false)
          × (is_word ended_words u ≡ false)
          × ((is_failure_word t || is_failure_word u) ≡ true))
unfolding combine
combine-redial t u key h = elim (Option-cases (vocabulary t)) [
  | inl e ↦ elim (Option-cases (vocabulary u)) [
    | inl e' ↦ ground arith
    | inr (d, e') ↦
        let (ended, known, failure, final) = vocabulary-some u d e' in
        let unended = vocabulary-none t e in let failed = failure key in ground arith
  ]
  | inr (o, e) ↦
      let (ended, known, failure, final) = vocabulary-some t o e in
      let failed = failure key in
      elim (Option-cases (vocabulary u)) [
        | inl e' ↦ let unended = vocabulary-none u e' in ground arith
        | inr (d, e') ↦
            let (ended', known', failure', final') = vocabulary-some u d e' in ground arith
      ]
]

-- A retry after a webhook's words, whatever the policy, as long as its rules do not allow the key of
-- an unrecognized status: neither word tells of a conversation that ended, and one of them is known
-- for a call that did not come about or broke off; the other may be a word that nobody knows.
pub classify_call_outcome-redial :
    (lower : Text → Text) (status disposition : Option Text) (s : Settings) (db : Db)
    (attempt : CallAttempt) (policy : RetryPolicy) (never_connected : Bool) (key : String)
    (hint : Option ℕ) (delay number : ℕ)
    → rule_allows
        (if never_connected then policy.never_connected_rules else policy.mid_call_rules)
        reason_unrecognized
      ≡ false
    → (classify_call_outcome lower status disposition).reason_key ≡ some key
    → decide s db attempt policy never_connected key hint ≡ retry_in delay number
    → (is_word ended_words (token lower status) ≡ false)
      × (is_word ended_words (token lower disposition) ≡ false)
      × ((is_failure_word (token lower status) || is_failure_word (token lower disposition)) ≡ true)
unfolding classify_call_outcome
classify_call_outcome-redial lower status disposition s db attempt policy never_connected key hint
      delay number disallowed named retried =
    let allowed =
      (decide_retry s db attempt policy never_connected key hint delay number retried).0 in
    elim (combine-redial (token lower status) (token lower disposition) key named) [
      | inr known ↦ known
      | inl unknown_key ↦
          let both : true ≡ false = sym (rw unknown_key at allowed) ∙ disallowed in absurd cc
    ]

-- ===== src/Telephony/Outcome.antt =====
-- What a completion webhook says of a call (backend/app/services/telephony/dograh_outcome.py).
--
-- `lower` is Python's `str.lower`. The whitespace of `\s` is that of `str.isspace`.
pub mod Redial
use ai_calling_agent.Common.{
  ℕ, Bool, true, false, not, ◌&&◌, ◌||◌, String, List, [], ◌∷◌, Option, none, some, ◌==◌,
  if◌then◌else◌, any,
}
use ai_calling_agent.Common.Text.{Text, codes, is_space, strip, text_eq}
use ai_calling_agent.Model.Enums.{
  CallAttemptState, initiated, connected, failed_to_connect, dropped_mid_call, ended_normally,
  NeverConnectedFailureReason, MidCallDisconnectReason,
}

-- `basis`
pub data Basis : Type 0 where
  by_status by_disposition unrecognized conflict : Basis

-- `CallOutcome`
pub record CallOutcome : Type 0 where
  pub state : CallAttemptState
  pub never_connected_reason : Option NeverConnectedFailureReason
  pub mid_call_reason : Option MidCallDisconnectReason
  pub reason_key : Option String
  pub recognized : Bool
  pub non_final : Bool
  pub basis : Basis

-- The character class of `_token`: whitespace, `-` and `_`.
abbrev pub is_separator : ℕ → Bool
is_separator c = is_space c || (c == 45) || (c == 95)

-- Runs of separators become one `_`; the flag says that a run has begun.
unfoldable pub collapse : Bool → Text → Text
collapse in_run [] = []
collapse in_run (c ∷ t) =
    let later = collapse true t in
    let next = collapse false t in
    if is_separator c then (if in_run then later else 95 ∷ later) else c ∷ next

-- `strip("_")`, at the front and at the end.
unfoldable pub strip_front : Text → Text
strip_front [] = []
strip_front (c ∷ t) = let rest = strip_front t in if c == 95 then rest else c ∷ t

unfoldable pub strip_back : Text → Text
strip_back [] = []
strip_back (c ∷ t) = elim (strip_back t) [
  | [] ↦ if c == 95 then [] else c ∷ []
  | d ∷ rest ↦ c ∷ d ∷ rest
]

-- `_token`
unfoldable pub token : (Text → Text) → Option Text → Text
token lower none = []
token lower (some value) = strip_back (strip_front (collapse false (lower (strip value))))

abbrev pub plain : CallAttemptState → CallOutcome
plain state = record {
  state = state;
  never_connected_reason = none;
  mid_call_reason = none;
  reason_key = none;
  recognized = true;
  non_final = false;
  basis = by_status;
}

-- `_never`
abbrev pub never : NeverConnectedFailureReason → String → CallOutcome
never reason key = record (plain failed_to_connect) {
  never_connected_reason = some reason;
  reason_key = some key;
}

-- `_dropped`
abbrev pub dropped : MidCallDisconnectReason → String → CallOutcome
dropped reason key = record (plain dropped_mid_call) {
  mid_call_reason = some reason;
  reason_key = some key;
}

-- The words of `_VOCABULARY`, by their outcomes.
abbrev pub ended_words : List String
ended_words =
    "completed" ∷ "user_hangup" ∷ "end_call" ∷ "call_transferred" ∷ "transfer_call"
    ∷ "call_duration_exceeded" ∷ "user_idle_max_duration_exceeded" ∷ []

abbrev pub no_answer_words : List String
no_answer_words = "no_answer" ∷ "voicemail_detected" ∷ []

abbrev pub provider_error_words : List String
provider_error_words = "failed" ∷ "canceled" ∷ "error" ∷ []

abbrev pub technical_words : List String
technical_words = "unexpected_error" ∷ "pipeline_error" ∷ "system_cancelled" ∷ []

abbrev pub non_final_words : List String
non_final_words = "initiated" ∷ "ringing" ∷ "in_progress" ∷ "answered" ∷ []

unfoldable pub is_word : List String → Text → Bool
is_word words t = any (λ w. text_eq t (codes w)) words

-- `_VOCABULARY.get`; no word is in two lists.
unfoldable pub vocabulary : Text → Option CallOutcome
vocabulary t =
    if is_word ended_words t
    then some (plain ended_normally)
    else if is_word ("busy" ∷ []) t
    then some (never NeverConnectedFailureReason.busy "busy")
    else if is_word no_answer_words t
    then some (never NeverConnectedFailureReason.no_answer "no_answer")
    else if is_word provider_error_words t
    then some (never NeverConnectedFailureReason.provider_error "provider_error")
    else if is_word technical_words t
    then some (dropped MidCallDisconnectReason.technical_issue "technical_issue")
    else if is_word non_final_words t
    then some (record (plain failed_to_connect) { non_final = true })
    else none

abbrev pub reason_unrecognized : String
reason_unrecognized = "unrecognized_status"

-- `_UNRECOGNIZED`
abbrev pub unknown : CallOutcome
unknown = record (never NeverConnectedFailureReason.provider_error reason_unrecognized) {
  recognized = false;
  basis = unrecognized;
}

abbrev pub is_ended : CallAttemptState → Bool
is_ended ended_normally = true
is_ended _ = false

-- `_with_basis`
abbrev pub with_basis : CallOutcome → Basis → CallOutcome
with_basis outcome basis = record outcome { basis = basis }

abbrev pub same_bool : Bool → Bool → Bool
same_bool true b = b
same_bool false b = not b

-- The decision of `classify_call_outcome`, from what the two words are known as.
unfoldable pub combine : Option CallOutcome → Option CallOutcome → CallOutcome
combine none none = unknown
combine none (some d) =
    if not d.non_final && not (is_ended d.state) then with_basis d by_disposition else unknown
combine (some s) none = s
combine (some s) (some d) =
    if d.non_final || s.non_final
    then s
    else if same_bool (is_ended s.state) (is_ended d.state)
    then s
    else with_basis unknown conflict

-- `classify_call_outcome`
unfoldable pub classify_call_outcome : (Text → Text) → Option Text → Option Text → CallOutcome
classify_call_outcome lower call_status call_disposition =
    combine (vocabulary (token lower call_status)) (vocabulary (token lower call_disposition))

-- `is_opt_out`
abbrev pub is_blank_code : Text → Bool
is_blank_code [] = true
is_blank_code (c ∷ t) = is_space c && is_blank_code t

abbrev pub matches_code : (Text → Text) → List Text → Option Text → Bool
matches_code lower opt_out_codes none = false
matches_code lower opt_out_codes (some []) = false
matches_code lower opt_out_codes (some (c ∷ t)) =
    any
      (λ (code : Text).
        not (is_blank_code code) && text_eq (token lower (some (c ∷ t))) (token lower (some code)))
      opt_out_codes

unfoldable pub is_opt_out : (Text → Text) → Option Text → Option Text → List Text → Bool
is_opt_out lower disposition mapped opt_out_codes =
    matches_code lower opt_out_codes disposition || matches_code lower opt_out_codes mapped

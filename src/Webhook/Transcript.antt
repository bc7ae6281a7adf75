-- ===== src/Webhook/Transcript.antt =====
-- What becomes of a call's transcript (backend/app/services/telephony/transcript_store.py). The
-- fetch is an answer from outside; a line's role and content are what Python's `str` makes of the
-- first of the keys that is set, the content stripped. `lower` is Python's `str.lower`.
use ai_calling_agent.Common.{
  ℕ, ◌+◌, Bool, true, false, ◌&&◌, ◌||◌, String, List, [], ◌∷◌, Option, none, some, ◌==◌,
  if◌then◌else◌, any, str_eq,
}
use ai_calling_agent.Common.Text.{Text, codes}
use ai_calling_agent.Calling.Window.{Time}
use ai_calling_agent.Model.{Uuid}

pub data TranscriptKind : Type 0 where
  ok empty unavailable : TranscriptKind

pub record Line : Type 0 where
  pub raw_role : Text
  pub content : Text

-- `TranscriptResult`
pub record TranscriptResult : Type 0 where
  pub kind : TranscriptKind
  pub lines : List Line
  pub reason : Option String

-- `_RETRYABLE` with `is_retryable`
unfoldable pub is_retryable : Option String → Bool
is_retryable none = false
is_retryable (some reason) =
    str_eq reason "network_error" || str_eq reason "http_status" || str_eq reason "deadline"

pub data ConversationRole : Type 0 where
  contact agent system : ConversationRole

abbrev is_prefix : Text → Text → Bool
is_prefix [] t = true
is_prefix (c ∷ s) [] = false
is_prefix (c ∷ s) (d ∷ t) = c == d && is_prefix s t

-- `k in text`
abbrev is_part : Text → Text → Bool
is_part k [] = is_prefix k []
is_part k (c ∷ t) = is_prefix k (c ∷ t) || is_part k t

abbrev names_any : List String → Text → Bool
names_any words t = any (λ k. is_part (codes k) t) words

-- `role_for`
unfoldable pub role_for : (Text → Text) → Text → ConversationRole
role_for lower raw_role =
    if names_any ("user" ∷ "customer" ∷ "caller" ∷ "human" ∷ []) (lower raw_role)
    then contact
    else if names_any ("assistant" ∷ "agent" ∷ "bot" ∷ "ai" ∷ []) (lower raw_role)
    then agent
    else system

-- ConversationMessage, by its place in the transcript.
pub record ConversationMessage : Type 0 where
  pub sequence : ℕ
  pub role : ConversationRole
  pub content : Text

-- ConversationSession (backend/app/models/conversation.py) with its messages. `transcript_url` says
-- whether the link is kept.
pub record ConversationSession : Type 0 where
  pub call_attempt_id : Uuid
  pub ended_at : Time
  pub transcript_status : Option String
  pub transcript_unavailable_reason : Option String
  pub keeps_transcript_url : Bool
  pub messages : List ConversationMessage

-- The rows of the lines that say something; the numbers count every line.
unfoldable pub messages_from : (Text → Text) → ℕ → List Line → List ConversationMessage
messages_from lower i [] = []
messages_from lower i (line ∷ lines) =
    let rest = messages_from lower (i + 1) lines in
    elim line.content [
      | [] ↦ rest
      | c ∷ t ↦ record { sequence = i; role = role_for lower line.raw_role; content = c ∷ t } ∷ rest
    ]

-- `apply_transcript_result`
unfoldable pub apply_transcript_result :
    (Text → Text) → TranscriptResult → ConversationSession → ConversationSession
apply_transcript_result lower result session = elim result.kind [
  | unavailable ↦ record session {
    transcript_status = some "unavailable";
    transcript_unavailable_reason = result.reason;
    keeps_transcript_url = is_retryable result.reason;
  }
  | ok ↦ record session {
    transcript_status = some "ok";
    transcript_unavailable_reason = none;
    keeps_transcript_url = false;
    messages = messages_from lower 1 result.lines;
  }
  | empty ↦ record session {
    transcript_status = some "empty";
    transcript_unavailable_reason = none;
    keeps_transcript_url = false;
    messages = messages_from lower 1 result.lines;
  }
]

-- ===== src/Telephony/Client/Placed.antt =====
-- Which answers leave it open that the provider placed the call.
use ai_calling_agent.Common.{Bool, true, false, ◌||◌, none, ◌≡◌, ltb, ◌==◌, arith}
use ai_calling_agent.Common.Result.{err}
use ai_calling_agent.Telephony.Client.{
  HttpAnswer, connect_timeout, pool_timeout, read_or_write_timeout, other_timeout, connection_lost,
  connect_failed, other_http_error, responded, ApiError, is_ambiguous, classify_status_code, send,
  parse_trigger_response, trigger_call,
}
use ai_calling_agent.Telephony.Failure.{provider_configuration_category}

-- The answers after which the worker has to reckon with a call: the answer was lost on the way, a
-- gateway gave up waiting, the application failed on the way, or it accepted the call. Other errors
-- of httpx are not among them, since the source takes them for a request that did not get through.
unfoldable pub may_be_placed : HttpAnswer → Bool
may_be_placed read_or_write_timeout = true
may_be_placed other_timeout = true
may_be_placed connection_lost = true
may_be_placed (responded r) =
    ltb r.status_code 400
    || (r.status_code == 408)
    || (r.status_code == 500)
    || (r.status_code == 502)
    || (r.status_code == 504)
may_be_placed _ = false

-- A failed trigger is ambiguous exactly after such an answer, and then never a fault of the provider's
-- configuration.
pub trigger_call-ambiguous :
    (answer : HttpAnswer) (e : ApiError)
    → trigger_call answer ≡ err e
    → (is_ambiguous e ≡ may_be_placed answer)
      × (may_be_placed answer ≡ true → provider_configuration_category e ≡ none)
unfolding trigger_call send parse_trigger_response may_be_placed is_ambiguous classify_status_code
    provider_configuration_category
trigger_call-ambiguous connect_timeout e h = (ground arith, ground arith)
trigger_call-ambiguous pool_timeout e h = (ground arith, ground arith)
trigger_call-ambiguous read_or_write_timeout e h = (ground arith, ground arith)
trigger_call-ambiguous other_timeout e h = (ground arith, ground arith)
trigger_call-ambiguous connection_lost e h = (ground arith, ground arith)
trigger_call-ambiguous connect_failed e h = (ground arith, ground arith)
trigger_call-ambiguous other_http_error e h = (ground arith, ground arith)
trigger_call-ambiguous (responded r) e h = (ground arith, ground arith)

-- ===== src/Telephony/Client.antt =====
-- The HTTP client of the provider (backend/app/services/telephony/dograh_client.py): what becomes
-- of a trigger request, as the client reports it.
--
-- `httpx` and the server are not code of the repository: what they did with a request is an
-- `HttpAnswer`. Of a response the client reads the status, the header Retry-After and, where the
-- body can be trusted, the id of the run.
pub mod Placed
use ai_calling_agent.Common.{
  ℕ, Bool, true, false, ◌&&◌, ◌||◌, Option, none, some, ltb, leb, ◌==◌, if◌then◌else◌,
}
use ai_calling_agent.Common.Result.{Result, ok, err}

-- `DograhErrorCategory`
pub data ErrorCategory : Type 0 where
  timeout connection_error authentication_error validation_error rate_limited provider_unavailable
        provider_rejected ambiguous_request unknown_provider_error :
      ErrorCategory

-- `DograhApiError`; a status of 0 is no response.
pub record ApiError : Type 0 where
  pub status_code : ℕ
  pub category : ErrorCategory
  pub retry_after_seconds : Option ℕ

-- `DograhApiError.is_ambiguous`
unfoldable pub is_ambiguous : ApiError → Bool
is_ambiguous e = elim e.category [ ambiguous_request ↦ true | timeout ↦ true | _ ↦ false ]

-- `_AMBIGUOUS_SERVER_STATUSES`
abbrev pub is_ambiguous_status : ℕ → Bool
is_ambiguous_status status = (status == 500) || (status == 502) || (status == 504)

-- `_classify_status_code`
unfoldable pub classify_status_code : ℕ → ErrorCategory
classify_status_code status =
    if status == 408
    then ambiguous_request
    else if (status == 401) || (status == 403)
    then authentication_error
    else if status == 429
    then rate_limited
    else if status == 404
    then provider_rejected
    else if is_ambiguous_status status
    then ambiguous_request
    else if leb 500 status
    then provider_unavailable
    else if leb 400 status
    then validation_error
    else unknown_provider_error

-- A response: its status, the bounded Retry-After, and the run's id if the body has one.
pub record Response : Type 0 where
  pub status_code : ℕ
  pub retry_after : Option ℕ
  pub run_id : Option ℕ

-- What `httpx` reports of a request.
pub data HttpAnswer : Type 0 where
  connect_timeout pool_timeout read_or_write_timeout other_timeout connection_lost connect_failed
        other_http_error :
      HttpAnswer
  responded : Response → HttpAnswer

abbrev pub no_response : ErrorCategory → ApiError
no_response category = record { status_code = 0; category = category; retry_after_seconds = none }

-- `_send`
unfoldable pub send : HttpAnswer → Result ApiError Response
send connect_timeout = err (no_response connection_error)
send pool_timeout = err (no_response connection_error)
send read_or_write_timeout = err (no_response ambiguous_request)
send other_timeout = err (no_response timeout)
send connection_lost = err (no_response ambiguous_request)
send connect_failed = err (no_response connection_error)
send other_http_error = err (no_response unknown_provider_error)
send (responded r) =
    if leb 400 r.status_code
    then err (record {
      status_code = r.status_code;
      category = classify_status_code r.status_code;
      retry_after_seconds = if r.status_code == 429 then r.retry_after else none;
    })
    else ok r

-- `_parse_trigger_response`
unfoldable pub parse_trigger_response : Response → Result ApiError ℕ
parse_trigger_response r = elim r.run_id [
  | some run_id ↦ ok run_id
  | none ↦ err (record {
    status_code = r.status_code;
    category = ambiguous_request;
    retry_after_seconds = none;
  })
]

-- `trigger_call`, of a client that is configured.
unfoldable pub trigger_call : HttpAnswer → Result ApiError ℕ
trigger_call answer = elim (send answer) [ err e ↦ err e | ok r ↦ parse_trigger_response r ]

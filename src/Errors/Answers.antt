-- ===== src/Errors/Answers.antt =====
-- src/error.rs: what a client is told by an error answer.
use rustygate.Prelude.{
  ℕ, max, String, ◌≡◌, refl, Option, none, some, str_eq, if◌then◌else◌, unwrap_or,
}
use rustygate.Errors.{
  AppError, invalid_request, unauthorized, forbidden, gateway_rate_limited, admission_rejected,
  no_provider_available, provider_rate_limited, provider_timeout, provider_failure, internal,
  HttpAnswer, into_response,
}

-- An answer, written in the order status, code, message, id and `Retry-After`.
abbrev answer : {U : Type 0} → ℕ → String → String → Option U → Option ℕ → HttpAnswer U
answer status code message id retry_after = record {
  status = status;
  body = record { code = code; message = message; id = id };
  retry_after = retry_after;
}

-- The answers as a table, a line for each error: what the client did wrong is in 4xx, what the gateway or
-- a provider cannot do is in 5xx, and a message of the gateway tells nothing about its inside.
abbrev pub answer_table : {U : Type 0} → AppError U → HttpAnswer U
answer_table (invalid_request m i) = answer 400 "invalid_request" m i none
answer_table (unauthorized m i) = answer 401 "unauthorized" m i none
answer_table (forbidden m i) = answer 403 "forbidden" m i none
answer_table (gateway_rate_limited i s) =
    answer 429 "gateway_rate_limited" "request rate limit exceeded, retry later" i (some (max s 1))
answer_table (admission_rejected m i s) = answer 503 "admission_rejected" m i (some (max s 1))
answer_table (no_provider_available i) =
    answer 503 "no_provider_available" "no provider is available for this request" i none
answer_table (provider_rate_limited i) =
    answer 429 "provider_rate_limited" "provider rate limited this request" i none
answer_table (provider_timeout i) =
    answer 504 "provider_timeout" "provider timed out while handling this request" i none
answer_table (provider_failure i) =
    answer 502 "provider_failure" "provider failed to process this request" i none
answer_table (internal i) = answer 500 "internal" "an internal error occurred" i none

-- The error with the least wait that is announced.
abbrev pub with_least_wait : {U : Type 0} → AppError U → AppError U
with_least_wait (gateway_rate_limited i s) = gateway_rate_limited i (max s 1)
with_least_wait (admission_rejected m i s) = admission_rejected m i (max s 1)
with_least_wait e = e

-- The error that a client makes out of an answer: the code says which one it is.
abbrev pub read_answer : {U : Type 0} → HttpAnswer U → Option (AppError U)
read_answer a =
    let code = a.body.code in
    let message = a.body.message in
    let id = a.body.id in
    let wait = unwrap_or a.retry_after 0 in
    if str_eq code "invalid_request"
    then some (invalid_request message id)
    else if str_eq code "unauthorized"
    then some (unauthorized message id)
    else if str_eq code "forbidden"
    then some (forbidden message id)
    else if str_eq code "gateway_rate_limited"
    then some (gateway_rate_limited id wait)
    else if str_eq code "admission_rejected"
    then some (admission_rejected message id wait)
    else if str_eq code "no_provider_available"
    then some (no_provider_available id)
    else if str_eq code "provider_rate_limited"
    then some (provider_rate_limited id)
    else if str_eq code "provider_timeout"
    then some (provider_timeout id)
    else if str_eq code "provider_failure"
    then some (provider_failure id)
    else if str_eq code "internal"
    then some (internal id)
    else none

-- Every error is answered by its line of the table, with its status, code, message, request id and
-- `Retry-After` header; and a client reads the error back from the code, the message, the id and the
-- header, a wait of 0 seconds as one of 1.
pub into_response_lem :
    {U : Type 0} (e : AppError U)
    → (into_response e ≡ answer_table e)
      × (read_answer (into_response e) ≡ some (with_least_wait e))
unfolding into_response str_eq
into_response_lem (invalid_request m i) = (refl, refl)
into_response_lem (unauthorized m i) = (refl, refl)
into_response_lem (forbidden m i) = (refl, refl)
into_response_lem (gateway_rate_limited i s) = (refl, refl)
into_response_lem (admission_rejected m i s) = (refl, refl)
into_response_lem (no_provider_available i) = (refl, refl)
into_response_lem (provider_rate_limited i) = (refl, refl)
into_response_lem (provider_timeout i) = (refl, refl)
into_response_lem (provider_failure i) = (refl, refl)
into_response_lem (internal i) = (refl, refl)

-- ===== src/Errors.antt =====
-- src/error.rs and the errors of src/providers/provider.rs: what a request can end in, and the HTTP
-- answer for it. `U` stands for `Uuid`.
pub mod Answers
mod Tests
use rustygate.Prelude.{ℕ, max, String, Option, none, some}

-- providers::provider::ProviderError
pub data ProviderError : Type 0 where
  timeout rate_limited authentication_failed provider_unavailable provider_bad_response :
      ProviderError

pub data AppError (U : Type 0) : Type 0 where
  invalid_request : String → Option U → AppError U
  unauthorized : String → Option U → AppError U
  forbidden : String → Option U → AppError U
  gateway_rate_limited : Option U → ℕ → AppError U
  admission_rejected : String → Option U → ℕ → AppError U
  no_provider_available : Option U → AppError U
  provider_rate_limited : Option U → AppError U
  provider_timeout : Option U → AppError U
  provider_failure : Option U → AppError U
  internal : Option U → AppError U

-- The numbers behind `StatusCode`'s names.
unfoldable pub status_code : {U : Type 0} → AppError U → ℕ
status_code (invalid_request m i) = 400
status_code (unauthorized m i) = 401
status_code (forbidden m i) = 403
status_code (gateway_rate_limited i s) = 429
status_code (admission_rejected m i s) = 503
status_code (no_provider_available i) = 503
status_code (provider_rate_limited i) = 429
status_code (provider_timeout i) = 504
status_code (provider_failure i) = 502
status_code (internal i) = 500

unfoldable pub error_code : {U : Type 0} → AppError U → String
error_code (invalid_request m i) = "invalid_request"
error_code (unauthorized m i) = "unauthorized"
error_code (forbidden m i) = "forbidden"
error_code (gateway_rate_limited i s) = "gateway_rate_limited"
error_code (admission_rejected m i s) = "admission_rejected"
error_code (no_provider_available i) = "no_provider_available"
error_code (provider_rate_limited i) = "provider_rate_limited"
error_code (provider_timeout i) = "provider_timeout"
error_code (provider_failure i) = "provider_failure"
error_code (internal i) = "internal"

unfoldable pub request_id : {U : Type 0} → AppError U → Option U
request_id (invalid_request m i) = i
request_id (unauthorized m i) = i
request_id (forbidden m i) = i
request_id (gateway_rate_limited i s) = i
request_id (admission_rejected m i s) = i
request_id (no_provider_available i) = i
request_id (provider_rate_limited i) = i
request_id (provider_timeout i) = i
request_id (provider_failure i) = i
request_id (internal i) = i

unfoldable pub public_message : {U : Type 0} → AppError U → String
public_message (invalid_request m i) = m
public_message (unauthorized m i) = m
public_message (forbidden m i) = m
public_message (gateway_rate_limited i s) = "request rate limit exceeded, retry later"
public_message (admission_rejected m i s) = m
public_message (no_provider_available i) = "no provider is available for this request"
public_message (provider_rate_limited i) = "provider rate limited this request"
public_message (provider_timeout i) = "provider timed out while handling this request"
public_message (provider_failure i) = "provider failed to process this request"
public_message (internal i) = "an internal error occurred"

unfoldable pub from_provider_error : {U : Type 0} → ProviderError → Option U → AppError U
from_provider_error rate_limited i = provider_rate_limited i
from_provider_error timeout i = provider_timeout i
from_provider_error authentication_failed i = provider_failure i
from_provider_error provider_unavailable i = provider_failure i
from_provider_error provider_bad_response i = provider_failure i

-- The parts of the HTTP response: the JSON body is the record of its three fields, and the
-- `Retry-After` header is its number.
pub record ErrorBody (U : Type 0) : Type 0 where
  pub code : String
  pub message : String
  pub id : Option U

pub record HttpAnswer (U : Type 0) : Type 0 where
  pub status : ℕ
  pub body : ErrorBody U
  pub retry_after : Option ℕ

abbrev pub retry_after_seconds : {U : Type 0} → AppError U → Option ℕ
retry_after_seconds (gateway_rate_limited i s) = some s
retry_after_seconds (admission_rejected m i s) = some s
retry_after_seconds _ = none

abbrev at_least_one : Option ℕ → Option ℕ
at_least_one none = none
at_least_one (some s) = some (max s 1)

unfoldable pub into_response : {U : Type 0} → AppError U → HttpAnswer U
unfolding status_code error_code public_message request_id
into_response e = record {
  status = status_code e;
  body = record { code = error_code e; message = public_message e; id = request_id e };
  retry_after = at_least_one (retry_after_seconds e);
}

-- ===== src/Middleware.antt =====
-- src/app/middleware.rs, and the order of the layers in src/app/router.rs: what a request passes on its
-- way to a handler. `U` stands for `Uuid`, `S` for the state of the rate limiter's backend, `R` for what
-- a handler answers. A header that is no text is taken as missing.
pub mod Guards
pub mod Vouched
mod Tests
use Prim.Native.String.{◌++◌ as text_append}
use rustygate.Prelude.{
  ℕ, ◌/◌, max, String, Bool, not, ◌||◌, Option, none, some, if◌then◌else◌, str_eq, unwrap_or,
  Result, ok, err,
}
use rustygate.Text.{is_empty_text}
use rustygate.Sse.{strip_prefix}
use rustygate.Errors.{AppError, unauthorized, forbidden, gateway_rate_limited}
use rustygate.RateLimit.{RateLimitBackend, map_option}
use rustygate.Auth.{
  KeyRole, AuthenticatedKey, AuthError, KeyStore, allows_inference, allows_observability,
}

-- What the layers read of a request, and what they put into its extensions.
pub record Request (U F : Type 0) : Type 0 where
  pub path : String
  pub authorization : Option String
  pub x_request_id : Option String
  pub request_id : Option U
  pub authenticated_key : Option (AuthenticatedKey F)

abbrev pub nonempty : Option String → Option String
nonempty none = none
nonempty (some token) = if is_empty_text token then none else some token

abbrev pub after_bearer : Option String → Option String
after_bearer none = none
after_bearer (some header) = nonempty (strip_prefix "Bearer " header)

unfoldable pub bearer_token : {U F : Type 0} → Request U F → Option String
unfolding strip_prefix is_empty_text
bearer_token request = after_bearer request.authorization

unfoldable pub role_allows_path : KeyRole → String → Bool
unfolding str_eq allows_observability allows_inference
role_allows_path role path =
    if str_eq path "/stats" || str_eq path "/stats/providers" || str_eq path "/metrics"
    then allows_observability role
    else allows_inference role || str_eq path "/v1/models"

-- `(rpm / 4).max(1)`
abbrev pub burst_of : Option ℕ → Option ℕ
burst_of limit = map_option (λ rpm. max (rpm / 4) 1) limit

-- A handler, or the layers below a layer: the backend's state is passed on.
abbrev pub Next : Type 0 → Type 0 → Type 0 → Type 0 → Type 0
Next U F S R = Request U F → S → S × Result R (AppError U)

abbrev pub request_id_from_extensions : {U F : Type 0} → U → Request U F → U
request_id_from_extensions new_v4 request = unwrap_or request.request_id new_v4

abbrev pub invalid_token : {U F : Type 0} → U → Request U F → AppError U
invalid_token new_v4 request =
    unauthorized "invalid bearer token" (some (request_id_from_extensions new_v4 request))

abbrev pub parsed_id : {U : Type 0} → U → (String → Option U) → Option String → U
parsed_id new_v4 parse_uuid none = new_v4
parsed_id new_v4 parse_uuid (some value) = unwrap_or (parse_uuid value) new_v4

module _ {U F E S R : Type 0} (new_v4 : U) (parse_uuid : String → Option U)
    (key_store : KeyStore F E) (backend : RateLimitBackend S) where
  unfoldable pub request_id_middleware : Next U F S R → Next U F S R
  request_id_middleware next request s =
      next (record request { request_id = some (parsed_id new_v4 parse_uuid request.x_request_id) })
        s

  abbrev pub global_checked :
      Next U F S R → Request U F → S × Result (Unit {0}) ℕ → S × Result R (AppError U)
  global_checked next request (s, err retry_after_seconds) = (
    s,
    err (
        gateway_rate_limited (some (request_id_from_extensions new_v4 request))
          retry_after_seconds),
  )
  global_checked next request (s, ok _) = next request s

  unfoldable pub pre_auth_rate_limit_middleware : Next U F S R → Next U F S R
  pre_auth_rate_limit_middleware next request s =
      global_checked next request (backend.check_global s)

  unfoldable pub authorized :
      Next U F S R → Request U F → S → AuthenticatedKey F → S × Result R (AppError U)
  unfolding role_allows_path
  authorized next request s key =
      if not (role_allows_path key.role request.path)
      then (
        s,
        err (
            forbidden "API key is not allowed to access this route"
              (some (request_id_from_extensions new_v4 request))),
      )
      else next (record request { authenticated_key = some key }) s

  unfoldable pub authenticated :
      Next U F S R
      → Request U F
      → S
      → Result (Option (AuthenticatedKey F)) (AuthError E)
      → S × Result R (AppError U)
  unfolding authorized
  authenticated next request s (ok (some key)) = authorized next request s key
  authenticated next request s (ok none) = (s, err (invalid_token new_v4 request))
  authenticated next request s (err _) = (s, err (invalid_token new_v4 request))

  unfoldable pub with_token :
      Next U F S R → Request U F → S → Option String → S × Result R (AppError U)
  unfolding authenticated
  with_token next request s none = (
    s,
    err (unauthorized "missing bearer token" (some (request_id_from_extensions new_v4 request))),
  )
  with_token next request s (some api_key) =
      authenticated next request s (key_store.authenticate api_key)

  unfoldable pub auth_middleware : Next U F S R → Next U F S R
  unfolding bearer_token with_token
  auth_middleware next request s = with_token next request s (bearer_token request)

  abbrev pub key_checked :
      Next U F S R → Request U F → S × Result (Unit {0}) ℕ → S × Result R (AppError U)
  key_checked next request (s, err retry_after_seconds) = (
    s,
    err (
        gateway_rate_limited (some (request_id_from_extensions new_v4 request))
          retry_after_seconds),
  )
  key_checked next request (s, ok _) = next request s

  abbrev pub quota_checked :
      Next U F S R
      → Request U F
      → S
      → AuthenticatedKey F
      → Result (Unit {0}) ℕ
      → S × Result R (AppError U)
  quota_checked next request s key (err retry_after_seconds) = (
    s,
    err (
        gateway_rate_limited (some (request_id_from_extensions new_v4 request))
          retry_after_seconds),
  )
  quota_checked next request s key (ok _) = key_checked next request (
      backend.check_key s key.id key.limits.requests_per_minute
        (burst_of key.limits.requests_per_minute))

  abbrev pub with_key :
      Next U F S R → Request U F → S → Option (AuthenticatedKey F) → S × Result R (AppError U)
  with_key next request s none = (
    s,
    err (
        unauthorized "missing authenticated API key"
          (some (request_id_from_extensions new_v4 request))),
  )
  with_key next request s (some key) = quota_checked next request s key (key_store.check_quota key)

  unfoldable pub per_key_rate_limit_middleware : Next U F S R → Next U F S R
  per_key_rate_limit_middleware next request s = with_key next request s request.authenticated_key

  -- The layers of `protected_routes`: the one added last is the first that a request meets.
  unfoldable pub protected_routes : Next U F S R → Next U F S R
  unfolding request_id_middleware pre_auth_rate_limit_middleware auth_middleware
      per_key_rate_limit_middleware
  protected_routes handler =
      request_id_middleware
        (pre_auth_rate_limit_middleware (auth_middleware (per_key_rate_limit_middleware handler)))

-- ===== src/Middleware/Tests.antt =====
-- src/app/middleware.rs: a request with the environment's key, and the theorem about it.
use rustygate.Prelude.{Result, ℕ, String, ◌≡◌, refl, ◌⊎◌, Option, none, some, ok, err}
use rustygate.Float.Model.{nat_float}
use rustygate.Lru.Model.{list_lru}
use rustygate.Errors.{AppError}
use rustygate.RateLimit.{TokenBucket, RateLimiterState, RateLimitBackend, local_backend, new}
use rustygate.RateLimit.Tests.{seconds, limiter}
use rustygate.Auth.{
  KeyStore, UsageRow, authenticate_static, authenticate_sqlite, check_quota_sqlite,
}
use rustygate.Auth.Vouched.{IsVouched}
use rustygate.Auth.Tests.{verify_key, rows}
use rustygate.Middleware.Vouched.{sqlite_key_store, protected_routes-IsVouched}
use rustygate.Middleware.{Request, Next, protected_routes}
use rustygate.Middleware.Guards.{HasPassed, admitted, protected_routes_lem}

abbrev State : Type 0
State = RateLimiterState nat_float seconds (list_lru (TokenBucket nat_float))

abbrev backend : RateLimitBackend State
backend = local_backend nat_float seconds (list_lru (TokenBucket nat_float)) 9

abbrev key_store : KeyStore ℕ ℕ
key_store = record {
  authenticate = λ raw_key. authenticate_static "secret" raw_key;
  check_quota = λ key. ok tt;
}

abbrev parse_uuid : String → Option ℕ
parse_uuid value = none

abbrev request : Request ℕ ℕ
request = record {
  path = "/v1/models";
  authorization = some "Bearer secret";
  x_request_id = none;
  request_id = none;
  authenticated_key = none;
}

protected_routes_lem_example :
    ((p : HasPassed 7 parse_uuid key_store backend request limiter) × ((handler : Next ℕ ℕ State ℕ)
        → protected_routes 7 parse_uuid key_store backend handler request limiter
          ≡ handler (admitted 7 parse_uuid key_store backend request p.key) p.after_key))
    ⊎ ((r : State × AppError ℕ) × ((handler : Next ℕ ℕ State ℕ)
          → protected_routes 7 parse_uuid key_store backend handler request limiter
            ≡ (r.0, err r.1)))
protected_routes_lem_example = protected_routes_lem ℕ 7 parse_uuid key_store backend request limiter

abbrev usage : String → ℕ → Result (Option (UsageRow nat_float)) ℕ
usage api_key_id day = ok none

-- A request with a key of the table, which is let through.
abbrev keyed : Request ℕ ℕ
keyed = record request { authorization = some "Bearer rgk_ab12_s" }

abbrev answers : Next ℕ ℕ State ℕ
answers r s = (s, ok 1)

keyed_reaches :
    (protected_routes 7 parse_uuid
      (sqlite_key_store nat_float verify_key (ok rows) usage 9)
      backend
      answers
      keyed
      limiter).1
    ≡ ok 1
unfolding protected_routes local_backend new authenticate_sqlite check_quota_sqlite list_lru
keyed_reaches = refl

protected_routes-IsVouched_example :
    ((p : HasPassed 7 parse_uuid
        (sqlite_key_store nat_float verify_key (ok rows) usage 9)
        backend
        keyed
        limiter)
      × IsVouched verify_key (ok rows) p.token p.key
      × ((handler : Next ℕ ℕ State ℕ)
          → protected_routes 7 parse_uuid
              (sqlite_key_store nat_float verify_key (ok rows) usage 9)
              backend
              handler
              keyed
              limiter
            ≡ handler
                (admitted 7 parse_uuid
                  (sqlite_key_store nat_float verify_key (ok rows) usage 9)
                  backend
                  keyed
                  p.key)
                p.after_key))
    ⊎ ((r : State × AppError ℕ) × ((handler : Next ℕ ℕ State ℕ)
          → protected_routes 7 parse_uuid
              (sqlite_key_store nat_float verify_key (ok rows) usage 9)
              backend
              handler
              keyed
              limiter
            ≡ (r.0, err r.1)))
protected_routes-IsVouched_example =
    protected_routes-IsVouched nat_float ℕ verify_key (ok rows) usage 9 7 parse_uuid backend keyed
      limiter

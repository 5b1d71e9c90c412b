-- ===== src/Middleware/Vouched.antt =====
-- src/app/middleware.rs over src/auth/keys.rs: the guards with the store of keys in the database.
use rustygate.Prelude.{ℕ, String, ◌≡◌, ◌⊎◌, inl, inr, Bool, Option, List, Result, err}
use rustygate.Float.{Float}
use rustygate.Errors.{AppError}
use rustygate.RateLimit.{RateLimitBackend}
use rustygate.Auth.{AuthError, KeyStore, KeyRow, UsageRow, authenticate_sqlite, check_quota_sqlite}
use rustygate.Auth.Vouched.{IsVouched, authenticate_sqlite-IsVouched}
use rustygate.Middleware.{Request, Next, protected_routes}
use rustygate.Middleware.Guards.{HasPassed, admitted, protected_routes_lem}

module _ (fl : Float) {E : Type 0} (verify_key : String → String → Result Bool (AuthError E))
    (api_keys : Result (List (KeyRow fl.F64)) E)
    (usage : String → ℕ → Result (Option (UsageRow fl)) E) (now : ℕ) where
  -- SqliteKeyStore, at a reading of the clock
  abbrev pub sqlite_key_store : KeyStore fl.F64 E
  sqlite_key_store = record {
    authenticate = λ raw_key. authenticate_sqlite verify_key api_keys raw_key;
    check_quota = λ key. check_quota_sqlite fl usage now key;
  }

module _ (fl : Float) {U E S : Type 0} (R : Type 0)
    (verify_key : String → String → Result Bool (AuthError E))
    (api_keys : Result (List (KeyRow fl.F64)) E)
    (usage : String → ℕ → Result (Option (UsageRow fl)) E) (now : ℕ) (new_v4 : U)
    (parse_uuid : String → Option U) (backend : RateLimitBackend S) where
  -- With the keys in the database a request that reaches a handler carries a key for which the table
  -- has a row that is not revoked, has the key's prefix and a hash that fits the whole key, and gives
  -- the key's role and limits; any other request is refused whatever the handler is.
  pub protected_routes-IsVouched :
      (request : Request U fl.F64) (s : S)
      → ((p : HasPassed new_v4 parse_uuid
            (sqlite_key_store fl verify_key api_keys usage now)
            backend
            request
            s)
          × IsVouched verify_key api_keys p.token p.key
          × ((handler : Next U fl.F64 S R)
              → protected_routes new_v4 parse_uuid
                  (sqlite_key_store fl verify_key api_keys usage now)
                  backend
                  handler
                  request
                  s
                ≡ handler
                    (admitted new_v4 parse_uuid
                      (sqlite_key_store fl verify_key api_keys usage now)
                      backend
                      request
                      p.key)
                    p.after_key))
        ⊎ ((r : S × AppError U) × ((handler : Next U fl.F64 S R)
              → protected_routes new_v4 parse_uuid
                  (sqlite_key_store fl verify_key api_keys usage now)
                  backend
                  handler
                  request
                  s
                ≡ (r.0, err r.1)))
  protected_routes-IsVouched request s =
      elim (protected_routes_lem R new_v4 parse_uuid
        (sqlite_key_store fl verify_key api_keys usage now) backend request s) [
          | inl (p, reached) ↦ inl (
            p,
            authenticate_sqlite-IsVouched verify_key api_keys p.token p.key p.is_known,
            reached,
          )
          | inr refused ↦ inr refused
        ]

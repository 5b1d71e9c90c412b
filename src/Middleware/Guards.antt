-- ===== src/Middleware/Guards.antt =====
-- src/app/middleware.rs: which requests reach a handler.
use rustygate.Prelude.{
  ℕ, String, ◌≡◌, refl, ◌⊎◌, inl, inr, true, Option, none, some, Bool-cases, Result, ok, err,
}
use rustygate.Errors.{AppError, unauthorized, forbidden, gateway_rate_limited}
use rustygate.Auth.{AuthenticatedKey, AuthError, KeyStore}
use rustygate.RateLimit.{RateLimitBackend}
use rustygate.Middleware.{
  Request, Next, bearer_token, role_allows_path, burst_of, parsed_id, invalid_token,
  request_id_middleware, global_checked, pre_auth_rate_limit_middleware, authorized, authenticated,
  with_token, auth_middleware, key_checked, quota_checked, per_key_rate_limit_middleware,
  protected_routes,
}

module _ {U F E S : Type 0} (new_v4 : U) (parse_uuid : String → Option U) (key_store : KeyStore F E)
    (backend : RateLimitBackend S) where
  -- What the handlers below the layers see of a request.
  abbrev pub with_id : Request U F → Request U F
  with_id request = record request {
    request_id = some (parsed_id new_v4 parse_uuid request.x_request_id);
  }

  -- The checks that a request has passed when a handler is called, in their order, and the backend's
  -- states between them.
  pub record HasPassed (request : Request U F) (s : S) : Type 0 where
    pub token : String
    pub key : AuthenticatedKey F
    pub after_global : S
    pub after_key : S
    pub in_global_rate : backend.check_global s ≡ (after_global, ok tt)
    pub has_token : bearer_token request ≡ some token
    pub is_known : key_store.authenticate token ≡ ok (some key)
    pub may_access : role_allows_path key.role request.path ≡ true
    pub in_quota : key_store.check_quota key ≡ ok tt
    pub in_key_rate :
        backend.check_key after_global key.id key.limits.requests_per_minute
          (burst_of key.limits.requests_per_minute)
        ≡ (after_key, ok tt)

  -- The request that a handler is called with.
  abbrev pub admitted : Request U F → AuthenticatedKey F → Request U F
  admitted request key = record (with_id request) { authenticated_key = some key }

module _ {U F E S : Type 0} (R : Type 0) (new_v4 : U) (parse_uuid : String → Option U)
    (key_store : KeyStore F E) (backend : RateLimitBackend S) where
  -- Either the request passes every check and each handler is called with it, or it is refused with
  -- one and the same answer whatever the handler is.
  Outcome : Request U F → S → (Next U F S R → S × Result R (AppError U)) → Type 0
  Outcome request s serve =
      ((p : HasPassed new_v4 parse_uuid key_store backend request s) × ((handler : Next U F S R)
          → serve handler
            ≡ handler (admitted new_v4 parse_uuid key_store backend request p.key) p.after_key))
      ⊎ ((r : S × AppError U) × ((handler : Next U F S R) → serve handler ≡ (r.0, err r.1)))

  last_check :
      (request : Request U F) (s s1 : S) (token : String) (key : AuthenticatedKey F)
      (res : S × Result (Unit {0}) ℕ)
      → backend.check_global s ≡ (s1, ok tt)
      → bearer_token request ≡ some token
      → key_store.authenticate token ≡ ok (some key)
      → role_allows_path key.role request.path ≡ true
      → key_store.check_quota key ≡ ok tt
      → backend.check_key s1 key.id key.limits.requests_per_minute
          (burst_of key.limits.requests_per_minute)
        ≡ res
      → Outcome request s (λ h.
        key_checked new_v4 parse_uuid key_store backend h
          (admitted new_v4 parse_uuid key_store backend request key)
          res)
  unfolding Outcome
  last_check request s s1 token key (s2, err w) g t a p q k = inr (
    (s2, gateway_rate_limited (some (parsed_id new_v4 parse_uuid request.x_request_id)) w),
    (λ h. refl),
  )
  last_check request s s1 token key (s2, ok _) g t a p q k = inl (
    record {
      token = token;
      key = key;
      after_global = s1;
      after_key = s2;
      in_global_rate = g;
      has_token = t;
      is_known = a;
      may_access = p;
      in_quota = q;
      in_key_rate = k;
    },
    (λ h. refl),
  )

  quota_check :
      (request : Request U F) (s s1 : S) (token : String) (key : AuthenticatedKey F)
      (quota : Result (Unit {0}) ℕ)
      → backend.check_global s ≡ (s1, ok tt)
      → bearer_token request ≡ some token
      → key_store.authenticate token ≡ ok (some key)
      → role_allows_path key.role request.path ≡ true
      → key_store.check_quota key ≡ quota
      → Outcome request s (λ h.
        quota_checked new_v4 parse_uuid key_store backend h
          (admitted new_v4 parse_uuid key_store backend request key)
          s1
          key
          quota)
  unfolding Outcome
  quota_check request s s1 token key (err w) g t a p q = inr (
    (s1, gateway_rate_limited (some (parsed_id new_v4 parse_uuid request.x_request_id)) w),
    (λ h. refl),
  )
  quota_check request s s1 token key (ok _) g t a p q =
      last_check request s s1 token key _ g t a p q refl

  role_check :
      (request : Request U F) (s s1 : S) (token : String) (key : AuthenticatedKey F)
      → backend.check_global s ≡ (s1, ok tt)
      → bearer_token request ≡ some token
      → key_store.authenticate token ≡ ok (some key)
      → Outcome request s (λ h.
        authorized new_v4 parse_uuid key_store backend
          (per_key_rate_limit_middleware new_v4 parse_uuid key_store backend h)
          (with_id new_v4 parse_uuid key_store backend request)
          s1
          key)
  unfolding Outcome authorized per_key_rate_limit_middleware
  role_check request s s1 token key g t a =
      elim (Bool-cases (role_allows_path key.role request.path)) [
        | inl p ↦ rw p (quota_check request s s1 token key (key_store.check_quota key) g t a p refl)
        | inr p ↦ inr (
          (
            s1,
            forbidden "API key is not allowed to access this route"
                (some (parsed_id new_v4 parse_uuid request.x_request_id)),
          ),
          (λ h. rw p refl),
        )
      ]

  key_check :
      (request : Request U F) (s s1 : S) (token : String)
      (found : Result (Option (AuthenticatedKey F)) (AuthError E))
      → backend.check_global s ≡ (s1, ok tt)
      → bearer_token request ≡ some token
      → key_store.authenticate token ≡ found
      → Outcome request s (λ h.
        authenticated new_v4 parse_uuid key_store backend
          (per_key_rate_limit_middleware new_v4 parse_uuid key_store backend h)
          (with_id new_v4 parse_uuid key_store backend request)
          s1
          found)
  unfolding Outcome authenticated
  key_check request s s1 token (err f) g t a = inr (
    (s1, invalid_token new_v4 (with_id new_v4 parse_uuid key_store backend request)),
    (λ h. refl),
  )
  key_check request s s1 token (ok none) g t a = inr (
    (s1, invalid_token new_v4 (with_id new_v4 parse_uuid key_store backend request)),
    (λ h. refl),
  )
  key_check request s s1 token (ok (some key)) g t a = role_check request s s1 token key g t a

  token_check :
      (request : Request U F) (s s1 : S) (token : Option String)
      → backend.check_global s ≡ (s1, ok tt)
      → bearer_token request ≡ token
      → Outcome request s (λ h.
        with_token new_v4 parse_uuid key_store backend
          (per_key_rate_limit_middleware new_v4 parse_uuid key_store backend h)
          (with_id new_v4 parse_uuid key_store backend request)
          s1
          token)
  unfolding Outcome with_token
  token_check request s s1 none g t = inr (
    (
      s1,
      unauthorized "missing bearer token" (some (parsed_id new_v4 parse_uuid request.x_request_id)),
    ),
    (λ h. refl),
  )
  token_check request s s1 (some token) g t =
      key_check request s s1 token (key_store.authenticate token) g t refl

  global_check :
      (request : Request U F) (s : S) (res : S × Result (Unit {0}) ℕ)
      → backend.check_global s ≡ res
      → Outcome request s (λ h.
        global_checked new_v4 parse_uuid key_store backend
          (auth_middleware new_v4 parse_uuid key_store backend
            (per_key_rate_limit_middleware new_v4 parse_uuid key_store backend h))
          (with_id new_v4 parse_uuid key_store backend request)
          res)
  unfolding Outcome auth_middleware bearer_token
  global_check request s (s1, err w) g = inr (
    (s1, gateway_rate_limited (some (parsed_id new_v4 parse_uuid request.x_request_id)) w),
    (λ h. refl),
  )
  global_check request s (s1, ok _) g = token_check request s s1 (bearer_token request) g refl

  -- A request to a protected route either passes every layer, within the global rate, with the token of
  -- a known key whose role may access the path, within the key's quota and rate, and then the handler is
  -- called with that key; or it is refused with an answer that is the same for every handler, so that
  -- none is called.
  pub protected_routes_lem :
      (request : Request U F) (s : S)
      → ((p : HasPassed new_v4 parse_uuid key_store backend request s) × ((handler : Next U F S R)
            → protected_routes new_v4 parse_uuid key_store backend handler request s
              ≡ handler (admitted new_v4 parse_uuid key_store backend request p.key) p.after_key))
        ⊎ ((r : S × AppError U) × ((handler : Next U F S R)
              → protected_routes new_v4 parse_uuid key_store backend handler request s
                ≡ (r.0, err r.1)))
  unfolding protected_routes Outcome request_id_middleware pre_auth_rate_limit_middleware
  protected_routes_lem request s = global_check request s (backend.check_global s) refl

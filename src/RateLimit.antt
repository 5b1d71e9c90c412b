-- ===== src/RateLimit.antt =====
-- src/rate_limit.rs: the token buckets and the local rate limiter. An `Instant` and a `Duration` are
-- numbers of nanoseconds; each call is one step under the mutex, and poisoning is not modelled.
pub mod Bounds
pub mod Buckets
pub mod Payments
pub mod Requests
pub mod Tests
use rustygate.Prelude.{
  ℕ, ◌-◌, ◌/◌, max, String, Bool, true, false, not, ◌&&◌, ◌==◌, Option, none, some, if◌then◌else◌,
  unwrap_or, is_some, Result, ok, err, saturating_add_u64,
}
use rustygate.Float.{Float}
use rustygate.Config.{RateLimitConfig}
use rustygate.Lru.{LruCache}

-- Rust's `Duration::as_secs_f64` and `Duration::from_secs_f64`
pub record Seconds (fl : Float) : Type 0 where
  pub as_secs_f64 : ℕ → fl.F64
  pub from_secs_f64 : fl.F64 → ℕ

abbrev pub map_option : {A B : Type 0} → (A → B) → Option A → Option B
map_option f none = none
map_option f (some a) = some (f a)

unfoldable pub max_wait : Option ℕ → Option ℕ → Option ℕ
max_wait (some left) (some right) = some (max left right)
max_wait (some left) none = some left
max_wait none (some right) = some right
max_wait none none = none

-- `Err(retry_after.as_secs().max(1))`
abbrev pub rejection : ℕ → ℕ
rejection retry_after = max (retry_after / 1_000_000_000) 1

-- The trait RateLimitBackend
pub record RateLimitBackend (S : Type 0) : Type 0 where
  pub check_global : S → S × Result (Unit {0}) ℕ
  pub check_key : S → String → Option ℕ → Option ℕ → S × Result (Unit {0}) ℕ

-- `if let Some(retry_after) = wait { return Err(..) }`: the state where the call is refused, and the
-- state after it has paid.
abbrev pub settle : {S : Type 0} → Option ℕ → S → S → S × Result (Unit {0}) ℕ
settle none refused paid = (paid, ok tt)
settle (some retry_after) refused paid = (refused, err (rejection retry_after))

module _ (fl : Float) where
  abbrev pub one_f64 : fl.F64
  one_f64 = fl.from_nat 1

  -- `0.1` and `0.001`, which are the quotients rounded to the nearest number
  abbrev pub tenth : fl.F64
  tenth = fl.div (fl.from_nat 1) (fl.from_nat 10)

  abbrev pub thousandth : fl.F64
  thousandth = fl.div (fl.from_nat 1) (fl.from_nat 1_000)

  unfoldable pub requests_per_minute_to_refill_rate : ℕ → fl.F64
  requests_per_minute_to_refill_rate requests_per_minute =
      fl.div (fl.from_nat (max requests_per_minute 1)) (fl.from_nat 60)

  pub record TokenBucket : Type 0 where
    pub capacity : fl.F64
    pub tokens : fl.F64
    pub refill_per_second : fl.F64
    pub last_refill : ℕ  -- an Instant

  -- TokenBucket::new
  unfoldable pub new_bucket : fl.F64 → fl.F64 → ℕ → TokenBucket
  new_bucket capacity refill_per_second now = record {
    capacity = fl.max_f64 capacity one_f64;
    tokens = fl.max_f64 capacity one_f64;
    refill_per_second = fl.max_f64 refill_per_second tenth;
    last_refill = now;
  }

module _ (fl : Float) (time : Seconds fl) where
  open time use {as_secs_f64, from_secs_f64}

  unfoldable pub refill : TokenBucket fl → ℕ → TokenBucket fl
  refill b now = record b {
    tokens =
        fl.min_f64
          (fl.add b.tokens (fl.mul (as_secs_f64 (now - b.last_refill)) b.refill_per_second))
          b.capacity;
    last_refill = now;
  }

  -- What `wait_duration` returns once the bucket is refilled.
  unfoldable pub wait_of : TokenBucket fl → Option ℕ
  wait_of b =
      if fl.le_f64 (one_f64 fl) b.tokens
      then none
      else some (
          from_secs_f64 (
            fl.max_f64 (fl.div (fl.sub (one_f64 fl) b.tokens) b.refill_per_second) (thousandth fl)))

  unfoldable pub wait_duration : TokenBucket fl → ℕ → TokenBucket fl × Option ℕ
  unfolding refill wait_of
  wait_duration b now = let b' = refill b now in (b', wait_of b')

  unfoldable pub consume_one : TokenBucket fl → ℕ → TokenBucket fl
  unfolding refill
  consume_one b now =
      let b' = refill b now in
      record b' { tokens = fl.max_f64 (fl.sub b'.tokens (one_f64 fl)) fl.zero_f64 }

module _ (fl : Float) (time : Seconds fl) (lru : LruCache (TokenBucket fl)) where
  open lru use {Cache, peek, put}

  pub record RateLimiterState : Type 0 where
    pub global_bucket : TokenBucket fl
    pub per_key_buckets : Cache
    pub per_key_capacity : fl.F64
    pub per_key_refill_per_second : fl.F64
    pub per_key_evictions : ℕ  -- u64

  unfoldable pub new : RateLimitConfig → ℕ → RateLimiterState
  unfolding new_bucket requests_per_minute_to_refill_rate
  new config now = record {
    global_bucket =
        new_bucket fl (fl.from_nat config.global_burst_size)
          (requests_per_minute_to_refill_rate fl config.global_requests_per_minute) now;
    per_key_buckets = lru.new config.max_tracked_keys;
    per_key_capacity = fl.from_nat config.per_key_burst_size;
    per_key_refill_per_second =
        requests_per_minute_to_refill_rate fl config.per_key_requests_per_minute;
    per_key_evictions = 0;
  }

  unfoldable pub check_global : RateLimiterState → ℕ → RateLimiterState × Result (Unit {0}) ℕ
  unfolding wait_duration consume_one
  check_global s now =
      let (waited, wait) = wait_duration fl time s.global_bucket now in
      settle wait (record s { global_bucket = waited })
        (record s { global_bucket = consume_one fl time waited now })

  abbrev pub count_eviction : RateLimiterState → String → RateLimiterState
  count_eviction s api_key = record s {
    per_key_evictions =
        if not (is_some (peek s.per_key_buckets api_key))
          && lru.len s.per_key_buckets == lru.cap s.per_key_buckets
        then saturating_add_u64 s.per_key_evictions 1
        else s.per_key_evictions;
  }

  -- `get_or_insert_mut`, and what the call does through the reference that it returns: the key's
  -- bucket, or the new one, is changed and put in front.
  abbrev pub bucket_of : RateLimiterState → String → TokenBucket fl → TokenBucket fl
  bucket_of s api_key fresh = unwrap_or (peek s.per_key_buckets api_key) fresh

  abbrev pub set_bucket : RateLimiterState → String → TokenBucket fl → RateLimiterState
  set_bucket s api_key b = record s { per_key_buckets = put s.per_key_buckets api_key b }

  unfoldable pub check_key_with_override :
      RateLimiterState → String → Option ℕ → Option ℕ → ℕ → RateLimiterState × Result (Unit {0}) ℕ
  unfolding new_bucket requests_per_minute_to_refill_rate wait_duration consume_one
  check_key_with_override s api_key requests_per_minute burst_size now =
      let capacity =
        fl.max_f64 (unwrap_or (map_option fl.from_nat burst_size) s.per_key_capacity)
          (one_f64 fl) in
      let rate =
        unwrap_or (map_option (requests_per_minute_to_refill_rate fl) requests_per_minute)
          s.per_key_refill_per_second in
      let counted = count_eviction s api_key in
      let (waited, wait) =
        wait_duration fl time (bucket_of counted api_key (new_bucket fl capacity rate now)) now in
      settle wait (set_bucket counted api_key waited)
        (set_bucket counted api_key (consume_one fl time waited now))

  unfoldable pub check_key : RateLimiterState → String → ℕ → RateLimiterState × Result (Unit {0}) ℕ
  unfolding check_key_with_override
  check_key s api_key now = check_key_with_override s api_key none none now

  -- `if let Some(per_key_bucket) = guard.per_key_buckets.get_mut(api_key)`
  unfoldable pub consume_key :
      RateLimiterState → String → ℕ → Option (TokenBucket fl) → RateLimiterState
  unfolding consume_one
  consume_key s api_key now none = s
  consume_key s api_key now (some b) = set_bucket s api_key (consume_one fl time b now)

  -- Both buckets are asked, and both pay or none does.
  unfoldable pub check : RateLimiterState → String → ℕ → RateLimiterState × Result (Unit {0}) ℕ
  unfolding new_bucket wait_duration consume_one max_wait consume_key
  check s api_key now =
      let counted = count_eviction s api_key in
      let fresh = new_bucket fl s.per_key_capacity s.per_key_refill_per_second now in
      let (key_waited, key_wait) = wait_duration fl time (bucket_of counted api_key fresh) now in
      let (global_waited, global_wait) = wait_duration fl time s.global_bucket now in
      let asked = record (set_bucket counted api_key key_waited) {
        global_bucket = global_waited;
      } in
      let paid = record asked { global_bucket = consume_one fl time global_waited now } in
      settle (max_wait global_wait key_wait) asked
        (consume_key paid api_key now (peek paid.per_key_buckets api_key))

  -- The limiter as a backend, at an instant.
  unfoldable pub local_backend : ℕ → RateLimitBackend RateLimiterState
  unfolding check_global check_key_with_override
  local_backend now = record {
    check_global = λ s. check_global s now;
    check_key = λ s api_key rate burst. check_key_with_override s api_key rate burst now;
  }

-- ===== src/RateLimit/Requests.antt =====
-- src/rate_limit.rs: the two checks of a request, as the layers of src/app/middleware.rs call them: the
-- global one before the key is known, and then the key's own.
use rustygate.Prelude.{
  ℕ, ◌≤◌, String, ◌≡◌, refl, sym, subst, ◌⊎◌, inl, inr, Option, some, Result, ok, err, Option-cases,
  unwrap_or,
}
use rustygate.Float.{Float}
use rustygate.Lru.{LruCache}
use rustygate.RateLimit.{
  Seconds, TokenBucket, RateLimiterState, one_f64, new_bucket, refill, wait_of, wait_duration,
  consume_one, check_global, check_key_with_override, requests_per_minute_to_refill_rate,
  map_option, bucket_of, rejection,
}
use rustygate.RateLimit.Buckets.{
  rejection-pos, settle-some, settle-none, Pays, Keeps, consume_one-Pays, refill-Keeps,
}

module _ (fl : Float) (time : Seconds fl) (lru : LruCache (TokenBucket fl)) where
  abbrev Checked : Type 0
  Checked = RateLimiterState fl time lru × Result (Unit {0}) ℕ

  -- The answer of a check that the limiter refuses: the wait is a second at least.
  pub record IsRefused (r : Checked) : Type 0 where
    pub wait : ℕ
    pub refused : r.1 ≡ err wait
    pub wait_pos : 1 ≤ wait

  -- The bucket that a check of a key finds: the key's, or a new one with the limits of the key.
  abbrev pub found_bucket :
      RateLimiterState fl time lru → String → Option ℕ → Option ℕ → ℕ → TokenBucket fl
  found_bucket s api_key requests_per_minute burst_size now = bucket_of fl time lru s api_key (
      new_bucket fl
        (fl.max_f64 (unwrap_or (map_option fl.from_nat burst_size) s.per_key_capacity) (one_f64 fl))
        (unwrap_or (map_option (requests_per_minute_to_refill_rate fl) requests_per_minute)
          s.per_key_refill_per_second)
        now)

  -- A check that pays with one bucket, and one that does not.
  abbrev Succeeds : TokenBucket fl → TokenBucket fl → ℕ → Checked → Type 0
  Succeeds b b' now r = Pays fl time b b' now × (r.1 ≡ ok tt)

  abbrev Fails : TokenBucket fl → TokenBucket fl → ℕ → Checked → Type 0
  Fails b b' now r = Keeps fl time b b' now × IsRefused r

  -- A check of the global limit leaves the keys' buckets as they were.
  abbrev pub GlobalVerdict : RateLimiterState fl time lru → ℕ → Checked → Type 0
  GlobalVerdict s now r =
      (r.0.per_key_buckets ≡ s.per_key_buckets)
      × (Succeeds s.global_bucket r.0.global_bucket now r
          ⊎ Fails s.global_bucket r.0.global_bucket now r)

  -- A check of a key leaves the global bucket as it was, and stores the key's bucket.
  abbrev pub KeyVerdict :
      RateLimiterState fl time lru → TokenBucket fl → String → ℕ → Checked → Type 0
  KeyVerdict s b api_key now r =
      (r.0.global_bucket ≡ s.global_bucket)
      × ((b' : TokenBucket fl) × (lru.peek r.0.per_key_buckets api_key ≡ some b')
          × (Succeeds b b' now r ⊎ Fails b b' now r))

  rejection-IsRefused : (r : Checked) (d : ℕ) → r.1 ≡ err (rejection d) → IsRefused r
  rejection-IsRefused r d e = record { wait = rejection d; refused = e; wait_pos = rejection-pos d }

  check_global-GlobalVerdict :
      (s : RateLimiterState fl time lru) (now : ℕ)
      → GlobalVerdict s now (check_global fl time lru s now)
  unfolding check_global wait_duration
  check_global-GlobalVerdict s now =
      let g = refill fl time s.global_bucket now in
      elim (Option-cases (wait_of fl time g)) [
        | inl n ↦
            subst (GlobalVerdict s now) (sym (settle-none (wait_of fl time g) _ _ n))
              (refl, inl (consume_one-Pays fl time s.global_bucket now n, refl))
        | inr (d, n) ↦
            subst (GlobalVerdict s now) (sym (settle-some (wait_of fl time g) _ _ d n)) (
              refl,
              inr (refill-Keeps fl time s.global_bucket now d n, rejection-IsRefused _ d refl),
            )
      ]

  check_key-KeyVerdict :
      (s : RateLimiterState fl time lru) (api_key : String) (rate burst : Option ℕ) (now : ℕ)
      → KeyVerdict s
          (found_bucket s api_key rate burst now)
          api_key
          now
          (check_key_with_override fl time lru s api_key rate burst now)
  unfolding check_key_with_override wait_duration
  check_key-KeyVerdict s api_key rate burst now =
      let b = found_bucket s api_key rate burst now in
      let k = refill fl time b now in
      elim (Option-cases (wait_of fl time k)) [
        | inl n ↦ subst (KeyVerdict s b api_key now) (sym (settle-none (wait_of fl time k) _ _ n)) (
          refl,
          (
            consume_one fl time k now,
            lru.peek_put s.per_key_buckets api_key _,
            inl (consume_one-Pays fl time b now n, refl),
          ),
        )
        | inr (d, n) ↦
            subst (KeyVerdict s b api_key now) (sym (settle-some (wait_of fl time k) _ _ d n)) (
              refl,
              (
                k,
                lru.peek_put s.per_key_buckets api_key _,
                inr (refill-Keeps fl time b now d n, rejection-IsRefused _ d refl),
              ),
            )
      ]

  -- A request asks the global bucket and, later, the bucket of its key, which is the stored one or a
  -- new one with the limits of the key. Each of the two checks takes one token of its own bucket and
  -- succeeds where that bucket holds a whole token; else it takes none and asks the caller to wait a
  -- second at least. Neither touches the other's bucket, so a request that its key's bucket
  -- refuses has paid the global one.
  pub request_lem :
      (s : RateLimiterState fl time lru) (api_key : String) (rate burst : Option ℕ) (now later : ℕ)
      → let s' = (check_global fl time lru s now).0 in
        GlobalVerdict s now (check_global fl time lru s now)
        × KeyVerdict s'
            (found_bucket s' api_key rate burst later)
            api_key
            later
            (check_key_with_override fl time lru s' api_key rate burst later)
  request_lem s api_key rate burst now later = (
    check_global-GlobalVerdict s now,
    check_key-KeyVerdict (check_global fl time lru s now).0 api_key rate burst later,
  )

-- ===== src/RateLimit/Bounds.antt =====
-- src/rate_limit.rs: a bucket never holds more than its capacity, whatever calls come.
use rustygate.Prelude.{
  ℕ, String, ◌≡◌, refl, sym, ap, subst, ◌∙◌, inl, inr, true, Option, none, some, List, [], ◌∷◌,
  unwrap_or, String-cases,
}
use rustygate.Float.{Float}
use rustygate.Config.{RateLimitConfig}
use rustygate.Lru.{LruCache}
use rustygate.RateLimit.{
  Seconds, TokenBucket, RateLimiterState, one_f64, new_bucket, new, refill, wait_duration,
  consume_one, check_global, check_key_with_override, check, count_eviction, set_bucket, map_option,
  requests_per_minute_to_refill_rate, consume_key, settle,
}

-- What IEEE 754 says of the operations that the buckets use. A number is not NaN where it is at most
-- another one.
pub record AreOrdered (fl : Float) : Type 0 where
  pub le_trans :
      (a b c : fl.F64) → fl.le_f64 a b ≡ true → fl.le_f64 b c ≡ true → fl.le_f64 a c ≡ true
  pub not_nan_left : (a b : fl.F64) → fl.le_f64 a b ≡ true → fl.le_f64 a a ≡ true
  pub not_nan_right : (a b : fl.F64) → fl.le_f64 a b ≡ true → fl.le_f64 b b ≡ true
  pub le_max_right : (a b : fl.F64) → fl.le_f64 b b ≡ true → fl.le_f64 b (fl.max_f64 a b) ≡ true
  pub max_le :
      (a b c : fl.F64)
      → fl.le_f64 a c ≡ true
      → fl.le_f64 b c ≡ true
      → fl.le_f64 (fl.max_f64 a b) c ≡ true
  pub min_le_right : (a b : fl.F64) → fl.le_f64 b b ≡ true → fl.le_f64 (fl.min_f64 a b) b ≡ true
  pub sub_one_le :
      (a : fl.F64) → fl.le_f64 a a ≡ true → fl.le_f64 (fl.sub a (fl.from_nat 1)) a ≡ true
  pub zero_le_one : fl.le_f64 fl.zero_f64 (fl.from_nat 1) ≡ true

none_held : {A : Type 0} {B : Type 0} (a : A) → none ≡ some a → B
none_held a e = cc

some-inj : {A : Type 0} {a b : A} → some a ≡ some b → a ≡ b
some-inj e = cc

module _ (fl : Float) where
  -- A token can be paid from a full bucket, and no bucket is more than full.
  pub record IsBounded (b : TokenBucket fl) : Type 0 where
    pub room : fl.le_f64 (one_f64 fl) b.capacity ≡ true
    pub tokens_le : fl.le_f64 b.tokens b.capacity ≡ true

module _ (fl : Float) (ordered : AreOrdered fl) (time : Seconds fl) where
  open ordered use {
    le_trans, not_nan_left, not_nan_right, le_max_right, max_le, min_le_right, sub_one_le,
    zero_le_one,
  }

  new_bucket-IsBounded :
      (capacity rate : fl.F64) (now : ℕ) → IsBounded fl (new_bucket fl capacity rate now)
  unfolding new_bucket
  new_bucket-IsBounded capacity rate now =
      let room =
        le_max_right capacity (one_f64 fl) (not_nan_right fl.zero_f64 (one_f64 fl) zero_le_one) in
      record {
        room = room;
        tokens_le = not_nan_right (one_f64 fl) (fl.max_f64 capacity (one_f64 fl)) room;
      }

  refill-IsBounded :
      (b : TokenBucket fl) (now : ℕ) → IsBounded fl b → IsBounded fl (refill fl time b now)
  unfolding refill
  refill-IsBounded b now v = record {
    room = v.room;
    tokens_le = min_le_right _ b.capacity (not_nan_right (one_f64 fl) b.capacity v.room);
  }

  consume_one-IsBounded :
      (b : TokenBucket fl) (now : ℕ) → IsBounded fl b → IsBounded fl (consume_one fl time b now)
  unfolding consume_one
  consume_one-IsBounded b now v =
      let b' = refill fl time b now in
      let r = refill-IsBounded b now v in
      record {
        room = r.room;
        tokens_le =
            max_le (fl.sub b'.tokens (one_f64 fl)) fl.zero_f64 b'.capacity
              (le_trans (fl.sub b'.tokens (one_f64 fl)) b'.tokens b'.capacity
                (sub_one_le b'.tokens (not_nan_left b'.tokens b'.capacity r.tokens_le)) r.tokens_le)
              (le_trans fl.zero_f64 (one_f64 fl) b'.capacity zero_le_one r.room);
      }

module _ (fl : Float) (ordered : AreOrdered fl) (time : Seconds fl)
    (lru : LruCache (TokenBucket fl)) where
  -- Every bucket of the limiter is bounded.
  pub record AreBounded (s : RateLimiterState fl time lru) : Type 0 where
    pub global : IsBounded fl s.global_bucket
    pub keys :
        (api_key : String) (b : TokenBucket fl)
        → lru.peek s.per_key_buckets api_key ≡ some b
        → IsBounded fl b

  new-AreBounded : (config : RateLimitConfig) (now : ℕ) → AreBounded (new fl time lru config now)
  unfolding new
  new-AreBounded config now = record {
    global = new_bucket-IsBounded fl ordered time _ _ now;
    keys = λ k b e. none_held b (sym (lru.peek_new config.max_tracked_keys k) ∙ e);
  }

  set_bucket-AreBounded :
      (s : RateLimiterState fl time lru) (api_key : String) (b : TokenBucket fl)
      → AreBounded s
      → IsBounded fl b
      → AreBounded (set_bucket fl time lru s api_key b)
  set_bucket-AreBounded s api_key b v h = record {
    global = v.global;
    keys = λ k b' e. elim (String-cases api_key k) [
      | inl p ↦
          subst (λ (x : TokenBucket fl). IsBounded fl x)
            (some-inj (
              sym (lru.peek_put s.per_key_buckets api_key b)
              ∙ ap (λ (x : String). lru.peek (lru.put s.per_key_buckets api_key b) x) p
              ∙ e))
            h
      | inr p ↦ elim (lru.peek_put_ne s.per_key_buckets api_key k b p) [
        | inl q ↦ v.keys k b' (sym q ∙ e)
        | inr q ↦ none_held b' (sym q ∙ e)
      ]
    ];
  }

  held-IsBounded :
      (held : Option (TokenBucket fl)) (fresh : TokenBucket fl)
      → ((b : TokenBucket fl) → held ≡ some b → IsBounded fl b)
      → IsBounded fl fresh
      → IsBounded fl (unwrap_or held fresh)
  held-IsBounded none fresh h k = k
  held-IsBounded (some b) fresh h k = h b refl

  count_eviction-AreBounded :
      (s : RateLimiterState fl time lru) (api_key : String)
      → AreBounded s
      → AreBounded (count_eviction fl time lru s api_key)
  count_eviction-AreBounded s api_key v = record { global = v.global; keys = v.keys }

  settled :
      (wait : Option ℕ) {refused paid : RateLimiterState fl time lru}
      → AreBounded refused
      → AreBounded paid
      → AreBounded (settle wait refused paid).0
  settled none h k = k
  settled (some d) h k = h

  check_global-AreBounded :
      (s : RateLimiterState fl time lru) (now : ℕ)
      → AreBounded s
      → AreBounded (check_global fl time lru s now).0
  unfolding check_global wait_duration
  check_global-AreBounded s now v =
      let waited = refill-IsBounded fl ordered time s.global_bucket now v.global in
      settled _ (record { global = waited; keys = v.keys })
        (record { global = consume_one-IsBounded fl ordered time _ now waited; keys = v.keys })

  check_key-AreBounded :
      (s : RateLimiterState fl time lru) (api_key : String) (rate burst : Option ℕ) (now : ℕ)
      → AreBounded s
      → AreBounded (check_key_with_override fl time lru s api_key rate burst now).0
  unfolding check_key_with_override wait_duration
  check_key-AreBounded s api_key rate burst now v =
      let counted = count_eviction fl time lru s api_key in
      let v' = count_eviction-AreBounded s api_key v in
      let fresh =
        new_bucket-IsBounded fl ordered time
          (fl.max_f64 (unwrap_or (map_option fl.from_nat burst) s.per_key_capacity) (one_f64 fl))
          (unwrap_or (map_option (requests_per_minute_to_refill_rate fl) rate)
            s.per_key_refill_per_second)
          now in
      let waited =
        refill-IsBounded fl ordered time _ now
          (held-IsBounded (lru.peek s.per_key_buckets api_key) _ (v.keys api_key) fresh) in
      settled _ (set_bucket-AreBounded counted api_key _ v' waited) (
        set_bucket-AreBounded counted api_key _ v'
          (consume_one-IsBounded fl ordered time _ now waited))

  consume_key-AreBounded :
      (s : RateLimiterState fl time lru) (api_key : String) (now : ℕ)
      (held : Option (TokenBucket fl))
      → AreBounded s
      → ((b : TokenBucket fl) → held ≡ some b → IsBounded fl b)
      → AreBounded (consume_key fl time lru s api_key now held)
  unfolding consume_key
  consume_key-AreBounded s api_key now none v h = v
  consume_key-AreBounded s api_key now (some b) v h =
      set_bucket-AreBounded s api_key _ v (consume_one-IsBounded fl ordered time b now (h b refl))

  check-AreBounded :
      (s : RateLimiterState fl time lru) (api_key : String) (now : ℕ)
      → AreBounded s
      → AreBounded (check fl time lru s api_key now).0
  unfolding check wait_duration
  check-AreBounded s api_key now v =
      let counted = count_eviction fl time lru s api_key in
      let v' = count_eviction-AreBounded s api_key v in
      let fresh =
        new_bucket-IsBounded fl ordered time s.per_key_capacity s.per_key_refill_per_second now in
      let key_waited =
        refill-IsBounded fl ordered time _ now
          (held-IsBounded (lru.peek s.per_key_buckets api_key) _ (v.keys api_key) fresh) in
      let global_waited = refill-IsBounded fl ordered time s.global_bucket now v.global in
      let asked = set_bucket-AreBounded counted api_key _ v' key_waited in
      settled _ (record { global = global_waited; keys = asked.keys })
        (consume_key-AreBounded _ api_key now _
          (record {
            global = consume_one-IsBounded fl ordered time _ now global_waited;
            keys = asked.keys;
          })
          (asked.keys api_key))

  -- The calls that the gateway makes.
  pub data Call : Type 0 where
    global : ℕ → Call
    key : String → Option ℕ → Option ℕ → ℕ → Call
    both : String → ℕ → Call

  abbrev pub step : RateLimiterState fl time lru → Call → RateLimiterState fl time lru
  step s (global now) = (check_global fl time lru s now).0
  step s (key api_key rate burst now) =
      (check_key_with_override fl time lru s api_key rate burst now).0
  step s (both api_key now) = (check fl time lru s api_key now).0

  unfoldable pub run : RateLimiterState fl time lru → List Call → RateLimiterState fl time lru
  run s [] = s
  run s (c ∷ cs) = run (step s c) cs

  step-AreBounded :
      (s : RateLimiterState fl time lru) (c : Call) → AreBounded s → AreBounded (step s c)
  step-AreBounded s (global now) v = check_global-AreBounded s now v
  step-AreBounded s (key api_key rate burst now) v = check_key-AreBounded s api_key rate burst now v
  step-AreBounded s (both api_key now) v = check-AreBounded s api_key now v

  steps-AreBounded :
      (s : RateLimiterState fl time lru) (cs : List Call) → AreBounded s → AreBounded (run s cs)
  unfolding run
  steps-AreBounded s [] v = v
  steps-AreBounded s (c ∷ cs) v = steps-AreBounded (step s c) cs (step-AreBounded s c v)

  -- After any calls, at any instants, no bucket of the limiter, the global one or a key's, holds more
  -- tokens than its capacity, which is one at least.
  pub run-AreBounded :
      (config : RateLimitConfig) (start : ℕ) (cs : List Call)
      → AreBounded (run (new fl time lru config start) cs)
  run-AreBounded config start cs =
      steps-AreBounded (new fl time lru config start) cs (new-AreBounded config start)

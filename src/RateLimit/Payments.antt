-- ===== src/RateLimit/Payments.antt =====
-- src/rate_limit.rs: what a call takes from the buckets.
use rustygate.Prelude.{
  ℕ, ◌≤◌, String, ◌≡◌, ◌≢◌, refl, sym, ap, subst, ◌∙◌, ◌⊎◌, inl, inr, false, Option, none, some, ok,
  err, Option-cases, Result,
}
use rustygate.Float.{Float}
use rustygate.Lru.{LruCache}
use rustygate.RateLimit.{
  Seconds, TokenBucket, RateLimiterState, one_f64, new_bucket, refill, wait_of, wait_duration,
  consume_one, check_key_with_override, check, count_eviction, bucket_of, set_bucket, max_wait,
  consume_key, settle, rejection,
}
use rustygate.RateLimit.Buckets.{
  rejection-pos, settle-some, settle-none, available, Pays, consume_one-Pays, refill-Keeps,
}

no_wait : (left right : Option ℕ) → max_wait left right ≡ none → (left ≡ none) × (right ≡ none)
unfolding max_wait
no_wait none none e = (refl, refl)
no_wait none (some r) e = cc
no_wait (some l) none e = cc
no_wait (some l) (some r) e = cc

no_waits : (left right : Option ℕ) → left ≡ none → right ≡ none → max_wait left right ≡ none
unfolding max_wait
no_waits left right e e' = rw (e, e') refl

module _ (fl : Float) (time : Seconds fl) (lru : LruCache (TokenBucket fl)) where
  abbrev Checked : Type 0
  Checked = RateLimiterState fl time lru × Result (Unit {0}) ℕ

  -- The key's bucket that a call finds, or the new one.
  abbrev pub key_bucket : RateLimiterState fl time lru → String → ℕ → TokenBucket fl
  key_bucket s api_key now =
      bucket_of fl time lru s api_key
        (new_bucket fl s.per_key_capacity s.per_key_refill_per_second now)

  -- What a call for another key may change of a key's bucket.
  abbrev pub Elsewhere :
      RateLimiterState fl time lru → String → RateLimiterState fl time lru → Type 0
  Elsewhere s other s' =
      (s'.global_bucket ≡ s.global_bucket)
      × ((lru.peek s'.per_key_buckets other ≡ lru.peek s.per_key_buckets other)
          ⊎ (lru.peek s'.per_key_buckets other ≡ none))

  consume_key-held :
      (s : RateLimiterState fl time lru) (api_key : String) (now : ℕ) (b : TokenBucket fl)
      (held : Option (TokenBucket fl))
      → held ≡ some b
      → ((consume_key fl time lru s api_key now held).global_bucket ≡ s.global_bucket)
        × (lru.peek (consume_key fl time lru s api_key now held).per_key_buckets api_key
            ≡ some (consume_one fl time b now))
  unfolding consume_key
  consume_key-held s api_key now b none e = cc
  consume_key-held s api_key now b (some b') e =
      let same : b' ≡ b = cc in
      (
        refl,
        lru.peek_put s.per_key_buckets api_key _
            ∙ ap (λ (x : TokenBucket fl). some (consume_one fl time x now)) same,
      )

  consume_key-peek :
      (s : RateLimiterState fl time lru) (api_key : String) (now : ℕ) (b : TokenBucket fl)
      → lru.peek s.per_key_buckets api_key ≡ some b
      → ((consume_key fl time lru s api_key now (lru.peek s.per_key_buckets api_key)).global_bucket
          ≡ s.global_bucket)
        × (lru.peek
              (consume_key fl time lru s api_key now
                (lru.peek s.per_key_buckets api_key)).per_key_buckets
              api_key
            ≡ some (consume_one fl time b now))
  consume_key-peek s api_key now b e =
      consume_key-held s api_key now b (lru.peek s.per_key_buckets api_key) e

  -- Both buckets pay a token.
  pub record BothPay (s : RateLimiterState fl time lru) (api_key : String) (now : ℕ) : Type 0 where
    pub passes : (check fl time lru s api_key now).1 ≡ ok tt
    pub global_pays :
        Pays fl time s.global_bucket (check fl time lru s api_key now).0.global_bucket now
    pub bucket : TokenBucket fl
    pub stored : lru.peek (check fl time lru s api_key now).0.per_key_buckets api_key ≡ some bucket
    pub key_pays : Pays fl time (key_bucket s api_key now) bucket now

  -- A bucket has no token; both are only refilled.
  pub record NonePays (s : RateLimiterState fl time lru) (api_key : String) (now : ℕ) : Type 0 where
    pub lacks :
        (fl.le_f64 (one_f64 fl) (available fl time (key_bucket s api_key now) now) ≡ false)
        ⊎ (fl.le_f64 (one_f64 fl) (available fl time s.global_bucket now) ≡ false)
    pub wait : ℕ
    pub refused : (check fl time lru s api_key now).1 ≡ err wait
    pub wait_pos : 1 ≤ wait
    pub global_keeps :
        (check fl time lru s api_key now).0.global_bucket.tokens
        ≡ available fl time s.global_bucket now
    pub bucket : TokenBucket fl
    pub stored : lru.peek (check fl time lru s api_key now).0.per_key_buckets api_key ≡ some bucket
    pub key_keeps : bucket.tokens ≡ available fl time (key_bucket s api_key now) now

  some_lacks :
      (k g : TokenBucket fl) (now d : ℕ)
      → max_wait (wait_of fl time (refill fl time g now)) (wait_of fl time (refill fl time k now))
        ≡ some d
      → (fl.le_f64 (one_f64 fl) (available fl time k now) ≡ false)
        ⊎ (fl.le_f64 (one_f64 fl) (available fl time g now) ≡ false)
  some_lacks k g now d e = elim (Option-cases (wait_of fl time (refill fl time k now))) [
    | inr (w, i) ↦ inl (refill-Keeps fl time k now w i).lacks
    | inl i ↦ elim (Option-cases (wait_of fl time (refill fl time g now))) [
      | inr (w, j) ↦ inr (refill-Keeps fl time g now w j).lacks
      | inl j ↦ no_way (
          sym (
            no_waits (wait_of fl time (refill fl time g now))
              (wait_of fl time (refill fl time k now)) j i)
          ∙ e)
    ]
  ]
    where
      no_way :
          none ≡ some d
          → (fl.le_f64 (one_f64 fl) (available fl time k now) ≡ false)
            ⊎ (fl.le_f64 (one_f64 fl) (available fl time g now) ≡ false)
      no_way h = cc

  -- One call of `check` charges both buckets or none: either the key's bucket and the global one hold a
  -- whole token each, and it succeeds and takes one from both; or one of them holds none, and it
  -- takes none from either and asks the caller to wait a second at least.
  pub check_lem :
      (s : RateLimiterState fl time lru) (api_key : String) (now : ℕ)
      → BothPay s api_key now ⊎ NonePays s api_key now
  unfolding check wait_duration
  check_lem s api_key now =
      let key = key_bucket s api_key now in
      let k = refill fl time key now in
      let g = refill fl time s.global_bucket now in
      let wait = max_wait (wait_of fl time g) (wait_of fl time k) in
      let counted = count_eviction fl time lru s api_key in
      let asked : RateLimiterState fl time lru = record (set_bucket fl time lru counted api_key k) {
        global_bucket = g;
      } in
      let paid : RateLimiterState fl time lru = record asked {
        global_bucket = consume_one fl time g now;
      } in
      let after =
        consume_key fl time lru paid api_key now (lru.peek paid.per_key_buckets api_key) in
      let held = lru.peek_put s.per_key_buckets api_key k in
      elim (Option-cases wait) [
        | inl n ↦
            let (m, m') = no_wait (wait_of fl time g) (wait_of fl time k) n in
            let (c, c') = consume_key-peek paid api_key now k held in
            let e = settle-none wait asked after n in
            inl (record {
              passes = ap (λ (r : Checked). r.1) e;
              global_pays =
                  subst (λ (b : TokenBucket fl). Pays fl time s.global_bucket b now)
                    (sym (ap (λ (r : Checked). r.0.global_bucket) e ∙ c))
                    (consume_one-Pays fl time s.global_bucket now m);
              bucket = consume_one fl time k now;
              stored = ap (λ (r : Checked). lru.peek r.0.per_key_buckets api_key) e ∙ c';
              key_pays = consume_one-Pays fl time key now m';
            })
        | inr (d, n) ↦
            let e = settle-some wait asked after d n in
            inr (record {
              lacks = some_lacks key s.global_bucket now d n;
              wait = rejection d;
              refused = ap (λ (r : Checked). r.1) e;
              wait_pos = rejection-pos d;
              global_keeps =
                  ap (λ (r : Checked). r.0.global_bucket.tokens) e ∙ unfold refill in refl;
              bucket = k;
              stored = ap (λ (r : Checked). lru.peek r.0.per_key_buckets api_key) e ∙ held;
              key_keeps = unfold refill in refl;
            })
      ]

  settle-Elsewhere :
      (s asked paid : RateLimiterState fl time lru) (wait : Option ℕ) (other : String)
      → Elsewhere s other asked
      → Elsewhere s other paid
      → Elsewhere s other (settle wait asked paid).0
  settle-Elsewhere s asked paid none other h k = k
  settle-Elsewhere s asked paid (some d) other h k = h

  -- A call for one key leaves the global bucket, and the bucket of any other key as it was, where it
  -- was not evicted to make room.
  pub check_key-Elsewhere :
      (s : RateLimiterState fl time lru) (api_key other : String) (rate burst : Option ℕ) (now : ℕ)
      → api_key ≢ other
      → Elsewhere s other (check_key_with_override fl time lru s api_key rate burst now).0
  unfolding check_key_with_override wait_duration
  check_key-Elsewhere s api_key other rate burst now ne =
      settle-Elsewhere s _ _ _ other (refl, lru.peek_put_ne s.per_key_buckets api_key other _ ne)
        (refl, lru.peek_put_ne s.per_key_buckets api_key other _ ne)

-- ===== src/RateLimit/Buckets.antt =====
-- src/rate_limit.rs: what a call does to one bucket, spelled out in the operations on numbers.
use rustygate.Prelude.{ℕ, ◌-◌, ◌≤◌, ◌≡◌, refl, ap, true, false, Option, none, some, arith, ok, err}
use rustygate.Float.{Float}
use rustygate.RateLimit.{
  Seconds, TokenBucket, one_f64, refill, wait_of, consume_one, settle, rejection,
}

pub rejection-pos : (d : ℕ) → 1 ≤ rejection d
rejection-pos d = omega arith

pub settle-some :
    {S : Type 0} (wait : Option ℕ) (refused paid : S) (d : ℕ)
    → wait ≡ some d
    → settle wait refused paid ≡ (refused, err (rejection d))
settle-some wait refused paid d e = ap (λ (w : Option ℕ). settle w refused paid) e

pub settle-none :
    {S : Type 0} (wait : Option ℕ) (refused paid : S)
    → wait ≡ none
    → settle wait refused paid ≡ (paid, ok tt)
settle-none wait refused paid e = ap (λ (w : Option ℕ). settle w refused paid) e

module _ (fl : Float) (time : Seconds fl) where
  -- The tokens of a bucket after some time: what it earned is added, up to its capacity.
  abbrev grown : TokenBucket fl → fl.F64 → ℕ → fl.F64
  grown b tokens elapsed =
      fl.min_f64 (fl.add tokens (fl.mul (time.as_secs_f64 elapsed) b.refill_per_second)) b.capacity

  abbrev pub available : TokenBucket fl → ℕ → fl.F64
  available b now = grown b b.tokens (now - b.last_refill)

  -- A call at an instant stamps the bucket, and does not touch its capacity and its rate.
  pub record IsStamped (b b' : TokenBucket fl) (now : ℕ) : Type 0 where
    pub same_capacity : b'.capacity ≡ b.capacity
    pub same_rate : b'.refill_per_second ≡ b.refill_per_second
    pub stamp : b'.last_refill ≡ now

  -- The bucket has a whole token and one is taken, but no more than there are; between asking and taking
  -- no time passes, for which the bucket earns what no time earns.
  pub record Pays (b b' : TokenBucket fl) (now : ℕ) : Type 0 where
    pub has : fl.le_f64 (one_f64 fl) (available b now) ≡ true
    pub paid :
        b'.tokens
        ≡ fl.max_f64 (fl.sub (grown b (available b now) (now - now)) (one_f64 fl)) fl.zero_f64
    pub stamped : IsStamped b b' now

  -- The bucket has no whole token, and none is taken.
  pub record Keeps (b b' : TokenBucket fl) (now : ℕ) : Type 0 where
    pub lacks : fl.le_f64 (one_f64 fl) (available b now) ≡ false
    pub kept : b'.tokens ≡ available b now
    pub stamped : IsStamped b b' now

  wait_of-none :
      (b : TokenBucket fl) → wait_of fl time b ≡ none → fl.le_f64 (one_f64 fl) b.tokens ≡ true
  unfolding wait_of
  wait_of-none b e = ground arith

  wait_of-some :
      (b : TokenBucket fl) (d : ℕ)
      → wait_of fl time b ≡ some d
      → fl.le_f64 (one_f64 fl) b.tokens ≡ false
  unfolding wait_of
  wait_of-some b d e = ground arith

  pub consume_one-Pays :
      (b : TokenBucket fl) (now : ℕ)
      → wait_of fl time (refill fl time b now) ≡ none
      → Pays b (consume_one fl time (refill fl time b now) now) now
  unfolding refill consume_one
  consume_one-Pays b now e = record {
    has = wait_of-none (refill fl time b now) e;
    paid = refl;
    stamped = record { same_capacity = refl; same_rate = refl; stamp = refl };
  }

  pub refill-Keeps :
      (b : TokenBucket fl) (now d : ℕ)
      → wait_of fl time (refill fl time b now) ≡ some d
      → Keeps b (refill fl time b now) now
  unfolding refill
  refill-Keeps b now d e = record {
    lacks = wait_of-some (refill fl time b now) d e;
    kept = refl;
    stamped = record { same_capacity = refl; same_rate = refl; stamp = refl };
  }

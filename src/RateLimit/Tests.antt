-- ===== src/RateLimit/Tests.antt =====
-- src/rate_limit.rs: the theorems about the limiter at concrete calls.
use mathlib.Core.Bool.{true≢false}
use rustygate.Prelude.{◌*◌, ◌/◌, String, ◌≢◌, ◌⊎◌, ap, none, some, [], ◌∷◌, arith, str_eq}
use rustygate.Float.Model.{nat_float}
use rustygate.Lru.Model.{list_lru}
use rustygate.Config.{default_rate_limit_config}
use rustygate.RateLimit.{
  Seconds, TokenBucket, RateLimiterState, new, check_global, check_key_with_override,
}
use rustygate.RateLimit.Bounds.{AreOrdered, AreBounded, global, key, both, run, run-AreBounded}
use rustygate.RateLimit.Requests.{GlobalVerdict, KeyVerdict, found_bucket, request_lem}
use rustygate.RateLimit.Payments.{BothPay, NonePays, check_lem, Elsewhere, check_key-Elsewhere}

nat_float-AreOrdered : AreOrdered nat_float
nat_float-AreOrdered = record {
  le_trans = λ a b c h k. ground arith;
  not_nan_left = λ a b h. ground arith;
  not_nan_right = λ a b h. ground arith;
  le_max_right = λ a b h. ground arith;
  max_le = λ a b c h k. ground arith;
  min_le_right = λ a b h. ground arith;
  sub_one_le = λ a h. ground arith;
  zero_le_one = ground arith;
}

abbrev pub seconds : Seconds nat_float
seconds = record { as_secs_f64 = λ d. d / 1_000_000_000; from_secs_f64 = λ s. s * 1_000_000_000 }

abbrev pub limiter : RateLimiterState nat_float seconds (list_lru (TokenBucket nat_float))
limiter = new nat_float seconds (list_lru (TokenBucket nat_float)) default_rate_limit_config 5

run-AreBounded_example :
    AreBounded nat_float nat_float-AreOrdered seconds (list_lru (TokenBucket nat_float)) (
      run nat_float nat_float-AreOrdered seconds
        (list_lru (TokenBucket nat_float))
        limiter
        (global 6 ∷ key "a" (some 8) (some 2) 7 ∷ both "b" 3_000_000_000 ∷ []))
run-AreBounded_example =
    run-AreBounded nat_float nat_float-AreOrdered seconds (list_lru (TokenBucket nat_float))
      default_rate_limit_config 5
      (global 6 ∷ key "a" (some 8) (some 2) 7 ∷ both "b" 3_000_000_000 ∷ [])

check_lem_example :
    BothPay nat_float seconds (list_lru (TokenBucket nat_float)) limiter "a" 9
    ⊎ NonePays nat_float seconds (list_lru (TokenBucket nat_float)) limiter "a" 9
check_lem_example = check_lem nat_float seconds (list_lru (TokenBucket nat_float)) limiter "a" 9

request_lem_example :
    let s' = (check_global nat_float seconds (list_lru (TokenBucket nat_float)) limiter 9).0 in
    GlobalVerdict nat_float seconds
      (list_lru (TokenBucket nat_float))
      limiter
      9
      (check_global nat_float seconds (list_lru (TokenBucket nat_float)) limiter 9)
    × KeyVerdict nat_float seconds
        (list_lru (TokenBucket nat_float))
        s'
        (found_bucket nat_float seconds
          (list_lru (TokenBucket nat_float))
          s'
          "a"
          (some 8)
          (some 2)
          11)
        "a"
        11
        (check_key_with_override nat_float seconds
          (list_lru (TokenBucket nat_float))
          s'
          "a"
          (some 8)
          (some 2)
          11)
request_lem_example =
    request_lem nat_float seconds (list_lru (TokenBucket nat_float)) limiter "a" (some 8) (some 2) 9
      11

a_is_not_b : ◌≢◌ {A = String} "a" "b"
unfolding str_eq
a_is_not_b e = true≢false (ap (str_eq "a") e)

check_key-Elsewhere_example :
    Elsewhere nat_float seconds
      (list_lru (TokenBucket nat_float))
      limiter
      "b"
      (check_key_with_override nat_float seconds
        (list_lru (TokenBucket nat_float))
        limiter
        "a"
        none
        none
        9).0
check_key-Elsewhere_example =
    check_key-Elsewhere nat_float seconds (list_lru (TokenBucket nat_float)) limiter "a" "b" none
      none 9 a_is_not_b

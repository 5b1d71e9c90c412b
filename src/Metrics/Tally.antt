-- ===== src/Metrics/Tally.antt =====
-- src/telemetry/metrics.rs: what it is for the registry's totals to agree with each other and for its
-- lists of samples to be short, and how one counter or list changes.
use rustygate.Prelude.Dict
use rustygate.Prelude.Dict.{Dict}
use rustygate.Prelude.{
  ℕ, ◌≤◌, String, ◌≡◌, refl, sym, ap, inl, inr, Bool, true, false, List, [], ◌∷◌, arith, length,
  length-append, wrapping_add_u64, str_eq, str_eq_iff, if◌then◌else◌, Bool-cases, ◌==◌,
}
use rustygate.Metrics.{MetricsRegistry, add_to, push_sample}
use rustygate.Metrics.InFlight.{count}
use rustygate.Metrics.Requests.{push_sample_of}

-- A list of samples keeps the 1,024 latest.
abbrev pub IsShort : {A : Type 0} → List A → Type 0
IsShort samples = length samples ≤ 1_024

abbrev pub AreShort : {A : Type 0} → Dict (List A) → Type 0
AreShort m = (k : String) → IsShort (Dict.get_or m k [])

-- Every request has succeeded or failed, and so has every attempt at a provider: the sums wrap around
-- as the counters do.
abbrev pub IsTallied : {F : Type 0} → MetricsRegistry F → Type 0
IsTallied m =
    (m.total_requests ≡ wrapping_add_u64 m.successful_requests m.failed_requests)
    × ((k : String)
        → count m.requests_by_provider k
          ≡ wrapping_add_u64 (count m.successes_by_provider k) (count m.errors_by_provider k))

abbrev pub HasShortSamples : {F : Type 0} → MetricsRegistry F → Type 0
HasShortSamples m =
    IsShort m.latency_samples_ms
    × (IsShort m.stream_duration_samples_ms
        × (AreShort m.provider_latency_samples_ms
            × (AreShort m.provider_ttft_samples_ms × AreShort m.provider_error_samples)))

abbrev pub IsConsistent : {F : Type 0} → MetricsRegistry F → Type 0
IsConsistent m = IsTallied m × HasShortSamples m

pub push_sample-IsShort :
    {A : Type 0} (samples : List A) (x : A) → IsShort samples → IsShort (push_sample samples x)
unfolding push_sample
push_sample-IsShort [] x h = omega arith
push_sample-IsShort (y ∷ ys) x h = elim (Bool-cases (length (y ∷ ys) == 1_024)) [
  | inl e ↦ rw e (omega (arith, length-append ys (x ∷ []), h))
  | inr e ↦ rw e (ground (arith, length-append (y ∷ ys) (x ∷ []), h))
]

pub short_insert :
    {A : Type 0} (m : Dict (List A)) (key : String) (xs : List A)
    → AreShort m
    → IsShort xs
    → AreShort (Dict.insert key xs m)
short_insert m key xs v h k = elim (Bool-cases (str_eq key k)) [
  | inl e ↦ rw (Dict.get-insert key k xs m, e) h
  | inr e ↦ rw (Dict.get-insert key k xs m, e) (v k)
]

pub push_sample_of-AreShort :
    {A : Type 0} (m : Dict (List A)) (key : String) (x : A)
    → AreShort m
    → AreShort (push_sample_of m key x)
unfolding push_sample_of
push_sample_of-AreShort m key x v =
    short_insert m key _ v (push_sample-IsShort (Dict.get_or m key []) x (v key))

pub count-add_to :
    (m : Dict ℕ) (j k : String)
    → count (add_to m j 1) k ≡ (if str_eq j k then wrapping_add_u64 (count m k) 1 else count m k)
unfolding add_to
count-add_to m j k = elim (Bool-cases (str_eq j k)) [
  | inl e ↦
      let same : k ≡ j = ground (arith, str_eq_iff j k) in
      rw (Dict.get-insert j k (wrapping_add_u64 (count m j) 1) m, e)
        (ap (λ (x : String). wrapping_add_u64 (count m x) 1) (sym same))
  | inr e ↦ rw (Dict.get-insert j k (wrapping_add_u64 (count m j) 1) m, e) refl
]

pub tallied_left :
    (b : Bool) (r s f s' : ℕ)
    → r ≡ (if b then wrapping_add_u64 (wrapping_add_u64 s f) 1 else wrapping_add_u64 s f)
    → s' ≡ (if b then wrapping_add_u64 s 1 else s)
    → r ≡ wrapping_add_u64 s' f
tallied_left true r s f s' h k = omega (arith, h, k)
tallied_left false r s f s' h k = omega (arith, h, k)

pub tallied_right :
    (b : Bool) (r s f f' : ℕ)
    → r ≡ (if b then wrapping_add_u64 (wrapping_add_u64 s f) 1 else wrapping_add_u64 s f)
    → f' ≡ (if b then wrapping_add_u64 f 1 else f)
    → r ≡ wrapping_add_u64 s f'
tallied_right true r s f f' h k = omega (arith, h, k)
tallied_right false r s f f' h k = omega (arith, h, k)

pub tallied_both :
    (b : Bool) (r t r' : ℕ)
    → r ≡ t
    → r' ≡ (if b then wrapping_add_u64 r 1 else r)
    → r' ≡ (if b then wrapping_add_u64 t 1 else t)
tallied_both true r t r' h k = omega (arith, h, k)
tallied_both false r t r' h k = omega (arith, h, k)

pub one_more_left :
    (n a b : ℕ)
    → n ≡ wrapping_add_u64 a b
    → wrapping_add_u64 n 1 ≡ wrapping_add_u64 (wrapping_add_u64 a 1) b
one_more_left n a b h = omega (arith, h)

pub one_more_right :
    (n a b : ℕ)
    → n ≡ wrapping_add_u64 a b
    → wrapping_add_u64 n 1 ≡ wrapping_add_u64 a (wrapping_add_u64 b 1)
one_more_right n a b h = omega (arith, h)

-- ===== src/Metrics/Percentile.antt =====
-- src/telemetry/metrics.rs: a percentile is the sample of its rank.
use Prim.Native.Nat.{compare}
use Prim.Native.Nat.Ordering.{gt}
use rustygate.Prelude.Order.{compare-IsRanking}
use rustygate.Prelude.Sort.{sort_by, insert_by, IsSorted, sort_by-IsSorted}
use rustygate.Prelude.{
  ℕ, zero, suc, ◌+◌, ◌-◌, ◌≤◌, ◌<◌, ◌==◌, ◌≡◌, ◌≢◌, refl, ap, subst, ◌∙◌, ◌⊎◌, inl, inr, Option,
  none, some, false, Bool, List, [], ◌∷◌, length, arith, All, ltb, leb, if◌then◌else◌,
}
use rustygate.Float.{Float}
use rustygate.Metrics.Snapshot.{get_elem?, at_rank, percentile_latency}

-- How many samples a test picks.
abbrev pub number_of : (ℕ → Bool) → List ℕ → ℕ
number_of p [] = 0
number_of p (x ∷ xs) = (if p x then 1 else 0) + number_of p xs

-- The sample of a rank, counted from 1: fewer than `rank` samples are smaller, and at least `rank` are
-- not greater.
abbrev pub HasRank : ℕ → List ℕ → ℕ → Type 0
HasRank a samples rank =
    (number_of (λ x. ltb x a) samples < rank) × (rank ≤ number_of (λ x. leb x a) samples)

number_of-insert_by :
    (p : ℕ → Bool) (x : ℕ) (ys : List ℕ)
    → number_of p (insert_by compare x ys) ≡ number_of p (x ∷ ys)
unfolding insert_by
number_of-insert_by p x [] = refl
number_of-insert_by p x (y ∷ ys) = ground (arith, number_of-insert_by p x ys)

number_of-sort_by : (p : ℕ → Bool) (xs : List ℕ) → number_of p (sort_by compare xs) ≡ number_of p xs
unfolding sort_by
number_of-sort_by p [] = refl
number_of-sort_by p (x ∷ xs) =
    number_of-insert_by p x (sort_by compare xs)
    ∙ ap (λ n. (if p x then 1 else 0) + n) (number_of-sort_by p xs)

length-insert_by : (x : ℕ) (ys : List ℕ) → length (insert_by compare x ys) ≡ suc (length ys)
unfolding insert_by
length-insert_by x [] = refl
length-insert_by x (y ∷ ys) = ground (arith, length-insert_by x ys)

length-sort_by : (xs : List ℕ) → length (sort_by compare xs) ≡ length xs
unfolding sort_by
length-sort_by [] = refl
length-sort_by (x ∷ xs) = omega (arith, length-insert_by x (sort_by compare xs), length-sort_by xs)

none_smaller :
    (x : ℕ) (xs : List ℕ) → All (λ y. compare x y ≢ gt) xs → number_of (λ y. ltb y x) xs ≡ 0
none_smaller x [] h = refl
none_smaller x (y ∷ ys) h = ground (arith, none_smaller x ys h.1, h.0)

elem-not_less :
    (x : ℕ) (xs : List ℕ) (n a : ℕ)
    → All (λ y. compare x y ≢ gt) xs
    → get_elem? xs n ≡ some a
    → x ≤ a
elem-not_less x [] n a h e = cc
elem-not_less x (y ∷ ys) zero a h e = ground (arith, h.0)
elem-not_less x (y ∷ ys) (suc n) a h e = elem-not_less x ys n a h.1 e

sorted-HasRank :
    (xs : List ℕ) (n a : ℕ) → IsSorted compare xs → get_elem? xs n ≡ some a → HasRank a xs (suc n)
sorted-HasRank [] n a s e = cc
sorted-HasRank (x ∷ xs) zero a s e = ground (arith, none_smaller x xs s.0)
sorted-HasRank (x ∷ xs) (suc n) a s e =
    let rest = sorted-HasRank xs n a s.1 e in
    let small = elem-not_less x xs n a s.0 e in ground (arith, rest.0, rest.1)

elem_cases :
    (xs : List ℕ) (n : ℕ)
    → ((a : ℕ) × (get_elem? xs n ≡ some a)) ⊎ ((length xs ≤ n) × (get_elem? xs n ≡ none))
elem_cases [] n = inr (omega arith, refl)
elem_cases (x ∷ xs) zero = inl (x, refl)
elem_cases (x ∷ xs) (suc n) = elim (elem_cases xs n) [
  | inl found ↦ inl found
  | inr (long, e) ↦ inr (omega (arith, long), e)
]

module _ (fl : Float) where
  -- What indexing some samples by a rank gives: the sample of that rank, or a panic where no sample has it.
  abbrev pub Indexes : List ℕ → ℕ → Option fl.F64 → Type 0
  Indexes samples rank result =
      ((a : ℕ) × (result ≡ some (fl.from_nat a)) × HasRank a samples rank)
      ⊎ (((rank ≡ 0) ⊎ (length samples < rank)) × (result ≡ none))

  at_rank-Indexes :
      (xs : List ℕ) (rank : ℕ) → IsSorted compare xs → Indexes xs rank (at_rank fl xs rank)
  unfolding at_rank
  at_rank-Indexes xs zero s = inr (inl refl, refl)
  at_rank-Indexes xs (suc n) s =
      let positive : (suc n == 0) ≡ false = ground arith in
      let index : suc n - 1 ≡ n = omega arith in
      elim (elem_cases xs n) [
        | inl (a, e) ↦ inl (a, rw (positive, index, e) refl, sorted-HasRank xs n a s e)
        | inr (long, e) ↦ inr (inr (omega (arith, long)), rw (positive, index, e) refl)
      ]

  -- The percentile of some samples is the sample of the rank that their number times the percentile,
  -- rounded up, gives: fewer samples than that are smaller, and at least as many are not greater. The
  -- code panics exactly where that rank is 0 or greater than the number of samples.
  pub percentile_latency-Indexes :
      (x : ℕ) (xs : List ℕ) (percentile : fl.F64)
      → Indexes
          (x ∷ xs)
          (fl.ceil_u64 (fl.mul (fl.from_nat (length (x ∷ xs))) percentile))
          (percentile_latency fl (x ∷ xs) percentile)
  unfolding percentile_latency
  percentile_latency-Indexes x xs percentile =
      let samples = x ∷ xs in
      let sorted = sort_by compare samples in
      let same = length-sort_by samples in
      let rank = fl.ceil_u64 (fl.mul (fl.from_nat (length sorted)) percentile) in
      let found =
        at_rank-Indexes sorted rank (sort_by-IsSorted compare compare-IsRanking samples) in
      subst
        (λ (n : ℕ).
          Indexes samples (fl.ceil_u64 (fl.mul (fl.from_nat n) percentile))
            (at_rank fl sorted rank))
        same
        (elim found [
          | inl (a, e, r) ↦ inl (
            a,
            e,
            (
              omega (arith, r.0, number_of-sort_by (λ y. ltb y a) samples),
              omega (arith, r.1, number_of-sort_by (λ y. leb y a) samples),
            ),
          )
          | inr (inl z, e) ↦ inr (inl z, e)
          | inr (inr l, e) ↦ inr (inr (omega (arith, l, same)), e)
        ])

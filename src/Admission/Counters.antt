-- ===== src/Admission/Counters.antt =====
-- What each operation of the admission controller does to each counter.
use rustygate.Prelude.Dict
use rustygate.Prelude.Dict.{Dict}
use rustygate.Prelude.{
  ℕ, ◌+◌, ◌-◌, ◌<◌, ◌≡◌, ◌≢◌, refl, String, Bool, true, false, some, List, [], ◌∷◌, arith,
  if◌then◌else◌, str_eq, str_eq_iff, u64_max, Bool-cases, Option-cases, inl, inr, wrapping_add_u64,
}
use rustygate.Admission.{
  AdmissionController, AdmissionSlot, global, pool, provider, increment, decrement_or_remove,
  counter_of, release_slot, release,
}

unfoldable pub slot_eq : AdmissionSlot → AdmissionSlot → Bool
slot_eq global global = true
slot_eq (pool p) (pool q) = str_eq p q
slot_eq (provider p) (provider q) = str_eq p q
slot_eq _ _ = false

pub get_or-increment :
    (k j : String) (m : Dict ℕ)
    → Dict.get_or m k 0 < u64_max
    → Dict.get_or (increment k m) j 0
      ≡ (if str_eq k j then Dict.get_or m j 0 + 1 else Dict.get_or m j 0)
unfolding increment
get_or-increment k j m h =
    rw (Dict.get-insert k j (wrapping_add_u64 (Dict.get_or m k 0) 1) m)
      (elim (Bool-cases (str_eq k j)) [
        | inl e ↦ let same = (str_eq_iff k j).0 e in rw (e, ← same) (omega arith)
        | inr e ↦ rw e
      ])

pub get_or-decrement :
    (k j : String) (m : Dict ℕ)
    → Dict.get_or (decrement_or_remove m k) j 0
      ≡ (if str_eq k j then Dict.get_or m j 0 - 1 else Dict.get_or m j 0)
unfolding decrement_or_remove
get_or-decrement k j m = elim (Option-cases (Dict.get m k)) [
  | inl e ↦ ground (arith, str_eq_iff k j)
  | inr (n, e) ↦
      ground (arith, str_eq_iff k j, Dict.get-insert k j (n - 1) m, Dict.get-remove k j m)
]

-- Every key of the map counts at least one.
abbrev pub HasNoZero : Dict ℕ → Type 0
HasNoZero m = (j : String) → Dict.get m j ≢ some 0

pub increment-HasNoZero :
    (k : String) (m : Dict ℕ)
    → Dict.get_or m k 0 < u64_max
    → HasNoZero m
    → HasNoZero (increment k m)
unfolding increment
increment-HasNoZero k m h z j =
    rw (Dict.get-insert k j (wrapping_add_u64 (Dict.get_or m k 0) 1) m) (λ e. ground (arith, z j))

decrement-HasNoZero : (k : String) (m : Dict ℕ) → HasNoZero m → HasNoZero (decrement_or_remove m k)
unfolding decrement_or_remove
decrement-HasNoZero k m z j = elim (Option-cases (Dict.get m k)) [
  | inl e ↦ rw (e, decrement_or_remove) (z j)
  | inr (n, e) ↦ λ bad. ground (arith, z j, Dict.get-insert k j (n - 1) m, Dict.get-remove k j m)
]

counter_of-release_slot :
    (a : AdmissionController) (s t : AdmissionSlot)
    → counter_of (release_slot a s) t ≡ (if slot_eq s t then counter_of a t - 1 else counter_of a t)
unfolding release_slot slot_eq
counter_of-release_slot a global global = refl
counter_of-release_slot a global (pool q) = refl
counter_of-release_slot a global (provider q) = refl
counter_of-release_slot a (pool p) global = refl
counter_of-release_slot a (pool p) (pool q) = get_or-decrement p q a.counters.pool_in_flight
counter_of-release_slot a (pool p) (provider q) = refl
counter_of-release_slot a (provider p) global = refl
counter_of-release_slot a (provider p) (pool q) = refl
counter_of-release_slot a (provider p) (provider q) =
    get_or-decrement p q a.counters.provider_in_flight

-- How often a slot stands in a list.
abbrev pub count_slot : AdmissionSlot → List AdmissionSlot → ℕ
count_slot t [] = 0
count_slot t (s ∷ ss) = (if slot_eq s t then 1 else 0) + count_slot t ss

pub counter_of-release :
    (a : AdmissionController) (ss : List AdmissionSlot) (t : AdmissionSlot)
    → counter_of (release a ss) t ≡ counter_of a t - count_slot t ss
unfolding release
counter_of-release a [] t = omega arith
counter_of-release a (s ∷ ss) t =
    ground (arith, counter_of-release (release_slot a s) ss t, counter_of-release_slot a s t)

pub limits-release :
    (a : AdmissionController) (ss : List AdmissionSlot) → (release a ss).limits ≡ a.limits
unfolding release release_slot
limits-release a [] = refl
limits-release a (global ∷ ss) = limits-release (release_slot a global) ss
limits-release a (pool p ∷ ss) = limits-release (release_slot a (pool p)) ss
limits-release a (provider p ∷ ss) = limits-release (release_slot a (provider p)) ss

-- A counter of a pool or a provider at zero is not in its map.
pub record IsTidy (a : AdmissionController) : Type 0 where
  pub pools : HasNoZero a.counters.pool_in_flight
  pub providers : HasNoZero a.counters.provider_in_flight

release_slot-IsTidy :
    (a : AdmissionController) (s : AdmissionSlot) → IsTidy a → IsTidy (release_slot a s)
unfolding release_slot
release_slot-IsTidy a global v = record { pools = v.pools; providers = v.providers }
release_slot-IsTidy a (pool p) v = record {
  pools = decrement-HasNoZero p a.counters.pool_in_flight v.pools;
  providers = v.providers;
}
release_slot-IsTidy a (provider p) v = record {
  pools = v.pools;
  providers = decrement-HasNoZero p a.counters.provider_in_flight v.providers;
}

pub release-IsTidy :
    (a : AdmissionController) (ss : List AdmissionSlot) → IsTidy a → IsTidy (release a ss)
unfolding release
release-IsTidy a [] v = v
release-IsTidy a (s ∷ ss) v = release-IsTidy (release_slot a s) ss (release_slot-IsTidy a s v)

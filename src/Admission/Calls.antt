-- ===== src/Admission/Calls.antt =====
-- src/routing/admission.rs: when a provider call is admitted, and what it takes.
use rustygate.Prelude.{
  ℕ, ◌≤◌, ◌<◌, ◌≡◌, refl, ◌⊎◌, String, false, some, List, [], ◌∷◌, arith, str_eq_iff, u64_max,
  Bool-cases, Option-cases, inl, inr, ok, err, leb,
}
use rustygate.Admission.{
  AdmissionController, AdmissionSlot, AdmissionRejection, global, pool, provider, increment,
  counter_of, limit_of, is_full, try_acquire_provider, rejection, new_guard,
  provider_in_flight_limit,
}
use rustygate.Admission.Counters.{slot_eq, get_or-increment, increment-HasNoZero}
use rustygate.Admission.Acquire.{HasWords, HasRoom, Takes, Takes-none, is_full-eq-false}

-- What an admitted provider call takes.
pub record AdmitsProvider (a : AdmissionController) (p : String) : Type 0 where
  pub slots : List AdmissionSlot
  pub result : (try_acquire_provider a p).1 ≡ ok (new_guard slots)
  pub takes : Takes a (try_acquire_provider a p).0 slots

provider_slot-Takes :
    (a : AdmissionController) (p : String) (l : ℕ)
    → limit_of a (provider p) ≡ some l
    → counter_of a (provider p) < l
    → l ≤ u64_max
    → Takes a
        (record a {
          counters = record (a.counters) {
            provider_in_flight = increment p a.counters.provider_in_flight;
          };
        })
        (provider p ∷ [])
unfolding slot_eq
provider_slot-Takes a p l e room small = record {
  same_limits = refl;
  counted = elim [
    | global ↦ omega arith
    | pool q ↦ omega arith
    | provider q ↦
        rw (get_or-increment p q a.counters.provider_in_flight (omega arith)) (ground arith)
  ];
  tidy = λ v. record {
    pools = v.pools;
    providers = increment-HasNoZero p a.counters.provider_in_flight (omega arith) v.providers;
  };
  limited = elim [
    | global ↦ λ h. refl
    | pool q ↦ λ h. refl
    | provider q ↦ λ h. ground (arith, str_eq_iff p q)
  ];
  within = elim [
    | global ↦ λ m e' h. omega arith
    | pool q ↦ λ m e' h. omega arith
    | provider q ↦ λ m e' h. ground (arith, str_eq_iff p q)
  ];
}

pub try_acquire_provider_lem :
    (a : AdmissionController) (p : String)
    → HasWords a
    → (HasRoom a (provider p) → AdmitsProvider a p)
      × (¬ HasRoom a (provider p)
          → try_acquire_provider a p ≡ (a, err (rejection a provider_in_flight_limit)))
unfolding try_acquire_provider
try_acquire_provider_lem a p w = elim (Option-cases (limit_of a (provider p))) [
  | inl e ↦ (
    (λ r. record {
      slots = [];
      result = rw (e, try_acquire_provider);
      takes = rw (e, try_acquire_provider) (Takes-none a);
    }),
    (λ n. absurd (n (λ l e'. cc))),
  )
  | inr (l, e) ↦ (
    (λ r.
        let room = r l e in
        let free : leb l (counter_of a (provider p)) ≡ false = ground arith in
        record {
          slots = provider p ∷ [];
          result = rw (e, try_acquire_provider) (rw free);
          takes =
              rw (e, try_acquire_provider)
                (rw free (provider_slot-Takes a p l e room (w (provider p) l e)));
        }),
    (λ n. elim (Bool-cases (leb l (counter_of a (provider p)))) [
      | inl full ↦ rw (e, try_acquire_provider) (rw full)
      | inr free ↦ absurd (n (λ m e'. ground arith))
    ]),
  )
]

pub provider_cases :
    (a : AdmissionController) (p : String)
    → HasWords a
    → AdmitsProvider a p ⊎ ((r : AdmissionRejection) × (try_acquire_provider a p ≡ (a, err r)))
provider_cases a p w = elim (Bool-cases (is_full a (provider p))) [
  | inl e ↦ inr (
    rejection a provider_in_flight_limit,
    (try_acquire_provider_lem a p w).1
        (λ r. let free = (is_full-eq-false a (provider p)).1 r in cc),
  )
  | inr e ↦ inl ((try_acquire_provider_lem a p w).0 ((is_full-eq-false a (provider p)).0 e))
]

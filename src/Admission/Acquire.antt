-- ===== src/Admission/Acquire.antt =====
-- When the admission controller lets a request through, and what it then counts.
use rustygate.Prelude.Dict
use rustygate.Prelude.{
  ℕ, ◌+◌, ◌≤◌, ◌<◌, ◌≡◌, refl, sym, ap, ◌∙◌, All, ◌↔◌, ◌⊎◌, String, false, Option, none, some, List,
  [], ◌∷◌, ◌++◌, arith, str_eq_iff, u64_max, Bool-cases, Option-cases, inl, inr, ok, err,
  is_some_and, is_some, if◌then◌else◌,
}
use rustygate.Admission.{
  AdmissionController, AdmissionSlot, AdmissionRejectionReason, AdmissionRejection, global, pool,
  provider, counter_of, limit_of, is_full, full_limit, take_global, take_pool, try_acquire_request,
  rejection, new_guard,
}
use rustygate.Admission.Counters.{
  slot_eq, count_slot, get_or-increment, IsTidy, increment-HasNoZero,
}

-- The limits are `u64` values.
abbrev pub HasWords : AdmissionController → Type 0
HasWords a = (s : AdmissionSlot) (l : ℕ) → limit_of a s ≡ some l → l ≤ u64_max

abbrev pub HasRoom : AdmissionController → AdmissionSlot → Type 0
HasRoom a s = (l : ℕ) → limit_of a s ≡ some l → counter_of a s < l

pub is_full-eq-false :
    (a : AdmissionController) (s : AdmissionSlot) → (is_full a s ≡ false) ↔ HasRoom a s
is_full-eq-false a s = elim (Option-cases (limit_of a s)) [
  | inl e ↦ ((λ h l e'. cc), (λ h. rw (e, is_some_and)))
  | inr (n, e) ↦
      ((λ h l e'. ground arith), (λ h. let room = h n e in rw (e, is_some_and) (ground arith)))
]

-- The slots that a request for a pool asks for.
abbrev pub asked : Option String → List AdmissionSlot
asked none = global ∷ []
asked (some p) = global ∷ pool p ∷ []

-- What an admitted request adds to the state: the slots of its guard, and no more.
pub record Takes (a a' : AdmissionController) (slots : List AdmissionSlot) : Type 0 where
  pub same_limits : a'.limits ≡ a.limits
  pub counted : (t : AdmissionSlot) → counter_of a' t ≡ counter_of a t + count_slot t slots
  pub tidy : IsTidy a → IsTidy a'
  pub limited : (t : AdmissionSlot) → limit_of a t ≡ none → count_slot t slots ≡ 0
  pub within :
      (t : AdmissionSlot) (l : ℕ)
      → limit_of a t ≡ some l
      → counter_of a t ≤ l
      → counter_of a t + count_slot t slots ≤ l

pub Takes-none : (a : AdmissionController) → Takes a a []
Takes-none a = record {
  same_limits = refl;
  counted = λ t. omega arith;
  tidy = λ v. v;
  limited = λ t h. refl;
  within = λ t l e h. omega arith;
}

take_global-Takes :
    (a : AdmissionController)
    → HasWords a
    → HasRoom a global
    → Takes a (take_global a).0 (take_global a).1
unfolding take_global slot_eq
take_global-Takes a w r = elim (Option-cases (limit_of a global)) [
  | inl e ↦ elim (Bool-cases (is_some a.limits.max_global)) [
    | inl b ↦ cc
    | inr b ↦ rw b (Takes-none a)
  ]
  | inr (l, e) ↦ elim (Bool-cases (is_some a.limits.max_global)) [
    | inl b ↦
        let small = w global l e in
        let room = r l e in
        rw b (record {
          same_limits = refl;
          counted = elim [ global ↦ omega arith | pool p ↦ omega arith | provider p ↦ omega arith ];
          tidy = λ v. record { pools = v.pools; providers = v.providers };
          limited = elim [ global ↦ λ h. cc | pool p ↦ λ h. refl | provider p ↦ λ h. refl ];
          within = elim [
            | global ↦ λ m e' h. ground arith
            | pool p ↦ λ m e' h. omega arith
            | provider p ↦ λ m e' h. omega arith
          ];
        })
    | inr b ↦ ground arith
  ]
]

take_pool-Takes :
    (a : AdmissionController) (p : String)
    → HasWords a
    → HasRoom a (pool p)
    → Takes a (take_pool (some p) a).0 (take_pool (some p) a).1
unfolding take_pool slot_eq
take_pool-Takes a p w r = elim (Option-cases (limit_of a (pool p))) [
  | inl e ↦ rw (e, is_some) (Takes-none a)
  | inr (l, e) ↦
      let small = w (pool p) l e in
      let room = r l e in
      rw (e, is_some)
        (record {
          same_limits = refl;
          counted = elim [
            | global ↦ omega arith
            | pool q ↦
                rw (get_or-increment p q a.counters.pool_in_flight (omega arith)) (ground arith)
            | provider q ↦ omega arith
          ];
          tidy = λ v. record {
            pools = increment-HasNoZero p a.counters.pool_in_flight (omega arith) v.pools;
            providers = v.providers;
          };
          limited = elim [
            | global ↦ λ h. refl
            | pool q ↦ λ h. ground (arith, str_eq_iff p q)
            | provider q ↦ λ h. refl
          ];
          within = elim [
            | global ↦ λ m e' h. omega arith
            | pool q ↦ λ m e' h. ground (arith, str_eq_iff p q)
            | provider q ↦ λ m e' h. omega arith
          ];
        })
]

count_slot-append :
    (t : AdmissionSlot) (xs ys : List AdmissionSlot)
    → count_slot t (xs ++ ys) ≡ count_slot t xs + count_slot t ys
count_slot-append t [] ys = omega arith
count_slot-append t (x ∷ xs) ys = omega (arith, count_slot-append t xs ys)

pub limit_of_same :
    (a a' : AdmissionController)
    → a'.limits ≡ a.limits
    → (t : AdmissionSlot) → limit_of a' t ≡ limit_of a t
limit_of_same a a' e global = ap (λ l. l.max_global) e
limit_of_same a a' e (pool p) = ap (λ l. Dict.get l.pool_max_in_flight p) e
limit_of_same a a' e (provider p) = ap (λ l. Dict.get l.provider_max_in_flight p) e

Takes-append :
    {a b c : AdmissionController} {xs ys : List AdmissionSlot}
    → Takes a b xs
    → Takes b c ys
    → Takes a c (xs ++ ys)
Takes-append {a} {b} {c} {xs} {ys} h k = record {
  same_limits = k.same_limits ∙ h.same_limits;
  counted = λ t. omega (arith, count_slot-append t xs ys, h.counted t, k.counted t);
  tidy = λ v. k.tidy (h.tidy v);
  limited = λ t e. omega (
    arith,
    count_slot-append t xs ys,
    h.limited t e,
    k.limited t (limit_of_same a b h.same_limits t ∙ e),
  );
  within = λ t l e m.
      let first = h.within t l e m in
      let both =
        k.within t l (limit_of_same a b h.same_limits t ∙ e) (omega (arith, h.counted t)) in
      omega (arith, count_slot-append t xs ys, h.counted t);
}

take_global-HasRoom :
    (a : AdmissionController) (p : String) → HasRoom a (pool p) → HasRoom (take_global a).0 (pool p)
unfolding take_global
take_global-HasRoom a p r l e = ground (arith, r l)

full_limit-eq-none :
    (a : AdmissionController) (p : Option String)
    → (full_limit a p ≡ none) ↔ All (HasRoom a) (asked p)
unfolding full_limit
full_limit-eq-none a none = (
  (λ h. ((is_full-eq-false a global).0 (ground arith), tt)),
  (λ h. rw ((is_full-eq-false a global).1 h.0)),
)
full_limit-eq-none a (some p) = (
  (λ h. (
    (is_full-eq-false a global).0 (ground arith),
    ((is_full-eq-false a (pool p)).0 (ground arith), tt),
  )),
  (λ h. rw ((is_full-eq-false a global).1 h.0, (is_full-eq-false a (pool p)).1 h.1.0)),
)

take_both-Takes :
    (a : AdmissionController) (p : Option String)
    → HasWords a
    → All (HasRoom a) (asked p)
    → Takes a
        (take_pool p (take_global a).0).0
        ((take_global a).1 ++ (take_pool p (take_global a).0).1)
take_both-Takes a none w r =
    Takes-append (take_global-Takes a w r.0) (unfold take_pool in Takes-none (take_global a).0)
take_both-Takes a (some p) w r =
    let first = take_global-Takes a w r.0 in
    Takes-append first (
      take_pool-Takes (take_global a).0 p
        (λ s l e. w s l (sym (limit_of_same a (take_global a).0 first.same_limits s) ∙ e))
        (take_global-HasRoom a p r.1.0))

-- Those of some slots that the configuration limits.
abbrev pub limited : AdmissionController → List AdmissionSlot → List AdmissionSlot
limited a [] = []
limited a (s ∷ ss) = if is_some (limit_of a s) then s ∷ limited a ss else limited a ss

taken-limited :
    (a : AdmissionController) (p : Option String)
    → (take_global a).1 ++ (take_pool p (take_global a).0).1 ≡ limited a (asked p)
unfolding take_global take_pool
taken-limited a none = ground arith
taken-limited a (some p) = ground arith

-- The verdict on a request, and what is counted for it.
pub record Admits (a : AdmissionController) (p : Option String) : Type 0 where
  pub slots : List AdmissionSlot
  pub held : slots ≡ limited a (asked p)
  pub result : (try_acquire_request a p).1 ≡ ok (new_guard slots)
  pub takes : Takes a (try_acquire_request a p).0 slots

admits :
    (a : AdmissionController) (p : Option String)
    → HasWords a
    → All (HasRoom a) (asked p)
    → Admits a p
unfolding try_acquire_request
admits a p w r =
    let free = (full_limit-eq-none a p).1 r in
    record {
      slots = (take_global a).1 ++ (take_pool p (take_global a).0).1;
      held = taken-limited a p;
      result = rw (free, try_acquire_request);
      takes = rw (free, try_acquire_request) (take_both-Takes a p w r);
    }

refuses :
    (a : AdmissionController) (p : Option String) (reason : AdmissionRejectionReason)
    → full_limit a p ≡ some reason
    → try_acquire_request a p ≡ (a, err (rejection a reason))
unfolding try_acquire_request
refuses a p reason e = rw (e, try_acquire_request)

-- A request is admitted exactly when the gateway and, if the request names a pool, that pool are
-- below their limits. Then its guard holds one slot for each of the two that has a limit and no other,
-- and every counter goes up by the number of its slots among these. Otherwise the counters stay as they were, and the answer tells the
-- client to come back after at least one second. The limits are taken to be 64-bit values.
pub try_acquire_request_lem :
    (a : AdmissionController) (p : Option String)
    → HasWords a
    → (All (HasRoom a) (asked p) → Admits a p)
      × (¬ All (HasRoom a) (asked p)
          → (r : AdmissionRejection) × (try_acquire_request a p ≡ (a, err r))
            × (1 ≤ r.retry_after_seconds))
try_acquire_request_lem a p w = (
  admits a p w,
  λ crowded. elim (Option-cases (full_limit a p)) [
    | inl e ↦ absurd (crowded ((full_limit-eq-none a p).0 e))
    | inr (reason, e) ↦ (rejection a reason, refuses a p reason e, omega arith)
  ],
)

pub request_cases :
    (a : AdmissionController) (p : Option String)
    → HasWords a
    → Admits a p ⊎ ((r : AdmissionRejection) × (try_acquire_request a p ≡ (a, err r)))
request_cases a p w = elim (Option-cases (full_limit a p)) [
  | inl e ↦ inl (admits a p w ((full_limit-eq-none a p).0 e))
  | inr (reason, e) ↦ inr (rejection a reason, refuses a p reason e)
]

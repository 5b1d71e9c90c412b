-- ===== src/Admission/Traffic.antt =====
-- The controller with all the guards that it has handed out, over every interleaving of requests,
-- provider calls and guards that finish.
use rustygate.Prelude.Dict
use rustygate.Prelude.{
  ℕ, zero, suc, ◌+◌, ◌≤◌, ◌≡◌, refl, sym, ◌∙◌, String, false, Option, none, some, List, [], ◌∷◌,
  arith, if◌then◌else◌, Bool-cases, inl, inr, ok, err, All,
}
use rustygate.Admission.{
  AdmissionController, AdmissionLimits, AdmissionSlot, AdmissionGuard, Acquired, global, pool,
  provider, counter_of, limit_of, finish, new, new_guard, try_acquire_request, try_acquire_provider,
}
use rustygate.Admission.Counters.{
  count_slot, counter_of-release, limits-release, IsTidy, release-IsTidy,
}
use rustygate.Admission.Acquire.{HasWords, Takes, limit_of_same, request_cases}
use rustygate.Admission.Calls.{provider_cases}

pub record Traffic : Type 0 where
  pub controller : AdmissionController
  pub guards : List AdmissionGuard

pub data Event : Type 0 where
  requests : Option String → Event
  calls : String → Event
  finishes : ℕ → Event

abbrev pub finish_at :
    AdmissionController → ℕ → List AdmissionGuard → AdmissionController × List AdmissionGuard
finish_at a n [] = (a, [])
finish_at a zero (g ∷ gs) = ((finish a g).0, (finish a g).1 ∷ gs)
finish_at a (suc n) (g ∷ gs) = ((finish_at a n gs).0, g ∷ (finish_at a n gs).1)

-- An admitted request's guard joins the others; a rejected one leaves none.
abbrev pub with_guard : List AdmissionGuard → AdmissionController × Acquired → Traffic
with_guard gs (a, ok g) = record { controller = a; guards = g ∷ gs }
with_guard gs (a, err r) = record { controller = a; guards = gs }

abbrev pub step : Traffic → Event → Traffic
step s (requests p) = with_guard s.guards (try_acquire_request s.controller p)
step s (calls p) = with_guard s.guards (try_acquire_provider s.controller p)
step s (finishes n) = record {
  controller = (finish_at s.controller n s.guards).0;
  guards = (finish_at s.controller n s.guards).1;
}

abbrev pub run : Traffic → List Event → Traffic
run s [] = s
run s (e ∷ es) = run (step s e) es

abbrev pub start : AdmissionLimits → Traffic
start limits = record { controller = new limits; guards = [] }

-- How many of a slot the unfinished guards hold.
abbrev pub held : AdmissionSlot → List AdmissionGuard → ℕ
held t [] = 0
held t (g ∷ gs) = (if g.active then count_slot t g.slots else 0) + held t gs

pub record IsSound (s : Traffic) : Type 0 where
  pub counted : (t : AdmissionSlot) → counter_of s.controller t ≡ held t s.guards
  pub bounded :
      (t : AdmissionSlot) (l : ℕ) → limit_of s.controller t ≡ some l → counter_of s.controller t ≤ l
  pub tidy : IsTidy s.controller
  pub words : HasWords s.controller

start-IsSound : (limits : AdmissionLimits) → HasWords (new limits) → IsSound (start limits)
unfolding new Dict.get
start-IsSound limits w = record {
  counted = elim [ global ↦ refl | pool p ↦ refl | provider p ↦ refl ];
  bounded = elim [
    | global ↦ λ l e. omega arith
    | pool p ↦ λ l e. omega arith
    | provider p ↦ λ l e. omega arith
  ];
  tidy = record { pools = λ j e. cc; providers = λ j e. cc };
  words = w;
}

taken-IsSound :
    (s : Traffic) (a : AdmissionController) (slots : List AdmissionSlot)
    → IsSound s
    → Takes s.controller a slots
    → IsSound (record { controller = a; guards = new_guard slots ∷ s.guards })
taken-IsSound s a slots v k = record {
  counted = λ t. omega (arith, k.counted t, v.counted t);
  bounded = λ t l e.
      let e' = sym (limit_of_same s.controller a k.same_limits t) ∙ e in
      let old = v.bounded t l e' in let new = k.within t l e' old in omega (arith, k.counted t);
  tidy = k.tidy v.tidy;
  words = λ t l e. v.words t l (sym (limit_of_same s.controller a k.same_limits t) ∙ e);
}

finish-counter :
    (a : AdmissionController) (g : AdmissionGuard) (t : AdmissionSlot) (k : ℕ)
    → counter_of a t ≡ held t (g ∷ []) + k
    → counter_of (finish a g).0 t ≡ held t ((finish a g).1 ∷ []) + k
unfolding finish
finish-counter a g t k h = ground (arith, counter_of-release a g.slots t)

finish_at-counter :
    (a : AdmissionController) (n : ℕ) (gs : List AdmissionGuard) (t : AdmissionSlot) (k : ℕ)
    → counter_of a t ≡ held t gs + k
    → counter_of (finish_at a n gs).0 t ≡ held t (finish_at a n gs).1 + k
finish_at-counter a n [] t k h = h
finish_at-counter a zero (g ∷ gs) t k h =
    omega (arith, finish-counter a g t (held t gs + k) (omega arith))
finish_at-counter a (suc n) (g ∷ gs) t k h =
    omega (arith, finish_at-counter a n gs t (held t (g ∷ []) + k) (omega arith))

record Shrinks (a a' : AdmissionController) : Type 0 where
  same_limits : a'.limits ≡ a.limits
  less : (t : AdmissionSlot) → counter_of a' t ≤ counter_of a t
  keeps_tidy : IsTidy a → IsTidy a'

finish-Shrinks : (a : AdmissionController) (g : AdmissionGuard) → Shrinks a (finish a g).0
unfolding finish
finish-Shrinks a g = elim (Bool-cases g.active) [
  | inl e ↦
      rw (e, if◌then◌else◌)
        (record {
          same_limits = limits-release a g.slots;
          less = λ t. omega (arith, counter_of-release a g.slots t);
          keeps_tidy = release-IsTidy a g.slots;
        })
  | inr e ↦ rw e (record { same_limits = refl; less = λ t. omega arith; keeps_tidy = λ v. v })
]

finish_at-Shrinks :
    (a : AdmissionController) (n : ℕ) (gs : List AdmissionGuard) → Shrinks a (finish_at a n gs).0
finish_at-Shrinks a n [] = record {
  same_limits = refl;
  less = λ t. omega arith;
  keeps_tidy = λ v. v;
}
finish_at-Shrinks a zero (g ∷ gs) = finish-Shrinks a g
finish_at-Shrinks a (suc n) (g ∷ gs) = finish_at-Shrinks a n gs

step-IsSound : (s : Traffic) (e : Event) → IsSound s → IsSound (step s e)
step-IsSound s (requests p) v = elim (request_cases s.controller p v.words) [
  | inl k ↦
      rw (k.result, with_guard)
        (taken-IsSound s (try_acquire_request s.controller p).0 k.slots v k.takes)
  | inr (r, e) ↦ rw e v
]
step-IsSound s (calls p) v = elim (provider_cases s.controller p v.words) [
  | inl k ↦
      rw (k.result, with_guard)
        (taken-IsSound s (try_acquire_provider s.controller p).0 k.slots v k.takes)
  | inr (r, e) ↦ rw e v
]
step-IsSound s (finishes n) v =
    let a' = (finish_at s.controller n s.guards).0 in
    let h = finish_at-Shrinks s.controller n s.guards in
    record {
      counted = λ t.
          omega (arith, finish_at-counter s.controller n s.guards t 0 (omega (arith, v.counted t)));
      bounded = λ t l e. omega (
        arith,
        h.less t,
        v.bounded t l (sym (limit_of_same s.controller a' h.same_limits t) ∙ e),
      );
      tidy = h.keeps_tidy v.tidy;
      words = λ t l e. v.words t l (sym (limit_of_same s.controller a' h.same_limits t) ∙ e);
    }

run-IsSound : (s : Traffic) (es : List Event) → IsSound s → IsSound (run s es)
run-IsSound s [] v = v
run-IsSound s (e ∷ es) v = run-IsSound (step s e) es (step-IsSound s e v)

-- After any interleaving of requests, provider calls and finishing guards, each counter is the number
-- of its slots that unfinished guards hold, and no counter is above its limit. The limits are taken to
-- be 64-bit values.
pub run_counts :
    (limits : AdmissionLimits) (es : List Event)
    → HasWords (new limits)
    → (t : AdmissionSlot)
    → (counter_of (run (start limits) es).controller t ≡ held t (run (start limits) es).guards)
      × ((l : ℕ)
          → limit_of (run (start limits) es).controller t ≡ some l
          → held t (run (start limits) es).guards ≤ l)
run_counts limits es w t =
    let v = run-IsSound (start limits) es (start-IsSound limits w) in
    (v.counted t, λ l e. omega (arith, v.counted t, v.bounded t l e))

held_finished :
    (t : AdmissionSlot) (gs : List AdmissionGuard) → All (λ g. g.active ≡ false) gs → held t gs ≡ 0
held_finished t [] h = refl
held_finished t (g ∷ gs) h = ground (arith, held_finished t gs h.1)

-- Nothing leaks: once every guard has finished, whatever happened before, the global counter is zero
-- and the maps of the pools and of the providers hold no entry, so that every limit has all its room
-- again. The limits are taken to be 64-bit values.
pub run_drains :
    (limits : AdmissionLimits) (es : List Event)
    → HasWords (new limits)
    → All (λ g. g.active ≡ false) (run (start limits) es).guards
    → let c = (run (start limits) es).controller.counters in
      (c.global_in_flight ≡ 0)
      × ((p : String) → Dict.get c.pool_in_flight p ≡ none)
      × ((p : String) → Dict.get c.provider_in_flight p ≡ none)
run_drains limits es w idle =
    let s = run (start limits) es in
    let v = run-IsSound (start limits) es (start-IsSound limits w) in
    (
      omega (arith, v.counted global, held_finished global s.guards idle),
      λ p. ground (arith, v.counted (pool p), held_finished (pool p) s.guards idle, v.tidy.pools p),
      λ p. ground (
        arith,
        v.counted (provider p),
        held_finished (provider p) s.guards idle,
        v.tidy.providers p,
      ),
    )

-- ===== src/Admission/Tests.antt =====
-- Runs of the admission controller, and its theorems at concrete inputs.
use rustygate.Prelude.Dict
use rustygate.Prelude.{ℕ, ◌≤◌, ◌≡◌, refl, String, none, some, List, [], ◌∷◌, arith, str_eq}
use rustygate.Admission.{
  AdmissionLimits, global, pool, provider, new, limit_of, counter_of, try_acquire_request,
  try_acquire_provider, finish, full_limit, take_global, take_pool, release, release_slot,
  decrement_or_remove,
}
use rustygate.Admission.Counters.{slot_eq}
use rustygate.Admission.Acquire.{HasWords, Admits, try_acquire_request_lem}
use rustygate.Admission.Traffic.{
  Event, requests, calls, finishes, run, start, held, run_counts, run_drains,
}

abbrev limits : AdmissionLimits
limits = record {
  max_global = some 2;
  max_prompt_tokens = none;
  max_total_tokens = none;
  retry_after = 0;
  pool_max_in_flight = ("chat", 1) ∷ [];
  provider_max_in_flight = ("replica-a", 1) ∷ [];
}

limits-HasWords : HasWords (new limits)
unfolding new Dict.get
limits-HasWords global l e = ground arith
limits-HasWords (pool p) l e = ground arith
limits-HasWords (provider p) l e = ground arith

abbrev busy : List Event
busy = requests (some "chat") ∷ calls "replica-a" ∷ requests (some "chat") ∷ []

-- The second request for the pool is rejected.
busy_runs :
    (held global (run (start limits) busy).guards ≡ 1)
    × (held (pool "chat") (run (start limits) busy).guards ≡ 1)
    × (held (provider "replica-a") (run (start limits) busy).guards ≡ 1)
unfolding new try_acquire_request try_acquire_provider full_limit take_global take_pool slot_eq
    Dict.get Dict.insert str_eq
busy_runs = (refl, refl, refl)

run_counts_example :
    (counter_of (run (start limits) busy).controller (pool "chat")
      ≡ held (pool "chat") (run (start limits) busy).guards)
    × ((l : ℕ)
        → limit_of (run (start limits) busy).controller (pool "chat") ≡ some l
        → held (pool "chat") (run (start limits) busy).guards ≤ l)
run_counts_example = run_counts limits busy limits-HasWords (pool "chat")

-- The guards of the busy run finish, the first of them twice.
abbrev drained : List Event
drained =
    requests (some "chat")
    ∷ calls "replica-a"
    ∷ requests (some "chat")
    ∷ finishes 0
    ∷ finishes 1
    ∷ finishes 0
    ∷ []

run_drains_example :
    let c = (run (start limits) drained).controller.counters in
    (c.global_in_flight ≡ 0)
    × ((p : String) → Dict.get c.pool_in_flight p ≡ none)
    × ((p : String) → Dict.get c.provider_in_flight p ≡ none)
unfolding new try_acquire_request try_acquire_provider full_limit take_global take_pool finish
    release release_slot decrement_or_remove Dict.get Dict.insert Dict.remove str_eq
run_drains_example = run_drains limits drained limits-HasWords (refl, (refl, tt))

try_acquire_request_lem_example : Admits (new limits) (some "chat")
unfolding new Dict.get str_eq
try_acquire_request_lem_example =
    (try_acquire_request_lem (new limits) (some "chat") limits-HasWords).0
      ((λ l e. ground arith), ((λ l e. ground arith), tt))

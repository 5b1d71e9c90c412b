-- ===== src/Health/Ready.antt =====
-- src/routing/health.rs: what a round of checks leaves in the registry.
use rustygate.Prelude.Dict
use rustygate.Prelude.Dict.{Dict}
use rustygate.Prelude.{
  ℕ, ◌+◌, String, ◌≡◌, refl, ap, ◌∙◌, inl, inr, true, Option, none, some, List, [], ◌∷◌, any,
  is_empty, arith, str_eq, str_eq_iff, Bool-cases, if◌then◌else◌, Result, ok, err,
}
use rustygate.Float.{Float}
use rustygate.Errors.{ProviderError}
use rustygate.Provider.{ProviderEntry}
use rustygate.Fallback.Attempt.{provider_error_category}
use rustygate.Health.{
  ProviderHealthRegistry, ProviderHealthSnapshot, healthy, unhealthy, record_health, record_healthy,
  record_unhealthy, record_result, may_serve, any_provider_ready, probe_from, probe_once,
}

-- The snapshot that a check's result stands for.
unfoldable pub checked : ℕ → Result (Unit {0}) ProviderError → ProviderHealthSnapshot
checked now (ok _) = record {
  status = healthy;
  checked_at_unix_seconds = some now;
  error_category = none;
}
checked now (err error) = record {
  status = unhealthy;
  checked_at_unix_seconds = some now;
  error_category = some (provider_error_category error);
}

record_result-insert :
    (r : ProviderHealthRegistry) (now : ℕ) (name : String)
    (result : Result (Unit {0}) ProviderError)
    → record_result r now name result ≡ Dict.insert name (checked now result) r
unfolding record_result record_healthy record_unhealthy record_health checked
record_result-insert r now name (ok _) = refl
record_result-insert r now name (err error) = refl

any-get :
    (r : ProviderHealthRegistry) (k : String) (v : ProviderHealthSnapshot)
    → Dict.get r k ≡ some v
    → may_serve v ≡ true
    → any may_serve (Dict.values r) ≡ true
unfolding any Dict.get
any-get [] k v e h = cc
any-get ((j, w) ∷ r) k v e h = elim (Bool-cases (str_eq j k)) [
  | inl b ↦ let same : w ≡ v = ground arith in rw (ap may_serve same ∙ h) refl
  | inr b ↦ ground (arith, any-get r k v (ground arith) h)
]

ready_of_any :
    (r : ProviderHealthRegistry)
    → any may_serve (Dict.values r) ≡ true
    → any_provider_ready r ≡ true
unfolding any_provider_ready is_empty any
ready_of_any [] h = h
ready_of_any (e ∷ r) h = h

module _ (fl : Float) (health_check : ℕ → String → Result (Unit {0}) ProviderError)
    (unix_seconds : ℕ → ℕ) where
  -- The snapshot of the last check of a name in the turns from one on, or what there was before.
  abbrev pub last_checked :
      ℕ
      → List (ProviderEntry fl)
      → String
      → Option ProviderHealthSnapshot
      → Option ProviderHealthSnapshot
  last_checked turn [] name before = before
  last_checked turn (e ∷ es) name before = last_checked (turn + 1) es name (
      if str_eq e.provider.name name
      then some (checked (unix_seconds turn) (health_check turn name))
      else before)

  get-probe_from :
      (turn : ℕ) (r : ProviderHealthRegistry) (entries : List (ProviderEntry fl)) (name : String)
      → Dict.get (probe_from fl health_check unix_seconds turn r entries) name
        ≡ last_checked turn entries name (Dict.get r name)
  unfolding probe_from
  get-probe_from turn r [] name = refl
  get-probe_from turn r (e ∷ es) name =
      let first = e.provider.name in
      let result = health_check turn first in
      let now = unix_seconds turn in
      let at =
        ap (λ (x : ProviderHealthRegistry). Dict.get x name)
          (record_result-insert r now first result)
        ∙ Dict.get-insert first name (checked now result) r
        ∙ same_name turn first name (Dict.get r name) in
      get-probe_from (turn + 1) (record_result r now first result) es name
      ∙ ap (λ (held : Option ProviderHealthSnapshot). last_checked (turn + 1) es name held) at
    where
      same_name :
          (turn : ℕ) (first name : String) (before : Option ProviderHealthSnapshot)
          → (if str_eq first name
              then some (checked (unix_seconds turn) (health_check turn first))
              else before)
            ≡ (if str_eq first name
                then some (checked (unix_seconds turn) (health_check turn name))
                else before)
      same_name turn first name before = elim (Bool-cases (str_eq first name)) [
        | inl b ↦ rw b (
            ap (λ (x : String). some (checked (unix_seconds turn) (health_check turn x)))
              ((str_eq_iff first name).0 b))
        | inr b ↦ rw b refl
      ]

  -- After a round of checks a provider of the round has the snapshot of its last check, with the time
  -- and the answer of that check, and any other one the snapshot that it had.
  pub get-probe_once :
      (r : ProviderHealthRegistry) (entries : List (ProviderEntry fl)) (name : String)
      → Dict.get (probe_once fl health_check unix_seconds r entries) name
        ≡ last_checked 0 entries name (Dict.get r name)
  unfolding probe_once
  get-probe_once r entries name = get-probe_from 0 r entries name

  -- A snapshot that lets the provider serve.
  abbrev ServesStill : Option ProviderHealthSnapshot → Type 0
  ServesStill held = (v : ProviderHealthSnapshot) × (held ≡ some v) × (may_serve v ≡ true)

  last_checked-kept :
      (turn : ℕ) (entries : List (ProviderEntry fl)) (name : String)
      (before : Option ProviderHealthSnapshot)
      → ((i : ℕ) → health_check i name ≡ ok tt)
      → ServesStill before
      → ServesStill (last_checked turn entries name before)
  unfolding checked
  last_checked-kept turn [] name before passes h = h
  last_checked-kept turn (e ∷ es) name before passes h =
      last_checked-kept (turn + 1) es name _ passes
        (elim (Bool-cases (str_eq e.provider.name name)) [
          | inl b ↦ rw (b, passes turn) (checked (unix_seconds turn) (ok tt), refl, refl)
          | inr b ↦ rw b h
        ])

  last_checked-serves :
      (turn : ℕ) (entries : List (ProviderEntry fl)) (name : String)
      (before : Option ProviderHealthSnapshot)
      → ((i : ℕ) → health_check i name ≡ ok tt)
      → any (λ e. str_eq e.provider.name name) entries ≡ true
      → ServesStill (last_checked turn entries name before)
  unfolding any checked
  last_checked-serves turn [] name before passes known = cc
  last_checked-serves turn (e ∷ es) name before passes known =
      elim (Bool-cases (str_eq e.provider.name name)) [
        | inl b ↦
            last_checked-kept (turn + 1) es name _ passes
              (rw (b, passes turn) (checked (unix_seconds turn) (ok tt), refl, refl))
        | inr b ↦ last_checked-serves (turn + 1) es name _ passes (ground (arith, b, known))
      ]

  -- Where each check of a provider of the round passes, the gateway counts as ready after it.
  pub probe_once-any_provider_ready :
      (r : ProviderHealthRegistry) (entries : List (ProviderEntry fl)) (name : String)
      → any (λ e. str_eq e.provider.name name) entries ≡ true
      → ((turn : ℕ) → health_check turn name ≡ ok tt)
      → any_provider_ready (probe_once fl health_check unix_seconds r entries) ≡ true
  probe_once-any_provider_ready r entries name known passes =
      let after = probe_once fl health_check unix_seconds r entries in
      let (v, found, serves) = last_checked-serves 0 entries name (Dict.get r name) passes known in
      ready_of_any after (any-get after name v (get-probe_once r entries name ∙ found) serves)

-- ===== src/Affinity/Laws.antt =====
-- What a lookup finds after any history of lookups and records.
use rustygate.Prelude.{
  ℕ, ◌*◌, ◌-◌, ◌≤◌, String, ◌≡◌, refl, ◌∙◌, ◌⊎◌, inl, inr, Option, none, some, List, [], ◌∷◌, arith,
  ltb, leb, if◌then◌else◌, Bool-cases, String-cases, str_eq, str_eq_refl, str_eq_ne,
}
use mathlib.Core.Path.{subst}
use rustygate.Config.{PrefixAffinityConfig}
use rustygate.Lru.{LruCache}
use rustygate.Affinity.{PrefixAffinityEntry, PrefixAffinityIndex, new, lookup, remember}

module _ (lru : LruCache PrefixAffinityEntry) where
  open lru use {peek, touch, put, pop}

  pub data Call : Type 0 where
    looks : String → ℕ → Call
    remembers : String → String → ℕ → Call

  abbrev pub step : PrefixAffinityIndex lru → Call → PrefixAffinityIndex lru
  step i (looks f now) = (lookup lru i f now).0
  step i (remembers f p now) = remember lru i f p now

  abbrev pub run : PrefixAffinityIndex lru → List Call → PrefixAffinityIndex lru
  run i [] = i
  run i (c ∷ cs) = run (step i c) cs

  -- What the history says of a fingerprint: the newest record of it.
  abbrev pub latest : String → Option PrefixAffinityEntry → List Call → Option PrefixAffinityEntry
  latest f acc [] = acc
  latest f acc (looks g now ∷ cs) = latest f acc cs
  latest f acc (remembers g p now ∷ cs) =
      latest f (if str_eq g f then some (record { provider_name = p; updated_at = now }) else acc)
        cs

  -- The index holds the newest record of the fingerprint, or has dropped it.
  abbrev Knows : PrefixAffinityIndex lru → String → Option PrefixAffinityEntry → Type 0
  Knows i f e = (peek i.entries f ≡ none) ⊎ (peek i.entries f ≡ e)

  peek-lookup :
      (i : PrefixAffinityIndex lru) (g f : String) (now : ℕ)
      → (peek (lookup lru i g now).0.entries f ≡ none)
        ⊎ (peek (lookup lru i g now).0.entries f ≡ peek i.entries f)
  unfolding lookup
  peek-lookup i g f now = elim (String-cases g f) [
    | inl e ↦ rw (← e) (
        ground (
          arith,
          lru.peek_pop (touch i.entries g) g,
          lru.peek_touch i.entries g g,
          lru.peek_touch (touch i.entries g) g g,
        ))
    | inr n ↦ ground (
      arith,
      lru.peek_pop_ne (touch i.entries g) g f n,
      lru.peek_touch i.entries g f,
      lru.peek_touch (touch i.entries g) g f,
    )
  ]

  remember-Knows :
      (i : PrefixAffinityIndex lru) (g f p : String) (now : ℕ) (acc : Option PrefixAffinityEntry)
      → Knows i f acc
      → Knows
          (remember lru i g p now)
          f
          (if str_eq g f then some (record { provider_name = p; updated_at = now }) else acc)
  unfolding remember
  remember-Knows i g f p now acc k = elim (String-cases g f) [
    | inl e ↦ inr (
        rw (← e) (
          rw (str_eq_refl g)
            (lru.peek_put i.entries g (record { provider_name = p; updated_at = now }))))
    | inr n ↦ rw (str_eq_ne g f n) (
        ground
          (arith, lru.peek_put_ne i.entries g f (record { provider_name = p; updated_at = now }) n))
  ]

  run-Knows :
      (i : PrefixAffinityIndex lru) (f : String) (acc : Option PrefixAffinityEntry) (cs : List Call)
      → Knows i f acc
      → Knows (run i cs) f (latest f acc cs)
  run-Knows i f acc [] k = k
  run-Knows i f acc (looks g now ∷ cs) k =
      run-Knows (lookup lru i g now).0 f acc cs (ground (arith, peek-lookup i g f now))
  run-Knows i f acc (remembers g p now ∷ cs) k =
      run-Knows (remember lru i g p now) f _ cs (remember-Knows i g f p now acc k)

  ttl-run : (i : PrefixAffinityIndex lru) (cs : List Call) → (run i cs).ttl ≡ i.ttl
  unfolding lookup remember
  ttl-run i [] = refl
  ttl-run i (looks g now ∷ cs) = ttl-run (lookup lru i g now).0 cs ∙ ground arith
  ttl-run i (remembers g p now ∷ cs) = ttl-run (remember lru i g p now) cs

  -- What a lookup may answer when the newest record of the fingerprint is `e`.
  abbrev pub Answers : ℕ → ℕ → Option PrefixAffinityEntry → Option String → Type 0
  Answers ttl now e r =
      (r ≡ none)
      ⊎ ((x : PrefixAffinityEntry) × (e ≡ some x)
          × (r ≡ some x.provider_name)
          × (now - x.updated_at ≤ ttl))

  lookup-Answers :
      (i : PrefixAffinityIndex lru) (f : String) (now : ℕ) (e : Option PrefixAffinityEntry)
      → Knows i f e
      → Answers i.ttl now e (lookup lru i f now).1
  unfolding lookup
  lookup-Answers i f now e (inl k) = inl (ground (arith, lru.peek_touch i.entries f f))
  lookup-Answers i f now none (inr k) = inl (ground (arith, lru.peek_touch i.entries f f))
  lookup-Answers i f now (some x) (inr k) = elim (Bool-cases (ltb i.ttl (now - x.updated_at))) [
    | inl old ↦ inl (ground arith)
    | inr fresh ↦ inr (x, refl, ground (arith, lru.peek_touch i.entries f f), ground arith)
  ]

  -- After any history of lookups and records a lookup answers nothing, or the provider of the newest
  -- record of that very fingerprint, and then the record is no older than the configured time to live.
  pub lookup-run :
      (config : PrefixAffinityConfig) (cs : List Call) (f : String) (now : ℕ)
      → Answers
          (config.ttl_seconds * 1_000_000_000)
          now
          (latest f none cs)
          (lookup lru (run (new lru config) cs) f now).1
  unfolding new
  lookup-run config cs f now =
      subst (λ t. Answers t now (latest f none cs) (lookup lru (run (new lru config) cs) f now).1)
        (ttl-run (new lru config) cs)
        (lookup-Answers (run (new lru config) cs) f now (latest f none cs)
          (run-Knows (new lru config) f none cs (inl (lru.peek_new _ f))))

  -- A record is found again, until it is older than the time to live.
  pub lookup-remember :
      (i : PrefixAffinityIndex lru) (f p : String) (at now : ℕ)
      → (lookup lru (remember lru i f p at) f now).1
        ≡ (if leb (now - at) i.ttl then some p else none)
  unfolding lookup remember
  lookup-remember i f p at now =
      let e : PrefixAffinityEntry = record { provider_name = p; updated_at = at } in
      ground (arith, lru.peek_put i.entries f e, lru.peek_touch (put i.entries f e) f f)

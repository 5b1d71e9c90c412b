-- ===== src/Affinity.antt =====
-- src/routing/prefix_affinity.rs: which provider served a prompt prefix last, for a while. An `Instant`
-- is a number of nanoseconds; each method is one step under the mutex, and poisoning is not modelled.
pub mod Laws
mod Tests
use rustygate.Prelude.{
  ℕ, ◌*◌, ◌-◌, max, String, Bool, Option, none, some, ltb, if◌then◌else◌, is_some_and,
}
use rustygate.Config.{PrefixAffinityConfig}
use rustygate.Lru.{LruCache}

pub record PrefixAffinityEntry : Type 0 where
  pub provider_name : String
  pub updated_at : ℕ  -- an Instant, in nanoseconds

abbrev pub entry_name : Option PrefixAffinityEntry → Option String
entry_name none = none
entry_name (some e) = some e.provider_name

module _ (lru : LruCache PrefixAffinityEntry) where
  open lru use {Cache, peek, touch, put, pop}

  pub record PrefixAffinityIndex : Type 0 where
    pub ttl : ℕ  -- a Duration, in nanoseconds
    pub entries : Cache

  unfoldable pub new : PrefixAffinityConfig → PrefixAffinityIndex
  new config = record {
    ttl = config.ttl_seconds * 1_000_000_000;
    entries = lru.new (max config.max_entries 1);
  }

  abbrev pub is_expired : PrefixAffinityIndex → ℕ → Option PrefixAffinityEntry → Bool
  is_expired i now e = is_some_and e (λ e. ltb i.ttl (now - e.updated_at))

  unfoldable pub lookup : PrefixAffinityIndex → String → ℕ → PrefixAffinityIndex × Option String
  lookup i fingerprint now =
      let seen = touch i.entries fingerprint in
      if is_expired i now (peek i.entries fingerprint)
      then (record i { entries = pop seen fingerprint }, none)
      else (record i { entries = touch seen fingerprint }, entry_name (peek seen fingerprint))

  -- `record`
  unfoldable pub remember : PrefixAffinityIndex → String → String → ℕ → PrefixAffinityIndex
  remember i fingerprint provider_name now = record i {
    entries =
        put i.entries fingerprint (record { provider_name = provider_name; updated_at = now });
  }

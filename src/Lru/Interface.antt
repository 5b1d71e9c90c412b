-- ===== src/Lru/Interface.antt =====
-- The documented behaviour of `lru::LruCache<String, V>`.
use rustygate.Prelude.{ℕ, String, ◌≡◌, ◌≢◌, ◌⊎◌, Option, none, some}

pub record LruCache (V : Type 0) : Type 1 where
  pub Cache : Type 0
  pub new : ℕ → Cache
  pub len : Cache → ℕ
  pub cap : Cache → ℕ
  -- `peek`: the value that the cache holds for a key
  pub peek : Cache → String → Option V
  -- `get` and `get_mut` move the pair to the front; they return what `peek` returns.
  pub touch : Cache → String → Cache
  pub put : Cache → String → V → Cache
  pub pop : Cache → String → Cache
  pub peek_new : (n : ℕ) (k : String) → peek (new n) k ≡ none
  pub peek_touch : (c : Cache) (j k : String) → peek (touch c j) k ≡ peek c k
  pub peek_put : (c : Cache) (k : String) (v : V) → peek (put c k v) k ≡ some v
  -- Another key keeps its value, or its pair was evicted.
  pub peek_put_ne :
      (c : Cache) (j k : String) (v : V)
      → j ≢ k
      → (peek (put c j v) k ≡ peek c k) ⊎ (peek (put c j v) k ≡ none)
  pub peek_pop : (c : Cache) (k : String) → peek (pop c k) k ≡ none
  pub peek_pop_ne : (c : Cache) (j k : String) → j ≢ k → peek (pop c j) k ≡ peek c k

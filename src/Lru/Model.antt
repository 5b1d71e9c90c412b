-- ===== src/Lru/Model.antt =====
-- A cache that meets the interface: a list of pairs, newest first, cut to the capacity.
use rustygate.Prelude.{
  ℕ, zero, suc, String, ◌≡◌, ◌≢◌, refl, ◌⊎◌, inl, inr, none, some, List, [], ◌∷◌, arith,
  str_eq_refl, str_eq_ne, max, ◌-◌, length,
}
use rustygate.Prelude.Dict
use rustygate.Lru.Interface.{LruCache}

abbrev Pairs : Type 0 → Type 0
Pairs V = List (String × V)

abbrev take : {V : Type 0} → ℕ → Pairs V → Pairs V
take zero xs = []
take (suc n) [] = []
take (suc n) (x ∷ xs) = x ∷ take n xs

get-take :
    {V : Type 0} (n : ℕ) (xs : Pairs V) (k : String)
    → (Dict.get (take n xs) k ≡ Dict.get xs k) ⊎ (Dict.get (take n xs) k ≡ none)
unfolding Dict.get
get-take zero xs k = inr refl
get-take (suc n) [] k = inl refl
get-take (suc n) ((j, v) ∷ xs) k = ground (arith, get-take n xs k)

-- The capacity, at least one, beside the pairs.
abbrev Held : Type 0 → Type 0
Held V = ℕ × Pairs V

abbrev push_front : {V : Type 0} → String → V → Pairs V → ℕ → Pairs V
push_front k v xs n = (k, v) ∷ take n (Dict.remove k xs)

pub get-push_front_ne :
    {V : Type 0} (j k : String) (v : V) (xs : Pairs V) (n : ℕ)
    → j ≢ k
    → (Dict.get (push_front j v xs n) k ≡ Dict.get xs k) ⊎ (Dict.get (push_front j v xs n) k ≡ none)
unfolding Dict.get
get-push_front_ne j k v xs n h =
    rw (str_eq_ne j k h)
      (ground (arith, get-take n (Dict.remove j xs) k, Dict.get-remove_ne j k xs h))

pub get-push_front_self :
    {V : Type 0} (k : String) (v : V) (xs : Pairs V) (n : ℕ)
    → Dict.get (push_front k v xs n) k ≡ some v
unfolding Dict.get
get-push_front_self k v xs n = rw (str_eq_refl k)

pub get-nil : {V : Type 0} (k : String) → Dict.get {V = V} [] k ≡ none
unfolding Dict.get
get-nil k = refl

unfoldable pub list_lru : (V : Type 0) → LruCache V
unfolding Dict.get Dict.remove
list_lru V = record {
  Cache = Held V;
  new = λ n. (max n 1, []);
  len = λ c. length c.1;
  cap = λ c. c.0;
  peek = λ c k. Dict.get c.1 k;
  touch = λ c k. c;
  put = λ c k v. (c.0, push_front k v c.1 (c.0 - 1));
  pop = λ c k. (c.0, Dict.remove k c.1);
  peek_new = λ n k. get-nil k;
  peek_touch = λ c j k. refl;
  peek_put = λ c k v. get-push_front_self k v c.1 (c.0 - 1);
  peek_put_ne = λ c j k v h. get-push_front_ne j k v c.1 (c.0 - 1) h;
  peek_pop = λ c k. Dict.get-remove_self k c.1;
  peek_pop_ne = λ c j k h. Dict.get-remove_ne j k c.1 h;
}

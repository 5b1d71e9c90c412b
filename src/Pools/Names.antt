-- ===== src/Pools/Names.antt =====
-- src/routing/model_pools.rs: the public names of a pool, which `public_ids` sorts.
use rustygate.Prelude.Order.{str_cmp}
use rustygate.Prelude.Sort.{sort_by, insert_by}
use rustygate.Prelude.{
  String, ◌≡◌, refl, ◌∙◌, not, List, [], ◌∷◌, arith, contains, select, str_eq, str_eq_iff,
}
use rustygate.Config.{ModelPoolConfig}
use rustygate.Pools.{public_ids, sorted_set, dedup}

contains-insert_by :
    (x : String) (ys : List String) (m : String)
    → contains (insert_by str_cmp x ys) m ≡ contains (x ∷ ys) m
unfolding contains insert_by
contains-insert_by x [] m = refl
contains-insert_by x (y ∷ ys) m = ground (arith, contains-insert_by x ys m)

contains-sort_by : (xs : List String) (m : String) → contains (sort_by str_cmp xs) m ≡ contains xs m
unfolding contains sort_by
contains-sort_by [] m = refl
contains-sort_by (x ∷ xs) m =
    contains-insert_by x (sort_by str_cmp xs) m ∙ ground (arith, contains-sort_by xs m)

contains-dedup : (xs : List String) (m : String) → contains (dedup xs) m ≡ contains xs m
unfolding contains dedup
contains-dedup [] m = refl
contains-dedup (x ∷ []) m = refl
contains-dedup (x ∷ y ∷ ys) m = ground (arith, contains-dedup (y ∷ ys) m, str_eq_iff x y)

contains-select :
    (name : String) (xs : List String) (m : String)
    → contains (name ∷ select (λ a. not (str_eq a name)) xs) m ≡ contains (name ∷ xs) m
unfolding contains select
contains-select name [] m = refl
contains-select name (x ∷ xs) m =
    ground (arith, contains-select name xs m, str_eq_iff x name, str_eq_iff x m, str_eq_iff name m)

-- The public names of a pool are its name and its aliases: sorting and removing repetitions neither
-- drops nor adds one.
pub contains-public_ids :
    (c : ModelPoolConfig) (m : String) → contains (public_ids c) m ≡ contains (c.name ∷ c.aliases) m
unfolding public_ids sorted_set
contains-public_ids c m =
    let ids = c.name ∷ select (λ a. not (str_eq a c.name)) c.aliases in
    contains-dedup (sort_by str_cmp ids) m
    ∙ contains-sort_by ids m
    ∙ contains-select c.name c.aliases m

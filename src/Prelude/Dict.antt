-- ===== src/Prelude/Dict.antt =====
-- `BTreeMap<String, V>` and `HashMap<String, V>`: an association list that `insert` keeps in the
-- order of its keys, so that iteration is in key order as in a `BTreeMap`.
use Prim.Native.Nat.{Ordering}
use Prim.Native.String.{String}
use rustygate.Prelude.Order.{str_cmp}
use mathlib.Core.Path.{◌≡◌, refl}
use mathlib.Core.Logic.{◌≢◌}
use mathlib.Core.Bool.{Bool, true, false}
use mathlib.Core.List.{List, [], ◌∷◌, map}
use mathlib.Core.Option.{Option, none, some}
use native.Mathlib.Omega.{arith}
use rustygate.Prelude.Tests.{
  if◌then◌else◌, str_eq, str_eq_iff, str_eq_refl, str_eq_ne, unwrap_or, is_some,
}

abbrev pub Dict {ℓ} : Type ℓ → Type ℓ
Dict V = List (String × V)

unfoldable pub str_lt : String → String → Bool
unfolding str_cmp
str_lt a b = elim (str_cmp a b) [ Ordering.lt ↦ true | _ ↦ false ]

module _ {ℓ} {V : Type ℓ} where
  -- m.get(k)
  unfoldable pub get : Dict V → String → Option V
  get [] k = none
  get ((j, v) ∷ m) k = if str_eq j k then some v else get m k

  -- m.insert(k, v)
  unfoldable pub insert : String → V → Dict V → Dict V
  unfolding str_lt
  insert k v [] = (k, v) ∷ []
  insert k v ((j, w) ∷ m) =
      let rest = insert k v m in
      if str_eq j k then (k, v) ∷ m else if str_lt k j then (k, v) ∷ (j, w) ∷ m else (j, w) ∷ rest

  -- m.remove(k)
  unfoldable pub remove : String → Dict V → Dict V
  remove k [] = []
  remove k ((j, v) ∷ m) = let rest = remove k m in if str_eq j k then rest else (j, v) ∷ rest

  abbrev pub contains_key : Dict V → String → Bool
  contains_key m k = is_some (get m k)

  -- m.get(k).copied().unwrap_or(d)
  abbrev pub get_or : Dict V → String → V → V
  get_or m k d = unwrap_or (get m k) d

  abbrev pub keys : Dict V → List String
  keys = map (λ e. e.0)

  abbrev pub values : Dict V → List V
  values = map (λ e. e.1)

  pub get-insert :
      (k j : String) (v : V) (m : Dict V)
      → get (insert k v m) j ≡ (if str_eq k j then some v else get m j)
  unfolding get insert
  get-insert k j v [] = refl
  get-insert k j v ((i, w) ∷ m) =
      ground (arith, str_eq_iff k j, str_eq_iff i k, str_eq_iff i j, get-insert k j v m)

  pub get-remove :
      (k j : String) (m : Dict V) → get (remove k m) j ≡ (if str_eq k j then none else get m j)
  unfolding get remove
  get-remove k j [] = ground arith
  get-remove k j ((i, w) ∷ m) =
      ground (arith, str_eq_iff k j, str_eq_iff i k, str_eq_iff i j, get-remove k j m)

  pub get-insert_self : (k : String) (v : V) (m : Dict V) → get (insert k v m) k ≡ some v
  get-insert_self k v m = simp (get-insert, str_eq_refl)

  pub get-insert_ne : (k j : String) (v : V) (m : Dict V) → k ≢ j → get (insert k v m) j ≡ get m j
  get-insert_ne k j v m h = rw (get-insert k j v m, str_eq_ne k j h)

  pub get-remove_self : (k : String) (m : Dict V) → get (remove k m) k ≡ none
  get-remove_self k m = simp (get-remove, str_eq_refl)

  pub get-remove_ne : (k j : String) (m : Dict V) → k ≢ j → get (remove k m) j ≡ get m j
  get-remove_ne k j m h = rw (get-remove k j m, str_eq_ne k j h)

  -- `entries.collect()` into a map: later entries overwrite earlier ones.
  unfoldable pub collect_into : Dict V → List (String × V) → Dict V
  collect_into m [] = m
  collect_into m ((k, v) ∷ r) = collect_into (insert k v m) r

  unfoldable pub collect : List (String × V) → Dict V
  unfolding collect_into
  collect es = collect_into [] es

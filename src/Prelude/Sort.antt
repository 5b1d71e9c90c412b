-- ===== src/Prelude/Sort.antt =====
-- `slice::sort_by`, a stable sort: its result is the one stable arrangement, which insertion computes.
use Prim.Native.Nat.{Ordering}
use Prim.Native.Nat.Ordering.{gt}
use mathlib.Core.Path.{◌≡◌}
use mathlib.Core.Logic.{◌≢◌, ◌⊎◌, inl, inr}
use mathlib.Core.List.{List, [], ◌∷◌, Perm}
use mathlib.Core.List.Perm
use native.Mathlib.Omega.{arith}
use rustygate.Prelude.Lists.{All, All-map}
use rustygate.Prelude.Order.{IsRanking}

module _ {ℓ} {A : Type ℓ} (cmp : A → A → Ordering) where
  unfoldable pub insert_by : A → List A → List A
  insert_by x [] = x ∷ []
  insert_by x (y ∷ ys) =
      let rest = insert_by x ys in elim (cmp x y) [ gt ↦ y ∷ rest | _ ↦ x ∷ y ∷ ys ]

  unfoldable pub sort_by : List A → List A
  unfolding insert_by
  sort_by [] = []
  sort_by (x ∷ xs) = insert_by x (sort_by xs)

  -- No element is ranked behind a later one.
  abbrev pub IsSorted : List A → Type ℓ
  IsSorted [] = Unit
  IsSorted (x ∷ xs) = All (λ y. cmp x y ≢ gt) xs × IsSorted xs

module _ {ℓ} {A : Type ℓ} (cmp : A → A → Ordering) where
  insert_cases :
      (x y : A) (ys : List A)
      → ((cmp x y ≡ gt) × (insert_by cmp x (y ∷ ys) ≡ y ∷ insert_by cmp x ys))
        ⊎ ((cmp x y ≢ gt) × (insert_by cmp x (y ∷ ys) ≡ x ∷ y ∷ ys))
  unfolding insert_by
  insert_cases x y ys = ground arith

  insert_by-perm : (x : A) (ys : List A) → Perm (insert_by cmp x ys) (x ∷ ys)
  insert_by-perm x [] = unfold insert_by in Perm.refl (x ∷ [])
  insert_by-perm x (y ∷ ys) = elim (insert_cases x y ys) [
    | inl (_, e) ↦ rw e (Perm.trans (Perm.cons y (insert_by-perm x ys)) (Perm.swap x y ys))
    | inr (_, e) ↦ rw e (Perm.refl (x ∷ y ∷ ys))
  ]

  -- Sorting only reorders.
  pub sort_by-perm : (xs : List A) → Perm (sort_by cmp xs) xs
  unfolding sort_by
  sort_by-perm [] = Perm.refl []
  sort_by-perm (x ∷ xs) =
      Perm.trans (insert_by-perm x (sort_by cmp xs)) (Perm.cons x (sort_by-perm xs))

  All-insert_by {κ} :
      (P : A → Type κ) (x : A) (ys : List A) → P x → All P ys → All P (insert_by cmp x ys)
  All-insert_by P x [] h k = unfold insert_by in (h, k)
  All-insert_by P x (y ∷ ys) h k = elim (insert_cases x y ys) [
    | inl (_, e) ↦ rw e (k.0, All-insert_by P x ys h k.1)
    | inr (_, e) ↦ rw e (h, k)
  ]

  pub All-sort_by {κ} : (P : A → Type κ) (xs : List A) → All P xs → All P (sort_by cmp xs)
  unfolding sort_by
  All-sort_by P [] h = h
  All-sort_by P (x ∷ xs) h = All-insert_by P x (sort_by cmp xs) h.0 (All-sort_by P xs h.1)

  module _ (r : IsRanking cmp) where
    le_trans : (a b c : A) → cmp a b ≢ gt → cmp b c ≢ gt → cmp a c ≢ gt
    le_trans a b c h k = ground (arith, r.lt_trans a b c, r.eq_trans a b c)

    insert_by-IsSorted : (x : A) (ys : List A) → IsSorted cmp ys → IsSorted cmp (insert_by cmp x ys)
    insert_by-IsSorted x [] s = unfold insert_by in (tt, tt)
    insert_by-IsSorted x (y ∷ ys) s = elim (insert_cases x y ys) [
      | inl (g, e) ↦ rw e (
        All-insert_by (λ z. cmp y z ≢ gt) x ys (ground (arith, r.flips x y)) s.0,
        insert_by-IsSorted x ys s.1,
      )
      | inr (l, e) ↦ rw e ((l, All-map _ _ (λ z h. le_trans x y z l h) ys s.0), s)
    ]

    pub sort_by-IsSorted : (xs : List A) → IsSorted cmp (sort_by cmp xs)
    unfolding sort_by
    sort_by-IsSorted [] = tt
    sort_by-IsSorted (x ∷ xs) = insert_by-IsSorted x (sort_by cmp xs) (sort_by-IsSorted xs)

-- ===== src/Prelude/Order.antt =====
-- `Ordering`: comparisons by a key, one after the other, and the order of texts. Rust compares texts
-- by their UTF-8 bytes, which is the order of their code points.
use Prim.Native.Char.{code}
use Prim.Native.Nat.{compare, Ordering}
use Prim.Native.Nat.Ordering.{lt, eq, gt}
use Prim.Native.String.{String}
use mathlib.Core.Path.{◌≡◌, refl}
use mathlib.Core.Logic.{◌≢◌}
use native.Mathlib.Omega.{arith}

abbrev pub flip : Ordering → Ordering
flip lt = gt
flip eq = eq
flip gt = lt

-- Ordering::then_with
abbrev pub then_with : Ordering → Ordering → Ordering
then_with eq second = second
then_with lt second = lt
then_with gt second = gt

-- A comparison that ranks: it need not tell all values apart.
pub record IsRanking {ℓ} {A : Type ℓ} (cmp : A → A → Ordering) : Type ℓ where
  pub flips : (a b : A) → cmp b a ≡ flip (cmp a b)
  pub lt_trans : (a b c : A) → cmp a b ≡ lt → cmp b c ≢ gt → cmp a c ≡ lt
  pub eq_trans : (a b c : A) → cmp a b ≡ eq → cmp a c ≡ cmp b c

pub compare-IsRanking : IsRanking compare
compare-IsRanking = record {
  flips = λ a b. ground arith;
  lt_trans = λ a b c h k. ground arith;
  eq_trans = λ a b c h. ground arith;
}

module _ {ℓ κ} {A : Type ℓ} {B : Type κ} (key : A → B) {cmp : B → B → Ordering} where
  pub by_key-IsRanking : IsRanking cmp → IsRanking (λ a b. cmp (key a) (key b))
  by_key-IsRanking r = record {
    flips = λ a b. r.flips (key a) (key b);
    lt_trans = λ a b c. r.lt_trans (key a) (key b) (key c);
    eq_trans = λ a b c. r.eq_trans (key a) (key b) (key c);
  }

module _ {ℓ} {A : Type ℓ} {first second : A → A → Ordering} where
  pub then_with-IsRanking :
      IsRanking first → IsRanking second → IsRanking (λ a b. then_with (first a b) (second a b))
  then_with-IsRanking r s = record {
    flips = λ a b. ground (arith, r.flips a b, s.flips a b);
    lt_trans = λ a b c h k. ground (arith, r.lt_trans a b c, r.eq_trans a b c, s.lt_trans a b c);
    eq_trans = λ a b c h. ground (arith, r.eq_trans a b c, s.eq_trans a b c);
  }

unfoldable pub str_cmp : String → String → Ordering
str_cmp String.[] String.[] = eq
str_cmp String.[] (String.◌∷◌ d t) = lt
str_cmp (String.◌∷◌ c s) String.[] = gt
str_cmp (String.◌∷◌ c s) (String.◌∷◌ d t) = then_with (compare (code c) (code d)) (str_cmp s t)

str_cmp-flip : (a b : String) → str_cmp b a ≡ flip (str_cmp a b)
unfolding str_cmp
str_cmp-flip String.[] String.[] = refl
str_cmp-flip String.[] (String.◌∷◌ d t) = refl
str_cmp-flip (String.◌∷◌ c s) String.[] = refl
str_cmp-flip (String.◌∷◌ c s) (String.◌∷◌ d t) = ground (arith, str_cmp-flip s t)

str_cmp-eq_trans : (a b c : String) → str_cmp a b ≡ eq → str_cmp a c ≡ str_cmp b c
unfolding str_cmp
str_cmp-eq_trans String.[] String.[] c h = refl
str_cmp-eq_trans String.[] (String.◌∷◌ d t) c h = cc
str_cmp-eq_trans (String.◌∷◌ x s) String.[] c h = cc
str_cmp-eq_trans (String.◌∷◌ x s) (String.◌∷◌ y t) String.[] h = refl
str_cmp-eq_trans (String.◌∷◌ x s) (String.◌∷◌ y t) (String.◌∷◌ z u) h =
    ground (arith, str_cmp-eq_trans s t u)

str_cmp-lt_trans : (a b c : String) → str_cmp a b ≡ lt → str_cmp b c ≢ gt → str_cmp a c ≡ lt
unfolding str_cmp
str_cmp-lt_trans String.[] String.[] c h k = cc
str_cmp-lt_trans String.[] (String.◌∷◌ d t) String.[] h k = absurd (k refl)
str_cmp-lt_trans String.[] (String.◌∷◌ d t) (String.◌∷◌ e u) h k = refl
str_cmp-lt_trans (String.◌∷◌ x s) String.[] c h k = cc
str_cmp-lt_trans (String.◌∷◌ x s) (String.◌∷◌ y t) String.[] h k = absurd (k refl)
str_cmp-lt_trans (String.◌∷◌ x s) (String.◌∷◌ y t) (String.◌∷◌ z u) h k =
    ground (arith, str_cmp-lt_trans s t u, str_cmp-eq_trans s t u)

pub str_cmp-IsRanking : IsRanking str_cmp
str_cmp-IsRanking = record {
  flips = str_cmp-flip;
  lt_trans = str_cmp-lt_trans;
  eq_trans = str_cmp-eq_trans;
}

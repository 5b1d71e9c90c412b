-- ===== src/Float.antt =====
-- The floating point numbers (`f64`) that the program computes with, as an interface. The model uses
-- only what IEEE 754 and Rust's library promise of the operations it calls.
pub mod Model
use Prim.Native.Nat.Ordering.{lt, eq, gt}
use rustygate.Prelude.{ℕ, Ordering, ◌≡◌, Bool}

-- `f64::total_cmp` is a total order.
pub record IsTotalOrder {ℓ} {A : Type ℓ} (cmp : A → A → Ordering) : Type ℓ where
  pub cmp_refl : (a : A) → cmp a a ≡ eq
  pub lt_of_gt : (a b : A) → cmp a b ≡ gt → cmp b a ≡ lt
  pub gt_of_lt : (a b : A) → cmp a b ≡ lt → cmp b a ≡ gt
  pub eq_of_cmp : (a b : A) → cmp a b ≡ eq → a ≡ b
  pub lt_trans : (a b c : A) → cmp a b ≡ lt → cmp b c ≡ lt → cmp a c ≡ lt

pub record Float : Type 1 where
  pub F64 : Type 0
  pub zero_f64 : F64
  pub infinity : F64
  pub add : F64 → F64 → F64
  pub sub : F64 → F64 → F64
  pub mul : F64 → F64 → F64
  pub div : F64 → F64 → F64
  pub max_f64 : F64 → F64 → F64
  pub min_f64 : F64 → F64 → F64
  -- `n as f64`
  pub from_nat : ℕ → F64
  -- `x.ceil() as u64`
  pub ceil_u64 : F64 → ℕ
  -- `a < b` and `a <= b`, false on a NaN
  pub lt_f64 : F64 → F64 → Bool
  pub le_f64 : F64 → F64 → Bool
  pub total_cmp : F64 → F64 → Ordering
  pub total_cmp-IsTotalOrder : IsTotalOrder total_cmp

-- ===== src/Float/Model.antt =====
-- Numbers that meet the interface: the natural ones, which hold the finite values the examples use.
-- A difference stops at 0 and a quotient is rounded down.
use Prim.Native.Nat.{compare}
use rustygate.Prelude.{ℕ, ◌+◌, ◌-◌, ◌*◌, ◌/◌, min, max, ltb, leb, arith}
use rustygate.Float.{Float, IsTotalOrder}

pub compare-IsTotalOrder : IsTotalOrder compare
compare-IsTotalOrder = record {
  cmp_refl = λ a. ground arith;
  lt_of_gt = λ a b h. ground arith;
  gt_of_lt = λ a b h. ground arith;
  eq_of_cmp = λ a b h. ground arith;
  lt_trans = λ a b c h k. ground arith;
}

abbrev pub nat_float : Float
nat_float = record {
  F64 = ℕ;
  zero_f64 = 0;
  infinity = 1_000_000_000_000;
  add = λ a b. a + b;
  sub = λ a b. a - b;
  mul = λ a b. a * b;
  div = λ a b. a / b;
  max_f64 = max;
  min_f64 = min;
  from_nat = λ n. n;
  ceil_u64 = λ n. n;
  lt_f64 = ltb;
  le_f64 = leb;
  total_cmp = compare;
  total_cmp-IsTotalOrder = compare-IsTotalOrder;
}

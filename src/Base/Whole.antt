-- ===== src/Base/Whole.antt =====
-- Whole, unsigned numbers as floats, for examples that need no fractions.
use Prim.Native.Nat.{ℕ, ◌+◌, ◌-◌, ◌*◌, ◌/◌, ◌^◌}
use mathlib.Core.Bool.{true}
use native.Mathlib.Omega.{arith}
use trader_pxg.Base.Tests.{ltb, leb, nat_eqb}
use trader_pxg.Base.Number.{Float, IsTotalOrder}

instance abbrev pub whole : Float ℕ
whole = record {
  dec = λ n k. n / 10 ^ k;
  inf = 10 ^ 30;
  add = ◌+◌;
  subtract = ◌-◌;
  multiply = ◌*◌;
  quotient = ◌/◌;
  floor_quotient = ◌/◌;
  is_finite = λ a. true;
  mean = λ xs. 0;
  stdev = λ xs. 0;
  square_root = λ a. 0;
  less = ltb;
  at_most = leb;
  equal = nat_eqb;
}

pub whole-IsTotalOrder : IsTotalOrder whole
whole-IsTotalOrder = record {
  less_not = λ a b. ground arith;
  at_most_refl = λ a. ground arith;
  at_most_trans = λ a b c h k. ground arith;
  equal_both = λ a b. ground arith;
  at_most_total = λ a b h. ground arith;
}

-- ===== src/Base/Fixed.antt =====
-- A concrete number type for the examples: fixed point with six decimals, in millionths.
use Prim.Native.Nat.{ℕ, zero, suc, ◌+◌, ◌-◌, ◌*◌, ◌/◌, ◌^◌}
use mathlib.Core.List.{List, [], ◌∷◌, map}
use mathlib.Core.Bool.{true}
use native.Mathlib.Omega.{arith}
use trader_pxg.Base.Lists.{length}
use trader_pxg.Base.Tests.{leb, if◌then◌else◌}
use trader_pxg.Base.Number.{Float, IsTotalOrder}
use trader_pxg.Base.Int.{ℤ, pos, negsuc, pos_part, sub_ℕ, ◌+ℤ◌, ◌-ℤ◌, ◌*ℤ◌, ltb_ℤ, leb_ℤ, eqb_ℤ}

abbrev pub units : ℕ
units = 1_000_000

-- Rounded towards zero.
abbrev scaled_down : ℤ → ℤ
scaled_down (pos n) = pos (n / units)
scaled_down (negsuc n) = sub_ℕ 0 (suc n / units)

abbrev pub quotient_by : ℤ → ℤ → ℤ
quotient_by (pos a) (pos b) = pos (a / b)
quotient_by (pos a) (negsuc b) = sub_ℕ 0 (a / suc b)
quotient_by (negsuc a) (pos b) = sub_ℕ 0 (suc a / b)
quotient_by (negsuc a) (negsuc b) = pos (suc a / suc b)

-- The floor of the quotient by a positive divisor, a whole number.
abbrev floor_by : ℤ → ℤ → ℤ
floor_by (pos a) (pos b) = pos (a / b * units)
floor_by (negsuc a) (pos b) = sub_ℕ 0 ((a / b + 1) * units)
floor_by a (negsuc b) = pos 0

-- The square root, a bit at a time from the highest.
abbrev root_from : ℕ → ℕ → ℕ → ℕ
root_from zero r n = r
root_from (suc k) r n = root_from k (if leb ((r + 2 ^ k) * (r + 2 ^ k)) n then r + 2 ^ k else r) n

abbrev root_of : ℤ → ℤ
root_of a = pos (root_from 60 0 (pos_part a * units))

abbrev total_of : List ℤ → ℤ
total_of [] = pos 0
total_of (a ∷ xs) = a +ℤ total_of xs

abbrev mean_of : List ℤ → ℤ
mean_of xs = quotient_by (total_of xs) (pos (length xs))

abbrev squares_about : ℤ → List ℤ → ℤ
squares_about m xs = total_of (map (λ a. scaled_down ((a -ℤ m) *ℤ (a -ℤ m))) xs)

abbrev stdev_of : List ℤ → ℤ
stdev_of xs = root_of (quotient_by (squares_about (mean_of xs) xs) (pos (length xs - 1)))

instance abbrev pub fixed : Float ℤ
fixed = record {
  dec = λ n k. pos (n * units / 10 ^ k);
  inf = pos (10 ^ 30);
  add = ◌+ℤ◌;
  subtract = ◌-ℤ◌;
  multiply = λ a b. scaled_down (a *ℤ b);
  quotient = λ a b. quotient_by (a *ℤ pos units) b;
  floor_quotient = floor_by;
  mean = mean_of;
  stdev = stdev_of;
  square_root = root_of;
  less = ltb_ℤ;
  at_most = leb_ℤ;
  equal = eqb_ℤ;
  is_finite = λ a. true;
}

pub fixed-IsTotalOrder : IsTotalOrder fixed
fixed-IsTotalOrder = record {
  less_not = λ a b. ground arith;
  at_most_refl = λ a. ground arith;
  at_most_trans = λ a b c h k. ground arith;
  equal_both = λ a b. ground arith;
  at_most_total = λ a b h. ground arith;
}

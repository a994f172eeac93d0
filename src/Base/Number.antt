-- ===== src/Base/Number.antt =====
-- Python's `float`, as an interface: its operations and literals, with no law. What a theorem
-- needs of the order is a hypothesis of that theorem, `IsTotalOrder`.
use Prim.Native.Nat.{ℕ}
use mathlib.Core.Path.{◌≡◌}
use mathlib.Core.Logic.{◌⊎◌}
use mathlib.Core.Bool.{Bool, true, false, not, ◌&&◌}
use mathlib.Core.List.{List}
use trader_pxg.Base.Outcome.{zero_division, Result, ok, err}
use native.Mathlib.Omega.{arith}
use trader_pxg.Base.Tests.{if◌then◌else◌}

pub record Float (A : Type 0) : Type 0 where
  -- the literal n / 10 ^ k
  pub dec : ℕ → ℕ → A
  pub inf : A
  pub add : A → A → A
  pub subtract : A → A → A
  pub multiply : A → A → A
  -- the quotient by a divisor that is not zero
  pub quotient : A → A → A
  -- `a // b`, by a divisor that is not zero
  pub floor_quotient : A → A → A
  -- `statistics.mean`, `statistics.stdev` and `math.sqrt`
  pub mean : List A → A
  pub stdev : List A → A
  pub square_root : A → A
  pub less : A → A → Bool
  pub at_most : A → A → Bool
  pub equal : A → A → Bool
  -- `math.isfinite`
  pub is_finite : A → Bool

module _ {A : Type 0} ⦃f : Float A⦄ where
  infixl 65 ◌⊕◌ ◌⊖◌
  infixl 70 ◌⊗◌
  infix 50 ◌≺◌ ◌≼◌ ◌≈◌
  abbrev pub ◌⊕◌ : A → A → A
  a ⊕ b = f.add a b

  abbrev pub ◌⊖◌ : A → A → A
  a ⊖ b = f.subtract a b

  abbrev pub ◌⊗◌ : A → A → A
  a ⊗ b = f.multiply a b

  -- `a < b`, `a <= b`, `a == b`
  abbrev pub ◌≺◌ : A → A → Bool
  a ≺ b = f.less a b

  abbrev pub ◌≼◌ : A → A → Bool
  a ≼ b = f.at_most a b

  abbrev pub ◌≈◌ : A → A → Bool
  a ≈ b = f.equal a b

  abbrev pub decimal : ℕ → ℕ → A
  decimal n k = f.dec n k

  abbrev pub float_zero : A
  float_zero = f.dec 0 0

  abbrev pub float_one : A
  float_one = f.dec 1 0

  abbrev pub negate : A → A
  negate a = f.subtract (f.dec 0 0) a

  -- `a / b`, which raises on a zero divisor
  unfoldable pub divide : A → A → Result A
  divide a b = if f.equal b (f.dec 0 0) then err zero_division else ok (f.quotient a b)

  -- `min(a, b)` and `max(a, b)` keep their first argument on a tie
  unfoldable pub minimum : A → A → A
  minimum a b = if f.less b a then b else a

  unfoldable pub maximum : A → A → A
  maximum a b = if f.less a b then b else a

  unfoldable pub absolute : A → A
  absolute a = if f.less a (f.dec 0 0) then f.subtract (f.dec 0 0) a else a

-- The order of the floats other than NaN.
pub record IsTotalOrder {A : Type 0} (f : Float A) : Type 0 where
  pub less_not : (a b : A) → f.less a b ≡ not (f.at_most b a)
  pub at_most_refl : (a : A) → f.at_most a a ≡ true
  pub at_most_trans :
      (a b c : A) → f.at_most a b ≡ true → f.at_most b c ≡ true → f.at_most a c ≡ true
  pub equal_both : (a b : A) → f.equal a b ≡ (f.at_most a b && f.at_most b a)
  pub at_most_total : (a b : A) → f.at_most a b ≡ false → f.at_most b a ≡ true

module _ {A : Type 0} ⦃f : Float A⦄ where
  pub maximum-eq : (a b : A) → (maximum a b ≡ a) ⊎ (maximum a b ≡ b)
  unfolding maximum
  maximum-eq a b = ground arith

  pub minimum-eq : (a b : A) → (minimum a b ≡ a) ⊎ (minimum a b ≡ b)
  unfolding minimum
  minimum-eq a b = ground arith

module _ {A : Type 0} ⦃f : Float A⦄ (o : IsTotalOrder f) where
  -- Above zero, in the form that a division tests.
  pub divide-positive : (a b : A) → b ≼ float_zero ≡ false → divide a b ≡ ok (f.quotient a b)
  unfolding divide
  divide-positive a b h = ground (arith, o.equal_both b float_zero)

  pub minimum-le_left : (a b : A) → minimum a b ≼ a ≡ true
  unfolding minimum
  minimum-le_left a b = ground (arith, o.less_not b a, o.at_most_refl a, o.at_most_total a b)

  pub minimum-le_right : (a b : A) → minimum a b ≼ b ≡ true
  unfolding minimum
  minimum-le_right a b = ground (arith, o.less_not b a, o.at_most_refl b)

  pub maximum-ge_left : (a b : A) → a ≼ maximum a b ≡ true
  unfolding maximum
  maximum-ge_left a b = ground (arith, o.less_not a b, o.at_most_refl a, o.at_most_total b a)

  pub maximum-ge_right : (a b : A) → b ≼ maximum a b ≡ true
  unfolding maximum
  maximum-ge_right a b = ground (arith, o.less_not a b, o.at_most_refl b)

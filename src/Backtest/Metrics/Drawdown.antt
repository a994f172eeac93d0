-- ===== src/Backtest/Metrics/Drawdown.antt =====
-- `max_drawdown` of trader/backtest/metrics.py on a curve that starts above zero, at zero and below.
use trader_pxg.Base.{
  ◌≡◌, refl, ap, ◌∙◌, ◌⊎◌, inl, inr, true, false, some, List, [], ◌∷◌, arith, All, In, here, there,
  Bool-cases, Float, IsTotalOrder, float_zero, ◌⊖◌, ◌≼◌, ◌≺◌, ◌≈◌, divide, maximum, minimum,
  maximum-ge_left, minimum-eq, divide-positive, minimum-le_left, minimum-le_right, Result, ok, err,
  zero_division, ◌>>=◌,
}
use trader_pxg.Backtest.Metrics.{drawdown_loop, max_drawdown}

-- What rounding keeps of the signs: a rounded difference of a larger and a smaller number is not
-- above zero, and the quotient of two numbers that are not above zero is not below it.
pub record KeepsSigns {A : Type 0} (f : Float A) : Type 0 where
  pub subtract_sign :
      (a b : A) → f.at_most a b ≡ true → f.at_most (f.subtract a b) (f.dec 0 0) ≡ true
  pub quotient_sign :
      (a b : A)
      → f.at_most a (f.dec 0 0) ≡ true
      → f.less b (f.dec 0 0) ≡ true
      → f.at_most (f.dec 0 0) (f.quotient a b) ≡ true

module _ {A : Type 0} ⦃f : Float A⦄ where
  -- The decline of each value from the peak up to it, relative to the peak.
  abbrev pub declines : A → List A → List A
  declines peak [] = []
  declines peak (v ∷ vs) =
      f.quotient (v ⊖ maximum peak v) (maximum peak v) ∷ declines (maximum peak v) vs

  maximum_self : (a : A) → maximum a a ≡ a
  unfolding maximum
  maximum_self a = ground arith

  -- Where the first value of the curve is zero the division by the peak raises.
  pub max_drawdown-zero_start :
      (value : A) (values : List A)
      → value ≈ float_zero ≡ true
      → max_drawdown (value ∷ values) ≡ err zero_division
  unfolding max_drawdown divide
  max_drawdown-zero_start value values zero_start = rw (maximum_self value, zero_start)

  module _ (o : IsTotalOrder f) where
    maximum_positive :
        (peak v : A) → peak ≼ float_zero ≡ false → maximum peak v ≼ float_zero ≡ false
    maximum_positive peak v h = elim (Bool-cases (maximum peak v ≼ float_zero)) [
      | inl e ↦ absurd (cc (o.at_most_trans peak _ float_zero (maximum-ge_left o peak v) e))
      | inr e ↦ e
    ]

    Worst : A → A → List A → A → Type 0
    Worst peak worst values dd =
        (dd ≼ worst ≡ true)
        × All (λ d. dd ≼ d ≡ true) (declines peak values)
        × ((dd ≡ worst) ⊎ In dd (declines peak values))

    attained_step :
        (worst d dd : A) (ds : List A)
        → (minimum worst d ≡ worst) ⊎ (minimum worst d ≡ d)
        → (dd ≡ minimum worst d) ⊎ In dd ds
        → (dd ≡ worst) ⊎ In dd (d ∷ ds)
    attained_step worst d dd ds split (inr i) = inr (there i)
    attained_step worst d dd ds (inl kept) (inl e) = inl (e ∙ kept)
    attained_step worst d dd ds (inr moved) (inl e) = inr (rw (e ∙ moved) here)

    drawdown_loop-Worst :
        (peak worst : A) (values : List A)
        → peak ≼ float_zero ≡ false
        → (dd : A) × (drawdown_loop peak worst values ≡ ok dd) × Worst peak worst values dd
    unfolding drawdown_loop Worst
    drawdown_loop-Worst peak worst [] pos = (worst, refl, (o.at_most_refl worst, tt, inl refl))
    drawdown_loop-Worst peak worst (v ∷ vs) pos =
        let m = maximum peak v in
        let m_pos = maximum_positive peak v pos in
        let d = f.quotient (v ⊖ m) m in
        let (dd, run, (below, all, hit)) = drawdown_loop-Worst m (minimum worst d) vs m_pos in
        (
          dd,
          rw (divide-positive o (v ⊖ m) m m_pos) run,
          (
            o.at_most_trans dd _ worst below (minimum-le_left o worst d),
            (o.at_most_trans dd _ d below (minimum-le_right o worst d), all),
            attained_step worst d dd _ (minimum-eq worst d) hit,
          ),
        )

    -- On a curve that starts above zero the call returns a number at most zero that no decline
    -- from a running peak is below, and it is zero or one of these declines.
    pub max_drawdown-least :
        (value : A) (values : List A)
        → float_zero ≺ value ≡ true
        → (dd : A) × (max_drawdown (value ∷ values) ≡ ok (some dd))
          × (dd ≼ float_zero ≡ true)
          × All (λ d. dd ≼ d ≡ true) (declines value (value ∷ values))
          × ((dd ≡ float_zero) ⊎ In dd (declines value (value ∷ values)))
    unfolding max_drawdown Worst
    max_drawdown-least value values pos =
        let (dd, run, (below, all, hit)) =
          drawdown_loop-Worst value float_zero (value ∷ values)
            (ground (arith, o.less_not float_zero value)) in
        (dd, ap (λ (r : Result A). r >>= λ worst. ok (some worst)) run, below, all, hit)

    module _ (signs : KeepsSigns f) where
      maximum_keeps : (a b : A) → b ≼ a ≡ true → maximum a b ≡ a
      unfolding maximum
      maximum_keeps a b h = ground (arith, o.less_not a b)

      divide_negative : (a b : A) → b ≺ float_zero ≡ true → divide a b ≡ ok (f.quotient a b)
      unfolding divide
      divide_negative a b h = ground (arith, o.equal_both b float_zero, o.less_not b float_zero)

      minimum_stays : (d : A) → float_zero ≼ d ≡ true → minimum float_zero d ≡ float_zero
      unfolding minimum
      minimum_stays d h = ground (arith, o.less_not d float_zero)

      drawdown_loop-underwater :
          (peak : A) (values : List A)
          → peak ≺ float_zero ≡ true
          → All (λ v. v ≼ peak ≡ true) values
          → drawdown_loop peak float_zero values ≡ ok float_zero
      unfolding drawdown_loop
      drawdown_loop-underwater peak [] neg below = refl
      drawdown_loop-underwater peak (v ∷ vs) neg (under, rest) =
          let rises : float_zero ≼ f.quotient (v ⊖ peak) peak ≡ true =
            signs.quotient_sign (v ⊖ peak) peak (signs.subtract_sign v peak under) neg in
          rw (maximum_keeps peak v under, divide_negative (v ⊖ peak) peak neg)
            (rw (minimum_stays _ rises) (drawdown_loop-underwater peak vs neg rest))

      -- A curve whose first value is below zero and that never rises above it has the drawdown
      -- zero, however far it falls.
      pub max_drawdown-underwater :
          (value : A) (values : List A)
          → value ≺ float_zero ≡ true
          → All (λ v. v ≼ value ≡ true) values
          → max_drawdown (value ∷ values) ≡ ok (some float_zero)
      unfolding max_drawdown
      max_drawdown-underwater value values neg below =
          ap (λ (r : Result A). r >>= λ worst. ok (some worst))
            (drawdown_loop-underwater value (value ∷ values) neg (o.at_most_refl value, below))

-- ===== src/Backtest/Metrics/Tests.antt =====
-- trader/backtest/metrics.py on small lists of trades, in fixed point.
use trader_pxg.Base.{
  ℕ, zero, ◌+◌, ◌≤◌, ◌≡◌, refl, ◌⊎◌, true, some, List, [], ◌∷◌, suc, arith, All, In, decimal,
  float_zero, ◌≼◌, ok, maximum, minimum, divide,
}
use trader_pxg.Base.Int.{ℤ, pos, negsuc, leb_ℤ, ltb_ℤ, ◌+ℤ◌, ◌-ℤ◌, ◌*ℤ◌}
use trader_pxg.Base.Fixed.{units, quotient_by, fixed, fixed-IsTotalOrder}
use trader_pxg.Backtest.Metrics.{
  ClosedTrade, Metrics, drawdown_loop, max_drawdown, build_daily_equity_curve, add_daily,
  daily_pnl_from, pnl_on, curve_from,
}
use trader_pxg.Backtest.Metrics.Drawdown.{
  KeepsSigns, declines, max_drawdown-least, max_drawdown-underwater,
}
use trader_pxg.Backtest.Metrics.Curve.{
  traded, day_total, cumulate, build_daily_equity_curve-cumulates,
}

abbrev dollars : ℕ → ℤ
dollars n = decimal n 0

abbrev trade : ℕ → ℤ → ClosedTrade ℤ
trade d pnl = record { pnl = pnl; fees = dollars 1; exit_date = d }

-- A gain, a loss and a gain; two on one day, and a day without a trade.
abbrev trades : List (ClosedTrade ℤ)
trades = trade 12 (dollars 30) ∷ trade 10 (pos 50_000_000) ∷ trade 12 (negsuc 19_999_999) ∷ []

curve :
    build_daily_equity_curve trades (dollars 100)
    ≡ dollars 100 ∷ dollars 150 ∷ dollars 150 ∷ dollars 160 ∷ []
unfolding build_daily_equity_curve daily_pnl_from curve_from add_daily pnl_on ◌+ℤ◌
curve = refl

fifth : max_drawdown (dollars 100 ∷ dollars 80 ∷ dollars 90 ∷ []) ≡ ok (some (negsuc 199_999))
unfolding max_drawdown drawdown_loop divide maximum minimum ◌-ℤ◌ ◌*ℤ◌
fifth = refl

scaled_sign : (a : ℤ) → leb_ℤ a (pos 0) ≡ true → leb_ℤ (a *ℤ pos units) (pos 0) ≡ true
unfolding ◌*ℤ◌
scaled_sign (pos n) h = ground arith
scaled_sign (negsuc n) h = ground arith

quotient_by-sign :
    (a b : ℤ)
    → leb_ℤ a (pos 0) ≡ true
    → ltb_ℤ b (pos 0) ≡ true
    → leb_ℤ (pos 0) (quotient_by a b) ≡ true
quotient_by-sign (pos n) (pos m) h k = ground arith
quotient_by-sign (pos zero) (negsuc m) h k = ground arith
quotient_by-sign (pos (suc n)) (negsuc m) h k = ground arith
quotient_by-sign (negsuc n) (pos m) h k = ground arith
quotient_by-sign (negsuc n) (negsuc m) h k = ground arith

fixed-KeepsSigns : KeepsSigns fixed
unfolding ◌-ℤ◌
fixed-KeepsSigns = record {
  subtract_sign = λ a b h. ground arith;
  quotient_sign = λ a b h k. quotient_by-sign (a *ℤ pos units) b (scaled_sign a h) k;
}

max_drawdown-least_example :
    (dd : ℤ) × (max_drawdown (dollars 100 ∷ dollars 80 ∷ []) ≡ ok (some dd))
    × (dd ≼ float_zero ≡ true)
    × All (λ d. dd ≼ d ≡ true) (declines (dollars 100) (dollars 100 ∷ dollars 80 ∷ []))
    × ((dd ≡ float_zero) ⊎ In dd (declines (dollars 100) (dollars 100 ∷ dollars 80 ∷ [])))
max_drawdown-least_example =
    max_drawdown-least fixed-IsTotalOrder (dollars 100) (dollars 80 ∷ []) refl

max_drawdown-underwater_example : max_drawdown (negsuc 9 ∷ negsuc 49 ∷ []) ≡ ok (some float_zero)
max_drawdown-underwater_example =
    max_drawdown-underwater fixed-IsTotalOrder fixed-KeepsSigns (negsuc 9) (negsuc 49 ∷ []) refl
      (refl, tt)

build_daily_equity_curve-cumulates_example :
    (first n : ℕ) × (build_daily_equity_curve trades (dollars 100)
      ≡ dollars 100 ∷ cumulate (day_total trades) (suc n) first (dollars 100))
    × (traded first trades ≡ true)
    × (traded (first + n) trades ≡ true)
    × ((d : ℕ) → traded d trades ≡ true → (first ≤ d) × (d ≤ first + n))
build_daily_equity_curve-cumulates_example =
    build_daily_equity_curve-cumulates (trade 12 (dollars 30))
      (trade 10 (pos 50_000_000) ∷ trade 12 (negsuc 19_999_999) ∷ []) (dollars 100)

-- ===== src/Backtest/Exits/Tests.antt =====
-- trader/backtest/exits.py at concrete bars, in fixed point.
use trader_pxg.Base.{ℕ, ◌≡◌, refl, false, none, some, [], ◌∷◌, decimal, negate, ok, find}
use trader_pxg.Base.Int.{ℤ, pos, ◌+ℤ◌, ◌-ℤ◌, ◌*ℤ◌}
use trader_pxg.Base.Fixed.{fixed, fixed-IsTotalOrder}
use trader_pxg.Backtest.Config.{ExitProfile}
use trader_pxg.Backtest.Fills.{worse_of_fill}
use trader_pxg.Backtest.Exits.{
  Bar, PositionState, stop, scale_out, open_state, evaluate_exit, updated_watermark, eod_flat_check,
  stop_check, trailing_check, scale_out_check, take_profit_check, time_stop_check,
}
use trader_pxg.Backtest.Exits.Order.{
  fired_reason, is_armed, reason_order, evaluate_exit-first_armed, open_state-IsLocked,
}
use trader_pxg.Backtest.Exits.Prices.{IsConservative, evaluate_exit-IsConservative}
use trader_pxg.Backtest.Exits.Watermark.{evaluate_exit-ignores_high}

abbrev dollars : ℕ → ℤ
dollars n = decimal n 0

-- Stop at -10%, a tranche at +10%, target at +20%, trailing 5%, at most 30 days.
abbrev profile : ExitProfile ℤ
profile = record {
  stop_pct = some (negate (decimal 10 2));
  tp_pct = some (decimal 20 2);
  scale_out = (decimal 10 2, decimal 50 2) ∷ [];
  trailing_pct = some (decimal 5 2);
  max_hold_days = some 30;
  eod_flat = false;
}

abbrev trailing_only : ExitProfile ℤ
trailing_only = record profile { tp_pct = none; scale_out = [] }

abbrev position : PositionState ℤ
position = open_state profile (dollars 100) (dollars 1)

-- A bar that reaches the stop and the target, after a gap below the stop.
abbrev wide_bar : Bar ℤ
wide_bar = record {
  bar_open = dollars 85;
  high = dollars 130;
  low = dollars 80;
  close = dollars 110;
  volume = dollars 0;
}

abbrev rising_bar : Bar ℤ
rising_bar = record wide_bar { bar_open = dollars 105; low = dollars 100; close = dollars 112 }

stop_wins_tie : fired_reason (evaluate_exit profile position wide_bar (pos 0) none) ≡ ok (some stop)
unfolding evaluate_exit open_state updated_watermark worse_of_fill eod_flat_check stop_check
    trailing_check scale_out_check take_profit_check time_stop_check ◌+ℤ◌ ◌-ℤ◌ ◌*ℤ◌
stop_wins_tie = refl

scale_out_first :
    fired_reason (evaluate_exit profile position rising_bar (pos 0) none) ≡ ok (some scale_out)
unfolding evaluate_exit open_state updated_watermark worse_of_fill eod_flat_check stop_check
    trailing_check scale_out_check take_profit_check time_stop_check ◌+ℤ◌ ◌-ℤ◌ ◌*ℤ◌
scale_out_first = refl

evaluate_exit-first_armed_example :
    fired_reason (evaluate_exit profile position wide_bar (pos 3) (some (dollars 100)))
    ≡ ok (find (is_armed profile position wide_bar (pos 3) (some (dollars 100))) reason_order)
evaluate_exit-first_armed_example =
    evaluate_exit-first_armed profile position wide_bar (pos 3) (some (dollars 100))
      (open_state-IsLocked profile (dollars 100) (dollars 1))

evaluate_exit-IsConservative_example :
    IsConservative profile position wide_bar
      (some (dollars 100))
      (evaluate_exit profile position wide_bar (pos 3) (some (dollars 100)))
evaluate_exit-IsConservative_example =
    evaluate_exit-IsConservative fixed-IsTotalOrder profile position wide_bar (some (dollars 100))
      (pos 3)

evaluate_exit-ignores_high_example :
    evaluate_exit trailing_only position (record rising_bar { high = dollars 500 }) (pos 3) none
    ≡ evaluate_exit trailing_only position rising_bar (pos 3) none
evaluate_exit-ignores_high_example =
    evaluate_exit-ignores_high trailing_only position rising_bar (dollars 500) (pos 3) none refl
      refl

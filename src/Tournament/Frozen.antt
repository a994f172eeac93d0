-- ===== src/Tournament/Frozen.antt =====
-- trader/tournament/frozen_config.py: the thresholds that were fixed before the first run.
use trader_pxg.Base.{ℕ, Float, decimal, float_zero}

abbrev pub min_trades_for_judging : ℕ
min_trades_for_judging = 30

abbrev pub judging_window_trades : ℕ
judging_window_trades = 30

abbrev pub demotion_sustain_evaluations : ℕ
demotion_sustain_evaluations = 4

abbrev pub max_active_strategies : ℕ
max_active_strategies = 20

abbrev pub max_new_entrants_per_quarter : ℕ
max_new_entrants_per_quarter = 12

module _ {A : Type 0} ⦃f : Float A⦄ where
  abbrev pub sharpe_promotion_floor : A
  sharpe_promotion_floor = float_zero

  abbrev pub sharpe_demotion_floor : A
  sharpe_demotion_floor = float_zero

  abbrev pub probation_size_multiplier : A
  probation_size_multiplier = decimal 25 2

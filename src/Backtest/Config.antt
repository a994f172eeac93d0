-- ===== src/Backtest/Config.antt =====
-- trader/backtest/config.py: the fee and slippage tables and the exit profile.
use trader_pxg.Base.{
  ℕ, String, Bool, false, Option, none, some, List, [], ◌==◌, if◌then◌else◌, Float, decimal, negate,
}

-- An entry of `FEE_TABLE`, by its "kind".
pub data FeeSpec (A : Type 0) : Type 0 where
  per_share : A → A → FeeSpec A
  taker_pct : A → FeeSpec A

-- `EXIT_PROFILE`; `scale_out` holds pairs of a gain and a fraction.
pub record ExitProfile (A : Type 0) : Type 0 where
  pub stop_pct : Option A
  pub tp_pct : Option A
  pub scale_out : List (A × A)
  pub trailing_pct : Option A
  pub max_hold_days : Option ℕ
  pub eod_flat : Bool

module _ {A : Type 0} ⦃f : Float A⦄ where
  -- `FEE_TABLE`; `none` is a missing key.
  abbrev pub fee_table : String → Option (FeeSpec A)
  fee_table asset_class =
      if asset_class == "stock"
      then some (per_share (decimal 5 3) (decimal 100 2))
      else if asset_class == "crypto_major"
      then some (taker_pct (decimal 26 4))
      else if asset_class == "memecoin"
      then some (taker_pct (decimal 26 4))
      else none

  -- `SLIPPAGE_PCT`, in percent.
  abbrev pub slippage_pct : String → Option A
  slippage_pct asset_class =
      if asset_class == "stock"
      then some (decimal 5 2)
      else if asset_class == "crypto_major"
      then some (decimal 10 2)
      else if asset_class == "memecoin"
      then some (decimal 40 1)
      else none

  abbrev pub default_notional : A
  default_notional = decimal 10_000 0

  abbrev pub profile_time_stop_1d : ExitProfile A
  profile_time_stop_1d = record {
    stop_pct = none;
    tp_pct = none;
    scale_out = [];
    trailing_pct = none;
    max_hold_days = some 1;
    eod_flat = false;
  }

  abbrev pub profile_momentum_placeholder : ExitProfile A
  profile_momentum_placeholder = record {
    stop_pct = some (negate (decimal 10 2));
    tp_pct = some (decimal 20 2);
    scale_out = [];
    trailing_pct = none;
    max_hold_days = some 30;
    eod_flat = false;
  }

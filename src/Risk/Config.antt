-- ===== src/Risk/Config.antt =====
-- trader/risk/config.py: the thresholds that the gate, the sizer and the breakers take.
use trader_pxg.Base.{ℕ, String, Option, Float, decimal, negate}
use trader_pxg.Backtest.Config.{slippage_pct}

-- The names that the functions read of their `config` argument.
pub record RiskConfig (A : Type 0) : Type 0 where
  pub liquidity_window_stock_days : ℕ
  pub liquidity_window_crypto_days : ℕ
  pub min_dollar_volume_stock : A
  pub min_quote_volume_crypto_major : A
  pub min_quote_volume_memecoin : A
  pub min_listing_age_days : ℕ
  pub max_spread_pct : String → Option A
  pub correlation_window_days : ℕ
  pub correlation_min_overlap : ℕ
  pub correlation_threshold : A
  pub sizer_top_n : ℕ
  pub sizer_volatility_window_days : ℕ
  pub sizer_single_position_cap : A
  pub sizer_memecoin_cap : A
  pub sizer_cash_reserve : A
  pub breaker_daily_loss_pct : A
  pub breaker_drawdown_pct : A
  pub breaker_consecutive_losses : ℕ

abbrev pub risk_config : {A : Type 0} ⦃f : Float A⦄ → RiskConfig A
risk_config = record {
  liquidity_window_stock_days = 20;
  liquidity_window_crypto_days = 7;
  min_dollar_volume_stock = decimal 1_000_000 0;
  min_quote_volume_crypto_major = decimal 5_000_000 0;
  min_quote_volume_memecoin = decimal 250_000 0;
  min_listing_age_days = 30;
  max_spread_pct = slippage_pct;
  correlation_window_days = 60;
  correlation_min_overlap = 30;
  correlation_threshold = decimal 8 1;
  sizer_top_n = 20;
  sizer_volatility_window_days = 20;
  sizer_single_position_cap = decimal 50 2;
  sizer_memecoin_cap = decimal 10 2;
  sizer_cash_reserve = decimal 10 2;
  breaker_daily_loss_pct = negate (decimal 3 2);
  breaker_drawdown_pct = negate (decimal 10 2);
  breaker_consecutive_losses = 6;
}

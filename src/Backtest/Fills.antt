-- ===== src/Backtest/Fills.antt =====
-- trader/backtest/fills.py: fees, slippage and fill prices.
use trader_pxg.Base.{
  String, Option, none, some, Float, decimal, float_one, ◌⊕◌, ◌⊖◌, ◌⊗◌, maximum, minimum, Result,
  ok, err, key_error, value_error, not_implemented, ◌>>=◌,
}
use trader_pxg.Backtest.Config.{FeeSpec, per_share, taker_pct, fee_table, slippage_pct}

-- The strings that the `side` arguments take; `other` is any further string.
pub data FillSide : Type 0 where
  buy sell sell_at_tp buy_at_tp : FillSide
  other : String → FillSide

-- `d[key]` on a dict whose lookup is given.
abbrev pub or_key_error : {A : Type 0} → Option A → Result A
or_key_error none = err key_error
or_key_error (some a) = ok a

module _ {A : Type 0} ⦃f : Float A⦄ where
  unfoldable pub charge : FeeSpec A → A → A → A
  unfolding maximum
  charge (per_share rate least) qty price = maximum (rate ⊗ qty) least
  charge (taker_pct rate) qty price = rate ⊗ qty ⊗ price

  unfoldable pub fee_for : String → A → A → Result A
  unfolding charge
  fee_for asset_class qty price = do
    spec ← or_key_error (fee_table asset_class)
    ok (charge spec qty price)

  -- The divisor is the literal 100.
  unfoldable pub slippage_pct_for : String → Result A
  slippage_pct_for asset_class = do
    pct ← or_key_error (slippage_pct asset_class)
    ok (f.quotient pct (decimal 100 0))

  abbrev pub slipped : FillSide → A → A → Result A
  slipped buy price pct = ok (price ⊗ (float_one ⊕ pct))
  slipped sell price pct = ok (price ⊗ (float_one ⊖ pct))
  slipped side price pct = err value_error

  unfoldable pub apply_slippage : A → FillSide → String → Result A
  unfolding slippage_pct_for
  apply_slippage price side asset_class = do
    pct ← slippage_pct_for asset_class
    slipped side price pct

  unfoldable pub entry_fill_price : A → String → FillSide → Result A
  unfolding apply_slippage
  entry_fill_price bar_open asset_class side = apply_slippage bar_open side asset_class

  unfoldable pub worse_of_fill : A → A → FillSide → Result A
  unfolding minimum
  worse_of_fill trigger_price bar_open sell = ok (minimum trigger_price bar_open)
  worse_of_fill trigger_price bar_open sell_at_tp = ok trigger_price
  worse_of_fill trigger_price bar_open buy = err not_implemented
  worse_of_fill trigger_price bar_open buy_at_tp = err not_implemented
  worse_of_fill trigger_price bar_open (other side) = err value_error

-- ===== src/Backtest/Metrics.antt =====
-- trader/backtest/metrics.py: profit factor, drawdown, the daily equity curve and the metrics of a
-- list of closed trades. A date is the number of its day, `date.toordinal`. `sum` adds from the
-- left, starting at zero.
pub mod Drawdown
pub mod Curve
pub mod Total
mod Tests
use mathlib.Core.List.{foldl}
use trader_pxg.Base.{
  ℕ, zero, suc, ◌+◌, ◌-◌, Option, none, some, List, [], ◌∷◌, map, length, ltb, leb, nat_eqb, not,
  keep_if, if◌then◌else◌, Float, decimal, float_zero, ◌⊕◌, ◌⊖◌, ◌⊗◌, ◌≺◌, ◌≈◌, negate, divide,
  maximum, minimum, Result, ok, err, ◌>>=◌, zero_division,
}

-- The fields of a trade's dict that the metrics read.
pub record ClosedTrade (A : Type 0) : Type 0 where
  pub pnl : A
  pub fees : A
  pub exit_date : ℕ

-- The dict that `compute_metrics` returns.
pub record Metrics (A : Type 0) : Type 0 where
  pub profit_factor : Option A
  pub sharpe_ratio : Option A
  pub max_drawdown : Option A
  pub win_rate : Option A
  pub avg_win : Option A
  pub avg_loss : Option A
  pub trade_count : ℕ
  pub total_fees_paid : A

module _ {A : Type 0} where
  -- The first and the last of the sorted dates.
  abbrev pub first_date : ℕ → List (ℕ × A) → ℕ
  first_date d [] = d
  first_date d ((e, _) ∷ days) = first_date (if ltb e d then e else d) days

  abbrev pub last_date : ℕ → List (ℕ × A) → ℕ
  last_date d [] = d
  last_date d ((e, _) ∷ days) = last_date (if ltb d e then e else d) days

module _ {A : Type 0} ⦃f : Float A⦄ where
  unfoldable pub sum : List A → A
  sum = foldl (λ acc x. acc ⊕ x) float_zero

  abbrev pub wins : List A → List A
  wins = keep_if (λ p. float_zero ≺ p)

  abbrev pub losses : List A → List A
  losses = keep_if (λ p. p ≺ float_zero)

  -- The test of the losses stands before the division, which raises on zero.
  unfoldable pub profit_factor : List A → Result (Option A)
  unfolding sum divide
  profit_factor [] = ok none
  profit_factor (p ∷ ps) =
      let gained = sum (wins (p ∷ ps)) in
      let lost = sum (map negate (losses (p ∷ ps))) in
      if lost ≈ float_zero
      then ok (if float_zero ≺ gained then some f.inf else none)
      else divide gained lost >>= λ quotient. ok (some quotient)

  -- The loop of `max_drawdown`, on the peak and the drawdown so far.
  unfoldable pub drawdown_loop : A → A → List A → Result A
  unfolding maximum minimum divide
  drawdown_loop peak worst [] = ok worst
  drawdown_loop peak worst (value ∷ values) = do
    drawdown ← divide (value ⊖ maximum peak value) (maximum peak value)
    drawdown_loop (maximum peak value) (minimum worst drawdown) values

  unfoldable pub max_drawdown : List A → Result (Option A)
  unfolding drawdown_loop
  max_drawdown [] = ok none
  max_drawdown (value ∷ values) = do
    worst ← drawdown_loop value float_zero (value ∷ values)
    ok (some worst)

  -- `daily_pnl[date] += pnl` on a dict of floats that default to zero.
  unfoldable pub add_daily : ℕ → A → List (ℕ × A) → List (ℕ × A)
  add_daily d pnl [] = (d, float_zero ⊕ pnl) ∷ []
  add_daily d pnl ((e, total) ∷ days) =
      if nat_eqb e d then (e, total ⊕ pnl) ∷ days else (e, total) ∷ add_daily d pnl days

  unfoldable pub daily_pnl_from : List (ℕ × A) → List (ClosedTrade A) → List (ℕ × A)
  unfolding add_daily
  daily_pnl_from days [] = days
  daily_pnl_from days (t ∷ ts) = daily_pnl_from (add_daily t.exit_date t.pnl days) ts

  -- `daily_pnl.get(d, 0.0)`
  unfoldable pub pnl_on : ℕ → List (ℕ × A) → A
  pnl_on d [] = float_zero
  pnl_on d ((e, total) ∷ days) = if nat_eqb e d then total else pnl_on d days

  -- One point for each of `n` days from `d` on.
  unfoldable pub curve_from : ℕ → ℕ → A → List (ℕ × A) → List A
  unfolding pnl_on
  curve_from zero d running days = []
  curve_from (suc n) d running days =
      let point = running ⊕ pnl_on d days in point ∷ curve_from n (d + 1) point days

  -- `while current <= last` runs once for each date of the range.
  unfoldable pub build_daily_equity_curve : List (ClosedTrade A) → A → List A
  unfolding daily_pnl_from curve_from
  build_daily_equity_curve [] starting_equity = starting_equity ∷ []
  build_daily_equity_curve (t ∷ ts) starting_equity =
      let days = daily_pnl_from [] (t ∷ ts) in
      let first = first_date t.exit_date days in
      let last = last_date t.exit_date days in
      starting_equity ∷ curve_from (last + 1 - first) first starting_equity days

  -- A day that follows a zero equity has no return.
  unfoldable pub daily_returns : List A → Result (List A)
  unfolding divide
  daily_returns [] = ok []
  daily_returns (a ∷ []) = ok []
  daily_returns (a ∷ b ∷ rest) =
      let later = daily_returns (b ∷ rest) in
      if a ≈ float_zero then later else divide (b ⊖ a) a >>= λ r. later >>= λ rs. ok (r ∷ rs)

  -- `rf` is zero in every call; the test of the deviation stands before the division.
  unfoldable pub sharpe_from_returns : List A → A → Result (Option A)
  unfolding divide
  sharpe_from_returns returns rf =
      let excess = map (λ r. r ⊖ rf) returns in
      if ltb (length returns) 2
      then ok none
      else if f.stdev excess ≈ float_zero
      then ok none
      else divide (f.mean excess) (f.stdev excess) >>= λ ratio.
          ok (some (ratio ⊗ f.square_root (decimal 252 0)))

  unfoldable pub sharpe_ratio : List A → Result (Option A)
  unfolding sharpe_from_returns
  sharpe_ratio returns = sharpe_from_returns returns float_zero

  abbrev pub mean_or_none : List A → Option A
  mean_or_none [] = none
  mean_or_none (x ∷ xs) = some (f.mean (x ∷ xs))

  -- `m / n` of two numbers of trades.
  abbrev pub divide_counts : ℕ → ℕ → Result A
  divide_counts m zero = err zero_division
  divide_counts m (suc n) = ok (f.quotient (decimal m 0) (decimal (suc n) 0))

  -- The dict of the last `return`, from the trades and what was computed of them.
  unfoldable pub metrics_of : List (ClosedTrade A) → Option A → Option A → Option A → A → Metrics A
  unfolding sum
  metrics_of trades gain_per_loss sharpe drawdown win_rate =
      let pnls = map (λ (x : ClosedTrade A). x.pnl) trades in
      record {
        profit_factor = gain_per_loss;
        sharpe_ratio = sharpe;
        max_drawdown = drawdown;
        win_rate = some win_rate;
        avg_win = mean_or_none (wins pnls);
        avg_loss = mean_or_none (losses pnls);
        trade_count = length trades;
        total_fees_paid = sum (map (λ (x : ClosedTrade A). x.fees) trades);
      }

  unfoldable pub compute_metrics : List (ClosedTrade A) → A → Result (Metrics A)
  unfolding max_drawdown build_daily_equity_curve metrics_of profit_factor daily_returns
      sharpe_ratio
  compute_metrics [] starting_equity = ok (record {
    profit_factor = none;
    sharpe_ratio = none;
    max_drawdown = none;
    win_rate = none;
    avg_win = none;
    avg_loss = none;
    trade_count = 0;
    total_fees_paid = float_zero;
  })
  compute_metrics (t ∷ ts) starting_equity =
      let pnls = map (λ (x : ClosedTrade A). x.pnl) (t ∷ ts) in
      let curve = build_daily_equity_curve (t ∷ ts) starting_equity in
      divide_counts (length (wins pnls)) (length (t ∷ ts)) >>= λ win_rate.
      daily_returns curve >>= λ returns. profit_factor pnls >>= λ gain_per_loss.
      sharpe_ratio returns >>= λ sharpe. max_drawdown curve >>= λ drawdown.
      ok (metrics_of (t ∷ ts) gain_per_loss sharpe drawdown win_rate)

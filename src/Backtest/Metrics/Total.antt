-- ===== src/Backtest/Metrics/Total.antt =====
-- The raises of `compute_metrics` of trader/backtest/metrics.py, for a positive starting equity.
use trader_pxg.Base.{
  ◌≡◌, refl, true, Option, none, some, List, [], ◌∷◌, length, Float, IsTotalOrder, float_zero, ◌≼◌,
  ◌≺◌, ◌≈◌, ◌⊖◌, ok, Bool-cases, inl, inr, map, negate, divide, ltb, if◌then◌else◌, decimal, ◌⊗◌,
}
use trader_pxg.Backtest.Metrics.{
  sum, wins, losses, profit_factor, daily_returns, sharpe_ratio, sharpe_from_returns, metrics_of,
  max_drawdown, ClosedTrade, Metrics, build_daily_equity_curve, compute_metrics,
}
use trader_pxg.Backtest.Metrics.Drawdown.{max_drawdown-least}

module _ {A : Type 0} ⦃f : Float A⦄ where
  abbrev pub IsDrawdown : Option A → Type 0
  IsDrawdown none = Unit
  IsDrawdown (some dd) = dd ≼ float_zero ≡ true

  pub profit_factor-total : (pnls : List A) → (pf : Option A) × (profit_factor pnls ≡ ok pf)
  unfolding profit_factor divide
  profit_factor-total [] = (none, refl)
  profit_factor-total (p ∷ ps) =
      let gained = sum (wins (p ∷ ps)) in
      let lost = sum (map negate (losses (p ∷ ps))) in
      elim (Bool-cases (lost ≈ float_zero)) [
        | inl e ↦ (if float_zero ≺ gained then some f.inf else none, rw e refl)
        | inr e ↦ (some (f.quotient gained lost), rw e refl)
      ]

  daily_returns-total : (curve : List A) → (rs : List A) × (daily_returns curve ≡ ok rs)
  unfolding daily_returns divide
  daily_returns-total [] = ([], refl)
  daily_returns-total (a ∷ []) = ([], refl)
  daily_returns-total (a ∷ b ∷ rest) =
      let (rs, later) = daily_returns-total (b ∷ rest) in
      elim (Bool-cases (a ≈ float_zero)) [
        | inl e ↦ (rs, rw e later)
        | inr e ↦ (f.quotient (b ⊖ a) a ∷ rs, rw (e, later) refl)
      ]

  sharpe_ratio-total : (returns : List A) → (sharpe : Option A) × (sharpe_ratio returns ≡ ok sharpe)
  unfolding sharpe_ratio sharpe_from_returns divide
  sharpe_ratio-total returns =
      let excess = map (λ r. r ⊖ float_zero) returns in
      elim (Bool-cases (ltb (length returns) 2)) [
        | inl few ↦ (none, rw few refl)
        | inr many ↦ elim (Bool-cases (f.stdev excess ≈ float_zero)) [
          | inl flat ↦ (none, rw (many, flat) refl)
          | inr e ↦ (
            some (f.quotient (f.mean excess) (f.stdev excess) ⊗ f.square_root (decimal 252 0)),
            rw (many, e) refl,
          )
        ]
      ]

  win_rate_of : ClosedTrade A → List (ClosedTrade A) → A
  win_rate_of t ts =
      f.quotient (decimal (length (wins (map (λ (x : ClosedTrade A). x.pnl) (t ∷ ts)))) 0)
        (decimal (length (t ∷ ts)) 0)

  -- The calls that make up the result, each of which returned.
  compute_metrics-eq :
      (t : ClosedTrade A) (ts : List (ClosedTrade A)) (starting_equity : A) (rs : List A)
      (pf sharpe : Option A) (dd : A)
      → daily_returns (build_daily_equity_curve (t ∷ ts) starting_equity) ≡ ok rs
      → profit_factor (map (λ (x : ClosedTrade A). x.pnl) (t ∷ ts)) ≡ ok pf
      → sharpe_ratio rs ≡ ok sharpe
      → max_drawdown (build_daily_equity_curve (t ∷ ts) starting_equity) ≡ ok (some dd)
      → compute_metrics (t ∷ ts) starting_equity
        ≡ ok (metrics_of (t ∷ ts) pf sharpe (some dd) (win_rate_of t ts))
  unfolding compute_metrics win_rate_of
  compute_metrics-eq t ts starting_equity rs pf sharpe dd returns factor ratio drawdown =
      rw (returns, factor, ratio, drawdown) refl

  pub compute_metrics-total :
      (o : IsTotalOrder f) (trades : List (ClosedTrade A)) (starting_equity : A)
      → float_zero ≺ starting_equity ≡ true
      → (m : Metrics A) × (compute_metrics trades starting_equity ≡ ok m)
        × (m.trade_count ≡ length trades)
        × IsDrawdown m.max_drawdown
  unfolding compute_metrics build_daily_equity_curve metrics_of
  compute_metrics-total o [] starting_equity pos = (_, refl, refl, tt)
  compute_metrics-total o (t ∷ ts) starting_equity pos =
      let (dd, drawdown, below, least, hit) = max_drawdown-least o starting_equity _ pos in
      let (rs, returns) = daily_returns-total (build_daily_equity_curve (t ∷ ts) starting_equity) in
      let (sharpe, ratio) = sharpe_ratio-total rs in
      let (pf, factor) = profit_factor-total (map (λ (x : ClosedTrade A). x.pnl) (t ∷ ts)) in
      (
        metrics_of (t ∷ ts) pf sharpe (some dd) (win_rate_of t ts),
        compute_metrics-eq t ts starting_equity rs pf sharpe dd returns factor ratio drawdown,
        refl,
        below,
      )

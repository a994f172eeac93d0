-- ===== src/Paper/Guardian/Kill.antt =====
-- The kill conditions of the live strategies and the breakers of the account, which
-- trader/paper/guardian.py evaluates in every tick.
use mathlib.Core.List.{map, reverse}
use trader_pxg.Base.{
  ℕ, String, Bool, not, ◌&&◌, Option, none, some, List, [], ◌∷◌, ltb, leb, length, sort_by,
  if◌then◌else◌, Float, ◌⊕◌, ◌≺◌, ◌≼◌, decimal, float_zero, Result, ok, err,
}
use trader_pxg.Backtest.Metrics.{profit_factor, max_drawdown}
use trader_pxg.Risk.Config.{risk_config}
use trader_pxg.Risk.Breakers.{
  Evaluation, BreakerType, daily_loss, drawdown, consecutive_loss, is_tripped, leading_losses,
  evaluate_breakers, read_breaker_state, record_breaker_transitions,
}
use trader_pxg.Paper.Store.{PaperTrade, KillReason, profit_factor_floor, consecutive_losses, Db}
use trader_pxg.Paper.Ledger.{get_recent_trades, is_strategy_retired, retire_strategy}
use trader_pxg.Paper.World.{
  Act, retired, breaker_tripped, pure, lift, gets, modify, notify, ◌>>=◌, ◌>>◌,
}

-- The columns of `LiveStrategyConfig` that the kill conditions read.
pub record LiveConfig (A : Type 0) : Type 0 where
  pub profile_name : String
  pub pf_floor : A
  pub max_dd_kill : A
  pub consecutive_loss_kill : ℕ

-- An entry of the list that is returned.
pub record Retired (A : Type 0) : Type 0 where
  pub strategy_id : String
  pub reason : KillReason
  pub trigger_value : A

module _ {A : Type 0} ⦃f : Float A⦄ where
  -- `running += pnl; equity_curve.append(running)`
  abbrev pub running_curve : A → List A → List A
  running_curve running [] = []
  running_curve running (pnl ∷ pnls) = (running ⊕ pnl) ∷ running_curve (running ⊕ pnl) pnls

  -- The tests in their order, on the profit factor, the drawdown (which can raise) and the count
  -- of the latest losses.
  abbrev pub after_drawdown : LiveConfig A → ℕ → Result (Option (KillReason × A))
  after_drawdown cfg losses =
      if leb cfg.consecutive_loss_kill losses
      then ok (some (consecutive_losses, decimal losses 0))
      else ok none

  abbrev pub after_profit_factor :
      LiveConfig A → Result (Option A) → ℕ → Result (Option (KillReason × A))
  after_profit_factor cfg (err e) losses = err e
  after_profit_factor cfg (ok none) losses = after_drawdown cfg losses
  after_profit_factor cfg (ok (some dd)) losses =
      if dd ≼ cfg.max_dd_kill
      then ok (some (KillReason.max_drawdown, dd))
      else after_drawdown cfg losses

  abbrev pub first_breach :
      LiveConfig A → Option A → Result (Option A) → ℕ → Result (Option (KillReason × A))
  first_breach cfg none dd losses = after_profit_factor cfg dd losses
  first_breach cfg (some pf) dd losses =
      if pf ≺ cfg.pf_floor
      then ok (some (profit_factor_floor, pf))
      else after_profit_factor cfg dd losses

  abbrev pub breach_of :
      LiveConfig A → Result (Option A) → Result (Option A) → ℕ → Result (Option (KillReason × A))
  breach_of cfg (err e) dd losses = err e
  breach_of cfg (ok pf) dd losses = first_breach cfg pf dd losses

  -- On profits with the newest first.
  unfoldable pub kill_reason : LiveConfig A → List A → Result (Option (KillReason × A))
  kill_reason cfg pnls =
      breach_of cfg (profit_factor pnls) (max_drawdown (running_curve float_zero (reverse pnls)))
        (leading_losses pnls)

  unfoldable pub retire : LiveConfig A → KillReason → A → Act A (Option (Retired A))
  unfolding retire_strategy
  retire cfg reason value = do
    modify (retire_strategy cfg.profile_name reason (some value))
    notify (retired cfg.profile_name reason (some value))
    pure (some (record { strategy_id = cfg.profile_name; reason = reason; trigger_value = value }))

  abbrev pub retire_if : LiveConfig A → Option (KillReason × A) → Act A (Option (Retired A))
  retire_if cfg none = pure none
  retire_if cfg (some (reason, value)) = retire cfg reason value

  -- The profits of the rolling window, newest first.
  abbrev pub window_of : LiveConfig A → Db A → List A
  window_of cfg db = map (λ (t : PaperTrade A). t.pnl) (get_recent_trades cfg.profile_name 30 db)

  -- One round of the loop over the live configs.
  unfoldable pub kill_check : LiveConfig A → Act A (Option (Retired A))
  unfolding kill_reason retire
  kill_check cfg = do
    is_retired ← gets (is_strategy_retired cfg.profile_name)
    pnls ← gets (window_of cfg)
    if is_retired
        then pure none
        else if ltb (length pnls) 30
        then pure none
        else (do decided ← lift (kill_reason cfg pnls); retire_if cfg decided)

  unfoldable pub evaluate_kill_conditions : List (LiveConfig A) → Act A (List (Retired A))
  unfolding kill_check
  evaluate_kill_conditions [] = pure []
  evaluate_kill_conditions (cfg ∷ cfgs) = do
    fired ← kill_check cfg
    rest ← evaluate_kill_conditions cfgs
    pure (elim fired [ none ↦ rest | some r ↦ r ∷ rest ])

  -- `ORDER BY exit_ts ASC`
  abbrev pub get_all_trades_chronological : Db A → List (PaperTrade A)
  get_all_trades_chronological db =
      sort_by (λ (a b : PaperTrade A). leb a.exit_ts b.exit_ts) db.trades

  abbrev pub paper_account_equity : A
  paper_account_equity = decimal 100_000 0

  abbrev pub tripped_by : Evaluation A → BreakerType → Bool
  tripped_by evaluation daily_loss = evaluation.daily_loss_tripped
  tripped_by evaluation drawdown = evaluation.drawdown_tripped
  tripped_by evaluation consecutive_loss = evaluation.consecutive_loss_tripped

  -- An alert for a breaker that trips now.
  abbrev pub alert_trip : Db A → Evaluation A → BreakerType → Act A (Unit {0})
  alert_trip before evaluation t =
      if not (is_tripped (read_breaker_state before.breaker_events t)) && tripped_by evaluation t
      then notify (breaker_tripped t)
      else pure tt

  unfoldable pub evaluate_account_breakers : ℕ → Act A (Evaluation A)
  evaluate_account_breakers now = do
    before ← gets (λ db. db)
    let pnls = map (λ (t : PaperTrade A). t.pnl) (get_all_trades_chronological before)
    evaluation ← lift (
        evaluate_breakers (paper_account_equity ∷ running_curve paper_account_equity pnls) pnls
          risk_config)
    alert_trip before evaluation daily_loss
    alert_trip before evaluation drawdown
    alert_trip before evaluation consecutive_loss
    modify (λ db. record db {
      breaker_events =
          record_breaker_transitions now (read_breaker_state before.breaker_events) evaluation
            db.breaker_events;
    })
    pure evaluation

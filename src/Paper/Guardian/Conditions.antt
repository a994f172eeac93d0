-- ===== src/Paper/Guardian/Conditions.antt =====
-- The three kill conditions of trader/paper/guardian.py, and the account's breakers.
use mathlib.Core.List.{reverse}
use trader_pxg.Base.{
  ℕ, ◌≡◌, true, false, Option, none, some, List, arith, leb, Float, decimal, float_zero, ◌≺◌, ◌≼◌,
  Result, ok, err, Error,
}
use trader_pxg.Backtest.Metrics.{profit_factor, max_drawdown}
use trader_pxg.Backtest.Metrics.Total.{profit_factor-total}
use trader_pxg.Risk.Breakers.{leading_losses}
use trader_pxg.Paper.Store.{
  KillReason, profit_factor_floor, consecutive_losses, tournament_demotion,
}
use trader_pxg.Paper.Guardian.Kill.{LiveConfig, running_curve, first_breach, kill_reason}

module _ {A : Type 0} ⦃f : Float A⦄ where
  -- What each reason says of a profit factor, a drawdown and a count of losses.
  abbrev pub IsBreachOf :
      LiveConfig A → Result (Option A) → Result (Option A) → ℕ → KillReason → A → Type 0
  IsBreachOf cfg pf dd losses profit_factor_floor value =
      (pf ≡ ok (some value)) × (value ≺ cfg.pf_floor ≡ true)
  IsBreachOf cfg pf dd losses KillReason.max_drawdown value =
      (dd ≡ ok (some value)) × (value ≼ cfg.max_dd_kill ≡ true)
  IsBreachOf cfg pf dd losses consecutive_losses value =
      (leb cfg.consecutive_loss_kill losses ≡ true) × (value ≡ decimal losses 0)
  IsBreachOf cfg pf dd losses tournament_demotion value = true ≡ false

  -- The same of a window of profits, newest first.
  abbrev pub IsBreach : LiveConfig A → List A → KillReason → A → Type 0
  IsBreach cfg pnls =
      IsBreachOf cfg (profit_factor pnls) (max_drawdown (running_curve float_zero (reverse pnls)))
        (leading_losses pnls)

  named-IsBreachOf :
      (cfg : LiveConfig A) (pf : Option A) (dd : Result (Option A)) (losses : ℕ)
      (reason : KillReason) (value : A)
      → first_breach cfg pf dd losses ≡ ok (some (reason, value))
      → IsBreachOf cfg (ok pf) dd losses reason value
  named-IsBreachOf cfg pf dd losses profit_factor_floor value h = ground arith
  named-IsBreachOf cfg pf dd losses KillReason.max_drawdown value h = ground arith
  named-IsBreachOf cfg pf dd losses consecutive_losses value h = ground arith
  named-IsBreachOf cfg pf dd losses tournament_demotion value h = ground arith

  none-IsBreachOf :
      (cfg : LiveConfig A) (pf : Option A) (dd : Result (Option A)) (losses : ℕ)
      (reason : KillReason) (value : A)
      → first_breach cfg pf dd losses ≡ ok none
      → IsBreachOf cfg (ok pf) dd losses reason value
      → true ≡ false
  none-IsBreachOf cfg pf dd losses profit_factor_floor value h breach = ground arith
  none-IsBreachOf cfg pf dd losses KillReason.max_drawdown value h breach = ground arith
  none-IsBreachOf cfg pf dd losses consecutive_losses value h breach = ground arith
  none-IsBreachOf cfg pf dd losses tournament_demotion value h breach = breach

  err-first_breach :
      (cfg : LiveConfig A) (pf : Option A) (dd : Result (Option A)) (losses : ℕ) (e : Error)
      → first_breach cfg pf dd losses ≡ err e
      → dd ≡ err e
  err-first_breach cfg pf dd losses e h = ground arith

  -- The kill decision names a condition that the window breaches, with the value that breaches it;
  -- when it names none, the window breaches none; and it raises only where the drawdown does.
  pub kill_reason-IsBreach :
      (cfg : LiveConfig A) (pnls : List A)
      → ((reason : KillReason) (value : A)
          → kill_reason cfg pnls ≡ ok (some (reason, value))
          → IsBreach cfg pnls reason value)
        × (kill_reason cfg pnls ≡ ok none
            → (reason : KillReason) (value : A) → IsBreach cfg pnls reason value
            → true ≡ false)
        × ((e : Error)
            → kill_reason cfg pnls ≡ err e
            → max_drawdown (running_curve float_zero (reverse pnls)) ≡ err e)
  unfolding kill_reason
  kill_reason-IsBreach cfg pnls =
      let (pf, factor) = profit_factor-total pnls in
      let dd = max_drawdown (running_curve float_zero (reverse pnls)) in
      let losses = leading_losses pnls in
      rw factor (
        named-IsBreachOf cfg pf dd losses,
        λ h reason value breach. none-IsBreachOf cfg pf dd losses reason value h breach,
        err-first_breach cfg pf dd losses,
      )

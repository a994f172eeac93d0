-- ===== src/Paper/Guardian/Tests.antt =====
-- trader/paper/guardian.py on the account of Fixture.antt: a stop that fires, a broker that is down.
use mathlib.Core.List.{reverse}
use trader_pxg.Base.{
  divide, maximum, ◌+◌, ◌≡◌, refl, true, false, ◌⊎◌, none, some, [], ◌∷◌, here, Error, ok, err,
  float_zero, decimal,
}
use trader_pxg.Base.Int.{ℤ, negsuc, ◌-ℤ◌, ◌*ℤ◌, ◌+ℤ◌}
use trader_pxg.Base.Fixed.{fixed}
use trader_pxg.Backtest.Metrics.{max_drawdown}
use trader_pxg.Paper.Store.{sell, KillReason, day_of}
use trader_pxg.Paper.Idempotency.{build_order_ref}
use trader_pxg.Paper.Ledger.{get_unresolved_orders}
use trader_pxg.Paper.Ledger.Positions.{IsBooked}
use trader_pxg.Paper.Guardian.{Today, submit_exit, exit_order}
use trader_pxg.Paper.Guardian.Limits.{sell_call, submit_exit-sends}
use trader_pxg.Paper.Guardian.InFlight.{submit_exit-once}
use trader_pxg.Paper.Guardian.Books.{IsSettled, submit_exit-books}
use trader_pxg.Paper.Guardian.Persist.{IsPersisted}
use trader_pxg.Paper.Guardian.Kill.{LiveConfig, kill_reason, running_curve}
use trader_pxg.Paper.Guardian.Conditions.{IsBreach, kill_reason-IsBreach}
use trader_pxg.Paper.Guardian.Tick.{run_guardian_once}
use trader_pxg.Paper.Guardian.Once.{run_guardian_once-IsPersisted}
use trader_pxg.Risk.Config.{risk_config}
use trader_pxg.Risk.Breakers.{
  Evaluation, evaluation_of, daily_loss, drawdown, consecutive_loss, evaluate_breakers,
  daily_loss_of, drawdown_of, highest, leading_losses,
}
use trader_pxg.Paper.World.{World}
use trader_pxg.Paper.Ledger.{trade_of}
use trader_pxg.Paper.Guardian.Kill.{evaluate_account_breakers}
use trader_pxg.Paper.Guardian.Alerts.{alerted, trips_between, evaluate_account_breakers-alerts}
use trader_pxg.Paper.Fixture.{dollars, noon, holding, account, quiet, taking, down, today, stopped}

abbrev tomorrow : Today
tomorrow = record { ordinal = day_of noon + 1; iso = "e"; is_trading_day = true }

abbrev config : LiveConfig ℤ
config = record {
  profile_name = "s";
  pf_floor = decimal 1 0;
  max_dd_kill = negsuc 99_999;
  consecutive_loss_kill = 5;
}

submit_exit-sends_example :
    let after = (submit_exit taking today noon [] holding stopped (dollars 80) quiet).1 in
    (after.placed ≡ [])
    ⊎ (get_unresolved_orders "s" "ACME" sell account ≡ [])
      × (true ≡ true)
      × (after.placed
          ≡ sell_call holding (exit_order noon today holding stopped.reason).order_ref ∷ [])
submit_exit-sends_example =
    submit_exit-sends taking today noon [] holding stopped (dollars 80) quiet

submit_exit-once_example :
    let attempted = (submit_exit down today noon [] holding stopped (dollars 80) quiet).1 in
    (submit_exit taking tomorrow noon [] holding stopped (dollars 79) attempted).1.placed
    ≡ attempted.placed
unfolding get_unresolved_orders build_order_ref
submit_exit-once_example =
    submit_exit-once down taking today tomorrow noon noon [] [] holding holding stopped stopped
      (dollars 80) (dollars 79) quiet refl refl refl refl refl

submit_exit-books_example :
    IsBooked (submit_exit taking today noon [] holding stopped (dollars 80) quiet).1.db
    × IsSettled account holding
        (submit_exit taking today noon [] holding stopped (dollars 80) quiet)
submit_exit-books_example =
    submit_exit-books taking today noon [] holding stopped (dollars 80) quiet
      (record { numbered = (refl, tt); one_trade_each = refl }) here refl

run_guardian_once-IsPersisted_example :
    IsPersisted (run_guardian_once taking (config ∷ []) today noon none quiet).1
run_guardian_once-IsPersisted_example =
    run_guardian_once-IsPersisted taking (config ∷ []) today noon none quiet ((refl, tt), tt)

kill_reason-IsBreach_example :
    let pnls = dollars 4 ∷ negsuc 2_999_999 ∷ [] in
    ((reason : KillReason) (value : ℤ)
      → kill_reason config pnls ≡ ok (some (reason, value))
      → IsBreach config pnls reason value)
    × (kill_reason config pnls ≡ ok none
        → (reason : KillReason) (value : ℤ) → IsBreach config pnls reason value
        → true ≡ false)
    × ((e : Error)
        → kill_reason config pnls ≡ err e
        → max_drawdown (running_curve float_zero (reverse pnls)) ≡ err e)
kill_reason-IsBreach_example = kill_reason-IsBreach config (dollars 4 ∷ negsuc 2_999_999 ∷ [])

-- The account after a trade that lost a fifth of it.
abbrev beaten : World ℤ
beaten = record quiet {
  db = record account {
    trades =
        record (trade_of holding (record {
          exit_ts = noon;
          exit_price = dollars 80;
          exit_reason = stopped.reason;
          exit_order_ref = "r";
          fees = dollars 1;
          slippage_cost = dollars 0;
          pnl = negsuc 19_999_999_999;
        })) { qty = dollars 10 }
        ∷ [];
  };
}

abbrev beaten_evaluation : Evaluation ℤ
beaten_evaluation = evaluation_of (some (negsuc 199_999)) (some (negsuc 199_999)) 1 risk_config

evaluate_account_breakers-alerts_example :
    let (r, after) = evaluate_account_breakers noon beaten in
    let trips = trips_between [] after.db.breaker_events in
    (r ≡ ok beaten_evaluation)
    × (after.db ≡ record beaten.db { breaker_events = after.db.breaker_events })
    × (after.placed ≡ [])
    × (after.notices
        ≡ alerted
            (trips consecutive_loss)
            consecutive_loss
            (alerted (trips drawdown) drawdown (alerted (trips daily_loss) daily_loss [])))
unfolding evaluate_breakers daily_loss_of drawdown_of highest leading_losses divide maximum ◌-ℤ◌
    ◌*ℤ◌ ◌+ℤ◌
evaluate_account_breakers-alerts_example =
    evaluate_account_breakers-alerts noon beaten beaten_evaluation refl

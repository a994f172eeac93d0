-- ===== src/Paper/Ledger/Tests.antt =====
-- trader/paper/ledger.py on the account of Fixture.antt.
use trader_pxg.Base.{◌≡◌, refl, [], ◌∷◌, keep_if}
use trader_pxg.Base.Int.{ℤ}
use trader_pxg.Base.Fixed.{fixed}
use trader_pxg.Base.Sorting.{IsSorted}
use trader_pxg.Backtest.Exits.{stop}
use trader_pxg.Paper.Store.{sell, pending_submit, Order, Db}
use trader_pxg.Paper.Ledger.{Exit, get_unresolved_orders, get_all_unresolved_orders}
use trader_pxg.Paper.Ledger.Scope.{in_scope, unresolved-scoped}
use trader_pxg.Paper.Ledger.Positions.{IsBooked}
use trader_pxg.Paper.Fixture.{dollars, noon, bought, selling, account}

-- The account with the sell order in the table.
abbrev in_flight : Db ℤ
in_flight = record account { orders = bought ∷ selling ∷ [] }

abbrev decided : Order ℤ
decided = record selling { status = pending_submit }

account-IsBooked : IsBooked account
account-IsBooked = record { numbered = (refl, tt); one_trade_each = refl }

abbrev leaving : Exit ℤ
leaving = record {
  exit_ts = noon;
  exit_price = dollars 80;
  exit_reason = stop;
  exit_order_ref = "s:ACME:d:sell:exit_stop";
  fees = dollars 1;
  slippage_cost = dollars 0;
  pnl = dollars 0;
}

unresolved-scoped_example :
    (get_unresolved_orders "s" "ACME" sell in_flight
      ≡ keep_if (in_scope "s" "ACME" sell) (get_all_unresolved_orders in_flight))
    × IsSorted (λ (row : Order ℤ). row.submitted_ts) (get_all_unresolved_orders in_flight)
    × IsSorted
        (λ (row : Order ℤ). row.submitted_ts)
        (get_unresolved_orders "s" "ACME" sell in_flight)
unresolved-scoped_example = unresolved-scoped "s" "ACME" sell in_flight

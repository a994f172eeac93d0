-- ===== src/Paper/Fixture.antt =====
-- A small account for the tests of trader/paper: one open stock position, in fixed point.
use trader_pxg.Base.{ℕ, true, none, some, [], ◌∷◌, ok, err, decimal, broker_error, runtime_error}
use trader_pxg.Base.Int.{ℤ}
use trader_pxg.Base.Fixed.{fixed}
use trader_pxg.Backtest.Config.{profile_momentum_placeholder}
use trader_pxg.Backtest.Exits.{ExitResult, stop}
use trader_pxg.Risk.Breakers.{BreakerEvent, drawdown, trip, system}
use trader_pxg.Paper.Store.{
  ibkr_paper, buy, sell, entry, exit_stop, filled, submitted, Order, Position, Db, day_of,
}
use trader_pxg.Paper.Ledger.{new_order}
use trader_pxg.Paper.World.{World, Broker}
use trader_pxg.Paper.Guardian.{Today}

abbrev pub dollars : ℕ → ℤ
dollars n = decimal n 0

abbrev pub noon : ℕ
noon = 63_900_000_000_000_000

abbrev pub bought : Order ℤ
bought =
    record (new_order noon "s:ACME:d:buy:entry" "s" "ACME" ibkr_paper buy entry (dollars 10)
      (some 7) filled) { fill_price = some (dollars 100) }

abbrev pub selling : Order ℤ
selling =
    new_order noon "s:ACME:d:sell:exit_stop" "s" "ACME" ibkr_paper sell exit_stop (dollars 10) none
      submitted

abbrev pub holding : Position ℤ
holding = record {
  position_id = 1;
  strategy_id = "s";
  symbol = "ACME";
  venue = ibkr_paper;
  asset_class = "stock";
  qty = dollars 10;
  entry_price = dollars 100;
  entry_ts = noon;
  entry_order_ref = "s:ACME:d:buy:entry";
  exit_profile = profile_momentum_placeholder;
  watermark = none;
  is_open = true;
}

abbrev pub tripped_event : BreakerEvent ℤ
tripped_event = record {
  ts = noon;
  breaker_type = drawdown;
  action = trip;
  trigger_value = none;
  reason = none;
  actor = system;
}

abbrev pub account : Db ℤ
account = record {
  orders = bought ∷ [];
  positions = holding ∷ [];
  trades = [];
  reconciliation_log = [];
  kill_state = [];
  breaker_events = [];
  bars = [];
}

abbrev pub quiet : World ℤ
quiet = record { db = account; placed = []; notices = [] }

-- A broker that takes an order, and one that is down.
abbrev pub taking : Broker ℤ
taking = record {
  place_order = λ order. ok 8;
  latest_price = λ symbol. ok (dollars 80);
  fetch_price = λ symbol. err runtime_error;
  fills = [];
  positions = ok (("ACME", dollars 10) ∷ []);
}

abbrev pub down : Broker ℤ
down = record taking { place_order = λ order. err broker_error }

abbrev pub today : Today
today = record { ordinal = day_of noon; iso = "d"; is_trading_day = true }

abbrev pub stopped : ExitResult ℤ
stopped = record {
  reason = stop;
  raw_price = dollars 80;
  exit_fraction = dollars 1;
  new_watermark = none;
}

-- ===== src/Paper/Crypto/Tests.antt =====
-- The theorem on trader/paper/crypto_entry_pipeline.py at a market where one coin fires.
use trader_pxg.Base.{length, ℕ, zero, suc, ◌≡◌, refl, true, List, [], ◌∷◌, decimal, negate, ok}
use trader_pxg.Base.Int.{ℤ, ◌+ℤ◌, ◌*ℤ◌, ◌-ℤ◌}
use trader_pxg.Base.Fixed.{fixed}
use trader_pxg.Backtest.Config.{profile_momentum_placeholder}
use trader_pxg.Backtest.Fills.{apply_slippage, fee_for}
use trader_pxg.Risk.Gate.{DailyBar}
use trader_pxg.Risk.Breakers.{read_breaker_state}
use trader_pxg.Paper.Idempotency.{build_order_ref}
use trader_pxg.Paper.Ledger.{insert_order, get_open_positions, get_unresolved_orders}
use trader_pxg.Paper.World.{World, Broker, ◌>>=◌}
use trader_pxg.Paper.Reconcile.{is_entry_halted}
use trader_pxg.Paper.Store.{Candle}
use trader_pxg.Paper.Bars.{Exchange}
use trader_pxg.Paper.Signals.{Timeframe}
use trader_pxg.Paper.Fixture.{account, tripped_event, dollars, noon, quiet, taking, today}
use trader_pxg.Paper.Entry.{Market}
use trader_pxg.Paper.Crypto.{entered_simulated, run_crypto_entry_once}
use trader_pxg.Tournament.Registry.{full}
use trader_pxg.Tournament.Live.{LiveStrategy}

abbrev month_of : DailyBar ℤ → ℕ → List (DailyBar ℤ)
month_of bar zero = []
month_of bar (suc n) = bar ∷ month_of bar n

abbrev coin_market : Timeframe → Market ℤ
coin_market timeframe = record {
  pick_entries = λ family variant held. "COIN" ∷ [];
  rsi = λ symbol. decimal 60 0;
  volatility = λ symbol. decimal 1 0;
  bars =
      λ symbol. month_of (record { ts = 1; close = decimal 50 0; volume = decimal 1_000_000 0 }) 40;
  median = λ xs. decimal 50_000_000 0;
  correlation = λ pairs. decimal 0 0;
  sha256 = λ symbol. 5;
  text_le = λ a b. true;
}

abbrev coin_live : LiveStrategy ℤ
coin_live = record {
  strategy_id = "donchian_crypto_major_legacy_meme";
  profile_name = "c";
  exit_profile = profile_momentum_placeholder;
  pf_floor = decimal 9 1;
  max_dd_kill = negate (decimal 7 2);
  consecutive_loss_kill = 8;
  state = full;
  entry_variant = "sys1";
}

abbrev priced : Broker ℤ
priced = record taking { fetch_price = λ symbol. ok (dollars 50) }

abbrev candle : Candle ℤ
candle = record {
  ts = 5;
  o = dollars 50;
  h = dollars 50;
  l = dollars 50;
  c = dollars 50;
  volume = dollars 1;
}

-- It has a daily candle of every coin, and no hourly one.
abbrev listing : Exchange ℤ
listing = record { fetch_hourly = λ symbol since. ok []; fetch_daily = λ symbol. ok (candle ∷ []) }

-- The quiet account after a trip of the drawdown breaker, which halts entries.
abbrev tripped : World ℤ
tripped = record quiet { db = record account { breaker_events = tripped_event ∷ [] } }

-- While entries are halted, the run leaves the daily candles that it fetched in the cache.
halted_run :
    (length
        (run_crypto_entry_once priced listing coin_market
          (coin_live ∷ [])
          today
          "h"
          noon
          tripped).1.db.bars
      ≡ 4)
    × (is_entry_halted tripped.db ≡ true)
unfolding run_crypto_entry_once ◌>>=◌ get_open_positions ◌+ℤ◌ get_unresolved_orders
    read_breaker_state ◌*ℤ◌ ◌-ℤ◌ insert_order build_order_ref apply_slippage fee_for
halted_run = (refl, refl)

simulated_run :
    (run_crypto_entry_once priced listing coin_market (coin_live ∷ []) today "h" noon quiet).0
    ≡ ok (entered_simulated 1 1 ("c:COIN:d:buy:entry" ∷ []))
unfolding run_crypto_entry_once ◌>>=◌ get_open_positions ◌+ℤ◌ get_unresolved_orders
    read_breaker_state ◌*ℤ◌ ◌-ℤ◌ insert_order build_order_ref apply_slippage fee_for
simulated_run = refl

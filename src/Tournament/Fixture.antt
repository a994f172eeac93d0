-- ===== src/Tournament/Fixture.antt =====
-- A small roster for the tests of trader/tournament: an incumbent, and an entrant that is approved.
use trader_pxg.Base.{none, some, [], ◌∷◌, negate, decimal}
use trader_pxg.Base.Int.{ℤ}
use trader_pxg.Base.Fixed.{fixed}
use trader_pxg.Backtest.Config.{profile_momentum_placeholder}
use trader_pxg.Paper.Fixture.{account}
use trader_pxg.Tournament.Registry.{Moment, full, stated, Entrant, Roster}
use trader_pxg.Tournament.Pipeline.{new_candidate, entered, stamped, set_backtest, set_oos}
use trader_pxg.Tournament.Entrant.{Survivor, profile_of}

abbrev pub july : Moment
july = record { year = 2026; month = 7; day = 5; clock = 120_000 }

abbrev pub incumbent : Entrant ℤ
incumbent =
    record (new_candidate "old" "momentum_stock" profile_momentum_placeholder (decimal 9 1)
      (negate (decimal 7 2)) 8 july "loose") { oos_result_ref = some "oos_v2"; state = full }

abbrev pub founded : Roster ℤ
founded = record {
  registry = incumbent ∷ [];
  transitions =
      record {
        ts = july;
        profile_name = "old";
        from_state = none;
        to_state = full;
        reason = stated "seed";
        run_id = none;
      }
      ∷ [];
  paper = account;
}

abbrev pub survivor : Survivor ℤ
survivor = record {
  profile_name = "new";
  strategy_id = "donchian_stock";
  entry_variant = "sys1";
  stop_pct = none;
  tp_pct = none;
  trailing_pct = none;
  max_hold_days = some 30;
  pf_floor = decimal 9 1;
  max_dd_kill = negate (decimal 7 2);
  consecutive_loss_kill = 8;
  backtest_run_id = 3;
  oos_result_ref = "oos_d";
}

abbrev pub entrant : Entrant ℤ
entrant =
    new_candidate "new" "donchian_stock" (profile_of survivor) (decimal 9 1) (negate (decimal 7 2))
      8 july "sys1"

abbrev pub enlisted : Roster ℤ
enlisted = entered entrant (stated "owner") founded

abbrev pub tested : Roster ℤ
tested = stamped "new" (set_backtest 3) enlisted

abbrev pub proven : Roster ℤ
proven = stamped "new" (set_oos "oos_d") tested

-- ===== src/Tournament/Judge/Tests.antt =====
-- The theorems on trader/tournament/judge.py at a run with two full strategies and a candidate.
use trader_pxg.Base.{
  ℕ, zero, suc, String, Bool, true, ◌≡◌, refl, none, some, List, [], ◌∷◌, ◌++◌, map, keep_if, All,
  negate, decimal, ok, value_or,
}
use trader_pxg.Base.Int.{ℤ, ◌+ℤ◌, ◌-ℤ◌, ◌*ℤ◌}
use trader_pxg.Base.Fixed.{fixed, fixed-IsTotalOrder}
use trader_pxg.Backtest.Exits.{take_profit}
use trader_pxg.Paper.Store.{PaperTrade}
use trader_pxg.Paper.Ledger.{trade_of, get_recent_trades}
use trader_pxg.Paper.Fixture.{account, holding, noon, dollars}
use trader_pxg.Tournament.Registry.{State, full, Roster, get_row, get_registry_rows, is_live}
use trader_pxg.Backtest.Metrics.{compute_metrics}
use trader_pxg.Tournament.Pipeline
use trader_pxg.Tournament.Pipeline.{
  stamped, entered, set_backtest, set_oos, transition, moved, active_count, entrants_this_quarter,
  quarter_start, promote_to_probation,
}
use trader_pxg.Tournament.Pipeline.Steps.{Calls}
use trader_pxg.Tournament.Fixture.{july, incumbent, proven}
use trader_pxg.Tournament.Judge.{
  hold, retire, enter, Judged, judge_strategy, demotion_strike, Decision, Recorded, is_eligible,
}
use trader_pxg.Tournament.Judge.Run.{
  Bench, RunSummary, judge_all, is_candidate, run_tournament_once,
}
use trader_pxg.Tournament.Judge.Reached.{run_tournament_once-Calls}
use trader_pxg.Tournament.Judge.Demotion.{IsDue, run_tournament_once-IsDue}
use trader_pxg.Tournament.Judge.Settled.{IsStated, names_of}
use trader_pxg.Tournament.Judge.Rows.{entrant_names}
use trader_pxg.Tournament.Judge.Whole.{run_tournament_once-settles}

abbrev trade_with : String → ℤ → PaperTrade ℤ
trade_with name pnl =
    trade_of (record holding { strategy_id = name })
      (record {
        exit_ts = noon;
        exit_price = dollars 120;
        exit_reason = take_profit;
        exit_order_ref = "x";
        fees = decimal 0 0;
        slippage_cost = decimal 0 0;
        pnl = pnl;
      })

abbrev copies : ℕ → PaperTrade ℤ → List (PaperTrade ℤ)
copies zero trade = []
copies (suc n) trade = trade ∷ copies n trade

-- The incumbent has lost in all of its trades, its rival has won in all of its own.
abbrev contest : Roster ℤ
contest = record proven {
  registry = record incumbent { profile_name = "rival" } ∷ proven.registry;
  paper = record account {
    trades =
        copies 30 (trade_with "old" (negate (dollars 20)))
        ++ copies 30 (trade_with "rival" (dollars 20));
  };
}

abbrev struck : ℕ → Recorded ℤ
struck run_id = record {
  run_id = run_id;
  decided = record {
    profile_name = "old";
    decision = hold;
    prior_state = full;
    new_state = full;
    sharpe = none;
    profit_factor = none;
    trade_count = some 30;
    rank = some 2;
    demotion_strike = true;
    rule_citation = demotion_strike 1 2 2 none;
  };
}

abbrev bench : Bench ℤ
bench = record { roster = contest; runs = []; decisions = struck 3 ∷ struck 2 ∷ struck 1 ∷ [] }

abbrev digest : List (String × State) → String
digest states = "h"

abbrev any_order : String → String → Bool
any_order a b = true

run_tournament_once-Calls_example :
    Calls contest (run_tournament_once true digest any_order july bench).0.roster
run_tournament_once-Calls_example = run_tournament_once-Calls true digest any_order july bench

run_tournament_once-settles_example :
    (after : Bench ℤ) × (s : RunSummary ℤ) × (run_tournament_once true digest any_order july bench
      ≡ (after, ok s))
    × (names_of s.decisions
        ≡ entrant_names (keep_if is_live (get_registry_rows any_order contest))
          ++ entrant_names (keep_if is_candidate (get_registry_rows any_order contest)))
    × All (IsStated after.roster) s.decisions
unfolding stamped entered set_backtest set_oos
run_tournament_once-settles_example =
    run_tournament_once-settles fixed-IsTotalOrder digest any_order july bench refl
      (refl, (refl, (refl, tt)))

abbrev measured : List (Judged ℤ)
measured =
    value_or [] (judge_all contest.paper (keep_if is_live (get_registry_rows any_order contest)))

abbrev unsummarized : RunSummary ℤ
unsummarized = record {
  run_id = 0;
  decisions = [];
  counts = record { promoted = 0; retired = 0; held = 0; entered = 0 };
  registry_hash_before = "";
  registry_hash_after = "";
}

abbrev summary : RunSummary ℤ
summary = value_or unsummarized (run_tournament_once true digest any_order july bench).1

verdicts_example :
    map (λ (d : Decision ℤ). d.decision) summary.decisions ≡ hold ∷ retire ∷ enter ∷ []
unfolding stamped entered set_backtest set_oos get_registry_rows judge_strategy compute_metrics
    get_recent_trades ◌+ℤ◌ ◌-ℤ◌ ◌*ℤ◌ run_tournament_once Pipeline.retire transition get_row
    promote_to_probation moved active_count entrants_this_quarter
verdicts_example = refl

run_tournament_once-IsDue_example :
    All
      (λ (d : Decision ℤ).
        d.decision ≡ retire → IsDue contest.paper bench.decisions (keep_if is_eligible measured) d)
      summary.decisions
unfolding stamped entered set_backtest set_oos get_registry_rows judge_strategy compute_metrics
    get_recent_trades ◌+ℤ◌ ◌-ℤ◌ ◌*ℤ◌ run_tournament_once Pipeline.retire transition get_row
    promote_to_probation moved active_count entrants_this_quarter
run_tournament_once-IsDue_example =
    run_tournament_once-IsDue fixed-IsTotalOrder digest any_order july bench
      (run_tournament_once true digest any_order july bench).0 summary measured refl refl

-- ===== src/Tournament/Tests.antt =====
-- The theorems on trader/tournament/pipeline.py at a roster with an incumbent and an entrant.
use trader_pxg.Base.{
  ℕ, zero, suc, ◌≤◌, ◌≡◌, refl, some, List, [], ◌∷◌, ok, arith, count_if, decimal, ◌>>=◌, negate,
}
use trader_pxg.Base.Int.{ℤ}
use trader_pxg.Base.Fixed.{fixed}
use trader_pxg.Backtest.Exits.{take_profit}
use trader_pxg.Paper.Store.{Db, PaperTrade}
use trader_pxg.Paper.Ledger.{trade_of}
use trader_pxg.Paper.Fixture.{account, holding, noon, dollars}
use trader_pxg.Tournament.Entrant.{enter_survivor}
use trader_pxg.Tournament.Entrant.Progress.{survivor-becomes_full}
use trader_pxg.Tournament.Frozen.{max_active_strategies, max_new_entrants_per_quarter}
use trader_pxg.Tournament.Registry.{
  Moment, iso_digits, candidate, probation, full, retired, stated, admitted, Roster, Entrant,
  get_row,
}
use trader_pxg.Tournament.Pipeline.{
  register_candidate, entered, stamped, set_backtest, set_oos, stamp_backtest, stamp_oos, moved,
  write_once, promote_to_probation, active_count, quarter_start, entrants_this_quarter, transition,
  confirm_paper_30, promote_to_full,
}
use trader_pxg.Tournament.Pipeline.Lookup.{row_of, state_of}
use trader_pxg.Tournament.Pipeline.Change.{IsGrown}
use trader_pxg.Tournament.Pipeline.Steps.{
  Step, called, registered, backtest_stamped, oos_stamped, probation_entered, Reach, start, further,
}
use trader_pxg.Tournament.Pipeline.History.{IsDerivable, Reach-IsDerivable}
use trader_pxg.Tournament.Pipeline.Evidence.{IsProven, IsMarked, Reach-IsProven}
use trader_pxg.Tournament.Pipeline.Lasting.{Reach-lasting}
use trader_pxg.Tournament.Pipeline.Life.{IsMove, Step-refines}
use trader_pxg.Tournament.Pipeline.Caps.{AreDistinct, IsCapped, is_admission_in, Reach-IsCapped}
use trader_pxg.Tournament.Fixture.{july, incumbent, founded, survivor, entrant, proven}

-- The roster on which the entrant is on probation.
abbrev trial : Roster ℤ
trial = moved "new" candidate probation (admitted (some 3) (some "oos_d") 2 1) july (some 1) proven

admission : Step proven trial
unfolding promote_to_probation get_row transition active_count entrants_this_quarter stamped entered
    set_backtest set_oos iso_digits quarter_start
admission = called (probation_entered "new" july (some 1) refl)

progress : Reach founded trial
unfolding register_candidate stamp_backtest stamp_oos get_row write_once stamped entered
    set_backtest set_oos
progress =
    further
      (further
        (further
          (further start (
            called (
              registered "new" "donchian_stock" entrant.exit_profile (decimal 9 1)
                (negate (decimal 7 2)) 8 (stated "owner") july "sys1" refl)))
          (called (backtest_stamped "new" 3 refl)))
        (called (oos_stamped "new" "oos_d" refl)))
      admission

Step-refines_example : IsMove proven trial
Step-refines_example = Step-refines admission

founded-IsDerivable : IsDerivable founded
founded-IsDerivable = record { log = ground arith; derived = λ name. ground arith }

Reach-IsDerivable_example : IsDerivable trial
Reach-IsDerivable_example = Reach-IsDerivable progress founded-IsDerivable

founded-IsProven : IsProven founded
founded-IsProven name = ground arith

founded-IsMarked : IsMarked founded
founded-IsMarked name over = ground arith

Reach-IsProven_example : IsProven trial × IsMarked trial
Reach-IsProven_example = Reach-IsProven progress founded-IsProven founded-IsMarked

Reach-lasting_example :
    (later : Entrant ℤ) × (row_of "old" trial ≡ some later)
    × IsGrown incumbent later
    × (incumbent.state ≡ retired → later.state ≡ retired)
Reach-lasting_example = Reach-lasting "old" incumbent progress refl

founded-IsCapped : IsCapped founded
unfolding active_count
founded-IsCapped = record {
  distinct = (refl, tt);
  active = ground arith;
  paced = (ground arith, tt);
}

Reach-IsCapped_example :
    AreDistinct trial.registry
    × (active_count trial ≤ max_active_strategies)
    × ((m : Moment) → count_if (is_admission_in m) trial.transitions ≤ max_new_entrants_per_quarter)
unfolding moved stamped entered
Reach-IsCapped_example = Reach-IsCapped progress founded-IsCapped (ground arith)

-- Thirty paper trades of the entrant.
abbrev trade : PaperTrade ℤ
trade =
    trade_of (record holding { strategy_id = "new" })
      (record {
        exit_ts = noon;
        exit_price = dollars 120;
        exit_reason = take_profit;
        exit_order_ref = "x";
        fees = decimal 0 0;
        slippage_cost = decimal 0 0;
        pnl = dollars 200;
      })

abbrev copies : ℕ → List (PaperTrade ℤ)
copies zero = []
copies (suc n) = trade ∷ copies n

abbrev traded : Db ℤ
traded = record account { trades = copies 30 }

survivor-becomes_full_example :
    (on_trial after : Roster ℤ) × ((enter_survivor survivor (stated "owner") july founded
        >>= promote_to_probation "new" july (some 1))
      ≡ ok on_trial)
    × ((confirm_paper_30 "new" july (record on_trial { paper = traded }) >>= λ (confirmed, r).
          promote_to_full "new" (some (decimal 5 1)) july (some 1) r)
        ≡ ok after)
    × (state_of "new" after ≡ some full)
unfolding active_count entrants_this_quarter iso_digits quarter_start
survivor-becomes_full_example =
    survivor-becomes_full survivor (stated "owner") july july (some 1) (decimal 5 1) traded founded
      refl refl refl refl refl

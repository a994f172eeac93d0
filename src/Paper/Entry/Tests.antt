-- ===== src/Paper/Entry/Tests.antt =====
-- The theorems on trader/paper/entry_pipeline.py at a market where one stock fires.
use trader_pxg.Base.{
  ℕ, zero, suc, ◌≡◌, refl, ◌⊎◌, true, false, none, some, List, [], ◌∷◌, ◌++◌, if◌then◌else◌, Float,
  decimal, negate, ok, err, runtime_error, arith,
}
use trader_pxg.Base.Int.{ℤ, ◌+ℤ◌, ◌*ℤ◌, ◌-ℤ◌}
use trader_pxg.Base.Fixed.{fixed}
use trader_pxg.Base.Whole.{whole, whole-IsTotalOrder}
use native.Mathlib.Nat.{div-mul-le_self}
use trader_pxg.Backtest.Config.{profile_momentum_placeholder}
use trader_pxg.Risk.Gate.{DailyBar}
use trader_pxg.Paper.Store.{Order, ibkr_paper, buy, entry, submitted}
use trader_pxg.Paper.Idempotency.{Fill, find_unresolved_match}
use trader_pxg.Paper.Ledger.{
  new_order, insert_order, get_unresolved_orders, get_all_unresolved_orders, get_open_positions,
}
use trader_pxg.Paper.Signals.{is_routable}
use trader_pxg.Paper.World.{World, Broker, healed_entry, ◌>>=◌}
use trader_pxg.Paper.Reconcile.{is_entry_halted, halt_state}
use trader_pxg.Paper.Fixture.{dollars, noon, holding, tripped_event, account, quiet, taking, today}
use trader_pxg.Paper.Guardian.Persist.{IsPersisted}
use trader_pxg.Paper.Entry.{Market}
use trader_pxg.Paper.Entry.Run.{
  has_open_position_for_order_ref, entry_ref, heal_matched, enter_position,
}
use trader_pxg.Paper.Entry.Once.{run_entry_pipeline_once, paper_nightly_budget}
use trader_pxg.Paper.Entry.Halted.{run_entry_pipeline_once-halted}
use trader_pxg.Paper.Entry.Persist.{buy_call, run_entry_pipeline_once-IsPersisted}
use trader_pxg.Paper.Entry.Sends.{enter_position-sends}
use trader_pxg.Paper.Entry.Budget.{IsSpendable, IsCovered, run_entry_pipeline_once-IsCovered}
use trader_pxg.Paper.Entry.Heal.{healed_position, heal_matched-opens}
use trader_pxg.Risk.Breakers.{read_breaker_state}
use trader_pxg.Tournament.Registry.{full}
use trader_pxg.Tournament.Live.{LiveStrategy}

abbrev month_of : {A : Type 0} → DailyBar A → ℕ → List (DailyBar A)
month_of bar zero = []
month_of bar (suc n) = bar ∷ month_of bar n

-- A stock at fifty dollars that fires for every family.
abbrev market : {A : Type 0} ⦃f : Float A⦄ → Market A
market = record {
  pick_entries = λ family variant held. "ACME" ∷ [];
  rsi = λ symbol. decimal 60 0;
  volatility = λ symbol. decimal 1 0;
  bars =
      λ symbol. month_of (record { ts = 1; close = decimal 50 0; volume = decimal 1_000_000 0 }) 40;
  median = λ xs. decimal 50_000_000 0;
  correlation = λ pairs. decimal 0 0;
  sha256 = λ symbol. 5;
  text_le = λ a b. true;
}

abbrev live : {A : Type 0} ⦃f : Float A⦄ → LiveStrategy A
live = record {
  strategy_id = "momentum_stock";
  profile_name = "s";
  exit_profile = profile_momentum_placeholder;
  pf_floor = decimal 9 1;
  max_dd_kill = negate (decimal 7 2);
  consecutive_loss_kill = 8;
  state = full;
  entry_variant = "loose";
}

abbrev stopped_world : World ℤ
stopped_world = record quiet { db = record account { breaker_events = tripped_event ∷ [] } }

run_entry_pipeline_once-halted_example :
    let after = (run_entry_pipeline_once taking market (live ∷ []) today noon stopped_world).1 in
    (after.placed ≡ []) × (is_entry_halted after.db ≡ true)
unfolding is_entry_halted halt_state read_breaker_state
run_entry_pipeline_once-halted_example =
    run_entry_pipeline_once-halted taking market (live ∷ []) today noon stopped_world refl

run_entry_pipeline_once-IsPersisted_example :
    IsPersisted (run_entry_pipeline_once taking market (live ∷ []) today noon quiet).1
run_entry_pipeline_once-IsPersisted_example =
    run_entry_pipeline_once-IsPersisted taking market (live ∷ []) today noon quiet ((refl, tt), tt)

enter_position-sends_example :
    let after = (enter_position taking today noon live "ACME" (dollars 50) (dollars 12) quiet).1 in
    (after.placed ≡ [])
    ⊎ (get_unresolved_orders "s" "ACME" buy account ≡ [])
      × (is_entry_halted account ≡ false)
      × (after.placed ≡ buy_call "ACME" (dollars 12) (entry_ref {A = ℤ} today live "ACME") ∷ [])
enter_position-sends_example =
    enter_position-sends taking today noon live "ACME" (dollars 50) (dollars 12) quiet

whole-IsSpendable : IsSpendable whole
whole-IsSpendable = record {
  ordered = whole-IsTotalOrder;
  floor_le = λ d p h. ground (arith, div-mul-le_self d p);
  subtract_nonneg = λ a b h. ground arith;
  subtract_le = λ a b h. ground arith;
  subtract_mono = λ a b c h. ground arith;
  multiply_nonneg = λ a b h k. ground arith;
}

abbrev empty_world : World ℕ
empty_world = record {
  db = record {
    orders = [];
    positions = [];
    trades = [];
    reconciliation_log = [];
    kill_state = [];
    breaker_events = [];
    bars = [];
  };
  placed = [];
  notices = [];
}

abbrev buying : Broker ℕ
buying = record {
  place_order = λ order. ok 8;
  latest_price = λ symbol. ok 50;
  fetch_price = λ symbol. err runtime_error;
  fills = [];
  positions = ok [];
}

run_entry_pipeline_once-IsCovered_example :
    IsCovered market paper_nightly_budget []
      (run_entry_pipeline_once buying market (live ∷ []) today noon empty_world).1
run_entry_pipeline_once-IsCovered_example =
    run_entry_pipeline_once-IsCovered market whole-IsSpendable buying (live ∷ []) today noon
      empty_world refl

-- The position of an order that the guardian has closed before the order was healed.
abbrev orphan : Order ℤ
orphan = new_order noon "r" "s" "ACME" ibkr_paper buy entry (dollars 10) (some 7) submitted

abbrev closed_world : World ℤ
closed_world = record quiet {
  db = record account {
    orders = orphan ∷ [];
    positions = record holding { entry_order_ref = "r"; is_open = false } ∷ [];
  };
}

abbrev orphan_fill : Fill ℤ
orphan_fill = record {
  order_ref = "r";
  perm_id = some 7;
  fill_price = none;
  symbol = "ACME";
  qty = dollars 10;
}

heal_matched-opens_example :
    let (result, after) = heal_matched taking noon orphan orphan_fill live closed_world in
    (result ≡ ok (some "r"))
    × (after.placed ≡ [])
    × (after.notices ≡ healed_entry "ACME" "s" ∷ [])
    × (after.db.positions ≡ (
        if has_open_position_for_order_ref "r" closed_world.db
        then closed_world.db.positions
        else closed_world.db.positions
          ++ healed_position noon orphan live (dollars 80) closed_world.db.positions ∷ []))
    × (has_open_position_for_order_ref "r" after.db ≡ true)
heal_matched-opens_example =
    heal_matched-opens taking noon orphan orphan_fill live (dollars 80) closed_world refl

-- The run buys what six hundred dollars pay for.
abbrev fresh_world : World ℤ
fresh_world = record quiet { db = record account { orders = []; positions = [] } }

buys_twelve :
    (run_entry_pipeline_once taking market (live ∷ []) today noon fresh_world).1.placed
    ≡ buy_call "ACME" (dollars 12) (entry_ref {A = ℤ} today live "ACME") ∷ []
unfolding run_entry_pipeline_once ◌>>=◌ get_all_unresolved_orders is_routable get_open_positions
    ◌+ℤ◌ ◌*ℤ◌ ◌-ℤ◌ find_unresolved_match get_unresolved_orders read_breaker_state insert_order
buys_twelve = refl

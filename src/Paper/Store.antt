-- ===== src/Paper/Store.antt =====
-- The tables of migrations/0005_paper_trading.sql and the cache of bars, as the rows that trader/paper reads and writes.
-- A row's key is its place in the insertion order; a time is a number of microseconds, so that the
-- order of the ISO texts is that of the numbers. `scale_out_json` is read back as it was written.
use trader_pxg.Base.{ℕ, ◌+◌, ◌/◌, String, Bool, true, false, Option, List}
use trader_pxg.Backtest.Config.{ExitProfile}
use trader_pxg.Backtest.Exits.{Reason}
use trader_pxg.Paper.Signals.{Timeframe}
use trader_pxg.Risk.Breakers.{Actor, BreakerEvent}

pub data Venue : Type 0 where
  ibkr_paper crypto_sim kraken_readonly : Venue

pub data Side : Type 0 where
  buy sell : Side

pub data Intent : Type 0 where
  entry exit_stop exit_take_profit exit_trailing_stop exit_scale_out : Intent
  exit_time_stop exit_eod_flat : Intent

pub data OrderStatus : Type 0 where
  pending_submit submitted filled rejected : OrderStatus

-- `paper_orders`
pub record Order (A : Type 0) : Type 0 where
  pub order_ref : String
  pub strategy_id : String
  pub symbol : String
  pub venue : Venue
  pub side : Side
  pub intent : Intent
  pub qty : A
  pub status : OrderStatus
  pub perm_id : Option ℕ
  pub submitted_ts : ℕ
  pub filled_ts : Option ℕ
  pub fill_price : Option A

-- `paper_positions`; the columns from `stop_pct` to `eod_flat` are the profile.
pub record Position (A : Type 0) : Type 0 where
  pub position_id : ℕ
  pub strategy_id : String
  pub symbol : String
  pub venue : Venue
  pub asset_class : String
  pub qty : A
  pub entry_price : A
  pub entry_ts : ℕ
  pub entry_order_ref : String
  pub exit_profile : ExitProfile A
  pub watermark : Option A
  pub is_open : Bool

-- `paper_trades`, less the columns on New Zealand dollars, which nothing here writes.
pub record PaperTrade (A : Type 0) : Type 0 where
  pub strategy_id : String
  pub profile_name : String
  pub symbol : String
  pub venue : Venue
  pub asset_class : String
  pub entry_ts : ℕ
  pub entry_price : A
  pub exit_ts : ℕ
  pub exit_price : A
  pub exit_reason : Reason
  pub qty : A
  pub fees : A
  pub slippage_cost : A
  pub pnl : A
  pub entry_order_ref : String
  pub exit_order_ref : String

pub data Classification : Type 0 where
  explainable unexplained informational : Classification

pub data ReconcileAction : Type 0 where
  log halt clear : ReconcileAction

-- `reconciliation_log`
pub record ReconcileEvent (A : Type 0) : Type 0 where
  pub symbol : Option String
  pub venue : Venue
  pub local_qty : Option A
  pub broker_qty : Option A
  pub classification : Classification
  pub action : ReconcileAction
  pub reason : Option String
  pub actor : Actor

pub data KillReason : Type 0 where
  profit_factor_floor max_drawdown consecutive_losses tournament_demotion : KillReason

-- `strategy_kill_state`
pub record KillState (A : Type 0) : Type 0 where
  pub strategy_id : String
  pub reason : KillReason
  pub trigger_value : Option A

-- A row of the `bars` table, in its candle the price and volume columns.
pub record Candle (A : Type 0) : Type 0 where
  pub ts : ℕ
  pub o : A
  pub h : A
  pub l : A
  pub c : A
  pub volume : A

pub record Bar (A : Type 0) : Type 0 where
  pub symbol : String
  pub timeframe : Timeframe
  pub candle : Candle A

-- The database. `reconciliation_log` and `breaker_events` are newest first, the others oldest first.
pub record Db (A : Type 0) : Type 0 where
  pub orders : List (Order A)
  pub positions : List (Position A)
  pub trades : List (PaperTrade A)
  pub reconciliation_log : List (ReconcileEvent A)
  pub kill_state : List (KillState A)
  pub breaker_events : List (BreakerEvent A)
  pub bars : List (Bar A)

abbrev pub same_venue : Venue → Venue → Bool
same_venue ibkr_paper ibkr_paper = true
same_venue crypto_sim crypto_sim = true
same_venue kraken_readonly kraken_readonly = true
same_venue _ _ = false

abbrev pub same_side : Side → Side → Bool
same_side buy buy = true
same_side sell sell = true
same_side _ _ = false

-- `status IN ('pending_submit', 'submitted')`, `status = 'submitted'`, `status = 'filled'`
abbrev pub is_unresolved : OrderStatus → Bool
is_unresolved pending_submit = true
is_unresolved submitted = true
is_unresolved filled = false
is_unresolved rejected = false

abbrev pub is_submitted : OrderStatus → Bool
is_submitted submitted = true
is_submitted _ = false

abbrev pub is_filled : OrderStatus → Bool
is_filled filled = true
is_filled _ = false

-- The number of the day of a time, `date.toordinal`, from microseconds of the first day on.
abbrev pub day_of : ℕ → ℕ
day_of ts = ts / 86_400_000_000 + 1

-- ===== src/Paper/Guardian/Tick.antt =====
-- run_guardian_once of trader/paper/guardian.py: one tick over every open position.
use trader_pxg.Base.{
  ℕ, ◌+◌, String, Bool, true, false, not, ◌&&◌, Option, none, some, List, [], ◌∷◌, leb, ltb,
  if◌then◌else◌, length, Float, Result, ok, err,
}
use trader_pxg.Backtest.Exits.{Fired, next_watermark}
use trader_pxg.Paper.Store.{ibkr_paper, same_venue, Position}
use trader_pxg.Paper.Ledger.{get_open_positions, update_watermark}
use trader_pxg.Paper.World.{
  Broker, Act, heartbeat, unpriced, pure, lift, gets, modify, notify, ◌>>=◌, ◌>>◌,
}
use trader_pxg.Paper.Guardian.{
  Today, Exited, build_bar, rebuild_position_state, evaluate_position_exit, submit_exit,
}
use trader_pxg.Paper.Guardian.Kill.{LiveConfig, evaluate_account_breakers, evaluate_kill_conditions}

-- The lines of the ops log with three fields and a time that parses: whether the entry is a
-- heartbeat, and its time.
abbrev pub LogLines : Type 0
LogLines = List (Bool × ℕ)

abbrev pub twelve_hours : ℕ
twelve_hours = 43_200_000_000

-- The latest time of a heartbeat, of those in the lines and the one given.
abbrev pub latest_heartbeat : Option ℕ → LogLines → Option ℕ
latest_heartbeat latest [] = latest
latest_heartbeat latest ((false, ts) ∷ lines) = latest_heartbeat latest lines
latest_heartbeat none ((true, ts) ∷ lines) = latest_heartbeat (some ts) lines
latest_heartbeat (some latest) ((true, ts) ∷ lines) =
    latest_heartbeat (some (if ltb latest ts then ts else latest)) lines

-- `none` is a missing file.
unfoldable pub heartbeat_due : Option LogLines → ℕ → Bool
heartbeat_due none now = true
heartbeat_due (some lines) now = elim (latest_heartbeat none lines) [
  | none ↦ true
  | some latest ↦ leb (latest + twelve_hours) now
]

-- What became of a position: not on a trading day of its venue, not priced, or ticked.
pub data Ticked : Type 0 where
  passed : Ticked
  not_priced : String → Ticked
  kept : Ticked
  left : Exited → Ticked

abbrev pub exits_of : List Ticked → List Exited
exits_of [] = []
exits_of (left e ∷ ts) = e ∷ exits_of ts
exits_of (_ ∷ ts) = exits_of ts

abbrev pub unpriced_of : List Ticked → List String
unpriced_of [] = []
unpriced_of (not_priced s ∷ ts) = s ∷ unpriced_of ts
unpriced_of (_ ∷ ts) = unpriced_of ts

-- The dict that is returned.
pub record Summary : Type 0 where
  pub exits : List Exited
  pub ticked : ℕ
  pub unpriced : List String

module _ {A : Type 0} ⦃f : Float A⦄ where
  abbrev pub is_stock : Position A → Bool
  is_stock position = same_venue position.venue ibkr_paper

  abbrev pub price_of : Broker A → Position A → Result A
  price_of broker position =
      if is_stock position
      then broker.latest_price position.symbol
      else broker.fetch_price position.symbol

  -- With no exit the watermark moves; with one the order is submitted.
  unfoldable pub tick_decided :
      Broker A → Today → ℕ → Position A → A → Option (Fired A) → Act A Ticked
  unfolding submit_exit
  tick_decided broker today now position current_price none = do
    modify (
        update_watermark position.position_id (
          next_watermark (rebuild_position_state position) position.watermark
            (build_bar current_price)))
    pure kept
  tick_decided broker today now position current_price (some (exit_result, _)) = do
    outcome ← submit_exit broker today now broker.fills position exit_result current_price
    pure (elim outcome [ none ↦ kept | some e ↦ left e ])

  -- The round of the loop once there is a price.
  unfoldable pub tick_priced : Broker A → Today → ℕ → Position A → A → Act A Ticked
  unfolding evaluate_position_exit tick_decided
  tick_priced broker today now position current_price = do
    decided ← lift (evaluate_position_exit position current_price today)
    tick_decided broker today now position current_price decided

  -- An exception of the price source is caught, any other is not.
  abbrev pub tick_with_price : Broker A → Today → ℕ → Position A → Result A → Act A Ticked
  tick_with_price broker today now position (err _) = do
    notify (unpriced position.symbol)
    pure (not_priced position.symbol)
  tick_with_price broker today now position (ok current_price) =
      tick_priced broker today now position current_price

  -- One round of the loop.
  unfoldable pub tick_position : Broker A → Today → ℕ → Position A → Act A Ticked
  unfolding tick_priced
  tick_position broker today now position =
      if is_stock position && not today.is_trading_day
      then pure passed
      else tick_with_price broker today now position (price_of broker position)

  unfoldable pub tick_all : Broker A → Today → ℕ → List (Position A) → Act A (List Ticked)
  unfolding tick_position
  tick_all broker today now [] = pure []
  tick_all broker today now (position ∷ positions) = do
    t ← tick_position broker today now position
    ts ← tick_all broker today now positions
    pure (t ∷ ts)

  unfoldable pub run_guardian_once :
      Broker A → List (LiveConfig A) → Today → ℕ → Option LogLines → Act A Summary
  unfolding tick_all evaluate_account_breakers evaluate_kill_conditions heartbeat_due
  run_guardian_once broker configs today now log_lines = do
    open_positions ← gets (get_open_positions none)
    if heartbeat_due log_lines now then notify (heartbeat (length open_positions)) else pure tt
    ticks ← tick_all broker today now open_positions
    _ ← evaluate_account_breakers now
    _ ← evaluate_kill_conditions configs
    pure (record {
      exits = exits_of ticks;
      ticked = length open_positions;
      unpriced = unpriced_of ticks;
    })

-- ===== src/Paper/Guardian.antt =====
-- trader/paper/guardian.py: the exit of one position, from the decision to the order and the trade.
-- The tick over all positions is in Tick.antt, the kill conditions and the account's breakers in
-- Kill.antt.
pub mod Kill
pub mod Tick
pub mod Persist
pub mod Limits
pub mod InFlight
pub mod Books
pub mod Conditions
pub mod Alerts
pub mod Once
mod Tests
use trader_pxg.Base.{
  ℕ, String, Bool, true, false, not, Option, none, some, List, [], ◌∷◌, find, if◌then◌else◌, Float,
  ◌⊕◌, ◌⊖◌, ◌⊗◌, decimal, float_zero, float_one, absolute, Result, ok, err,
}
use trader_pxg.Base.Int.{ℤ, pos, ◌-ℤ◌}
use trader_pxg.Backtest.Config.{ExitProfile}
use trader_pxg.Backtest.Fills.{FillSide, fee_for, apply_slippage}
use trader_pxg.Backtest.Exits.{
  Bar, PositionState, Reason, eod_flat, stop, trailing_stop, scale_out, take_profit, time_stop,
  ExitResult, Fired, open_state, evaluate_exit,
}
use trader_pxg.Paper.Store.{
  ibkr_paper, same_venue, sell, Intent, entry, exit_stop, exit_take_profit, exit_trailing_stop,
  exit_scale_out, exit_time_stop, exit_eod_flat, pending_submit, submitted, filled, Order, Position,
  Db, is_filled, day_of,
}
use trader_pxg.Paper.Idempotency.{Fill, build_order_ref, find_unresolved_match}
use trader_pxg.Paper.Ledger.{
  Exit, has_id, new_order, record_order, heal_order, update_order_status, get_unresolved_orders,
  close_position,
}
use trader_pxg.Paper.World.{
  World, Placed, Broker, Act, exited, pure, lift, gets, modify, execute, notify, send, ◌>>=◌, ◌>>◌,
}

-- The market's date: its number (`date.toordinal`) and ISO text, and what `is_trading_day` says.
pub record Today : Type 0 where
  pub ordinal : ℕ
  pub iso : String
  pub is_trading_day : Bool

-- An entry of the summary's "exits".
pub record Exited : Type 0 where
  pub position_id : ℕ
  pub symbol : String
  pub reason : Reason
  pub order_ref : String
  pub healed : Bool

abbrev pub reason_to_intent : Reason → Intent
reason_to_intent stop = exit_stop
reason_to_intent take_profit = exit_take_profit
reason_to_intent trailing_stop = exit_trailing_stop
reason_to_intent scale_out = exit_scale_out
reason_to_intent time_stop = exit_time_stop
reason_to_intent eod_flat = exit_eod_flat

-- `_INTENT_TO_REASON.get(intent, default)`
abbrev pub intent_to_reason : Intent → Reason → Reason
intent_to_reason entry default = default
intent_to_reason exit_stop default = stop
intent_to_reason exit_take_profit default = take_profit
intent_to_reason exit_trailing_stop default = trailing_stop
intent_to_reason exit_scale_out default = scale_out
intent_to_reason exit_time_stop default = time_stop
intent_to_reason exit_eod_flat default = eod_flat

module _ {A : Type 0} where
  -- The row of `paper_positions` by its key, tested for "open".
  abbrev pub is_still_open : ℕ → Db A → Bool
  is_still_open position_id db = elim (find (has_id position_id) db.positions) [
    | none ↦ false
    | some p ↦ p.is_open
  ]

  -- `dict.get(key, default)`
  abbrev pub or_else : Option A → A → A
  or_else none default = default
  or_else (some a) default = a

module _ {A : Type 0} ⦃f : Float A⦄ where
  abbrev pub build_bar : A → Bar A
  build_bar current_price = record {
    bar_open = current_price;
    high = current_price;
    low = current_price;
    close = current_price;
    volume = float_zero;
  }

  abbrev pub rebuild_position_state : Position A → PositionState A
  rebuild_position_state position = open_state position.exit_profile position.entry_price float_one

  -- Whole days between the UTC date of the entry and the market's date.
  abbrev pub days_held : Position A → Today → ℤ
  days_held position today = pos today.ordinal -ℤ pos (day_of position.entry_ts)

  unfoldable pub evaluate_position_exit : Position A → A → Today → Result (Option (Fired A))
  evaluate_position_exit position current_price today =
      evaluate_exit position.exit_profile (rebuild_position_state position)
        (build_bar current_price) (days_held position today) position.watermark

  -- broker_crypto_sim.simulate_fill: the price of the fill. Its fee is computed, and not used.
  unfoldable pub simulate_fill : FillSide → A → A → String → Result A
  simulate_fill side qty reference_price asset_class =
      elim (apply_slippage reference_price side asset_class) [
        | err e ↦ err e
        | ok fill_price ↦ elim (fee_for asset_class qty fill_price) [
          | err e ↦ err e
          | ok fee ↦ ok fill_price
        ]
      ]

  -- The order of a fresh exit, as it is written before the broker is called.
  abbrev pub exit_order : ℕ → Today → Position A → Reason → Order A
  exit_order now today position reason =
      let intent = reason_to_intent reason in
      new_order now (build_order_ref position.strategy_id position.symbol today.iso sell intent)
        position.strategy_id position.symbol position.venue sell intent position.qty none
        pending_submit

  -- The books of an exit at a price, for a quantity: fees, slippage and profit.
  abbrev pub booked_exit : ℕ → Position A → A → Reason → String → A → A → A → Exit A
  booked_exit now position exit_price reason order_ref qty current_price fees = record {
    exit_ts = now;
    exit_price = exit_price;
    exit_reason = reason;
    exit_order_ref = order_ref;
    fees = fees;
    slippage_cost = absolute (exit_price ⊖ current_price) ⊗ qty;
    pnl = ((exit_price ⊖ position.entry_price) ⊗ qty) ⊖ fees;
  }

  -- The close, the alert and the entry of the summary, which both paths end with.
  unfoldable pub settle :
      ℕ → Position A → A → Reason → String → A → A → Bool → Act A (Option Exited)
  unfolding close_position
  settle now position exit_price reason order_ref qty current_price healed = do
    fees ← lift (fee_for position.asset_class qty exit_price)
    execute (
        close_position position.position_id
          (booked_exit now position exit_price reason order_ref qty current_price fees))
    notify (exited position.symbol reason exit_price healed)
    pure (
        some (record {
          position_id = position.position_id;
          symbol = position.symbol;
          reason = reason;
          order_ref = order_ref;
          healed = healed;
        }))

  -- (3): an order of an earlier tick turned out to be filled.
  unfoldable pub heal_exit :
      ℕ → Position A → ExitResult A → A → Order A → Fill A → Act A (Option Exited)
  unfolding settle
  heal_exit now position exit_result current_price local_order fill = do
    let fill_price = or_else fill.fill_price current_price
    modify (λ db.
        if is_filled local_order.status
        then db
        else heal_order local_order.order_ref fill.perm_id (some fill_price) now db)
    still_open ← gets (is_still_open position.position_id)
    if still_open
        then (settle now position fill_price
            (intent_to_reason local_order.intent exit_result.reason) local_order.order_ref
            local_order.qty current_price true)
        else pure none

  -- The call of the broker, or the simulated fill, and what the order's row then says.
  unfoldable pub dispatch : Broker A → Position A → A → String → Act A (Unit {0})
  unfolding simulate_fill
  dispatch broker position current_price order_ref =
      if same_venue position.venue ibkr_paper
      then (do
        perm_id ← send broker (record {
          symbol = position.symbol;
          side = sell;
          qty = position.qty;
          order_ref = order_ref;
        })
        modify (update_order_status order_ref submitted none none (some perm_id)))
      else (do
        fill_price ←
            lift (simulate_fill FillSide.sell position.qty current_price position.asset_class)
        modify (update_order_status order_ref filled none (some fill_price) none))

  -- (5): no order is in flight.
  unfoldable pub fresh_exit :
      Broker A → Today → ℕ → Position A → ExitResult A → A → Act A (Option Exited)
  unfolding dispatch settle
  fresh_exit broker today now position exit_result current_price = do
    let intent = reason_to_intent exit_result.reason
    let order_ref = build_order_ref position.strategy_id position.symbol today.iso sell intent
    execute (
        record_order now order_ref position.strategy_id position.symbol position.venue sell intent
          position.qty none pending_submit)
    dispatch broker position current_price order_ref
    settle now position exit_result.raw_price exit_result.reason order_ref position.qty
        current_price false

  -- The branches, on the unresolved orders and the one of them that a fill matches.
  abbrev pub submit_with :
      Broker A
      → Today
      → ℕ
      → Position A
      → ExitResult A
      → A
      → List (Order A)
      → Option (Order A × Fill A)
      → Act A (Option Exited)
  submit_with broker today now position exit_result current_price _ (some (local_order, fill)) =
      heal_exit now position exit_result current_price local_order fill
  submit_with broker today now position exit_result current_price (_ ∷ _) none = pure none
  submit_with broker today now position exit_result current_price [] none =
      fresh_exit broker today now position exit_result current_price

  unfoldable pub submit_exit :
      Broker A → Today → ℕ → List (Fill A) → Position A → ExitResult A → A → Act A (Option Exited)
  unfolding heal_exit fresh_exit
  submit_exit broker today now broker_fills position exit_result current_price = do
    unresolved ← gets (get_unresolved_orders position.strategy_id position.symbol sell)
    submit_with broker today now position exit_result current_price unresolved
        (find_unresolved_match unresolved broker_fills)

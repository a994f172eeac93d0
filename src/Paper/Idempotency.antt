-- ===== src/Paper/Idempotency.antt =====
-- trader/paper/idempotency.py: the key of an order, and the matching of orders with fills.
use Prim.Native.String.{◌++◌}
use trader_pxg.Base.{ℕ, String, Option, none, some, List, [], ◌∷◌, ◌==◌, find}
use trader_pxg.Paper.Store.{
  Order, Side, buy, sell, Intent, entry, exit_stop, exit_take_profit, exit_trailing_stop,
  exit_scale_out, exit_time_stop, exit_eod_flat,
}

-- An entry of the broker's fills; a fill may carry no price.
pub record Fill (A : Type 0) : Type 0 where
  pub order_ref : String
  pub perm_id : Option ℕ
  pub fill_price : Option A
  pub symbol : String
  pub qty : A

abbrev pub side_text : Side → String
side_text buy = "buy"
side_text sell = "sell"

abbrev pub intent_text : Intent → String
intent_text entry = "entry"
intent_text exit_stop = "exit_stop"
intent_text exit_take_profit = "exit_take_profit"
intent_text exit_trailing_stop = "exit_trailing_stop"
intent_text exit_scale_out = "exit_scale_out"
intent_text exit_time_stop = "exit_time_stop"
intent_text exit_eod_flat = "exit_eod_flat"

-- The date is given by its ISO text.
unfoldable pub build_order_ref : String → String → String → Side → Intent → String
build_order_ref strategy_id symbol trade_date side intent =
    strategy_id
    ++ (":"
        ++ (symbol
            ++ (":" ++ (trade_date ++ (":" ++ (side_text side ++ (":" ++ intent_text intent)))))))

-- What `find_existing_order` returns: the local row or the broker's fill.
pub data Existing (A : Type 0) : Type 0 where
  local_row : Order A → Existing A
  broker_row : Fill A → Existing A

module _ {A : Type 0} where
  -- `local_orders` is a dict whose keys are the rows' references.
  unfoldable pub find_existing_order :
      String → List (String × Order A) → List (Fill A) → Option (Existing A)
  find_existing_order order_ref local_orders broker_fills =
      elim (find (λ entry. entry.0 == order_ref) local_orders) [
        | some (key, row) ↦ some (local_row row)
        | none ↦ elim (find (λ (fill : Fill A). fill.order_ref == order_ref) broker_fills) [
          | some fill ↦ some (broker_row fill)
          | none ↦ none
        ]
      ]

  -- The inner loop, for one order.
  abbrev pub fill_of : List (Fill A) → Order A → Option (Fill A)
  fill_of broker_fills local_order =
      find (λ (fill : Fill A). fill.order_ref == local_order.order_ref) broker_fills

  unfoldable pub find_unresolved_match : List (Order A) → List (Fill A) → Option (Order A × Fill A)
  find_unresolved_match [] broker_fills = none
  find_unresolved_match (local_order ∷ later) broker_fills =
      elim (fill_of broker_fills local_order) [
        | some fill ↦ some (local_order, fill)
        | none ↦ find_unresolved_match later broker_fills
      ]

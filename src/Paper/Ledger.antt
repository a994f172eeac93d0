-- ===== src/Paper/Ledger.antt =====
-- trader/paper/ledger.py: the statements on the paper-trading tables. A function that can raise
-- returns a `Result`; one that cannot returns the new database.
pub mod Orders
pub mod Positions
pub mod Scope
mod Tests
use mathlib.Core.List.{map}
use trader_pxg.Base.{
  ℕ, suc, String, Bool, true, false, ◌&&◌, Option, none, some, List, [], ◌∷◌, ◌++◌, ◌==◌, leb,
  nat_eqb, any, find, keep_if, take, sort_by, length, update_where, if◌then◌else◌, Float, ◌⊕◌,
  Result, ok, err, integrity_error, value_error,
}
use trader_pxg.Backtest.Config.{ExitProfile}
use trader_pxg.Backtest.Exits.{Reason}
use trader_pxg.Paper.Store.{
  Venue, ibkr_paper, same_venue, Side, same_side, Intent, OrderStatus, filled, Order, Position,
  PaperTrade, KillReason, KillState, Db, is_unresolved, is_submitted,
}

-- `COALESCE(?, column)`
abbrev pub coalesce : {B : Type 0} → Option B → Option B → Option B
coalesce none old = old
coalesce (some new) old = some new

-- What the caller of `close_position` gives of the exit.
pub record Exit (A : Type 0) : Type 0 where
  pub exit_ts : ℕ
  pub exit_price : A
  pub exit_reason : Reason
  pub exit_order_ref : String
  pub fees : A
  pub slippage_cost : A
  pub pnl : A

module _ {A : Type 0} where
  abbrev pub has_ref : String → Order A → Bool
  has_ref order_ref row = row.order_ref == order_ref

  abbrev pub new_order :
      ℕ → String → String → String → Venue → Side → Intent → A → Option ℕ → OrderStatus → Order A
  new_order now order_ref strategy_id symbol venue side intent qty perm_id status = record {
    order_ref = order_ref;
    strategy_id = strategy_id;
    symbol = symbol;
    venue = venue;
    side = side;
    intent = intent;
    qty = qty;
    status = status;
    perm_id = perm_id;
    submitted_ts = now;
    filled_ts = none;
    fill_price = none;
  }

  -- `order_ref` is UNIQUE, so a second INSERT raises.
  unfoldable pub insert_order : Order A → Db A → Result (Db A)
  insert_order row db =
      if any (has_ref row.order_ref) db.orders
      then err integrity_error
      else ok (record db { orders = db.orders ++ row ∷ [] })

  -- The columns of the new row: those given, and the defaults of the others.
  abbrev pub record_order :
      ℕ
      → String
      → String
      → String
      → Venue
      → Side
      → Intent
      → A
      → Option ℕ
      → OrderStatus
      → Db A
      → Result (Db A)
  record_order now order_ref strategy_id symbol venue side intent qty perm_id status db =
      insert_order (new_order now order_ref strategy_id symbol venue side intent qty perm_id status)
        db

  -- INSERT OR IGNORE of a row that is already filled.
  unfoldable pub record_from_live_fill :
      ℕ → String → String → String → Venue → Side → Intent → A → Option ℕ → A → ℕ → Db A → Db A
  record_from_live_fill now order_ref strategy_id symbol venue side intent qty perm_id fill_price
        filled_ts db =
      if any (has_ref order_ref) db.orders then db else (record db {
        orders =
            db.orders
            ++ record (new_order now order_ref strategy_id symbol venue side intent qty perm_id
                filled) { filled_ts = some filled_ts; fill_price = some fill_price }
              ∷ [];
      })

  unfoldable pub heal_order : String → Option ℕ → Option A → ℕ → Db A → Db A
  heal_order order_ref perm_id fill_price filled_ts db = record db {
    orders =
        update_where (has_ref order_ref)
          (λ row. record row {
            status = filled;
            perm_id = perm_id;
            fill_price = fill_price;
            filled_ts = some filled_ts;
          })
          db.orders;
  }

  unfoldable pub update_order_status :
      String → OrderStatus → Option ℕ → Option A → Option ℕ → Db A → Db A
  update_order_status order_ref status filled_ts fill_price perm_id db = record db {
    orders =
        update_where (has_ref order_ref)
          (λ row. record row {
            status = status;
            filled_ts = coalesce filled_ts row.filled_ts;
            fill_price = coalesce fill_price row.fill_price;
            perm_id = coalesce perm_id row.perm_id;
          })
          db.orders;
  }

  unfoldable pub get_order_by_ref : String → Db A → Option (Order A)
  get_order_by_ref order_ref db = find (has_ref order_ref) db.orders

  -- `ORDER BY submitted_ts ASC`
  abbrev pub by_submission : Order A → Order A → Bool
  by_submission a b = leb a.submitted_ts b.submitted_ts

  abbrev pub unresolved_for : String → String → Side → Order A → Bool
  unresolved_for strategy_id symbol side row =
      row.strategy_id == strategy_id
      && row.symbol == symbol
      && same_side row.side side
      && is_unresolved row.status

  unfoldable pub get_unresolved_orders : String → String → Side → Db A → List (Order A)
  get_unresolved_orders strategy_id symbol side db =
      sort_by by_submission (keep_if (unresolved_for strategy_id symbol side) db.orders)

  unfoldable pub get_all_unresolved_orders : Db A → List (Order A)
  get_all_unresolved_orders db =
      sort_by by_submission (keep_if (λ row. is_unresolved row.status) db.orders)

  -- The new row and its id, `cursor.lastrowid`.
  unfoldable pub open_position :
      String → String → Venue → String → A → A → ℕ → String → ExitProfile A → Db A → ℕ × Db A
  open_position strategy_id symbol venue asset_class qty entry_price entry_ts entry_order_ref
        exit_profile db =
      let position_id = suc (length db.positions) in
      (
        position_id,
        record db {
          positions =
              db.positions
              ++ record {
                position_id = position_id;
                strategy_id = strategy_id;
                symbol = symbol;
                venue = venue;
                asset_class = asset_class;
                qty = qty;
                entry_price = entry_price;
                entry_ts = entry_ts;
                entry_order_ref = entry_order_ref;
                exit_profile = exit_profile;
                watermark = none;
                is_open = true;
              }
                ∷ [];
        },
      )

  -- `none` asks for the positions of every strategy.
  unfoldable pub get_open_positions : Option String → Db A → List (Position A)
  get_open_positions none db = keep_if (λ p. p.is_open) db.positions
  get_open_positions (some strategy_id) db =
      keep_if (λ p. p.is_open && p.strategy_id == strategy_id) db.positions

  abbrev pub has_id : ℕ → Position A → Bool
  has_id position_id p = nat_eqb p.position_id position_id

  abbrev pub trade_of : Position A → Exit A → PaperTrade A
  trade_of p x = record {
    strategy_id = p.strategy_id;
    profile_name = p.strategy_id;
    symbol = p.symbol;
    venue = p.venue;
    asset_class = p.asset_class;
    entry_ts = p.entry_ts;
    entry_price = p.entry_price;
    exit_ts = x.exit_ts;
    exit_price = x.exit_price;
    exit_reason = x.exit_reason;
    qty = p.qty;
    fees = x.fees;
    slippage_cost = x.slippage_cost;
    pnl = x.pnl;
    entry_order_ref = p.entry_order_ref;
    exit_order_ref = x.exit_order_ref;
  }

  unfoldable pub close_position : ℕ → Exit A → Db A → Result (Db A)
  close_position position_id x db = elim (find (has_id position_id) db.positions) [
    | none ↦ err value_error
    | some p ↦ ok (record db {
      positions =
          update_where (has_id position_id) (λ row. record row { is_open = false }) db.positions;
      trades = db.trades ++ trade_of p x ∷ [];
    })
  ]

  unfoldable pub update_watermark : ℕ → A → Db A → Db A
  update_watermark position_id watermark db = record db {
    positions =
        update_where (has_id position_id) (λ row. record row { watermark = some watermark })
          db.positions;
  }

  -- `ORDER BY exit_ts DESC LIMIT ?`
  unfoldable pub get_recent_trades : String → ℕ → Db A → List (PaperTrade A)
  get_recent_trades strategy_id limit db = take limit (
      sort_by (λ (a b : PaperTrade A). leb b.exit_ts a.exit_ts)
        (keep_if (λ (t : PaperTrade A). t.strategy_id == strategy_id) db.trades))

  unfoldable pub is_strategy_retired : String → Db A → Bool
  is_strategy_retired strategy_id db =
      any (λ (k : KillState A). k.strategy_id == strategy_id) db.kill_state

  -- INSERT OR IGNORE on the primary key `strategy_id`.
  unfoldable pub retire_strategy : String → KillReason → Option A → Db A → Db A
  unfolding is_strategy_retired
  retire_strategy strategy_id reason trigger_value db =
      if is_strategy_retired strategy_id db then db else (record db {
        kill_state =
            db.kill_state
            ++ record { strategy_id = strategy_id; reason = reason; trigger_value = trigger_value }
              ∷ [];
      })

module _ {A : Type 0} ⦃f : Float A⦄ where
  -- `SUM(qty) … GROUP BY symbol`, in insertion order within a symbol.
  abbrev pub add_qty : String → A → List (String × A) → List (String × A)
  add_qty symbol qty [] = (symbol, qty) ∷ []
  add_qty symbol qty ((s, total) ∷ rest) =
      if s == symbol then (s, total ⊕ qty) ∷ rest else (s, total) ∷ add_qty symbol qty rest

  abbrev pub is_pending : Order A → Bool
  is_pending row = is_submitted row.status && same_venue row.venue ibkr_paper

  abbrev pub pending_sums : List (String × A) → List (Order A) → List (String × A)
  pending_sums sums [] = sums
  pending_sums sums (row ∷ rows) = pending_sums (add_qty row.symbol row.qty sums) rows

  unfoldable pub get_pending_order_qty : Db A → List (String × A)
  get_pending_order_qty db = pending_sums [] (keep_if is_pending db.orders)

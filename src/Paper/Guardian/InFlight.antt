-- ===== src/Paper/Guardian/InFlight.antt =====
-- That the exit of a position is not sent twice: trader/paper/guardian.py after a crash.
use mathlib.Core.Path.{subst}
use trader_pxg.Base.{
  sym, any-keep_if_nil, sort_by-eq-nil, any-append, any-update_where, ℕ, String, ◌≡◌, refl, ◌∙◌, ap,
  inl, inr, Bool, true, false, ◌&&◌, Option, none, some, List, [], ◌∷◌, ◌++◌, ◌==◌, eq_refl, arith,
  any, keep_if, Float, ok,
}
use trader_pxg.Backtest.Exits.{Reason, ExitResult}
use trader_pxg.Paper.Store.{
  is_unresolved, same_side, Order, Position, Db, ibkr_paper, same_venue, sell, submitted,
}
use trader_pxg.Paper.Idempotency.{Fill, find_unresolved_match}
use trader_pxg.Paper.Ledger.{
  Exit, by_submission, coalesce, has_ref, insert_order, update_order_status, close_position,
  get_unresolved_orders, unresolved_for,
}
use trader_pxg.Paper.Guardian.Persist.{close_position-orders}
use trader_pxg.Paper.World.{World, Broker, execute, ◌>>=◌}
use trader_pxg.Paper.World.Keeps.{execute-Reaches, Keeps, bind-Keeps, execute-Keeps, if-Leads}
use trader_pxg.Paper.Guardian.Limits.{submit_exit-sends}
use trader_pxg.Paper.Guardian.{
  Today, exit_order, settle, dispatch, fresh_exit, submit_with, submit_exit,
}

and-true_last : (a b c d : Bool) → a && b && c && d ≡ true → a && b && c && true ≡ true
and-true_last true true true d h = refl
and-true_last true true false d h = h
and-true_last true false c d h = h
and-true_last false b c d h = h

module _ {A : Type 0} where
  -- An unresolved sell order of a strategy and symbol is in the table.
  abbrev pub IsInFlight : String → String → World A → Type 0
  IsInFlight strategy_id symbol w = any (unresolved_for strategy_id symbol sell) w.db.orders ≡ true

  unresolved-submitted :
      (row : Order A) (perm_id : Option ℕ) (s t : String)
      → unresolved_for s t sell row ≡ true
      → unresolved_for s t sell (record row {
        status = submitted;
        filled_ts = coalesce none row.filled_ts;
        fill_price = coalesce none row.fill_price;
        perm_id = coalesce perm_id row.perm_id;
      })
        ≡ true
  unresolved-submitted row perm_id s t h =
      and-true_last (row.strategy_id == s) (row.symbol == t) (same_side row.side sell)
        (is_unresolved row.status) h

  submitted-IsInFlight :
      (ref : String) (perm_id : Option ℕ) (s t : String) (db : Db A)
      → any (unresolved_for s t sell) db.orders ≡ true
      → any
          (unresolved_for s t sell)
          (update_order_status ref submitted none none perm_id db).orders
        ≡ true
  unfolding update_order_status
  submitted-IsInFlight ref perm_id s t db h =
      any-update_where (unresolved_for s t sell) (has_ref ref) _ db.orders
        (λ row p. unresolved-submitted row perm_id s t p) h

module _ {A : Type 0} ⦃f : Float A⦄ where
  dispatch-IsInFlight :
      (broker : Broker A) (position : Position A) (current : A) (ref s t : String)
      → same_venue position.venue ibkr_paper ≡ true
      → Keeps (IsInFlight s t) (dispatch broker position current ref)
  unfolding dispatch
  dispatch-IsInFlight broker position current ref s t stock =
      if-Leads (IsInFlight s t) (IsInFlight s t) (same_venue position.venue ibkr_paper) _ _
        (λ _.
          bind-Keeps (IsInFlight s t) _ _ (λ w p. p)
            (λ perm_id w p. submitted-IsInFlight ref (some perm_id) s t w.db p))
        (λ e. cc)

  execute_close-IsInFlight :
      (s t : String) (position_id : ℕ) (x : Exit A)
      → Keeps (IsInFlight s t) (execute (close_position position_id x))
  execute_close-IsInFlight s t position_id x =
      execute-Keeps (IsInFlight s t) (close_position position_id x) (λ w db p e.
        ap (λ l. any (unresolved_for s t sell) l) (close_position-orders position_id x w.db db e)
        ∙ p)

  settle-IsInFlight :
      (s t : String) (now : ℕ) (position : Position A) (price : A) (reason : Reason) (ref : String)
      (qty current : A) (healed : Bool)
      → Keeps (IsInFlight s t) (settle now position price reason ref qty current healed)
  unfolding settle
  settle-IsInFlight s t now position price reason ref qty current healed =
      bind-Keeps (IsInFlight s t) _ _ (λ w p. p)
        (λ fees.
          bind-Keeps (IsInFlight s t) _ _ (execute_close-IsInFlight s t position.position_id _)
            (λ _. bind-Keeps (IsInFlight s t) _ _ (λ w p. p) (λ _ w p. p)))

  insert_order-IsInFlight :
      (now : ℕ) (today : Today) (position : Position A) (reason : Reason) (db db' : Db A)
      → insert_order (exit_order now today position reason) db ≡ ok db'
      → any (unresolved_for position.strategy_id position.symbol sell) db'.orders ≡ true
  unfolding insert_order
  insert_order-IsInFlight now today position reason db db' h = ground (
    arith,
    any-append (unresolved_for position.strategy_id position.symbol sell) db.orders
        (exit_order now today position reason ∷ []),
    eq_refl position.strategy_id,
    eq_refl position.symbol,
  )

  insert_order-fresh :
      (row : Order A) (db : Db A)
      → any (has_ref row.order_ref) db.orders ≡ false
      → insert_order row db ≡ ok (record db { orders = db.orders ++ row ∷ [] })
  unfolding insert_order
  insert_order-fresh row db h = rw h refl

  submit_exit-eq-fresh :
      (broker : Broker A) (today : Today) (now : ℕ) (fills : List (Fill A)) (position : Position A)
      (x : ExitResult A) (current : A) (w : World A)
      → get_unresolved_orders position.strategy_id position.symbol sell w.db ≡ []
      → submit_exit broker today now fills position x current w
        ≡ fresh_exit broker today now position x current w
  unfolding submit_exit ◌>>=◌ find_unresolved_match
  submit_exit-eq-fresh broker today now fills position x current w h =
      ap
        (λ (l : List (Order A)).
          submit_with broker today now position x current l (find_unresolved_match l fills) w)
        h

  -- An order in flight is among the unresolved ones.
  IsInFlight-unresolved :
      (s t : String) (w : World A)
      → IsInFlight s t w
      → get_unresolved_orders s t sell w.db ≡ []
      → true ≡ false
  unfolding get_unresolved_orders
  IsInFlight-unresolved s t w h none_left =
      sym h
      ∙ any-keep_if_nil (unresolved_for s t sell) w.db.orders
          (sort_by-eq-nil by_submission (keep_if (unresolved_for s t sell) w.db.orders) none_left)

  fresh_exit-IsInFlight :
      (broker : Broker A) (today : Today) (now : ℕ) (position : Position A) (x : ExitResult A)
      (current : A) (w : World A)
      → same_venue position.venue ibkr_paper ≡ true
      → any (has_ref (exit_order now today position x.reason).order_ref) w.db.orders ≡ false
      → IsInFlight position.strategy_id position.symbol
          (fresh_exit broker today now position x current w).1
  unfolding fresh_exit
  fresh_exit-IsInFlight broker today now position x current w stock fresh =
      let P = IsInFlight position.strategy_id position.symbol in
      let row = exit_order now today position x.reason in
      let recorded = insert_order-fresh row w.db fresh in
      execute-Reaches P _ _ w recorded (
        bind-Keeps P _ _
          (dispatch-IsInFlight broker position current row.order_ref position.strategy_id
            position.symbol stock)
          (λ _.
            settle-IsInFlight position.strategy_id position.symbol now position _ _ _ _ current
              false)
          _ (insert_order-IsInFlight now today position x.reason w.db _ recorded))

  -- When a stock exit found no unresolved order and its reference was new, then however that
  -- attempt ended, a raise of the broker included, the next attempt on a position of the same
  -- strategy and symbol sends no order, on whatever day, at whatever price and with whatever fills.
  pub submit_exit-once :
      (broker later_broker : Broker A) (today later_today : Today) (now later : ℕ)
      (fills later_fills : List (Fill A)) (position other : Position A) (x later_x : ExitResult A)
      (current later_price : A) (w : World A)
      → same_venue position.venue ibkr_paper ≡ true
      → get_unresolved_orders position.strategy_id position.symbol sell w.db ≡ []
      → any (has_ref (exit_order now today position x.reason).order_ref) w.db.orders ≡ false
      → other.strategy_id ≡ position.strategy_id
      → other.symbol ≡ position.symbol
      → let attempted = (submit_exit broker today now fills position x current w).1 in
        (submit_exit later_broker later_today later later_fills other later_x later_price
          attempted).1.placed
        ≡ attempted.placed
  submit_exit-once broker later_broker today later_today now later fills later_fills position other
        x later_x current later_price w stock none_unresolved fresh same_strategy same_symbol =
      let attempted = (submit_exit broker today now fills position x current w).1 in
      elim (submit_exit-sends later_broker later_today later later_fills other later_x later_price
        attempted) [
          | inl same ↦ same
          | inr (empty, _, _) ↦
              let in_flight =
                subst (λ (v : World A). IsInFlight position.strategy_id position.symbol v)
                  (ap (λ r. r.1)
                    (sym (
                      submit_exit-eq-fresh broker today now fills position x current w
                        none_unresolved)))
                  (fresh_exit-IsInFlight broker today now position x current w stock fresh) in
              let bad : true ≡ false =
                IsInFlight-unresolved position.strategy_id position.symbol attempted in_flight (
                  sym (
                    ap (λ s. get_unresolved_orders s other.symbol sell attempted.db) same_strategy
                    ∙ ap (λ t. get_unresolved_orders position.strategy_id t sell attempted.db)
                        same_symbol)
                  ∙ empty) in
              cc
        ]

-- ===== src/Paper/Ledger/Scope.antt =====
-- The scoped and the unscoped query for unresolved orders of trader/paper/ledger.py.
use trader_pxg.Base.{String, ◌≡◌, refl, Bool, ◌&&◌, ◌==◌, keep_if, keep_if-keep_if}
use trader_pxg.Base.Sorting.{IsSorted, keep_if-sort_by, sort_by-IsSorted}
use trader_pxg.Paper.Store.{Side, same_side, Order, Db, is_unresolved}
use trader_pxg.Paper.Ledger.{get_unresolved_orders, get_all_unresolved_orders, unresolved_for}

module _ {A : Type 0} where
  -- The three columns that the scoped query names.
  abbrev pub in_scope : String → String → Side → Order A → Bool
  in_scope strategy_id symbol side row =
      row.strategy_id == strategy_id && row.symbol == symbol && same_side row.side side

  -- The scoped query is the unscoped one restricted to its strategy, symbol and side, in the same
  -- order, and both are in the order of submission.
  pub unresolved-scoped :
      (strategy_id symbol : String) (side : Side) (db : Db A)
      → (get_unresolved_orders strategy_id symbol side db
          ≡ keep_if (in_scope strategy_id symbol side) (get_all_unresolved_orders db))
        × IsSorted (λ (row : Order A). row.submitted_ts) (get_all_unresolved_orders db)
        × IsSorted
            (λ (row : Order A). row.submitted_ts)
            (get_unresolved_orders strategy_id symbol side db)
  unfolding get_unresolved_orders get_all_unresolved_orders
  unresolved-scoped strategy_id symbol side db = (
    rw
        (
          keep_if-sort_by (λ (row : Order A). row.submitted_ts) (in_scope strategy_id symbol side)
              (keep_if (λ row. is_unresolved row.status) db.orders),
          keep_if-keep_if (in_scope strategy_id symbol side) (λ row. is_unresolved row.status)
              db.orders,
        )
        refl,
    sort_by-IsSorted (λ (row : Order A). row.submitted_ts)
        (keep_if (λ row. is_unresolved row.status) db.orders),
    sort_by-IsSorted (λ (row : Order A). row.submitted_ts)
        (keep_if (unresolved_for strategy_id symbol side) db.orders),
  )

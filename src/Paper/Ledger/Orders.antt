-- ===== src/Paper/Ledger/Orders.antt =====
-- The orders table under the statements of trader/paper/ledger.py.
use trader_pxg.Base.{
  ℕ, String, ◌≡◌, refl, ap, false, not, ◌&&◌, Option, List, [], ◌∷◌, ◌++◌, ◌==◌, eq_iff, arith, any,
  keep_if, update_where, Float, ok,
}
use trader_pxg.Paper.Store.{pending_submit, Order, Db, is_unresolved}
use trader_pxg.Paper.Ledger.{has_ref, insert_order, heal_order, get_pending_order_qty, is_pending}

module _ {A : Type 0} where
  -- No two rows have one reference.
  abbrev pub AreUnique : List (Order A) → Type 0
  AreUnique [] = Unit
  AreUnique (row ∷ rows) = (any (has_ref row.order_ref) rows ≡ false) × AreUnique rows

  pub any-update :
      (ref k : String) (g : Order A → Order A) (rows : List (Order A))
      → ((row : Order A) → (g row).order_ref ≡ row.order_ref)
      → any (has_ref k) (update_where (has_ref ref) g rows) ≡ any (has_ref k) rows
  any-update ref k g [] same = refl
  any-update ref k g (row ∷ rows) same = ground (arith, same row, any-update ref k g rows same)

  pub update-AreUnique :
      (ref : String) (g : Order A → Order A) (rows : List (Order A))
      → ((row : Order A) → (g row).order_ref ≡ row.order_ref)
      → AreUnique rows
      → AreUnique (update_where (has_ref ref) g rows)
  update-AreUnique ref g [] same u = tt
  update-AreUnique ref g (row ∷ rows) same (fresh, u) = ground (
    arith,
    same row,
    any-update ref row.order_ref g rows same,
    update-AreUnique ref g rows same u,
  )

  any-append_one :
      (k : String) (rows : List (Order A)) (new : Order A)
      → any (has_ref k) rows ≡ false
      → (new.order_ref == k) ≡ false
      → any (has_ref k) (rows ++ new ∷ []) ≡ false
  any-append_one k [] new h n = ground arith
  any-append_one k (row ∷ rows) new h n = ground (arith, any-append_one k rows new)

  pub append-AreUnique :
      (rows : List (Order A)) (new : Order A)
      → any (has_ref new.order_ref) rows ≡ false
      → AreUnique rows
      → AreUnique (rows ++ new ∷ [])
  append-AreUnique [] new h u = (refl, tt)
  append-AreUnique (row ∷ rows) new h (fresh, u) = ground (
    arith,
    eq_iff row.order_ref new.order_ref,
    eq_iff new.order_ref row.order_ref,
    any-append_one row.order_ref rows new,
    append-AreUnique rows new,
  )

  heal-unresolved :
      (ref : String) (g : Order A → Order A) (rows : List (Order A))
      → ((row : Order A) → is_unresolved (g row).status ≡ false)
      → keep_if (λ row. is_unresolved row.status) (update_where (has_ref ref) g rows)
        ≡ keep_if (λ row. is_unresolved row.status && not (has_ref ref row)) rows
  heal-unresolved ref g [] done = refl
  heal-unresolved ref g (row ∷ rows) done =
      ground (arith, done row, heal-unresolved ref g rows done)

  update-twice :
      (ref : String) (g : Order A → Order A) (rows : List (Order A))
      → ((row : Order A) → (g row).order_ref ≡ row.order_ref)
      → ((row : Order A) → g (g row) ≡ g row)
      → update_where (has_ref ref) g (update_where (has_ref ref) g rows)
        ≡ update_where (has_ref ref) g rows
  update-twice ref g [] same twice = refl
  update-twice ref g (row ∷ rows) same twice =
      ground (arith, same row, twice row, update-twice ref g rows same twice)

  -- Healing an order takes exactly its row out of the unresolved ones, in whatever order they
  -- stand, and healing it again changes nothing.
  pub heal_order-resolves :
      (ref : String) (perm_id : Option ℕ) (price : Option A) (ts : ℕ) (db : Db A)
      → let healed = heal_order ref perm_id price ts db in
        (keep_if (λ row. is_unresolved row.status) healed.orders
          ≡ keep_if (λ row. is_unresolved row.status && not (has_ref ref row)) db.orders)
        × (heal_order ref perm_id price ts healed ≡ healed)
  unfolding heal_order
  heal_order-resolves ref perm_id price ts db = (
    heal-unresolved ref _ db.orders (λ row. refl),
    ap (λ (l : List (Order A)). record db { orders = l })
        (update-twice ref _ db.orders (λ row. refl) (λ row. refl)),
  )

module _ {A : Type 0} ⦃f : Float A⦄ where
  keep_if-append_one :
      (rows : List (Order A)) (new : Order A)
      → is_pending new ≡ false
      → keep_if is_pending (rows ++ new ∷ []) ≡ keep_if is_pending rows
  keep_if-append_one [] new h = ground arith
  keep_if-append_one (row ∷ rows) new h = ground (arith, keep_if-append_one rows new h)

  -- An order that was only decided on, and not yet acknowledged, explains no quantity at the broker.
  pub pending-insert_order :
      (row : Order A) (db db' : Db A)
      → row.status ≡ pending_submit
      → insert_order row db ≡ ok db'
      → get_pending_order_qty db' ≡ get_pending_order_qty db
  unfolding insert_order get_pending_order_qty
  pending-insert_order row db db' e h = ground (arith, keep_if-append_one db.orders row)

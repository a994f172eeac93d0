-- ===== src/Paper/Guardian/Persist.antt =====
-- The order of writes and calls in trader/paper/guardian.py: the row before the broker.
use trader_pxg.Base.{
  ◌||◌, ◌∙◌, ℕ, String, ◌≡◌, refl, Bool, true, false, Option, none, some, List, [], ◌∷◌, ◌==◌,
  eq_refl, arith, any, any-append, All, if◌then◌else◌, Float, ok,
}
use trader_pxg.Backtest.Exits.{Reason, ExitResult}
use trader_pxg.Paper.Store.{
  is_filled, submitted, filled, OrderStatus, Order, Position, Db, ibkr_paper, same_venue,
}
use trader_pxg.Paper.Idempotency.{Fill, find_unresolved_match}
use trader_pxg.Paper.Ledger.{
  Exit, has_ref, insert_order, heal_order, update_order_status, close_position,
}
use trader_pxg.Paper.Ledger.Orders.{AreUnique, any-update, update-AreUnique, append-AreUnique}
use trader_pxg.Paper.World.{World, Placed, Broker, modify, execute}
use trader_pxg.Paper.World.Keeps.{
  Keeps, bind-Leads, execute-Leads, bind-Keeps, execute-Keeps, if-Keeps,
}
use trader_pxg.Paper.Guardian.{
  or_else, Today, exit_order, settle, heal_exit, dispatch, fresh_exit, submit_with, submit_exit,
}

module _ {A : Type 0} where
  abbrev pub IsKnown : String → Db A → Type 0
  IsKnown order_ref db = any (has_ref order_ref) db.orders ≡ true

  -- The references are unique, and there is a row for every order that was sent to the broker.
  abbrev pub IsPersisted : World A → Type 0
  IsPersisted w = AreUnique w.db.orders × All (λ (c : Placed A). IsKnown c.order_ref w.db) w.placed

  -- A change of the database that keeps references unique and known.
  abbrev pub KeepsOrders : Db A → Db A → Type 0
  KeepsOrders before after =
      (AreUnique before.orders → AreUnique after.orders)
      × ((k : String) → IsKnown k before → IsKnown k after)

  IsKnown-All :
      (before after : Db A) (calls : List (Placed A))
      → ((k : String) → IsKnown k before → IsKnown k after)
      → All (λ (c : Placed A). IsKnown c.order_ref before) calls
      → All (λ (c : Placed A). IsKnown c.order_ref after) calls
  IsKnown-All before after [] h all = tt
  IsKnown-All before after (c ∷ calls) h (known, all) =
      (h c.order_ref known, IsKnown-All before after calls h all)

  -- The invariant, and that one reference has its row.
  abbrev pub IsReady : String → World A → Type 0
  IsReady ref w = IsPersisted w × IsKnown ref w.db

  pub KeepsOrders-IsPersisted :
      (w : World A) (after : Db A)
      → KeepsOrders w.db after
      → IsPersisted w
      → IsPersisted (record w { db = after })
  KeepsOrders-IsPersisted w after (unique, known) (u, all) =
      (unique u, IsKnown-All w.db after w.placed known all)

  pub heal-KeepsOrders :
      (ref : String) (perm_id : Option ℕ) (price : Option A) (now : ℕ) (db : Db A)
      → KeepsOrders db (heal_order ref perm_id price now db)
  unfolding heal_order
  heal-KeepsOrders ref perm_id price now db = (
    update-AreUnique ref _ db.orders (λ row. refl),
    λ k h. any-update ref k _ db.orders (λ row. refl) ∙ h,
  )

  pub heal-unless :
      (done : Bool) (ref : String) (perm_id : Option ℕ) (price : Option A) (now : ℕ) (db : Db A)
      → KeepsOrders db (if done then db else heal_order ref perm_id price now db)
  heal-unless true ref perm_id price now db = (λ u. u, λ k known. known)
  heal-unless false ref perm_id price now db = heal-KeepsOrders ref perm_id price now db

  pub update-KeepsOrders :
      (ref : String) (status : OrderStatus) (ts : Option ℕ) (price : Option A) (perm_id : Option ℕ)
      (db : Db A)
      → KeepsOrders db (update_order_status ref status ts price perm_id db)
  unfolding update_order_status
  update-KeepsOrders ref status ts price perm_id db = (
    update-AreUnique ref _ db.orders (λ row. refl),
    λ k h. any-update ref k _ db.orders (λ row. refl) ∙ h,
  )

  pub close_position-orders :
      (position_id : ℕ) (x : Exit A) (db db' : Db A)
      → close_position position_id x db ≡ ok db'
      → db'.orders ≡ db.orders
  unfolding close_position
  close_position-orders position_id x db db' h = ground arith

  record-known :
      (row : Order A) (db db' : Db A) (k : String)
      → insert_order row db ≡ ok db'
      → any (has_ref k) db'.orders ≡ (any (has_ref k) db.orders || row.order_ref == k)
  unfolding insert_order
  record-known row db db' k h = ground (arith, any-append (has_ref k) db.orders (row ∷ []))

  record-AreUnique :
      (row : Order A) (db db' : Db A)
      → insert_order row db ≡ ok db'
      → AreUnique db.orders
      → AreUnique db'.orders
  unfolding insert_order
  record-AreUnique row db db' h u = ground (arith, append-AreUnique db.orders row)

  -- After an INSERT that did not raise, the reference of the new row is known.
  pub record-IsReady :
      (row : Order A) (w : World A) (db : Db A)
      → insert_order row w.db ≡ ok db
      → IsPersisted w
      → IsReady row.order_ref (record w { db = db })
  record-IsReady row w db h (u, all) = (
    (
      record-AreUnique row w.db db h u,
      IsKnown-All w.db db w.placed (λ k known. ground (arith, record-known row w.db db k h)) all,
    ),
    ground (arith, record-known row w.db db row.order_ref h, eq_refl row.order_ref),
  )

  pub modify-IsReady :
      (ref : String) (g : Db A → Db A)
      → ((db : Db A) → KeepsOrders db (g db))
      → Keeps (IsReady ref) (modify g)
  modify-IsReady ref g h w (p, known) =
      (KeepsOrders-IsPersisted w (g w.db) (h w.db) p, (h w.db).1 ref known)

  close-IsPersisted :
      (position_id : ℕ) (x : Exit A) → Keeps IsPersisted (execute (close_position position_id x))
  close-IsPersisted position_id x =
      execute-Keeps IsPersisted (close_position position_id x) (λ w db p h.
        KeepsOrders-IsPersisted w db
          (rw (close_position-orders position_id x w.db db h) (λ u. u, λ k known. known)) p)

module _ {A : Type 0} ⦃f : Float A⦄ where
  settle-IsPersisted :
      (now : ℕ) (position : Position A) (price : A) (reason : Reason) (ref : String)
      (qty current : A) (healed : Bool)
      → Keeps IsPersisted (settle now position price reason ref qty current healed)
  unfolding settle
  settle-IsPersisted now position price reason ref qty current healed =
      bind-Keeps IsPersisted _ _ (λ w p. p)
        (λ fees.
          bind-Keeps IsPersisted _ _ (close-IsPersisted position.position_id _)
            (λ _. bind-Keeps IsPersisted _ _ (λ w p. p) (λ _ w p. p)))

  dispatch-IsReady :
      (broker : Broker A) (position : Position A) (current : A) (ref : String)
      → Keeps (IsReady ref) (dispatch broker position current ref)
  unfolding dispatch
  dispatch-IsReady broker position current ref =
      if-Keeps (IsReady ref) (same_venue position.venue ibkr_paper) _ _
        (bind-Keeps (IsReady ref) _ _ (λ w ((u, all), known). ((u, (known, all)), known))
          (λ perm_id.
            modify-IsReady ref (update_order_status ref submitted none none (some perm_id))
              (update-KeepsOrders ref submitted none none (some perm_id))))
        (bind-Keeps (IsReady ref) _ _ (λ w p. p)
          (λ price.
            modify-IsReady ref (update_order_status ref filled none (some price) none)
              (update-KeepsOrders ref filled none (some price) none)))

  heal_exit-IsPersisted :
      (now : ℕ) (position : Position A) (x : ExitResult A) (current : A) (row : Order A)
      (fill : Fill A)
      → Keeps IsPersisted (heal_exit now position x current row fill)
  unfolding heal_exit
  heal_exit-IsPersisted now position x current row fill =
      bind-Keeps IsPersisted _ _
        (λ w p.
          KeepsOrders-IsPersisted w
            (if is_filled row.status
              then w.db
              else heal_order row.order_ref fill.perm_id (some (or_else fill.fill_price current))
                  now w.db)
            (heal-unless (is_filled row.status) row.order_ref fill.perm_id _ now w.db) p)
        (λ _.
          bind-Keeps IsPersisted _ _ (λ w p. p)
            (λ still_open.
              if-Keeps IsPersisted still_open _ _
                (settle-IsPersisted now position _ _ _ _ current true) (λ w p. p)))

  fresh_exit-IsPersisted :
      (broker : Broker A) (today : Today) (now : ℕ) (position : Position A) (x : ExitResult A)
      (current : A)
      → Keeps IsPersisted (fresh_exit broker today now position x current)
  unfolding fresh_exit
  fresh_exit-IsPersisted broker today now position x current =
      execute-Leads IsPersisted IsPersisted _ _ (λ w p. p)
        (λ w db p e.
          bind-Leads (IsReady _) (IsReady _) IsPersisted _ _
            (dispatch-IsReady broker position current _) (λ w' ready. ready.0)
            (λ _ w' ready. settle-IsPersisted now position _ _ _ _ current false w' ready.0)
            (record w { db = db })
            (record-IsReady (exit_order now today position x.reason) w db e p))

  pub submit_exit-IsPersisted :
      (broker : Broker A) (today : Today) (now : ℕ) (fills : List (Fill A)) (position : Position A)
      (x : ExitResult A) (current : A)
      → Keeps IsPersisted (submit_exit broker today now fills position x current)
  unfolding submit_exit
  submit_exit-IsPersisted broker today now fills position x current =
      bind-Keeps IsPersisted _ _ (λ w p. p)
        (λ unresolved. cases unresolved (find_unresolved_match unresolved fills))
    where
      cases :
          (unresolved : List (Order A)) (match : Option (Order A × Fill A))
          → Keeps IsPersisted (submit_with broker today now position x current unresolved match)
      cases unresolved (some (row, fill)) = heal_exit-IsPersisted now position x current row fill
      cases [] none = fresh_exit-IsPersisted broker today now position x current
      cases (_ ∷ _) none = λ w p. p

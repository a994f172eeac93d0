-- ===== src/Paper/Guardian/Books.antt =====
-- The trade and the position when trader/paper/guardian.py submits an exit.
use mathlib.Core.Path.{subst}
use trader_pxg.Base.{
  ℕ, String, ◌≡◌, refl, sym, ap, ◌∙◌, ◌⊎◌, inl, inr, Bool, true, false, not, Option, none, some,
  List, [], ◌∷◌, ◌++◌, arith, keep_if, length, count_if, In, if◌then◌else◌, Float, Result, Error,
  ok, err,
}
use trader_pxg.Backtest.Exits.{Reason, ExitResult}
use trader_pxg.Paper.Store.{Order, Position, Db, ibkr_paper, same_venue, is_filled}
use trader_pxg.Paper.Idempotency.{Fill, find_unresolved_match}
use trader_pxg.Paper.Ledger.{
  Exit, has_id, insert_order, heal_order, update_order_status, trade_of, get_open_positions,
}
use trader_pxg.Paper.Ledger.Positions.{IsBooked, AreNumbered, is_closed, close_position-books}
use trader_pxg.Paper.World.{World, exited, Broker}
use trader_pxg.Paper.World.Keeps.{
  notify-pure, Keeps, Ends, bind-Keeps, bind-Ends, execute-Ends, execute-Keeps, if-Keeps, if-Ends,
}
use trader_pxg.Paper.Guardian.{
  Today, Exited, or_else, booked_exit, settle, heal_exit, dispatch, fresh_exit, submit_with,
  submit_exit,
}

module _ {A : Type 0} (before : Db A) (p : Position A) where
  -- The positions and trades are still those of the start.
  abbrev pub HasSameBooks : World A → Type 0
  HasSameBooks w = (w.db.positions ≡ before.positions) × (w.db.trades ≡ before.trades)

  -- The entry of the summary is about the position and its exit.
  abbrev Reports : Exited → Exit A → Type 0
  Reports e x =
      (e.position_id ≡ p.position_id)
      × (e.symbol ≡ p.symbol)
      × (e.reason ≡ x.exit_reason)
      × (e.order_ref ≡ x.exit_order_ref)

  -- How an attempt ends: with the books as they were and no entry of the summary, or with an entry
  -- of the position and its exit, the position closed, and its trade at the end of the table.
  abbrev pub IsSettled : Result (Option Exited) × World A → Type 0
  IsSettled (r, w) =
      HasSameBooks w × ((r ≡ ok none) ⊎ ((e : Error) × (r ≡ err e)))
      ⊎ ((e : Exited) × (x : Exit A) × (r ≡ ok (some e))
          × Reports e x
          × (w.db.trades ≡ before.trades ++ trade_of p x ∷ [])
          × (get_open_positions none w.db
              ≡ keep_if (λ q. not (has_id p.position_id q)) (get_open_positions none before)))

  abbrev pub IsSettledAndBooked : Result (Option Exited) × World A → Type 0
  IsSettledAndBooked (r, w) = IsBooked w.db × IsSettled (r, w)

  HasSameBooks-IsBooked : IsBooked before → (w : World A) → HasSameBooks w → IsBooked w.db
  HasSameBooks-IsBooked booked w (same, same_trades) = record {
    numbered = subst (λ ps. AreNumbered 0 ps) (sym same) booked.numbered;
    one_trade_each =
        ap (λ ts. length ts) same_trades
        ∙ booked.one_trade_each
        ∙ ap (λ ps. count_if is_closed ps) (sym same);
  }

  raised-IsSettled :
      IsBooked before → (w : World A) (e : Error) → HasSameBooks w → IsSettledAndBooked (err e, w)
  raised-IsSettled booked w e same =
      (HasSameBooks-IsBooked booked w same, inl (same, inr (e, refl)))

  unchanged-IsSettled :
      IsBooked before → (w : World A) → HasSameBooks w → IsSettledAndBooked (ok none, w)
  unchanged-IsSettled booked w same = (HasSameBooks-IsBooked booked w same, inl (same, inl refl))

  -- The same books with one close after them.
  closed-IsSettled :
      (w : World A) (db : Db A) (e : Exited) (x : Exit A)
      → Reports e x
      → HasSameBooks w
      → IsBooked db
      → db.trades ≡ w.db.trades ++ trade_of p x ∷ []
      → get_open_positions none db
        ≡ keep_if (λ q. not (has_id p.position_id q)) (get_open_positions none w.db)
      → (v : World A) → v.db ≡ db
      → IsSettledAndBooked (ok (some e), v)
  unfolding get_open_positions
  closed-IsSettled w db e x reports (same, same_trades) booked trades opened v at =
      subst (λ (d : Db A). IsBooked d × IsSettled (ok (some e), record v { db = d })) (sym at)
        (
          booked,
          inr (
            e,
            x,
            refl,
            reports,
            trades ∙ ap (λ ts. ts ++ trade_of p x ∷ []) same_trades,
            opened
                ∙ ap
                    (λ ps.
                      keep_if (λ (q : Position A). not (has_id p.position_id q))
                        (keep_if (λ (q : Position A). q.is_open) ps))
                    same,
          ),
        )

  insert_order-HasSameBooks :
      (row : Order A) (w : World A) (db : Db A)
      → HasSameBooks w
      → insert_order row w.db ≡ ok db
      → HasSameBooks (record w { db = db })
  unfolding insert_order
  insert_order-HasSameBooks row w db same h = ground (arith, same)

module _ {A : Type 0} ⦃f : Float A⦄ where
  settle-IsSettled :
      (before : Db A) (position : Position A)
      → IsBooked before
      → In position before.positions
      → position.is_open ≡ true
      → (now : ℕ) (price : A) (reason : Reason) (ref : String) (qty current : A) (healed : Bool)
      → Ends
          (HasSameBooks before position)
          (IsSettledAndBooked before position)
          (settle now position price reason ref qty current healed)
  unfolding settle
  settle-IsSettled before position booked i is_open now price reason ref qty current healed =
      let P = HasSameBooks before position in
      let R = IsSettledAndBooked before position in
      bind-Ends P P R _ _ (λ w p. p) (raised-IsSettled before position booked)
        (λ fees w same.
          let (db, closes, booked', trades, opened) =
            close_position-books position
              (booked_exit now position price reason ref qty current fees) w.db
              (HasSameBooks-IsBooked before position booked w same)
              (subst (λ ps. In position ps) (sym same.0) i) is_open in
          execute-Ends R _ _ w closes (
            subst R (sym (notify-pure _ _ (record w { db = db }))) (
              closed-IsSettled before position w db _
                (booked_exit now position price reason ref qty current fees)
                (refl, refl, refl, refl) same booked' trades opened
                (record w {
                  db = db;
                  notices = exited position.symbol reason price healed ∷ w.notices;
                })
                refl)))

  heal_exit-IsSettled :
      (before : Db A) (position : Position A)
      → IsBooked before
      → In position before.positions
      → position.is_open ≡ true
      → (now : ℕ) (x : ExitResult A) (current : A) (row : Order A) (fill : Fill A)
      → Ends
          (HasSameBooks before position)
          (IsSettledAndBooked before position)
          (heal_exit now position x current row fill)
  unfolding heal_exit heal_order
  heal_exit-IsSettled before position booked i is_open now x current row fill =
      let P = HasSameBooks before position in
      let R = IsSettledAndBooked before position in
      bind-Ends P P R _ _ (λ w same. healed_books (is_filled row.status) w same)
        (raised-IsSettled before position booked)
        (λ _.
          bind-Ends P P R _ _ (λ w same. same) (raised-IsSettled before position booked)
            (λ still_open.
              if-Ends P R still_open _ _
                (settle-IsSettled before position booked i is_open now _ _ _ _ current true)
                (unchanged-IsSettled before position booked)))
    where
      healed_books :
          (done : Bool) (w : World A)
          → HasSameBooks before position w
          → HasSameBooks before position (record w {
            db =
                if done
                then w.db
                else heal_order row.order_ref fill.perm_id
                    (some (or_else fill.fill_price current))
                    now
                    w.db;
          })
      healed_books true w same = same
      healed_books false w same = same

  dispatch-HasSameBooks :
      (before : Db A) (broker : Broker A) (position : Position A) (current : A) (ref : String)
      → Keeps (HasSameBooks before position) (dispatch broker position current ref)
  unfolding dispatch update_order_status
  dispatch-HasSameBooks before broker position current ref =
      let P = HasSameBooks before position in
      if-Keeps P (same_venue position.venue ibkr_paper) _ _
        (bind-Keeps P _ _ (λ w p. p) (λ perm_id w p. p))
        (bind-Keeps P _ _ (λ w p. p) (λ price w p. p))

  fresh_exit-IsSettled :
      (before : Db A) (broker : Broker A) (today : Today) (position : Position A)
      → IsBooked before
      → In position before.positions
      → position.is_open ≡ true
      → (now : ℕ) (x : ExitResult A) (current : A)
      → Ends
          (HasSameBooks before position)
          (IsSettledAndBooked before position)
          (fresh_exit broker today now position x current)
  unfolding fresh_exit
  fresh_exit-IsSettled before broker today position booked i is_open now x current =
      let P = HasSameBooks before position in
      let R = IsSettledAndBooked before position in
      bind-Ends P P R _ _ (execute-Keeps P _ (insert_order-HasSameBooks before position _))
        (raised-IsSettled before position booked)
        (λ _.
          bind-Ends P P R _ _ (dispatch-HasSameBooks before broker position current _)
            (raised-IsSettled before position booked)
            (λ _. settle-IsSettled before position booked i is_open now _ _ _ _ current false))

  -- An attempt on an open position of the table ends settled, with one trade for each closed
  -- position: no raise leaves a closed position without its trade, nor a trade of an open one.
  pub submit_exit-books :
      (broker : Broker A) (today : Today) (now : ℕ) (fills : List (Fill A)) (position : Position A)
      (x : ExitResult A) (current : A) (w : World A)
      → IsBooked w.db
      → In position w.db.positions
      → position.is_open ≡ true
      → IsBooked (submit_exit broker today now fills position x current w).1.db
        × IsSettled w.db position (submit_exit broker today now fills position x current w)
  unfolding submit_exit
  submit_exit-books broker today now fills position x current w booked i is_open =
      let P = HasSameBooks w.db position in
      let R = IsSettledAndBooked w.db position in
      bind-Ends P P R _ _ (λ v same. same) (raised-IsSettled w.db position booked)
        (λ unresolved. cases unresolved (find_unresolved_match unresolved fills)) w (refl, refl)
    where
      cases :
          (unresolved : List (Order A)) (match : Option (Order A × Fill A))
          → Ends
              (HasSameBooks w.db position)
              (IsSettledAndBooked w.db position)
              (submit_with broker today now position x current unresolved match)
      cases unresolved (some (row, fill)) =
          heal_exit-IsSettled w.db position booked i is_open now x current row fill
      cases [] none = fresh_exit-IsSettled w.db broker today position booked i is_open now x current
      cases (_ ∷ _) none = unchanged-IsSettled w.db position booked

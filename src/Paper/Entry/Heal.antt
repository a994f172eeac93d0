-- ===== src/Paper/Entry/Heal.antt =====
-- The heal pass of trader/paper/entry_pipeline.py, on one order that a fill matches.
use trader_pxg.Base.{
  ℕ, ◌≡◌, refl, ap, ◌∙◌, true, ◌&&◌, Option, none, some, List, [], ◌∷◌, ◌++◌, ◌==◌, eq_refl, any,
  any-append, Bool-cases, inl, inr, arith, if◌then◌else◌, ok, suc, length,
}
use trader_pxg.Paper.Store.{Order, Position, Db, is_filled, ibkr_paper}
use trader_pxg.Paper.Idempotency.{Fill}
use trader_pxg.Paper.Ledger.{heal_order, open_position}
use trader_pxg.Paper.World.{World, Broker, healed_entry, ◌>>=◌}
use trader_pxg.Paper.Entry.Run.{
  healed_row, has_open_position_for_order_ref, healing_price, opened, heal_matched,
}
use trader_pxg.Tournament.Live.{LiveStrategy}

module _ {A : Type 0} where
  -- The position that a healed order opens, at a price.
  abbrev pub healed_position : ℕ → Order A → LiveStrategy A → A → List (Position A) → Position A
  healed_position now row cfg price positions = record {
    position_id = suc (length positions);
    strategy_id = row.strategy_id;
    symbol = row.symbol;
    venue = ibkr_paper;
    asset_class = "stock";
    qty = row.qty;
    entry_price = price;
    entry_ts = now;
    entry_order_ref = row.order_ref;
    exit_profile = cfg.exit_profile;
    watermark = none;
    is_open = true;
  }

  healed_row-positions :
      (now : ℕ) (row : Order A) (fill : Fill A) (price : Option A) (db : Db A)
      → (healed_row now row fill price db).positions ≡ db.positions
  unfolding healed_row heal_order
  healed_row-positions now row fill price db = elim (Bool-cases (is_filled row.status)) [
    | inl e ↦ rw e refl
    | inr e ↦ rw e refl
  ]

  -- Healing an order, where the price that it may need is to be had, returns its reference, sends
  -- nothing and alerts of it. It opens one position of the order's quantity when no open position
  -- stands for the order, also when one stood for it and is closed; else positions stay.
  pub heal_matched-opens :
      (broker : Broker A) (now : ℕ) (row : Order A) (fill : Fill A) (cfg : LiveStrategy A)
      (price : A) (w : World A)
      → healing_price broker row.symbol fill.fill_price ≡ ok price
      → let (result, after) = heal_matched broker now row fill cfg w in
        (result ≡ ok (some row.order_ref))
        × (after.placed ≡ w.placed)
        × (after.notices ≡ healed_entry row.symbol row.strategy_id ∷ w.notices)
        × (after.db.positions ≡ (
            if has_open_position_for_order_ref row.order_ref w.db
            then w.db.positions
            else w.db.positions ++ healed_position now row cfg price w.db.positions ∷ []))
        × (has_open_position_for_order_ref row.order_ref after.db ≡ true)
  unfolding heal_matched ◌>>=◌ has_open_position_for_order_ref opened open_position
  heal_matched-opens broker now row fill cfg price w priced =
      let same = healed_row-positions now row fill fill.fill_price w.db in
      let holds = λ (p : Position A). p.entry_order_ref == row.order_ref && p.is_open in
      elim (Bool-cases (any holds w.db.positions)) [
        | inl e ↦ rw (same, e) (refl, refl, refl, same, rw same e)
        | inr e ↦
            let grown = ap (λ ps. ps ++ healed_position now row cfg price ps ∷ []) same in
            rw (same, e, priced)
              (
                refl,
                refl,
                refl,
                grown,
                ap (any holds) grown
                    ∙ any-append holds w.db.positions
                        (healed_position now row cfg price w.db.positions ∷ [])
                    ∙ ground (arith, eq_refl row.order_ref),
              )
      ]

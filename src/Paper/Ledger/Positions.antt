-- ===== src/Paper/Ledger/Positions.antt =====
-- The positions and the trades under the statements of trader/paper/ledger.py.
use trader_pxg.Base.{
  ℕ, suc, ◌+◌, ◌≤◌, String, ◌≡◌, refl, ◌∙◌, Bool, true, false, not, Option, none, some, List, [],
  ◌∷◌, ◌++◌, ◌==◌, eq_iff, eq_refl, any-append, arith, find, keep_if, update_where, length,
  length-append, count_if, count_if-append, Bool-cases, inl, inr, In, here, there, if◌then◌else◌,
  ok,
}
use trader_pxg.Backtest.Config.{ExitProfile}
use trader_pxg.Paper.Store.{Venue, Position, Db, KillReason, KillState}
use trader_pxg.Paper.Ledger.{
  has_id, open_position, get_open_positions, Exit, trade_of, close_position, update_watermark,
  is_strategy_retired, retire_strategy,
}

module _ {A : Type 0} where
  -- The ids are the places in the table, from one on.
  abbrev pub AreNumbered : ℕ → List (Position A) → Type 0
  AreNumbered n [] = Unit
  AreNumbered n (p ∷ ps) = (p.position_id ≡ suc n) × AreNumbered (suc n) ps

  abbrev pub is_closed : Position A → Bool
  is_closed p = not p.is_open

  -- Positions are numbered, and there is one trade for each that is closed.
  pub record IsBooked (db : Db A) : Type 0 where
    pub numbered : AreNumbered 0 db.positions
    pub one_trade_each : length db.trades ≡ count_if is_closed db.positions

  append-AreNumbered :
      (n : ℕ) (ps : List (Position A)) (new : Position A)
      → AreNumbered n ps
      → new.position_id ≡ suc (n + length ps)
      → AreNumbered n (ps ++ new ∷ [])
  append-AreNumbered n [] new h e = (e ∙ omega arith, tt)
  append-AreNumbered n (p ∷ ps) new (h, hs) e =
      (h, append-AreNumbered (suc n) ps new hs (e ∙ omega arith))

  update-AreNumbered :
      (n k : ℕ) (g : Position A → Position A) (ps : List (Position A))
      → ((p : Position A) → (g p).position_id ≡ p.position_id)
      → AreNumbered n ps
      → AreNumbered n (update_where (has_id k) g ps)
  update-AreNumbered n k g [] same h = tt
  update-AreNumbered n k g (p ∷ ps) same (h, hs) =
      ground (arith, same p, update-AreNumbered (suc n) k g ps same hs)

  update_absent :
      (n k : ℕ) (g : Position A → Position A) (ps : List (Position A))
      → AreNumbered n ps
      → k ≤ n
      → update_where (has_id k) g ps ≡ ps
  update_absent n k g [] h le = refl
  update_absent n k g (p ∷ ps) (h, hs) le =
      ground (arith, update_absent (suc n) k g ps hs (omega arith))

  count-update_same :
      (k : ℕ) (g : Position A → Position A) (ps : List (Position A))
      → ((p : Position A) → (g p).is_open ≡ p.is_open)
      → count_if is_closed (update_where (has_id k) g ps) ≡ count_if is_closed ps
  count-update_same k g [] same = refl
  count-update_same k g (p ∷ ps) same = ground (arith, same p, count-update_same k g ps same)

  abbrev shut : Position A → Position A
  shut p = record p { is_open = false }

  count-close :
      (n k : ℕ) (ps : List (Position A)) (p : Position A)
      → AreNumbered n ps
      → find (has_id k) ps ≡ some p
      → p.is_open ≡ true
      → count_if is_closed (update_where (has_id k) shut ps) ≡ suc (count_if is_closed ps)
  count-close n k [] p h e o = cc
  count-close n k (q ∷ ps) p (h, hs) e o = elim (Bool-cases (has_id k q)) [
    | inl same ↦ ground (arith, update_absent (suc n) k shut ps hs (ground arith))
    | inr other ↦ ground (arith, count-close (suc n) k ps p hs)
  ]

  keep-close :
      (k : ℕ) (ps : List (Position A))
      → keep_if (λ p. p.is_open) (update_where (has_id k) shut ps)
        ≡ keep_if (λ p. not (has_id k p)) (keep_if (λ p. p.is_open) ps)
  keep-close k [] = refl
  keep-close k (p ∷ ps) = ground (arith, keep-close k ps)

  -- A position of a numbered table is the one that its id finds.
  pub find-numbered :
      (n : ℕ) (ps : List (Position A)) (p : Position A)
      → AreNumbered n ps
      → In p ps
      → (suc n ≤ p.position_id) × (find (has_id p.position_id) ps ≡ some p)
  find-numbered n [] p h i = elim i [ ]
  find-numbered n (q ∷ ps) p (h, hs) here = (omega arith, ground arith)
  find-numbered n (q ∷ ps) p (h, hs) (there i) =
      let (le, e) = find-numbered (suc n) ps p hs i in (omega arith, ground arith)

  -- Closing an open position appends the trade of that position, takes exactly it out of the open
  -- ones and keeps the books: one trade for each closed position.
  pub close_position-books :
      (p : Position A) (x : Exit A) (db : Db A)
      → IsBooked db
      → In p db.positions
      → p.is_open ≡ true
      → (db' : Db A) × (close_position p.position_id x db ≡ ok db')
        × IsBooked db'
        × (db'.trades ≡ db.trades ++ trade_of p x ∷ [])
        × (get_open_positions none db'
            ≡ keep_if (λ q. not (has_id p.position_id q)) (get_open_positions none db))
  unfolding close_position get_open_positions
  close_position-books p x db booked i open_now =
      let (le, found) = find-numbered 0 db.positions p booked.numbered i in
      let k = p.position_id in
      let after = update_where (has_id k) shut db.positions in
      (
        record db { positions = after; trades = db.trades ++ trade_of p x ∷ [] },
        rw (found, close_position) refl,
        record {
          numbered = update-AreNumbered 0 k shut db.positions (λ q. refl) booked.numbered;
          one_trade_each = omega (
            arith,
            length-append db.trades (trade_of p x ∷ []),
            booked.one_trade_each,
            count-close 0 k db.positions p booked.numbered found open_now,
          );
        },
        refl,
        keep-close k db.positions,
      )

  -- Opening a position and moving a watermark keep the books.
  pub open_position-books :
      (strategy_id symbol : String) (venue : Venue) (asset_class : String) (qty price : A) (ts : ℕ)
      (ref : String) (profile : ExitProfile A) (k : ℕ) (w : A) (db : Db A)
      → IsBooked db
      → IsBooked (open_position strategy_id symbol venue asset_class qty price ts ref profile db).1
        × IsBooked (update_watermark k w db)
  unfolding open_position update_watermark
  open_position-books strategy_id symbol venue asset_class qty price ts ref profile k w db booked =
      (
        record {
          numbered = append-AreNumbered 0 db.positions _ booked.numbered (omega arith);
          one_trade_each =
              omega (arith, booked.one_trade_each, count_if-append is_closed db.positions _);
        },
        record {
          numbered = update-AreNumbered 0 k _ db.positions (λ q. refl) booked.numbered;
          one_trade_each =
              booked.one_trade_each
              ∙ omega (
                arith,
                count-update_same k (λ (q : Position A). record q { watermark = some w })
                    db.positions (λ q. refl),
              );
        },
      )

  -- Retiring a strategy marks it and no other, a second time changes nothing whatever the reason,
  -- and no strategy is ever taken off the list.
  pub retire_strategy-marks :
      (s t : String) (reason again : KillReason) (value other : Option A) (db : Db A)
      → let after = retire_strategy s reason value db in
        (is_strategy_retired t after ≡ (if s == t then true else is_strategy_retired t db))
        × (retire_strategy s again other after ≡ after)
  unfolding retire_strategy is_strategy_retired
  retire_strategy-marks s t reason again value other db =
      let named = λ (r : String) (k : KillState A). k.strategy_id == r in
      (
        ground (
          arith,
          eq_iff s t,
          any-append (named t) db.kill_state
              (record { strategy_id = s; reason = reason; trigger_value = value } ∷ []),
        ),
        ground (
          arith,
          eq_refl s,
          any-append (named s) db.kill_state
              (record { strategy_id = s; reason = reason; trigger_value = value } ∷ []),
        ),
      )

-- ===== src/Paper/Guardian/Limits.antt =====
-- How often trader/paper/guardian.py sends the exit order of a position.
use trader_pxg.Base.{
  ℕ, String, ◌≡◌, refl, ap, ◌⊎◌, inl, inr, Bool, true, false, Option, none, some, List, [], ◌∷◌,
  Float,
}
use trader_pxg.Backtest.Exits.{Reason, ExitResult}
use trader_pxg.Paper.Store.{Order, Position, ibkr_paper, same_venue, sell}
use trader_pxg.Paper.Idempotency.{Fill, find_unresolved_match}
use trader_pxg.Paper.Ledger.{close_position, get_unresolved_orders}
use trader_pxg.Paper.World.{World, Placed, Broker, ◌>>=◌}
use trader_pxg.Paper.World.Keeps.{
  Keeps, Leads, bind-Keeps, bind-Leads, execute-Leads, execute-Keeps, if-Keeps, if-Leads,
}
use trader_pxg.Paper.Guardian.{
  Today, exit_order, settle, heal_exit, dispatch, fresh_exit, submit_with, submit_exit,
}

module _ {A : Type 0} where
  -- The calls that were made so far.
  abbrev pub HasSent : List (Placed A) → World A → Type 0
  HasSent calls w = w.placed ≡ calls

  abbrev pub sell_call : Position A → String → Placed A
  sell_call position ref = record {
    symbol = position.symbol;
    side = sell;
    qty = position.qty;
    order_ref = ref;
  }

  -- Since those calls nothing was sent, or the sell order of a stock position.
  abbrev pub HasSentAtMost : List (Placed A) → Position A → String → World A → Type 0
  HasSentAtMost calls position ref w =
      HasSent calls w
      ⊎ (same_venue position.venue ibkr_paper ≡ true) × HasSent (sell_call position ref ∷ calls) w

module _ {A : Type 0} ⦃f : Float A⦄ where
  settle-sends_nothing :
      (calls : List (Placed A)) (now : ℕ) (position : Position A) (price : A) (reason : Reason)
      (ref : String) (qty current : A) (healed : Bool)
      → Keeps (HasSent calls) (settle now position price reason ref qty current healed)
  unfolding settle
  settle-sends_nothing calls now position price reason ref qty current healed =
      bind-Keeps (HasSent calls) _ _ (λ w p. p)
        (λ fees.
          bind-Keeps (HasSent calls) _ _
            (execute-Keeps (HasSent calls) (close_position position.position_id _) (λ w db p h. p))
            (λ _. bind-Keeps (HasSent calls) _ _ (λ w p. p) (λ _ w p. p)))

  heal_exit-sends_nothing :
      (calls : List (Placed A)) (now : ℕ) (position : Position A) (x : ExitResult A) (current : A)
      (row : Order A) (fill : Fill A)
      → Keeps (HasSent calls) (heal_exit now position x current row fill)
  unfolding heal_exit
  heal_exit-sends_nothing calls now position x current row fill =
      bind-Keeps (HasSent calls) _ _ (λ w p. p)
        (λ _.
          bind-Keeps (HasSent calls) _ _ (λ w p. p)
            (λ still_open.
              if-Keeps (HasSent calls) still_open _ _
                (settle-sends_nothing calls now position _ _ _ _ current true) (λ w p. p)))

  -- What `dispatch` sends: the sell order of a stock position, and nothing for the simulated venue.
  dispatch-sends :
      (calls : List (Placed A)) (broker : Broker A) (position : Position A) (current : A)
      (ref : String)
      → Leads
          (HasSent calls)
          (HasSentAtMost calls position ref)
          (dispatch broker position current ref)
  unfolding dispatch
  dispatch-sends calls broker position current ref =
      if-Leads (HasSent calls) (HasSentAtMost calls position ref)
        (same_venue position.venue ibkr_paper) _ _
        (λ stock.
          bind-Leads (HasSent calls) (HasSent (sell_call position ref ∷ calls))
            (HasSentAtMost calls position ref) _ _ (λ w p. ap (λ c. sell_call position ref ∷ c) p)
            (λ w p. inr (stock, p)) (λ perm_id w p. inr (stock, p)))
        (λ crypto.
          bind-Leads (HasSent calls) (HasSent calls) (HasSentAtMost calls position ref) _ _
            (λ w p. p) (λ w p. inl p) (λ price w p. inl p))

  fresh_exit-sends :
      (calls : List (Placed A)) (broker : Broker A) (today : Today) (now : ℕ)
      (position : Position A) (x : ExitResult A) (current : A)
      → Leads
          (HasSent calls)
          (HasSentAtMost calls position (exit_order now today position x.reason).order_ref)
          (fresh_exit broker today now position x current)
  unfolding fresh_exit
  fresh_exit-sends calls broker today now position x current =
      let ref = (exit_order now today position x.reason).order_ref in
      execute-Leads (HasSent calls) (HasSentAtMost calls position ref) _ _ (λ w p. inl p)
        (λ w db p e.
          bind-Leads (HasSent calls) (HasSentAtMost calls position ref)
            (HasSentAtMost calls position ref) _ _
            (dispatch-sends calls broker position current ref) (λ v q. q)
            (λ _ v q. elim q [
              | inl same ↦
                  inl (settle-sends_nothing calls now position _ _ _ _ current false v same)
              | inr (stock, sent) ↦ inr (
                stock,
                settle-sends_nothing (sell_call position ref ∷ calls) now position _ _ _ _ current
                    false v sent,
              )
            ])
            (record w { db = db }) p)

  -- Submitting an exit sends nothing, or one sell order of the position's quantity, and that only
  -- for a stock position with no unresolved sell order of its strategy and symbol.
  pub submit_exit-sends :
      (broker : Broker A) (today : Today) (now : ℕ) (fills : List (Fill A)) (position : Position A)
      (x : ExitResult A) (current : A) (w : World A)
      → let after = (submit_exit broker today now fills position x current w).1 in
        (after.placed ≡ w.placed)
        ⊎ (get_unresolved_orders position.strategy_id position.symbol sell w.db ≡ [])
          × (same_venue position.venue ibkr_paper ≡ true)
          × (after.placed
              ≡ sell_call position (exit_order now today position x.reason).order_ref ∷ w.placed)
  unfolding submit_exit ◌>>=◌
  submit_exit-sends broker today now fills position x current w =
      cases (get_unresolved_orders position.strategy_id position.symbol sell w.db) (
        find_unresolved_match (get_unresolved_orders position.strategy_id position.symbol sell w.db)
          fills)
    where
      cases :
          (unresolved : List (Order A)) (match : Option (Order A × Fill A))
          → let after = (submit_with broker today now position x current unresolved match w).1 in
            (after.placed ≡ w.placed)
            ⊎ (unresolved ≡ [])
              × (same_venue position.venue ibkr_paper ≡ true)
              × (after.placed
                  ≡ sell_call position (exit_order now today position x.reason).order_ref
                    ∷ w.placed)
      cases unresolved (some (row, fill)) =
          inl (heal_exit-sends_nothing w.placed now position x current row fill w refl)
      cases [] none = elim (fresh_exit-sends w.placed broker today now position x current w refl) [
        | inl p ↦ inl p
        | inr (stock, p) ↦ inr (refl, stock, p)
      ]
      cases (_ ∷ _) none = inl refl

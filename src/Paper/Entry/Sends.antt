-- ===== src/Paper/Entry/Sends.antt =====
-- How often trader/paper/entry_pipeline.py sends an entry order, and what it leaves at the broker.
use trader_pxg.Base.{
  ℕ, String, ◌≡◌, refl, ap, ◌⊎◌, inl, inr, false, Option, none, some, List, [], ◌∷◌, Bool-cases,
}
use trader_pxg.Paper.Store.{buy, Order}
use trader_pxg.Paper.Idempotency.{Fill, find_unresolved_match}
use trader_pxg.Paper.Ledger.{get_unresolved_orders}
use trader_pxg.Paper.Reconcile.{is_entry_halted}
use trader_pxg.Paper.World.{World, Placed, Broker, ◌>>=◌}
use trader_pxg.Paper.World.Keeps.{Keeps, Leads, bind-Keeps, bind-Leads, execute-Leads, if-Keeps}
use trader_pxg.Paper.Guardian.{Today}
use trader_pxg.Paper.Guardian.Limits.{HasSent}
use trader_pxg.Paper.Entry.Run.{
  heal_candidate, entry_ref, submit_entry, enter_unless_halted, enter_with, enter_position,
}
use trader_pxg.Paper.Entry.Persist.{buy_call}
use trader_pxg.Tournament.Live.{LiveStrategy}

module _ {A : Type 0} where
  -- Since those calls nothing was sent, or the one given.
  abbrev pub HasSentOne : List (Placed A) → Placed A → World A → Type 0
  HasSentOne calls call w = HasSent calls w ⊎ HasSent (call ∷ calls) w

  submit_entry-sends :
      (calls : List (Placed A)) (broker : Broker A) (today : Today) (now : ℕ) (cfg : LiveStrategy A)
      (symbol : String) (price qty : A)
      → Leads
          (HasSent calls)
          (HasSentOne calls (buy_call symbol qty (entry_ref today cfg symbol)))
          (submit_entry broker today now cfg symbol price qty)
  unfolding submit_entry
  submit_entry-sends calls broker today now cfg symbol price qty =
      let call = buy_call symbol qty (entry_ref today cfg symbol) in
      let sent = HasSent (call ∷ calls) in
      execute-Leads (HasSent calls) (HasSentOne calls call) _ _ (λ w p. inl p)
        (λ w db p e.
          bind-Leads (HasSent calls) sent (HasSentOne calls call) _ _ (λ v q. ap (λ c. call ∷ c) q)
            (λ v q. inr q)
            (λ perm_id v q. inr (
              bind-Keeps sent _ _ (λ x r. r)
                (λ _.
                  bind-Keeps sent _ _ (λ x r. r) (λ _. bind-Keeps sent _ _ (λ x r. r) (λ _ x r. r)))
                v q))
            (record w { db = db }) p)

  heal_candidate-sends_nothing :
      (calls : List (Placed A)) (now : ℕ) (cfg : LiveStrategy A) (symbol : String) (price : A)
      (row : Order A) (fill : Fill A)
      → Keeps (HasSent calls) (heal_candidate now cfg symbol price row fill)
  unfolding heal_candidate
  heal_candidate-sends_nothing calls now cfg symbol price row fill =
      bind-Keeps (HasSent calls) _ _ (λ w p. p)
        (λ _.
          bind-Keeps (HasSent calls) _ _ (λ w p. p)
            (λ is_held.
              bind-Keeps (HasSent calls) _ _
                (if-Keeps (HasSent calls) is_held _ _ (λ w p. p) (λ w p. p))
                (λ _. bind-Keeps (HasSent calls) _ _ (λ w p. p) (λ _ w p. p))))

  -- What a fresh entry sends, by the halt.
  enter_unless_halted-sends :
      (broker : Broker A) (today : Today) (now : ℕ) (cfg : LiveStrategy A) (symbol : String)
      (price qty : A) (w : World A)
      → let after = (enter_unless_halted broker today now cfg symbol price qty w).1 in
        (after.placed ≡ w.placed)
        ⊎ (is_entry_halted w.db ≡ false)
          × (after.placed ≡ buy_call symbol qty (entry_ref today cfg symbol) ∷ w.placed)
  unfolding enter_unless_halted ◌>>=◌
  enter_unless_halted-sends broker today now cfg symbol price qty w =
      elim (Bool-cases (is_entry_halted w.db)) [
        | inl e ↦ rw e (inl refl)
        | inr e ↦
            rw e (elim (submit_entry-sends w.placed broker today now cfg symbol price qty w refl) [
              | inl p ↦ inl p
              | inr p ↦ inr (refl, p)
            ])
      ]

  -- A position of the sized ones sends nothing, or one buy order of its shares, and that only where
  -- there is no unresolved buy order for its profile and symbol and entries are not halted.
  pub enter_position-sends :
      (broker : Broker A) (today : Today) (now : ℕ) (cfg : LiveStrategy A) (symbol : String)
      (price qty : A) (w : World A)
      → let after = (enter_position broker today now cfg symbol price qty w).1 in
        (after.placed ≡ w.placed)
        ⊎ (get_unresolved_orders cfg.profile_name symbol buy w.db ≡ [])
          × (is_entry_halted w.db ≡ false)
          × (after.placed ≡ buy_call symbol qty (entry_ref today cfg symbol) ∷ w.placed)
  unfolding enter_position ◌>>=◌
  enter_position-sends broker today now cfg symbol price qty w =
      let unresolved = get_unresolved_orders cfg.profile_name symbol buy w.db in
      branches unresolved (find_unresolved_match unresolved broker.fills)
    where
      branches :
          (unresolved : List (Order A)) (match : Option (Order A × Fill A))
          → let after = (enter_with broker today now cfg symbol price qty unresolved match w).1 in
            (after.placed ≡ w.placed)
            ⊎ (unresolved ≡ [])
              × (is_entry_halted w.db ≡ false)
              × (after.placed ≡ buy_call symbol qty (entry_ref today cfg symbol) ∷ w.placed)
      branches unresolved (some (row, fill)) =
          inl (heal_candidate-sends_nothing w.placed now cfg symbol price row fill w refl)
      branches (_ ∷ _) none = inl refl
      branches [] none = elim (enter_unless_halted-sends broker today now cfg symbol price qty w) [
        | inl p ↦ inl p
        | inr (open_for, p) ↦ inr (refl, open_for, p)
      ]

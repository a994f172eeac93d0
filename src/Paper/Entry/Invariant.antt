-- ===== src/Paper/Entry/Invariant.antt =====
-- An invariant of every run of trader/paper/entry_pipeline.py, wherever it raises, from what its
-- statements keep: the heal of an order, the opening of a position, an alert, and a fresh entry.
use trader_pxg.Base.{
  ℕ, String, Option, none, some, List, [], ◌∷◌, if◌then◌else◌, Float, ◌≼◌, float_zero, ◌⊖◌, ◌⊗◌,
}
use trader_pxg.Backtest.Config.{ExitProfile}
use trader_pxg.Risk.Sizer.{Holding}
use trader_pxg.Paper.Store.{Order}
use trader_pxg.Paper.Idempotency.{Fill, find_unresolved_match}
use trader_pxg.Paper.World.{World, Broker, Notice, modify, notify}
use trader_pxg.Paper.World.Keeps.{Keeps, bind-Keeps, if-Keeps}
use trader_pxg.Paper.Guardian.{Today, or_else}
use trader_pxg.Paper.Entry.{Market, EntryCandidate}
use trader_pxg.Paper.Entry.Run.{
  healed_row, opened, heal_matched, heal_known, heal_if_matched, heal_one, heal_pass, is_entry,
  heal_candidate, enter_unless_halted, enter_with, enter_position,
}
use trader_pxg.Paper.Entry.Once.{enter_all, enter_candidates, run_entry_pipeline_once}
use trader_pxg.Tournament.Live.{LiveStrategy, get_live_config}

module _ {A : Type 0} (P : World A → Type 0) (notified : (n : Notice A) → Keeps P (notify n))
    (healing : (now : ℕ) (row : Order A) (fill : Fill A) (price : Option A)
      → Keeps P (modify (healed_row now row fill price)))
    (opening : (now : ℕ) (strategy_id symbol : String) (qty price : A) (ref : String)
        (exits : ExitProfile A)
      → Keeps P (modify (opened now strategy_id symbol qty price ref exits))) where
  heal_matched-Keeps :
      (broker : Broker A) (now : ℕ) (row : Order A) (fill : Fill A) (cfg : LiveStrategy A)
      → Keeps P (heal_matched broker now row fill cfg)
  unfolding heal_matched
  heal_matched-Keeps broker now row fill cfg =
      bind-Keeps P _ _ (healing now row fill fill.fill_price) (λ _.
        bind-Keeps P _ _ (λ w p. p)
          (λ is_held.
            bind-Keeps P _ _
              (if-Keeps P is_held _ _ (λ w p. p)
                (bind-Keeps P _ _ (λ w p. p)
                  (λ price.
                    opening now row.strategy_id row.symbol row.qty price row.order_ref
                      cfg.exit_profile)))
              (λ _. bind-Keeps P _ _ (notified _) (λ _ w p. p))))

  heal_one-Keeps :
      (broker : Broker A) (configs : List (LiveStrategy A)) (now : ℕ) (row : Order A)
      → Keeps P (heal_one broker configs now row)
  unfolding heal_one
  heal_one-Keeps broker configs now row =
      if-Keeps P (is_entry row.intent) _ _ (matched (find_unresolved_match (row ∷ []) broker.fills))
        (λ w p. p)
    where
      known :
          (order : Order A) (fill : Fill A) (cfg : Option (LiveStrategy A))
          → Keeps P (heal_known broker now order fill cfg)
      known order fill none = bind-Keeps P _ _ (notified _) (λ _ w p. p)
      known order fill (some cfg) = heal_matched-Keeps broker now order fill cfg

      matched :
          (match : Option (Order A × Fill A)) → Keeps P (heal_if_matched broker configs now match)
      matched none = λ w p. p
      matched (some (order, fill)) = known order fill (get_live_config order.strategy_id configs)

  pub heal_pass-Keeps :
      (broker : Broker A) (configs : List (LiveStrategy A)) (now : ℕ) (orders : List (Order A))
      → Keeps P (heal_pass broker configs now orders)
  unfolding heal_pass
  heal_pass-Keeps broker configs now [] = λ w p. p
  heal_pass-Keeps broker configs now (row ∷ rows) =
      bind-Keeps P _ _ (heal_one-Keeps broker configs now row)
        (λ _. bind-Keeps P _ _ (heal_pass-Keeps broker configs now rows) (λ _ w p. p))

  pub heal_candidate-Keeps :
      (now : ℕ) (cfg : LiveStrategy A) (symbol : String) (price : A) (row : Order A) (fill : Fill A)
      → Keeps P (heal_candidate now cfg symbol price row fill)
  unfolding heal_candidate
  heal_candidate-Keeps now cfg symbol price row fill =
      bind-Keeps P _ _ (healing now row fill (some (or_else fill.fill_price price))) (λ _.
        bind-Keeps P _ _ (λ w p. p)
          (λ is_held.
            bind-Keeps P _ _
              (if-Keeps P is_held _ _ (λ w p. p)
                (opening now cfg.profile_name symbol row.qty price row.order_ref cfg.exit_profile))
              (λ _. bind-Keeps P _ _ (notified _) (λ _ w p. p))))

module _ {A : Type 0} ⦃f : Float A⦄ (P : World A → Type 0)
    (notified : (n : Notice A) → Keeps P (notify n))
    (healing : (now : ℕ) (row : Order A) (fill : Fill A) (price : Option A)
      → Keeps P (modify (healed_row now row fill price)))
    (opening : (now : ℕ) (strategy_id symbol : String) (qty price : A) (ref : String)
        (exits : ExitProfile A)
      → Keeps P (modify (opened now strategy_id symbol qty price ref exits)))
    (fresh : (broker : Broker A) (today : Today) (now : ℕ) (cfg : LiveStrategy A) (symbol : String)
        (price qty : A)
      → Keeps P (enter_unless_halted broker today now cfg symbol price qty)) where
  enter_position-Keeps :
      (broker : Broker A) (today : Today) (now : ℕ) (cfg : LiveStrategy A) (symbol : String)
      (price qty : A)
      → Keeps P (enter_position broker today now cfg symbol price qty)
  unfolding enter_position
  enter_position-Keeps broker today now cfg symbol price qty =
      bind-Keeps P _ _ (λ w p. p)
        (λ unresolved. cases unresolved (find_unresolved_match unresolved broker.fills))
    where
      cases :
          (unresolved : List (Order A)) (match : Option (Order A × Fill A))
          → Keeps P (enter_with broker today now cfg symbol price qty unresolved match)
      cases unresolved (some (row, fill)) =
          heal_candidate-Keeps P notified healing opening now cfg symbol price row fill
      cases (_ ∷ _) none = λ w p. p
      cases [] none = fresh broker today now cfg symbol price qty

  enter_all-Keeps :
      (broker : Broker A) (today : Today) (now : ℕ) (market : Market A)
      (configs : List (LiveStrategy A)) (by_family : List (String × List String))
      (candidates : List (EntryCandidate A)) (budget : A) (positions : List (Holding A))
      → Keeps P (enter_all broker today now market configs by_family candidates budget positions)
  unfolding enter_all
  enter_all-Keeps broker today now market configs by_family candidates budget [] = λ w p. p
  enter_all-Keeps broker today now market configs by_family candidates budget
        (position ∷ positions) =
      bind-Keeps P _ _ (λ w p. p)
        (λ cfg.
          bind-Keeps P _ _ (λ w p. p)
            (λ price.
              bind-Keeps P _ _ (λ w p. p)
                (λ qty.
                  bind-Keeps P _ _
                    (if-Keeps P (qty ≼ float_zero) _ _ (λ w p. p)
                      (enter_position-Keeps broker today now cfg position.symbol price qty))
                    (λ _.
                      bind-Keeps P _ _
                        (enter_all-Keeps broker today now market configs by_family candidates
                          (if qty ≼ float_zero then budget else budget ⊖ (qty ⊗ price)) positions)
                        (λ _ w p. p)))))

  enter_candidates-Keeps :
      (broker : Broker A) (today : Today) (now : ℕ) (market : Market A)
      (configs : List (LiveStrategy A)) (healed : List String)
      (candidates : List (EntryCandidate A))
      → Keeps P (enter_candidates broker today now market configs healed candidates)
  unfolding enter_candidates
  enter_candidates-Keeps broker today now market configs healed [] = λ w p. p
  enter_candidates-Keeps broker today now market configs healed (c ∷ cs) =
      bind-Keeps P _ _ (λ w p. p)
        (λ gated.
          bind-Keeps P _ _ (λ w p. p)
            (λ families.
              bind-Keeps P _ _ (λ w p. p)
                (λ by_family.
                  bind-Keeps P _ _ (λ w p. p)
                    (λ held.
                      bind-Keeps P _ _ (λ w p. p)
                        (λ sized.
                          bind-Keeps P _ _
                            (enter_all-Keeps broker today now market configs by_family (c ∷ cs) _
                              sized.positions)
                            (λ _. bind-Keeps P _ _ (λ w p. p) (λ _ w p. p)))))))

  pub run_entry_pipeline_once-Keeps :
      (broker : Broker A) (market : Market A) (configs : List (LiveStrategy A)) (today : Today)
      (now : ℕ)
      → Keeps P (run_entry_pipeline_once broker market configs today now)
  unfolding run_entry_pipeline_once
  run_entry_pipeline_once-Keeps broker market configs today now =
      bind-Keeps P _ _ (λ w p. p)
        (λ orders.
          bind-Keeps P _ _ (heal_pass-Keeps P notified healing opening broker configs now orders)
            (λ healed.
              if-Keeps P _ _ _ (λ w p. p)
                (bind-Keeps P _ _ (λ w p. p)
                  (λ scanned.
                    bind-Keeps P _ _ (λ w p. p)
                      (λ candidates.
                        enter_candidates-Keeps broker today now market configs healed
                          candidates)))))

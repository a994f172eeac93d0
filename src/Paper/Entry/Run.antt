-- ===== src/Paper/Entry/Run.antt =====
-- run_entry_pipeline_once of trader/paper/entry_pipeline.py: the heal pass over crash-orphaned
-- orders, then the sized positions, each through its five steps.
use trader_pxg.Base.{
  ℕ, String, Bool, true, false, ◌&&◌, Option, none, some, List, [], ◌∷◌, ◌==◌, any, if◌then◌else◌,
  Result, ok,
}
use trader_pxg.Backtest.Config.{ExitProfile}
use trader_pxg.Paper.Store.{
  ibkr_paper, buy, Intent, entry, pending_submit, submitted, is_filled, Order, Position, Db,
}
use trader_pxg.Paper.Idempotency.{Fill, build_order_ref, find_unresolved_match}
use trader_pxg.Paper.Ledger.{
  record_order, heal_order, update_order_status, get_unresolved_orders, open_position,
}
use trader_pxg.Paper.World.{
  Broker, Act, entered, healed_entry, unknown_strategy, pure, lift, gets, modify, execute, notify,
  send, ◌>>=◌, ◌>>◌,
}
use trader_pxg.Paper.Reconcile.{is_entry_halted}
use trader_pxg.Paper.Guardian.{or_else, Today}
use trader_pxg.Tournament.Live.{LiveStrategy, get_live_config}

abbrev pub is_entry : Intent → Bool
is_entry entry = true
is_entry _ = false

-- The dict that is returned, by the place where the run ends.
pub data Outcome : Type 0 where
  not_a_trading_day : List String → Outcome
  no_candidates : List String → Outcome
  finished : ℕ → ℕ → List String → List String → Bool → Outcome

abbrev pub listed_if : Option String → List String → List String
listed_if none rest = rest
listed_if (some ref) rest = ref ∷ rest

module _ {A : Type 0} where
  -- An open position whose entry order is the given one.
  unfoldable pub has_open_position_for_order_ref : String → Db A → Bool
  has_open_position_for_order_ref order_ref db =
      any (λ (p : Position A). p.entry_order_ref == order_ref && p.is_open) db.positions

  -- The fill that carries no price takes a live quote.
  abbrev pub healing_price : Broker A → String → Option A → Result A
  healing_price broker symbol none = broker.latest_price symbol
  healing_price broker symbol (some price) = ok price

  unfoldable pub opened : ℕ → String → String → A → A → String → ExitProfile A → Db A → Db A
  unfolding open_position
  opened now strategy_id symbol qty price order_ref exit_profile db =
      (open_position strategy_id symbol ibkr_paper "stock" qty price now order_ref exit_profile
        db).1

  unfoldable pub healed_row : ℕ → Order A → Fill A → Option A → Db A → Db A
  unfolding heal_order
  healed_row now local_order fill price db =
      if is_filled local_order.status
      then db
      else heal_order local_order.order_ref fill.perm_id price now db

  -- STEP 0, for an order that a fill matches and a strategy that is live.
  unfoldable pub heal_matched :
      Broker A → ℕ → Order A → Fill A → LiveStrategy A → Act A (Option String)
  unfolding healed_row has_open_position_for_order_ref opened
  heal_matched broker now local_order fill cfg = do
    modify (healed_row now local_order fill fill.fill_price)
    is_held ← gets (has_open_position_for_order_ref local_order.order_ref)
    if is_held then pure tt else (do
      price ← lift (healing_price broker local_order.symbol fill.fill_price)
      modify (
          opened now local_order.strategy_id local_order.symbol local_order.qty price
            local_order.order_ref cfg.exit_profile))
    notify (healed_entry local_order.symbol local_order.strategy_id)
    pure (some local_order.order_ref)

  abbrev pub heal_known :
      Broker A → ℕ → Order A → Fill A → Option (LiveStrategy A) → Act A (Option String)
  heal_known broker now local_order fill none = do
    notify (unknown_strategy local_order.order_ref)
    pure none
  heal_known broker now local_order fill (some cfg) = heal_matched broker now local_order fill cfg

  abbrev pub heal_if_matched :
      Broker A → List (LiveStrategy A) → ℕ → Option (Order A × Fill A) → Act A (Option String)
  heal_if_matched broker configs now none = pure none
  heal_if_matched broker configs now (some (local_order, fill)) =
      heal_known broker now local_order fill (get_live_config local_order.strategy_id configs)

  -- One round of the loop of STEP 0.
  unfoldable pub heal_one : Broker A → List (LiveStrategy A) → ℕ → Order A → Act A (Option String)
  unfolding heal_matched
  heal_one broker configs now local_order =
      if is_entry local_order.intent
      then heal_if_matched broker configs now
          (find_unresolved_match (local_order ∷ []) broker.fills)
      else pure none

  unfoldable pub heal_pass :
      Broker A → List (LiveStrategy A) → ℕ → List (Order A) → Act A (List String)
  unfolding heal_one
  heal_pass broker configs now [] = pure []
  heal_pass broker configs now (local_order ∷ orders) = do
    healed ← heal_one broker configs now local_order
    rest ← heal_pass broker configs now orders
    pure (listed_if healed rest)

  abbrev pub entry_ref : Today → LiveStrategy A → String → String
  entry_ref today cfg symbol = build_order_ref cfg.profile_name symbol today.iso buy entry

  -- STEP 4 and STEP 5: the row, the broker, the position.
  unfoldable pub submit_entry :
      Broker A → Today → ℕ → LiveStrategy A → String → A → A → Act A (Option String)
  unfolding opened
  submit_entry broker today now cfg symbol price qty = do
    let order_ref = entry_ref today cfg symbol
    execute (
        record_order now order_ref cfg.profile_name symbol ibkr_paper buy entry qty none
          pending_submit)
    perm_id ← send broker (record { symbol = symbol; side = buy; qty = qty; order_ref = order_ref })
    modify (update_order_status order_ref submitted none none (some perm_id))
    modify (opened now cfg.profile_name symbol qty price order_ref cfg.exit_profile)
    notify (entered symbol qty cfg.profile_name)
    pure (some order_ref)

  -- STEP 1: an order of an earlier run turned out to be filled.
  unfoldable pub heal_candidate :
      ℕ → LiveStrategy A → String → A → Order A → Fill A → Act A (Option String)
  unfolding healed_row has_open_position_for_order_ref opened
  heal_candidate now cfg symbol price local_order fill = do
    modify (healed_row now local_order fill (some (or_else fill.fill_price price)))
    is_held ← gets (has_open_position_for_order_ref local_order.order_ref)
    if is_held
        then pure tt
        else modify (
            opened now cfg.profile_name symbol local_order.qty price local_order.order_ref
              cfg.exit_profile)
    notify (healed_entry symbol cfg.profile_name)
    pure none

  -- STEP 3.
  unfoldable pub enter_unless_halted :
      Broker A → Today → ℕ → LiveStrategy A → String → A → A → Act A (Option String)
  unfolding submit_entry is_entry_halted
  enter_unless_halted broker today now cfg symbol price qty = do
    halted ← gets is_entry_halted
    if halted then pure none else submit_entry broker today now cfg symbol price qty

  -- STEP 1 to STEP 3, on the unresolved orders and the one of them that a fill matches.
  abbrev pub enter_with :
      Broker A
      → Today
      → ℕ
      → LiveStrategy A
      → String
      → A
      → A
      → List (Order A)
      → Option (Order A × Fill A)
      → Act A (Option String)
  enter_with broker today now cfg symbol price qty _ (some (local_order, fill)) =
      heal_candidate now cfg symbol price local_order fill
  enter_with broker today now cfg symbol price qty (_ ∷ _) none = pure none
  enter_with broker today now cfg symbol price qty [] none =
      enter_unless_halted broker today now cfg symbol price qty

  unfoldable pub enter_position :
      Broker A → Today → ℕ → LiveStrategy A → String → A → A → Act A (Option String)
  unfolding heal_candidate enter_unless_halted
  enter_position broker today now cfg symbol price qty = do
    unresolved ← gets (get_unresolved_orders cfg.profile_name symbol buy)
    enter_with broker today now cfg symbol price qty unresolved
        (find_unresolved_match unresolved broker.fills)

-- ===== src/Paper/Guardian/Once.antt =====
-- A whole tick of trader/paper/guardian.py: the row before the broker, and the unpriced symbols.
use trader_pxg.Base.{
  ℕ, String, ◌≡◌, Option, none, some, List, [], ◌∷◌, arith, ltb, length, Float, Result, ok, err,
}
use trader_pxg.Backtest.Exits.{Fired}
use trader_pxg.Paper.Store.{Position, Db, KillReason}
use trader_pxg.Paper.Ledger.{retire_strategy, update_watermark}
use trader_pxg.Paper.World.{World, Broker}
use trader_pxg.Paper.World.Keeps.{Keeps, bind-Keeps, if-Keeps}
use trader_pxg.Paper.Guardian.{Today}
use trader_pxg.Paper.Guardian.Persist.{
  IsPersisted, KeepsOrders-IsPersisted, submit_exit-IsPersisted,
}
use trader_pxg.Paper.Guardian.Kill.{
  LiveConfig, kill_check, retire, retire_if, evaluate_kill_conditions, evaluate_account_breakers,
}
use trader_pxg.Paper.Guardian.Tick.{
  LogLines, price_of, tick_decided, tick_with_price, tick_priced, tick_position, tick_all,
  run_guardian_once,
}

module _ {A : Type 0} where
  retire_strategy-orders :
      (s : String) (reason : KillReason) (value : Option A) (db : Db A)
      → (retire_strategy s reason value db).orders ≡ db.orders
  unfolding retire_strategy
  retire_strategy-orders s reason value db = ground arith

  -- A change of the database that leaves the orders as they are.
  same_orders-IsPersisted :
      (w : World A) (db : Db A)
      → db.orders ≡ w.db.orders
      → IsPersisted w
      → IsPersisted (record w { db = db })
  same_orders-IsPersisted w db e p =
      KeepsOrders-IsPersisted w db (rw e (λ u. u, λ k known. known)) p

module _ {A : Type 0} ⦃f : Float A⦄ where
  kill_check-IsPersisted : (cfg : LiveConfig A) → Keeps IsPersisted (kill_check cfg)
  unfolding kill_check retire
  kill_check-IsPersisted cfg =
      bind-Keeps IsPersisted _ _ (λ w p. p)
        (λ is_retired.
          bind-Keeps IsPersisted _ _ (λ w p. p)
            (λ pnls.
              if-Keeps IsPersisted is_retired _ _ (λ w p. p)
                (if-Keeps IsPersisted (ltb (length pnls) 30) _ _ (λ w p. p)
                  (bind-Keeps IsPersisted _ _ (λ w p. p) decided-IsPersisted))))
    where
      decided-IsPersisted :
          (decided : Option (KillReason × A)) → Keeps IsPersisted (retire_if cfg decided)
      decided-IsPersisted none = λ w p. p
      decided-IsPersisted (some (reason, value)) =
          bind-Keeps IsPersisted _ _
            (λ w p.
              same_orders-IsPersisted w (retire_strategy cfg.profile_name reason (some value) w.db)
                (retire_strategy-orders cfg.profile_name reason (some value) w.db) p)
            (λ _. bind-Keeps IsPersisted _ _ (λ w p. p) (λ _ w p. p))

  evaluate_kill_conditions-IsPersisted :
      (cfgs : List (LiveConfig A)) → Keeps IsPersisted (evaluate_kill_conditions cfgs)
  unfolding evaluate_kill_conditions
  evaluate_kill_conditions-IsPersisted [] = λ w p. p
  evaluate_kill_conditions-IsPersisted (cfg ∷ cfgs) =
      bind-Keeps IsPersisted _ _ (kill_check-IsPersisted cfg) (λ fired.
        bind-Keeps IsPersisted _ _ (evaluate_kill_conditions-IsPersisted cfgs) (λ _ w p. p))

  evaluate_account_breakers-IsPersisted :
      (now : ℕ) → Keeps IsPersisted (evaluate_account_breakers {A = A} now)
  unfolding evaluate_account_breakers
  evaluate_account_breakers-IsPersisted now =
      bind-Keeps IsPersisted _ _ (λ w p. p)
        (λ before.
          bind-Keeps IsPersisted _ _ (λ w p. p)
            (λ evaluation.
              bind-Keeps IsPersisted _ _ (if-Keeps IsPersisted _ _ _ (λ w p. p) (λ w p. p)) (λ _.
                bind-Keeps IsPersisted _ _ (if-Keeps IsPersisted _ _ _ (λ w p. p) (λ w p. p)) (λ _.
                  bind-Keeps IsPersisted _ _ (if-Keeps IsPersisted _ _ _ (λ w p. p) (λ w p. p))
                    (λ _. bind-Keeps IsPersisted _ _ (λ w p. p) (λ _ w p. p))))))

  tick_priced-IsPersisted :
      (broker : Broker A) (today : Today) (now : ℕ) (position : Position A) (price : A)
      → Keeps IsPersisted (tick_priced broker today now position price)
  unfolding tick_priced tick_decided update_watermark
  tick_priced-IsPersisted broker today now position price =
      bind-Keeps IsPersisted _ _ (λ w p. p) decided-IsPersisted
    where
      decided-IsPersisted :
          (decided : Option (Fired A))
          → Keeps IsPersisted (tick_decided broker today now position price decided)
      decided-IsPersisted none = bind-Keeps IsPersisted _ _ (λ w p. p) (λ _ w p. p)
      decided-IsPersisted (some (x, _)) =
          bind-Keeps IsPersisted _ _
            (submit_exit-IsPersisted broker today now broker.fills position x price) (λ _ w p. p)

  tick_position-IsPersisted :
      (broker : Broker A) (today : Today) (now : ℕ) (position : Position A)
      → Keeps IsPersisted (tick_position broker today now position)
  unfolding tick_position
  tick_position-IsPersisted broker today now position =
      if-Keeps IsPersisted _ _ _ (λ w p. p) (with_price (price_of broker position))
    where
      with_price :
          (price : Result A) → Keeps IsPersisted (tick_with_price broker today now position price)
      with_price (err _) = bind-Keeps IsPersisted _ _ (λ w p. p) (λ _ w p. p)
      with_price (ok price) = tick_priced-IsPersisted broker today now position price

  tick_all-IsPersisted :
      (broker : Broker A) (today : Today) (now : ℕ) (positions : List (Position A))
      → Keeps IsPersisted (tick_all broker today now positions)
  unfolding tick_all
  tick_all-IsPersisted broker today now [] = λ w p. p
  tick_all-IsPersisted broker today now (position ∷ positions) =
      bind-Keeps IsPersisted _ _ (tick_position-IsPersisted broker today now position) (λ t.
        bind-Keeps IsPersisted _ _ (tick_all-IsPersisted broker today now positions) (λ _ w p. p))

  -- A whole tick, wherever it raises, keeps the references of the orders unique and leaves a row
  -- for every order that was sent to the broker.
  pub run_guardian_once-IsPersisted :
      (broker : Broker A) (configs : List (LiveConfig A)) (today : Today) (now : ℕ)
      (log_lines : Option LogLines) (w : World A)
      → IsPersisted w
      → IsPersisted (run_guardian_once broker configs today now log_lines w).1
  unfolding run_guardian_once
  run_guardian_once-IsPersisted broker configs today now log_lines =
      bind-Keeps IsPersisted _ _ (λ w p. p)
        (λ open_positions.
          bind-Keeps IsPersisted _ _ (if-Keeps IsPersisted _ _ _ (λ w p. p) (λ w p. p)) (λ _.
            bind-Keeps IsPersisted _ _ (tick_all-IsPersisted broker today now open_positions)
              (λ ticks. bind-Keeps IsPersisted _ _ (evaluate_account_breakers-IsPersisted now) (λ _.
                bind-Keeps IsPersisted _ _ (evaluate_kill_conditions-IsPersisted configs)
                  (λ _ w p. p)))))

-- ===== src/Paper/Entry/Persist.antt =====
-- The order of writes and calls in trader/paper/entry_pipeline.py: the row before the broker.
use trader_pxg.Base.{ℕ, String, Option, none, some, List, Float}
use trader_pxg.Backtest.Config.{ExitProfile}
use trader_pxg.Paper.Store.{ibkr_paper, buy, entry, pending_submit, submitted, is_filled, Order, Db}
use trader_pxg.Paper.Idempotency.{Fill}
use trader_pxg.Paper.Ledger.{new_order, open_position, update_order_status}
use trader_pxg.Paper.World.{World, Placed, Broker}
use trader_pxg.Paper.World.Keeps.{Keeps, bind-Keeps, bind-Leads, execute-Leads, if-Keeps}
use trader_pxg.Paper.Guardian.{Today}
use trader_pxg.Paper.Guardian.Persist.{
  IsPersisted, IsReady, KeepsOrders, KeepsOrders-IsPersisted, heal-unless, update-KeepsOrders,
  modify-IsReady, record-IsReady,
}
use trader_pxg.Paper.Entry.{Market}
use trader_pxg.Paper.Entry.Run.{healed_row, opened, entry_ref, submit_entry, enter_unless_halted}
use trader_pxg.Paper.Entry.Once.{run_entry_pipeline_once}
use trader_pxg.Paper.Entry.Invariant.{run_entry_pipeline_once-Keeps}
use trader_pxg.Tournament.Live.{LiveStrategy}

module _ {A : Type 0} where
  opened-KeepsOrders :
      (now : ℕ) (strategy_id symbol : String) (qty price : A) (ref : String) (exits : ExitProfile A)
      (db : Db A)
      → KeepsOrders db (opened now strategy_id symbol qty price ref exits db)
  unfolding opened open_position
  opened-KeepsOrders now strategy_id symbol qty price ref exits db = (λ u. u, λ k known. known)

  healed_row-KeepsOrders :
      (now : ℕ) (row : Order A) (fill : Fill A) (price : Option A) (db : Db A)
      → KeepsOrders db (healed_row now row fill price db)
  unfolding healed_row
  healed_row-KeepsOrders now row fill price db =
      heal-unless (is_filled row.status) row.order_ref fill.perm_id price now db

  -- The buy order of an entry.
  abbrev pub buy_call : String → A → String → Placed A
  buy_call symbol qty ref = record { symbol = symbol; side = buy; qty = qty; order_ref = ref }

  submit_entry-IsPersisted :
      (broker : Broker A) (today : Today) (now : ℕ) (cfg : LiveStrategy A) (symbol : String)
      (price qty : A)
      → Keeps IsPersisted (submit_entry broker today now cfg symbol price qty)
  unfolding submit_entry
  submit_entry-IsPersisted broker today now cfg symbol price qty =
      let ref = entry_ref today cfg symbol in
      let row =
        new_order now ref cfg.profile_name symbol ibkr_paper buy entry qty none pending_submit in
      execute-Leads IsPersisted IsPersisted _ _ (λ w p. p)
        (λ w db p e.
          bind-Leads (IsReady ref) (IsReady ref) IsPersisted _ _
            (λ v ((u, all), known). ((u, (known, all)), known)) (λ v ready. ready.0)
            (λ perm_id.
              bind-Leads (IsReady ref) (IsReady ref) IsPersisted _ _
                (modify-IsReady ref (update_order_status ref submitted none none (some perm_id))
                  (update-KeepsOrders ref submitted none none (some perm_id)))
                (λ v ready. ready.0)
                (λ _.
                  bind-Leads (IsReady ref) (IsReady ref) IsPersisted _ _
                    (modify-IsReady ref
                      (opened now cfg.profile_name symbol qty price ref cfg.exit_profile)
                      (opened-KeepsOrders now cfg.profile_name symbol qty price ref
                        cfg.exit_profile))
                    (λ v ready. ready.0)
                    (λ _.
                      bind-Leads (IsReady ref) (IsReady ref) IsPersisted _ _ (λ v ready. ready)
                        (λ v ready. ready.0) (λ _ v ready. ready.0))))
            (record w { db = db }) (record-IsReady row w db e p))

  enter_unless_halted-IsPersisted :
      (broker : Broker A) (today : Today) (now : ℕ) (cfg : LiveStrategy A) (symbol : String)
      (price qty : A)
      → Keeps IsPersisted (enter_unless_halted broker today now cfg symbol price qty)
  unfolding enter_unless_halted
  enter_unless_halted-IsPersisted broker today now cfg symbol price qty =
      bind-Keeps IsPersisted _ _ (λ w p. p)
        (λ halted.
          if-Keeps IsPersisted halted _ _ (λ w p. p)
            (submit_entry-IsPersisted broker today now cfg symbol price qty))

module _ {A : Type 0} ⦃f : Float A⦄ where
  -- A run of the entry pipeline, wherever it raises, keeps the references of the orders unique and
  -- leaves a row for every order that was sent to the broker.
  pub run_entry_pipeline_once-IsPersisted :
      (broker : Broker A) (market : Market A) (configs : List (LiveStrategy A)) (today : Today)
      (now : ℕ) (w : World A)
      → IsPersisted w
      → IsPersisted (run_entry_pipeline_once broker market configs today now w).1
  run_entry_pipeline_once-IsPersisted =
      run_entry_pipeline_once-Keeps IsPersisted (λ n w p. p)
        (λ now row fill price w p.
          KeepsOrders-IsPersisted w (healed_row now row fill price w.db)
            (healed_row-KeepsOrders now row fill price w.db) p)
        (λ now strategy_id symbol qty price ref exits w p.
          KeepsOrders-IsPersisted w (opened now strategy_id symbol qty price ref exits w.db)
            (opened-KeepsOrders now strategy_id symbol qty price ref exits w.db) p)
        enter_unless_halted-IsPersisted

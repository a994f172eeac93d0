-- ===== src/Paper/Entry/Halted.antt =====
-- The halt of entries in trader/paper/entry_pipeline.py: a run heals what it finds and sends
-- nothing new.
use trader_pxg.Base.{ℕ, String, ◌≡◌, refl, true, Option, List, Bool-cases, inl, inr, Float}
use trader_pxg.Backtest.Config.{ExitProfile}
use trader_pxg.Paper.Store.{Order, Db, is_filled}
use trader_pxg.Paper.Idempotency.{Fill}
use trader_pxg.Paper.Ledger.{heal_order, open_position}
use trader_pxg.Paper.Reconcile.{is_entry_halted}
use trader_pxg.Paper.World.{World, Placed, Broker, modify, ◌>>=◌}
use trader_pxg.Paper.World.Keeps.{Keeps}
use trader_pxg.Paper.Guardian.{Today}
use trader_pxg.Paper.Guardian.Limits.{HasSent}
use trader_pxg.Paper.Entry.{Market}
use trader_pxg.Paper.Entry.Run.{healed_row, opened, enter_unless_halted}
use trader_pxg.Paper.Entry.Once.{run_entry_pipeline_once}
use trader_pxg.Paper.Entry.Invariant.{run_entry_pipeline_once-Keeps}
use trader_pxg.Tournament.Live.{LiveStrategy}

module _ {A : Type 0} where
  -- Only those calls were made so far, and entries are halted.
  abbrev pub IsQuiet : List (Placed A) → World A → Type 0
  IsQuiet calls w = HasSent calls w × (is_entry_halted w.db ≡ true)

  abbrev pub KeepsHalt : Db A → Db A → Type 0
  KeepsHalt before after = is_entry_halted after ≡ is_entry_halted before

  healed_row-KeepsHalt :
      (now : ℕ) (row : Order A) (fill : Fill A) (price : Option A) (db : Db A)
      → KeepsHalt db (healed_row now row fill price db)
  unfolding healed_row heal_order is_entry_halted
  healed_row-KeepsHalt now row fill price db = elim (Bool-cases (is_filled row.status)) [
    | inl e ↦ rw e refl
    | inr e ↦ rw e refl
  ]

  opened-KeepsHalt :
      (now : ℕ) (strategy_id symbol : String) (qty price : A) (ref : String) (exits : ExitProfile A)
      (db : Db A)
      → KeepsHalt db (opened now strategy_id symbol qty price ref exits db)
  unfolding opened open_position is_entry_halted
  opened-KeepsHalt now strategy_id symbol qty price ref exits db = refl

  modify-IsQuiet :
      (calls : List (Placed A)) (g : Db A → Db A)
      → ((db : Db A) → KeepsHalt db (g db))
      → Keeps (IsQuiet calls) (modify g)
  modify-IsQuiet calls g h w (sent, halted) = (sent, rw (h w.db) halted)

  enter_unless_halted-IsQuiet :
      (calls : List (Placed A)) (broker : Broker A) (today : Today) (now : ℕ) (cfg : LiveStrategy A)
      (symbol : String) (price qty : A)
      → Keeps (IsQuiet calls) (enter_unless_halted broker today now cfg symbol price qty)
  unfolding enter_unless_halted ◌>>=◌
  enter_unless_halted-IsQuiet calls broker today now cfg symbol price qty w (sent, halted) =
      rw halted (sent, halted)

module _ {A : Type 0} ⦃f : Float A⦄ where
  -- While entries are halted a run of the entry pipeline, wherever it raises, sends no order, and
  -- the halt stands at its end.
  pub run_entry_pipeline_once-halted :
      (broker : Broker A) (market : Market A) (configs : List (LiveStrategy A)) (today : Today)
      (now : ℕ) (w : World A)
      → is_entry_halted w.db ≡ true
      → let after = (run_entry_pipeline_once broker market configs today now w).1 in
        (after.placed ≡ w.placed) × (is_entry_halted after.db ≡ true)
  run_entry_pipeline_once-halted broker market configs today now w halted =
      run_entry_pipeline_once-Keeps (IsQuiet w.placed) (λ n v p. p)
        (λ later row fill price.
          modify-IsQuiet w.placed (healed_row later row fill price)
            (healed_row-KeepsHalt later row fill price))
        (λ later strategy_id symbol qty price ref exits.
          modify-IsQuiet w.placed (opened later strategy_id symbol qty price ref exits)
            (opened-KeepsHalt later strategy_id symbol qty price ref exits))
        (enter_unless_halted-IsQuiet w.placed) broker market configs today now w (refl, halted)

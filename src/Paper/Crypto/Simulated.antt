-- ===== src/Paper/Crypto/Simulated.antt =====
-- What a run of trader/paper/crypto_entry_pipeline.py changes, and what it sends.
use trader_pxg.Base.{◌≡◌, List, Float}
use trader_pxg.Paper.World.{World}
use trader_pxg.Paper.World.Keeps.{Keeps}
use trader_pxg.Paper.Store.{Bar}
use trader_pxg.Paper.Bars.{cached}

-- A write of the bars cache.
abbrev storing : {A : Type 0} → List (Bar A) → World A → World A
storing bars w = record w { db = cached bars w.db }

module _ {A : Type 0} ⦃f : Float A⦄ where
  -- From one world to another, nothing but the bars cache changed.
  abbrev pub IsSameButBars : World A → World A → Type 0
  IsSameButBars before after = after ≡ storing after.db.bars before

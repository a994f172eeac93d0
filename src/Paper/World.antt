-- ===== src/Paper/World.antt =====
-- What a run of a paper-trading process acts on: the database, the orders that it sends to the
-- broker, and what it tells the operator. A raise keeps what was committed and sent before it.
pub mod Keeps
use trader_pxg.Base.{ℕ, String, Bool, Option, none, some, List, [], ◌∷◌, Result, Error, ok, err}
use trader_pxg.Backtest.Exits.{Reason}
use trader_pxg.Risk.Breakers.{BreakerType}
use trader_pxg.Paper.Store.{Side, KillReason, Db}
use trader_pxg.Paper.Idempotency.{Fill}

-- A call of `place_order`.
pub record Placed (A : Type 0) : Type 0 where
  pub symbol : String
  pub side : Side
  pub qty : A
  pub order_ref : String

-- A call of `alerts.notify`, by what its message is about, or an error line of the ops log.
-- `notify` never raises.
pub data Notice (A : Type 0) : Type 0 where
  exited : String → Reason → A → Bool → Notice A
  retired : String → KillReason → Option A → Notice A
  breaker_tripped : BreakerType → Notice A
  heartbeat : ℕ → Notice A
  unpriced : String → Notice A
  divergence : String → A → A → Notice A
  manual_restart_required : String → Notice A
  entered : String → A → String → Notice A
  healed_entry : String → String → Notice A
  unknown_strategy : String → Notice A

-- The newest call and notice come first.
pub record World (A : Type 0) : Type 0 where
  pub db : Db A
  pub placed : List (Placed A)
  pub notices : List (Notice A)

-- The broker's client and the price source. What they answer is fixed within a run, for each
-- argument: they are adapters over client libraries that the repository does not hold.
pub record Broker (A : Type 0) : Type 0 where
  pub place_order : Placed A → Result ℕ
  pub latest_price : String → Result A
  pub fetch_price : String → Result A
  pub fills : List (Fill A)
  pub positions : Result (List (String × A))

abbrev pub Act : Type 0 → Type 0 → Type 0
Act A X = World A → Result X × World A

module _ {A : Type 0} where
  abbrev pub pure : {X : Type 0} → X → Act A X
  pure x w = (ok x, w)

  abbrev pub lift : {X : Type 0} → Result X → Act A X
  lift r w = (r, w)

  abbrev pub gets : {X : Type 0} → (Db A → X) → Act A X
  gets g w = (ok (g w.db), w)

  -- A statement that cannot raise.
  abbrev pub modify : (Db A → Db A) → Act A (Unit {0})
  modify g w = (ok tt, record w { db = g w.db })

  -- A statement that can raise, and then changes nothing.
  abbrev pub execute : (Db A → Result (Db A)) → Act A (Unit {0})
  execute g w = elim (g w.db) [ ok db ↦ (ok tt, record w { db = db }) | err e ↦ (err e, w) ]

  abbrev pub notify : Notice A → Act A (Unit {0})
  notify n w = (ok tt, record w { notices = n ∷ w.notices })

  -- The call is made, and then the broker answers.
  abbrev pub send : Broker A → Placed A → Act A ℕ
  send broker order w = (broker.place_order order, record w { placed = order ∷ w.placed })

infixl 5 ◌>>=◌ ◌>>◌
unfoldable pub ◌>>=◌ : {A X Y : Type 0} → Act A X → (X → Act A Y) → Act A Y
◌>>=◌ m k w = let (r, w') = m w in elim r [ ok x ↦ k x w' | err e ↦ (err e, w') ]

abbrev pub ◌>>◌ : {A Y : Type 0} → Act A (Unit {0}) → Act A Y → Act A Y
m >> k = m >>= λ _. k

-- ===== src/Paper/Reconcile.antt =====
-- trader/paper/reconcile.py and clear_halt.py: local against broker positions, the halt of entries
-- and the one function that ends it.
pub mod Classify
pub mod Halt
mod Tests
use mathlib.Core.List.{map}
use trader_pxg.Base.{
  ℕ, String, Bool, true, false, ◌&&◌, ◌||◌, Option, none, some, List, [], ◌∷◌, ◌++◌, ◌==◌, any,
  if◌then◌else◌, Float, float_zero, ◌⊕◌, ◌⊖◌, ◌≈◌, absolute, Result, ok, err,
}
use trader_pxg.Risk.Breakers.{
  BreakerType, daily_loss, drawdown, consecutive_loss, system, human, is_tripped,
  read_breaker_state,
}
use trader_pxg.Paper.Store.{
  Venue, ibkr_paper, kraken_readonly, same_venue, Position, Classification, explainable,
  unexplained, informational, ReconcileAction, log, halt, clear, ReconcileEvent, Db,
}
use trader_pxg.Paper.Ledger.{get_open_positions, get_pending_order_qty}
use trader_pxg.Paper.World.{
  World, Broker, Notice, Act, divergence, manual_restart_required, pure, gets, modify, notify, lift,
  ◌>>=◌, ◌>>◌,
}

pub record Divergence (A : Type 0) : Type 0 where
  pub symbol : String
  pub local_qty : A
  pub broker_qty : A
  pub classification : Classification

module _ {A : Type 0} where
  -- `d.get(key)`
  abbrev pub get : String → List (String × A) → Option A
  get k [] = none
  get k ((j, v) ∷ rest) = if j == k then some v else get k rest

  abbrev pub get_or : String → A → List (String × A) → A
  get_or k default d = elim (get k d) [ none ↦ default | some v ↦ v ]

  abbrev pub keys : List (String × A) → List String
  keys = map (λ entry. entry.0)

-- `set(local) | set(broker)`: each key once.
abbrev pub distinct : List String → List String
distinct [] = []
distinct (k ∷ ks) = let rest = distinct ks in if any (λ j. j == k) ks then rest else k ∷ rest

abbrev pub action_for : Classification → ReconcileAction
action_for unexplained = halt
action_for _ = log

abbrev pub is_halt : Option ReconcileAction → Bool
is_halt (some halt) = true
is_halt _ = false

abbrev pub is_unexplained : Classification → Bool
is_unexplained unexplained = true
is_unexplained _ = false

-- What the optional read-only check of the crypto venue returns.
pub record Readonly (A : Type 0) : Type 0 where
  pub symbol : Option String
  pub local_qty : Option A
  pub broker_qty : Option A
  pub reason : Option String

module _ {A : Type 0} where
  unfoldable pub collect : (String → Option (Divergence A)) → List String → List (Divergence A)
  collect g [] = []
  collect g (k ∷ ks) = elim (g k) [ none ↦ collect g ks | some d ↦ d ∷ collect g ks ]

  unfoldable pub record_reconciliation :
      Option String → Venue → Option A → Option A → Classification → Option String → Db A → Db A
  record_reconciliation symbol venue local_qty broker_qty classification reason db = record db {
    reconciliation_log =
        record {
          symbol = symbol;
          venue = venue;
          local_qty = local_qty;
          broker_qty = broker_qty;
          classification = classification;
          action = action_for classification;
          reason = reason;
          actor = system;
        }
        ∷ db.reconciliation_log;
  }

  -- The view `reconciliation_halt_state`: the newest row that halts or clears.
  unfoldable pub halt_state : List (ReconcileEvent A) → Option ReconcileAction
  halt_state [] = none
  halt_state (e ∷ events) = elim e.action [
    | log ↦ halt_state events
    | halt ↦ some halt
    | clear ↦ some clear
  ]

  unfoldable pub is_entry_halted : Db A → Bool
  unfolding halt_state
  is_entry_halted db =
      let state = read_breaker_state db.breaker_events in
      is_tripped (state daily_loss)
      || is_tripped (state drawdown)
      || is_tripped (state consecutive_loss)
      || is_halt (halt_state db.reconciliation_log)

  -- What the check of the other venue answers, if there is an adapter; the call may raise.
  unfoldable pub record_readonly : Option (Result (Readonly A)) → Act A (Unit {0})
  unfolding record_reconciliation
  record_readonly none = pure tt
  record_readonly (some (err e)) = lift (err e)
  record_readonly (some (ok r)) = modify (
      record_reconciliation r.symbol kraken_readonly r.local_qty r.broker_qty informational
        r.reason)

  -- clear_halt.py: the row and the line of the ops log, in the same call.
  unfoldable pub clear_entry_halt : String → Act A (Unit {0})
  clear_entry_halt reason = do
    modify (λ db. record db {
      reconciliation_log =
          record {
            symbol = none;
            venue = ibkr_paper;
            local_qty = none;
            broker_qty = none;
            classification = informational;
            action = clear;
            reason = some reason;
            actor = human;
          }
          ∷ db.reconciliation_log;
    })
    notify (manual_restart_required reason)

module _ {A : Type 0} ⦃f : Float A⦄ where
  -- `pending_qty.get(symbol) == abs(delta)`; None equals no number.
  abbrev pub explains : Option A → A → Bool
  explains none size = false
  explains (some qty) size = qty ≈ size

  -- One round of the loop over the symbols.
  unfoldable pub diverging :
      List (String × A) → List (String × A) → List (String × A) → String → Option (Divergence A)
  unfolding absolute
  diverging local_positions broker_positions pending_qty symbol =
      let local_qty = get_or symbol float_zero local_positions in
      let broker_qty = get_or symbol float_zero broker_positions in
      let delta = broker_qty ⊖ local_qty in
      if delta ≈ float_zero
      then none
      else some (record {
        symbol = symbol;
        local_qty = local_qty;
        broker_qty = broker_qty;
        classification =
            if explains (get symbol pending_qty) (absolute delta) then explainable else unexplained;
      })

  -- `sorted` of the symbols is an argument: any function that reorders a list.
  unfoldable pub classify_divergence :
      (List String → List String)
      → List (String × A)
      → List (String × A)
      → List (String × A)
      → List (Divergence A)
  unfolding diverging collect
  classify_divergence sorted local_positions broker_positions pending_qty =
      collect (diverging local_positions broker_positions pending_qty)
        (sorted (distinct (keys local_positions ++ keys broker_positions)))

  -- `local_positions[symbol] = local_positions.get(symbol, 0) + qty`
  abbrev pub add_position : String → A → List (String × A) → List (String × A)
  add_position symbol qty [] = (symbol, float_zero ⊕ qty) ∷ []
  add_position symbol qty ((s, total) ∷ rest) =
      if s == symbol then (s, total ⊕ qty) ∷ rest else (s, total) ∷ add_position symbol qty rest

  unfoldable pub local_positions_from : List (String × A) → List (Position A) → List (String × A)
  local_positions_from sums [] = sums
  local_positions_from sums (p ∷ ps) =
      local_positions_from
        (if same_venue p.venue ibkr_paper then add_position p.symbol p.qty sums else sums) ps

  -- The alert, for an unexplained entry only.
  abbrev pub alert_on : Classification → Notice A → Act A (Unit {0})
  alert_on classification message =
      if is_unexplained classification then notify message else pure tt

  -- One round of the loop that records and alerts.
  unfoldable pub report : Divergence A → Act A (Unit {0})
  unfolding record_reconciliation
  report entry = do
    modify (
        record_reconciliation (some entry.symbol) ibkr_paper (some entry.local_qty)
          (some entry.broker_qty) entry.classification none)
    alert_on entry.classification (divergence entry.symbol entry.local_qty entry.broker_qty)

  unfoldable pub report_all : List (Divergence A) → Act A (Unit {0})
  unfolding report
  report_all [] = pure tt
  report_all (entry ∷ entries) = report entry >> report_all entries

  unfoldable pub run_reconcile_once :
      (List String → List String)
      → Broker A
      → Option (Result (Readonly A))
      → Act A (List (Divergence A) × Bool)
  unfolding local_positions_from classify_divergence report_all record_readonly is_entry_halted
  run_reconcile_once sorted broker crypto = do
    positions ← gets (get_open_positions none)
    pending_qty ← gets get_pending_order_qty
    broker_positions ← lift broker.positions
    let divergences =
        classify_divergence sorted (local_positions_from [] positions) broker_positions pending_qty
    report_all divergences
    record_readonly crypto
    halted ← gets is_entry_halted
    pure (divergences, halted)

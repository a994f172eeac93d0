-- ===== src/Paper/Reconcile/Halt.antt =====
-- The halt of entries: what reconcile.py can start and only clear_halt.py can end.
use trader_pxg.Base.{
  ℕ, String, ◌≡◌, refl, Bool, true, false, ◌⊎◌, inl, inr, ◌||◌, Option, none, some, List, [], ◌∷◌,
  arith, any, Float, Result, ok, err,
}
use trader_pxg.Risk.Breakers.{
  Evaluation, record_breaker_transitions, BreakerEvent, daily_loss, drawdown, consecutive_loss,
  is_tripped, read_breaker_state,
}
use trader_pxg.Paper.Store.{
  ReconcileEvent, log, Classification, explainable, unexplained, informational,
}
use trader_pxg.Paper.Ledger.{get_open_positions, get_pending_order_qty}
use trader_pxg.Paper.World.{◌>>=◌, World, Broker}
use trader_pxg.Paper.Reconcile.{
  Divergence, Readonly, is_halt, is_unexplained, action_for, halt_state, is_entry_halted,
  record_reconciliation, report, report_all, record_readonly, run_reconcile_once, clear_entry_halt,
  classify_divergence, local_positions_from,
}

Classification-cases :
    (c : Classification)
    → (is_unexplained c ≡ true) × (c ≡ unexplained)
      ⊎ (is_unexplained c ≡ false) × (action_for c ≡ log)
Classification-cases explainable = inr (refl, refl)
Classification-cases unexplained = inl (refl, refl)
Classification-cases informational = inr (refl, refl)

module _ {A : Type 0} where
  abbrev pub halted_in : List (ReconcileEvent A) → Bool
  halted_in events = is_halt (halt_state events)

  abbrev pub breaker_tripped_in : List (BreakerEvent A) → Bool
  breaker_tripped_in events =
      let state = read_breaker_state events in
      is_tripped (state daily_loss)
      || is_tripped (state drawdown)
      || is_tripped (state consecutive_loss)

  -- From one world to another only the log and the notices changed, and the log did not end a halt.
  abbrev pub Latched : World A → World A → Type 0
  Latched before after =
      (after.db ≡ record before.db { reconciliation_log = after.db.reconciliation_log })
      × (after.placed ≡ before.placed)
      × (halted_in before.db.reconciliation_log ≡ true
          → halted_in after.db.reconciliation_log ≡ true)

module _ {A : Type 0} ⦃f : Float A⦄ where
  report-Latched :
      (d : Divergence A) (w : World A)
      → let (r, after) = report d w in
        (r ≡ ok tt)
        × Latched w after
        × (is_unexplained d.classification ≡ true → halted_in after.db.reconciliation_log ≡ true)
  unfolding report record_reconciliation halt_state ◌>>=◌
  report-Latched d w = elim (Classification-cases d.classification) [
    | inl (u, e) ↦ ground arith
    | inr (u, e) ↦ ground arith
  ]

  report_all-Latched :
      (ds : List (Divergence A)) (w : World A)
      → let (r, after) = report_all ds w in
        (r ≡ ok tt)
        × Latched w after
        × (any (λ (d : Divergence A). is_unexplained d.classification) ds ≡ true
            → halted_in after.db.reconciliation_log ≡ true)
  unfolding report_all ◌>>=◌
  report_all-Latched [] w = (refl, (refl, refl, λ h. h), λ h. cc)
  report_all-Latched (d ∷ ds) w =
      ground (arith, report-Latched d w, report_all-Latched ds (report d w).1)

  -- What a call returns that ends with the check of the other venue, or what that check raises.
  abbrev pub answer_after : {X : Type 0} → Option (Result (Readonly A)) → X → Result X
  answer_after none x = ok x
  answer_after (some (ok c)) x = ok x
  answer_after (some (err e)) x = err e

  record_readonly-Latched :
      (crypto : Option (Result (Readonly A))) (w : World A)
      → let (r, after) = record_readonly crypto w in
        (r ≡ answer_after crypto tt)
        × Latched w after
        × (halted_in after.db.reconciliation_log ≡ halted_in w.db.reconciliation_log)
  unfolding record_readonly record_reconciliation halt_state
  record_readonly-Latched none w = (refl, (refl, refl, λ h. h), refl)
  record_readonly-Latched (some (ok c)) w = (refl, (refl, refl, λ h. h), refl)
  record_readonly-Latched (some (err e)) w = (refl, (refl, refl, λ h. h), refl)

  abbrev pub found_in :
      (List String → List String) → World A → List (String × A) → List (Divergence A)
  found_in sorted w positions =
      classify_divergence sorted (local_positions_from [] (get_open_positions none w.db)) positions
        (get_pending_order_qty w.db)

  -- What a reconciliation comes to, by what the snapshot of the broker answers.
  abbrev pub Reconciled :
      (List String → List String)
      → Result (List (String × A))
      → Option (Result (Readonly A))
      → World A
      → Result (List (Divergence A) × Bool)
      → World A
      → Type 0
  Reconciled sorted (err e) crypto w r after = (r ≡ err e) × (after ≡ w)
  Reconciled sorted (ok positions) crypto w r after =
      let ds = found_in sorted w positions in
      (r ≡ answer_after crypto (ds, is_entry_halted after.db))
      × (any (λ (d : Divergence A). is_unexplained d.classification) ds ≡ true
          → is_entry_halted after.db ≡ true)

  -- A reconciliation, wherever it raises, sends no order, changes no table but the log, and ends no
  -- halt. When the snapshot of the broker raises it raises the same and changes nothing. Otherwise
  -- it returns the divergences between the open positions and the broker's and whether entries are
  -- halted after it, or raises what the check of the other venue raises; and in either case, when
  -- one divergence is unexplained, entries are halted after it.
  pub run_reconcile_once-halts :
      (sorted : List String → List String) (broker : Broker A)
      (crypto : Option (Result (Readonly A))) (w : World A)
      → let (r, after) = run_reconcile_once sorted broker crypto w in
        Latched w after × Reconciled sorted broker.positions crypto w r after
  unfolding run_reconcile_once is_entry_halted ◌>>=◌
  run_reconcile_once-halts sorted broker crypto w = by_answer broker.positions crypto refl
    where
      by_answer :
          (answer : Result (List (String × A))) (crypto : Option (Result (Readonly A)))
          → broker.positions ≡ answer
          → let (r, after) = run_reconcile_once sorted broker crypto w in
            Latched w after × Reconciled sorted answer crypto w r after
      by_answer (err e) crypto asked = rw asked ((refl, refl, λ h. h), (refl, refl))
      by_answer (ok positions) none asked =
          rw asked (ground (arith, report_all-Latched (found_in sorted w positions) w))
      by_answer (ok positions) (some (ok c)) asked = rw asked (
          ground (
            arith,
            report_all-Latched (found_in sorted w positions) w,
            record_readonly-Latched (some (ok c)) (report_all (found_in sorted w positions) w).1,
          ))
      by_answer (ok positions) (some (err e)) asked =
          rw asked (ground (arith, report_all-Latched (found_in sorted w positions) w))

  -- What can happen with no human step: reconciliations against any answers of the broker, and
  -- evaluations of the breakers.
  pub data Unattended (w : World A) : World A → Type 0 where
    unchanged : Unattended w w
    reconciled :
        {later : World A} (sorted : List String → List String) (broker : Broker A)
        (crypto : Option (Result (Readonly A)))
        → Unattended w later
        → Unattended w (run_reconcile_once sorted broker crypto later).1
    evaluated :
        {later : World A} (now : ℕ) (evaluation : Evaluation A)
        → Unattended w later
        → Unattended w (record later {
          db = record later.db {
            breaker_events =
                record_breaker_transitions now
                  (read_breaker_state later.db.breaker_events)
                  evaluation
                  later.db.breaker_events;
          };
        })

  -- Once the reconciliation log halts entries, they stay halted through any number of
  -- reconciliations and breaker evaluations, whatever the broker answers.
  pub Unattended-stays_halted :
      {w later : World A}
      → halted_in w.db.reconciliation_log ≡ true
      → Unattended w later
      → is_entry_halted later.db ≡ true
  unfolding is_entry_halted
  Unattended-stays_halted h steps = ground (arith, keeps_halt h steps)
    where
      keeps_halt :
          {w later : World A}
          → halted_in w.db.reconciliation_log ≡ true
          → Unattended w later
          → halted_in later.db.reconciliation_log ≡ true
      keeps_halt h unchanged = h
      keeps_halt h (reconciled {later = middle} sorted broker crypto steps) =
          (run_reconcile_once-halts sorted broker crypto middle).0.2 (keeps_halt h steps)
      keeps_halt h (evaluated now evaluation steps) = keeps_halt h steps

  -- After a clear by a human, entries are halted exactly when a breaker is tripped; no table but
  -- the log is changed.
  pub clear_entry_halt-leaves_breakers :
      (reason : String) (w : World A)
      → let (r, after) = clear_entry_halt reason w in
        (r ≡ ok tt)
        × (is_entry_halted after.db ≡ breaker_tripped_in w.db.breaker_events)
        × (after.db ≡ record w.db { reconciliation_log = after.db.reconciliation_log })
  unfolding clear_entry_halt is_entry_halted halt_state ◌>>=◌
  clear_entry_halt-leaves_breakers reason w = (refl, ground arith, refl)

-- ===== src/Paper/Guardian/Alerts.antt =====
-- The alerts of the account's breakers in trader/paper/guardian.py.
use mathlib.Core.List.{map}
use mathlib.Core.Path.{fun_ext, sym}
use trader_pxg.Base.{
  ℕ, ◌≡◌, refl, Bool, true, false, not, ◌&&◌, ◌||◌, ap, ◌∙◌, List, ◌∷◌, if◌then◌else◌, Float, ok,
}
use trader_pxg.Risk.Config.{risk_config}
use trader_pxg.Risk.Breakers.{
  BreakerEvent, BreakerType, daily_loss, drawdown, consecutive_loss, Evaluation, evaluate_breakers,
  read_breaker_state, record_breaker_transitions,
}
use trader_pxg.Paper.Store.{Db, PaperTrade}
use trader_pxg.Paper.World.{
  World, Notice, Act, breaker_tripped, notify, lift, modify, ◌>>◌, pure, ◌>>=◌,
}
use trader_pxg.Risk.Breakers.Transitions.{tripped_in, record_breaker_transitions-tripped}
use trader_pxg.Paper.World.Keeps.{bind-ok}
use trader_pxg.Paper.Guardian.Kill.{
  running_curve, get_all_trades_chronological, paper_account_equity, tripped_by,
  evaluate_account_breakers,
}

fresh_trip : (was now : Bool) → not was && now ≡ (not was && (was || now))
fresh_trip true now = refl
fresh_trip false now = refl

module _ {A : Type 0} ⦃f : Float A⦄ where
  abbrev pub pnls_of : Db A → List A
  pnls_of db = map (λ (t : PaperTrade A). t.pnl) (get_all_trades_chronological db)

  -- Of two logs, whether the breaker is tripped in the later and not in the earlier.
  abbrev pub trips_between : List (BreakerEvent A) → List (BreakerEvent A) → BreakerType → Bool
  trips_between before after t = not (tripped_in before t) && tripped_in after t

  -- The alert of a breaker where it trips, on top of the others.
  abbrev pub alerted : Bool → BreakerType → List (Notice A) → List (Notice A)
  alerted trips t notices = if trips then breaker_tripped t ∷ notices else notices

  -- The statements after the evaluation, on the conditions of the three alerts.
  abbrev finish : Bool → Bool → Bool → (Db A → Db A) → Evaluation A → Act A (Evaluation A)
  finish b1 b2 b3 g evaluation = do
    if b1 then notify (breaker_tripped daily_loss) else pure tt
    if b2 then notify (breaker_tripped drawdown) else pure tt
    if b3 then notify (breaker_tripped consecutive_loss) else pure tt
    modify g
    pure evaluation

  finish-eq :
      (b1 b2 b3 : Bool) (g : Db A → Db A) (evaluation : Evaluation A) (w : World A)
      → finish b1 b2 b3 g evaluation w ≡ (
        ok evaluation,
        record w {
          db = g w.db;
          notices =
              alerted b3 consecutive_loss (alerted b2 drawdown (alerted b1 daily_loss w.notices));
        },
      )
  unfolding ◌>>=◌
  finish-eq true true true g evaluation w = refl
  finish-eq true true false g evaluation w = refl
  finish-eq true false true g evaluation w = refl
  finish-eq true false false g evaluation w = refl
  finish-eq false true true g evaluation w = refl
  finish-eq false true false g evaluation w = refl
  finish-eq false false true g evaluation w = refl
  finish-eq false false false g evaluation w = refl

  abbrev is_fresh : Db A → Evaluation A → BreakerType → Bool
  is_fresh before evaluation t = not (tripped_in before.breaker_events t) && tripped_by evaluation t

  abbrev with_transitions : ℕ → Db A → Evaluation A → Db A → Db A
  with_transitions now before evaluation db = record db {
    breaker_events =
        record_breaker_transitions now (read_breaker_state before.breaker_events) evaluation
          db.breaker_events;
  }

  abbrev finish_on : ℕ → Db A → Evaluation A → Act A (Evaluation A)
  finish_on now before evaluation =
      finish (is_fresh before evaluation daily_loss) (is_fresh before evaluation drawdown)
        (is_fresh before evaluation consecutive_loss) (with_transitions now before evaluation)
        evaluation

  evaluate-eq :
      (now : ℕ) (w : World A) (evaluation : Evaluation A)
      → evaluate_breakers
          (paper_account_equity ∷ running_curve paper_account_equity (pnls_of w.db))
          (pnls_of w.db)
          risk_config
        ≡ ok evaluation
      → let fresh = is_fresh w.db evaluation in
        evaluate_account_breakers now w ≡ (
          ok evaluation,
          record w {
            db = record w.db {
              breaker_events =
                  record_breaker_transitions now
                    (read_breaker_state w.db.breaker_events)
                    evaluation
                    w.db.breaker_events;
            };
            notices = alerted (fresh consecutive_loss) consecutive_loss (
                alerted
                  (fresh drawdown)
                  drawdown
                  (alerted (fresh daily_loss) daily_loss w.notices));
          },
        )
  unfolding evaluate_account_breakers ◌>>=◌
  evaluate-eq now w evaluation h =
      bind-ok
        (lift (
          evaluate_breakers
            (paper_account_equity ∷ running_curve paper_account_equity (pnls_of w.db))
            (pnls_of w.db) risk_config))
        (λ (e : Evaluation A). finish_on now w.db e) w (ap (λ r. (r, w)) h)
      ∙ finish-eq (is_fresh w.db evaluation daily_loss) (is_fresh w.db evaluation drawdown)
          (is_fresh w.db evaluation consecutive_loss) (with_transitions now w.db evaluation)
          evaluation w

  fresh-eq-trips :
      (now : ℕ) (before : Db A) (evaluation : Evaluation A) (t : BreakerType)
      → is_fresh before evaluation t
        ≡ trips_between before.breaker_events
            (with_transitions now before evaluation before).breaker_events
            t
  fresh-eq-trips now before evaluation daily_loss =
      ap (λ b. not (tripped_in before.breaker_events daily_loss) && b)
        (sym (record_breaker_transitions-tripped now evaluation before.breaker_events).0)
  fresh-eq-trips now before evaluation drawdown =
      fresh_trip (tripped_in before.breaker_events drawdown) evaluation.drawdown_tripped
      ∙ ap (λ b. not (tripped_in before.breaker_events drawdown) && b)
          (sym (record_breaker_transitions-tripped now evaluation before.breaker_events).2)
  fresh-eq-trips now before evaluation consecutive_loss =
      ap (λ b. not (tripped_in before.breaker_events consecutive_loss) && b)
        (sym (record_breaker_transitions-tripped now evaluation before.breaker_events).1)

  -- Where the evaluation of the account's curve does not raise, it is returned, its transitions are
  -- the only change of the database, no order is sent, and the operator is alerted of exactly the
  -- breakers that are tripped in the log after and were not in the log before.
  pub evaluate_account_breakers-alerts :
      (now : ℕ) (w : World A) (evaluation : Evaluation A)
      → evaluate_breakers
          (paper_account_equity ∷ running_curve paper_account_equity (pnls_of w.db))
          (pnls_of w.db)
          risk_config
        ≡ ok evaluation
      → let (r, after) = evaluate_account_breakers now w in
        let trips = trips_between w.db.breaker_events after.db.breaker_events in
        (r ≡ ok evaluation)
        × (after.db ≡ record w.db { breaker_events = after.db.breaker_events })
        × (after.placed ≡ w.placed)
        × (after.notices
            ≡ alerted (trips consecutive_loss) consecutive_loss (
                alerted
                  (trips drawdown)
                  drawdown
                  (alerted (trips daily_loss) daily_loss w.notices)))
  evaluate_account_breakers-alerts now w evaluation h = rw (evaluate-eq now w evaluation h) (
    refl,
    refl,
    refl,
    ap
        (λ (now_tripped : BreakerType → Bool).
          alerted (now_tripped consecutive_loss) consecutive_loss (
            alerted (now_tripped drawdown) drawdown
              (alerted (now_tripped daily_loss) daily_loss w.notices)))
        (fun_ext (fresh-eq-trips now w.db evaluation)),
  )

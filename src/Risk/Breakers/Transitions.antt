-- ===== src/Risk/Breakers/Transitions.antt =====
-- The event log of trader/risk/breakers.py: what an evaluation does to the state that is derived
-- from the log, and which logs can arise.
use trader_pxg.Base.{
  ℕ, String, ◌≡◌, refl, Bool, true, false, not, ◌&&◌, ◌||◌, Option, some, List, [], ◌∷◌,
  if◌then◌else◌, arith, Float, decimal,
}
use trader_pxg.Risk.Breakers.{
  Evaluation, BreakerType, daily_loss, drawdown, consecutive_loss, Action, trip, reset,
  manual_restart, Actor, human, BreakerEvent, BreakerState, same_breaker, is_tripped,
  append_breaker_event, read_breaker_state, record_auto_clearing_breaker, clear_manual_restart,
  record_breaker_transitions,
}

module _ {A : Type 0} where
  abbrev pub tripped_in : List (BreakerEvent A) → BreakerType → Bool
  tripped_in events t = is_tripped (read_breaker_state events t)

  -- Why a row may follow the rows that are older: a trip after no trip, a reset of one of the two
  -- breakers that clear by themselves after a trip, a restart of the drawdown breaker by a human.
  abbrev pub IsJustified : BreakerType → Action → Actor → List (BreakerEvent A) → Type 0
  IsJustified t trip actor events = tripped_in events t ≡ false
  IsJustified t reset actor events =
      (tripped_in events t ≡ true) × (same_breaker t drawdown ≡ false)
  IsJustified t manual_restart actor events = (t ≡ drawdown) × (actor ≡ human)

  abbrev pub IsJournal : List (BreakerEvent A) → Type 0
  IsJournal [] = Unit
  IsJournal (e ∷ events) = IsJustified e.breaker_type e.action e.actor events × IsJournal events

  auto-tripped :
      (now : ℕ) (state : BreakerType → BreakerState) (t : BreakerType) (tripped : Bool)
      (value : Option A) (events : List (BreakerEvent A))
      → is_tripped (state t) ≡ tripped_in events t
      → tripped_in (record_auto_clearing_breaker now state t tripped value events) t ≡ tripped
  unfolding record_auto_clearing_breaker read_breaker_state append_breaker_event
  auto-tripped now state daily_loss tripped value events h = ground arith
  auto-tripped now state drawdown tripped value events h = ground arith
  auto-tripped now state consecutive_loss tripped value events h = ground arith

  auto-others :
      (now : ℕ) (state : BreakerType → BreakerState) (t s : BreakerType) (tripped : Bool)
      (value : Option A) (events : List (BreakerEvent A))
      → same_breaker t s ≡ false
      → tripped_in (record_auto_clearing_breaker now state t tripped value events) s
        ≡ tripped_in events s
  unfolding record_auto_clearing_breaker read_breaker_state append_breaker_event
  auto-others now state t s tripped value events h = ground arith

  auto-IsJournal :
      (now : ℕ) (state : BreakerType → BreakerState) (t : BreakerType) (tripped : Bool)
      (value : Option A) (events : List (BreakerEvent A))
      → is_tripped (state t) ≡ tripped_in events t
      → same_breaker t drawdown ≡ false
      → IsJournal events
      → IsJournal (record_auto_clearing_breaker now state t tripped value events)
  unfolding record_auto_clearing_breaker append_breaker_event
  auto-IsJournal now state t tripped value events h auto j = ground arith

-- The log before, and rows that were appended to it, the newest first.
pub data Extends {A : Type 0} (before : List (BreakerEvent A))
    : List (BreakerEvent A) → Type 0 where
  as_before : Extends before before
  appended :
      {row : BreakerEvent A} {after : List (BreakerEvent A)}
      → Extends before after
      → Extends before (row ∷ after)

if-Extends :
    {A : Type 0} {before : List (BreakerEvent A)} (b : Bool) (xs ys : List (BreakerEvent A))
    → Extends before xs
    → Extends before ys
    → Extends before (if b then xs else ys)
if-Extends true xs ys h k = h
if-Extends false xs ys h k = k

module _ {A : Type 0} where
  auto-Extends :
      {before : List (BreakerEvent A)} (now : ℕ) (state : BreakerType → BreakerState)
      (t : BreakerType) (tripped : Bool) (value : Option A) (events : List (BreakerEvent A))
      → Extends before events
      → Extends before (record_auto_clearing_breaker now state t tripped value events)
  unfolding record_auto_clearing_breaker append_breaker_event
  auto-Extends now state t tripped value events kept =
      if-Extends (not (is_tripped (state t)) && tripped) _ _ (appended kept)
        (if-Extends (is_tripped (state t) && not tripped) _ _ (appended kept) kept)

module _ {A : Type 0} ⦃f : Float A⦄ where
  -- An evaluation on the state of the log leaves each of the two breakers that clear by themselves
  -- tripped exactly when it says so, and the drawdown breaker tripped when it was or is now.
  pub record_breaker_transitions-tripped :
      (now : ℕ) (evaluation : Evaluation A) (events : List (BreakerEvent A))
      → let after = record_breaker_transitions now (read_breaker_state events) evaluation events in
        (tripped_in after daily_loss ≡ evaluation.daily_loss_tripped)
        × (tripped_in after consecutive_loss ≡ evaluation.consecutive_loss_tripped)
        × (tripped_in after drawdown ≡ (tripped_in events drawdown || evaluation.drawdown_tripped))
  unfolding record_breaker_transitions record_auto_clearing_breaker read_breaker_state
      append_breaker_event
  record_breaker_transitions-tripped now evaluation events =
      (ground arith, ground arith, ground arith)

  evaluation-Extends :
      (now : ℕ) (state : BreakerType → BreakerState) (evaluation : Evaluation A)
      (events : List (BreakerEvent A))
      → Extends events (record_breaker_transitions now state evaluation events)
  unfolding record_breaker_transitions append_breaker_event
  evaluation-Extends now state evaluation events =
      let kept =
        auto-Extends now state consecutive_loss evaluation.consecutive_loss_tripped
          (some (decimal evaluation.consecutive_loss_count 0)) _
          (auto-Extends now state daily_loss evaluation.daily_loss_tripped
            evaluation.daily_loss_value events as_before) in
      if-Extends (not (is_tripped (state drawdown)) && evaluation.drawdown_tripped) _ _
        (appended kept) kept

  -- An evaluation and a manual restart keep every row of the log and append only rows that the log
  -- before them justifies: a trip of a breaker that is not tripped, a reset of a tripped breaker
  -- that is not the drawdown breaker, a restart of the drawdown breaker by a human.
  pub record_breaker_transitions-IsJournal :
      (now : ℕ) (evaluation : Evaluation A) (reason : String) (events : List (BreakerEvent A))
      → IsJournal events
      → let after = record_breaker_transitions now (read_breaker_state events) evaluation events in
        let restarted = clear_manual_restart now reason events in
        (Extends events after × IsJournal after) × (Extends events restarted × IsJournal restarted)
  unfolding record_breaker_transitions record_auto_clearing_breaker read_breaker_state
      append_breaker_event
  record_breaker_transitions-IsJournal now evaluation reason events j = (
    (evaluation-Extends now (read_breaker_state events) evaluation events, ground arith),
    unfold clear_manual_restart in (appended as_before, ((refl, refl), j)),
  )

  -- The log after a number of evaluations, with no human step between them.
  pub data Automated (events : List (BreakerEvent A)) : List (BreakerEvent A) → Type 0 where
    unchanged : Automated events events
    evaluated :
        {later : List (BreakerEvent A)} (now : ℕ) (evaluation : Evaluation A)
        → Automated events later
        → Automated events
            (record_breaker_transitions now (read_breaker_state later) evaluation later)

  -- However many evaluations follow, and whatever they say, a tripped drawdown breaker stays
  -- tripped.
  pub Automated-latches :
      {events later : List (BreakerEvent A)}
      → tripped_in events drawdown ≡ true
      → Automated events later
      → tripped_in later drawdown ≡ true
  Automated-latches h unchanged = h
  Automated-latches h (evaluated {later = middle} now evaluation steps) =
      ground
        (arith, Automated-latches h steps, record_breaker_transitions-tripped now evaluation middle)

  -- A manual restart ends the halt of the drawdown breaker, and leaves the other two as they were.
  pub clear_manual_restart-clears :
      (now : ℕ) (reason : String) (events : List (BreakerEvent A))
      → (tripped_in (clear_manual_restart now reason events) drawdown ≡ false)
        × (tripped_in (clear_manual_restart now reason events) daily_loss
            ≡ tripped_in events daily_loss)
        × (tripped_in (clear_manual_restart now reason events) consecutive_loss
            ≡ tripped_in events consecutive_loss)
  unfolding clear_manual_restart append_breaker_event read_breaker_state
  clear_manual_restart-clears now reason events = (refl, refl, refl)

-- ===== src/Risk/Breakers.antt =====
-- trader/risk/breakers.py: the evaluation of the three breakers and their append-only event log.
-- The table `breaker_events` is the list of its rows, newest first; the clock is an argument.
pub mod Values
pub mod Transitions
mod Tests
use mathlib.Core.List.{foldl, reverse}
use trader_pxg.Base.{
  ℕ, zero, suc, String, Bool, true, false, not, ◌&&◌, Option, none, some, List, [], ◌∷◌, leb,
  if◌then◌else◌, Float, decimal, float_zero, ◌⊖◌, ◌≺◌, ◌≼◌, divide, maximum, Result, ok, ◌>>=◌,
}
use trader_pxg.Risk.Config.{RiskConfig}

-- The dict that `evaluate_breakers` returns.
pub record Evaluation (A : Type 0) : Type 0 where
  pub daily_loss_tripped : Bool
  pub daily_loss_value : Option A
  pub drawdown_tripped : Bool
  pub drawdown_value : Option A
  pub consecutive_loss_tripped : Bool
  pub consecutive_loss_count : ℕ

pub data BreakerType : Type 0 where
  daily_loss drawdown consecutive_loss : BreakerType

pub data Action : Type 0 where
  trip reset manual_restart : Action

pub data Actor : Type 0 where
  system human : Actor

-- A row of `breaker_events`.
pub record BreakerEvent (A : Type 0) : Type 0 where
  pub ts : ℕ
  pub breaker_type : BreakerType
  pub action : Action
  pub trigger_value : Option A
  pub reason : Option String
  pub actor : Actor

-- An entry of the dict that `read_breaker_state` returns; `none` is "normal".
pub record BreakerState : Type 0 where
  pub current_action : Option Action
  pub since : Option ℕ
  pub reason : Option String

abbrev pub same_breaker : BreakerType → BreakerType → Bool
same_breaker daily_loss daily_loss = true
same_breaker drawdown drawdown = true
same_breaker consecutive_loss consecutive_loss = true
same_breaker _ _ = false

abbrev pub is_trip : Option Action → Bool
is_trip (some trip) = true
is_trip _ = false

-- `state[...]["current_action"] == "trip"`
abbrev pub is_tripped : BreakerState → Bool
is_tripped s = is_trip s.current_action

-- `equity_curve[-2], equity_curve[-1]`, where there are two.
abbrev pub last_two : {A : Type 0} → List A → Option (A × A)
last_two [] = none
last_two (a ∷ []) = none
last_two (a ∷ b ∷ []) = some (a, b)
last_two (a ∷ b ∷ c ∷ rest) = last_two (b ∷ c ∷ rest)

abbrev pub last_of : {A : Type 0} → A → List A → A
last_of a [] = a
last_of a (b ∷ rest) = last_of b rest

module _ {A : Type 0} ⦃f : Float A⦄ where
  -- `max(equity_curve)` of a non-empty curve.
  unfoldable pub highest : A → List A → A
  highest = foldl maximum

  -- The loop over `reversed(trade_pnls)`, which stops at the first that is not a loss.
  unfoldable pub leading_losses : List A → ℕ
  leading_losses [] = 0
  leading_losses (pnl ∷ pnls) =
      let more = leading_losses pnls in if pnl ≺ float_zero then suc more else zero

  unfoldable pub daily_loss_of : List A → Result (Option A)
  unfolding divide
  daily_loss_of equity_curve = elim (last_two equity_curve) [
    | none ↦ ok none
    | some (prior, latest) ↦ do value ← divide (latest ⊖ prior) prior; ok (some value)
  ]

  unfoldable pub drawdown_of : List A → Result (Option A)
  unfolding highest divide
  drawdown_of [] = ok none
  drawdown_of (e ∷ es) = do
    value ← divide (last_of e es ⊖ highest e es) (highest e es)
    ok (some value)

  -- A breaker with no value is not tripped.
  abbrev pub at_or_below : Option A → A → Bool
  at_or_below none threshold = false
  at_or_below (some value) threshold = value ≼ threshold

  -- The dict of the `return`.
  abbrev pub evaluation_of : Option A → Option A → ℕ → RiskConfig A → Evaluation A
  evaluation_of daily_loss_value drawdown_value count config = record {
    daily_loss_tripped = at_or_below daily_loss_value config.breaker_daily_loss_pct;
    daily_loss_value = daily_loss_value;
    drawdown_tripped = at_or_below drawdown_value config.breaker_drawdown_pct;
    drawdown_value = drawdown_value;
    consecutive_loss_tripped = leb config.breaker_consecutive_losses count;
    consecutive_loss_count = count;
  }

  unfoldable pub evaluate_breakers : List A → List A → RiskConfig A → Result (Evaluation A)
  evaluate_breakers equity_curve trade_pnls config = do
    daily_loss_value ← daily_loss_of equity_curve
    drawdown_value ← drawdown_of equity_curve
    let count = leading_losses (reverse trade_pnls)
    ok (evaluation_of daily_loss_value drawdown_value count config)

abbrev pub threshold_breached : BreakerType → String
threshold_breached daily_loss = "daily_loss threshold breached"
threshold_breached drawdown = "drawdown threshold breached"
threshold_breached consecutive_loss = "consecutive_loss threshold breached"

abbrev pub condition_cleared : BreakerType → String
condition_cleared daily_loss = "daily_loss condition cleared"
condition_cleared drawdown = "drawdown condition cleared"
condition_cleared consecutive_loss = "consecutive_loss condition cleared"

module _ {A : Type 0} where
  unfoldable pub append_breaker_event :
      ℕ
      → BreakerType
      → Action
      → Option A
      → Option String
      → Actor
      → List (BreakerEvent A)
      → List (BreakerEvent A)
  append_breaker_event now breaker_type action trigger_value reason actor events =
      record {
        ts = now;
        breaker_type = breaker_type;
        action = action;
        trigger_value = trigger_value;
        reason = reason;
        actor = actor;
      }
      ∷ events

  -- The newest row of a type in the view `breaker_state_current`, or the default.
  unfoldable pub read_breaker_state : List (BreakerEvent A) → BreakerType → BreakerState
  read_breaker_state [] t = record { current_action = none; since = none; reason = none }
  read_breaker_state (e ∷ events) t =
      if same_breaker e.breaker_type t
      then record { current_action = some e.action; since = some e.ts; reason = e.reason }
      else read_breaker_state events t

  unfoldable pub record_auto_clearing_breaker :
      ℕ
      → (BreakerType → BreakerState)
      → BreakerType
      → Bool
      → Option A
      → List (BreakerEvent A)
      → List (BreakerEvent A)
  unfolding append_breaker_event
  record_auto_clearing_breaker now previous_state t tripped trigger_value events =
      let was_tripped = is_tripped (previous_state t) in
      if not was_tripped && tripped
      then append_breaker_event now t trip trigger_value (some (threshold_breached t)) system events
      else if was_tripped && not tripped
      then append_breaker_event now t reset trigger_value (some (condition_cleared t)) system events
      else events

  unfoldable pub clear_manual_restart : ℕ → String → List (BreakerEvent A) → List (BreakerEvent A)
  unfolding append_breaker_event
  clear_manual_restart now reason =
      append_breaker_event now drawdown manual_restart none (some reason) human

module _ {A : Type 0} ⦃f : Float A⦄ where
  unfoldable pub record_breaker_transitions :
      ℕ
      → (BreakerType → BreakerState)
      → Evaluation A
      → List (BreakerEvent A)
      → List (BreakerEvent A)
  unfolding record_auto_clearing_breaker append_breaker_event
  record_breaker_transitions now previous_state evaluation events =
      let after_daily =
        record_auto_clearing_breaker now previous_state daily_loss evaluation.daily_loss_tripped
          evaluation.daily_loss_value events in
      let after_losses =
        record_auto_clearing_breaker now previous_state consecutive_loss
          evaluation.consecutive_loss_tripped (some (decimal evaluation.consecutive_loss_count 0))
          after_daily in
      if not (is_tripped (previous_state drawdown)) && evaluation.drawdown_tripped
      then append_breaker_event now drawdown trip evaluation.drawdown_value
          (some (threshold_breached drawdown)) system after_losses
      else after_losses

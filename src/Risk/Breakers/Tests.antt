-- ===== src/Risk/Breakers/Tests.antt =====
-- trader/risk/breakers.py on a small curve and log, in fixed point.
use trader_pxg.Base.{
  ℕ, ◌≡◌, refl, true, false, ◌||◌, some, List, [], ◌∷◌, decimal, ok, divide, maximum,
}
use trader_pxg.Base.Int.{ℤ, pos, negsuc, ◌-ℤ◌, ◌*ℤ◌}
use trader_pxg.Base.Fixed.{fixed}
use trader_pxg.Risk.Config.{risk_config}
use trader_pxg.Risk.Breakers.{
  Evaluation, daily_loss, drawdown, consecutive_loss, BreakerEvent, leading_losses,
  evaluate_breakers, daily_loss_of, drawdown_of, highest, read_breaker_state,
  record_breaker_transitions, clear_manual_restart, record_auto_clearing_breaker,
  append_breaker_event, evaluation_of,
}
use trader_pxg.Risk.Breakers.Transitions.{
  tripped_in, IsJournal, Extends, unchanged, evaluated, record_breaker_transitions-tripped,
  record_breaker_transitions-IsJournal, Automated-latches,
}

abbrev dollars : ℕ → ℤ
dollars n = decimal n 0

-- From 100 to 130 and down to 104: a fall of 20%, and of 5% on the last day.
abbrev falling : List ℤ
falling = dollars 100 ∷ dollars 130 ∷ dollars 110 ∷ dollars 104 ∷ []

abbrev calm : Evaluation ℤ
calm = evaluation_of (some (pos 0)) (some (pos 0)) 0 risk_config

-- What the curve above evaluates to.
abbrev alarm : Evaluation ℤ
alarm = record {
  daily_loss_tripped = true;
  daily_loss_value = some (negsuc 54_544);
  drawdown_tripped = true;
  drawdown_value = some (negsuc 199_999);
  consecutive_loss_tripped = false;
  consecutive_loss_count = 1;
}

alarm_is_evaluated : evaluate_breakers falling (dollars 5 ∷ negsuc 7 ∷ []) risk_config ≡ ok alarm
unfolding evaluate_breakers daily_loss_of drawdown_of highest leading_losses divide maximum ◌-ℤ◌
    ◌*ℤ◌
alarm_is_evaluated = refl

abbrev no_events : List (BreakerEvent ℤ)
no_events = []

abbrev log : List (BreakerEvent ℤ)
log = record_breaker_transitions 1 (read_breaker_state no_events) alarm no_events

record_breaker_transitions-tripped_example :
    let after = record_breaker_transitions 2 (read_breaker_state log) calm log in
    (tripped_in after daily_loss ≡ false)
    × (tripped_in after consecutive_loss ≡ false)
    × (tripped_in after drawdown ≡ (tripped_in log drawdown || false))
unfolding ◌-ℤ◌
record_breaker_transitions-tripped_example = record_breaker_transitions-tripped 2 calm log

record_breaker_transitions-IsJournal_example :
    let after = record_breaker_transitions 2 (read_breaker_state log) calm log in
    let restarted = clear_manual_restart 2 "reviewed" log in
    (Extends log after × IsJournal after) × (Extends log restarted × IsJournal restarted)
record_breaker_transitions-IsJournal_example =
    record_breaker_transitions-IsJournal 2 calm "reviewed" log
      (record_breaker_transitions-IsJournal 1 alarm "reviewed" no_events tt).0.1

Automated-latches_example :
    tripped_in (record_breaker_transitions 2 (read_breaker_state log) calm log) drawdown ≡ true
unfolding record_breaker_transitions record_auto_clearing_breaker append_breaker_event
    read_breaker_state
Automated-latches_example = Automated-latches {events = log} refl (evaluated 2 calm unchanged)

-- ===== src/Backtest/Exits/Order.antt =====
-- The order of the exit conditions, against a description that tests each on its own.
use trader_pxg.Base.{
  ◌≡◌, refl, Bool, false, not, ◌&&◌, Option, none, some, List, [], ◌∷◌, arith, any, find,
  if◌then◌else◌, Float, float_one, ◌⊕◌, ◌⊗◌, ◌≼◌, ◌≈◌, Result, ok, err,
}
use trader_pxg.Base.Int.{ℤ, pos, leb_ℤ}
use trader_pxg.Backtest.Config.{ExitProfile}
use trader_pxg.Backtest.Fills.{worse_of_fill}
use trader_pxg.Backtest.Exits.{
  Bar, PositionState, Reason, eod_flat, stop, trailing_stop, scale_out, take_profit, time_stop,
  Fired, ◌otherwise◌, open_state, updated_watermark, trailing_level, eod_flat_check, stop_check,
  trailing_check, scale_out_check, take_profit_check, time_stop_check, evaluate_exit,
}

abbrev pub fired_reason : {A : Type 0} → Result (Option (Fired A)) → Result (Option Reason)
fired_reason (err e) = err e
fired_reason (ok none) = ok none
fired_reason (ok (some (result, position))) = ok (some result.reason)

-- The documented order, D-10.
abbrev pub reason_order : List Reason
reason_order = eod_flat ∷ stop ∷ trailing_stop ∷ scale_out ∷ take_profit ∷ time_stop ∷ []

abbrev when : Bool → Reason → Option Reason
when b r = if b then some r else none

-- The prices of a position are those that its profile gave when it was opened.
pub record IsLocked {A : Type 0} ⦃f : Float A⦄ (profile : ExitProfile A)
    (position : PositionState A) : Type 0 where
  pub stop_locked :
      position.stop_price
      ≡ (open_state profile position.entry_price position.qty_remaining).stop_price
  pub tp_locked :
      position.tp_price ≡ (open_state profile position.entry_price position.qty_remaining).tp_price

module _ {A : Type 0} ⦃f : Float A⦄ where
  -- Whether a condition holds on this bar, whatever the others do.
  abbrev pub is_armed : ExitProfile A → PositionState A → Bar A → ℤ → Option A → Reason → Bool
  is_armed profile position bar days watermark eod_flat = profile.eod_flat
  is_armed profile position bar days watermark stop = elim profile.stop_pct [
    | none ↦ false
    | some pct ↦ bar.low ≼ (position.entry_price ⊗ (float_one ⊕ pct))
  ]
  is_armed profile position bar days watermark trailing_stop = elim watermark [
    | none ↦ false
    | some w ↦ elim profile.trailing_pct [
      | none ↦ false
      | some pct ↦ bar.low ≼ trailing_level w pct
    ]
  ]
  is_armed profile position bar days watermark scale_out =
      any
        (λ tranche.
          not (any (λ g. g ≈ tranche.0) position.scale_out_triggered)
          && (position.entry_price ⊗ (float_one ⊕ tranche.0)) ≼ bar.high)
        profile.scale_out
  is_armed profile position bar days watermark take_profit = elim profile.tp_pct [
    | none ↦ false
    | some pct ↦ (position.entry_price ⊗ (float_one ⊕ pct)) ≼ bar.high
  ]
  is_armed profile position bar days watermark time_stop = elim profile.max_hold_days [
    | none ↦ false
    | some limit ↦ leb_ℤ (pos limit) days
  ]

  fired_reason-otherwise :
      (m n : Result (Option (Fired A))) (b : Bool) (r : Reason) {o : Option Reason}
      → fired_reason m ≡ ok (when b r)
      → fired_reason n ≡ ok o
      → fired_reason (m otherwise n) ≡ ok (if b then some r else o)
  fired_reason-otherwise (err e) n b r h k = cc
  fired_reason-otherwise (ok none) n b r h k = ground arith
  fired_reason-otherwise (ok (some x)) n b r h k = ground arith

  module _ (profile : ExitProfile A) (position : PositionState A) (bar : Bar A) where
    stop_check-reason :
        (days : ℤ) (watermark : Option A)
        → IsLocked profile position
        → fired_reason (stop_check profile.stop_pct position.stop_price position bar watermark)
          ≡ ok (when (is_armed profile position bar days watermark stop) stop)
    unfolding stop_check open_state worse_of_fill
    stop_check-reason days watermark locked = ground arith

    trailing_check-reason :
        (days : ℤ) (watermark : Option A) (new : A)
        → fired_reason (trailing_check profile.trailing_pct watermark position bar new)
          ≡ ok (when (is_armed profile position bar days watermark trailing_stop) trailing_stop)
    unfolding trailing_check worse_of_fill
    trailing_check-reason days none new = ground arith
    trailing_check-reason days (some w) new = ground arith

    take_profit_check-reason :
        (days : ℤ) (watermark : Option A) (new : A)
        → IsLocked profile position
        → fired_reason (take_profit_check profile.tp_pct position.tp_price position bar new)
          ≡ ok (when (is_armed profile position bar days watermark take_profit) take_profit)
    unfolding take_profit_check open_state worse_of_fill
    take_profit_check-reason days watermark new locked = ground arith

    time_stop_check-reason :
        (days : ℤ) (watermark : Option A) (new : A)
        → fired_reason (time_stop_check profile.max_hold_days position bar days new)
          ≡ ok (when (is_armed profile position bar days watermark time_stop) time_stop)
    unfolding time_stop_check
    time_stop_check-reason days watermark new = ground arith

    eod_flat_check-reason :
        (days : ℤ) (watermark : Option A)
        → fired_reason (eod_flat_check profile.eod_flat position bar watermark)
          ≡ ok (when (is_armed profile position bar days watermark eod_flat) eod_flat)
    unfolding eod_flat_check
    eod_flat_check-reason days watermark = ground arith

  scale_out_check-reason :
      (tranches : List (A × A)) (position : PositionState A) (bar : Bar A) (new : A)
      → fired_reason (scale_out_check tranches position bar new)
        ≡ ok (
            when
              (any
                (λ tranche.
                  not (any (λ g. g ≈ tranche.0) position.scale_out_triggered)
                  && (position.entry_price ⊗ (float_one ⊕ tranche.0)) ≼ bar.high)
                tranches)
              scale_out)
  unfolding scale_out_check worse_of_fill
  scale_out_check-reason [] position bar new = refl
  scale_out_check-reason (t ∷ ts) position bar new =
      ground (arith, scale_out_check-reason ts position bar new)

  -- On a position opened under its profile the call never raises, and the condition that it
  -- reports is the first in the documented order that holds on the bar; it reports none exactly
  -- when none holds.
  pub evaluate_exit-first_armed :
      (profile : ExitProfile A) (position : PositionState A) (bar : Bar A) (days : ℤ)
      (watermark : Option A)
      → IsLocked profile position
      → fired_reason (evaluate_exit profile position bar days watermark)
        ≡ ok (find (is_armed profile position bar days watermark) reason_order)
  unfolding evaluate_exit
  evaluate_exit-first_armed profile position bar days watermark locked =
      let new = updated_watermark position watermark bar.close in
      fired_reason-otherwise _ _ _ eod_flat
        (eod_flat_check-reason profile position bar days watermark)
        (fired_reason-otherwise _ _ _ stop
          (stop_check-reason profile position bar days watermark locked)
          (fired_reason-otherwise _ _ _ trailing_stop
            (trailing_check-reason profile position bar days watermark new)
            (fired_reason-otherwise _ _ _ scale_out
              (scale_out_check-reason profile.scale_out position bar new)
              (fired_reason-otherwise _ _ _ take_profit
                (take_profit_check-reason profile position bar days watermark new locked)
                (time_stop_check-reason profile position bar days watermark new)))))

  -- A position that `PositionState.open` returns is locked.
  pub open_state-IsLocked :
      (profile : ExitProfile A) (entry qty : A) → IsLocked profile (open_state profile entry qty)
  unfolding open_state
  open_state-IsLocked profile entry qty = record { stop_locked = refl; tp_locked = refl }

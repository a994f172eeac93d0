-- ===== src/Backtest/Exits/Prices.antt =====
-- The price and the fraction of each exit, and which tranche a scale-out uses up.
use trader_pxg.Base.{
  ℕ, ◌≡◌, refl, Bool, true, false, Option, none, some, List, [], ◌∷◌, arith, any, In, here, there,
  Bool-cases, inl, inr, Float, IsTotalOrder, float_one, ◌⊕◌, ◌⊗◌, ◌≼◌, ◌≈◌, minimum-le_left,
  minimum-le_right, Result, ok, err,
}
use trader_pxg.Base.Int.{ℤ}
use trader_pxg.Backtest.Config.{ExitProfile}
use trader_pxg.Backtest.Fills.{worse_of_fill}
use trader_pxg.Backtest.Exits.{
  Bar, PositionState, Reason, eod_flat, stop, trailing_stop, scale_out, take_profit, time_stop,
  Fired, ◌otherwise◌, updated_watermark, trailing_level, eod_flat_check, stop_check, trailing_check,
  scale_out_check, take_profit_check, time_stop_check, evaluate_exit,
}

module _ {A : Type 0} ⦃f : Float A⦄ where
  -- A stop is never better than its level nor than the open, a profit is exactly its target, and
  -- every exit but a scale-out closes the whole position.
  abbrev pub IsConservativeAt :
      ExitProfile A → PositionState A → Bar A → Option A → Reason → Fired A → Type 0
  IsConservativeAt profile position bar watermark eod_flat (r, after) =
      (r.raw_price ≡ bar.close) × (r.exit_fraction ≡ float_one) × (after ≡ position)
  IsConservativeAt profile position bar watermark stop (r, after) =
      (level : A) × (position.stop_price ≡ some level)
      × (r.raw_price ≼ level ≡ true)
      × (r.raw_price ≼ bar.bar_open ≡ true)
      × (bar.low ≼ level ≡ true)
      × (r.exit_fraction ≡ float_one)
      × (after ≡ position)
  IsConservativeAt profile position bar watermark trailing_stop (r, after) =
      (w : A) × (pct : A) × (watermark ≡ some w)
      × (profile.trailing_pct ≡ some pct)
      × (r.raw_price ≼ trailing_level w pct ≡ true)
      × (r.raw_price ≼ bar.bar_open ≡ true)
      × (r.exit_fraction ≡ float_one)
      × (after ≡ position)
  IsConservativeAt profile position bar watermark scale_out (r, after) =
      (gain : A) × In (gain, r.exit_fraction) profile.scale_out
      × (r.raw_price ≡ position.entry_price ⊗ (float_one ⊕ gain))
      × (r.raw_price ≼ bar.high ≡ true)
      × (any (λ g. g ≈ gain) position.scale_out_triggered ≡ false)
      × (after ≡ record position { scale_out_triggered = gain ∷ position.scale_out_triggered })
  IsConservativeAt profile position bar watermark take_profit (r, after) =
      (target : A) × (position.tp_price ≡ some target)
      × (r.raw_price ≡ target)
      × (target ≼ bar.high ≡ true)
      × (r.exit_fraction ≡ float_one)
      × (after ≡ position)
  IsConservativeAt profile position bar watermark time_stop (r, after) =
      (r.raw_price ≡ bar.close) × (r.exit_fraction ≡ float_one) × (after ≡ position)

  abbrev pub IsConservative :
      ExitProfile A → PositionState A → Bar A → Option A → Result (Option (Fired A)) → Type 0
  IsConservative profile position bar watermark (ok (some fired)) =
      IsConservativeAt profile position bar watermark (fired.0).reason fired
  IsConservative profile position bar watermark _ = Unit

  module _ (o : IsTotalOrder f) (profile : ExitProfile A) (position : PositionState A) (bar : Bar A)
      (watermark : Option A) where
    otherwise-IsConservative :
        (m n : Result (Option (Fired A)))
        → IsConservative profile position bar watermark m
        → IsConservative profile position bar watermark n
        → IsConservative profile position bar watermark (m otherwise n)
    otherwise-IsConservative (err e) n h k = tt
    otherwise-IsConservative (ok none) n h k = k
    otherwise-IsConservative (ok (some x)) n h k = h

    eod_flat_check-IsConservative :
        (flat : Bool)
        → IsConservative profile position bar watermark (eod_flat_check flat position bar watermark)
    unfolding eod_flat_check
    eod_flat_check-IsConservative flat = ground arith

    stop_check-IsConservative :
        (pct level : Option A)
        → position.stop_price ≡ level
        → IsConservative profile position bar watermark
            (stop_check pct level position bar watermark)
    unfolding stop_check worse_of_fill
    stop_check-IsConservative none level e = tt
    stop_check-IsConservative (some _) none e = tt
    stop_check-IsConservative (some _) (some level) e = elim (Bool-cases (bar.low ≼ level)) [
      | inl reached ↦ rw reached (
        level,
        e,
        minimum-le_left o level bar.bar_open,
        minimum-le_right o level bar.bar_open,
        reached,
        refl,
        refl,
      )
      | inr apart ↦ rw apart tt
    ]

    trailing_check-IsConservative :
        (pct w : Option A) (new : A)
        → profile.trailing_pct ≡ pct
        → watermark ≡ w
        → IsConservative profile position bar watermark (trailing_check pct w position bar new)
    unfolding trailing_check worse_of_fill
    trailing_check-IsConservative none w new ep ew = tt
    trailing_check-IsConservative (some _) none new ep ew = tt
    trailing_check-IsConservative (some pct) (some w) new ep ew =
        let level = trailing_level w pct in
        elim (Bool-cases (bar.low ≼ level)) [
          | inl reached ↦ rw reached (
            w,
            pct,
            ew,
            ep,
            minimum-le_left o level bar.bar_open,
            minimum-le_right o level bar.bar_open,
            refl,
            refl,
          )
          | inr apart ↦ rw apart tt
        ]

    take_profit_check-IsConservative :
        (pct target : Option A) (new : A)
        → position.tp_price ≡ target
        → IsConservative profile position bar watermark
            (take_profit_check pct target position bar new)
    unfolding take_profit_check worse_of_fill
    take_profit_check-IsConservative none target new e = tt
    take_profit_check-IsConservative (some _) none new e = tt
    take_profit_check-IsConservative (some _) (some target) new e =
        elim (Bool-cases (target ≼ bar.high)) [
          | inl reached ↦ rw reached (target, e, refl, reached, refl, refl)
          | inr apart ↦ rw apart tt
        ]

    time_stop_check-IsConservative :
        (limit : Option ℕ) (days : ℤ) (new : A)
        → IsConservative profile position bar watermark
            (time_stop_check limit position bar days new)
    unfolding time_stop_check
    time_stop_check-IsConservative limit days new = ground arith

    -- Each tranche that is tried is one of the profile's.
    scale_out_check-IsConservative :
        (tranches : List (A × A)) (new : A)
        → ((gain fraction : A)
            → In (gain, fraction) tranches
            → In (gain, fraction) profile.scale_out)
        → IsConservative profile position bar watermark (scale_out_check tranches position bar new)
    unfolding scale_out_check worse_of_fill
    scale_out_check-IsConservative [] new sub = tt
    scale_out_check-IsConservative ((gain, fraction) ∷ ts) new sub =
        let later = scale_out_check-IsConservative ts new (λ g k i. sub g k (there i)) in
        let target = position.entry_price ⊗ (float_one ⊕ gain) in
        elim (Bool-cases (any (λ g. g ≈ gain) position.scale_out_triggered)) [
          | inl used ↦ rw used later
          | inr fresh ↦ elim (Bool-cases (target ≼ bar.high)) [
            | inl reached ↦
                rw (fresh, reached) (gain, sub gain fraction here, refl, reached, fresh, refl)
            | inr apart ↦ rw (fresh, apart) later
          ]
        ]

    -- Whatever exit fires: a stop or a trailing stop fills at no more than its level and no more
    -- than the bar's open; a take-profit fills at exactly its target and a scale-out at exactly the
    -- target of one of the profile's tranches that had not fired before, both at most the bar's
    -- high; the other two fill at the close. Every exit but a scale-out closes the whole position and
    -- leaves the position's record alone; a scale-out only adds its tranche's gain to the fired ones.
    pub evaluate_exit-IsConservative :
        (days : ℤ)
        → IsConservative profile position bar watermark
            (evaluate_exit profile position bar days watermark)
    unfolding evaluate_exit
    evaluate_exit-IsConservative days =
        let new = updated_watermark position watermark bar.close in
        otherwise-IsConservative _ _ (eod_flat_check-IsConservative profile.eod_flat) (
          otherwise-IsConservative _ _
            (stop_check-IsConservative profile.stop_pct position.stop_price refl)
            (otherwise-IsConservative _ _
              (trailing_check-IsConservative profile.trailing_pct watermark new refl refl)
              (otherwise-IsConservative _ _
                (scale_out_check-IsConservative profile.scale_out new (λ g k i. i))
                (otherwise-IsConservative _ _
                  (take_profit_check-IsConservative profile.tp_pct position.tp_price new refl)
                  (time_stop_check-IsConservative profile.max_hold_days days new)))))

-- ===== src/Backtest/Exits/Watermark.antt =====
-- The trailing watermark over the bars on which no exit fires, and what a stop may look at.
use trader_pxg.Base.{
  ℕ, ◌≡◌, refl, ◌∙◌, ◌⊎◌, inl, inr, true, Option, none, some, List, [], ◌∷◌, All, In, here, there,
  Float, IsTotalOrder, ◌≼◌, maximum, maximum-ge_left, maximum-eq, maximum-ge_right,
}
use trader_pxg.Base.Int.{ℤ}
use trader_pxg.Backtest.Config.{ExitProfile}
use trader_pxg.Backtest.Exits.{
  Bar, PositionState, updated_watermark, next_watermark, evaluate_exit, stop_check, trailing_check,
  eod_flat_check, take_profit_check, time_stop_check, scale_out_check,
}

module _ {A : Type 0} ⦃f : Float A⦄ (position : PositionState A) where
  -- What an unset watermark stands for.
  abbrev pub base_of : Option A → A
  base_of none = position.entry_price
  base_of (some w) = w

  -- The watermark that is carried through bars on which nothing fires.
  pub watermark_after : Option A → List (Bar A) → A
  watermark_after watermark [] = base_of watermark
  watermark_after watermark (bar ∷ bars) =
      watermark_after (some (next_watermark position watermark bar)) bars

  next_watermark-eq :
      (w : Option A) (bar : Bar A) → next_watermark position w bar ≡ maximum (base_of w) bar.close
  unfolding next_watermark updated_watermark
  next_watermark-eq none bar = refl
  next_watermark-eq (some w) bar = refl

  source_step :
      (watermark : Option A) (bar : Bar A) (bars : List (Bar A)) (w : A)
      → let next = next_watermark position watermark bar in
        ((next ≡ base_of watermark) ⊎ (next ≡ bar.close))
        → (w ≡ next) ⊎ ((b : Bar A) × In b bars × (w ≡ b.close))
        → (w ≡ base_of watermark) ⊎ ((b : Bar A) × In b (bar ∷ bars) × (w ≡ b.close))
  source_step watermark bar bars w step (inr (b, i, e)) = inr (b, there i, e)
  source_step watermark bar bars w (inl kept) (inl e) = inl (e ∙ kept)
  source_step watermark bar bars w (inr moved) (inl e) = inr (bar, here, e ∙ moved)

  module _ (o : IsTotalOrder f) where
    -- The carried watermark is at least the starting one (the entry price, if there was none) and
    -- at least the close of every bar, and it is one of these values.
    pub watermark_after-bounds :
        (watermark : Option A) (bars : List (Bar A))
        → let w = watermark_after watermark bars in
          (base_of watermark ≼ w ≡ true)
          × All (λ (bar : Bar A). bar.close ≼ w ≡ true) bars
          × ((w ≡ base_of watermark) ⊎ ((bar : Bar A) × In bar bars × (w ≡ bar.close)))
    unfolding watermark_after
    watermark_after-bounds watermark [] = (o.at_most_refl _, tt, inl refl)
    watermark_after-bounds watermark (bar ∷ bars) =
        let next = next_watermark position watermark bar in
        let (grows, closes, source) = watermark_after-bounds (some next) bars in
        let e = next_watermark-eq watermark bar in
        (
          o.at_most_trans _ next _ (rw e (maximum-ge_left o _ bar.close)) grows,
          (o.at_most_trans _ next _ (rw e (maximum-ge_right o _ bar.close)) grows, closes),
          source_step watermark bar bars _ (rw e (maximum-eq (base_of watermark) bar.close)) source,
        )

module _ {A : Type 0} ⦃f : Float A⦄ where
  no_target :
      (position : PositionState A) (bar : Bar A) (h : A) (pct : Option A) (new : A)
      → pct ≡ none
      → take_profit_check pct position.tp_price position (record bar { high = h }) new
        ≡ take_profit_check pct position.tp_price position bar new
  unfolding take_profit_check
  no_target position bar h pct new e = rw e

  no_tranche :
      (position : PositionState A) (bar : Bar A) (h : A) (tranches : List (A × A)) (new : A)
      → tranches ≡ []
      → scale_out_check tranches position (record bar { high = h }) new
        ≡ scale_out_check tranches position bar new
  unfolding scale_out_check
  no_tranche position bar h tranches new e = rw e

  same_stop :
      (position : PositionState A) (bar : Bar A) (h : A) (pct level w : Option A)
      → stop_check pct level position (record bar { high = h }) w
        ≡ stop_check pct level position bar w
  unfolding stop_check
  same_stop position bar h none level w = refl
  same_stop position bar h (some _) none w = refl
  same_stop position bar h (some _) (some level) w = refl

  same_trailing :
      (position : PositionState A) (bar : Bar A) (h : A) (pct w : Option A) (new : A)
      → trailing_check pct w position (record bar { high = h }) new
        ≡ trailing_check pct w position bar new
  unfolding trailing_check
  same_trailing position bar h none w new = refl
  same_trailing position bar h (some _) none new = refl
  same_trailing position bar h (some _) (some w) new = refl

  same_time :
      (position : PositionState A) (bar : Bar A) (h : A) (limit : Option ℕ) (days : ℤ) (new : A)
      → time_stop_check limit position (record bar { high = h }) days new
        ≡ time_stop_check limit position bar days new
  unfolding time_stop_check
  same_time position bar h none days new = refl
  same_time position bar h (some limit) days new = refl

  -- Under a profile with no take-profit and no scale-out the outcome of a bar, the reported
  -- watermark included, is the same whatever the bar's high is.
  pub evaluate_exit-ignores_high :
      (profile : ExitProfile A) (position : PositionState A) (bar : Bar A) (h : A) (days : ℤ)
      (watermark : Option A)
      → profile.tp_pct ≡ none
      → profile.scale_out ≡ []
      → evaluate_exit profile position (record bar { high = h }) days watermark
        ≡ evaluate_exit profile position bar days watermark
  unfolding evaluate_exit eod_flat_check
  evaluate_exit-ignores_high profile position bar h days watermark no_tp no_scale =
      let new = updated_watermark position watermark bar.close in
      rw (
        same_stop position bar h profile.stop_pct position.stop_price watermark,
        same_trailing position bar h profile.trailing_pct watermark new,
        same_time position bar h profile.max_hold_days days new,
        no_target position bar h profile.tp_pct new no_tp,
        no_tranche position bar h profile.scale_out new no_scale,
      )

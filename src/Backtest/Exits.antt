-- ===== src/Backtest/Exits.antt =====
-- trader/backtest/exits.py: the exit conditions of a position, in their locked order.
pub mod Order
pub mod Prices
pub mod Watermark
mod Tests
use trader_pxg.Base.{
  Bool, ℕ, Option, none, some, List, [], ◌∷◌, leb, any, if◌then◌else◌, Float, float_one, ◌⊕◌, ◌⊖◌,
  ◌⊗◌, ◌≼◌, ◌≈◌, maximum, Result, ok, err, type_error, ◌>>=◌,
}
use trader_pxg.Base.Int.{ℤ, pos, leb_ℤ}
use trader_pxg.Backtest.Config.{ExitProfile}
use trader_pxg.Backtest.Fills.{sell, sell_at_tp, worse_of_fill}

pub record Bar (A : Type 0) : Type 0 where
  pub bar_open : A
  pub high : A
  pub low : A
  pub close : A
  pub volume : A

-- `scale_out_triggered` is a set of gains.
pub record PositionState (A : Type 0) : Type 0 where
  pub entry_price : A
  pub stop_price : Option A
  pub tp_price : Option A
  pub scale_out_triggered : List A
  pub qty_remaining : A

pub data Reason : Type 0 where
  eod_flat stop trailing_stop scale_out take_profit time_stop : Reason

pub record ExitResult (A : Type 0) : Type 0 where
  pub reason : Reason
  pub raw_price : A
  pub exit_fraction : A
  pub new_watermark : Option A

-- A condition that fired, with the position as the call leaves it.
abbrev pub Fired : Type 0 → Type 0
Fired A = ExitResult A × PositionState A

-- `return` of the first branch that returns, else what follows.
infixr 6 ◌otherwise◌
abbrev pub ◌otherwise◌ : {B : Type 0} → Result (Option B) → Result (Option B) → Result (Option B)
err e otherwise next = err e
ok (some b) otherwise next = ok (some b)
ok none otherwise next = next

module _ {A : Type 0} ⦃f : Float A⦄ where
  -- `PositionState.open`
  unfoldable pub open_state : ExitProfile A → A → A → PositionState A
  open_state profile entry_price qty_remaining = record {
    entry_price = entry_price;
    stop_price = elim profile.stop_pct [
      | none ↦ none
      | some pct ↦ some (entry_price ⊗ (float_one ⊕ pct))
    ];
    tp_price = elim profile.tp_pct [
      | none ↦ none
      | some pct ↦ some (entry_price ⊗ (float_one ⊕ pct))
    ];
    scale_out_triggered = [];
    qty_remaining = qty_remaining;
  }

  unfoldable pub updated_watermark : PositionState A → Option A → A → A
  unfolding maximum
  updated_watermark position watermark bar_close =
      maximum (elim watermark [ none ↦ position.entry_price | some w ↦ w ]) bar_close

  unfoldable pub next_watermark : PositionState A → Option A → Bar A → A
  unfolding updated_watermark
  next_watermark position watermark bar = updated_watermark position watermark bar.close

  abbrev pub exits_with : PositionState A → Reason → A → A → Option A → Fired A
  exits_with position reason raw fraction watermark = (
    record {
      reason = reason;
      raw_price = raw;
      exit_fraction = fraction;
      new_watermark = watermark;
    },
    position,
  )

  unfoldable pub eod_flat_check :
      Bool → PositionState A → Bar A → Option A → Result (Option (Fired A))
  eod_flat_check flat position bar watermark =
      if flat
      then ok (some (exits_with position eod_flat bar.close float_one watermark))
      else ok none

  -- The second check, on `profile.stop_pct` and `position.stop_price`.
  unfoldable pub stop_check :
      Option A → Option A → PositionState A → Bar A → Option A → Result (Option (Fired A))
  unfolding worse_of_fill
  stop_check none level position bar watermark = ok none
  stop_check (some _) none position bar watermark = err type_error
  stop_check (some _) (some level) position bar watermark =
      if bar.low ≼ level
      then (do
        raw ← worse_of_fill level bar.bar_open sell
        ok (some (exits_with position stop raw float_one watermark)))
      else ok none

  abbrev pub trailing_level : A → A → A
  trailing_level watermark pct = watermark ⊗ (float_one ⊖ pct)

  -- The third, on `profile.trailing_pct`, the incoming watermark and the updated one.
  unfoldable pub trailing_check :
      Option A → Option A → PositionState A → Bar A → A → Result (Option (Fired A))
  unfolding worse_of_fill
  trailing_check none watermark position bar new_watermark = ok none
  trailing_check (some _) none position bar new_watermark = ok none
  trailing_check (some pct) (some watermark) position bar new_watermark =
      let level = trailing_level watermark pct in
      if bar.low ≼ level
      then (do
        raw ← worse_of_fill level bar.bar_open sell
        ok (some (exits_with position trailing_stop raw float_one (some new_watermark))))
      else ok none

  -- The `for gain_pct, fraction in profile.scale_out` loop.
  unfoldable pub scale_out_check :
      List (A × A) → PositionState A → Bar A → A → Result (Option (Fired A))
  unfolding worse_of_fill
  scale_out_check [] position bar new_watermark = ok none
  scale_out_check ((gain, fraction) ∷ tranches) position bar new_watermark =
      let rest = scale_out_check tranches position bar new_watermark in
      if any (λ g. g ≈ gain) position.scale_out_triggered
      then rest
      else if (position.entry_price ⊗ (float_one ⊕ gain)) ≼ bar.high
      then (do
        raw ← worse_of_fill (position.entry_price ⊗ (float_one ⊕ gain)) bar.bar_open sell_at_tp
        ok (
            some (
              exits_with
                (record position { scale_out_triggered = gain ∷ position.scale_out_triggered })
                scale_out raw fraction (some new_watermark))))
      else rest

  -- The take-profit, on `profile.tp_pct` and `position.tp_price`.
  unfoldable pub take_profit_check :
      Option A → Option A → PositionState A → Bar A → A → Result (Option (Fired A))
  unfolding worse_of_fill
  take_profit_check none target position bar new_watermark = ok none
  take_profit_check (some _) none position bar new_watermark = err type_error
  take_profit_check (some _) (some target) position bar new_watermark =
      if target ≼ bar.high
      then (do
        raw ← worse_of_fill target bar.bar_open sell_at_tp
        ok (some (exits_with position take_profit raw float_one (some new_watermark))))
      else ok none

  -- The last, on `profile.max_hold_days`.
  unfoldable pub time_stop_check :
      Option ℕ → PositionState A → Bar A → ℤ → A → Result (Option (Fired A))
  time_stop_check none position bar days_held new_watermark = ok none
  time_stop_check (some limit) position bar days_held new_watermark =
      if leb_ℤ (pos limit) days_held
      then ok (some (exits_with position time_stop bar.close float_one (some new_watermark)))
      else ok none

  -- The position after the call is in the result; `none` leaves it as it was.
  unfoldable pub evaluate_exit :
      ExitProfile A → PositionState A → Bar A → ℤ → Option A → Result (Option (Fired A))
  unfolding updated_watermark
  evaluate_exit profile position bar days_held watermark =
      let new_watermark = updated_watermark position watermark bar.close in
      eod_flat_check profile.eod_flat position bar watermark
      otherwise stop_check profile.stop_pct position.stop_price position bar watermark
      otherwise trailing_check profile.trailing_pct watermark position bar new_watermark
      otherwise scale_out_check profile.scale_out position bar new_watermark
      otherwise take_profit_check profile.tp_pct position.tp_price position bar new_watermark
      otherwise time_stop_check profile.max_hold_days position bar days_held new_watermark

-- ===== src/Risk/Gate.antt =====
-- trader/risk/gate.py: the checks of a candidate, and the elimination of correlated ones. What the
-- code leaves to pandas is an argument: `median` of a list and the correlation of paired returns.
pub mod Eliminate
pub mod Safe
pub mod Correlated
mod Tests
use trader_pxg.Base.{
  ℕ, suc, ◌+◌, ◌-◌, String, Bool, true, false, not, ◌&&◌, Option, none, some, List, [], ◌∷◌, ◌++◌,
  map, ◌==◌, any, find, keep_if, length, ltb, leb, nat_eqb, sort_by, if◌then◌else◌, Float,
  float_one, ◌⊖◌, ◌⊗◌, ◌≺◌, ◌≼◌, absolute, Result, ok, err, key_error, ◌>>=◌,
}
use trader_pxg.Backtest.Fills.{or_key_error}
use trader_pxg.Risk.Config.{RiskConfig}

-- A row of "bars"; a day is an ordinal.
pub record DailyBar (A : Type 0) : Type 0 where
  pub ts : ℕ
  pub close : A
  pub volume : A

-- An entry of `market_data`.
pub record MarketEntry (A : Type 0) : Type 0 where
  pub bars : List (DailyBar A)
  pub asset_class : String
  pub spread_pct : A

-- An entry of `candidates`.
pub record Scored (A : Type 0) : Type 0 where
  pub symbol : String
  pub venue : String
  pub score : A

pub data RejectCode : Type 0 where
  reject_liquidity reject_listing_age reject_spread reject_correlation : RejectCode

-- A candidate with the class that `market_data` gives it, which is its exit profile's tag too.
pub record Accepted (A : Type 0) : Type 0 where
  pub candidate : Scored A
  pub asset_class : String

-- `market_data[key]`
abbrev pub MarketData : Type 0 → Type 0
MarketData A = String → String → Option (MarketEntry A)

-- The last so many of a list, `tail`.
abbrev pub last_n : {A : Type 0} → ℕ → List A → List A
last_n n [] = []
last_n n (x ∷ xs) = if leb (suc (length xs)) n then x ∷ xs else last_n n xs

module _ {A : Type 0} ⦃f : Float A⦄ where
  abbrev pub liquidity_floor : RiskConfig A → String → Option A
  liquidity_floor config asset_class =
      if asset_class == "stock"
      then some config.min_dollar_volume_stock
      else if asset_class == "crypto_major"
      then some config.min_quote_volume_crypto_major
      else if asset_class == "memecoin"
      then some config.min_quote_volume_memecoin
      else none

  abbrev pub liquidity_window_days : RiskConfig A → String → ℕ
  liquidity_window_days config asset_class =
      if asset_class == "stock"
      then config.liquidity_window_stock_days
      else config.liquidity_window_crypto_days

  abbrev pub trailing_median_volume : (List A → A) → List (DailyBar A) → String → RiskConfig A → A
  trailing_median_volume median bars asset_class config = median (
      last_n (liquidity_window_days config asset_class)
        (map (λ (bar : DailyBar A). bar.close ⊗ bar.volume) bars))

  -- The order of the checks is that of the code; a class without a floor or a ceiling raises.
  unfoldable pub first_failing_check :
      (List A → A) → MarketEntry A → RiskConfig A → Result (Option RejectCode)
  first_failing_check median entry config = do
    floor ← or_key_error (liquidity_floor config entry.asset_class)
    if trailing_median_volume median entry.bars entry.asset_class config ≺ floor
        then ok (some reject_liquidity)
        else if ltb (length entry.bars) config.min_listing_age_days
        then ok (some reject_listing_age)
        else (do
          ceiling ← or_key_error (config.max_spread_pct entry.asset_class)
          ok (if ceiling ≺ entry.spread_pct then some reject_spread else none))

  -- `pct_change().dropna()` on closes in the order of their days.
  abbrev pub returns_from : DailyBar A → List (DailyBar A) → List (ℕ × A)
  returns_from prior [] = []
  returns_from prior (bar ∷ bars) =
      (bar.ts, f.quotient bar.close prior.close ⊖ float_one) ∷ returns_from bar bars

  abbrev pub pct_changes : List (DailyBar A) → List (ℕ × A)
  pct_changes [] = []
  pct_changes (bar ∷ bars) = returns_from bar bars

  abbrev pub latest_day : List (DailyBar A) → ℕ
  latest_day [] = 0
  latest_day (bar ∷ bars) = let rest = latest_day bars in if ltb bar.ts rest then rest else bar.ts

  -- The days from the cutoff on: `ts >= max - (window - 1)`.
  abbrev pub windowed_returns : List (DailyBar A) → ℕ → List (ℕ × A)
  windowed_returns bars window_days =
      let sorted = sort_by (λ (a b : DailyBar A). leb a.ts b.ts) bars in
      pct_changes
        (keep_if (λ (bar : DailyBar A). leb (latest_day bars + 1) (bar.ts + window_days)) sorted)

  -- The inner join on the day.
  abbrev pub joined : List (ℕ × A) → List (ℕ × A) → List (A × A)
  joined [] bs = []
  joined ((day, a) ∷ rest) bs = elim (find (λ (b : ℕ × A). nat_eqb b.0 day) bs) [
    | none ↦ joined rest bs
    | some (d, b) ↦ (a, b) ∷ joined rest bs
  ]

  unfoldable pub pairwise_correlation :
      (List (A × A) → A) → List (DailyBar A) → List (DailyBar A) → RiskConfig A → Option A
  pairwise_correlation correlation bars_a bars_b config =
      let aligned =
        joined (windowed_returns bars_a config.correlation_window_days)
          (windowed_returns bars_b config.correlation_window_days) in
      if ltb (length aligned) config.correlation_min_overlap
      then none
      else some (correlation aligned)

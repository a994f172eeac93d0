-- ===== src/Risk/Gate/Safe.antt =====
-- What trader/risk/gate.py lets through.
use mathlib.Core.Path.{subst}
use trader_pxg.Base.{
  ℕ, ◌≤◌, ◌≡◌, refl, sym, ap, Bool, true, false, Option, none, some, List, [], ◌∷◌, arith, length,
  In, here, there, ltb, if◌then◌else◌, Float, ◌≺◌, Result, ok, >>=-eq-ok-parts, ok-injective,
}
use trader_pxg.Backtest.Fills.{or_key_error}
use trader_pxg.Risk.Config.{RiskConfig}
use trader_pxg.Risk.Gate.{
  Scored, RejectCode, reject_liquidity, reject_listing_age, reject_spread, Accepted, MarketEntry,
  MarketData, liquidity_floor, trailing_median_volume, first_failing_check,
}
use trader_pxg.Risk.Gate.Eliminate.{
  Rejected, excess_between, apply_correlation_check, sorted_out, screen, apply_risk_gate,
}
use trader_pxg.Base.Membership.{Before}
use trader_pxg.Risk.Gate.Correlated.{apply_correlation_check-separates, apply_correlation_check-In}

or_key_error-eq-ok : {A : Type 0} (o : Option A) {a : A} → or_key_error o ≡ ok a → o ≡ some a
or_key_error-eq-ok none h = cc
or_key_error-eq-ok (some b) h = ap some (ok-injective h)

-- What it takes that the checks name no reason.
passes :
    (illiquid young : Bool) {rest : Result (Option RejectCode)}
    → (if illiquid
        then ok (some reject_liquidity)
        else if young
        then ok (some reject_listing_age)
        else rest)
      ≡ ok none
    → (illiquid ≡ false) × (young ≡ false) × (rest ≡ ok none)
passes true young h = cc
passes false true h = cc
passes false false h = (refl, refl, h)

passes_last : (wide : Bool) → (if wide then some reject_spread else none) ≡ none → wide ≡ false
passes_last true h = cc
passes_last false h = refl

ltb-eq-false : (a b : ℕ) → ltb a b ≡ false → b ≤ a
ltb-eq-false a b h = ground arith

module _ {A : Type 0} ⦃f : Float A⦄ (median : List A → A) (config : RiskConfig A) where
  -- A market entry that is liquid, listed long enough and not above the spread's ceiling.
  abbrev pub IsTradable : MarketEntry A → Type 0
  IsTradable entry =
      ((floor : A) × (liquidity_floor config entry.asset_class ≡ some floor)
        × (trailing_median_volume median entry.bars entry.asset_class config ≺ floor ≡ false))
      × (config.min_listing_age_days ≤ length entry.bars)
      × ((ceiling : A) × (config.max_spread_pct entry.asset_class ≡ some ceiling)
          × (ceiling ≺ entry.spread_pct ≡ false))

  -- An accepted candidate, whose market entry is tradable.
  abbrev pub IsSafe : MarketData A → Accepted A → Type 0
  IsSafe market_data a =
      (entry : MarketEntry A) × (market_data a.candidate.symbol a.candidate.venue ≡ some entry)
      × (a.asset_class ≡ entry.asset_class)
      × IsTradable entry

  first_failing_check-IsTradable :
      (entry : MarketEntry A) → first_failing_check median entry config ≡ ok none → IsTradable entry
  unfolding first_failing_check
  first_failing_check-IsTradable entry h =
      let (floor, e1, h1) =
        >>=-eq-ok-parts (or_key_error (liquidity_floor config entry.asset_class)) _ h in
      let (liquid, listed, h2) = passes _ _ h1 in
      let (ceiling, e2, h3) =
        >>=-eq-ok-parts (or_key_error (config.max_spread_pct entry.asset_class)) _ h2 in
      (
        (floor, or_key_error-eq-ok _ e1, liquid),
        ltb-eq-false (length entry.bars) config.min_listing_age_days listed,
        (ceiling, or_key_error-eq-ok _ e2, passes_last _ (ok-injective h3)),
      )

  sorted_out-IsSafe :
      (market_data : MarketData A) (c : Scored A) (entry : MarketEntry A)
      → market_data c.symbol c.venue ≡ some entry
      → (reason : Option RejectCode) → first_failing_check median entry config ≡ ok reason
      → (rest : List (Accepted A) × List (Rejected A))
      → ((b : Accepted A) → In b rest.0 → IsSafe market_data b)
      → (a : Accepted A) → In a (sorted_out reason c entry.asset_class rest).0
      → IsSafe market_data a
  sorted_out-IsSafe market_data c entry found (some r) h rest safe a i = safe a i
  sorted_out-IsSafe market_data c entry found none h rest safe _ here =
      (entry, found, refl, first_failing_check-IsTradable entry h)
  sorted_out-IsSafe market_data c entry found none h rest safe a (there i) = safe a i

  screen-IsSafe :
      (market_data : MarketData A) (candidates : List (Scored A)) {accepted : List (Accepted A)}
      {rejected : List (Rejected A)}
      → screen median market_data config candidates ≡ ok (accepted, rejected)
      → (a : Accepted A) → In a accepted
      → IsSafe market_data a
  unfolding screen
  screen-IsSafe market_data [] h a i =
      elim (subst (λ l. In a l) (sym (ap (λ r. r.0) (ok-injective h))) i) [ ]
  screen-IsSafe market_data (c ∷ cs) h a i =
      let (entry, e1, h1) = >>=-eq-ok-parts (or_key_error (market_data c.symbol c.venue)) _ h in
      let (reason, e2, h2) = >>=-eq-ok-parts (first_failing_check median entry config) _ h1 in
      let (rest, e3, h3) = >>=-eq-ok-parts (screen median market_data config cs) _ h2 in
      sorted_out-IsSafe market_data c entry (or_key_error-eq-ok _ e1) reason e2 rest
        (λ b j. screen-IsSafe market_data cs e3 b j) a
        (subst (λ l. In a l) (sym (ap (λ r. r.0) (ok-injective h3))) i)

  -- Every candidate that the gate accepts has a market entry whose class it carries, with the
  -- trailing median of its volume not below the class's floor, listed for the least age, and with a
  -- spread not above the class's ceiling; and no two of them, the earlier first, have a correlation
  -- above the threshold.
  pub apply_risk_gate-IsSafe :
      (correlation : List (A × A) → A) (candidates : List (Scored A)) (market_data : MarketData A)
      {accepted : List (Accepted A)} {rejected : List (Rejected A)}
      → apply_risk_gate median correlation candidates market_data config ≡ ok (accepted, rejected)
      → ((a : Accepted A) → In a accepted → IsSafe market_data a)
        × ((a b : Accepted A) (magnitude : A)
            → Before a b accepted
            → excess_between correlation market_data config a b ≡ ok (some magnitude)
            → true ≡ false)
  unfolding apply_risk_gate
  apply_risk_gate-IsSafe correlation candidates market_data h =
      let between = excess_between correlation market_data config in
      let (screened, e1, h1) = >>=-eq-ok-parts (screen median market_data config candidates) _ h in
      let (checked, e2, h2) = >>=-eq-ok-parts (apply_correlation_check between screened.0) _ h1 in
      let same = ap (λ r. r.0) (ok-injective h2) in
      (
        λ a i.
            screen-IsSafe market_data candidates e1 a (
              apply_correlation_check-In between screened.0 e2 a
                (subst (λ l. In a l) (sym same) i)),
        λ a b magnitude i exceeds.
            apply_correlation_check-separates between screened.0 e2 a b magnitude
              (subst (λ l. Before a b l) (sym same) i) exceeds,
      )

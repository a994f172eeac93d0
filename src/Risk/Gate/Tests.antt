-- ===== src/Risk/Gate/Tests.antt =====
-- trader/risk/gate.py on two candidates with a bar each, in fixed point.
use trader_pxg.Base.{◌≡◌, refl, true, false, some, List, [], ◌∷◌, In, decimal, ok, absolute}
use trader_pxg.Base.Int.{ℤ, pos, ◌*ℤ◌, ◌-ℤ◌}
use trader_pxg.Base.Membership.{Before}
use trader_pxg.Base.Fixed.{fixed}
use trader_pxg.Risk.Config.{RiskConfig, risk_config}
use trader_pxg.Risk.Gate.{
  Scored, Accepted, MarketEntry, MarketData, first_failing_check, pairwise_correlation,
}
use trader_pxg.Risk.Gate.Eliminate.{
  excess_between, pairs_of, all_pairs, eliminate, apply_correlation_check, screen, apply_risk_gate,
}
use trader_pxg.Risk.Gate.Safe.{IsSafe, apply_risk_gate-IsSafe}

-- The first of the list, which has one volume here.
abbrev median_of : List ℤ → ℤ
median_of [] = pos 0
median_of (x ∷ _) = x

abbrev no_correlation : List (ℤ × ℤ) → ℤ
no_correlation _ = pos 0

abbrev young_config : RiskConfig ℤ
young_config = record risk_config { min_listing_age_days = 1 }

abbrev liquid_stock : MarketEntry ℤ
liquid_stock = record {
  bars = record { ts = 5; close = decimal 100 0; volume = decimal 50_000 0 } ∷ [];
  asset_class = "stock";
  spread_pct = decimal 1 2;
}

abbrev listed : MarketData ℤ
listed symbol venue = some liquid_stock

abbrev acme : Scored ℤ
acme = record { symbol = "ACME"; venue = "ibkr"; score = decimal 9 1 }

abbrev xyz : Scored ℤ
xyz = record { symbol = "XYZ"; venue = "ibkr"; score = decimal 7 1 }

abbrev taken : Scored ℤ → Accepted ℤ
taken c = record { candidate = c; asset_class = "stock" }

both_pass :
    apply_risk_gate median_of no_correlation (acme ∷ xyz ∷ []) listed young_config
    ≡ ok (taken acme ∷ taken xyz ∷ [], [])
unfolding apply_risk_gate screen first_failing_check excess_between pairwise_correlation absolute
    apply_correlation_check all_pairs pairs_of eliminate ◌*ℤ◌ ◌-ℤ◌
both_pass = refl

apply_risk_gate-IsSafe_example :
    ((a : Accepted ℤ) → In a (taken acme ∷ taken xyz ∷ []) → IsSafe median_of young_config listed a)
    × ((a b : Accepted ℤ) (magnitude : ℤ)
        → Before a b (taken acme ∷ taken xyz ∷ [])
        → excess_between no_correlation listed young_config a b ≡ ok (some magnitude)
        → true ≡ false)
apply_risk_gate-IsSafe_example =
    apply_risk_gate-IsSafe median_of young_config no_correlation (acme ∷ xyz ∷ []) listed both_pass

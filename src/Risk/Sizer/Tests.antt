-- ===== src/Risk/Sizer/Tests.antt =====
-- trader/risk/sizer.py on three candidates and an open position, in fixed point.
use trader_pxg.Base.{◌≤◌, ◌≡◌, refl, List, [], ◌∷◌, length, All, decimal, float_one, ◌⊖◌, ok}
use trader_pxg.Base.Int.{ℤ}
use trader_pxg.Base.Fixed.{fixed, fixed-IsTotalOrder}
use trader_pxg.Risk.Config.{risk_config}
use trader_pxg.Risk.Sizer.{Candidate, Holding, Sizing, open_weight_sum, size_positions}
use trader_pxg.Risk.Sizer.Limits.{IsCapped, size_positions-limits}

abbrev scored : List (Candidate ℤ)
scored =
    record {
      symbol = "ACME";
      venue = "ibkr";
      asset_class = "stock";
      score = decimal 9 1;
      volatility = decimal 1 2;
    }
    ∷ record {
      symbol = "DOGE";
      venue = "kraken";
      asset_class = "memecoin";
      score = decimal 5 1;
      volatility = decimal 9 2;
    }
    ∷ record {
      symbol = "BTC";
      venue = "kraken";
      asset_class = "crypto_major";
      score = decimal 7 1;
      volatility = decimal 3 2;
    }
    ∷ []

abbrev invested : List (Holding ℤ)
invested =
    record { symbol = "XYZ"; venue = "ibkr"; asset_class = "stock"; weight = decimal 2 1 } ∷ []

size_positions-limits_example :
    (s : Sizing ℤ) × (size_positions scored (decimal 100_000 0) invested risk_config ≡ ok s)
    × (length s.positions ≤ 19)
    × (length s.positions ≤ 3)
    × All (IsCapped risk_config) s.positions
    × (s.cash_weight ≡ (float_one ⊖ open_weight_sum invested) ⊖ open_weight_sum s.positions)
size_positions-limits_example =
    size_positions-limits fixed-IsTotalOrder scored (decimal 100_000 0) invested risk_config
      (refl, (refl, (refl, tt)))

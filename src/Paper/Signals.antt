-- ===== src/Paper/Signals.antt =====
-- trader/paper/signals.py: which family of a live strategy is routed to which frozen signal. The
-- variants are the keys of the tables in trader/backtest/strategies.
use Prim.Native.Char.{code}
use Prim.Native.String.{◌++◌}
use trader_pxg.Base.{
  String, Bool, false, not, ◌&&◌, Option, none, some, List, [], ◌∷◌, ◌==◌, nat_eqb, any,
  if◌then◌else◌,
}

-- `strategy_id.split("_", 1)[0]`
abbrev pub base_of : String → String
base_of String.[] = ""
base_of (String.◌∷◌ c rest) =
    let base = base_of rest in if nat_eqb (code c) b'_' then "" else String.◌∷◌ c base

-- The keys of the variants of `_BASE_SIGNALS`.
abbrev pub variants_of : String → Option (List String)
variants_of base =
    if base == "momentum"
    then some ("strict" ∷ "base" ∷ "loose" ∷ [])
    else if base == "donchian"
    then some ("sys1" ∷ "sys2" ∷ [])
    else if base == "rsi2"
    then some ("connors10" ∷ "connors5" ∷ [])
    else if base == "macross"
    then some ("fast_ema_20_50" ∷ "golden_sma_50_200" ∷ [])
    else if base == "hreversion"
    then some ("confluence30" ∷ "confluence25" ∷ [])
    else if base == "hsqueeze"
    then some ("vol2x" ∷ "vol3x" ∷ [])
    else none

-- `_STOCK_ONLY_BASES`: a base that is restricted, in a family of another bucket.
abbrev pub is_excluded : String → String → Bool
is_excluded base strategy_id = base == "rsi2" && not (strategy_id == base ++ "_stock")

abbrev pub has_variant : Option (List String) → String → Bool
has_variant none entry_variant = false
has_variant (some variants) entry_variant = any (λ v. v == entry_variant) variants

unfoldable pub is_routable : String → String → Bool
is_routable strategy_id entry_variant =
    let base = base_of strategy_id in
    not (is_excluded base strategy_id) && has_variant (variants_of base) entry_variant

pub data Timeframe : Type 0 where
  hourly daily : Timeframe

-- `_HOURLY_BASES`
unfoldable pub timeframe_for : String → Timeframe
timeframe_for strategy_id =
    let base = base_of strategy_id in
    if base == "hreversion" then hourly else if base == "hsqueeze" then hourly else daily

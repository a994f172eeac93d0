-- ===== src/Paper/Entry.antt =====
-- trader/paper/entry_pipeline.py: the scan for candidates and the profile that each is given.
pub mod Run
pub mod Once
pub mod Invariant
pub mod Halted
pub mod Persist
pub mod Sends
pub mod Budget
pub mod Heal
mod Tests
use trader_pxg.Base.{
  ℕ, zero, suc, ◌%◌, String, Bool, true, false, not, ◌&&◌, ◌||◌, Option, none, some, List, [], ◌∷◌,
  ◌++◌, map, ◌==◌, any, find, length, sort_by, if◌then◌else◌, Float, ◌≼◌, float_zero, Result, ok,
  err, ◌>>=◌, key_error, overflow_error, value_error, ◌≈◌, index_error, runtime_error,
  zero_division, last_of,
}
use trader_pxg.Backtest.Fills.{or_key_error}
use trader_pxg.Risk.Gate.{DailyBar}
use trader_pxg.Paper.Store.{Position, Db}
use trader_pxg.Paper.Ledger.{get_open_positions, is_strategy_retired}
use trader_pxg.Paper.Signals.{is_routable}
use trader_pxg.Paper.Reconcile.{get}
use trader_pxg.Tournament.Live.{LiveStrategy, get_live_config}

-- What a run reads of market data and computes from it with pandas, numpy and hashlib: the frozen
-- signals on the bars up to yesterday's close, Wilder's RSI, the volatility and the bars of a
-- symbol, the median and the correlation; the sha256 of a symbol as a number, and the order of
-- texts.
pub record Market (A : Type 0) : Type 0 where
  pub pick_entries : String → String → List String → List String
  pub rsi : String → A
  pub volatility : String → A
  pub bars : String → List (DailyBar A)
  pub median : List A → A
  pub correlation : List (A × A) → A
  pub sha256 : String → ℕ
  pub text_le : String → String → Bool

-- A dict of `scan_candidates`.
pub record EntryCandidate (A : Type 0) : Type 0 where
  pub symbol : String
  pub venue : String
  pub score : A
  pub volatility : A
  pub family : String

-- `sorted` on pairs of texts.
abbrev pub pair_le : (String → String → Bool) → String × String → String × String → Bool
pair_le le a b = if a.0 == b.0 then le a.1 b.1 else le a.0 b.0

-- `{… for …}`: a pair stands once.
abbrev pub distinct_pairs : List (String × String) → List (String × String)
distinct_pairs [] = []
distinct_pairs (p ∷ ps) =
    let rest = distinct_pairs ps in
    if any (λ (q : String × String). q.0 == p.0 && q.1 == p.1) ps then rest else p ∷ rest

-- `names[index]`
abbrev pub at_index : {B : Type 0} → List B → ℕ → Result B
at_index [] i = err index_error
at_index (x ∷ xs) zero = ok x
at_index (x ∷ xs) (suc i) = at_index xs i

-- `by_family.setdefault(family, []).append(name)`
abbrev pub add_profile : String → String → List (String × List String) → List (String × List String)
add_profile family name [] = (family, name ∷ []) ∷ []
add_profile family name ((key, names) ∷ rest) =
    if key == family
    then (key, names ++ name ∷ []) ∷ rest
    else (key, names) ∷ add_profile family name rest

abbrev pub or_runtime_error : List (String × List String) → Result (List (String × List String))
or_runtime_error [] = err runtime_error
or_runtime_error (entry ∷ rest) = ok (entry ∷ rest)

module _ {A : Type 0} where
  abbrev pub is_claimed : String → List (EntryCandidate A) → Bool
  is_claimed symbol candidates = any (λ (c : EntryCandidate A). c.symbol == symbol) candidates

  abbrev pub candidate_of : Market A → String → String → EntryCandidate A
  candidate_of market family symbol = record {
    symbol = symbol;
    venue = "smart";
    score = market.rsi symbol;
    volatility = market.volatility symbol;
    family = family;
  }

  -- The inner loop: the claimed symbols are those of the candidates so far.
  unfoldable pub claim :
      Market A → String → List String → List (EntryCandidate A) → List (EntryCandidate A)
  claim market family [] candidates = candidates
  claim market family (symbol ∷ fired) candidates = claim market family fired (
      if is_claimed symbol candidates
      then candidates
      else candidates ++ candidate_of market family symbol ∷ [])

  -- The loop over the families; a pair that cannot be routed raises.
  unfoldable pub scan_pairs :
      Market A
      → List String
      → List (String × String)
      → List (EntryCandidate A)
      → Result (List (EntryCandidate A))
  unfolding claim
  scan_pairs market open_symbols [] candidates = ok candidates
  scan_pairs market open_symbols ((family, variant) ∷ pairs) candidates =
      let rest =
        scan_pairs market open_symbols pairs
          (claim market family (market.pick_entries family variant open_symbols) candidates) in
      if is_routable family variant then rest else err key_error

  unfoldable pub scan_candidates :
      Market A → List (LiveStrategy A) → Db A → Result (List (EntryCandidate A))
  unfolding scan_pairs
  scan_candidates market [] db = err runtime_error
  scan_candidates market (cfg ∷ configs) db =
      scan_pairs market (map (λ (p : Position A). p.symbol) (get_open_positions none db))
        (sort_by (pair_le market.text_le) (
          distinct_pairs
            (map (λ (c : LiveStrategy A). (c.strategy_id, c.entry_variant)) (cfg ∷ configs))))
        []

  -- The symbol alone picks the profile.
  unfoldable pub assign_exit_profile : Market A → String → List String → Result String
  assign_exit_profile market symbol [] = err zero_division
  assign_exit_profile market symbol (name ∷ names) =
      at_index (sort_by market.text_le (name ∷ names)) (market.sha256 symbol % suc (length names))

  abbrev pub grouped :
      List (LiveStrategy A) → Db A → List (String × List String) → List (String × List String)
  grouped [] db by_family = by_family
  grouped (cfg ∷ configs) db by_family = grouped configs db (
      if is_strategy_retired cfg.profile_name db
      then by_family
      else add_profile cfg.strategy_id cfg.profile_name by_family)

  unfoldable pub live_profiles_by_family :
      List (LiveStrategy A) → Db A → Result (List (String × List String))
  unfolding is_strategy_retired
  live_profiles_by_family configs db = or_runtime_error (grouped configs db [])

  -- `bars[-1]["close"]`
  abbrev pub last_close : List (DailyBar A) → Result A
  last_close [] = err index_error
  last_close (bar ∷ bars) = ok (last_of bar bars).close

  abbrev pub candidate_named : String → List (EntryCandidate A) → Option (EntryCandidate A)
  candidate_named symbol candidates = find (λ (c : EntryCandidate A). c.symbol == symbol) candidates

  abbrev pub family_of : Option (EntryCandidate A) → Option String
  family_of none = none
  family_of (some c) = some c.family

  -- `live_profiles_by_family[family_by_symbol[symbol]]`, and the profile's row.
  unfoldable pub profile_for :
      Market A
      → List (LiveStrategy A)
      → List (String × List String)
      → List (EntryCandidate A)
      → String
      → Result (LiveStrategy A)
  unfolding assign_exit_profile get_live_config
  profile_for market configs by_family candidates symbol = do
    family ← or_key_error (family_of (candidate_named symbol candidates))
    names ← or_key_error (get family by_family)
    profile_name ← assign_exit_profile market symbol names
    or_key_error (get_live_config profile_name configs)

module _ {A : Type 0} ⦃f : Float A⦄ where
  -- `int(quotient)`, which raises on NaN, the one value that does not equal itself, and infinities.
  abbrev int_of : A → Result A
  int_of quotient =
      if f.is_finite quotient
      then ok quotient
      else err (if quotient ≈ quotient then overflow_error else value_error)

  -- broker_ibkr.round_shares_down
  unfoldable pub round_shares_down : A → A → Result A
  round_shares_down dollar_amount price =
      if price ≼ float_zero then ok float_zero else int_of (f.floor_quotient dollar_amount price)

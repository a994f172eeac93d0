-- ===== src/Paper/Crypto.antt =====
-- trader/paper/crypto_entry_pipeline.py: entries of the simulated venue. It runs on every day, and
-- its fills are computed, so there is nothing to heal.
pub mod Simulated
mod Tests
use trader_pxg.Base.{
  ℕ, String, Bool, true, false, not, ◌&&◌, ◌||◌, Option, none, some, List, [], ◌∷◌, ◌++◌, map, ◌==◌,
  any, keep_if, length, sort_by, if◌then◌else◌, Float, ◌⊗◌, ◌≼◌, float_zero, float_one, divide,
  Result, ok, err, key_error,
}
use trader_pxg.Backtest.Config.{slippage_pct}
use trader_pxg.Backtest.Fills.{FillSide, or_key_error}
use trader_pxg.Risk.Config.{risk_config}
use trader_pxg.Risk.Gate.{Scored, Accepted, MarketEntry, MarketData}
use trader_pxg.Risk.Gate.Eliminate.{apply_risk_gate}
use trader_pxg.Risk.Sizer.{Candidate, Holding, size_positions}
use trader_pxg.Paper.Store.{crypto_sim, buy, entry, pending_submit, filled, Position, Order, Db}
use trader_pxg.Paper.Idempotency.{build_order_ref}
use trader_pxg.Paper.Ledger.{
  record_order, update_order_status, get_unresolved_orders, open_position, get_open_positions,
  is_strategy_retired,
}
use trader_pxg.Paper.Signals.{Timeframe, hourly, daily, is_routable, timeframe_for}
use trader_pxg.Paper.Bars.{Exchange, same_timeframe, load_bars}
use trader_pxg.Paper.World.{
  Broker, Act, entered, pure, lift, gets, modify, execute, notify, ◌>>=◌, ◌>>◌,
}
use trader_pxg.Paper.Reconcile.{is_entry_halted}
use trader_pxg.Paper.Guardian.{Today, simulate_fill}
use trader_pxg.Paper.Guardian.Kill.{paper_account_equity}
use trader_pxg.Paper.Entry.{
  Market, EntryCandidate, pair_le, distinct_pairs, is_claimed, candidate_of, candidate_named,
  family_of, grouped, profile_for,
}
use trader_pxg.Paper.Entry.Run.{listed_if}
use trader_pxg.Paper.Entry.Once.{scored_of, is_on_probation, weighed}
use trader_pxg.Tournament.Frozen.{probation_size_multiplier}
use trader_pxg.Tournament.Live.{LiveStrategy}

-- `strategy_id.endswith(suffix)`
abbrev pub ends_with : String → String → Bool
ends_with suffix String.[] = suffix == ""
ends_with suffix (String.◌∷◌ c rest) =
    let later = ends_with suffix rest in if String.◌∷◌ c rest == suffix then true else later

pub data Bucket : Type 0 where
  crypto_major_legacy_meme new_memecoin : Bucket

unfoldable pub bucket_of : String → Option Bucket
bucket_of strategy_id =
    if ends_with "_crypto_major_legacy_meme" strategy_id
    then some crypto_major_legacy_meme
    else if ends_with "_new_memecoin" strategy_id
    then some new_memecoin
    else none

-- `_BUCKET_ASSET_CLASS`
abbrev pub asset_class_of : Option Bucket → Option String
asset_class_of none = none
asset_class_of (some crypto_major_legacy_meme) = some "crypto_major"
asset_class_of (some new_memecoin) = some "memecoin"

abbrev pub is_crypto : Option Bucket → Bool
is_crypto none = false
is_crypto (some bucket) = true

-- `UNIVERSE_BY_BUCKET`
abbrev pub universe_of : Bucket → List String
universe_of crypto_major_legacy_meme = "BTC/USDT" ∷ "ETH/USDT" ∷ "DOGE/USDT" ∷ "SHIB/USDT" ∷ []
universe_of new_memecoin = "PEPE/USDT" ∷ "BONK/USDT" ∷ "WIF/USDT" ∷ []

abbrev same_bucket : Bucket → Bucket → Bool
same_bucket crypto_major_legacy_meme crypto_major_legacy_meme = true
same_bucket new_memecoin new_memecoin = true
same_bucket _ _ = false

abbrev is_loaded : Timeframe → Bucket → List (Timeframe × Bucket) → Bool
is_loaded timeframe bucket loaded =
    any
      (λ (entry : Timeframe × Bucket).
        same_timeframe entry.0 timeframe && same_bucket entry.1 bucket)
      loaded

-- The dict that is returned.
pub data CryptoOutcome : Type 0 where
  no_live_crypto_families : CryptoOutcome
  nothing_fired : CryptoOutcome
  entered_simulated : ℕ → ℕ → List String → CryptoOutcome

-- The stamp of an order: the hour for an hourly family, the day for the others.
abbrev pub stamp_for : Timeframe → String → Today → String
stamp_for hourly hour today = hour
stamp_for daily hour today = today.iso

module _ {A : Type 0} where
  -- The live strategies of this leg; their families, variants and profiles are read off this list.
  unfoldable pub live_crypto_families : List (LiveStrategy A) → Db A → List (LiveStrategy A)
  unfolding bucket_of is_strategy_retired
  live_crypto_families configs db =
      keep_if
        (λ (cfg : LiveStrategy A).
          is_crypto (bucket_of cfg.strategy_id) && not (is_strategy_retired cfg.profile_name db))
        configs

  abbrev pub crypto_candidate : Market A → String → String → EntryCandidate A
  crypto_candidate market family symbol = record (candidate_of market family symbol) {
    venue = "crypto_sim";
  }

  unfoldable pub claim_crypto :
      Market A → String → List String → List (EntryCandidate A) → List (EntryCandidate A)
  claim_crypto market family [] candidates = candidates
  claim_crypto market family (symbol ∷ fired) candidates = claim_crypto market family fired (
      if is_claimed symbol candidates
      then candidates
      else candidates ++ crypto_candidate market family symbol ∷ [])

  -- `if bucket not in …`: the frames of a timeframe and bucket are loaded once in a run.
  unfoldable pub load_once :
      Exchange A
      → Today
      → ℕ
      → Timeframe
      → Option Bucket
      → List (Timeframe × Bucket)
      → Act A (List (Timeframe × Bucket))
  unfolding load_bars
  load_once exchange today now timeframe none loaded = pure loaded
  load_once exchange today now timeframe (some bucket) loaded =
      if is_loaded timeframe bucket loaded then pure loaded else (do
        load_bars exchange today.ordinal now timeframe (universe_of bucket)
        pure ((timeframe, bucket) ∷ loaded))

  -- `markets` gives the hourly and the daily bars, each up to its cutoff. A family's frames are
  -- loaded before its variants are looked up.
  unfoldable pub scan_crypto_pairs :
      Exchange A
      → (Timeframe → Market A)
      → Today
      → ℕ
      → List String
      → List (Timeframe × Bucket)
      → List (String × String)
      → List (EntryCandidate A)
      → Act A (List (EntryCandidate A))
  unfolding claim_crypto timeframe_for is_routable load_once bucket_of
  scan_crypto_pairs exchange markets today now open_symbols loaded [] candidates = pure candidates
  scan_crypto_pairs exchange markets today now open_symbols loaded ((family, variant) ∷ pairs)
        candidates =
      do
        let market = markets (timeframe_for family)
        now_loaded ← load_once exchange today now (timeframe_for family) (bucket_of family) loaded
        lift (if is_routable family variant then ok tt else err key_error)
        scan_crypto_pairs exchange markets today now open_symbols now_loaded pairs (
            claim_crypto market family (market.pick_entries family variant open_symbols) candidates)

  -- The families in order, each with its variants in order.
  unfoldable pub scan_crypto_candidates :
      Exchange A
      → (Timeframe → Market A)
      → Today
      → ℕ
      → List (LiveStrategy A)
      → Act A (List (EntryCandidate A))
  unfolding scan_crypto_pairs
  scan_crypto_candidates exchange markets today now live = do
    positions ← gets (get_open_positions none)
    scan_crypto_pairs exchange markets today now (map (λ (p : Position A). p.symbol) positions) []
        (sort_by (pair_le (markets daily).text_le)
          (distinct_pairs (map (λ (c : LiveStrategy A). (c.strategy_id, c.entry_variant)) live)))
        []

  abbrev pub crypto_sizable_of :
      (Timeframe → Market A) → List (EntryCandidate A) → Accepted A → Candidate A
  crypto_sizable_of markets candidates a = record {
    symbol = a.candidate.symbol;
    venue = a.candidate.venue;
    asset_class = a.asset_class;
    score = a.candidate.score;
    volatility = elim (candidate_named a.candidate.symbol candidates) [
      | none ↦ (markets daily).volatility a.candidate.symbol
      | some c ↦ c.volatility
    ];
  }

module _ {A : Type 0} ⦃f : Float A⦄ where
  -- `market_data[…]`, where the class has a slippage.
  abbrev pub crypto_entry_of :
      (Timeframe → Market A) → EntryCandidate A → Option String → Option (MarketEntry A)
  crypto_entry_of markets c none = none
  crypto_entry_of markets c (some asset_class) = elim (slippage_pct asset_class) [
    | none ↦ none
    | some pct ↦ some (record {
      bars = (markets (timeframe_for c.family)).bars c.symbol;
      asset_class = asset_class;
      spread_pct = pct;
    })
  ]

  unfoldable pub crypto_market_data :
      (Timeframe → Market A) → List (EntryCandidate A) → MarketData A
  unfolding bucket_of timeframe_for
  crypto_market_data markets candidates symbol venue =
      if venue == "crypto_sim"
      then elim (candidate_named symbol candidates) [
        | none ↦ none
        | some c ↦ crypto_entry_of markets c (asset_class_of (bucket_of c.family))
      ]
      else none

  -- From the order's row on: a crash between the row and the fill leaves it pending.
  unfoldable pub simulate_entry :
      ℕ → LiveStrategy A → String → String → String → A → A → Act A (Option String)
  unfolding simulate_fill open_position
  simulate_entry now cfg symbol asset_class order_ref qty reference_price = do
    execute (
        record_order now order_ref cfg.profile_name symbol crypto_sim buy entry qty none
          pending_submit)
    fill_price ← lift (simulate_fill FillSide.buy qty reference_price asset_class)
    modify (update_order_status order_ref filled none none none)
    modify (λ db.
        (open_position cfg.profile_name symbol crypto_sim asset_class qty fill_price now order_ref
          cfg.exit_profile db).1)
    notify (entered symbol qty cfg.profile_name)
    pure (some order_ref)

  -- From the price on.
  unfoldable pub enter_at_price :
      Broker A → Today → String → ℕ → LiveStrategy A → String → String → A → Act A (Option String)
  unfolding simulate_entry bucket_of timeframe_for
  enter_at_price broker today hour now cfg symbol family dollar_amount = do
    reference_price ← lift (broker.fetch_price symbol)
    qty ← lift (divide dollar_amount reference_price)
    if qty ≼ float_zero then pure none else (do
      asset_class ← lift (or_key_error (asset_class_of (bucket_of family)))
      simulate_entry now cfg symbol asset_class
          (build_order_ref cfg.profile_name symbol (stamp_for (timeframe_for family) hour today) buy
            entry)
          qty reference_price)

  abbrev pub is_in_flight : List (Order A) → Bool
  is_in_flight [] = false
  is_in_flight (_ ∷ _) = true

  -- An order in flight skips the position, and so does a halt.
  unfoldable pub enter_unless_blocked :
      Broker A
      → Today
      → String
      → ℕ
      → LiveStrategy A
      → String
      → String
      → A
      → Bool
      → Act A (Option String)
  unfolding enter_at_price is_entry_halted
  enter_unless_blocked broker today hour now cfg symbol family dollar_amount in_flight = do
    halted ← gets is_entry_halted
    if in_flight || halted
        then pure none
        else enter_at_price broker today hour now cfg symbol family dollar_amount

  -- One round of the loop over the sized positions.
  unfoldable pub enter_crypto :
      Broker A
      → Today
      → String
      → ℕ
      → (Timeframe → Market A)
      → List (LiveStrategy A)
      → List (String × List String)
      → List (EntryCandidate A)
      → Holding A
      → Act A (Option String)
  unfolding enter_unless_blocked profile_for
  enter_crypto broker today hour now markets configs by_family candidates position = do
    family ← lift (or_key_error (family_of (candidate_named position.symbol candidates)))
    cfg ← lift (profile_for (markets daily) configs by_family candidates position.symbol)
    let multiplier = if is_on_probation cfg.state then probation_size_multiplier else float_one
    unresolved ← gets (get_unresolved_orders cfg.profile_name position.symbol buy)
    enter_unless_blocked broker today hour now cfg position.symbol family
        ((position.weight ⊗ paper_account_equity) ⊗ multiplier) (is_in_flight unresolved)

  unfoldable pub enter_all_crypto :
      Broker A
      → Today
      → String
      → ℕ
      → (Timeframe → Market A)
      → List (LiveStrategy A)
      → List (String × List String)
      → List (EntryCandidate A)
      → List (Holding A)
      → Act A (List String)
  unfolding enter_crypto
  enter_all_crypto broker today hour now markets configs by_family candidates [] = pure []
  enter_all_crypto broker today hour now markets configs by_family candidates (p ∷ ps) = do
    submitted ← enter_crypto broker today hour now markets configs by_family candidates p
    rest ← enter_all_crypto broker today hour now markets configs by_family candidates ps
    pure (listed_if submitted rest)

  -- From the candidates on.
  unfoldable pub enter_crypto_candidates :
      Broker A
      → Today
      → String
      → ℕ
      → (Timeframe → Market A)
      → List (LiveStrategy A)
      → List (LiveStrategy A)
      → List (EntryCandidate A)
      → Act A CryptoOutcome
  unfolding apply_risk_gate size_positions crypto_market_data enter_all_crypto
  enter_crypto_candidates broker today hour now markets configs live [] = pure nothing_fired
  enter_crypto_candidates broker today hour now markets configs live (c ∷ cs) = do
    let candidates = c ∷ cs
    gated ← lift (
        apply_risk_gate (markets daily).median (markets daily).correlation
          (map scored_of candidates) (crypto_market_data markets candidates) risk_config)
    positions ← gets (get_open_positions none)
    by_family ← gets (λ db. grouped live db [])
    sized ← lift (
        size_positions (map (crypto_sizable_of markets candidates) gated.0) paper_account_equity
          (map weighed positions) risk_config)
    submitted ←
        enter_all_crypto broker today hour now markets configs by_family candidates sized.positions
    pure (entered_simulated (length candidates) (length gated.0) submitted)

  abbrev pub run_crypto_live :
      Broker A
      → Exchange A
      → (Timeframe → Market A)
      → List (LiveStrategy A)
      → Today
      → String
      → ℕ
      → List (LiveStrategy A)
      → Act A CryptoOutcome
  run_crypto_live broker exchange markets configs today hour now [] = pure no_live_crypto_families
  run_crypto_live broker exchange markets configs today hour now (cfg ∷ live) = do
    candidates ← scan_crypto_candidates exchange markets today now (cfg ∷ live)
    enter_crypto_candidates broker today hour now markets configs (cfg ∷ live) candidates

  unfoldable pub run_crypto_entry_once :
      Broker A
      → Exchange A
      → (Timeframe → Market A)
      → List (LiveStrategy A)
      → Today
      → String
      → ℕ
      → Act A CryptoOutcome
  unfolding live_crypto_families scan_crypto_candidates enter_crypto_candidates
  run_crypto_entry_once broker exchange markets configs today hour now = do
    live ← gets (live_crypto_families configs)
    run_crypto_live broker exchange markets configs today hour now live

-- ===== src/Paper/Entry/Once.antt =====
-- The whole run of trader/paper/entry_pipeline.py: heal, scan, gate, size, and enter what the
-- nightly budget pays for.
use trader_pxg.Base.{
  ℕ, String, Bool, true, false, not, none, some, List, [], ◌∷◌, map, ◌==◌, length, if◌then◌else◌,
  Float, ◌⊖◌, ◌⊗◌, ◌≼◌, float_zero, float_one, decimal, minimum, Result,
}
use trader_pxg.Risk.Config.{risk_config}
use trader_pxg.Risk.Gate.{Scored, Accepted, MarketData}
use trader_pxg.Risk.Gate.Eliminate.{apply_risk_gate}
use trader_pxg.Risk.Sizer.{Candidate, Holding, size_positions}
use trader_pxg.Paper.Store.{Position, Venue, ibkr_paper, crypto_sim, kraken_readonly}
use trader_pxg.Paper.Ledger.{get_all_unresolved_orders, get_open_positions}
use trader_pxg.Paper.World.{Broker, Act, pure, lift, gets, ◌>>=◌}
use trader_pxg.Paper.Reconcile.{is_entry_halted}
use trader_pxg.Paper.Guardian.{Today}
use trader_pxg.Paper.Guardian.Kill.{paper_account_equity}
use trader_pxg.Paper.Entry.{
  Market, EntryCandidate, scan_candidates, live_profiles_by_family, candidate_named, profile_for,
  last_close, round_shares_down,
}
use trader_pxg.Paper.Entry.Run.{
  Outcome, not_a_trading_day, no_candidates, finished, listed_if, heal_pass, enter_position,
}
use trader_pxg.Tournament.Frozen.{probation_size_multiplier}
use trader_pxg.Tournament.Registry.{State, probation}
use trader_pxg.Tournament.Live.{LiveStrategy}

abbrev pub is_on_probation : State → Bool
is_on_probation probation = true
is_on_probation _ = false

abbrev pub venue_text : Venue → String
venue_text ibkr_paper = "ibkr_paper"
venue_text crypto_sim = "crypto_sim"
venue_text kraken_readonly = "kraken_readonly"

module _ {A : Type 0} where
  abbrev pub scored_of : EntryCandidate A → Scored A
  scored_of c = record { symbol = c.symbol; venue = c.venue; score = c.score }

  -- The gate returns the candidate's own dict, with its volatility, and the class.
  abbrev pub sizable_of : Market A → Accepted A → Candidate A
  sizable_of market a = record {
    symbol = a.candidate.symbol;
    venue = a.candidate.venue;
    asset_class = a.asset_class;
    score = a.candidate.score;
    volatility = market.volatility a.candidate.symbol;
  }

module _ {A : Type 0} ⦃f : Float A⦄ where
  abbrev pub paper_nightly_budget : A
  paper_nightly_budget = decimal 600 0

  -- `market_data`, for the candidates' keys; the spread is the slippage constant of stocks.
  abbrev pub market_data_of : Market A → List (EntryCandidate A) → MarketData A
  market_data_of market candidates symbol venue =
      if venue == "smart"
      then elim (candidate_named symbol candidates) [
        | none ↦ none
        | some c ↦
            some (record {
              bars = market.bars symbol;
              asset_class = "stock";
              spread_pct = decimal 5 2;
            })
      ]
      else none

  abbrev pub weighed : Position A → Holding A
  weighed p = record {
    symbol = p.symbol;
    venue = venue_text p.venue;
    asset_class = p.asset_class;
    weight = f.quotient (p.qty ⊗ p.entry_price) paper_account_equity;
  }

  -- The shares that a weight buys, within what is left of the budget.
  unfoldable pub shares_for : LiveStrategy A → A → A → A → Result A
  unfolding round_shares_down minimum
  shares_for cfg weight price budget_remaining =
      let multiplier = if is_on_probation cfg.state then probation_size_multiplier else float_one in
      round_shares_down (minimum ((weight ⊗ paper_account_equity) ⊗ multiplier) budget_remaining)
        price

  -- The loop over the sized positions.
  unfoldable pub enter_all :
      Broker A
      → Today
      → ℕ
      → Market A
      → List (LiveStrategy A)
      → List (String × List String)
      → List (EntryCandidate A)
      → A
      → List (Holding A)
      → Act A (List String)
  unfolding profile_for shares_for enter_position
  enter_all broker today now market configs by_family candidates budget [] = pure []
  enter_all broker today now market configs by_family candidates budget (position ∷ positions) = do
    cfg ← lift (profile_for market configs by_family candidates position.symbol)
    price ← lift (last_close (market.bars position.symbol))
    qty ← lift (shares_for cfg position.weight price budget)
    let too_few = qty ≼ float_zero
    submitted ←
        (if too_few
          then pure none
          else enter_position broker today now cfg position.symbol price qty)
    rest ←
        enter_all broker today now market configs by_family candidates
          (if too_few then budget else budget ⊖ (qty ⊗ price)) positions
    pure (listed_if submitted rest)

  -- From the candidates on.
  unfoldable pub enter_candidates :
      Broker A
      → Today
      → ℕ
      → Market A
      → List (LiveStrategy A)
      → List String
      → List (EntryCandidate A)
      → Act A Outcome
  unfolding apply_risk_gate live_profiles_by_family size_positions enter_all
  enter_candidates broker today now market configs healed [] = pure (no_candidates healed)
  enter_candidates broker today now market configs healed (c ∷ cs) = do
    let candidates = c ∷ cs
    gated ← lift (
        apply_risk_gate market.median market.correlation (map scored_of candidates)
          (market_data_of market candidates) risk_config)
    families ← gets (live_profiles_by_family configs)
    by_family ← lift families
    positions ← gets (get_open_positions none)
    sized ← lift (
        size_positions (map (sizable_of market) gated.0) paper_account_equity
          (map weighed positions) risk_config)
    submitted ←
        enter_all broker today now market configs by_family candidates paper_nightly_budget
          sized.positions
    halted ← gets is_entry_halted
    pure (finished (length candidates) (length gated.0) submitted healed halted)

  -- The broker's snapshot is taken to answer.
  unfoldable pub run_entry_pipeline_once :
      Broker A → Market A → List (LiveStrategy A) → Today → ℕ → Act A Outcome
  unfolding heal_pass scan_candidates enter_candidates
  run_entry_pipeline_once broker market configs today now = do
    orders ← gets get_all_unresolved_orders
    healed ← heal_pass broker configs now orders
    if not today.is_trading_day then pure (not_a_trading_day healed) else (do
      scanned ← gets (scan_candidates market configs)
      candidates ← lift scanned
      enter_candidates broker today now market configs healed candidates)

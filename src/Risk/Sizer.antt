-- ===== src/Risk/Sizer.antt =====
-- trader/risk/sizer.py: the weights of new positions. An entry of the list of weights stands beside
-- its candidate, where the code pairs the two by index. Volatilities come with the candidates.
pub mod Limits
mod Tests
use trader_pxg.Base.{
  ℕ, ◌-◌, String, Bool, List, [], ◌∷◌, map, ◌==◌, ◌&&◌, length, keep_if, sort_by, take,
  if◌then◌else◌, Float, float_zero, float_one, ◌⊕◌, ◌⊖◌, ◌⊗◌, ◌≺◌, ◌≼◌, divide, maximum, minimum,
  Result, ok, ◌>>=◌,
}
use trader_pxg.Backtest.Metrics.{sum}
use trader_pxg.Risk.Config.{RiskConfig}

-- An entry of `scored_candidates`.
pub record Candidate (A : Type 0) : Type 0 where
  pub symbol : String
  pub venue : String
  pub asset_class : String
  pub score : A
  pub volatility : A

-- An entry of `open_positions`, and of the result's "positions".
pub record Holding (A : Type 0) : Type 0 where
  pub symbol : String
  pub venue : String
  pub asset_class : String
  pub weight : A

-- The dict that is returned.
pub record Sizing (A : Type 0) : Type 0 where
  pub positions : List (Holding A)
  pub cash_weight : A

abbrev pub is_memecoin : String → Bool
is_memecoin asset_class = asset_class == "memecoin"

module _ {A : Type 0} where
  abbrev pub weights_of : List (Candidate A × A) → List A
  weights_of = map (λ entry. entry.1)

  abbrev pub memecoin_weights : List (Candidate A × A) → List A
  memecoin_weights entries =
      weights_of (keep_if (λ (entry : Candidate A × A). is_memecoin entry.0.asset_class) entries)

  abbrev pub reweight : (A → A) → List (Candidate A × A) → List (Candidate A × A)
  reweight g = map (λ entry. (entry.0, g entry.1))

  abbrev pub held : Candidate A × A → Holding A
  held (c, weight) = record {
    symbol = c.symbol;
    venue = c.venue;
    asset_class = c.asset_class;
    weight = weight;
  }

module _ {A : Type 0} ⦃f : Float A⦄ where
  -- `sorted(…, key=score, reverse=True)[:available_slots]`; the slots do not go below zero.
  abbrev pub selected_of : List (Candidate A) → List (Holding A) → RiskConfig A → List (Candidate A)
  selected_of scored_candidates open_positions config =
      take (config.sizer_top_n - length open_positions)
        (sort_by (λ (a b : Candidate A). b.score ≼ a.score) scored_candidates)

  unfoldable pub raw_weights : List (Candidate A) → Result (List (Candidate A × A))
  unfolding divide
  raw_weights [] = ok []
  raw_weights (c ∷ cs) = do
    weight ← divide c.score c.volatility
    rest ← raw_weights cs
    ok ((c, weight) ∷ rest)

  -- Step 3: the raw weights, scaled to what is available.
  abbrev pub normalized : A → A → A → A
  normalized raw_sum available_weight w =
      if float_zero ≺ raw_sum then f.quotient w raw_sum ⊗ available_weight else float_zero

  -- Step 5: the new memecoin weights, scaled down where the cap is exceeded.
  unfoldable pub recapped : A → A → List (Candidate A × A) → List (Candidate A × A)
  unfolding sum maximum
  recapped open_memecoin_weight memecoin_cap capped =
      let new_memecoin_weight = sum (memecoin_weights capped) in
      let scale =
        f.quotient (maximum float_zero (memecoin_cap ⊖ open_memecoin_weight)) new_memecoin_weight in
      if memecoin_cap ≺ (open_memecoin_weight ⊕ new_memecoin_weight)
        && float_zero ≺ new_memecoin_weight
      then map
          (λ (entry : Candidate A × A).
            (entry.0, if is_memecoin entry.0.asset_class then entry.1 ⊗ scale else entry.1))
          capped
      else capped

  abbrev pub open_weight_sum : List (Holding A) → A
  open_weight_sum open_positions = sum (map (λ (h : Holding A). h.weight) open_positions)

  -- Steps 3 to 5 on the raw weights.
  unfoldable pub final_weights :
      List (Candidate A × A) → List (Holding A) → RiskConfig A → List (Candidate A × A)
  unfolding sum maximum minimum recapped
  final_weights raw open_positions config =
      let raw_sum = sum (weights_of raw) in
      let available_weight =
        maximum float_zero
          ((float_one ⊖ config.sizer_cash_reserve) ⊖ open_weight_sum open_positions) in
      let capped =
        reweight
          (λ w. minimum (normalized raw_sum available_weight w) config.sizer_single_position_cap)
          raw in
      let open_memecoin_weight =
        open_weight_sum (keep_if (λ (h : Holding A). is_memecoin h.asset_class) open_positions) in
      recapped open_memecoin_weight config.sizer_memecoin_cap capped

  unfoldable pub sized : List (Candidate A × A) → List (Holding A) → RiskConfig A → Sizing A
  unfolding final_weights
  sized raw open_positions config =
      let final = final_weights raw open_positions config in
      record {
        positions = map held final;
        cash_weight = (float_one ⊖ open_weight_sum open_positions) ⊖ sum (weights_of final);
      }

  -- `equity` is not read.
  unfoldable pub size_positions :
      List (Candidate A) → A → List (Holding A) → RiskConfig A → Result (Sizing A)
  unfolding raw_weights sized
  size_positions scored_candidates equity open_positions config = do
    raw ← raw_weights (selected_of scored_candidates open_positions config)
    ok (sized raw open_positions config)

-- ===== src/Risk/Gate/Eliminate.antt =====
-- apply_risk_gate of trader/risk/gate.py: the checks of each candidate, then the walk over the
-- correlated pairs. An accepted candidate stands with its index.
use trader_pxg.Base.{
  ℕ, suc, String, Bool, not, ◌||◌, Option, none, some, List, [], ◌∷◌, ◌++◌, map, any, keep_if,
  nat_eqb, sort_by, if◌then◌else◌, Float, ◌≺◌, ◌≼◌, absolute, Result, ok, ◌>>=◌,
}
use trader_pxg.Backtest.Fills.{or_key_error}
use trader_pxg.Risk.Config.{RiskConfig}
use trader_pxg.Risk.Gate.{
  Scored, RejectCode, reject_correlation, Accepted, MarketData, first_failing_check,
  pairwise_correlation,
}

abbrev pub Indexed : Type 0 → Type 0
Indexed A = ℕ × Accepted A

abbrev pub Rejected : Type 0 → Type 0
Rejected A = Scored A × RejectCode

-- An entry of `pairs`.
pub record CorrelatedPair (A : Type 0) : Type 0 where
  pub magnitude : A
  pub first : Indexed A
  pub second : Indexed A

module _ {A : Type 0} where
  abbrev pub indexed_from : ℕ → List (Accepted A) → List (Indexed A)
  indexed_from i [] = []
  indexed_from i (a ∷ rest) = (i, a) ∷ indexed_from (suc i) rest

  -- Not in `survivor_indices`.
  abbrev pub is_gone : ℕ → List (Indexed A) → Bool
  is_gone i gone = any (λ (e : Indexed A). nat_eqb e.0 i) gone

module _ {A : Type 0} ⦃f : Float A⦄ where
  -- The magnitude, where there is a correlation and it is above the threshold.
  abbrev pub excess : Option A → A → Option A
  excess none threshold = none
  excess (some corr) threshold = if threshold ≺ absolute corr then some (absolute corr) else none

  unfoldable pub excess_between :
      (List (A × A) → A) → MarketData A → RiskConfig A → Accepted A → Accepted A → Result (Option A)
  unfolding pairwise_correlation absolute
  excess_between correlation market_data config a b = do
    entry_a ← or_key_error (market_data a.candidate.symbol a.candidate.venue)
    entry_b ← or_key_error (market_data b.candidate.symbol b.candidate.venue)
    ok (
        excess (pairwise_correlation correlation entry_a.bars entry_b.bars config)
          config.correlation_threshold)

  abbrev pub add_pair :
      Option A → Indexed A → Indexed A → List (CorrelatedPair A) → List (CorrelatedPair A)
  add_pair none a b pairs = pairs
  add_pair (some magnitude) a b pairs =
      record { magnitude = magnitude; first = a; second = b } ∷ pairs

  -- The inner loop, on the later candidates; `between` is the test of two.
  unfoldable pub pairs_of :
      (Accepted A → Accepted A → Result (Option A))
      → Indexed A
      → List (Indexed A)
      → Result (List (CorrelatedPair A))
  pairs_of between a [] = ok []
  pairs_of between a (b ∷ later) = do
    magnitude ← between a.1 b.1
    rest ← pairs_of between a later
    ok (add_pair magnitude a b rest)

  unfoldable pub all_pairs :
      (Accepted A → Accepted A → Result (Option A))
      → List (Indexed A)
      → Result (List (CorrelatedPair A))
  unfolding pairs_of
  all_pairs between [] = ok []
  all_pairs between (a ∷ later) = do
    pairs ← pairs_of between a later
    rest ← all_pairs between later
    ok (pairs ++ rest)

  abbrev pub loser_of : CorrelatedPair A → Indexed A
  loser_of p = if p.first.1.candidate.score ≺ p.second.1.candidate.score then p.first else p.second

  -- The walk over the pairs: those that are gone, in order.
  unfoldable pub eliminate : List (CorrelatedPair A) → List (Indexed A) → List (Indexed A)
  eliminate [] gone = gone
  eliminate (p ∷ pairs) gone =
      eliminate pairs (
        if is_gone p.first.0 gone || is_gone p.second.0 gone then gone else gone ++ loser_of p ∷ [])

  unfoldable pub apply_correlation_check :
      (Accepted A → Accepted A → Result (Option A))
      → List (Accepted A)
      → Result (List (Accepted A) × List (Rejected A))
  unfolding all_pairs eliminate
  apply_correlation_check between accepted = do
    pairs ← all_pairs between (indexed_from 0 accepted)
    let gone = eliminate (sort_by (λ (p q : CorrelatedPair A). q.magnitude ≼ p.magnitude) pairs) []
    let survivors = keep_if (λ (e : Indexed A). not (is_gone e.0 gone)) (indexed_from 0 accepted)
    ok (
      map (λ (e : Indexed A). e.1) survivors,
      map (λ (e : Indexed A). (e.1.candidate, reject_correlation)) gone,
    )

  -- `accepted` and `rejected` after one more candidate in front.
  abbrev pub sorted_out :
      Option RejectCode
      → Scored A
      → String
      → List (Accepted A) × List (Rejected A)
      → List (Accepted A) × List (Rejected A)
  sorted_out none candidate asset_class (accepted, rejected) =
      (record { candidate = candidate; asset_class = asset_class } ∷ accepted, rejected)
  sorted_out (some reason) candidate asset_class (accepted, rejected) =
      (accepted, (candidate, reason) ∷ rejected)

  -- The first loop.
  unfoldable pub screen :
      (List A → A)
      → MarketData A
      → RiskConfig A
      → List (Scored A)
      → Result (List (Accepted A) × List (Rejected A))
  unfolding first_failing_check
  screen median market_data config [] = ok ([], [])
  screen median market_data config (candidate ∷ candidates) = do
    entry ← or_key_error (market_data candidate.symbol candidate.venue)
    reason ← first_failing_check median entry config
    rest ← screen median market_data config candidates
    ok (sorted_out reason candidate entry.asset_class rest)

  unfoldable pub apply_risk_gate :
      (List A → A)
      → (List (A × A) → A)
      → List (Scored A)
      → MarketData A
      → RiskConfig A
      → Result (List (Accepted A) × List (Rejected A))
  unfolding screen excess_between apply_correlation_check
  apply_risk_gate median correlation candidates market_data config = do
    screened ← screen median market_data config candidates
    checked ← apply_correlation_check (excess_between correlation market_data config) screened.0
    ok (checked.0, screened.1 ++ checked.1)

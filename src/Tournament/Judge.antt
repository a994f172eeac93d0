-- ===== src/Tournament/Judge.antt =====
-- trader/tournament/judge.py: the metrics of a strategy, the ranking, the strikes, and the rule that
-- each active strategy and each candidate meets. The run is Judge/Run.
pub mod Run
pub mod Reached
pub mod Demotion
pub mod Round
pub mod Settled
pub mod Rows
pub mod Measured
pub mod Whole
mod Ranking
mod Tests
use trader_pxg.Tournament.Pipeline
use trader_pxg.Base.{
  ℕ, suc, ◌+◌, String, Bool, true, false, not, ◌&&◌, ◌||◌, Option, none, some, List, [], ◌∷◌, map,
  ◌==◌, leb, ltb, nat_eqb, length, find, keep_if, sort_by, if◌then◌else◌, Float, negate, ◌≺◌, ◌≼◌,
  ◌≈◌, Result, ok, err, key_error, cap_exceeded, Error,
}
use trader_pxg.Backtest.Metrics.{ClosedTrade, Metrics, compute_metrics}
use trader_pxg.Paper.Store.{PaperTrade, Db, day_of}
use trader_pxg.Paper.Ledger.{get_recent_trades}
use trader_pxg.Paper.Guardian.Kill.{paper_account_equity}
use trader_pxg.Tournament.Frozen.{
  min_trades_for_judging, judging_window_trades, sharpe_promotion_floor, sharpe_demotion_floor,
  demotion_sustain_evaluations,
}
use trader_pxg.Tournament.Registry.{
  Moment, State, candidate, probation, full, retired, Grounds, demoted, Entrant, Roster,
}
use trader_pxg.Tournament.Pipeline.{
  is_absent, promote_to_probation, confirm_paper_30, promote_to_full, is_below,
}

-- `decision`
pub data Verdict : Type 0 where
  promote retire hold enter : Verdict

-- `rule_citation`, by the rule that it quotes, with the numbers of the text.
pub data Citation (A : Type 0) : Type 0 where
  not_judged : ℕ → Citation A
  above_floor below_floor : Option A → ℕ → Option A → Citation A
  demotion : Grounds A → Citation A
  demotion_strike : ℕ → ℕ → ℕ → Option A → Citation A
  no_rule_fired : ℕ → ℕ → Option A → Option A → Citation A
  evidence_incomplete evidence_verified : Option ℕ → Option String → Citation A
  queued : Citation A

-- A decision's dict, a row of `tournament_decisions` but for its `run_id`.
pub record Decision (A : Type 0) : Type 0 where
  pub profile_name : String
  pub decision : Verdict
  pub prior_state : State
  pub new_state : State
  pub sharpe : Option A
  pub profit_factor : Option A
  pub trade_count : Option ℕ
  pub rank : Option ℕ
  pub demotion_strike : Bool
  pub rule_citation : Citation A

-- `tournament_decisions`
pub record Recorded (A : Type 0) : Type 0 where
  pub run_id : ℕ
  pub decided : Decision A

-- An active strategy with its metrics.
abbrev pub Judged : Type 0 → Type 0
Judged A = Entrant A × Metrics A

-- What a call of the pipeline leaves, and what the judge makes of it; a raise writes nothing.
abbrev pub Verdicts : Type 0 → Type 0 → Type 0
Verdicts A B = Roster A × Result B

-- `ranks[name]`
abbrev pub rank_of : String → List (String × ℕ) → Result ℕ
rank_of name [] = err key_error
rank_of name ((other, rank) ∷ ranks) = if other == name then ok rank else rank_of name ranks

-- `max(ranks.values()) if ranks else None`
abbrev pub worst_from : ℕ → List (String × ℕ) → ℕ
worst_from worst [] = worst
worst_from worst ((_, rank) ∷ ranks) = worst_from (if ltb worst rank then rank else worst) ranks

abbrev pub worst_rank : List (String × ℕ) → Option ℕ
worst_rank [] = none
worst_rank ((_, rank) ∷ ranks) = some (worst_from rank ranks)

abbrev pub is_rank : ℕ → Option ℕ → Bool
is_rank rank none = false
is_rank rank (some worst) = nat_eqb rank worst

-- `rank == worst_rank and len(ranks) > 1`
abbrev pub is_worst : ℕ → List (String × ℕ) → Bool
is_worst rank ranks = is_rank rank (worst_rank ranks) && ltb 1 (length ranks)

abbrev pub is_cap_exceeded : Error → Bool
is_cap_exceeded cap_exceeded = true
is_cap_exceeded _ = false

module _ {A : Type 0} where
  abbrev pub closed_of : PaperTrade A → ClosedTrade A
  closed_of t = record { pnl = t.pnl; fees = t.fees; exit_date = day_of t.exit_ts }

  abbrev pub is_of : String → Recorded A → Bool
  is_of name row = row.decided.profile_name == name

  abbrev pub leading_strikes : List (Recorded A) → ℕ
  leading_strikes [] = 0
  leading_strikes (row ∷ rows) =
      let streak = leading_strikes rows in if row.decided.demotion_strike then suc streak else 0

  -- On `tournament_decisions` with the newest first.
  unfoldable pub consecutive_prior_strikes : String → List (Recorded A) → ℕ
  consecutive_prior_strikes name decisions = leading_strikes (keep_if (is_of name) decisions)

  -- `{name: i + 1 for i, name in enumerate(ordered)}`
  abbrev pub numbered : ℕ → List (Judged A) → List (String × ℕ)
  numbered i [] = []
  numbered i ((row, _) ∷ judged) = (row.profile_name, suc i) ∷ numbered (suc i) judged

  -- The full strategies with enough trades.
  abbrev pub is_eligible : Judged A → Bool
  is_eligible (row, m) = is_full row.state && leb min_trades_for_judging m.trade_count
    where
      is_full : State → Bool
      is_full full = true
      is_full _ = false

  -- `base`, with the keys that every decision sets.
  abbrev pub decision_on :
      Entrant A → Metrics A → Verdict → State → Option ℕ → Bool → Citation A → Decision A
  decision_on row m verdict state rank strike citation = record {
    profile_name = row.profile_name;
    decision = verdict;
    prior_state = row.state;
    new_state = state;
    sharpe = m.sharpe_ratio;
    profit_factor = m.profit_factor;
    trade_count = some m.trade_count;
    rank = rank;
    demotion_strike = strike;
    rule_citation = citation;
  }

  abbrev pub decision_on_candidate : Entrant A → Verdict → State → Citation A → Decision A
  decision_on_candidate row verdict state citation = record {
    profile_name = row.profile_name;
    decision = verdict;
    prior_state = candidate;
    new_state = state;
    sharpe = none;
    profit_factor = none;
    trade_count = none;
    rank = none;
    demotion_strike = false;
    rule_citation = citation;
  }

  -- A call of the pipeline, and the decision that is appended after it returned.
  abbrev pub applied : {B : Type 0} → Roster A → Result (Roster A) → B → Verdicts A B
  applied r (ok after) b = (after, ok b)
  applied r (err e) b = (r, err e)

  -- `except pipeline.CapExceeded`
  abbrev pub admitted_or_queued : Entrant A → Roster A → Result (Roster A) → Verdicts A (Decision A)
  admitted_or_queued row r (ok after) = (
    after,
    ok (
        decision_on_candidate row enter probation
          (evidence_verified row.backtest_run_id row.oos_result_ref)),
  )
  admitted_or_queued row r (err e) =
      (r, if is_cap_exceeded e then ok (decision_on_candidate row hold candidate queued) else err e)

  -- One round of the loop over the candidates.
  unfoldable pub judge_candidate : Moment → ℕ → Entrant A → Roster A → Verdicts A (Decision A)
  judge_candidate now run_id row r =
      if is_absent row.backtest_run_id || is_absent row.oos_result_ref
      then (
        r,
        ok (
            decision_on_candidate row hold candidate
              (evidence_incomplete row.backtest_run_id row.oos_result_ref)),
      )
      else admitted_or_queued row r (promote_to_probation row.profile_name now (some run_id) r)

module _ {A : Type 0} ⦃f : Float A⦄ where
  unfoldable pub judge_strategy : String → Db A → Result (Metrics A)
  judge_strategy profile_name db =
      compute_metrics (map closed_of (get_recent_trades profile_name judging_window_trades db))
        paper_account_equity

  abbrev pub or_lowest : Option A → A
  or_lowest none = negate f.inf
  or_lowest (some x) = x

  -- `_rank_key(a) < _rank_key(b)`, an order of pairs.
  unfoldable pub is_worse : Metrics A → Metrics A → Bool
  is_worse a b =
      if or_lowest a.sharpe_ratio ≈ or_lowest b.sharpe_ratio
      then or_lowest a.profit_factor ≺ or_lowest b.profit_factor
      else or_lowest a.sharpe_ratio ≺ or_lowest b.sharpe_ratio

  abbrev pub is_before : Judged A → Judged A → Bool
  is_before (_, a) (_, b) = not (is_worse a b)

  -- `sorted(…, reverse=True)` keeps the order of equal keys.
  unfoldable pub rank_full_strategies : List (Judged A) → List (String × ℕ)
  unfolding is_worse
  rank_full_strategies judged = numbered 0 (sort_by is_before judged)

  -- `sharpe is not None and sharpe >= floor`
  abbrev pub is_at_least : A → Option A → Bool
  is_at_least floor none = false
  is_at_least floor (some sharpe) = floor ≼ sharpe

  -- A strategy on probation, once its thirty trades are confirmed.
  abbrev pub judge_confirmed :
      Moment
      → ℕ
      → Entrant A
      → Metrics A
      → Roster A
      → Result (Bool × Roster A)
      → Verdicts A (Decision A)
  judge_confirmed now run_id row m r (err e) = (r, err e)
  judge_confirmed now run_id row m r (ok (_, after)) =
      if is_at_least sharpe_promotion_floor m.sharpe_ratio
      then applied after (promote_to_full row.profile_name m.sharpe_ratio now (some run_id) after) (
          decision_on row m promote full none false
            (above_floor m.sharpe_ratio m.trade_count m.profit_factor))
      else (
        after,
        ok (
            decision_on row m hold row.state none false
              (below_floor m.sharpe_ratio m.trade_count m.profit_factor)),
      )

  unfoldable pub judge_probation :
      Moment → ℕ → Entrant A → Metrics A → Roster A → Verdicts A (Decision A)
  judge_probation now run_id row m r =
      judge_confirmed now run_id row m r (confirm_paper_30 row.profile_name now r)

  -- The compound rule, on the number of ranks and the strikes with this one.
  unfoldable pub judge_struck :
      Moment → ℕ → Entrant A → Metrics A → ℕ → ℕ → ℕ → Roster A → Verdicts A (Decision A)
  judge_struck now run_id row m rank count streak r =
      if leb demotion_sustain_evaluations streak
      then applied r
          (Pipeline.retire row.profile_name (demoted rank count m.sharpe_ratio streak)
            m.sharpe_ratio now (some run_id) r)
          (decision_on row m retire retired (some rank) true
            (demotion (demoted rank count m.sharpe_ratio streak)))
      else (
        r,
        ok (
            decision_on row m hold row.state (some rank) true
              (demotion_strike streak rank count m.sharpe_ratio)),
      )

  abbrev pub judge_ranked :
      Moment
      → ℕ
      → List (Recorded A)
      → List (String × ℕ)
      → Entrant A
      → Metrics A
      → Result ℕ
      → Roster A
      → Verdicts A (Decision A)
  judge_ranked now run_id decisions ranks row m (err e) r = (r, err e)
  judge_ranked now run_id decisions ranks row m (ok rank) r =
      if is_worst rank ranks && is_below sharpe_demotion_floor m.sharpe_ratio
      then judge_struck now run_id row m rank (length ranks)
          (consecutive_prior_strikes row.profile_name decisions + 1) r
      else (
        r,
        ok (
            decision_on row m hold row.state (some rank) false
              (no_rule_fired rank (length ranks) m.sharpe_ratio m.profit_factor)),
      )

  -- One round of the loop over the active strategies; what is not on probation is full.
  abbrev pub judge_eligible :
      Moment
      → ℕ
      → List (Recorded A)
      → List (String × ℕ)
      → State
      → Entrant A
      → Metrics A
      → Roster A
      → Verdicts A (Decision A)
  judge_eligible now run_id decisions ranks probation row m r = judge_probation now run_id row m r
  judge_eligible now run_id decisions ranks _ row m r =
      judge_ranked now run_id decisions ranks row m (rank_of row.profile_name ranks) r

  unfoldable pub judge_active :
      Moment
      → ℕ
      → List (Recorded A)
      → List (String × ℕ)
      → Judged A
      → Roster A
      → Verdicts A (Decision A)
  unfolding judge_probation judge_struck consecutive_prior_strikes
  judge_active now run_id decisions ranks (row, m) r =
      if ltb m.trade_count min_trades_for_judging
      then (r, ok (decision_on row m hold row.state none false (not_judged m.trade_count)))
      else judge_eligible now run_id decisions ranks row.state row m r

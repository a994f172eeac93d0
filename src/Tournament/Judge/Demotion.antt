-- ===== src/Tournament/Judge/Demotion.antt =====
-- What trader/tournament/judge.py asks before it retires a strategy.
use trader_pxg.Base.{
  ℕ, String, ◌+◌, ◌≤◌, ◌≡◌, refl, Bool, true, false, ◌&&◌, ◌||◌, Option, none, some, List, [], ◌∷◌,
  Float, IsTotalOrder, Result, ok, err, keep_if, leb, ltb, length, Bool-cases, inl, inr, All,
  All-append, All-every, All-map, All-keep_if, arith, ok-injective, >>=-eq-ok-parts, ap,
}
use mathlib.Core.Path.{subst, ◌∙◌}
use trader_pxg.Paper.Store.{Db}
use trader_pxg.Backtest.Metrics.{Metrics}
use trader_pxg.Tournament.Frozen.{
  demotion_sustain_evaluations, min_trades_for_judging, sharpe_promotion_floor,
  sharpe_demotion_floor,
}
use trader_pxg.Tournament.Registry.{
  Moment, State, candidate, probation, full, retired, demoted, Entrant, Roster, is_live,
  get_registry_rows,
}
use trader_pxg.Tournament.Pipeline.{
  is_absent, is_below, promote_to_probation, promote_to_full, confirm_paper_30,
}
use trader_pxg.Tournament.Pipeline
use trader_pxg.Tournament.Judge.{
  promote, retire, demotion, above_floor, decision_on, Decision, Recorded, Judged, Verdicts,
  consecutive_prior_strikes, applied, admitted_or_queued, is_cap_exceeded, judge_candidate,
  is_at_least, judge_confirmed, judge_probation, judge_struck, judge_ranked, judge_eligible,
  judge_active, rank_of, worst_rank, is_rank, is_worst, rank_full_strategies, is_eligible,
  judge_strategy,
}
use trader_pxg.Tournament.Judge.Rows.{All-kept}
use trader_pxg.Tournament.Judge.Ranking.{
  AreMeasured, IsNoneBelow, rank_of-worst, length-rank_full_strategies,
}
use trader_pxg.Tournament.Judge.Run.{
  Bench, RunSummary, one_decision, extended, then_loop, rounds, concluded, judge_all, decide,
  run_judged, run_tournament_once, is_candidate, run_opened, next_run_id, registry_states,
}

-- The conditions of the compound rule as the loop tests them, on the ranks of this run.
record IsStruck {A : Type 0} ⦃f : Float A⦄ (db : Db A) (decisions : List (Recorded A))
    (ranks : List (String × ℕ)) (d : Decision A) : Type 0 where
  metrics : Metrics A
  rank : ℕ
  measured : judge_strategy d.profile_name db ≡ ok metrics
  own_sharpe : d.sharpe ≡ metrics.sharpe_ratio
  own_rank : rank_of d.profile_name ranks ≡ ok rank
  decided_rank : d.rank ≡ some rank
  was_full : d.prior_state ≡ full
  below_floor : is_below sharpe_demotion_floor metrics.sharpe_ratio ≡ true
  ranked_worst : some rank ≡ worst_rank ranks
  not_alone : 2 ≤ length ranks
  three_strikes : 3 ≤ consecutive_prior_strikes d.profile_name decisions

-- What is due, on the eligible full strategies with their metrics: the last of the ranks, and a
-- Sharpe ratio under the floor that none of the others is worse than.
pub record IsDue {A : Type 0} ⦃f : Float A⦄ (db : Db A) (decisions : List (Recorded A))
    (eligible : List (Judged A)) (d : Decision A) : Type 0 where
  pub metrics : Metrics A
  pub measured : judge_strategy d.profile_name db ≡ ok metrics
  pub own_sharpe : d.sharpe ≡ metrics.sharpe_ratio
  pub was_full : d.prior_state ≡ full
  pub below_floor : is_below sharpe_demotion_floor metrics.sharpe_ratio ≡ true
  pub own_rank : rank_of d.profile_name (rank_full_strategies eligible) ≡ ok (length eligible)
  pub decided_rank : d.rank ≡ some (length eligible)
  pub not_alone : 2 ≤ length eligible
  pub none_worse : IsNoneBelow eligible metrics
  pub three_strikes : 3 ≤ consecutive_prior_strikes d.profile_name decisions

module _ {A : Type 0} ⦃f : Float A⦄ (db : Db A) (decisions : List (Recorded A))
    (ranks : List (String × ℕ)) where
  abbrev IsJust : Decision A → Type 0
  IsJust d = d.decision ≡ retire → IsStruck db decisions ranks d

  -- Of the decision that a round comes to, if it does not raise.
  abbrev Decides : Result (Decision A) → Type 0
  Decides (err e) = Unit
  Decides (ok d) = IsJust d

  record Justified (v : Verdicts A (Decision A)) : Type 0 where
    just : Decides v.1

  applied-Justified :
      (r : Roster A) (m : Result (Roster A)) (d : Decision A) → IsJust d → Justified (applied r m d)
  applied-Justified r (ok after) d h = record { just = h }
  applied-Justified r (err e) d h = record { just = tt }

  queued-Justified :
      (row : Entrant A) (r : Roster A) (m : Result (Roster A))
      → Justified (admitted_or_queued row r m)
  queued-Justified row r (ok after) = record { just = λ e. cc }
  queued-Justified row r (err e) = elim (Bool-cases (is_cap_exceeded e)) [
    | inl cap ↦ record { just = rw cap (λ h. cc) }
    | inr other ↦ record { just = rw other tt }
  ]

  judge_candidate-Justified :
      (now : Moment) (run_id : ℕ) (row : Entrant A) (r : Roster A)
      → Justified (judge_candidate now run_id row r)
  unfolding judge_candidate
  judge_candidate-Justified now run_id row r =
      elim (Bool-cases (is_absent row.backtest_run_id || is_absent row.oos_result_ref)) [
        | inl e ↦ rw e (record { just = λ h. cc })
        | inr e ↦
            rw e
              (queued-Justified row r (promote_to_probation row.profile_name now (some run_id) r))
      ]

  confirmed-Justified :
      (now : Moment) (run_id : ℕ) (row : Entrant A) (m : Metrics A) (r : Roster A)
      (answer : Result (Bool × Roster A))
      → Justified (judge_confirmed now run_id row m r answer)
  confirmed-Justified now run_id row m r (err e) = record { just = tt }
  confirmed-Justified now run_id row m r (ok (confirmed, after)) =
      elim (Bool-cases (is_at_least sharpe_promotion_floor m.sharpe_ratio)) [
        | inl e ↦ rw e (
            applied-Justified after
              (promote_to_full row.profile_name m.sharpe_ratio now (some run_id) after)
              (decision_on row m promote full none false
                (above_floor m.sharpe_ratio m.trade_count m.profit_factor))
              (λ h. cc))
        | inr e ↦ rw e (record { just = λ h. cc })
      ]

  struck-Justified :
      (now : Moment) (run_id : ℕ) (row : Entrant A) (m : Metrics A) (rank : ℕ) (r : Roster A)
      → judge_strategy row.profile_name db ≡ ok m
      → rank_of row.profile_name ranks ≡ ok rank
      → row.state ≡ full
      → is_below sharpe_demotion_floor m.sharpe_ratio ≡ true
      → is_worst rank ranks ≡ true
      → Justified (
          judge_struck now run_id row m rank
            (length ranks)
            (consecutive_prior_strikes row.profile_name decisions + 1)
            r)
  unfolding judge_struck
  struck-Justified now run_id row m rank r own ranked was_full below worst =
      let streak = consecutive_prior_strikes row.profile_name decisions + 1 in
      let reason = demoted rank (length ranks) m.sharpe_ratio streak in
      elim (Bool-cases (leb demotion_sustain_evaluations streak)) [
        | inl e ↦ rw e (
            applied-Justified r
              (Pipeline.retire row.profile_name reason m.sharpe_ratio now (some run_id) r)
              (decision_on row m retire retired (some rank) true (demotion reason))
              (λ h. record {
                metrics = m;
                rank = rank;
                measured = own;
                own_sharpe = refl;
                own_rank = ranked;
                decided_rank = refl;
                was_full = was_full;
                below_floor = below;
                ranked_worst = rank-worst rank (worst_rank ranks) (ground arith);
                not_alone = ground arith;
                three_strikes = ground arith;
              }))
        | inr e ↦ rw e (record { just = λ h. cc })
      ]
    where
      rank-worst : (rank : ℕ) (worst : Option ℕ) → is_rank rank worst ≡ true → some rank ≡ worst
      rank-worst rank none h = cc
      rank-worst rank (some worst) h = ground arith

  ranked-Justified :
      (now : Moment) (run_id : ℕ) (row : Entrant A) (m : Metrics A) (rank : Result ℕ) (r : Roster A)
      → judge_strategy row.profile_name db ≡ ok m
      → rank_of row.profile_name ranks ≡ rank
      → row.state ≡ full
      → Justified (judge_ranked now run_id decisions ranks row m rank r)
  ranked-Justified now run_id row m (err e) r own ranked was_full = record { just = tt }
  ranked-Justified now run_id row m (ok rank) r own ranked was_full =
      elim (Bool-cases (is_worst rank ranks && is_below sharpe_demotion_floor m.sharpe_ratio)) [
        | inl e ↦ rw e (
            struck-Justified now run_id row m rank r own ranked was_full (ground arith)
              (ground arith))
        | inr e ↦ rw e (record { just = λ h. cc })
      ]

  active-Justified :
      (now : Moment) (run_id : ℕ) (row : Entrant A) (m : Metrics A) (r : Roster A) (s : State)
      → judge_strategy row.profile_name db ≡ ok m
      → row.state ≡ s
      → is_live row ≡ true
      → Justified (judge_eligible now run_id decisions ranks s row m r)
  unfolding judge_probation
  active-Justified now run_id row m r probation own e live =
      confirmed-Justified now run_id row m r (confirm_paper_30 row.profile_name now r)
  active-Justified now run_id row m r full own e live =
      ranked-Justified now run_id row m (rank_of row.profile_name ranks) r own refl e
  active-Justified now run_id row m r candidate own e live = cc
  active-Justified now run_id row m r retired own e live = cc

  judge_active-Justified :
      (now : Moment) (run_id : ℕ) (x : Judged A) (r : Roster A)
      → judge_strategy x.0.profile_name db ≡ ok x.1
      → is_live x.0 ≡ true
      → Justified (judge_active now run_id decisions ranks x r)
  unfolding judge_active
  judge_active-Justified now run_id (row, m) r own live =
      elim (Bool-cases (ltb m.trade_count min_trades_for_judging)) [
        | inl e ↦ rw e (record { just = λ h. cc })
        | inr e ↦ rw e (active-Justified now run_id row m r row.state own refl live)
      ]

  -- Of the decisions of a loop.
  abbrev AllJust : Result (List (Decision A)) → Type 0
  AllJust (err e) = Unit
  AllJust (ok ds) = All IsJust ds

  one-AllJust : (v : Verdicts A (Decision A)) → Justified v → AllJust (one_decision v).1
  one-AllJust (r, ok d) h = (h.just, tt)
  one-AllJust (r, err e) h = tt

  extended-AllJust :
      (ds : List (Decision A)) (v : Verdicts A (List (Decision A)))
      → All IsJust ds
      → AllJust v.1
      → AllJust (extended ds v).1
  extended-AllJust ds (r, ok more) h k = All-append IsJust ds more h k
  extended-AllJust ds (r, err e) h k = tt

  then-AllJust :
      (v : Verdicts A (List (Decision A))) (rest : Roster A → Verdicts A (List (Decision A)))
      → AllJust v.1
      → ((r : Roster A) → AllJust (rest r).1)
      → AllJust (then_loop v rest).1
  then-AllJust (r, ok ds) rest h k = extended-AllJust ds (rest r) h (k r)
  then-AllJust (r, err e) rest h k = tt

  rounds-AllJust :
      {X : Type 0} (judge : X → Roster A → Verdicts A (Decision A)) (xs : List X)
      → All (λ x. (r : Roster A) → Justified (judge x r)) xs
      → (r : Roster A) → AllJust (rounds judge xs r).1
  rounds-AllJust judge [] each r = tt
  rounds-AllJust judge (x ∷ xs) each r =
      then-AllJust (one_decision (judge x r)) (rounds judge xs) (one-AllJust (judge x r) (each.0 r))
        (rounds-AllJust judge xs each.1)

module _ {A : Type 0} ⦃f : Float A⦄ where
  abbrev IsActive : Db A → Judged A → Type 0
  IsActive db x = (judge_strategy x.0.profile_name db ≡ ok x.1) × (is_live x.0 ≡ true)

  judge_all-IsActive :
      (db : Db A) (rows : List (Entrant A)) (judged : List (Judged A))
      → judge_all db rows ≡ ok judged
      → All (λ row. is_live row ≡ true) rows
      → All (IsActive db) judged
  judge_all-IsActive db [] judged h live = subst (All _) (ok-injective h) tt
  judge_all-IsActive db (row ∷ rows) judged h (live, lives) =
      let (m, first, rest) = >>=-eq-ok-parts (judge_strategy row.profile_name db) _ h in
      let (more, others, last) = >>=-eq-ok-parts (judge_all db rows) _ rest in
      subst (All (IsActive db)) (ok-injective last)
        ((first, live), judge_all-IsActive db rows more others lives)

  decide-AllJust :
      (now : Moment) (run_id : ℕ) (decisions : List (Recorded A)) (judged : List (Judged A))
      (candidates : List (Entrant A)) (db : Db A) (r : Roster A)
      → All (IsActive db) judged
      → AllJust db decisions
          (rank_full_strategies (keep_if is_eligible judged))
          (decide now run_id decisions judged candidates r).1
  unfolding decide
  decide-AllJust now run_id decisions judged candidates db r active =
      let ranks = rank_full_strategies (keep_if is_eligible judged) in
      then-AllJust db decisions ranks (rounds (judge_active now run_id decisions ranks) judged r)
        (rounds (judge_candidate now run_id) candidates)
        (rounds-AllJust db decisions ranks _ judged
          (All-map (λ x h r. judge_active-Justified db decisions ranks now run_id x r h.0 h.1)
            judged active)
          r)
        (rounds-AllJust db decisions ranks _ candidates (
          All-every (λ row r. judge_candidate-Justified db decisions ranks now run_id row r)
            candidates))

  module _ (o : IsTotalOrder f) where
    struck-IsDue :
        (db : Db A) (decisions : List (Recorded A)) (eligible : List (Judged A)) (d : Decision A)
        → AreMeasured db eligible
        → IsStruck db decisions (rank_full_strategies eligible) d
        → IsDue db decisions eligible d
    struck-IsDue db decisions eligible d measured s =
        let (last, none_worse) =
          rank_of-worst o db eligible d.profile_name s.metrics s.rank measured s.measured s.own_rank
            s.ranked_worst in
        record {
          metrics = s.metrics;
          measured = s.measured;
          own_sharpe = s.own_sharpe;
          was_full = s.was_full;
          below_floor = s.below_floor;
          own_rank = s.own_rank ∙ ap ok last;
          decided_rank = s.decided_rank ∙ ap some last;
          not_alone = omega (arith, s.not_alone, length-rank_full_strategies eligible);
          none_worse = none_worse;
          three_strikes = s.three_strikes;
        }

    -- In a run of the tournament that returns, with the metrics of the active strategies, a
    -- strategy is retired only if it was full, the Sharpe ratio of its own trades is undefined or
    -- below the floor, the three latest decisions on it (or more) were strikes, and among the
    -- eligible full strategies, of which there are at least two, its rank is the last and none is
    -- worse by Sharpe ratio and then profit factor. It assumes that the floats are totally ordered.
    pub run_tournament_once-IsDue :
        (digest : List (String × State) → String) (le : String → String → Bool) (now : Moment)
        (b after : Bench A) (s : RunSummary A) (judged : List (Judged A))
        → judge_all b.roster.paper (keep_if is_live (get_registry_rows le b.roster)) ≡ ok judged
        → run_tournament_once true digest le now b ≡ (after, ok s)
        → All
            (λ (d : Decision A).
              d.decision ≡ retire → IsDue b.roster.paper b.decisions (keep_if is_eligible judged) d)
            s.decisions
    unfolding run_tournament_once
    run_tournament_once-IsDue digest le now b after s judged measured ran =
        All-map
          (λ d struck retires.
            struck-IsDue b.roster.paper b.decisions (keep_if is_eligible judged) d
              (All-kept (λ (x : Judged A). judge_strategy x.0.profile_name b.roster.paper ≡ ok x.1)
                is_eligible judged (All-map (λ x h. h.0) judged active))
              (struck retires))
          s.decisions
          (concluded-AllJust
            (decide now _ b.decisions judged (keep_if is_candidate (get_registry_rows le b.roster))
              b.roster)
            (decide-AllJust now _ b.decisions judged
              (keep_if is_candidate (get_registry_rows le b.roster)) b.roster.paper b.roster active)
            (subst (λ answer. run_judged digest le now b answer ≡ (after, ok s)) measured ran))
      where
        active : All (IsActive b.roster.paper) judged
        active =
            judge_all-IsActive b.roster.paper (keep_if is_live (get_registry_rows le b.roster))
              judged measured (All-keep_if is_live (get_registry_rows le b.roster))

        concluded-AllJust :
            (v : Verdicts A (List (Decision A)))
            → AllJust b.roster.paper b.decisions
                (rank_full_strategies (keep_if is_eligible judged))
                v.1
            → concluded digest le
                (next_run_id b.runs)
                (digest (registry_states le b.roster))
                (run_opened digest le now judged b)
                v
              ≡ (after, ok s)
            → All
                (IsJust b.roster.paper b.decisions
                  (rank_full_strategies (keep_if is_eligible judged)))
                s.decisions
        concluded-AllJust (r, ok ds) h e =
            subst
              (All (
                IsJust b.roster.paper b.decisions
                  (rank_full_strategies (keep_if is_eligible judged))))
              (ap (λ (x : RunSummary A). x.decisions) (ok-injective (ap (λ x. x.1) e))) h
        concluded-AllJust (r, err e) h k = cc

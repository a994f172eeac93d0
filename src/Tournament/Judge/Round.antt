-- ===== src/Tournament/Judge/Round.antt =====
-- A round of trader/tournament/judge.py on a row as the registry has it: it does not raise, its
-- decision states what the registry then says of that strategy, and the others are as before.
use mathlib.Core.Option
use trader_pxg.Base.{
  ℕ, String, ◌+◌, ◌≡◌, refl, ap, ◌∙◌, Bool, true, false, ◌&&◌, ◌||◌, Option, none, some, List, ◌==◌,
  leb, ltb, Bool-cases, inl, inr, arith, Float, IsTotalOrder, Result, ok, err, cap_exceeded,
}
use trader_pxg.Backtest.Metrics.{Metrics}
use trader_pxg.Paper.Store.{Db, PaperTrade, tournament_demotion}
use trader_pxg.Paper.Ledger.{retire_strategy}
use trader_pxg.Tournament.Frozen.{
  min_trades_for_judging, max_active_strategies, max_new_entrants_per_quarter,
  sharpe_promotion_floor, sharpe_demotion_floor, demotion_sustain_evaluations,
}
use trader_pxg.Tournament.Registry.{
  Moment, State, candidate, probation, full, retired, Grounds, admitted, promoted, demoted, Entrant,
  Roster, is_live,
}
use trader_pxg.Tournament.Pipeline
use trader_pxg.Tournament.Pipeline.{
  is_absent, moved, transition, stamped, set_paper_30, active_count, entrants_this_quarter,
  promote_to_probation, closed_trades, confirm_paper_30, is_below, promote_to_full,
}
use trader_pxg.Tournament.Pipeline.Lookup.{row_of, state_of, row_of-stamped, row_of-moved}
use trader_pxg.Tournament.Entrant.Progress.{
  get_row-eq, stamped-row, moved-row, promote_to_probation-eq, confirm_paper_30-eq,
  promote_to_full-eq,
}
use trader_pxg.Tournament.Judge.{
  promote, retire, hold, enter, demotion, above_floor, below_floor, evidence_verified, Decision,
  Recorded, Verdicts, decision_on, decision_on_candidate, applied, admitted_or_queued,
  judge_candidate, is_at_least, judge_confirmed, judge_probation, judge_struck, judge_ranked,
  judge_eligible, judge_active, rank_of, is_worst,
}

module _ {A : Type 0} where
  -- Only the row of `name` may differ.
  abbrev pub KeepsOthers : String → Roster A → Roster A → Type 0
  KeepsOthers name r after =
      (other : String) → name == other ≡ false → row_of other after ≡ row_of other r

  abbrev trades_of : Roster A → List (PaperTrade A)
  trades_of r = r.paper.trades

  pub record Settled (name : String) (r : Roster A) (v : Verdicts A (Decision A)) : Type 0 where
    pub decision : Decision A
    pub answered : v.1 ≡ ok decision
    pub named : decision.profile_name ≡ name
    pub stated : state_of name v.0 ≡ some decision.new_state
    pub others : KeepsOthers name r v.0
    pub trades_kept : trades_of v.0 ≡ trades_of r

  held :
      (name : String) (r : Roster A) (d : Decision A)
      → d.profile_name ≡ name
      → state_of name r ≡ some d.new_state
      → Settled name r (r, ok d)
  held name r d named stated = record {
    decision = d;
    answered = refl;
    named = named;
    stated = stated;
    others = λ other e. refl;
    trades_kept = refl;
  }

  applied-Settled :
      (name : String) (r after : Roster A) (m : Result (Roster A)) (d : Decision A)
      → m ≡ ok after
      → d.profile_name ≡ name
      → state_of name after ≡ some d.new_state
      → KeepsOthers name r after
      → trades_of after ≡ trades_of r
      → Settled name r (applied r m d)
  applied-Settled name r after m d h named stated others trades = rw h (record {
    decision = d;
    answered = refl;
    named = named;
    stated = stated;
    others = others;
    trades_kept = trades;
  })

  moved-others :
      (name : String) (from to : State) (reason : Grounds A) (ts : Moment) (run_id : Option ℕ)
      (r : Roster A)
      → KeepsOthers name r (moved name from to reason ts run_id r)
  moved-others name from to reason ts run_id r other e =
      ground (arith, row_of-moved other name from to reason ts run_id r)

  moved-trades :
      (name : String) (from to : State) (reason : Grounds A) (ts : Moment) (run_id : Option ℕ)
      (r : Roster A)
      → trades_of (moved name from to reason ts run_id r) ≡ trades_of r
  unfolding moved
  moved-trades name from to reason ts run_id r = refl

  state_of-moved :
      (name : String) (from to : State) (reason : Grounds A) (ts : Moment) (run_id : Option ℕ)
      (r : Roster A) (row : Entrant A)
      → row_of name r ≡ some row
      → state_of name (moved name from to reason ts run_id r) ≡ some to
  state_of-moved name from to reason ts run_id r row there =
      ap (Option.map (λ (row : Entrant A). row.state))
        (moved-row name from to reason ts run_id r row there)

  state_of-row :
      (name : String) (r : Roster A) (row : Entrant A) (s : State)
      → row_of name r ≡ some row
      → row.state ≡ s
      → state_of name r ≡ some s
  state_of-row name r row s there e = ground arith

  -- Once there are thirty run_closed trades the confirmation is there, and nothing else has changed.
  record Confirmed (name : String) (r : Roster A) (row : Entrant A) (m : Result (Bool × Roster A))
      : Type 0 where
    after : Roster A
    answered : m ≡ ok (true, after)
    row_after : Entrant A
    there : row_of name after ≡ some row_after
    same_state : row_after.state ≡ row.state
    confirmed : is_absent row_after.paper_30_confirmed_at ≡ false
    others : KeepsOthers name r after
    trades_kept : trades_of after ≡ trades_of r

  confirm_paper_30-Confirmed :
      (name : String) (now : Moment) (r : Roster A) (row : Entrant A) (stamp : Option Moment)
      → row_of name r ≡ some row
      → row.paper_30_confirmed_at ≡ stamp
      → ltb (closed_trades name r) min_trades_for_judging ≡ false
      → Confirmed name r row (confirm_paper_30 name now r)
  unfolding stamped
  confirm_paper_30-Confirmed name now r row none there unset enough = record {
    after = stamped name (set_paper_30 now) r;
    answered = confirm_paper_30-eq name now r row there unset enough;
    row_after = set_paper_30 now row;
    there = stamped-row name (set_paper_30 now) r row (λ x. unfold set_paper_30 in refl) there;
    same_state = unfold set_paper_30 in refl;
    confirmed = unfold set_paper_30 in refl;
    others = λ other e.
        ground (
          arith,
          row_of-stamped other name (set_paper_30 now) r (λ x. unfold set_paper_30 in refl),
        );
    trades_kept = refl;
  }
  confirm_paper_30-Confirmed name now r row (some ts) there set enough = record {
    after = r;
    answered = unfold confirm_paper_30 in rw (get_row-eq name r row there, set) refl;
    row_after = row;
    there = there;
    same_state = refl;
    confirmed = rw set refl;
    others = λ other e. refl;
    trades_kept = refl;
  }

  retire-trades :
      (name : String) (trigger_value : Option A) (db : Db A)
      → (retire_strategy name tournament_demotion trigger_value db).trades ≡ db.trades
  unfolding retire_strategy
  retire-trades name trigger_value db = ground arith

  -- A demotion of a full strategy.
  retire-eq :
      (name : String) (reason : Grounds A) (trigger_value : Option A) (now : Moment)
      (run_id : Option ℕ) (r : Roster A) (row : Entrant A)
      → row_of name r ≡ some row
      → row.state ≡ full
      → Pipeline.retire name reason trigger_value now run_id r
        ≡ ok (record (moved name full retired reason now run_id r) {
          paper =
              retire_strategy name tournament_demotion trigger_value
                (moved name full retired reason now run_id r).paper;
        })
  unfolding Pipeline.retire transition
  retire-eq name reason trigger_value now run_id r row there e =
      rw (get_row-eq name r row there, e) refl

  -- Neither cap has room.
  promote_to_probation-capped :
      (name : String) (now : Moment) (run_id : Option ℕ) (r : Roster A) (row : Entrant A)
      → row_of name r ≡ some row
      → (is_absent row.backtest_run_id || is_absent row.oos_result_ref) ≡ false
      → (leb max_active_strategies (active_count r)
          || leb max_new_entrants_per_quarter (entrants_this_quarter now r))
        ≡ true
      → promote_to_probation name now run_id r ≡ err cap_exceeded
  unfolding promote_to_probation
  promote_to_probation-capped name now run_id r row there proof full_up =
      ground (arith, get_row-eq name r row there)

  admitted-Settled :
      (now : Moment) (run_id : ℕ) (row : Entrant A) (r : Roster A)
      → row_of row.profile_name r ≡ some row
      → row.state ≡ candidate
      → (is_absent row.backtest_run_id || is_absent row.oos_result_ref) ≡ false
      → (leb max_active_strategies (active_count r)
          || leb max_new_entrants_per_quarter (entrants_this_quarter now r))
        ≡ false
      → Settled row.profile_name r
          (admitted_or_queued row r (promote_to_probation row.profile_name now (some run_id) r))
  admitted-Settled now run_id row r there new proof room =
      let name = row.profile_name in
      let reason : Grounds A =
        admitted row.backtest_run_id row.oos_result_ref (active_count r + 1)
          (entrants_this_quarter now r + 1) in
      rw
        (promote_to_probation-eq name now (some run_id) r row there new (ground arith)
          (ground arith) (ground arith) (ground arith))
        (record {
          decision =
              decision_on_candidate row enter probation
                (evidence_verified row.backtest_run_id row.oos_result_ref);
          answered = refl;
          named = refl;
          stated = state_of-moved name candidate probation reason now (some run_id) r row there;
          others = moved-others name candidate probation reason now (some run_id) r;
          trades_kept = moved-trades name candidate probation reason now (some run_id) r;
        })

  pub judge_candidate-Settled :
      (now : Moment) (run_id : ℕ) (row : Entrant A) (r : Roster A)
      → row_of row.profile_name r ≡ some row
      → row.state ≡ candidate
      → Settled row.profile_name r (judge_candidate now run_id row r)
  unfolding judge_candidate
  judge_candidate-Settled now run_id row r there new =
      let name = row.profile_name in
      let still = state_of-row name r row candidate there new in
      let full_up =
        leb max_active_strategies (active_count r)
        || leb max_new_entrants_per_quarter (entrants_this_quarter now r) in
      elim (Bool-cases (is_absent row.backtest_run_id || is_absent row.oos_result_ref)) [
        | inl e ↦ rw e (held name r _ refl still)
        | inr e ↦ rw e (elim (Bool-cases full_up) [
          | inl cap ↦
              rw (promote_to_probation-capped name now (some run_id) r row there e cap)
                (held name r _ refl still)
          | inr room ↦ admitted-Settled now run_id row r there new e room
        ])
      ]

module _ {A : Type 0} ⦃f : Float A⦄ where
  is_below-at_least :
      (o : IsTotalOrder f) (floor : A) (sharpe : Option A)
      → is_at_least floor sharpe ≡ true
      → is_below floor sharpe ≡ false
  is_below-at_least o floor none h = cc
  is_below-at_least o floor (some x) h = ground (arith, o.less_not x floor)

  confirmed-Settled :
      (o : IsTotalOrder f) (now : Moment) (run_id : ℕ) (row : Entrant A) (m : Metrics A)
      (r : Roster A) (answer : Result (Bool × Roster A))
      → row.state ≡ probation
      → Confirmed row.profile_name r row answer
      → Settled row.profile_name r (judge_confirmed now run_id row m r answer)
  confirmed-Settled o now run_id row m r answer trial c =
      rw c.answered (elim (Bool-cases (is_at_least sharpe_promotion_floor m.sharpe_ratio)) [
        | inl e ↦ rw e (
            rw
              (promote_to_full-eq name m.sharpe_ratio now (some run_id) c.after c.row_after c.there
                (c.same_state ∙ trial) c.confirmed
                (is_below-at_least o sharpe_promotion_floor m.sharpe_ratio e))
              (record {
                decision =
                    decision_on row m promote full none false
                      (above_floor m.sharpe_ratio m.trade_count m.profit_factor);
                answered = refl;
                named = refl;
                stated =
                    state_of-moved name probation full reason now (some run_id) c.after c.row_after
                      c.there;
                others = λ other e.
                    moved-others name probation full reason now (some run_id) c.after other e
                    ∙ c.others other e;
                trades_kept =
                    moved-trades name probation full reason now (some run_id) c.after
                    ∙ c.trades_kept;
              }))
        | inr e ↦ rw e (record {
          decision =
              decision_on row m hold row.state none false
                (below_floor m.sharpe_ratio m.trade_count m.profit_factor);
          answered = refl;
          named = refl;
          stated = state_of-row name c.after c.row_after row.state c.there c.same_state;
          others = c.others;
          trades_kept = c.trades_kept;
        })
      ])
    where
      name : String
      name = row.profile_name

      reason : Grounds A
      reason = promoted m.sharpe_ratio c.row_after.paper_30_confirmed_at

  struck-Settled :
      (now : Moment) (run_id : ℕ) (row : Entrant A) (m : Metrics A) (rank count streak : ℕ)
      (r : Roster A)
      → row_of row.profile_name r ≡ some row
      → row.state ≡ full
      → Settled row.profile_name r (judge_struck now run_id row m rank count streak r)
  unfolding judge_struck retire_strategy
  struck-Settled now run_id row m rank count streak r there was_full =
      let name = row.profile_name in
      let reason = demoted rank count m.sharpe_ratio streak in
      let after = moved name full retired reason now (some run_id) r in
      elim (Bool-cases (leb demotion_sustain_evaluations streak)) [
        | inl e ↦ rw e (
            applied-Settled name r
              (record after {
                paper = retire_strategy name tournament_demotion m.sharpe_ratio after.paper;
              })
              (Pipeline.retire name reason m.sharpe_ratio now (some run_id) r)
              (decision_on row m retire retired (some rank) true (demotion reason))
              (retire-eq name reason m.sharpe_ratio now (some run_id) r row there was_full) refl
              (state_of-moved name full retired reason now (some run_id) r row there)
              (moved-others name full retired reason now (some run_id) r)
              (retire-trades name m.sharpe_ratio after.paper
                ∙ moved-trades name full retired reason now (some run_id) r))
        | inr e ↦ rw e (held name r _ refl (state_of-row name r row row.state there refl))
      ]

  ranked-Settled :
      (now : Moment) (run_id : ℕ) (decisions : List (Recorded A)) (ranks : List (String × ℕ))
      (row : Entrant A) (m : Metrics A) (rank : ℕ) (answer : Result ℕ) (r : Roster A)
      → answer ≡ ok rank
      → row_of row.profile_name r ≡ some row
      → row.state ≡ full
      → Settled row.profile_name r (judge_ranked now run_id decisions ranks row m answer r)
  ranked-Settled now run_id decisions ranks row m rank answer r found there was_full =
      rw found
        (elim (Bool-cases (is_worst rank ranks && is_below sharpe_demotion_floor m.sharpe_ratio)) [
          | inl e ↦ rw e (struck-Settled now run_id row m rank _ _ r there was_full)
          | inr e ↦
              let name = row.profile_name in
              rw e (held name r _ refl (state_of-row name r row row.state there refl))
        ])

  eligible-Settled :
      (o : IsTotalOrder f) (now : Moment) (run_id : ℕ) (decisions : List (Recorded A))
      (ranks : List (String × ℕ)) (row : Entrant A) (m : Metrics A) (r : Roster A) (s : State)
      → row_of row.profile_name r ≡ some row
      → row.state ≡ s
      → is_live row ≡ true
      → ltb (closed_trades row.profile_name r) min_trades_for_judging ≡ false
      → (s ≡ full → (rank : ℕ) × (rank_of row.profile_name ranks ≡ ok rank))
      → Settled row.profile_name r (judge_eligible now run_id decisions ranks s row m r)
  unfolding judge_probation
  eligible-Settled o now run_id decisions ranks row m r probation there e live enough ranked =
      confirmed-Settled o now run_id row m r (confirm_paper_30 row.profile_name now r) e (
        confirm_paper_30-Confirmed row.profile_name now r row row.paper_30_confirmed_at there refl
          enough)
  eligible-Settled o now run_id decisions ranks row m r full there e live enough ranked =
      let (rank, found) = ranked refl in
      ranked-Settled now run_id decisions ranks row m rank _ r found there e
  eligible-Settled o now run_id decisions ranks row m r candidate there e live enough ranked = cc
  eligible-Settled o now run_id decisions ranks row m r retired there e live enough ranked = cc

  pub judge_active-Settled :
      (o : IsTotalOrder f) (now : Moment) (run_id : ℕ) (decisions : List (Recorded A))
      (ranks : List (String × ℕ)) (row : Entrant A) (m : Metrics A) (r : Roster A)
      → row_of row.profile_name r ≡ some row
      → is_live row ≡ true
      → (ltb m.trade_count min_trades_for_judging ≡ false
          → ltb (closed_trades row.profile_name r) min_trades_for_judging ≡ false)
      → (ltb m.trade_count min_trades_for_judging ≡ false
          → row.state ≡ full
          → (rank : ℕ) × (rank_of row.profile_name ranks ≡ ok rank))
      → Settled row.profile_name r (judge_active now run_id decisions ranks (row, m) r)
  unfolding judge_active
  judge_active-Settled o now run_id decisions ranks row m r there live enough ranked =
      let name = row.profile_name in
      elim (Bool-cases (ltb m.trade_count min_trades_for_judging)) [
        | inl e ↦ rw e (held name r _ refl (state_of-row name r row row.state there refl))
        | inr e ↦ rw e (
            eligible-Settled o now run_id decisions ranks row m r row.state there refl live
              (enough e) (ranked e))
      ]

-- ===== src/Tournament/Entrant/Progress.antt =====
-- An approved entrant gets through the checklist of trader/tournament/pipeline.py: each call
-- returns when its conditions are met.
use mathlib.Core.Option
use trader_pxg.Base.{
  ℕ, ◌+◌, String, ◌≡◌, refl, ap, ◌∙◌, true, false, Option, none, some, [], ◌∷◌, ◌++◌, ◌==◌, eq_refl,
  leb, ltb, any, count_if, count_if-append, arith, ok, ◌>>=◌, Float,
}
use trader_pxg.Paper.Store.{Db, PaperTrade}
use trader_pxg.Tournament.Frozen.{
  min_trades_for_judging, max_active_strategies, max_new_entrants_per_quarter,
  sharpe_promotion_floor,
}
use trader_pxg.Tournament.Registry.{
  Moment, State, candidate, probation, full, Grounds, admitted, promoted, Entrant, Roster, is_named,
  is_live, get_row,
}
use trader_pxg.Tournament.Pipeline.{
  is_absent, moved, transition, entered, new_candidate, register_candidate, stamped, set_backtest,
  set_oos, set_paper_30, write_once, stamp_backtest, stamp_oos, active_count, entrants_this_quarter,
  promote_to_probation, closed_trades, confirm_paper_30, is_below, promote_to_full,
}
use trader_pxg.Tournament.Pipeline.Lookup.{
  row_of, state_of, to_state, row_of-entered, row_of-stamped, row_of-moved, find-eq-none,
}
use trader_pxg.Tournament.Pipeline.Caps.{count-update_state}
use trader_pxg.Tournament.Entrant.{Survivor, profile_of, enter_survivor}

module _ {A : Type 0} where
  -- What an operation needs of a row that is there.
  pub get_row-eq :
      (name : String) (r : Roster A) (row : Entrant A)
      → row_of name r ≡ some row
      → get_row name r ≡ ok row
  unfolding get_row
  get_row-eq name r row h = ground arith

  -- The row of a name that an UPDATE of that name changes.
  pub stamped-row :
      (name : String) (g : Entrant A → Entrant A) (r : Roster A) (row : Entrant A)
      → ((x : Entrant A) → (g x).profile_name ≡ x.profile_name)
      → row_of name r ≡ some row
      → row_of name (stamped name g r) ≡ some (g row)
  stamped-row name g r row kept h = ground (arith, row_of-stamped name name g r kept, eq_refl name)

  pub moved-row :
      (name : String) (from to : State) (reason : Grounds A) (ts : Moment) (run_id : Option ℕ)
      (r : Roster A) (row : Entrant A)
      → row_of name r ≡ some row
      → row_of name (moved name from to reason ts run_id r) ≡ some (to_state to ts row)
  moved-row name from to reason ts run_id r row h =
      ground (arith, row_of-moved name name from to reason ts run_id r, eq_refl name)

  abbrev row_for : Survivor A → Moment → Entrant A
  row_for s now =
      new_candidate s.profile_name s.strategy_id (profile_of s) s.pf_floor s.max_dd_kill
        s.consecutive_loss_kill now s.entry_variant

  register-eq :
      (s : Survivor A) (reason : Grounds A) (now : Moment) (r : Roster A)
      → any (is_named s.profile_name) r.registry ≡ false
      → register_candidate s.profile_name s.strategy_id
          (profile_of s)
          s.pf_floor
          s.max_dd_kill
          s.consecutive_loss_kill
          reason
          now
          s.entry_variant
          r
        ≡ ok (entered (row_for s now) reason r)
  unfolding register_candidate
  register-eq s reason now r fresh = rw fresh refl

  stamp_backtest-eq :
      (name : String) (run_id : ℕ) (r : Roster A) (row : Entrant A)
      → row_of name r ≡ some row
      → row.backtest_run_id ≡ none
      → stamp_backtest name run_id r ≡ ok (stamped name (set_backtest run_id) r)
  unfolding stamp_backtest write_once
  stamp_backtest-eq name run_id r row there unset = rw (get_row-eq name r row there, unset) refl

  stamp_oos-eq :
      (name result_ref : String) (r : Roster A) (row : Entrant A)
      → row_of name r ≡ some row
      → row.oos_result_ref ≡ none
      → stamp_oos name result_ref r ≡ ok (stamped name (set_oos result_ref) r)
  unfolding stamp_oos write_once
  stamp_oos-eq name result_ref r row there unset = rw (get_row-eq name r row there, unset) refl

  -- What the roster is after the three calls of a registration.
  enrolled : Survivor A → Grounds A → Moment → Roster A → Roster A
  enrolled s reason now r =
      stamped s.profile_name (set_oos s.oos_result_ref)
        (stamped s.profile_name (set_backtest s.backtest_run_id) (entered (row_for s now) reason r))

  enrolled_row : Survivor A → Moment → Entrant A
  enrolled_row s now = set_oos s.oos_result_ref (set_backtest s.backtest_run_id (row_for s now))

  row_of-entered_self :
      (s : Survivor A) (reason : Grounds A) (now : Moment) (r : Roster A)
      → any (is_named s.profile_name) r.registry ≡ false
      → row_of s.profile_name (entered (row_for s now) reason r) ≡ some (row_for s now)
  row_of-entered_self s reason now r fresh = ground (
    arith,
    row_of-entered s.profile_name (row_for s now) reason r
        (find-eq-none s.profile_name r.registry fresh),
    eq_refl s.profile_name,
  )

  enter_survivor-eq :
      (s : Survivor A) (reason : Grounds A) (now : Moment) (r : Roster A)
      → any (is_named s.profile_name) r.registry ≡ false
      → (enter_survivor s reason now r ≡ ok (enrolled s reason now r))
        × (row_of s.profile_name (enrolled s reason now r) ≡ some (enrolled_row s now))
  unfolding enter_survivor enrolled enrolled_row
  enter_survivor-eq s reason now r fresh =
      let name = s.profile_name in
      let r1 = entered (row_for s now) reason r in
      let there1 = row_of-entered_self s reason now r fresh in
      let r2 = stamped name (set_backtest s.backtest_run_id) r1 in
      let there2 =
        stamped-row name (set_backtest s.backtest_run_id) r1 (row_for s now)
          (λ x. unfold set_backtest in refl) there1 in
      (
        rw
            (
              register-eq s reason now r fresh,
              stamp_backtest-eq name s.backtest_run_id r1 (row_for s now) there1 refl,
              stamp_oos-eq name s.oos_result_ref r2 (set_backtest s.backtest_run_id (row_for s now))
                  there2 (unfold set_backtest in refl),
            )
            refl,
        stamped-row name (set_oos s.oos_result_ref) r2
            (set_backtest s.backtest_run_id (row_for s now)) (λ x. unfold set_oos in refl) there2,
      )

  -- Registration takes no place under either cap.
  enrolled-caps :
      (s : Survivor A) (reason : Grounds A) (now m : Moment) (r : Roster A)
      → (active_count (enrolled s reason now r) ≡ active_count r)
        × (entrants_this_quarter m (enrolled s reason now r) ≡ entrants_this_quarter m r)
  unfolding enrolled active_count entrants_this_quarter stamped entered set_oos set_backtest
  enrolled-caps s reason now m r =
      let rows = r.registry ++ row_for s now ∷ [] in
      (
        count-update_state s.profile_name _ _ (λ row. refl)
            ∙ count-update_state s.profile_name _ rows (λ row. refl)
            ∙ (ground (arith, count_if-append is_live r.registry (row_for s now ∷ []))),
        ground arith,
      )

  pub promote_to_probation-eq :
      (name : String) (now : Moment) (run_id : Option ℕ) (r : Roster A) (row : Entrant A)
      → row_of name r ≡ some row
      → row.state ≡ candidate
      → is_absent row.backtest_run_id ≡ false
      → is_absent row.oos_result_ref ≡ false
      → leb max_active_strategies (active_count r) ≡ false
      → leb max_new_entrants_per_quarter (entrants_this_quarter now r) ≡ false
      → promote_to_probation name now run_id r
        ≡ ok (
            moved name candidate probation
              (admitted row.backtest_run_id row.oos_result_ref
                (active_count r + 1)
                (entrants_this_quarter now r + 1))
              now
              run_id
              r)
  unfolding promote_to_probation transition
  promote_to_probation-eq name now run_id r row there new backtest oos room pace =
      ground (arith, get_row-eq name r row there)

  pub confirm_paper_30-eq :
      (name : String) (now : Moment) (r : Roster A) (row : Entrant A)
      → row_of name r ≡ some row
      → row.paper_30_confirmed_at ≡ none
      → ltb (closed_trades name r) min_trades_for_judging ≡ false
      → confirm_paper_30 name now r ≡ ok (true, stamped name (set_paper_30 now) r)
  unfolding confirm_paper_30
  confirm_paper_30-eq name now r row there unset enough =
      rw (get_row-eq name r row there, unset, enough) refl

module _ {A : Type 0} ⦃f : Float A⦄ where
  pub promote_to_full-eq :
      (name : String) (sharpe : Option A) (now : Moment) (run_id : Option ℕ) (r : Roster A)
      (row : Entrant A)
      → row_of name r ≡ some row
      → row.state ≡ probation
      → is_absent row.paper_30_confirmed_at ≡ false
      → is_below sharpe_promotion_floor sharpe ≡ false
      → promote_to_full name sharpe now run_id r
        ≡ ok (moved name probation full (promoted sharpe row.paper_30_confirmed_at) now run_id r)
  unfolding promote_to_full transition
  promote_to_full-eq name sharpe now run_id r row there trial confirmed above =
      ground (arith, get_row-eq name r row there)

  -- An approved survivor whose name is new, under free caps, with enough paper trades made by the
  -- time of its judgement and a Sharpe ratio that is not below the floor: registration, admission,
  -- confirmation and promotion all return, and leave it at 'full'.
  pub survivor-becomes_full :
      (s : Survivor A) (reason : Grounds A) (registered judged : Moment) (run_id : Option ℕ)
      (sharpe : A) (db : Db A) (r : Roster A)
      → any (is_named s.profile_name) r.registry ≡ false
      → leb max_active_strategies (active_count r) ≡ false
      → leb max_new_entrants_per_quarter (entrants_this_quarter registered r) ≡ false
      → ltb
          (count_if (λ (t : PaperTrade A). t.strategy_id == s.profile_name) db.trades)
          min_trades_for_judging
        ≡ false
      → is_below sharpe_promotion_floor (some sharpe) ≡ false
      → (on_trial after : Roster A) × ((enter_survivor s reason registered r
            >>= promote_to_probation s.profile_name registered run_id)
          ≡ ok on_trial)
        × ((confirm_paper_30 s.profile_name judged (record on_trial { paper = db })
              >>= λ (confirmed, r'). promote_to_full s.profile_name (some sharpe) judged run_id r')
            ≡ ok after)
        × (state_of s.profile_name after ≡ some full)
  survivor-becomes_full s reason registered judged run_id sharpe db r fresh room pace traded above =
      let name = s.profile_name in
      let r1 = enrolled s reason registered r in
      let row1 = enrolled_row s registered in
      let (entered_ok, there1) = enter_survivor-eq s reason registered r fresh in
      let (active, entrants) = enrolled-caps s reason registered registered r in
      let grounds =
        admitted row1.backtest_run_id row1.oos_result_ref (active_count r1 + 1)
          (entrants_this_quarter registered r1 + 1) in
      let r2 = moved name candidate probation grounds registered run_id r1 in
      let row2 = to_state probation registered row1 in
      let there2 = moved-row name candidate probation grounds registered run_id r1 row1 there1 in
      let r3 = record r2 { paper = db } in
      let r4 = stamped name (set_paper_30 judged) r3 in
      let row4 = set_paper_30 judged row2 in
      let there4 =
        stamped-row name (set_paper_30 judged) r3 row2 (λ x. unfold set_paper_30 in refl) there2 in
      let last = promoted (some sharpe) row4.paper_30_confirmed_at in
      (
        r2,
        moved name probation full last judged run_id r4,
        rw entered_ok (
            promote_to_probation-eq name registered run_id r1 row1 there1
              (unfold enrolled_row set_oos set_backtest in refl)
              (unfold enrolled_row set_oos set_backtest in refl)
              (unfold enrolled_row set_oos set_backtest in refl) (rw active room)
              (rw entrants pace)),
        rw
            (confirm_paper_30-eq name judged r3 row2 there2
              (unfold enrolled_row set_oos set_backtest in refl) traded)
            (promote_to_full-eq name (some sharpe) judged run_id r4 row4 there4
              (unfold set_paper_30 in refl) (unfold set_paper_30 in refl) above),
        ap (Option.map (λ (row : Entrant A). row.state))
            (moved-row name probation full last judged run_id r4 row4 there4),
      )

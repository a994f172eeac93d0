-- ===== src/Tournament/Pipeline.antt =====
-- trader/tournament/pipeline.py: the checklist that takes a strategy from candidate to retired. A
-- call that raises does so before it writes, so a result is the new roster or the exception. The
-- clock is read once for each call, and given as its time in UTC.
pub mod Lookup
pub mod Change
pub mod Steps
pub mod History
pub mod Evidence
pub mod Lasting
pub mod Life
pub mod Caps
use trader_pxg.Base.{
  ℕ, suc, ◌+◌, ◌*◌, ◌-◌, ◌/◌, String, Bool, true, false, not, ◌&&◌, ◌||◌, Option, none, some, List,
  [], ◌∷◌, ◌++◌, ◌==◌, leb, ltb, nat_eqb, any, count_if, update_where, if◌then◌else◌, Float, ◌≺◌,
  Result, ok, err, ◌>>=◌, value_error, missing_evidence, cap_exceeded, terminal_state,
}
use trader_pxg.Backtest.Config.{ExitProfile}
use trader_pxg.Paper.Store.{tournament_demotion, PaperTrade}
use trader_pxg.Paper.Ledger.{retire_strategy}
use trader_pxg.Tournament.Frozen.{
  min_trades_for_judging, max_active_strategies, max_new_entrants_per_quarter,
  sharpe_promotion_floor,
}
use trader_pxg.Tournament.Registry.{
  Moment, iso_digits, State, candidate, probation, full, retired, Grounds, admitted, promoted,
  Entrant, Transition, Roster, same_state, is_named, is_live, get_row,
}

-- `_VALID_TRANSITIONS`
abbrev pub is_valid : State → State → Bool
is_valid candidate probation = true
is_valid probation full = true
is_valid probation retired = true
is_valid full retired = true
is_valid _ _ = false

abbrev pub is_absent : {B : Type 0} → Option B → Bool
is_absent none = true
is_absent (some b) = false

-- Whether a stamp that is there agrees with a new one.
abbrev pub agrees_with : {B : Type 0} → (B → B → Bool) → B → Option B → Option Bool
agrees_with same new none = none
agrees_with same new (some old) = some (same old new)

-- The first day of the quarter, at midnight.
unfoldable pub quarter_start : Moment → Moment
quarter_start now = record {
  year = now.year;
  month = 3 * ((now.month - 1) / 3) + 1;
  day = 1;
  clock = 0;
}

module _ {A : Type 0} where
  -- The UPDATE of `state` and the INSERT of its transition, in one transaction.
  unfoldable pub moved :
      String → State → State → Grounds A → Moment → Option ℕ → Roster A → Roster A
  moved profile_name from_state to_state reason ts run_id r = record r {
    registry =
        update_where (is_named profile_name)
          (λ row. record row { state = to_state; state_changed_at = ts }) r.registry;
    transitions =
        record {
          ts = ts;
          profile_name = profile_name;
          from_state = some from_state;
          to_state = to_state;
          reason = reason;
          run_id = run_id;
        }
        ∷ r.transitions;
  }

  unfoldable pub transition :
      String → State → Grounds A → Moment → Option ℕ → Roster A → Result (Roster A)
  transition profile_name to_state reason now run_id r = get_row profile_name r >>= λ row.
      if same_state row.state retired
      then err terminal_state
      else if not (is_valid row.state to_state)
      then err value_error
      else ok (moved profile_name row.state to_state reason now run_id r)

  -- The INSERT of a registry row, and of its first transition.
  unfoldable pub entered : Entrant A → Grounds A → Roster A → Roster A
  entered row reason r = record r {
    registry = r.registry ++ row ∷ [];
    transitions =
        record {
          ts = row.entered_at;
          profile_name = row.profile_name;
          from_state = none;
          to_state = row.state;
          reason = reason;
          run_id = none;
        }
        ∷ r.transitions;
  }

  -- The row of a new entrant: no evidence yet.
  abbrev pub new_candidate :
      String → String → ExitProfile A → A → A → ℕ → Moment → String → Entrant A
  new_candidate name strategy exits floor dd_kill loss_kill ts variant = record {
    profile_name = name;
    strategy_id = strategy;
    exit_profile = exits;
    pf_floor = floor;
    max_dd_kill = dd_kill;
    consecutive_loss_kill = loss_kill;
    backtest_run_id = none;
    oos_result_ref = none;
    paper_30_confirmed_at = none;
    entered_at = ts;
    state = candidate;
    state_changed_at = ts;
    entry_variant = variant;
  }

  unfoldable pub register_candidate :
      String
      → String
      → ExitProfile A
      → A
      → A
      → ℕ
      → Grounds A
      → Moment
      → String
      → Roster A
      → Result (Roster A)
  register_candidate name strategy exits floor dd_kill loss_kill reason now variant r =
      if any (is_named name) r.registry
      then err value_error
      else ok
          (entered (new_candidate name strategy exits floor dd_kill loss_kill now variant) reason r)

  -- `UPDATE strategy_registry SET … WHERE profile_name = ?` of a column of evidence.
  unfoldable pub stamped : String → (Entrant A → Entrant A) → Roster A → Roster A
  stamped profile_name stamp r = record r {
    registry = update_where (is_named profile_name) stamp r.registry;
  }

  unfoldable pub set_backtest : ℕ → Entrant A → Entrant A
  set_backtest run_id row = record row { backtest_run_id = some run_id }

  unfoldable pub set_oos : String → Entrant A → Entrant A
  set_oos result_ref row = record row { oos_result_ref = some result_ref }

  unfoldable pub set_paper_30 : Moment → Entrant A → Entrant A
  set_paper_30 now row = record row { paper_30_confirmed_at = some now }

  -- A stamp is written once: `some` is the stamp that is there, with the test against the new one.
  unfoldable pub write_once : Option Bool → Roster A → Roster A → Result (Roster A)
  write_once none r after = ok after
  write_once (some agrees) r after = if agrees then ok r else err value_error

  unfoldable pub stamp_backtest : String → ℕ → Roster A → Result (Roster A)
  stamp_backtest name run_id r = get_row name r >>= λ row.
      write_once (agrees_with nat_eqb run_id row.backtest_run_id) r
        (stamped name (set_backtest run_id) r)

  unfoldable pub stamp_oos : String → String → Roster A → Result (Roster A)
  stamp_oos name result_ref r = get_row name r >>= λ row.
      write_once (agrees_with ◌==◌ result_ref row.oos_result_ref) r
        (stamped name (set_oos result_ref) r)

  unfoldable pub active_count : Roster A → ℕ
  active_count r = count_if is_live r.registry

  -- `from_state = 'candidate' AND to_state = 'probation'`
  abbrev pub is_admission : Transition A → Bool
  is_admission t = from_candidate t.from_state && same_state t.to_state probation
    where
      from_candidate : Option State → Bool
      from_candidate none = false
      from_candidate (some s) = same_state s candidate

  abbrev pub is_admission_since : ℕ → Transition A → Bool
  is_admission_since start t = is_admission t && leb start (iso_digits t.ts)

  unfoldable pub entrants_this_quarter : Moment → Roster A → ℕ
  entrants_this_quarter now r =
      count_if (is_admission_since (iso_digits (quarter_start now))) r.transitions

  unfoldable pub promote_to_probation : String → Moment → Option ℕ → Roster A → Result (Roster A)
  promote_to_probation name now run_id r =
      let active = active_count r in
      let entrants = entrants_this_quarter now r in
      get_row name r >>= λ row.
      if is_absent row.backtest_run_id || is_absent row.oos_result_ref
      then err missing_evidence
      else if leb max_active_strategies active
      then err cap_exceeded
      else if leb max_new_entrants_per_quarter entrants
      then err cap_exceeded
      else transition name probation
          (admitted row.backtest_run_id row.oos_result_ref (active + 1) (entrants + 1)) now run_id r

  -- `SELECT COUNT(*) FROM paper_trades WHERE strategy_id = ?`
  abbrev pub closed_trades : String → Roster A → ℕ
  closed_trades name r = count_if (λ (t : PaperTrade A). t.strategy_id == name) r.paper.trades

  unfoldable pub confirm_paper_30 : String → Moment → Roster A → Result (Bool × Roster A)
  confirm_paper_30 name now r = get_row name r >>= λ row.
      if not (is_absent row.paper_30_confirmed_at)
      then ok (true, r)
      else if ltb (closed_trades name r) min_trades_for_judging
      then ok (false, r)
      else ok (true, stamped name (set_paper_30 now) r)

  unfoldable pub retire :
      String → Grounds A → Option A → Moment → Option ℕ → Roster A → Result (Roster A)
  retire name reason trigger_value now run_id r =
      transition name retired reason now run_id r >>= λ after.
      ok (record after {
        paper = retire_strategy name tournament_demotion trigger_value after.paper;
      })

module _ {A : Type 0} ⦃f : Float A⦄ where
  -- `sharpe is None or sharpe < floor`
  abbrev pub is_below : A → Option A → Bool
  is_below floor none = true
  is_below floor (some sharpe) = sharpe ≺ floor

  unfoldable pub promote_to_full :
      String → Option A → Moment → Option ℕ → Roster A → Result (Roster A)
  promote_to_full name sharpe now run_id r = get_row name r >>= λ row.
      if is_absent row.paper_30_confirmed_at
      then err missing_evidence
      else if is_below sharpe_promotion_floor sharpe
      then err value_error
      else transition name full (promoted sharpe row.paper_30_confirmed_at) now run_id r

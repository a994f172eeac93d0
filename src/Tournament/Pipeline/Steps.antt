-- ===== src/Tournament/Pipeline/Steps.antt =====
-- The calls of trader/tournament/pipeline.py as steps of a roster, in any order, with the work of
-- the paper-trading processes between them. Each is one change of Pipeline/Change.
use trader_pxg.Base.{
  ℕ, String, ◌≡◌, refl, Bool, true, Option, none, some, ◌==◌, ◌+◌, ltb, nat_eqb, arith, Bool-cases,
  inl, inr, ok, Float, >>=-eq-ok-parts, eq_refl,
}
use trader_pxg.Backtest.Config.{ExitProfile}
use trader_pxg.Paper.Store.{Db, tournament_demotion}
use trader_pxg.Paper.Ledger.{retire_strategy}
use trader_pxg.Paper.Ledger.Positions.{retire_strategy-marks}
use trader_pxg.Tournament.Frozen.{min_trades_for_judging}
use trader_pxg.Tournament.Registry.{
  Moment, probation, full, retired, Grounds, admitted, promoted, Entrant, Roster, get_row,
}
use trader_pxg.Tournament.Pipeline.{
  is_absent, moved, transition, new_candidate, register_candidate, stamped, set_backtest, set_oos,
  set_paper_30, write_once, agrees_with, stamp_backtest, stamp_oos, active_count,
  entrants_this_quarter, promote_to_probation, confirm_paper_30, promote_to_full, retire,
  closed_trades,
}
use trader_pxg.Tournament.Pipeline.Lookup.{row_of, find-eq-none}
use trader_pxg.Tournament.Pipeline.Change.{
  IsKept, IsKept-refl, IsStamp, KeepsMarks, Change, stays, enters, stamps, moves, trades,
  get_row-eq-ok, transition-eq-ok,
}

IsKept-absent : {B : Type 0} (o after : Option B) → is_absent o ≡ true → IsKept o after
IsKept-absent none after h = tt
IsKept-absent (some b) after h = cc

module _ {A : Type 0} where
  register-Change :
      (name strategy : String) (exits : ExitProfile A) (floor dd_kill : A) (loss_kill : ℕ)
      (reason : Grounds A) (now : Moment) (variant : String) (r : Roster A) {after : Roster A}
      → register_candidate name strategy exits floor dd_kill loss_kill reason now variant r
        ≡ ok after
      → Change r after
  unfolding register_candidate
  register-Change name strategy exits floor dd_kill loss_kill reason now variant r h =
      enters (new_candidate name strategy exits floor dd_kill loss_kill now variant) reason
        (find-eq-none name r.registry (ground arith)) refl (ground arith)

  set_backtest-IsStamp :
      (run_id : ℕ) (name : String) (r : Roster A) (row : Entrant A)
      → row_of name r ≡ some row
      → is_absent row.backtest_run_id ≡ true
      → IsStamp (row_of name r) (set_backtest run_id)
  unfolding set_backtest
  set_backtest-IsStamp run_id name r row found unset = record {
    name_kept = λ other. refl;
    state_kept = λ other. refl;
    grown = λ other e. record {
      columns_kept = refl;
      backtest_kept = IsKept-absent other.backtest_run_id (some run_id) (cc);
      oos_kept = IsKept-refl other.oos_result_ref;
      paper_30_kept = IsKept-refl other.paper_30_confirmed_at;
    };
  }

  set_oos-IsStamp :
      (result_ref name : String) (r : Roster A) (row : Entrant A)
      → row_of name r ≡ some row
      → is_absent row.oos_result_ref ≡ true
      → IsStamp (row_of name r) (set_oos result_ref)
  unfolding set_oos
  set_oos-IsStamp result_ref name r row found unset = record {
    name_kept = λ other. refl;
    state_kept = λ other. refl;
    grown = λ other e. record {
      columns_kept = refl;
      backtest_kept = IsKept-refl other.backtest_run_id;
      oos_kept = IsKept-absent other.oos_result_ref (some result_ref) (cc);
      paper_30_kept = IsKept-refl other.paper_30_confirmed_at;
    };
  }

  set_paper_30-IsStamp :
      (now : Moment) (name : String) (r : Roster A) (row : Entrant A)
      → row_of name r ≡ some row
      → is_absent row.paper_30_confirmed_at ≡ true
      → IsStamp (row_of name r) (set_paper_30 now)
  unfolding set_paper_30
  set_paper_30-IsStamp now name r row found unset = record {
    name_kept = λ other. refl;
    state_kept = λ other. refl;
    grown = λ other e. record {
      columns_kept = refl;
      backtest_kept = IsKept-refl other.backtest_run_id;
      oos_kept = IsKept-refl other.oos_result_ref;
      paper_30_kept = IsKept-absent other.paper_30_confirmed_at (some now) (cc);
    };
  }

  -- `write_once` leaves the roster, or stamps where there was none.
  write_once-Change :
      {B : Type 0} (same : B → B → Bool) (new : B) (name : String) (g : Entrant A → Entrant A)
      (old : Option B) (r : Roster A) {after : Roster A}
      → (is_absent old ≡ true → IsStamp (row_of name r) g)
      → write_once (agrees_with same new old) r (stamped name g r) ≡ ok after
      → Change r after
  unfolding write_once
  write_once-Change same new name g none r stamp h = stamps name g (stamp refl) (ground arith)
  write_once-Change same new name g (some old) r stamp h = stays (ground arith)

  stamp_backtest-Change :
      (name : String) (run_id : ℕ) (r : Roster A) {after : Roster A}
      → stamp_backtest name run_id r ≡ ok after
      → Change r after
  unfolding stamp_backtest
  stamp_backtest-Change name run_id r h =
      let (row, found, rest) = >>=-eq-ok-parts (get_row name r) _ h in
      write_once-Change nat_eqb run_id name (set_backtest run_id) row.backtest_run_id r
        (set_backtest-IsStamp run_id name r row (get_row-eq-ok name r found)) rest

  stamp_oos-Change :
      (name result_ref : String) (r : Roster A) {after : Roster A}
      → stamp_oos name result_ref r ≡ ok after
      → Change r after
  unfolding stamp_oos
  stamp_oos-Change name result_ref r h =
      let (row, found, rest) = >>=-eq-ok-parts (get_row name r) _ h in
      write_once-Change ◌==◌ result_ref name (set_oos result_ref) row.oos_result_ref r
        (set_oos-IsStamp result_ref name r row (get_row-eq-ok name r found)) rest

  confirm_paper_30-Change :
      (name : String) (now : Moment) (r : Roster A) {confirmed : Bool} {after : Roster A}
      → confirm_paper_30 name now r ≡ ok (confirmed, after)
      → Change r after
  unfolding confirm_paper_30
  confirm_paper_30-Change name now r h =
      let (row, found, rest) = >>=-eq-ok-parts (get_row name r) _ h in
      elim (Bool-cases (is_absent row.paper_30_confirmed_at)) [
        | inl e ↦ elim (Bool-cases (ltb (closed_trades name r) min_trades_for_judging)) [
          | inl few ↦ stays (ground arith)
          | inr enough ↦
              stamps name (set_paper_30 now)
                (set_paper_30-IsStamp now name r row (get_row-eq-ok name r found) e) (ground arith)
        ]
        | inr e ↦ stays (ground arith)
      ]

  promote_to_probation-Change :
      (name : String) (now : Moment) (run_id : Option ℕ) (r : Roster A) {after : Roster A}
      → promote_to_probation name now run_id r ≡ ok after
      → Change r after
  unfolding promote_to_probation moved
  promote_to_probation-Change name now run_id r h =
      let (row, found, rest) = >>=-eq-ok-parts (get_row name r) _ h in
      let there = get_row-eq-ok name r found in
      let reason =
        admitted row.backtest_run_id row.oos_result_ref (active_count r + 1)
          (entrants_this_quarter now r + 1) in
      let (same, again, allowed, e) =
        transition-eq-ok name probation reason now run_id r (ground arith) in
      moves name same probation reason now run_id r.paper again allowed (ground arith)
        (λ s marked. marked) e

  retire-Change :
      (name : String) (reason : Grounds A) (trigger_value : Option A) (now : Moment)
      (run_id : Option ℕ) (r : Roster A) {after : Roster A}
      → retire name reason trigger_value now run_id r ≡ ok after
      → Change r after
  unfolding retire moved
  retire-Change name reason trigger_value now run_id r h =
      let (middle, done, rest) =
        >>=-eq-ok-parts (transition name retired reason now run_id r) _ h in
      let (row, there, allowed, e) = transition-eq-ok name retired reason now run_id r done in
      let paper = retire_strategy name tournament_demotion trigger_value r.paper in
      let marks = λ (s : String).
        (retire_strategy-marks name s tournament_demotion tournament_demotion trigger_value
          trigger_value r.paper).0 in
      moves name row retired reason now run_id paper there allowed
        (ground (arith, marks name, eq_refl name)) (λ s marked. ground (arith, marks s))
        (ground arith)

module _ {A : Type 0} ⦃f : Float A⦄ where
  promote_to_full-Change :
      (name : String) (sharpe : Option A) (now : Moment) (run_id : Option ℕ) (r : Roster A)
      {after : Roster A}
      → promote_to_full name sharpe now run_id r ≡ ok after
      → Change r after
  unfolding promote_to_full moved
  promote_to_full-Change name sharpe now run_id r h =
      let (row, found, rest) = >>=-eq-ok-parts (get_row name r) _ h in
      let there = get_row-eq-ok name r found in
      let reason = promoted sharpe row.paper_30_confirmed_at in
      let (same, again, allowed, e) =
        transition-eq-ok name full reason now run_id r (ground arith) in
      moves name same full reason now run_id r.paper again allowed (ground arith)
        (λ s marked. marked) e

  -- A call that returned.
  pub data Call (r after : Roster A) : Type 0 where
    registered :
        (name strategy : String) (exits : ExitProfile A) (floor dd_kill : A) (loss_kill : ℕ)
        (reason : Grounds A) (now : Moment) (variant : String)
        → register_candidate name strategy exits floor dd_kill loss_kill reason now variant r
          ≡ ok after
        → Call r after
    backtest_stamped :
        (name : String) (run_id : ℕ) → stamp_backtest name run_id r ≡ ok after → Call r after
    oos_stamped : (name result_ref : String) → stamp_oos name result_ref r ≡ ok after → Call r after
    probation_entered :
        (name : String) (now : Moment) (run_id : Option ℕ)
        → promote_to_probation name now run_id r ≡ ok after
        → Call r after
    paper_30_checked :
        (name : String) (now : Moment) (confirmed : Bool)
        → confirm_paper_30 name now r ≡ ok (confirmed, after)
        → Call r after
    full_entered :
        (name : String) (sharpe : Option A) (now : Moment) (run_id : Option ℕ)
        → promote_to_full name sharpe now run_id r ≡ ok after
        → Call r after
    retirement :
        (name : String) (reason : Grounds A) (trigger_value : Option A) (now : Moment)
        (run_id : Option ℕ)
        → retire name reason trigger_value now run_id r ≡ ok after
        → Call r after

  -- A call, or the other processes at work on the tables of paper trading.
  pub data Step (r after : Roster A) : Type 0 where
    called : Call r after → Step r after
    traded : (db : Db A) → KeepsMarks r.paper db → after ≡ record r { paper = db } → Step r after

  Call-Change : {r after : Roster A} → Call r after → Change r after
  Call-Change {r = r}
        (registered name strategy exits floor dd_kill loss_kill reason now variant h) =
      register-Change name strategy exits floor dd_kill loss_kill reason now variant r h
  Call-Change {r = r} (backtest_stamped name run_id h) = stamp_backtest-Change name run_id r h
  Call-Change {r = r} (oos_stamped name result_ref h) = stamp_oos-Change name result_ref r h
  Call-Change {r = r} (probation_entered name now run_id h) =
      promote_to_probation-Change name now run_id r h
  Call-Change {r = r} (paper_30_checked name now confirmed h) = confirm_paper_30-Change name now r h
  Call-Change {r = r} (full_entered name sharpe now run_id h) =
      promote_to_full-Change name sharpe now run_id r h
  Call-Change {r = r} (retirement name reason trigger_value now run_id h) =
      retire-Change name reason trigger_value now run_id r h

  pub Step-Change : {r after : Roster A} → Step r after → Change r after
  Step-Change (called call) = Call-Change call
  Step-Change (traded db marks e) = trades db marks e

  -- Any number of steps.
  pub data Reach (r : Roster A) : Roster A → Type 0 where
    start : Reach r r
    further : {middle after : Roster A} → Reach r middle → Step middle after → Reach r after

  -- What each change keeps holds however the steps follow each other.
  pub Reach-keeps :
      (P : Roster A → Type 0)
      → ((r after : Roster A) → Change r after → P r → P after)
      → {r after : Roster A} → Reach r after
      → P r
      → P after
  Reach-keeps P keeps start h = h
  Reach-keeps P keeps (further steps step) h =
      keeps _ _ (Step-Change step) (Reach-keeps P keeps steps h)

  -- Any number of calls, with nothing else between them.
  pub data Calls (r : Roster A) : Roster A → Type 0 where
    none_made : Calls r r
    made : {middle after : Roster A} → Calls r middle → Call middle after → Calls r after

  -- Calls are steps, so their invariants hold of them.
  pub Calls-Reach : {r after : Roster A} → Calls r after → Reach r after
  Calls-Reach none_made = start
  Calls-Reach (made calls call) = further (Calls-Reach calls) (called call)

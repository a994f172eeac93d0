-- ===== src/Tournament/Entrant.antt =====
-- trader/tournament/register_entrant.py: the command that registers an approved entrant.
pub mod Progress
use trader_pxg.Base.{
  ℕ, String, Bool, true, false, not, ◌||◌, Option, none, some, List, [], ◌==◌, find, if◌then◌else◌,
  Result, ok, err, ◌>>=◌, system_exit,
}
use trader_pxg.Backtest.Config.{ExitProfile}
use trader_pxg.Paper.Signals.{is_routable}
use trader_pxg.Tournament.Registry.{Moment, Grounds, Roster}
use trader_pxg.Tournament.Pipeline.{register_candidate, stamp_backtest, stamp_oos}

-- An entry of the evidence file's "survivors".
pub record Survivor (A : Type 0) : Type 0 where
  pub profile_name : String
  pub strategy_id : String
  pub entry_variant : String
  pub stop_pct : Option A
  pub tp_pct : Option A
  pub trailing_pct : Option A
  pub max_hold_days : Option ℕ
  pub pf_floor : A
  pub max_dd_kill : A
  pub consecutive_loss_kill : ℕ
  pub backtest_run_id : ℕ
  pub oos_result_ref : String

-- `not args.owner_approval`
abbrev pub is_unapproved : Option String → Bool
is_unapproved none = true
is_unapproved (some approval) = approval == ""

module _ {A : Type 0} where
  abbrev pub profile_of : Survivor A → ExitProfile A
  profile_of s = record {
    stop_pct = s.stop_pct;
    tp_pct = s.tp_pct;
    scale_out = [];
    trailing_pct = s.trailing_pct;
    max_hold_days = s.max_hold_days;
    eod_flat = false;
  }

  -- The three calls of the pipeline; each commits, so a raise keeps what came before it. Here the
  -- last state is lost with a raise, which only the first call can make.
  unfoldable pub enter_survivor : Survivor A → Grounds A → Moment → Roster A → Result (Roster A)
  enter_survivor s reason now r =
      register_candidate s.profile_name s.strategy_id (profile_of s) s.pf_floor s.max_dd_kill
        s.consecutive_loss_kill reason now s.entry_variant r
      >>= stamp_backtest s.profile_name s.backtest_run_id
      >>= stamp_oos s.profile_name s.oos_result_ref

  -- `main`, with the survivors of the evidence file and the reason that it writes.
  unfoldable pub register_entrant :
      Option String → List (Survivor A) → String → Grounds A → Moment → Roster A → Result (Roster A)
  register_entrant owner_approval survivors profile reason now r =
      if is_unapproved owner_approval
      then err system_exit
      else elim (find (λ (s : Survivor A). s.profile_name == profile) survivors) [
        | none ↦ err system_exit
        | some s ↦
            if not (is_routable s.strategy_id s.entry_variant)
            then err system_exit
            else enter_survivor s reason now r
      ]

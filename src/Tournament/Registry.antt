-- ===== src/Tournament/Registry.antt =====
-- The tables of migrations/0006_tournament.sql (and the column of 0008_entry_variant.sql) that
-- trader/tournament/pipeline.py reads and writes, and the loader trader/paper/config_store.py.
use trader_pxg.Base.{
  ℕ, ◌+◌, ◌*◌, String, Bool, true, false, Option, none, some, List, ◌==◌, find, sort_by, Result, ok,
  err, value_error,
}
use trader_pxg.Backtest.Config.{ExitProfile}
use trader_pxg.Paper.Store.{Db}

-- A time in UTC, as `_now_iso` writes it: the year, the month, the day, and the six digits of
-- the clock.
pub record Moment : Type 0 where
  pub year : ℕ
  pub month : ℕ
  pub day : ℕ
  pub clock : ℕ

-- The text `%Y-%m-%d %H:%M:%S`, as the number that its digits are: texts of one width are ordered
-- as their numbers.
unfoldable pub iso_digits : Moment → ℕ
iso_digits m = ((m.year * 100 + m.month) * 100 + m.day) * 1_000_000 + m.clock

-- `state`
pub data State : Type 0 where
  candidate probation full retired : State

-- `reason`, by what the text says: a person's words, the numbers of an admission, of a promotion,
-- of a demotion.
pub data Grounds (A : Type 0) : Type 0 where
  stated : String → Grounds A
  admitted : Option ℕ → Option String → ℕ → ℕ → Grounds A
  promoted : Option A → Option Moment → Grounds A
  demoted : ℕ → ℕ → Option A → ℕ → Grounds A

-- `strategy_registry`
pub record Entrant (A : Type 0) : Type 0 where
  pub profile_name : String
  pub strategy_id : String
  pub exit_profile : ExitProfile A
  pub pf_floor : A
  pub max_dd_kill : A
  pub consecutive_loss_kill : ℕ
  pub backtest_run_id : Option ℕ
  pub oos_result_ref : Option String
  pub paper_30_confirmed_at : Option Moment
  pub entered_at : Moment
  pub state : State
  pub state_changed_at : Moment
  pub entry_variant : String

-- `strategy_registry_transitions`
pub record Transition (A : Type 0) : Type 0 where
  pub ts : Moment
  pub profile_name : String
  pub from_state : Option State
  pub to_state : State
  pub reason : Grounds A
  pub run_id : Option ℕ

-- The registry in the order of insertion, its transitions with the newest first, and the tables
-- of paper trading.
pub record Roster (A : Type 0) : Type 0 where
  pub registry : List (Entrant A)
  pub transitions : List (Transition A)
  pub paper : Db A

abbrev pub same_state : State → State → Bool
same_state candidate candidate = true
same_state probation probation = true
same_state full full = true
same_state retired retired = true
same_state _ _ = false

-- `state IN ('probation', 'full')`
abbrev pub is_active : State → Bool
is_active probation = true
is_active full = true
is_active _ = false

module _ {A : Type 0} where
  -- `profile_name = ?`
  abbrev pub is_named : String → Entrant A → Bool
  is_named name row = row.profile_name == name

  abbrev pub is_live : Entrant A → Bool
  is_live row = is_active row.state

  unfoldable pub get_row : String → Roster A → Result (Entrant A)
  get_row profile_name r = elim (find (is_named profile_name) r.registry) [
    | none ↦ err value_error
    | some row ↦ ok row
  ]

  -- `ORDER BY profile_name`, by an order on names.
  abbrev pub by_name : (String → String → Bool) → Entrant A → Entrant A → Bool
  by_name le a b = le a.profile_name b.profile_name

  unfoldable pub get_registry_rows : (String → String → Bool) → Roster A → List (Entrant A)
  get_registry_rows le r = sort_by (by_name le) r.registry

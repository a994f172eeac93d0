-- ===== src/Tournament/Live.antt =====
-- trader/paper/config_store.py: the live strategies, read from the registry.
use trader_pxg.Base.{
  ℕ, String, Bool, Option, List, ◌==◌, find, keep_if, map, sort_by, if◌then◌else◌,
}
use trader_pxg.Backtest.Config.{ExitProfile}
use trader_pxg.Tournament.Registry.{State, Entrant, Roster, is_live, by_name}

-- `LiveStrategyConfig`
pub record LiveStrategy (A : Type 0) : Type 0 where
  pub strategy_id : String
  pub profile_name : String
  pub exit_profile : ExitProfile A
  pub pf_floor : A
  pub max_dd_kill : A
  pub consecutive_loss_kill : ℕ
  pub state : State
  pub entry_variant : String

module _ {A : Type 0} where
  -- `_row_to_live_config`; the exit profile stands in the row as it was written.
  abbrev pub live_config_of : Entrant A → LiveStrategy A
  live_config_of row = record {
    strategy_id = row.strategy_id;
    profile_name = row.profile_name;
    exit_profile = row.exit_profile;
    pf_floor = row.pf_floor;
    max_dd_kill = row.max_dd_kill;
    consecutive_loss_kill = row.consecutive_loss_kill;
    state = row.state;
    entry_variant = if row.entry_variant == "" then "loose" else row.entry_variant;
  }

  -- The names of the rows are distinct, so their order alone is `ORDER BY profile_name`.
  unfoldable pub get_live_configs : (String → String → Bool) → Roster A → List (LiveStrategy A)
  get_live_configs le r = map live_config_of (sort_by (by_name le) (keep_if is_live r.registry))

  -- `get_live_configs_by_profile_name(…).get(name)`
  unfoldable pub get_live_config : String → List (LiveStrategy A) → Option (LiveStrategy A)
  get_live_config name configs = find (λ (cfg : LiveStrategy A). cfg.profile_name == name) configs

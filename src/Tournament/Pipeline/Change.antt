-- ===== src/Tournament/Pipeline/Change.antt =====
-- The five ways in which the calls of trader/tournament/pipeline.py, and the processes of paper
-- trading beside it, change a roster.
use trader_pxg.Base.{
  ℕ, String, ◌≡◌, refl, true, false, Option, none, some, leb, arith, Option-cases, inl, inr, ok,
  >>=-eq-ok-parts,
}
use trader_pxg.Backtest.Config.{ExitProfile}
use trader_pxg.Paper.Store.{Db}
use trader_pxg.Paper.Ledger.{is_strategy_retired}
use trader_pxg.Tournament.Frozen.{max_active_strategies, max_new_entrants_per_quarter}
use trader_pxg.Tournament.Registry.{
  Moment, State, candidate, probation, full, retired, Grounds, Entrant, Roster, get_row,
}
use trader_pxg.Tournament.Pipeline.{
  is_valid, is_absent, moved, transition, entered, stamped, active_count, entrants_this_quarter,
}
use trader_pxg.Tournament.Pipeline.Lookup.{row_of, KeepsName}

-- A stamp that is there is kept.
abbrev pub IsKept : {B : Type 0} → Option B → Option B → Type 0
IsKept none after = Unit
IsKept (some b) after = after ≡ some b

pub IsKept-refl : {B : Type 0} (o : Option B) → IsKept o o
IsKept-refl none = tt
IsKept-refl (some b) = refl

module _ {A : Type 0} where
  -- The columns that only the INSERT writes.
  abbrev pub frozen_columns : Entrant A → String × ExitProfile A × A × A × ℕ × Moment × String
  frozen_columns row = (
    row.strategy_id, row.exit_profile, row.pf_floor, row.max_dd_kill, row.consecutive_loss_kill,
    row.entered_at, row.entry_variant,
  )

  -- Those columns are as before, and so is each stamp that was there.
  pub record IsGrown (row after : Entrant A) : Type 0 where
    pub columns_kept : frozen_columns after ≡ frozen_columns row
    pub backtest_kept : IsKept row.backtest_run_id after.backtest_run_id
    pub oos_kept : IsKept row.oos_result_ref after.oos_result_ref
    pub paper_30_kept : IsKept row.paper_30_confirmed_at after.paper_30_confirmed_at

  pub record IsStamp (row_there : Option (Entrant A)) (g : Entrant A → Entrant A) : Type 0 where
    pub name_kept : KeepsName g
    pub state_kept : (row : Entrant A) → (g row).state ≡ row.state
    pub grown : (row : Entrant A) → row_there ≡ some row → IsGrown row (g row)

  -- No mark in `strategy_kill_state` is lost.
  abbrev pub KeepsMarks : Db A → Db A → Type 0
  KeepsMarks before after =
      (s : String) → is_strategy_retired s before ≡ true → is_strategy_retired s after ≡ true

  -- What a move asks for: the stamps and the two caps, the confirmation, the mark.
  abbrev pub IsEarned : State → String → Entrant A → Moment → Db A → Roster A → Type 0
  IsEarned candidate name row now db r = Unit
  IsEarned probation name row now db r =
      (is_absent row.backtest_run_id ≡ false)
      × (is_absent row.oos_result_ref ≡ false)
      × (leb max_active_strategies (active_count r) ≡ false)
      × (leb max_new_entrants_per_quarter (entrants_this_quarter now r) ≡ false)
  IsEarned full name row now db r = is_absent row.paper_30_confirmed_at ≡ false
  IsEarned retired name row now db r = is_strategy_retired name db ≡ true

  pub data Change (r after : Roster A) : Type 0 where
    stays : after ≡ r → Change r after
    enters :
        (row : Entrant A) (reason : Grounds A)
        → row_of row.profile_name r ≡ none
        → row.state ≡ candidate
        → after ≡ entered row reason r
        → Change r after
    stamps :
        (name : String) (g : Entrant A → Entrant A)
        → IsStamp (row_of name r) g
        → after ≡ stamped name g r
        → Change r after
    moves :
        (name : String) (row : Entrant A) (to : State) (reason : Grounds A) (now : Moment)
        (run_id : Option ℕ) (db : Db A)
        → row_of name r ≡ some row
        → is_valid row.state to ≡ true
        → IsEarned to name row now db r
        → KeepsMarks r.paper db
        → after ≡ record (moved name row.state to reason now run_id r) { paper = db }
        → Change r after
    trades : (db : Db A) → KeepsMarks r.paper db → after ≡ record r { paper = db } → Change r after

  pub get_row-eq-ok :
      (name : String) (r : Roster A) {row : Entrant A}
      → get_row name r ≡ ok row
      → row_of name r ≡ some row
  unfolding get_row
  get_row-eq-ok name r {row = row} h = elim (Option-cases (row_of name r)) [
    | inl e ↦ ground arith
    | inr (found, e) ↦ ground arith
  ]

  -- A transition that returned was sanctioned, and is the UPDATE with its row in the log.
  pub transition-eq-ok :
      (name : String) (to : State) (reason : Grounds A) (now : Moment) (run_id : Option ℕ)
      (r : Roster A) {after : Roster A}
      → transition name to reason now run_id r ≡ ok after
      → (row : Entrant A) × (row_of name r ≡ some row)
        × (is_valid row.state to ≡ true)
        × (after ≡ moved name row.state to reason now run_id r)
  unfolding transition
  transition-eq-ok name to reason now run_id r h =
      let (row, found, rest) = >>=-eq-ok-parts (get_row name r) _ h in
      (row, get_row-eq-ok name r found, ground arith, ground arith)

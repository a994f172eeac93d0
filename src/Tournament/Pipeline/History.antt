-- ===== src/Tournament/Pipeline/History.antt =====
-- The log of transitions of trader/tournament/pipeline.py: the state of each strategy can be
-- derived from it, and every transition in it is sanctioned.
use mathlib.Core.Path.{subst}
use trader_pxg.Base.{
  ℕ, String, ◌≡◌, sym, Bool, true, false, Option, none, some, List, [], ◌∷◌, ◌==◌, eq_iff,
  if◌then◌else◌, arith, Option-cases, inl, inr, Float,
}
use trader_pxg.Tournament.Registry.{
  Moment, State, candidate, full, Grounds, Entrant, Transition, Roster,
}
use trader_pxg.Tournament.Pipeline.{is_valid, moved, entered, stamped}
use trader_pxg.Tournament.Pipeline.Lookup.{
  row_of, state_of, row_of-entered, row_of-stamped, row_of-moved,
}
use trader_pxg.Tournament.Pipeline.Change.{IsStamp, Change, stays, enters, stamps, moves, trades}
use trader_pxg.Tournament.Pipeline.Steps.{Reach, Reach-keeps}

-- A first row registers a candidate, or is the seed's; every other is one of the four moves.
abbrev pub is_sanctioned : Option State → State → Bool
is_sanctioned none candidate = true
is_sanctioned none full = true
is_sanctioned none _ = false
is_sanctioned (some from) to = is_valid from to

module _ {A : Type 0} where
  -- The state that the log gives a profile: that of its newest row.
  abbrev pub last_state : List (Transition A) → String → Option State
  last_state [] name = none
  last_state (t ∷ ts) name = if t.profile_name == name then some t.to_state else last_state ts name

  -- Each row starts in the state that the older rows give.
  abbrev pub IsLog : List (Transition A) → Type 0
  IsLog [] = Unit
  IsLog (t ∷ ts) =
      (t.from_state ≡ last_state ts t.profile_name)
      × (is_sanctioned t.from_state t.to_state ≡ true)
      × IsLog ts

  pub record IsDerivable (r : Roster A) : Type 0 where
    pub log : IsLog r.transitions
    pub derived : (name : String) → state_of name r ≡ last_state r.transitions name

  enters-IsDerivable :
      (row : Entrant A) (reason : Grounds A) (r : Roster A)
      → row_of row.profile_name r ≡ none
      → row.state ≡ candidate
      → IsDerivable r
      → IsDerivable (entered row reason r)
  unfolding entered
  enters-IsDerivable row reason r fresh e d = record {
    log = ground (arith, d.derived row.profile_name);
    derived = λ name. ground (arith, d.derived name, row_of-entered name row reason r fresh);
  }

  stamps-IsDerivable :
      (name : String) (g : Entrant A → Entrant A) (r : Roster A)
      → IsStamp (row_of name r) g
      → IsDerivable r
      → IsDerivable (stamped name g r)
  unfolding stamped
  stamps-IsDerivable name g r stamp d = record {
    log = d.log;
    derived = λ other. elim (Option-cases (row_of other r)) [
      | inl e ↦ ground (arith, d.derived other, row_of-stamped other name g r stamp.name_kept)
      | inr (row, e) ↦ ground (
        arith,
        d.derived other,
        row_of-stamped other name g r stamp.name_kept,
        stamp.state_kept row,
      )
    ];
  }

  moves-IsDerivable :
      (name : String) (row : Entrant A) (to : State) (reason : Grounds A) (now : Moment)
      (run_id : Option ℕ) (r : Roster A)
      → row_of name r ≡ some row
      → is_valid row.state to ≡ true
      → IsDerivable r
      → IsDerivable (moved name row.state to reason now run_id r)
  unfolding moved
  moves-IsDerivable name row to reason now run_id r there valid d = record {
    log = ground (arith, d.derived name);
    derived = λ other. ground (
      arith,
      d.derived other,
      row_of-moved other name row.state to reason now run_id r,
      eq_iff name other,
    );
  }

  Change-IsDerivable : (r after : Roster A) → Change r after → IsDerivable r → IsDerivable after
  Change-IsDerivable r after (stays e) d = subst IsDerivable (sym e) d
  Change-IsDerivable r after (enters row reason fresh new e) d =
      subst IsDerivable (sym e) (enters-IsDerivable row reason r fresh new d)
  Change-IsDerivable r after (stamps name g stamp e) d =
      subst IsDerivable (sym e) (stamps-IsDerivable name g r stamp d)
  Change-IsDerivable r after (moves name row to reason now run_id db there valid earned marks e) d =
      let moved_log = moves-IsDerivable name row to reason now run_id r there valid d in
      subst IsDerivable (sym e) (record { log = moved_log.log; derived = moved_log.derived })
  Change-IsDerivable r after (trades db marks e) d =
      subst IsDerivable (sym e) (record { log = d.log; derived = d.derived })

module _ {A : Type 0} ⦃f : Float A⦄ where
  -- Through any sequence of calls, the state of every profile stays the one that the log of
  -- transitions gives, each row of the log starts in the state before it, and each is one of the
  -- sanctioned moves.
  pub Reach-IsDerivable : {r after : Roster A} → Reach r after → IsDerivable r → IsDerivable after
  Reach-IsDerivable = Reach-keeps IsDerivable Change-IsDerivable

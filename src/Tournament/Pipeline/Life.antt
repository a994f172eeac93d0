-- ===== src/Tournament/Pipeline/Life.antt =====
-- What trader/tournament/pipeline.py promises, as a machine for the life of one strategy, and that
-- every call is a move of it for at most one of them.
use mathlib.Core.Path.{subst}
use trader_pxg.Base.{
  ℕ, String, ◌≡◌, sym, ap, ◌∙◌, ◌⊎◌, true, false, Option, none, some, ◌==◌, eq_refl, arith,
  Option-cases, inl, inr, Float,
}
use trader_pxg.Tournament.Registry.{
  Moment, State, candidate, probation, full, retired, Grounds, Entrant, Roster,
}
use trader_pxg.Tournament.Pipeline.{is_valid, moved, entered, stamped}
use trader_pxg.Tournament.Pipeline.Lookup.{
  row_of, state_of, row_of-entered, row_of-stamped, row_of-moved,
}
use trader_pxg.Tournament.Pipeline.Change.{IsStamp, Change, stays, enters, stamps, moves, trades}
use trader_pxg.Tournament.Pipeline.Steps.{Step, Step-Change}

-- The moves of a life, from `none`, which is not registered, on.
pub data Life : Option State → Option State → Type 0 where
  registers : Life none (some candidate)
  is_admitted : Life (some candidate) (some probation)
  is_promoted : Life (some probation) (some full)
  fails_probation : Life (some probation) (some retired)
  is_demoted : Life (some full) (some retired)

valid-Life : (from to : State) → is_valid from to ≡ true → Life (some from) (some to)
valid-Life candidate candidate h = cc
valid-Life candidate probation h = is_admitted
valid-Life candidate full h = cc
valid-Life candidate retired h = cc
valid-Life probation candidate h = cc
valid-Life probation probation h = cc
valid-Life probation full h = is_promoted
valid-Life probation retired h = fails_probation
valid-Life full candidate h = cc
valid-Life full probation h = cc
valid-Life full full h = cc
valid-Life full retired h = is_demoted
valid-Life retired candidate h = cc
valid-Life retired probation h = cc
valid-Life retired full h = cc
valid-Life retired retired h = cc

module _ {A : Type 0} where
  -- Nothing moves, or one life does and all others stand.
  abbrev pub IsMove : Roster A → Roster A → Type 0
  IsMove r after =
      ((name : String) → state_of name after ≡ state_of name r)
      ⊎ ((name : String) × Life (state_of name r) (state_of name after)
          × ((other : String) → name == other ≡ false → state_of other after ≡ state_of other r))

  pub stamped-stands :
      (name other : String) (g : Entrant A → Entrant A) (r : Roster A)
      → IsStamp (row_of other r) g
      → state_of name (stamped other g r) ≡ state_of name r
  stamped-stands name other g r stamp = elim (Option-cases (row_of name r)) [
    | inl e ↦ ground (arith, row_of-stamped name other g r stamp.name_kept)
    | inr (row, e) ↦
        ground (arith, row_of-stamped name other g r stamp.name_kept, stamp.state_kept row)
  ]

  entered-IsMove :
      (row : Entrant A) (reason : Grounds A) (r : Roster A)
      → row_of row.profile_name r ≡ none
      → row.state ≡ candidate
      → IsMove r (entered row reason r)
  entered-IsMove row reason r fresh new =
      let name = row.profile_name in
      let before : state_of name r ≡ none = ground arith in
      let now_there : state_of name (entered row reason r) ≡ some candidate =
        ground (arith, row_of-entered name row reason r fresh, eq_refl name) in
      inr (
        name,
        subst (λ s. Life s (state_of name (entered row reason r))) (sym before)
            (subst (λ s. Life none s) (sym now_there) registers),
        λ other apart. ground (arith, row_of-entered other row reason r fresh),
      )

  moved-IsMove :
      (name : String) (row : Entrant A) (to : State) (reason : Grounds A) (now : Moment)
      (run_id : Option ℕ) (r : Roster A)
      → row_of name r ≡ some row
      → is_valid row.state to ≡ true
      → IsMove r (moved name row.state to reason now run_id r)
  moved-IsMove name row to reason now run_id r there valid =
      let after = moved name row.state to reason now run_id r in
      let before : state_of name r ≡ some row.state = ground arith in
      let now_there : state_of name after ≡ some to =
        ground (arith, row_of-moved name name row.state to reason now run_id r, eq_refl name) in
      inr (
        name,
        subst (λ s. Life s (state_of name after)) (sym before)
            (subst (λ s. Life (some row.state) s) (sym now_there) (valid-Life row.state to valid)),
        λ other apart. ground (arith, row_of-moved other name row.state to reason now run_id r),
      )

  Change-IsMove : (r after : Roster A) → Change r after → IsMove r after
  Change-IsMove r after (stays e) = inl λ name. ap (state_of name) e
  Change-IsMove r after (enters row reason fresh new e) =
      subst (IsMove r) (sym e) (entered-IsMove row reason r fresh new)
  Change-IsMove r after (stamps other g stamp e) =
      inl λ name. ap (state_of name) e ∙ stamped-stands name other g r stamp
  Change-IsMove r after (moves name row to reason now run_id db there valid earned marks e) =
      subst (IsMove r) (sym e) (moved-IsMove name row to reason now run_id r there valid)
  Change-IsMove r after (trades db marks e) = inl λ name. ap (state_of name) e

module _ {A : Type 0} ⦃f : Float A⦄ where
  -- Every call that returns, and all other work on the database, either leaves the state of every
  -- profile alone or takes exactly one of them one step along its life.
  pub Step-refines : {r after : Roster A} → Step r after → IsMove r after
  Step-refines {r = r} {after = after} step = Change-IsMove r after (Step-Change step)

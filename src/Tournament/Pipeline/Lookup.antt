-- ===== src/Tournament/Pipeline/Lookup.antt =====
-- The registry by profile name: what a lookup finds after an INSERT or an UPDATE.
use trader_pxg.Base.{
  ℕ, String, ◌≡◌, refl, false, Option, none, some, List, [], ◌∷◌, ◌++◌, ◌==◌, eq_iff, any, find,
  update_where, if◌then◌else◌, arith,
}
use mathlib.Core.Option
use trader_pxg.Tournament.Registry.{Moment, Entrant, Roster, State, Grounds, is_named}
use trader_pxg.Tournament.Pipeline.{entered, stamped, moved}

module _ {A : Type 0} where
  abbrev pub row_of : String → Roster A → Option (Entrant A)
  row_of name r = find (is_named name) r.registry

  abbrev pub KeepsName : (Entrant A → Entrant A) → Type 0
  KeepsName g = (row : Entrant A) → (g row).profile_name ≡ row.profile_name

  pub find-update_where :
      (name other : String) (g : Entrant A → Entrant A) (rows : List (Entrant A))
      → KeepsName g
      → find (is_named name) (update_where (is_named other) g rows) ≡ (
          if other == name
          then Option.map g (find (is_named name) rows)
          else find (is_named name) rows)
  find-update_where name other g [] h = ground arith
  find-update_where name other g (row ∷ rows) h = ground (
    arith,
    h row,
    find-update_where name other g rows h,
    eq_iff other name,
    eq_iff row.profile_name name,
    eq_iff row.profile_name other,
  )

  pub find-append_row :
      (name : String) (rows : List (Entrant A)) (row : Entrant A)
      → find (is_named row.profile_name) rows ≡ none
      → find (is_named name) (rows ++ row ∷ [])
        ≡ (if row.profile_name == name then some row else find (is_named name) rows)
  find-append_row name [] row h = ground arith
  find-append_row name (x ∷ rows) row h = ground (
    arith,
    find-append_row name rows row,
    eq_iff row.profile_name name,
    eq_iff x.profile_name name,
    eq_iff x.profile_name row.profile_name,
  )

  pub find-eq-none :
      (name : String) (rows : List (Entrant A))
      → any (is_named name) rows ≡ false
      → find (is_named name) rows ≡ none
  find-eq-none name [] h = refl
  find-eq-none name (row ∷ rows) h = ground (arith, find-eq-none name rows)

  pub row_of-entered :
      (name : String) (row : Entrant A) (reason : Grounds A) (r : Roster A)
      → row_of row.profile_name r ≡ none
      → row_of name (entered row reason r)
        ≡ (if row.profile_name == name then some row else row_of name r)
  unfolding entered
  row_of-entered name row reason r h = find-append_row name r.registry row h

  pub row_of-stamped :
      (name other : String) (g : Entrant A → Entrant A) (r : Roster A)
      → KeepsName g
      → row_of name (stamped other g r)
        ≡ (if other == name then Option.map g (row_of name r) else row_of name r)
  unfolding stamped
  row_of-stamped name other g r h = find-update_where name other g r.registry h

  abbrev pub to_state : State → Moment → Entrant A → Entrant A
  to_state to ts row = record row { state = to; state_changed_at = ts }

  pub row_of-moved :
      (name other : String) (from to : State) (reason : Grounds A) (ts : Moment) (run_id : Option ℕ)
      (r : Roster A)
      → row_of name (moved other from to reason ts run_id r)
        ≡ (if other == name then Option.map (to_state to ts) (row_of name r) else row_of name r)
  unfolding moved
  row_of-moved name other from to reason ts run_id r =
      find-update_where name other (to_state to ts) r.registry (λ row. refl)

  -- The state of a profile, where it is registered.
  abbrev pub state_of : String → Roster A → Option State
  state_of name r = Option.map (λ (row : Entrant A). row.state) (row_of name r)

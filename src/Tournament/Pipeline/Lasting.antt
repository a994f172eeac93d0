-- ===== src/Tournament/Pipeline/Lasting.antt =====
-- What outlasts every call of trader/tournament/pipeline.py: the frozen columns and stamps of a
-- registered strategy, its retirement, and the mark that goes with it.
use mathlib.Core.Option
use mathlib.Core.Path.{subst}
use trader_pxg.Base.{
  String, ◌≡◌, refl, sym, ap, ◌∙◌, Bool, true, false, Option, none, some, ◌==◌, eq_iff,
  if◌then◌else◌, arith, Option-cases, inl, inr, Float,
}
use trader_pxg.Tournament.Registry.{
  Moment, State, candidate, probation, full, retired, Entrant, Roster,
}
use trader_pxg.Tournament.Pipeline.{is_valid}
use trader_pxg.Tournament.Pipeline.Lookup.{
  row_of, state_of, to_state, row_of-entered, row_of-stamped, row_of-moved,
}
use trader_pxg.Tournament.Pipeline.Change.{
  IsKept, IsKept-refl, IsGrown, Change, stays, enters, stamps, moves, trades,
}
use trader_pxg.Tournament.Pipeline.Steps.{Reach, Reach-keeps}

IsKept-trans : {B : Type 0} (o p q : Option B) → IsKept o p → IsKept p q → IsKept o q
IsKept-trans none p q h k = tt
IsKept-trans (some b) p q h k = subst (λ o. IsKept o q) h k

pub not_from_retired : (to : State) → is_valid retired to ≡ false
not_from_retired candidate = refl
not_from_retired probation = refl
not_from_retired full = refl
not_from_retired retired = refl

module _ {A : Type 0} where
  IsGrown-refl : (row : Entrant A) → IsGrown row row
  IsGrown-refl row = record {
    columns_kept = refl;
    backtest_kept = IsKept-refl row.backtest_run_id;
    oos_kept = IsKept-refl row.oos_result_ref;
    paper_30_kept = IsKept-refl row.paper_30_confirmed_at;
  }

  IsGrown-trans : (a b c : Entrant A) → IsGrown a b → IsGrown b c → IsGrown a c
  IsGrown-trans a b c g h = record {
    columns_kept = h.columns_kept ∙ g.columns_kept;
    backtest_kept =
        IsKept-trans a.backtest_run_id b.backtest_run_id c.backtest_run_id g.backtest_kept
          h.backtest_kept;
    oos_kept =
        IsKept-trans a.oos_result_ref b.oos_result_ref c.oos_result_ref g.oos_kept h.oos_kept;
    paper_30_kept =
        IsKept-trans a.paper_30_confirmed_at b.paper_30_confirmed_at c.paper_30_confirmed_at
          g.paper_30_kept h.paper_30_kept;
  }

  -- A registered row is still there, with its columns and stamps.
  abbrev pub Lasts : Option (Entrant A) → Option (Entrant A) → Type 0
  Lasts none after = Unit
  Lasts (some row) after = (grown : Entrant A) × (after ≡ some grown) × IsGrown row grown

  Lasts-refl : (o : Option (Entrant A)) → Lasts o o
  Lasts-refl none = tt
  Lasts-refl (some row) = (row, refl, IsGrown-refl row)

  Lasts-trans : (o p q : Option (Entrant A)) → Lasts o p → Lasts p q → Lasts o q
  Lasts-trans none p q h k = tt
  Lasts-trans (some row) p q (grown, e, g) k =
      let (last, e', g') = subst (λ o. Lasts o q) e k in
      (last, e', IsGrown-trans row grown last g g')

  -- An UPDATE of the row of one name, by a change that keeps what is frozen.
  mapped-Lasts :
      (same : Bool) (g : Entrant A → Entrant A) (o : Option (Entrant A))
      → (same ≡ true → (row : Entrant A) → o ≡ some row → IsGrown row (g row))
      → Lasts o (if same then Option.map g o else o)
  mapped-Lasts same g none h = tt
  mapped-Lasts true g (some row) h = (g row, refl, h refl row refl)
  mapped-Lasts false g (some row) h = (row, refl, IsGrown-refl row)

  pub to_state-IsGrown :
      (to : State) (ts : Moment) (row : Entrant A) → IsGrown row (to_state to ts row)
  to_state-IsGrown to ts row = record {
    columns_kept = refl;
    backtest_kept = IsKept-refl row.backtest_run_id;
    oos_kept = IsKept-refl row.oos_result_ref;
    paper_30_kept = IsKept-refl row.paper_30_confirmed_at;
  }

  absent-Lasts :
      (same : Bool) (row : Entrant A) (o : Option (Entrant A))
      → (same ≡ true → o ≡ none)
      → Lasts o (if same then some row else o)
  absent-Lasts true row o h = subst (λ o. Lasts o (some row)) (sym (h refl)) tt
  absent-Lasts false row o h = Lasts-refl o

  Change-Lasts :
      (name : String) (r after : Roster A)
      → Change r after
      → Lasts (row_of name r) (row_of name after)
  Change-Lasts name r after (stays e) =
      subst (λ a. Lasts (row_of name r) (row_of name a)) (sym e) (Lasts-refl (row_of name r))
  Change-Lasts name r after (enters row reason fresh new e) =
      subst (Lasts (row_of name r))
        (sym (ap (row_of name) e ∙ row_of-entered name row reason r fresh))
        (absent-Lasts (row.profile_name == name) row (row_of name r)
          (λ same. subst (λ n. row_of n r ≡ none) ((eq_iff row.profile_name name).0 same) fresh))
  Change-Lasts name r after (stamps other g stamp e) =
      subst (Lasts (row_of name r))
        (sym (ap (row_of name) e ∙ row_of-stamped name other g r stamp.name_kept))
        (mapped-Lasts (other == name) g (row_of name r) (λ same row there.
          stamp.grown row
            (subst (λ n. row_of n r ≡ some row) (sym ((eq_iff other name).0 same)) there)))
  Change-Lasts name r after (moves other row to reason now run_id db there valid earned marks e) =
      subst (Lasts (row_of name r))
        (sym (ap (row_of name) e ∙ row_of-moved name other row.state to reason now run_id r))
        (mapped-Lasts (other == name) (to_state to now) (row_of name r)
          (λ same x found. to_state-IsGrown to now x))
  Change-Lasts name r after (trades db marks e) =
      subst (λ a. Lasts (row_of name r) (row_of name a)) (sym e) (Lasts-refl (row_of name r))

  Change-retired :
      (name : String) (r after : Roster A)
      → Change r after
      → state_of name r ≡ some retired
      → state_of name after ≡ some retired
  Change-retired name r after (stays e) h = subst (λ a. state_of name a ≡ some retired) (sym e) h
  Change-retired name r after (enters row reason fresh new e) h =
      subst (λ a. state_of name a ≡ some retired) (sym e)
        (ground (arith, row_of-entered name row reason r fresh, eq_iff row.profile_name name))
  Change-retired name r after (stamps other g stamp e) h = elim (Option-cases (row_of name r)) [
    | inl none_there ↦ cc
    | inr (row, there) ↦
        subst (λ a. state_of name a ≡ some retired) (sym e)
          (ground (arith, row_of-stamped name other g r stamp.name_kept, stamp.state_kept row))
  ]
  Change-retired name r after (moves other row to reason now run_id db there valid earned marks e)
        h =
      subst (λ a. state_of name a ≡ some retired) (sym e)
        (ground (
          arith,
          row_of-moved name other row.state to reason now run_id r,
          eq_iff other name,
          not_from_retired to,
        ))
  Change-retired name r after (trades db marks e) h =
      subst (λ a. state_of name a ≡ some retired) (sym e) h

module _ {A : Type 0} ⦃f : Float A⦄ where
  Reach-Lasts :
      (name : String) {r after : Roster A}
      → Reach r after
      → Lasts (row_of name r) (row_of name after)
  Reach-Lasts name {r = r} steps =
      Reach-keeps (λ a. Lasts (row_of name r) (row_of name a))
        (λ a b change h.
          Lasts-trans (row_of name r) (row_of name a) (row_of name b) h
            (Change-Lasts name a b change))
        steps (Lasts-refl (row_of name r))

  -- A registered strategy stays registered through any sequence of calls, with the columns of its
  -- registration and each evidence stamp that it has; once it is retired it stays retired.
  pub Reach-lasting :
      {r after : Roster A} (name : String) (row : Entrant A)
      → Reach r after
      → row_of name r ≡ some row
      → (later : Entrant A) × (row_of name after ≡ some later)
        × IsGrown row later
        × (row.state ≡ retired → later.state ≡ retired)
  Reach-lasting {r = r} {after = after} name row steps there =
      let (later, e, grown) =
        subst (λ o. Lasts o (row_of name after)) there (Reach-Lasts name steps) in
      (
        later,
        e,
        grown,
        λ over.
            let kept =
              Reach-keeps (λ a. state_of name a ≡ some retired) (Change-retired name) steps
                (ground arith) in
            ground arith,
      )

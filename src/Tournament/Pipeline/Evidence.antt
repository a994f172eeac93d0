-- ===== src/Tournament/Pipeline/Evidence.antt =====
-- No stage of trader/tournament/pipeline.py is skippable: the stamps that a state stands for are
-- on the row, but for the incumbents that the migration seeds at 'full'; and a retired strategy
-- carries the mark that the guardian and the entry pipeline read.
use mathlib.Core.Option
use mathlib.Core.Path.{subst}
use trader_pxg.Base.{
  ℕ, String, ◌≡◌, refl, sym, ap, ◌∙◌, ◌⊎◌, Bool, true, false, ◌&&◌, Option, none, some, List, ◌==◌,
  eq_iff, any, if◌then◌else◌, arith, Bool-cases, inl, inr, Float,
}
use trader_pxg.Paper.Store.{Db}
use trader_pxg.Paper.Ledger.{is_strategy_retired}
use trader_pxg.Tournament.Registry.{
  Moment, State, candidate, probation, full, retired, Grounds, Entrant, Transition, Roster,
  same_state,
}
use trader_pxg.Tournament.Pipeline.{is_valid, is_absent, moved, entered, stamped}
use trader_pxg.Tournament.Pipeline.Lookup.{
  row_of, state_of, to_state, row_of-entered, row_of-stamped, row_of-moved,
}
use trader_pxg.Tournament.Pipeline.Change.{
  IsKept, IsGrown, IsStamp, IsEarned, Change, stays, enters, stamps, moves, trades,
}
use trader_pxg.Tournament.Pipeline.Lasting.{to_state-IsGrown}
use trader_pxg.Tournament.Pipeline.Life.{stamped-stands}
use trader_pxg.Tournament.Pipeline.Steps.{Reach, Reach-keeps}

kept_present :
    {B : Type 0} (o p : Option B) → IsKept o p → is_absent o ≡ false → is_absent p ≡ false
kept_present none p k h = cc
kept_present (some b) p k h = ap is_absent k ∙ h

module _ {A : Type 0} where
  -- Registered at 'full' by the seed of the migration.
  abbrev pub is_seed : String → Transition A → Bool
  is_seed name t = t.profile_name == name && is_absent t.from_state && same_state t.to_state full

  abbrev pub is_seeded : List (Transition A) → String → Bool
  is_seeded log name = any (is_seed name) log

  abbrev pub IsBacked : Entrant A → Type 0
  IsBacked row = (is_absent row.backtest_run_id ≡ false) × (is_absent row.oos_result_ref ≡ false)

  abbrev pub IsEvidenced : Bool → State → Entrant A → Type 0
  IsEvidenced seeded candidate row = Unit
  IsEvidenced seeded probation row = IsBacked row
  IsEvidenced seeded full row =
      (seeded ≡ true) ⊎ (IsBacked row × (is_absent row.paper_30_confirmed_at ≡ false))
  IsEvidenced seeded retired row = (seeded ≡ true) ⊎ IsBacked row

  abbrev pub Evidenced : Bool → Option (Entrant A) → Type 0
  Evidenced seeded none = Unit
  Evidenced seeded (some row) = IsEvidenced seeded row.state row

  abbrev pub IsProven : Roster A → Type 0
  IsProven r = (name : String) → Evidenced (is_seeded r.transitions name) (row_of name r)

  grown-IsBacked : (row after : Entrant A) → IsGrown row after → IsBacked row → IsBacked after
  grown-IsBacked row after g (backtest, oos) = (
    kept_present row.backtest_run_id after.backtest_run_id g.backtest_kept backtest,
    kept_present row.oos_result_ref after.oos_result_ref g.oos_kept oos,
  )

  grown-IsEvidenced :
      (seeded : Bool) (s : State) (row after : Entrant A)
      → IsGrown row after
      → IsEvidenced seeded s row
      → IsEvidenced seeded s after
  grown-IsEvidenced seeded candidate row after g h = tt
  grown-IsEvidenced seeded probation row after g h = grown-IsBacked row after g h
  grown-IsEvidenced seeded full row after g (inl h) = inl h
  grown-IsEvidenced seeded full row after g (inr (h, k)) = inr (
    grown-IsBacked row after g h,
    kept_present row.paper_30_confirmed_at after.paper_30_confirmed_at g.paper_30_kept k,
  )
  grown-IsEvidenced seeded retired row after g (inl h) = inl h
  grown-IsEvidenced seeded retired row after g (inr h) = inr (grown-IsBacked row after g h)

  stamped-Evidenced :
      (same seeded : Bool) (g : Entrant A → Entrant A) (o : Option (Entrant A))
      → ((row : Entrant A) → (g row).state ≡ row.state)
      → (same ≡ true → (row : Entrant A) → o ≡ some row → IsGrown row (g row))
      → Evidenced seeded o
      → Evidenced seeded (if same then Option.map g o else o)
  stamped-Evidenced true seeded g none kept grown h = tt
  stamped-Evidenced false seeded g none kept grown h = tt
  stamped-Evidenced true seeded g (some row) kept grown h =
      subst (λ s. IsEvidenced seeded s (g row)) (sym (kept row))
        (grown-IsEvidenced seeded row.state row (g row) (grown refl row refl) h)
  stamped-Evidenced false seeded g (some row) kept grown h = h

  -- A sanctioned and earned move leads to a state whose evidence is there.
  earned-IsEvidenced :
      (seeded : Bool) (from to : State) (name : String) (row : Entrant A) (now : Moment) (db : Db A)
      (r : Roster A)
      → is_valid from to ≡ true
      → IsEarned to name row now db r
      → IsEvidenced seeded from row
      → IsEvidenced seeded to row
  earned-IsEvidenced seeded from candidate name row now db r v earned h = tt
  earned-IsEvidenced seeded from probation name row now db r v earned h = (earned.0, earned.1)
  earned-IsEvidenced seeded probation full name row now db r v earned h = inr (h, earned)
  earned-IsEvidenced seeded candidate full name row now db r v earned h = cc
  earned-IsEvidenced seeded full full name row now db r v earned h = cc
  earned-IsEvidenced seeded retired full name row now db r v earned h = cc
  earned-IsEvidenced seeded probation retired name row now db r v earned h = inr h
  earned-IsEvidenced seeded full retired name row now db r v earned (inl h) = inl h
  earned-IsEvidenced seeded full retired name row now db r v earned (inr h) = inr h.0
  earned-IsEvidenced seeded candidate retired name row now db r v earned h = cc
  earned-IsEvidenced seeded retired retired name row now db r v earned h = cc

  moved-Evidenced :
      (same seeded : Bool) (to : State) (ts : Moment) (o : Option (Entrant A))
      → (same ≡ true
          → (row : Entrant A) → o ≡ some row
          → IsEvidenced seeded to (to_state to ts row))
      → Evidenced seeded o
      → Evidenced seeded (if same then Option.map (to_state to ts) o else o)
  moved-Evidenced true seeded to ts none earned h = tt
  moved-Evidenced false seeded to ts none earned h = tt
  moved-Evidenced true seeded to ts (some row) earned h = earned refl row refl
  moved-Evidenced false seeded to ts (some row) earned h = h

  same_row :
      (name other : String) (x row : Entrant A) (r : Roster A)
      → name == other ≡ true
      → row_of other r ≡ some x
      → row_of name r ≡ some row
      → x ≡ row
  same_row name other x row r same found there = ground (arith, eq_iff name other)

  enters-IsProven :
      (row : Entrant A) (reason : Grounds A) (r : Roster A)
      → row_of row.profile_name r ≡ none
      → row.state ≡ candidate
      → IsProven r
      → IsProven (entered row reason r)
  enters-IsProven row reason r fresh new p name =
      let log = (entered row reason r).transitions in
      let seeded : is_seeded log name ≡ is_seeded r.transitions name =
        unfold entered in ground arith in
      let found = row_of-entered name row reason r fresh in
      subst (Evidenced (is_seeded log name)) (sym found) (
        subst (λ b. Evidenced b (if row.profile_name == name then some row else row_of name r))
          (sym seeded)
          (entering (row.profile_name == name) (is_seeded r.transitions name) (row_of name r)
            (p name)))
    where
      entering :
          (same seeded : Bool) (o : Option (Entrant A))
          → Evidenced seeded o
          → Evidenced seeded (if same then some row else o)
      entering true seeded o h = subst (λ s. IsEvidenced seeded s row) (sym new) tt
      entering false seeded o h = h

  stamps-IsProven :
      (name : String) (g : Entrant A → Entrant A) (r : Roster A)
      → IsStamp (row_of name r) g
      → IsProven r
      → IsProven (stamped name g r)
  stamps-IsProven name g r stamp p other =
      subst (Evidenced (is_seeded (stamped name g r).transitions other))
        (sym (row_of-stamped other name g r stamp.name_kept))
        (unfold stamped in
          stamped-Evidenced (name == other) (is_seeded r.transitions other) g (row_of other r)
            stamp.state_kept
            (λ same row there.
              stamp.grown row
                (subst (λ n. row_of n r ≡ some row) (sym ((eq_iff name other).0 same)) there))
            (p other))

  moves-IsProven :
      (name : String) (row : Entrant A) (to : State) (reason : Grounds A) (now : Moment)
      (run_id : Option ℕ) (db : Db A) (r : Roster A)
      → row_of name r ≡ some row
      → is_valid row.state to ≡ true
      → IsEarned to name row now db r
      → IsProven r
      → IsProven (moved name row.state to reason now run_id r)
  moves-IsProven name row to reason now run_id db r there valid earned p other =
      let after = moved name row.state to reason now run_id r in
      let seeded : is_seeded r.transitions other ≡ is_seeded after.transitions other =
        unfold moved in ground arith in
      let at_name : (n : String)
          → name ≡ n
          → IsEvidenced (is_seeded r.transitions n) row.state row =
        λ n same.
          subst (Evidenced (is_seeded r.transitions n))
            (subst (λ m. row_of m r ≡ some row) same there) (p n) in
      subst (Evidenced (is_seeded after.transitions other))
        (sym (row_of-moved other name row.state to reason now run_id r))
        (subst
          (λ b. Evidenced b (
            if name == other
            then Option.map (to_state to now) (row_of other r)
            else row_of other r))
          seeded
          (moved-Evidenced (name == other) (is_seeded r.transitions other) to now (row_of other r)
            (λ same x found.
              let alike : x ≡ row = same_row name other x row r same found there in
              subst (λ y. IsEvidenced (is_seeded r.transitions other) to (to_state to now y))
                (sym alike)
                (grown-IsEvidenced (is_seeded r.transitions other) to row (to_state to now row)
                  (to_state-IsGrown to now row)
                  (earned-IsEvidenced (is_seeded r.transitions other) row.state to name row now db r
                    valid earned (at_name other ((eq_iff name other).0 same)))))
            (p other)))

  Change-IsProven : (r after : Roster A) → Change r after → IsProven r → IsProven after
  Change-IsProven r after (stays e) p = subst IsProven (sym e) p
  Change-IsProven r after (enters row reason fresh new e) p =
      subst IsProven (sym e) (enters-IsProven row reason r fresh new p)
  Change-IsProven r after (stamps name g stamp e) p =
      subst IsProven (sym e) (stamps-IsProven name g r stamp p)
  Change-IsProven r after (moves name row to reason now run_id db there valid earned marks e) p =
      subst IsProven (sym e)
        (moves-IsProven name row to reason now run_id db r there valid earned p)
  Change-IsProven r after (trades db marks e) p = subst IsProven (sym e) p

  -- A retired strategy has its mark in `strategy_kill_state`.
  abbrev pub IsMarked : Roster A → Type 0
  IsMarked r =
      (name : String) → state_of name r ≡ some retired → is_strategy_retired name r.paper ≡ true

  Change-IsMarked : (r after : Roster A) → Change r after → IsMarked r → IsMarked after
  Change-IsMarked r after (stays e) m = subst IsMarked (sym e) m
  Change-IsMarked r after (enters row reason fresh new e) m =
      subst IsMarked (sym e) λ name over.
        unfold entered in m name (ground (arith, row_of-entered name row reason r fresh))
  Change-IsMarked r after (stamps other g stamp e) m =
      subst IsMarked (sym e)
        λ name over. unfold stamped in m name (sym (stamped-stands name other g r stamp) ∙ over)
  Change-IsMarked r after (moves other row to reason now run_id db there valid earned marks e) m =
      subst IsMarked (sym e) λ name over.
        marks_after name to earned (row_of-moved name other row.state to reason now run_id r) over
    where
      marks_after :
          (name : String) (to : State)
          → IsEarned to other row now db r
          → row_of name (moved other row.state to reason now run_id r) ≡ (
              if other == name then Option.map (to_state to now) (row_of name r) else row_of name r)
          → state_of name (moved other row.state to reason now run_id r) ≡ some retired
          → is_strategy_retired name db ≡ true
      marks_after name candidate earned found over =
          marks name (m name (ground (arith, eq_iff other name)))
      marks_after name probation earned found over =
          marks name (m name (ground (arith, eq_iff other name)))
      marks_after name full earned found over =
          marks name (m name (ground (arith, eq_iff other name)))
      marks_after name retired earned found over = elim (Bool-cases (other == name)) [
        | inl same ↦
            subst (λ n. is_strategy_retired n db ≡ true) ((eq_iff other name).0 same) earned
        | inr apart ↦ marks name (m name (ground arith))
      ]
  Change-IsMarked r after (trades db marks e) m =
      subst IsMarked (sym e) λ name over. marks name (m name over)

module _ {A : Type 0} ⦃f : Float A⦄ where
  -- Through any sequence of calls: a strategy on probation has both evidence stamps, a full one
  -- has them and the confirmation of its paper trades, a retired one has both stamps, but for
  -- strategies that the log shows seeded at 'full'; and each retired one is marked in the kill
  -- state.
  pub Reach-IsProven :
      {r after : Roster A}
      → Reach r after
      → IsProven r
      → IsMarked r
      → IsProven after × IsMarked after
  Reach-IsProven steps p m =
      (Reach-keeps IsProven Change-IsProven steps p, Reach-keeps IsMarked Change-IsMarked steps m)

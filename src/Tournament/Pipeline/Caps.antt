-- ===== src/Tournament/Pipeline/Caps.antt =====
-- The two caps of trader/tournament/pipeline.py: on the active roster, and on the admissions of
-- one quarter.
use mathlib.Core.Path.{subst}
use trader_pxg.Base.{
  ℕ, ◌+◌, ◌≤◌, ◌<◌, String, ◌≡◌, refl, sym, Bool, true, false, ◌&&◌, Option, none, some, List, [],
  ◌∷◌, ◌++◌, eq_iff, leb, nat_eqb, any, find, count_if, update_where, All, arith, Bool-cases, inl,
  inr, Float, count_if-append, any-append,
}
use trader_pxg.Paper.Store.{Db}
use trader_pxg.Tournament.Frozen.{max_active_strategies, max_new_entrants_per_quarter}
use trader_pxg.Tournament.Registry.{
  Moment, iso_digits, State, candidate, probation, full, retired, Grounds, Entrant, Transition,
  Roster, is_named, is_live, is_active,
}
use trader_pxg.Tournament.Pipeline.{
  is_valid, is_admission, is_admission_since, quarter_start, active_count, entrants_this_quarter,
  moved, entered, stamped,
}
use trader_pxg.Tournament.Pipeline.Lookup.{row_of, KeepsName, to_state}
use trader_pxg.Tournament.Pipeline.Change.{
  IsStamp, IsEarned, Change, stays, enters, stamps, moves, trades,
}
use trader_pxg.Tournament.Pipeline.Lasting.{not_from_retired}
use trader_pxg.Tournament.Pipeline.Steps.{Reach, Reach-keeps}

abbrev one_if : Bool → ℕ
one_if true = 1
one_if false = 0

one_if-le : (b : Bool) → one_if b ≤ 1
one_if-le true = omega arith
one_if-le false = omega arith

-- A sanctioned move adds to the active ones only where it is an admission.
one_if-move :
    (from to : State) (active : ℕ)
    → is_valid from to ≡ true
    → active ≤ max_active_strategies
    → (to ≡ probation → leb max_active_strategies active ≡ false)
    → active + one_if (is_active to) ≤ max_active_strategies + one_if (is_active from)
one_if-move candidate candidate active v a h = cc
one_if-move candidate probation active v a h = ground (arith, h refl)
one_if-move candidate full active v a h = cc
one_if-move candidate retired active v a h = cc
one_if-move probation to active v a h = omega (arith, one_if-le (is_active to))
one_if-move full to active v a h = omega (arith, one_if-le (is_active to))
one_if-move retired to active v a h = absurd (not_valid v)
  where
    not_valid : is_valid retired to ≡ true → ⊥
    not_valid e = ground (arith, not_from_retired to)

module _ {A : Type 0} where
  -- `profile_name` is the primary key.
  abbrev pub AreDistinct : List (Entrant A) → Type 0
  AreDistinct [] = Unit
  AreDistinct (row ∷ rows) = (any (is_named row.profile_name) rows ≡ false) × AreDistinct rows

  any-update_row :
      (name other : String) (g : Entrant A → Entrant A) (rows : List (Entrant A))
      → KeepsName g
      → any (is_named name) (update_where (is_named other) g rows) ≡ any (is_named name) rows
  any-update_row name other g [] h = refl
  any-update_row name other g (row ∷ rows) h =
      ground (arith, h row, any-update_row name other g rows h)

  update-AreDistinct :
      (name : String) (g : Entrant A → Entrant A) (rows : List (Entrant A))
      → KeepsName g
      → AreDistinct rows
      → AreDistinct (update_where (is_named name) g rows)
  update-AreDistinct name g [] h d = tt
  update-AreDistinct name g (row ∷ rows) h d = ground (
    arith,
    h row,
    any-update_row row.profile_name name g rows h,
    update-AreDistinct name g rows h,
  )

  append-AreDistinct :
      (row : Entrant A) (rows : List (Entrant A))
      → find (is_named row.profile_name) rows ≡ none
      → AreDistinct rows
      → AreDistinct (rows ++ row ∷ [])
  append-AreDistinct row [] h d = ground arith
  append-AreDistinct row (x ∷ rows) h d = ground (
    arith,
    append-AreDistinct row rows,
    any-append (is_named x.profile_name) rows (row ∷ []),
    eq_iff row.profile_name x.profile_name,
    eq_iff x.profile_name row.profile_name,
  )

  count-update_none :
      (name : String) (g : Entrant A → Entrant A) (rows : List (Entrant A))
      → any (is_named name) rows ≡ false
      → count_if is_live (update_where (is_named name) g rows) ≡ count_if is_live rows
  count-update_none name g [] h = refl
  count-update_none name g (row ∷ rows) h = ground (arith, count-update_none name g rows)

  -- An UPDATE of one row changes the count of the active ones by that row.
  count-update_row :
      (name : String) (g : Entrant A → Entrant A) (rows : List (Entrant A)) (row : Entrant A)
      → AreDistinct rows
      → find (is_named name) rows ≡ some row
      → count_if is_live (update_where (is_named name) g rows) + one_if (is_live row)
        ≡ count_if is_live rows + one_if (is_live (g row))
  count-update_row name g [] row d h = cc
  count-update_row name g (x ∷ rows) row d h = ground (
    arith,
    count-update_none name g rows,
    count-update_row name g rows row,
    eq_iff x.profile_name name,
  )

  pub count-update_state :
      (name : String) (g : Entrant A → Entrant A) (rows : List (Entrant A))
      → ((row : Entrant A) → (g row).state ≡ row.state)
      → count_if is_live (update_where (is_named name) g rows) ≡ count_if is_live rows
  count-update_state name g [] h = refl
  count-update_state name g (row ∷ rows) h = ground (arith, h row, count-update_state name g rows h)

  -- Each admission is at most the last one that the cap allows since the start of its quarter.
  abbrev pub IsPaced : List (Transition A) → Type 0
  IsPaced [] = Unit
  IsPaced (t ∷ ts) =
      (is_admission t ≡ true
        → count_if (is_admission_since (iso_digits (quarter_start t.ts))) ts
          < max_new_entrants_per_quarter)
      × IsPaced ts

  pub record IsCapped (r : Roster A) : Type 0 where
    pub distinct : AreDistinct r.registry
    pub active : active_count r ≤ max_active_strategies
    pub paced : IsPaced r.transitions

  enters-IsCapped :
      (row : Entrant A) (reason : Grounds A) (r : Roster A)
      → row_of row.profile_name r ≡ none
      → row.state ≡ candidate
      → IsCapped r
      → IsCapped (entered row reason r)
  unfolding entered active_count
  enters-IsCapped row reason r fresh new c = record {
    distinct = append-AreDistinct row r.registry fresh c.distinct;
    active = ground (arith, c.active, count_if-append is_live r.registry (row ∷ []));
    paced = (λ admits. cc, c.paced);
  }

  stamps-IsCapped :
      (name : String) (g : Entrant A → Entrant A) (r : Roster A)
      → IsStamp (row_of name r) g
      → IsCapped r
      → IsCapped (stamped name g r)
  unfolding stamped active_count
  stamps-IsCapped name g r stamp c = record {
    distinct = update-AreDistinct name g r.registry stamp.name_kept c.distinct;
    active = omega (arith, c.active, count-update_state name g r.registry stamp.state_kept);
    paced = c.paced;
  }

  earned-room :
      (name : String) (row : Entrant A) (to : State) (now : Moment) (db : Db A) (r : Roster A)
      → IsEarned to name row now db r
      → to ≡ probation
      → (leb max_active_strategies (active_count r) ≡ false)
        × (leb max_new_entrants_per_quarter (entrants_this_quarter now r) ≡ false)
  earned-room name row candidate now db r earned h = cc
  earned-room name row probation now db r earned h = (earned.2, earned.3)
  earned-room name row full now db r earned h = cc
  earned-room name row retired now db r earned h = cc

  moves-IsCapped :
      (name : String) (row : Entrant A) (to : State) (reason : Grounds A) (now : Moment)
      (run_id : Option ℕ) (db : Db A) (r : Roster A)
      → row_of name r ≡ some row
      → is_valid row.state to ≡ true
      → IsEarned to name row now db r
      → IsCapped r
      → IsCapped (moved name row.state to reason now run_id r)
  unfolding moved active_count entrants_this_quarter
  moves-IsCapped name row to reason now run_id db r there valid earned c =
      let room = earned-room name row to now db r earned in
      record {
        distinct = update-AreDistinct name (to_state to now) r.registry (λ x. refl) c.distinct;
        active = omega (
          arith,
          count-update_row name (to_state to now) r.registry row c.distinct there,
          one_if-move row.state to (active_count r) valid c.active (λ e. (room e).0),
        );
        paced = (λ admits. ground (arith, room (ground arith)), c.paced);
      }

  Change-IsCapped : (r after : Roster A) → Change r after → IsCapped r → IsCapped after
  Change-IsCapped r after (stays e) c = subst IsCapped (sym e) c
  Change-IsCapped r after (enters row reason fresh new e) c =
      subst IsCapped (sym e) (enters-IsCapped row reason r fresh new c)
  Change-IsCapped r after (stamps name g stamp e) c =
      subst IsCapped (sym e) (stamps-IsCapped name g r stamp c)
  Change-IsCapped r after (moves name row to reason now run_id db there valid earned marks e) c =
      let m = moves-IsCapped name row to reason now run_id db r there valid earned c in
      subst IsCapped (sym e) (record {
        distinct = m.distinct;
        active = unfold active_count in m.active;
        paced = m.paced;
      })
  Change-IsCapped r after (trades db marks e) c =
      subst IsCapped (sym e) (record {
        distinct = c.distinct;
        active = unfold active_count in c.active;
        paced = c.paced;
      })

  -- A month and a day of a calendar.
  abbrev pub IsDated : Transition A → Type 0
  IsDated t = (1 ≤ t.ts.month) × (1 ≤ t.ts.day)

  -- An admission in the quarter of a time.
  abbrev pub is_admission_in : Moment → Transition A → Bool
  is_admission_in m t =
      is_admission t && nat_eqb (iso_digits (quarter_start t.ts)) (iso_digits (quarter_start m))

  quarter_start-le :
      (t : Transition A) → IsDated t → iso_digits (quarter_start t.ts) ≤ iso_digits t.ts
  unfolding iso_digits quarter_start
  quarter_start-le t d = omega arith

  count-in_quarter :
      (m : Moment) (log : List (Transition A))
      → All IsDated log
      → count_if (is_admission_in m) log
        ≤ count_if (is_admission_since (iso_digits (quarter_start m))) log
  count-in_quarter m [] d = omega arith
  count-in_quarter m (t ∷ ts) d = ground (arith, count-in_quarter m ts, quarter_start-le t)

  IsPaced-quarter :
      (m : Moment) (log : List (Transition A))
      → All IsDated log
      → IsPaced log
      → count_if (is_admission_in m) log ≤ max_new_entrants_per_quarter
  IsPaced-quarter m [] d p = omega arith
  IsPaced-quarter m (t ∷ ts) d p = elim (Bool-cases (is_admission_in m t)) [
    | inl e ↦
        let same : iso_digits (quarter_start t.ts) ≡ iso_digits (quarter_start m) = ground arith in
        let few : count_if (is_admission_since (iso_digits (quarter_start m))) ts
            < max_new_entrants_per_quarter =
          subst (λ q. count_if (is_admission_since q) ts < max_new_entrants_per_quarter) same
            (p.0 (ground arith)) in
        let quarter = count-in_quarter m ts d.1 in rw e (omega arith)
    | inr e ↦ rw e (IsPaced-quarter m ts d.1 p.1)
  ]

module _ {A : Type 0} ⦃f : Float A⦄ where
  -- Through any sequence of calls, names stay distinct, no more strategies are active than the cap
  -- allows, and in each calendar quarter no more are admitted than its cap allows, whatever the
  -- order of the times in a log whose times are dates.
  pub Reach-IsCapped :
      {r after : Roster A}
      → Reach r after
      → IsCapped r
      → All IsDated after.transitions
      → AreDistinct after.registry
        × (active_count after ≤ max_active_strategies)
        × ((m : Moment)
            → count_if (is_admission_in m) after.transitions ≤ max_new_entrants_per_quarter)
  Reach-IsCapped {after = after} steps c dated =
      let capped = Reach-keeps IsCapped Change-IsCapped steps c in
      (capped.distinct, capped.active, λ m. IsPaced-quarter m after.transitions dated capped.paced)

-- ===== src/Tournament/Judge/Whole.antt =====
-- A whole run of trader/tournament/judge.py: it returns, with one decision for each active strategy
-- and each candidate, and the registry is as the decisions say.
use mathlib.Core.Path.{subst}
use trader_pxg.Base.{
  ℕ, String, ◌≡◌, refl, ap, sym, ◌∙◌, Bool, true, false, some, List, [], ◌∷◌, ◌++◌, map, ltb, ◌==◌,
  count_if, keep_if, sort_by, In, here, there, eq_iff, All, All-every, All-map, All-keep_if, arith,
  Float, IsTotalOrder, float_zero, ok,
}
use trader_pxg.Backtest.Metrics.{Metrics}
use trader_pxg.Paper.Store.{PaperTrade, Db}
use trader_pxg.Paper.Guardian.Kill.{paper_account_equity}
use trader_pxg.Tournament.Frozen.{min_trades_for_judging}
use trader_pxg.Tournament.Registry.{
  Moment, State, candidate, probation, full, retired, Entrant, Roster, is_live, by_name,
  get_registry_rows,
}
use trader_pxg.Tournament.Pipeline.Lookup.{row_of}
use trader_pxg.Tournament.Pipeline.Caps.{AreDistinct}
use trader_pxg.Tournament.Judge.{
  Decision, Recorded, Judged, Verdicts, judge_active, judge_candidate, rank_full_strategies,
  is_eligible,
}
use trader_pxg.Tournament.Judge.Run.{
  Bench, RunSummary, is_candidate, rounds, decide, next_run_id, run_opened, run_closed, concluded,
  registry_states, run_tournament_once,
}
use trader_pxg.Tournament.Judge.Round.{judge_active-Settled, judge_candidate-Settled}
use trader_pxg.Tournament.Judge.Settled.{
  is_among, AreDifferent, IsStated, names_of, AllSettled, then-AllSettled, Settles,
  rounds-AllSettled,
}
use trader_pxg.Tournament.Judge.Rows.{
  All-sort_by, All-kept, IsFoundIn, All-found, sort_by-AreDistinct, kept-AreDistinct, entrant_names,
  names-AreDifferent, candidates-apart,
}
use trader_pxg.Tournament.Judge.Measured.{All-In, IsMeasured, judge_all-total, eligible-rank}

module _ {A : Type 0} where
  candidate-state : (row : Entrant A) → is_candidate row ≡ true → row.state ≡ candidate
  candidate-state row h = by_state row.state h
    where
      by_state : (s : State) → is_candidate (record row { state = s }) ≡ true → s ≡ candidate
      by_state candidate h = refl
      by_state probation h = cc
      by_state full h = cc
      by_state retired h = cc

  full-eligible :
      (row : Entrant A) (m : Metrics A)
      → ltb m.trade_count min_trades_for_judging ≡ false
      → row.state ≡ full
      → is_eligible (row, m) ≡ true
  full-eligible row m enough e = ground arith

-- No name is in both lists.
abbrev AreApart : List String → List String → Type 0
AreApart ns ms = All (λ name. is_among name ms ≡ false) ns

apart-cons :
    (n : String) (ns ms : List String)
    → is_among n ms ≡ false
    → AreApart ms ns
    → AreApart ms (n ∷ ns)
apart-cons n ns [] h k = tt
apart-cons n ns (m ∷ ms) h (k, ks) =
    (ground (arith, eq_iff n m, eq_iff m n), apart-cons n ns ms (ground arith) ks)

apart-sym : (ns ms : List String) → AreApart ns ms → AreApart ms ns
apart-sym [] ms h = All-every (λ name. refl) ms
apart-sym (n ∷ ns) ms (h, hs) = apart-cons n ns ms h (apart-sym ns ms hs)

module _ {X : Type 0} where
  All-lookup : (P : X → Type 0) (xs : List X) {x : X} → All P xs → In x xs → P x
  All-lookup P [] h i = elim i [ ]
  All-lookup P (x ∷ xs) (h, hs) here = h
  All-lookup P (x ∷ xs) (h, hs) (there i) = All-lookup P xs hs i

  All-unmap :
      {Y : Type 0} (P : Y → Type 0) (g : X → Y) (xs : List X)
      → All P (map g xs)
      → All (λ x. P (g x)) xs
  All-unmap P g [] h = tt
  All-unmap P g (x ∷ xs) (h, hs) = (h, All-unmap P g xs hs)

  map-map :
      {Y Z : Type 0} (h : Y → Z) (g : X → Y) (xs : List X)
      → map (λ x. h (g x)) xs ≡ map h (map g xs)
  map-map h g [] = refl
  map-map h g (x ∷ xs) = ap (λ rest. h (g x) ∷ rest) (map-map h g xs)

module _ {A : Type 0} where
  -- The rows that the run reads, each found under its name.
  rows-found :
      (p : Entrant A → Bool) (le : String → String → Bool) (r : Roster A)
      → AreDistinct r.registry
      → All
          (λ (row : Entrant A). row_of row.profile_name r ≡ some row)
          (keep_if p (get_registry_rows le r))
  unfolding get_registry_rows
  rows-found p le r d =
      All-kept (IsFoundIn r.registry) p (sort_by (by_name le) r.registry)
        (All-sort_by (IsFoundIn r.registry) (by_name le) r.registry (All-found r.registry d))

  -- Rows of names that a loop did not touch are as they were.
  candidates-there :
      (names : List String) (rows : List (Entrant A)) (r middle : Roster A)
      → ((other : String) → is_among other names ≡ false → row_of other middle ≡ row_of other r)
      → AreApart (entrant_names rows) names
      → All (λ (row : Entrant A). row_of row.profile_name r ≡ some row) rows
      → All (λ (row : Entrant A). row_of row.profile_name middle ≡ some row) rows
  candidates-there names [] r middle others apart h = tt
  candidates-there names (row ∷ rows) r middle others (away, apart) (h, hs) =
      (others row.profile_name away ∙ h, candidates-there names rows r middle others apart hs)

  rows-AreDistinct :
      (le : String → String → Bool) (r : Roster A)
      → AreDistinct r.registry
      → AreDistinct (get_registry_rows le r)
  unfolding get_registry_rows
  rows-AreDistinct le r d = sort_by-AreDistinct (by_name le) r.registry d

module _ {A : Type 0} ⦃f : Float A⦄ (o : IsTotalOrder f) (now : Moment) (run_id : ℕ) where
  -- The rounds of the first loop, on what was measured.
  active-Settles :
      (decisions : List (Recorded A)) (judged : List (Judged A)) (db : Db A) (x : Judged A)
      → In x judged
      → is_live x.0 ≡ true
      → IsMeasured db x
      → Settles
          (λ (x : Judged A). x.0)
          (judge_active now run_id decisions (rank_full_strategies (keep_if is_eligible judged)))
          db.trades
          x
  active-Settles decisions judged db (row, m) i live measured r same found =
      judge_active-Settled o now run_id decisions
        (rank_full_strategies (keep_if is_eligible judged)) row m r found live
        (λ enough.
          subst
            (λ trades.
              ltb (count_if (λ (t : PaperTrade A). t.strategy_id == row.profile_name) trades)
                min_trades_for_judging
              ≡ false)
            (sym same) (ground arith))
        (λ enough e. eligible-rank judged (row, m) i (full-eligible row m enough e))

  candidate-Settles :
      (db : Db A) (row : Entrant A)
      → is_candidate row ≡ true
      → Settles (λ row. row) (judge_candidate now run_id) db.trades row
  candidate-Settles db row h r same found =
      judge_candidate-Settled now run_id row r found (candidate-state row h)

  -- Both loops, on the rows of the registry and what was measured of them.
  decide-AllSettled :
      (le : String → String → Bool) (decisions : List (Recorded A)) (judged : List (Judged A))
      (r : Roster A)
      → AreDistinct r.registry
      → map (λ (x : Judged A). x.0) judged ≡ keep_if is_live (get_registry_rows le r)
      → All (IsMeasured r.paper) judged
      → AllSettled
          (entrant_names (keep_if is_live (get_registry_rows le r))
            ++ entrant_names (keep_if is_candidate (get_registry_rows le r)))
          r
          (decide now run_id decisions judged (keep_if is_candidate (get_registry_rows le r)) r)
  unfolding decide
  decide-AllSettled le decisions judged r d same measured =
      let rows = get_registry_rows le r in
      let actives = keep_if is_live rows in
      let candidates = keep_if is_candidate rows in
      let ranks = rank_full_strategies (keep_if is_eligible judged) in
      let row_at = λ (x : Judged A). x.0 in
      let distinct = rows-AreDistinct le r d in
      let names =
        map-map (λ (row : Entrant A). row.profile_name) row_at judged ∙ ap entrant_names same in
      let live =
        All-unmap (λ (row : Entrant A). is_live row ≡ true) row_at judged
          (subst (All (λ (row : Entrant A). is_live row ≡ true)) (sym same)
            (All-keep_if is_live rows)) in
      let first =
        rounds-AllSettled row_at (judge_active now run_id decisions ranks) r.paper.trades judged r
          (subst AreDifferent (sym names)
            (names-AreDifferent actives (kept-AreDistinct is_live rows distinct)))
          refl
          (All-unmap (λ (row : Entrant A). row_of row.profile_name r ≡ some row) row_at judged
            (subst (All (λ (row : Entrant A). row_of row.profile_name r ≡ some row)) (sym same)
              (rows-found is_live le r d)))
          (All-In _ judged (λ x i.
            active-Settles decisions judged r.paper x i
              (All-lookup (λ (x : Judged A). is_live x.0 ≡ true) judged live i)
              (All-lookup (IsMeasured r.paper) judged measured i))) in
      let begun =
        subst (λ ns. AllSettled ns r (rounds (judge_active now run_id decisions ranks) judged r))
          names first in
      let middle = (rounds (judge_active now run_id decisions ranks) judged r).0 in
      then-AllSettled (entrant_names actives) (entrant_names candidates) r
        (rounds (judge_active now run_id decisions ranks) judged r)
        (rounds (judge_candidate now run_id) candidates) begun
        (rounds-AllSettled (λ row. row) (judge_candidate now run_id) r.paper.trades candidates
          middle (names-AreDifferent candidates (kept-AreDistinct is_candidate rows distinct))
          begun.trades_kept
          (candidates-there (entrant_names actives) candidates r middle begun.others
            (apart-sym (entrant_names actives) (entrant_names candidates)
              (candidates-apart rows distinct))
            (rows-found is_candidate le r d))
          (All-map (λ (row : Entrant A) h. candidate-Settles r.paper row h) candidates
            (All-keep_if is_candidate rows)))
        (candidates-apart rows distinct)

module _ {A : Type 0} ⦃f : Float A⦄ where
  concluded-settles :
      (digest : List (String × State) → String) (le : String → String → Bool) (run_id : ℕ)
      (hash_before : String) (b : Bench A) (names : List String) (r : Roster A)
      (v : Verdicts A (List (Decision A)))
      → AllSettled names r v
      → (after : Bench A) × (s : RunSummary A) × (concluded digest le run_id hash_before b v
          ≡ (after, ok s))
        × (names_of s.decisions ≡ names)
        × All (IsStated after.roster) s.decisions
  unfolding run_closed
  concluded-settles digest le run_id hash_before b names r (after, answer) h =
      rw h.answered (_, _, refl, h.named, h.stated)

  -- With floats in total order, a positive equity and distinct names, a run that the gate lets
  -- through returns: it decides on each strategy that was active and each candidate, once and in
  -- the order of the names, and each decision's new state is the state in the registry afterwards.
  pub run_tournament_once-settles :
      (o : IsTotalOrder f) (digest : List (String × State) → String) (le : String → String → Bool)
      (now : Moment) (b : Bench A)
      → f.less float_zero paper_account_equity ≡ true
      → AreDistinct b.roster.registry
      → (after : Bench A) × (s : RunSummary A) × (run_tournament_once true digest le now b
          ≡ (after, ok s))
        × (names_of s.decisions
            ≡ entrant_names (keep_if is_live (get_registry_rows le b.roster))
              ++ entrant_names (keep_if is_candidate (get_registry_rows le b.roster)))
        × All (IsStated after.roster) s.decisions
  unfolding run_tournament_once
  run_tournament_once-settles o digest le now b pos d =
      let rows = keep_if is_live (get_registry_rows le b.roster) in
      let (judged, measured, same, counted) = judge_all-total o b.roster.paper rows pos in
      rw measured (
        concluded-settles digest le (next_run_id b.runs) (digest (registry_states le b.roster))
          (run_opened digest le now judged b) _ b.roster
          (decide now (next_run_id b.runs) b.decisions judged
            (keep_if is_candidate (get_registry_rows le b.roster)) b.roster)
          (decide-AllSettled o now (next_run_id b.runs) le b.decisions judged b.roster d same
            counted))

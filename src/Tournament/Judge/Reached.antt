-- ===== src/Tournament/Judge/Reached.antt =====
-- A run of trader/tournament/judge.py changes the roster by the pipeline's own calls alone.
use trader_pxg.Base.{
  ℕ, String, ◌≡◌, refl, Bool, true, false, some, List, [], ◌∷◌, Float, Result, ok, err, leb,
  keep_if, if◌then◌else◌,
}
use trader_pxg.Backtest.Metrics.{Metrics}
use trader_pxg.Tournament.Frozen.{demotion_sustain_evaluations}
use trader_pxg.Tournament.Registry.{
  Moment, State, candidate, probation, full, retired, demoted, Entrant, Roster, is_live,
  get_registry_rows,
}
use trader_pxg.Tournament.Pipeline.{confirm_paper_30}
use trader_pxg.Tournament.Pipeline.Steps.{
  Call, probation_entered, paper_30_checked, full_entered, retirement, Calls, none_made, made,
}
use trader_pxg.Tournament.Judge.{
  Decision, Recorded, Judged, Verdicts, applied, admitted_or_queued, judge_candidate,
  judge_confirmed, judge_probation, judge_struck, judge_ranked, judge_eligible, judge_active,
  rank_of, rank_full_strategies, is_eligible,
}
use trader_pxg.Tournament.Judge.Run.{
  Bench, one_decision, extended, then_loop, rounds, run_opened, run_closed, concluded, judge_all,
  decide, run_judged, run_tournament_once, next_run_id, registry_states, is_candidate,
}

module _ {A : Type 0} ⦃f : Float A⦄ where
  Calls-trans : {r middle after : Roster A} → Calls r middle → Calls middle after → Calls r after
  Calls-trans steps none_made = steps
  Calls-trans steps (made more step) = made (Calls-trans steps more) step

  -- Whether or not it raises, the roster that it leaves was reached.
  record Reaches {B : Type 0} (r : Roster A) (v : Verdicts A B) : Type 0 where
    reached : Calls r v.0

  stays : {B : Type 0} {r : Roster A} {m : Result B} → Reaches r (r, m)
  stays = record { reached = none_made }

  by_step : {B : Type 0} {r after : Roster A} {m : Result B} → Call r after → Reaches r (after, m)
  by_step step = record { reached = made none_made step }

  applied-Reaches :
      {B : Type 0} (r : Roster A) (m : Result (Roster A)) (b : B)
      → ((after : Roster A) → m ≡ ok after → Call r after)
      → Reaches r (applied r m b)
  applied-Reaches r (ok after) b step = by_step (step after refl)
  applied-Reaches r (err e) b step = stays

  admitted-Reaches :
      (row : Entrant A) (r : Roster A) (m : Result (Roster A))
      → ((after : Roster A) → m ≡ ok after → Call r after)
      → Reaches r (admitted_or_queued row r m)
  admitted-Reaches row r (ok after) step = by_step (step after refl)
  admitted-Reaches row r (err e) step = stays

  if-Reaches :
      {B : Type 0} {r : Roster A} (b : Bool) (v w : Verdicts A B)
      → Reaches r v
      → Reaches r w
      → Reaches r (if b then v else w)
  if-Reaches true v w p q = p
  if-Reaches false v w p q = q

  step-Reaches :
      {B : Type 0} {r middle : Roster A} {v : Verdicts A B}
      → Call r middle
      → Reaches middle v
      → Reaches r v
  step-Reaches step h = record { reached = Calls-trans (made none_made step) h.reached }

  judge_candidate-Reaches :
      (now : Moment) (run_id : ℕ) (row : Entrant A) (r : Roster A)
      → Reaches r (judge_candidate now run_id row r)
  unfolding judge_candidate
  judge_candidate-Reaches now run_id row r =
      if-Reaches _ _ _ stays (
        admitted-Reaches row r _
          (λ after h. probation_entered row.profile_name now (some run_id) h))

  confirmed-Reaches :
      (now : Moment) (run_id : ℕ) (row : Entrant A) (m : Metrics A) (r : Roster A)
      (answer : Result (Bool × Roster A))
      → confirm_paper_30 row.profile_name now r ≡ answer
      → Reaches r (judge_confirmed now run_id row m r answer)
  confirmed-Reaches now run_id row m r (err e) h = stays
  confirmed-Reaches now run_id row m r (ok (confirmed, after)) h =
      let step = paper_30_checked row.profile_name now confirmed h in
      if-Reaches _ _ _
        (step-Reaches step (
          applied-Reaches after _ _
            (λ last e. full_entered row.profile_name m.sharpe_ratio now (some run_id) e)))
        (by_step step)

  struck-Reaches :
      (now : Moment) (run_id : ℕ) (row : Entrant A) (m : Metrics A) (rank count streak : ℕ)
      (r : Roster A)
      → Reaches r (judge_struck now run_id row m rank count streak r)
  unfolding judge_struck
  struck-Reaches now run_id row m rank count streak r =
      if-Reaches (leb demotion_sustain_evaluations streak) _ _
        (applied-Reaches r _ _ (λ after e.
          retirement row.profile_name (demoted rank count m.sharpe_ratio streak) m.sharpe_ratio now
            (some run_id) e))
        stays

  ranked-Reaches :
      (now : Moment) (run_id : ℕ) (decisions : List (Recorded A)) (ranks : List (String × ℕ))
      (row : Entrant A) (m : Metrics A) (rank : Result ℕ) (r : Roster A)
      → Reaches r (judge_ranked now run_id decisions ranks row m rank r)
  ranked-Reaches now run_id decisions ranks row m (err e) r = stays
  ranked-Reaches now run_id decisions ranks row m (ok rank) r =
      if-Reaches _ _ _ (struck-Reaches now run_id row m rank _ _ r) stays

  eligible-Reaches :
      (now : Moment) (run_id : ℕ) (decisions : List (Recorded A)) (ranks : List (String × ℕ))
      (s : State) (row : Entrant A) (m : Metrics A) (r : Roster A)
      → Reaches r (judge_eligible now run_id decisions ranks s row m r)
  unfolding judge_probation
  eligible-Reaches now run_id decisions ranks probation row m r =
      confirmed-Reaches now run_id row m r (confirm_paper_30 row.profile_name now r) refl
  eligible-Reaches now run_id decisions ranks candidate row m r =
      ranked-Reaches now run_id decisions ranks row m (rank_of row.profile_name ranks) r
  eligible-Reaches now run_id decisions ranks full row m r =
      ranked-Reaches now run_id decisions ranks row m (rank_of row.profile_name ranks) r
  eligible-Reaches now run_id decisions ranks retired row m r =
      ranked-Reaches now run_id decisions ranks row m (rank_of row.profile_name ranks) r

  judge_active-Reaches :
      (now : Moment) (run_id : ℕ) (decisions : List (Recorded A)) (ranks : List (String × ℕ))
      (x : Judged A) (r : Roster A)
      → Reaches r (judge_active now run_id decisions ranks x r)
  unfolding judge_active
  judge_active-Reaches now run_id decisions ranks (row, m) r =
      if-Reaches _ _ _ stays (eligible-Reaches now run_id decisions ranks row.state row m r)

  one-Reaches :
      {r : Roster A} (v : Verdicts A (Decision A)) → Reaches r v → Reaches r (one_decision v)
  one-Reaches (after, ok d) h = record { reached = h.reached }
  one-Reaches (after, err e) h = record { reached = h.reached }

  extended-Reaches :
      {r : Roster A} (ds : List (Decision A)) (v : Verdicts A (List (Decision A)))
      → Reaches r v
      → Reaches r (extended ds v)
  extended-Reaches ds (after, ok more) h = record { reached = h.reached }
  extended-Reaches ds (after, err e) h = record { reached = h.reached }

  then-Reaches :
      {r : Roster A} (v : Verdicts A (List (Decision A)))
      (rest : Roster A → Verdicts A (List (Decision A)))
      → Reaches r v
      → ((middle : Roster A) → Reaches middle (rest middle))
      → Reaches r (then_loop v rest)
  then-Reaches (middle, ok ds) rest h more = record {
    reached = Calls-trans h.reached (extended-Reaches ds (rest middle) (more middle)).reached;
  }
  then-Reaches (middle, err e) rest h more = h

  rounds-Reaches :
      {X : Type 0} (judge : X → Roster A → Verdicts A (Decision A))
      → ((x : X) (r : Roster A) → Reaches r (judge x r))
      → (xs : List X) (r : Roster A) → Reaches r (rounds judge xs r)
  rounds-Reaches judge each [] r = stays
  rounds-Reaches judge each (x ∷ xs) r =
      then-Reaches (one_decision (judge x r)) (rounds judge xs) (one-Reaches (judge x r) (each x r))
        (rounds-Reaches judge each xs)

  decide-Reaches :
      (now : Moment) (run_id : ℕ) (decisions : List (Recorded A)) (judged : List (Judged A))
      (candidates : List (Entrant A)) (r : Roster A)
      → Reaches r (decide now run_id decisions judged candidates r)
  unfolding decide
  decide-Reaches now run_id decisions judged candidates r =
      let ranks = rank_full_strategies (keep_if is_eligible judged) in
      then-Reaches (rounds (judge_active now run_id decisions ranks) judged r)
        (rounds (judge_candidate now run_id) candidates)
        (rounds-Reaches _ (judge_active-Reaches now run_id decisions ranks) judged r)
        (rounds-Reaches _ (judge_candidate-Reaches now run_id) candidates)

  concluded-Reaches :
      (digest : List (String × State) → String) (le : String → String → Bool) (run_id : ℕ)
      (hash_before : String) (b : Bench A) (v : Verdicts A (List (Decision A))) {r : Roster A}
      → Reaches r v
      → Calls r (concluded digest le run_id hash_before b v).0.roster
  unfolding run_closed
  concluded-Reaches digest le run_id hash_before b (after, ok ds) h = h.reached
  concluded-Reaches digest le run_id hash_before b (after, err e) h = h.reached

  run_judged-Reaches :
      (digest : List (String × State) → String) (le : String → String → Bool) (now : Moment)
      (b : Bench A) (answer : Result (List (Judged A)))
      → Calls b.roster (run_judged digest le now b answer).0.roster
  run_judged-Reaches digest le now b (err e) = none_made
  run_judged-Reaches digest le now b (ok judged) =
      concluded-Reaches digest le (next_run_id b.runs) (digest (registry_states le b.roster))
        (run_opened digest le now judged b) _
        (decide-Reaches now (next_run_id b.runs) b.decisions judged
          (keep_if is_candidate (get_registry_rows le b.roster)) b.roster)

  -- A run of the tournament, whether it returns, raises or is refused by the gate, changes the
  -- roster and the tables of paper trading by calls of the pipeline that returned, one after the
  -- other, and by nothing else.
  pub run_tournament_once-Calls :
      (is_frozen : Bool) (digest : List (String × State) → String) (le : String → String → Bool)
      (now : Moment) (b : Bench A)
      → Calls b.roster (run_tournament_once is_frozen digest le now b).0.roster
  unfolding run_tournament_once
  run_tournament_once-Calls false digest le now b = none_made
  run_tournament_once-Calls true digest le now b =
      run_judged-Reaches digest le now b
        (judge_all b.roster.paper (keep_if is_live (get_registry_rows le b.roster)))

-- ===== src/Tournament/Judge/Run.antt =====
-- The whole run of trader/tournament/judge.py, `run_tournament_once`: the gate, the judging, the
-- rules, the admissions, the records.
use trader_pxg.Base.{
  ℕ, suc, String, Bool, true, false, Option, none, some, List, [], ◌∷◌, ◌++◌, map, count_if,
  keep_if, nat_eqb, update_where, if◌then◌else◌, Float, Result, ok, err, ◌>>=◌, runtime_error,
}
use trader_pxg.Paper.Store.{Db}
use trader_pxg.Tournament.Registry.{
  Moment, State, candidate, Entrant, Roster, same_state, is_live, get_registry_rows,
}
use trader_pxg.Tournament.Judge.{
  Verdict, promote, retire, hold, enter, Decision, Recorded, Judged, Verdicts, is_eligible,
  judge_candidate, judge_strategy, rank_full_strategies, judge_active,
}

-- A row of `inputs_snapshot_json`.
pub record Input (A : Type 0) : Type 0 where
  pub profile_name : String
  pub state : State
  pub trade_count : ℕ
  pub sharpe : Option A
  pub profit_factor : Option A

-- `tournament_runs`, but for the path of the report and the hash of the frozen rules.
pub record TournamentRun (A : Type 0) : Type 0 where
  pub run_id : ℕ
  pub ts : Moment
  pub registry_hash_before : String
  pub registry_hash_after : Option String
  pub inputs_snapshot : List (Input A)

-- What the run reads and writes: the roster, and the tables of runs and decisions, newest first.
pub record Bench (A : Type 0) : Type 0 where
  pub roster : Roster A
  pub runs : List (TournamentRun A)
  pub decisions : List (Recorded A)

-- `counts`
pub record Counts : Type 0 where
  pub promoted : ℕ
  pub retired : ℕ
  pub held : ℕ
  pub entered : ℕ

-- The dict that is returned.
pub record RunSummary (A : Type 0) : Type 0 where
  pub run_id : ℕ
  pub decisions : List (Decision A)
  pub counts : Counts
  pub registry_hash_before : String
  pub registry_hash_after : String

abbrev pub same_verdict : Verdict → Verdict → Bool
same_verdict promote promote = true
same_verdict retire retire = true
same_verdict hold hold = true
same_verdict enter enter = true
same_verdict _ _ = false

module _ {A : Type 0} where
  -- The text that is hashed: the names with their states, in the order of the names.
  unfoldable pub registry_states : (String → String → Bool) → Roster A → List (String × State)
  registry_states le r =
      map (λ (row : Entrant A). (row.profile_name, row.state)) (get_registry_rows le r)

  abbrev pub input_of : Judged A → Input A
  input_of (row, m) = record {
    profile_name = row.profile_name;
    state = row.state;
    trade_count = m.trade_count;
    sharpe = m.sharpe_ratio;
    profit_factor = m.profit_factor;
  }

  abbrev pub is_candidate : Entrant A → Bool
  is_candidate row = same_state row.state candidate

  abbrev pub counts_of : List (Decision A) → Counts
  counts_of decisions = record {
    promoted = count_if (λ (d : Decision A). same_verdict d.decision promote) decisions;
    retired = count_if (λ (d : Decision A). same_verdict d.decision retire) decisions;
    held = count_if (λ (d : Decision A). same_verdict d.decision hold) decisions;
    entered = count_if (λ (d : Decision A). same_verdict d.decision enter) decisions;
  }

  -- `_record_decision`, for each of the decisions in turn.
  unfoldable pub record_decisions : ℕ → List (Decision A) → List (Recorded A) → List (Recorded A)
  record_decisions run_id [] rows = rows
  record_decisions run_id (d ∷ ds) rows =
      record_decisions run_id ds (record { run_id = run_id; decided = d } ∷ rows)

  -- `cursor.lastrowid`: one more than the last run's, whose rows are never deleted.
  abbrev pub next_run_id : List (TournamentRun A) → ℕ
  next_run_id [] = 1
  next_run_id (run ∷ _) = suc run.run_id

  -- A round's decision is appended to the list of decisions.
  abbrev pub one_decision : Verdicts A (Decision A) → Verdicts A (List (Decision A))
  one_decision (r, err e) = (r, err e)
  one_decision (r, ok d) = (r, ok (d ∷ []))

  abbrev pub extended :
      List (Decision A) → Verdicts A (List (Decision A)) → Verdicts A (List (Decision A))
  extended ds (r, err e) = (r, err e)
  extended ds (r, ok more) = (r, ok (ds ++ more))

  -- What follows a loop or a round that no raise ended.
  abbrev pub then_loop :
      Verdicts A (List (Decision A))
      → (Roster A → Verdicts A (List (Decision A)))
      → Verdicts A (List (Decision A))
  then_loop (r, err e) rest = (r, err e)
  then_loop (r, ok ds) rest = extended ds (rest r)

  abbrev pub rounds :
      {X : Type 0}
      → (X → Roster A → Verdicts A (Decision A))
      → List X
      → Roster A
      → Verdicts A (List (Decision A))
  rounds judge [] r = (r, ok [])
  rounds judge (x ∷ xs) r = then_loop (one_decision (judge x r)) (rounds judge xs)

  -- The INSERT of the run, before any decision.
  unfoldable pub run_opened :
      (List (String × State) → String)
      → (String → String → Bool)
      → Moment
      → List (Judged A)
      → Bench A
      → Bench A
  unfolding registry_states
  run_opened digest le now judged b = record b {
    runs =
        record {
          run_id = next_run_id b.runs;
          ts = now;
          registry_hash_before = digest (registry_states le b.roster);
          registry_hash_after = none;
          inputs_snapshot = map input_of judged;
        }
        ∷ b.runs;
  }

  abbrev pub is_run : ℕ → TournamentRun A → Bool
  is_run run_id run = nat_eqb run.run_id run_id

  -- The decisions' rows, and the UPDATE of the run.
  unfoldable pub run_closed : ℕ → String → List (Decision A) → Bench A → Bench A
  unfolding record_decisions
  run_closed run_id hash_after ds b = record b {
    runs =
        update_where (is_run run_id) (λ run. record run { registry_hash_after = some hash_after })
          b.runs;
    decisions = record_decisions run_id ds b.decisions;
  }

  -- After the loops; a raise in them leaves the run open, and its decisions unwritten.
  abbrev pub concluded :
      (List (String × State) → String)
      → (String → String → Bool)
      → ℕ
      → String
      → Bench A
      → Verdicts A (List (Decision A))
      → Bench A × Result (RunSummary A)
  concluded digest le run_id hash_before b (r, err e) = (record b { roster = r }, err e)
  concluded digest le run_id hash_before b (r, ok ds) =
      let hash_after = digest (registry_states le r) in
      (
        run_closed run_id hash_after ds (record b { roster = r }),
        ok (record {
          run_id = run_id;
          decisions = ds;
          counts = counts_of ds;
          registry_hash_before = hash_before;
          registry_hash_after = hash_after;
        }),
      )

module _ {A : Type 0} ⦃f : Float A⦄ where
  abbrev pub judge_all : Db A → List (Entrant A) → Result (List (Judged A))
  judge_all db [] = ok []
  judge_all db (row ∷ rows) = judge_strategy row.profile_name db >>= λ m.
      judge_all db rows >>= λ judged. ok ((row, m) ∷ judged)

  -- The two loops.
  unfoldable pub decide :
      Moment
      → ℕ
      → List (Recorded A)
      → List (Judged A)
      → List (Entrant A)
      → Roster A
      → Verdicts A (List (Decision A))
  unfolding judge_active judge_candidate rank_full_strategies
  decide now run_id decisions judged candidates r =
      let ranks = rank_full_strategies (keep_if is_eligible judged) in
      then_loop (rounds (judge_active now run_id decisions ranks) judged r)
        (rounds (judge_candidate now run_id) candidates)

  -- From the judging on.
  abbrev pub run_judged :
      (List (String × State) → String)
      → (String → String → Bool)
      → Moment
      → Bench A
      → Result (List (Judged A))
      → Bench A × Result (RunSummary A)
  run_judged digest le now b (err e) = (b, err e)
  run_judged digest le now b (ok judged) =
      let run_id = next_run_id b.runs in
      concluded digest le run_id (digest (registry_states le b.roster))
        (run_opened digest le now judged b)
        (decide now run_id b.decisions judged (keep_if is_candidate (get_registry_rows le b.roster))
          b.roster)

  -- `is_frozen` is the answer of the gate on the frozen rules, `digest` the hash of the registry.
  unfoldable pub run_tournament_once :
      Bool
      → (List (String × State) → String)
      → (String → String → Bool)
      → Moment
      → Bench A
      → Bench A × Result (RunSummary A)
  unfolding decide run_opened run_closed
  run_tournament_once is_frozen digest le now b =
      if is_frozen
      then run_judged digest le now b
          (judge_all b.roster.paper (keep_if is_live (get_registry_rows le b.roster)))
      else (b, err runtime_error)

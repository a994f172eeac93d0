-- ===== src/Tournament/Judge/Measured.antt =====
-- The judging of trader/tournament/judge.py returns for every active strategy, counts at most its
-- run_closed trades, and each eligible full strategy has a rank.
use trader_pxg.Base.{
  ℕ, zero, suc, ◌≤◌, String, ◌≡◌, refl, ap, Bool, true, List, [], ◌∷◌, map, length, leb, ◌==◌,
  eq_refl, take, keep_if, count_if, sort_by, length-sort_by, In, here, there, Bool-cases, inl, inr,
  All, arith, Float, IsTotalOrder, float_zero, ok,
}
use trader_pxg.Base.Membership.{In-sort_by}
use trader_pxg.Backtest.Metrics.{Metrics}
use trader_pxg.Backtest.Metrics.Total.{compute_metrics-total}
use trader_pxg.Paper.Store.{PaperTrade, Db}
use trader_pxg.Paper.Ledger.{get_recent_trades}
use trader_pxg.Paper.Guardian.Kill.{paper_account_equity}
use trader_pxg.Tournament.Frozen.{judging_window_trades}
use trader_pxg.Tournament.Registry.{Entrant}
use trader_pxg.Tournament.Judge.{
  Judged, judge_strategy, closed_of, rank_of, numbered, is_before, is_eligible,
  rank_full_strategies,
}
use trader_pxg.Tournament.Judge.Run.{judge_all}

length-take : {X : Type 0} (n : ℕ) (xs : List X) → length (take n xs) ≤ length xs
length-take zero xs = omega arith
length-take (suc n) [] = omega arith
length-take (suc n) (x ∷ xs) = omega (arith, length-take n xs)

length-map : {X Y : Type 0} (g : X → Y) (xs : List X) → length (map g xs) ≡ length xs
length-map g [] = refl
length-map g (x ∷ xs) = omega (arith, length-map g xs)

length-keep_if : {X : Type 0} (p : X → Bool) (xs : List X) → length (keep_if p xs) ≡ count_if p xs
length-keep_if p [] = refl
length-keep_if p (x ∷ xs) = ground (arith, length-keep_if p xs)

In-keep_if :
    {X : Type 0} (p : X → Bool) (xs : List X) {x : X} → In x xs → p x ≡ true → In x (keep_if p xs)
In-keep_if p [] i e = elim i [ ]
In-keep_if p (x ∷ xs) here e = rw e here
In-keep_if p (x ∷ xs) (there i) e = elim (Bool-cases (p x)) [
  | inl g ↦ rw g (there (In-keep_if p xs i e))
  | inr g ↦ rw g (In-keep_if p xs i e)
]

pub All-In : {X : Type 0} (P : X → Type 0) (xs : List X) → ((x : X) → In x xs → P x) → All P xs
All-In P [] h = tt
All-In P (x ∷ xs) h = (h x here, All-In P xs (λ y i. h y (there i)))

module _ {A : Type 0} where
  recent-length :
      (name : String) (db : Db A)
      → length (get_recent_trades name judging_window_trades db)
        ≤ count_if (λ (t : PaperTrade A). t.strategy_id == name) db.trades
  unfolding get_recent_trades
  recent-length name db =
      let mine = λ (t : PaperTrade A). t.strategy_id == name in
      omega (
        arith,
        length-take judging_window_trades
            (sort_by (λ (a b : PaperTrade A). leb b.exit_ts a.exit_ts) (keep_if mine db.trades)),
        length-sort_by (λ (a b : PaperTrade A). leb b.exit_ts a.exit_ts) (keep_if mine db.trades),
        length-keep_if mine db.trades,
      )

  rank_of-numbered :
      (i : ℕ) (judged : List (Judged A)) (x : Judged A)
      → In x judged
      → (rank : ℕ) × (rank_of x.0.profile_name (numbered i judged) ≡ ok rank)
  rank_of-numbered i [] x j = elim j [ ]
  rank_of-numbered i ((row, m) ∷ judged) x here = (suc i, ground (arith, eq_refl row.profile_name))
  rank_of-numbered i ((row, m) ∷ judged) x (there j) =
      elim (Bool-cases (row.profile_name == x.0.profile_name)) [
        | inl e ↦ (suc i, rw e refl)
        | inr e ↦ let (rank, found) = rank_of-numbered (suc i) judged x j in (rank, rw e found)
      ]

module _ {A : Type 0} ⦃f : Float A⦄ where
  -- The metrics count the run_closed trades of the window.
  abbrev pub IsMeasured : Db A → Judged A → Type 0
  IsMeasured db (row, m) =
      m.trade_count ≤ count_if (λ (t : PaperTrade A). t.strategy_id == row.profile_name) db.trades

  judge_strategy-total :
      (o : IsTotalOrder f) (row : Entrant A) (db : Db A)
      → f.less float_zero paper_account_equity ≡ true
      → (m : Metrics A) × (judge_strategy row.profile_name db ≡ ok m) × IsMeasured db (row, m)
  unfolding judge_strategy
  judge_strategy-total o row db pos =
      let recent = get_recent_trades row.profile_name judging_window_trades db in
      let (m, run, count, below) =
        compute_metrics-total o (map closed_of recent) paper_account_equity pos in
      (m, run, omega (arith, count, length-map closed_of recent, recent-length row.profile_name db))

  pub judge_all-total :
      (o : IsTotalOrder f) (db : Db A) (rows : List (Entrant A))
      → f.less float_zero paper_account_equity ≡ true
      → (judged : List (Judged A)) × (judge_all db rows ≡ ok judged)
        × (map (λ (x : Judged A). x.0) judged ≡ rows)
        × All (IsMeasured db) judged
  judge_all-total o db [] pos = ([], refl, refl, tt)
  judge_all-total o db (row ∷ rows) pos =
      let (m, run, measured) = judge_strategy-total o row db pos in
      let (judged, runs, same, all_measured) = judge_all-total o db rows pos in
      (
        (row, m) ∷ judged,
        rw (run, runs) refl,
        ap (λ rest. row ∷ rest) same,
        (measured, all_measured),
      )

  pub eligible-rank :
      (judged : List (Judged A)) (x : Judged A)
      → In x judged
      → is_eligible x ≡ true
      → (rank : ℕ) × (rank_of x.0.profile_name (rank_full_strategies (keep_if is_eligible judged))
          ≡ ok rank)
  unfolding rank_full_strategies
  eligible-rank judged x i e =
      rank_of-numbered 0 (sort_by is_before (keep_if is_eligible judged)) x
        (In-sort_by is_before (keep_if is_eligible judged) (In-keep_if is_eligible judged i e))

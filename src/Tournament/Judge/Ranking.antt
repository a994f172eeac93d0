-- ===== src/Tournament/Judge/Ranking.antt =====
-- The ranking of trader/tournament/judge.py: the order of its keys and the last of its ranks.
use trader_pxg.Base.{
  ℕ, suc, ◌+◌, String, ◌≡◌, refl, sym, ap, Bool, true, false, not, some, List, [], ◌∷◌, length,
  ◌==◌, insert_by, sort_by, length-sort_by, In, here, there, Bool-cases, inl, inr, All, All-map,
  arith, Float, IsTotalOrder, ok, ok-injective, eq_iff,
}
use mathlib.Core.Path.{subst, ◌∙◌}
use trader_pxg.Backtest.Metrics.{Metrics}
use trader_pxg.Tournament.Judge.{
  Judged, or_lowest, is_worse, is_before, numbered, rank_of, worst_rank, worst_from, judge_strategy,
  rank_full_strategies,
}
use trader_pxg.Base.Membership.{In-sort_by}
use trader_pxg.Tournament.Judge.Measured.{All-In}
use trader_pxg.Paper.Store.{Db}
use trader_pxg.Tournament.Judge.Rows.{All-sort_by}

In-All : {X : Type 0} (P : X → Type 0) (xs : List X) {x : X} → All P xs → In x xs → P x
In-All P [] h i = elim i [ ]
In-All P (x ∷ xs) (h, hs) here = h
In-All P (x ∷ xs) (h, hs) (there i) = In-All P xs hs i

module _ {X : Type 0} (le : X → X → Bool)
    (trans : (x y z : X) → le x y ≡ true → le y z ≡ true → le x z ≡ true)
    (total : (x y : X) → le x y ≡ false → le y x ≡ true) where
  abbrev IsSortedBy : List X → Type 0
  IsSortedBy [] = Unit
  IsSortedBy (x ∷ xs) = All (λ y. le x y ≡ true) xs × IsSortedBy xs

  All-insert : (P : X → Type 0) (x : X) (xs : List X) → P x → All P xs → All P (insert_by le x xs)
  All-insert P x [] h k = (h, tt)
  All-insert P x (y ∷ ys) h (k, ks) = elim (Bool-cases (le x y)) [
    | inl e ↦ rw e (h, (k, ks))
    | inr e ↦ rw e (k, All-insert P x ys h ks)
  ]

  insert-IsSortedBy : (x : X) (xs : List X) → IsSortedBy xs → IsSortedBy (insert_by le x xs)
  insert-IsSortedBy x [] s = (tt, tt)
  insert-IsSortedBy x (y ∷ ys) (below, s) = elim (Bool-cases (le x y)) [
    | inl e ↦ rw e ((e, All-map (λ z h. trans x y z e h) ys below), (below, s))
    | inr e ↦
        rw e (All-insert (λ z. le y z ≡ true) x ys (total x y e) below, insert-IsSortedBy x ys s)
  ]

  sort_by-IsSortedBy : (xs : List X) → IsSortedBy (sort_by le xs)
  sort_by-IsSortedBy [] = tt
  sort_by-IsSortedBy (x ∷ xs) = insert-IsSortedBy x (sort_by le xs) (sort_by-IsSortedBy xs)

module _ {A : Type 0} where
  length-numbered : (i : ℕ) (xs : List (Judged A)) → length (numbered i xs) ≡ length xs
  length-numbered i [] = refl
  length-numbered i ((row, m) ∷ xs) = omega (arith, length-numbered (suc i) xs)

  worst_from-numbered :
      (i : ℕ) (xs : List (Judged A)) → worst_from i (numbered i xs) ≡ i + length xs
  worst_from-numbered i [] = ground arith
  worst_from-numbered i ((row, m) ∷ xs) = ground (arith, worst_from-numbered (suc i) xs)

  worst_rank-numbered :
      (rank : ℕ) (xs : List (Judged A)) → some rank ≡ worst_rank (numbered 0 xs) → rank ≡ length xs
  worst_rank-numbered rank [] h = cc
  worst_rank-numbered rank ((row, m) ∷ xs) h = ground (arith, worst_from-numbered 1 xs)

module _ {A : Type 0} ⦃f : Float A⦄ where
  pub length-rank_full_strategies :
      (judged : List (Judged A)) → length (rank_full_strategies judged) ≡ length judged
  unfolding rank_full_strategies
  length-rank_full_strategies judged =
      omega (arith, length-numbered 0 (sort_by is_before judged), length-sort_by is_before judged)

  -- Each with the metrics of its own trades.
  abbrev pub AreMeasured : Db A → List (Judged A) → Type 0
  AreMeasured db xs = All (λ (x : Judged A). judge_strategy x.0.profile_name db ≡ ok x.1) xs

  abbrev pub IsNoneBelow : List (Judged A) → Metrics A → Type 0
  IsNoneBelow xs m = All (λ (y : Judged A). is_worse y.1 m ≡ false) xs

module _ {A : Type 0} ⦃f : Float A⦄ (o : IsTotalOrder f) where
  is_worse_irreflexive : (m : Metrics A) → is_worse m m ≡ false
  unfolding is_worse
  is_worse_irreflexive m =
      let s = or_lowest m.sharpe_ratio in
      let p = or_lowest m.profit_factor in
      ground (arith, o.less_not s s, o.at_most_refl s, o.less_not p p, o.at_most_refl p)

  is_worse_total : (a b : Metrics A) → not (is_worse a b) ≡ false → not (is_worse b a) ≡ true
  unfolding is_worse
  is_worse_total a b h =
      let s = or_lowest a.sharpe_ratio in
      let t = or_lowest b.sharpe_ratio in
      let p = or_lowest a.profit_factor in
      let q = or_lowest b.profit_factor in
      ground (
        arith,
        o.less_not s t,
        o.less_not t s,
        o.less_not p q,
        o.less_not q p,
        o.equal_both s t,
        o.equal_both t s,
        o.at_most_total p q,
        o.at_most_total s t,
      )

  is_worse_trans :
      (a b c : Metrics A)
      → not (is_worse a b) ≡ true
      → not (is_worse b c) ≡ true
      → not (is_worse a c) ≡ true
  unfolding is_worse
  is_worse_trans a b c h k =
      let s = or_lowest a.sharpe_ratio in
      let t = or_lowest b.sharpe_ratio in
      let u = or_lowest c.sharpe_ratio in
      let p = or_lowest a.profit_factor in
      let q = or_lowest b.profit_factor in
      let r = or_lowest c.profit_factor in
      ground (
        arith,
        o.less_not s t,
        o.less_not t u,
        o.less_not s u,
        o.less_not p q,
        o.less_not q r,
        o.less_not p r,
        o.equal_both s t,
        o.equal_both t u,
        o.equal_both s u,
        o.at_most_trans u t s,
        o.at_most_trans t u s,
        o.at_most_trans s u t,
        o.at_most_trans u s t,
        o.at_most_trans s t u,
        o.at_most_trans t s u,
        o.at_most_trans r q p,
        o.at_most_total s t,
        o.at_most_total t u,
      )

  abbrev IsRanked : List (Judged A) → Type 0
  IsRanked =
      IsSortedBy is_before (λ (x y z : Judged A). is_worse_trans x.1 y.1 z.1)
        (λ (x y : Judged A). is_worse_total x.1 y.1)

  -- The strategy whose number is the length of a ranked list is in it, and none there is worse.
  numbered_last :
      (i : ℕ) (xs : List (Judged A)) (name : String) (rank : ℕ)
      → IsRanked xs
      → rank_of name (numbered i xs) ≡ ok rank
      → rank ≡ i + length xs
      → (x : Judged A) × In x xs × (x.0.profile_name ≡ name) × IsNoneBelow xs x.1
  numbered_last i [] name rank s e h = cc
  numbered_last i ((row, m) ∷ xs) name rank (below, s) e h =
      elim (Bool-cases (row.profile_name == name)) [
        | inl same ↦
            ((row, m), here, ground (arith, eq_iff row.profile_name name), alone xs (ground arith))
        | inr other ↦
            let (x, i, named, none_below) =
              numbered_last (suc i) xs name rank s (ground arith) (omega arith) in
            (x, there i, named, (not-true (In-All _ xs below i), none_below))
      ]
    where
      alone : (ys : List (Judged A)) → length ys ≡ 0 → IsNoneBelow ((row, m) ∷ ys) m
      alone [] h = (is_worse_irreflexive m, tt)
      alone (y ∷ ys) h = ground arith

      not-true : {b : Bool} → not b ≡ true → b ≡ false
      not-true h = ground arith

  abbrev ranked : List (Judged A) → List (Judged A)
  ranked = sort_by is_before

  -- The worst of the ranks is the number of the strategies, and the strategy that has it is one
  -- than which none is worse.
  pub rank_of-worst :
      (db : Db A) (judged : List (Judged A)) (name : String) (m : Metrics A) (rank : ℕ)
      → AreMeasured db judged
      → judge_strategy name db ≡ ok m
      → rank_of name (rank_full_strategies judged) ≡ ok rank
      → some rank ≡ worst_rank (rank_full_strategies judged)
      → (rank ≡ length judged) × IsNoneBelow judged m
  unfolding rank_full_strategies
  rank_of-worst db judged name m rank measured own e worst =
      let last = worst_rank-numbered rank (ranked judged) worst in
      let (x, i, named, none_below) =
        numbered_last 0 (ranked judged) name rank
          (sort_by-IsSortedBy is_before (λ (x y z : Judged A). is_worse_trans x.1 y.1 z.1)
            (λ (x y : Judged A). is_worse_total x.1 y.1) judged)
          e (omega arith) in
      let its = In-All _ (ranked judged) (All-sort_by _ is_before judged measured) i in
      (
        omega (arith, length-sort_by is_before judged),
        subst (IsNoneBelow judged)
            (ok-injective (sym its ∙ ap (λ n. judge_strategy n db) named ∙ own))
            (All-In _ judged
              (λ y j. In-All _ (ranked judged) none_below (In-sort_by is_before judged j))),
      )

-- ===== src/Backtest/Metrics/Curve.antt =====
-- The daily equity curve of trader/backtest/metrics.py against sums over the trades of a day.
use mathlib.Core.List.{foldl}
use trader_pxg.Base.{
  ℕ, zero, suc, ◌+◌, ◌-◌, ◌≤◌, ◌≡◌, refl, ◌∙◌, ap, Bool, true, ◌||◌, List, [], ◌∷◌, map, arith, ltb,
  nat_eqb, any, keep_if, if◌then◌else◌, Bool-cases, inl, inr, Float, ◌⊕◌,
}
use trader_pxg.Backtest.Metrics.{
  ClosedTrade, sum, add_daily, daily_pnl_from, pnl_on, first_date, last_date, curve_from,
  build_daily_equity_curve,
}

module _ {A : Type 0} where
  abbrev pub traded : ℕ → List (ClosedTrade A) → Bool
  traded d = any (λ t. nat_eqb t.exit_date d)

  -- Whether a date is a key.
  abbrev listed : ℕ → List (ℕ × A) → Bool
  listed d = any (λ entry. nat_eqb entry.0 d)

  first_date-le_self : (d : ℕ) (days : List (ℕ × A)) → first_date d days ≤ d
  first_date-le_self d [] = omega arith
  first_date-le_self d ((e, _) ∷ days) =
      ground (arith, first_date-le_self (if ltb e d then e else d) days)

  first_date-le : (d e : ℕ) (days : List (ℕ × A)) → listed e days ≡ true → first_date d days ≤ e
  first_date-le d e [] h = cc
  first_date-le d e ((k, _) ∷ days) h =
      let m = if ltb k d then k else d in
      ground (arith, first_date-le m e days, first_date-le_self m days)

  last_date-ge_self : (d : ℕ) (days : List (ℕ × A)) → d ≤ last_date d days
  last_date-ge_self d [] = omega arith
  last_date-ge_self d ((e, _) ∷ days) =
      ground (arith, last_date-ge_self (if ltb d e then e else d) days)

  last_date-ge : (d e : ℕ) (days : List (ℕ × A)) → listed e days ≡ true → e ≤ last_date d days
  last_date-ge d e [] h = cc
  last_date-ge d e ((k, _) ∷ days) h =
      let m = if ltb d k then k else d in
      ground (arith, last_date-ge m e days, last_date-ge_self m days)

  first_date-listed :
      (d : ℕ) (days : List (ℕ × A))
      → (nat_eqb d (first_date d days) || listed (first_date d days) days) ≡ true
  first_date-listed d [] = ground arith
  first_date-listed d ((k, _) ∷ days) =
      ground (arith, first_date-listed (if ltb k d then k else d) days)

  last_date-listed :
      (d : ℕ) (days : List (ℕ × A))
      → (nat_eqb d (last_date d days) || listed (last_date d days) days) ≡ true
  last_date-listed d [] = ground arith
  last_date-listed d ((k, _) ∷ days) =
      ground (arith, last_date-listed (if ltb d k then k else d) days)

module _ {A : Type 0} ⦃f : Float A⦄ where
  abbrev pub booked : List (ClosedTrade A) → ℕ → List A
  booked trades d = map (λ (t : ClosedTrade A). t.pnl) (keep_if (λ t. nat_eqb t.exit_date d) trades)

  -- The sum of the results that are booked on a date, in the order of the trades.
  abbrev pub day_total : List (ClosedTrade A) → ℕ → A
  day_total trades d = sum (booked trades d)

  -- Running totals of a value for each of `n` days from `d` on.
  abbrev pub cumulate : (ℕ → A) → ℕ → ℕ → A → List A
  cumulate value zero d running = []
  cumulate value (suc n) d running =
      (running ⊕ value d) ∷ cumulate value n (d + 1) (running ⊕ value d)

  pnl_on-add_daily :
      (d e : ℕ) (pnl : A) (days : List (ℕ × A))
      → pnl_on d (add_daily e pnl days)
        ≡ (if nat_eqb e d then pnl_on d days ⊕ pnl else pnl_on d days)
  unfolding pnl_on add_daily
  pnl_on-add_daily d e pnl [] = ground arith
  pnl_on-add_daily d e pnl ((k, total) ∷ days) = ground (arith, pnl_on-add_daily d e pnl days)

  pnl_on-daily :
      (d : ℕ) (days : List (ℕ × A)) (ts : List (ClosedTrade A))
      → pnl_on d (daily_pnl_from days ts) ≡ foldl (λ acc x. acc ⊕ x) (pnl_on d days) (booked ts d)
  unfolding daily_pnl_from
  pnl_on-daily d days [] = refl
  pnl_on-daily d days (t ∷ ts) =
      pnl_on-daily d (add_daily t.exit_date t.pnl days) ts
      ∙ elim (Bool-cases (nat_eqb t.exit_date d)) [
        | inl e ↦ rw (pnl_on-add_daily d t.exit_date t.pnl days, e)
        | inr e ↦ rw (pnl_on-add_daily d t.exit_date t.pnl days, e)
      ]

  listed-add_daily :
      (d e : ℕ) (pnl : A) (days : List (ℕ × A))
      → listed d (add_daily e pnl days) ≡ (nat_eqb e d || listed d days)
  unfolding add_daily
  listed-add_daily d e pnl [] = refl
  listed-add_daily d e pnl ((k, total) ∷ days) = ground (arith, listed-add_daily d e pnl days)

  listed-daily :
      (d : ℕ) (days : List (ℕ × A)) (ts : List (ClosedTrade A))
      → listed d (daily_pnl_from days ts) ≡ (listed d days || traded d ts)
  unfolding daily_pnl_from
  listed-daily d days [] = ground arith
  listed-daily d days (t ∷ ts) = ground (
    arith,
    listed-daily d (add_daily t.exit_date t.pnl days) ts,
    listed-add_daily d t.exit_date t.pnl days,
  )

  curve_from-cumulate :
      (n d : ℕ) (running : A) (days : List (ℕ × A)) (value : ℕ → A)
      → ((e : ℕ) → pnl_on e days ≡ value e)
      → curve_from n d running days ≡ cumulate value n d running
  unfolding curve_from
  curve_from-cumulate zero d running days value h = refl
  curve_from-cumulate (suc n) d running days value h = rw (h d) (
      ap (λ (l : List A). (running ⊕ value d) ∷ l)
        (curve_from-cumulate n (d + 1) (running ⊕ value d) days value h))

  pnl_on-day_total :
      (ts : List (ClosedTrade A)) (d : ℕ) → pnl_on d (daily_pnl_from [] ts) ≡ day_total ts d
  unfolding sum pnl_on
  pnl_on-day_total ts d = pnl_on-daily d [] ts

  range-cumulates :
      (ts : List (ClosedTrade A)) (first last : ℕ) (running : A)
      → first ≤ last
      → curve_from (last + 1 - first) first running (daily_pnl_from [] ts)
        ≡ cumulate (day_total ts) (suc (last - first)) first running
  range-cumulates ts first last running le =
      let e : last + 1 - first ≡ suc (last - first) = omega arith in
      rw e (curve_from-cumulate (suc (last - first)) first running _ _ (pnl_on-day_total ts))

  -- The points of the curve after the starting equity, over the days that are given.
  abbrev Covers : List (ClosedTrade A) → A → List A → Type 0
  Covers trades running curve =
      (first n : ℕ) × (curve ≡ running ∷ cumulate (day_total trades) (suc n) first running)
      × (traded first trades ≡ true)
      × (traded (first + n) trades ≡ true)
      × ((d : ℕ) → traded d trades ≡ true → (first ≤ d) × (d ≤ first + n))

  range-Covers :
      (trades : List (ClosedTrade A)) (first last : ℕ) (running : A)
      → traded first trades ≡ true
      → traded last trades ≡ true
      → ((d : ℕ) → traded d trades ≡ true → (first ≤ d) × (d ≤ last))
      → Covers trades running
          (running ∷ curve_from (last + 1 - first) first running (daily_pnl_from [] trades))
  range-Covers trades first last running first_on last_on within =
      let le : first ≤ last = (within first first_on).1 in
      let e : first + (last - first) ≡ last = omega arith in
      (
        first,
        last - first,
        ap (λ (l : List A). running ∷ l) (range-cumulates trades first last running le),
        first_on,
        rw e last_on,
        λ d on. rw e (within d on),
      )

  dates-within :
      (t : ClosedTrade A) (ts : List (ClosedTrade A))
      → let days = daily_pnl_from [] (t ∷ ts) in
        (traded (first_date t.exit_date days) (t ∷ ts) ≡ true)
        × (traded (last_date t.exit_date days) (t ∷ ts) ≡ true)
        × ((d : ℕ)
            → traded d (t ∷ ts) ≡ true
            → (first_date t.exit_date days ≤ d) × (d ≤ last_date t.exit_date days))
  dates-within t ts =
      let days = daily_pnl_from [] (t ∷ ts) in
      let first = first_date t.exit_date days in
      let last = last_date t.exit_date days in
      (
        ground (arith, first_date-listed t.exit_date days, listed-daily first [] (t ∷ ts)),
        ground (arith, last_date-listed t.exit_date days, listed-daily last [] (t ∷ ts)),
        λ d on. (
          first_date-le t.exit_date d days (listed-daily d [] (t ∷ ts) ∙ on),
          last_date-ge t.exit_date d days (listed-daily d [] (t ∷ ts) ∙ on),
        ),
      )

  -- The curve starts at the starting equity and has one point for each day from the first to the
  -- last exit date, days without a trade included: the running total of the sums of each day.
  pub build_daily_equity_curve-cumulates :
      (t : ClosedTrade A) (ts : List (ClosedTrade A)) (starting_equity : A)
      → (first n : ℕ) × (build_daily_equity_curve (t ∷ ts) starting_equity
          ≡ starting_equity ∷ cumulate (day_total (t ∷ ts)) (suc n) first starting_equity)
        × (traded first (t ∷ ts) ≡ true)
        × (traded (first + n) (t ∷ ts) ≡ true)
        × ((d : ℕ) → traded d (t ∷ ts) ≡ true → (first ≤ d) × (d ≤ first + n))
  unfolding build_daily_equity_curve
  build_daily_equity_curve-cumulates t ts starting_equity =
      let (first_on, last_on, within) = dates-within t ts in
      range-Covers (t ∷ ts) _ _ starting_equity first_on last_on within

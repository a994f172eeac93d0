-- ===== src/Backtest/Iterator/History.antt =====
-- No look-ahead in trader/backtest/iterator.py: what it shows of a symbol is its bars up to the date
-- that was reached, all of them and no other.
use trader_pxg.Base.{
  ℕ, suc, ◌+◌, ◌≤◌, String, ◌≡◌, refl, ap, sym, ◌∙◌, Bool, true, false, Option, none, some, List,
  [], ◌∷◌, map, ◌==◌, leb, ltb, take, keep_if, count_if, last_of, All, Bool-cases, inl, inr, arith,
  Result, ok, err, ◌>>=◌, ok-injective, value_error,
}
use mathlib.Core.Path.{subst}
use trader_pxg.Backtest.Iterator.{
  Dated, PointInTime, is_backward, drop, walk, advance_cursor, cursor_history, frame_of,
  new_iterator, advance_to, history,
}

module _ {A : Type 0} where
  -- The dates do not go down.
  abbrev pub IsChronological : List (Dated A) → Type 0
  IsChronological [] = Unit
  IsChronological (bar ∷ bars) =
      All (λ (later : Dated A). bar.date ≤ later.date) bars × IsChronological bars

  abbrev pub is_until : ℕ → Dated A → Bool
  is_until date bar = leb bar.date date

  count-late :
      (d e : ℕ) (bars : List (Dated A))
      → leb e d ≡ false
      → All (λ (later : Dated A). e ≤ later.date) bars
      → count_if (is_until d) bars ≡ 0
  count-late d e [] h k = refl
  count-late d e (bar ∷ bars) h (k, ks) = ground (arith, count-late d e bars h ks)

  none-kept :
      (d e : ℕ) (bars : List (Dated A))
      → leb e d ≡ false
      → All (λ (later : Dated A). e ≤ later.date) bars
      → keep_if (is_until d) bars ≡ []
  none-kept d e [] h k = refl
  none-kept d e (bar ∷ bars) h (k, ks) = ground (arith, none-kept d e bars h ks)

  walk-eq :
      (d : ℕ) (bars : List (Dated A)) (p : ℕ)
      → IsChronological bars
      → walk d bars p ≡ p + count_if (is_until d) bars
  unfolding walk
  walk-eq d [] p s = omega arith
  walk-eq d (bar ∷ bars) p (low, s) = elim (Bool-cases (leb bar.date d)) [
    | inl e ↦ rw e (omega (arith, walk-eq d bars (suc p) s))
    | inr e ↦ rw e (omega (arith, count-late d bar.date bars e low))
  ]

  drop-count :
      (d d' : ℕ) (bars : List (Dated A))
      → d ≤ d'
      → IsChronological bars
      → IsChronological (drop (count_if (is_until d) bars) bars)
        × (count_if (is_until d) bars
              + count_if (is_until d') (drop (count_if (is_until d) bars) bars)
            ≡ count_if (is_until d') bars)
  drop-count d d' [] h s = (tt, refl)
  drop-count d d' (bar ∷ bars) h (low, s) = elim (Bool-cases (leb bar.date d)) [
    | inl e ↦
        let (rest, sum) = drop-count d d' bars h s in
        rw (e, until-later bar.date d d' e h) (rest, omega (arith, sum))
    | inr e ↦ rw (e, count-late d bar.date bars e low) ((low, s), omega arith)
  ]
    where
      until-later : (b d d' : ℕ) → leb b d ≡ true → d ≤ d' → leb b d' ≡ true
      until-later b d d' e h = ground arith

  take-count :
      (d : ℕ) (bars : List (Dated A))
      → IsChronological bars
      → take (count_if (is_until d) bars) bars ≡ keep_if (is_until d) bars
  take-count d [] s = refl
  take-count d (bar ∷ bars) (low, s) = elim (Bool-cases (leb bar.date d)) [
    | inl e ↦ rw e (ap (λ rest. bar ∷ rest) (take-count d bars s))
    | inr e ↦ rw (e, count-late d bar.date bars e low) (sym (none-kept d bar.date bars e low))
  ]

  -- The bars that were passed when a date was reached.
  abbrev passed : Option ℕ → List (Dated A) → ℕ
  passed none bars = 0
  passed (some date) bars = count_if (is_until date) bars

  -- The iterator that has reached a date.
  at_date : Option ℕ → List (String × List (Dated A)) → PointInTime A
  at_date reached frames = record {
    cursors =
        map (λ (symbol, bars). (symbol, record { bars = bars; pointer = passed reached bars }))
          frames;
    current_date = reached;
  }

  abbrev pub AreChronological : List (String × List (Dated A)) → Type 0
  AreChronological frames = All (λ (x : String × List (Dated A)). IsChronological x.1) frames

  walk-passed :
      (reached : Option ℕ) (d : ℕ) (bars : List (Dated A))
      → is_backward reached d ≡ false
      → IsChronological bars
      → walk d (drop (passed reached bars) bars) (passed reached bars) ≡ count_if (is_until d) bars
  walk-passed none d bars h s = omega (arith, walk-eq d bars 0 s)
  walk-passed (some c) d bars h s =
      let (rest, sum) = drop-count c d bars (ground arith) s in
      omega (
        arith,
        walk-eq d (drop (count_if (is_until c) bars) bars) (count_if (is_until c) bars) rest,
        sum,
      )

  advanced-cursors :
      (reached : Option ℕ) (d : ℕ) (frames : List (String × List (Dated A)))
      → is_backward reached d ≡ false
      → AreChronological frames
      → map (λ (symbol, c). (symbol, advance_cursor d c)) (at_date reached frames).cursors
        ≡ (at_date (some d) frames).cursors
  unfolding at_date advance_cursor
  advanced-cursors reached d [] h s = refl
  advanced-cursors reached d ((symbol, bars) ∷ frames) h (s, rest) =
      rw (walk-passed reached d bars h s) (
        ap
          (λ others.
            (symbol, record { bars = bars; pointer = count_if (is_until d) bars }) ∷ others)
          (advanced-cursors reached d frames h rest))

  advance_to-at_date :
      (reached : Option ℕ) (d : ℕ) (frames : List (String × List (Dated A)))
      → AreChronological frames
      → is_backward reached d ≡ false
      → advance_to d (at_date reached frames) ≡ ok (at_date (some d) frames)
  unfolding advance_to at_date
  advance_to-at_date reached d frames s h = rw h (
      ap (λ cs. ok (record { cursors = cs; current_date = some d }))
        (advanced-cursors reached d frames h s))

  new-at_date :
      (frames : List (String × List (Dated A))) → new_iterator frames ≡ at_date none frames
  unfolding new_iterator at_date
  new-at_date frames = refl

  advance_to-backward :
      (d e : ℕ) (frames : List (String × List (Dated A)))
      → ltb e d ≡ true
      → advance_to e (at_date (some d) frames) ≡ err value_error
  unfolding advance_to at_date
  advance_to-backward d e frames h = rw h refl

  history-at_date :
      (symbol : String) (d : ℕ) (frames : List (String × List (Dated A)))
      → AreChronological frames
      → history symbol (at_date (some d) frames)
        ≡ (frame_of symbol frames >>= λ bars. ok (keep_if (is_until d) bars))
  unfolding history at_date cursor_history
  history-at_date symbol d [] s = refl
  history-at_date symbol d ((other, bars) ∷ frames) (s, rest) =
      elim (Bool-cases (other == symbol)) [
        | inl e ↦ rw e (ap ok (take-count d bars s))
        | inr e ↦ rw e (history-at_date symbol d frames rest)
      ]

  -- One call of `advance_to` after the other.
  abbrev pub advance_all : List ℕ → PointInTime A → Result (PointInTime A)
  advance_all [] it = ok it
  advance_all (d ∷ ds) it = advance_to d it >>= λ later. advance_all ds later

  advance_all-at_date :
      (d : ℕ) (ds : List ℕ) (frames : List (String × List (Dated A))) (it : PointInTime A)
      → AreChronological frames
      → advance_all ds (at_date (some d) frames) ≡ ok it
      → it ≡ at_date (some (last_of d ds)) frames
  advance_all-at_date d [] frames it s h = sym (ok-injective h)
  advance_all-at_date d (e ∷ ds) frames it s h = elim (Bool-cases (ltb e d)) [
    | inl back ↦
        let raised = advance_to-backward d e frames back in
        absurd (subst (λ m. (m >>= λ later. advance_all ds later) ≡ ok it) raised h)
    | inr on ↦ advance_all-at_date e ds frames it s (
        subst (λ m. (m >>= λ later. advance_all ds later) ≡ ok it)
          (advance_to-at_date (some d) e frames s on) h)
  ]
    where
      absurd : err value_error ≡ ok it → it ≡ at_date (some (last_of d (e ∷ ds))) frames
      absurd k = cc

  -- After any calls of `advance_to` that none of them refused, on frames in the order of their
  -- dates, the history of a symbol is its bars up to the last of the dates, all of them and no
  -- later one, and of a symbol without a frame it raises.
  pub advance_all-history :
      (frames : List (String × List (Dated A))) (d : ℕ) (ds : List ℕ) (it : PointInTime A)
      (symbol : String)
      → AreChronological frames
      → advance_all (d ∷ ds) (new_iterator frames) ≡ ok it
      → history symbol it
        ≡ (frame_of symbol frames >>= λ bars. ok (keep_if (is_until (last_of d ds)) bars))
  advance_all-history frames d ds it symbol s h =
      let first = advance_to-at_date none d frames s refl in
      let there = advance_all-at_date d ds frames it s (
        subst (λ m. (m >>= λ later. advance_all ds later) ≡ ok it)
          (ap (advance_to d) (new-at_date frames) ∙ first) h) in
      ap (history symbol) there ∙ history-at_date symbol (last_of d ds) frames s

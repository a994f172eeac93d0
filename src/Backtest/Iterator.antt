-- ===== src/Backtest/Iterator.antt =====
-- trader/backtest/iterator.py: the bars of each symbol behind a pointer that only moves forward.
pub mod History
mod Tests
use trader_pxg.Base.{
  ℕ, zero, suc, String, Bool, false, Option, none, some, List, [], ◌∷◌, map, ◌==◌, ltb, leb,
  nat_eqb, take, if◌then◌else◌, Result, ok, err, ◌>>=◌, key_error, value_error,
}

-- A row of a frame with its date.
pub record Dated (A : Type 0) : Type 0 where
  pub date : ℕ
  pub bar_open : A
  pub high : A
  pub low : A
  pub close : A
  pub volume : A

-- `_SymbolCursor`
pub record Cursor (A : Type 0) : Type 0 where
  pub bars : List (Dated A)
  pub pointer : ℕ

-- `PointInTimeIterator`
pub record PointInTime (A : Type 0) : Type 0 where
  pub cursors : List (String × Cursor A)
  pub current_date : Option ℕ

-- Whether a date is before the one that was reached.
abbrev pub is_backward : Option ℕ → ℕ → Bool
is_backward none date = false
is_backward (some reached) date = ltb date reached

-- `self._cursors[symbol]`
abbrev pub frame_of : {B : Type 0} → String → List (String × B) → Result B
frame_of symbol [] = err key_error
frame_of symbol ((other, b) ∷ rest) = if other == symbol then ok b else frame_of symbol rest

module _ {A : Type 0} where
  abbrev pub drop : ℕ → List (Dated A) → List (Dated A)
  drop zero bars = bars
  drop (suc n) [] = []
  drop (suc n) (bar ∷ bars) = drop n bars

  -- The loop of `_SymbolCursor.advance_to`, on the bars from the pointer on.
  unfoldable pub walk : ℕ → List (Dated A) → ℕ → ℕ
  walk target [] pointer = pointer
  walk target (bar ∷ bars) pointer =
      let further = walk target bars (suc pointer) in
      if leb bar.date target then further else pointer

  unfoldable pub advance_cursor : ℕ → Cursor A → Cursor A
  unfolding walk
  advance_cursor target c = record c { pointer = walk target (drop c.pointer c.bars) c.pointer }

  unfoldable pub cursor_history : Cursor A → List (Dated A)
  cursor_history c = take c.pointer c.bars

  -- `_date_to_row`: of equal dates the last row counts.
  unfoldable pub cursor_bar_on : ℕ → List (Dated A) → Option (Dated A)
  cursor_bar_on date [] = none
  cursor_bar_on date (bar ∷ bars) = elim (cursor_bar_on date bars) [
    | none ↦ if nat_eqb bar.date date then some bar else none
    | some later ↦ some later
  ]

  unfoldable pub new_iterator : List (String × List (Dated A)) → PointInTime A
  new_iterator bars_by_symbol = record {
    cursors = map (λ (symbol, bars). (symbol, record { bars = bars; pointer = 0 })) bars_by_symbol;
    current_date = none;
  }

  unfoldable pub advance_to : ℕ → PointInTime A → Result (PointInTime A)
  unfolding advance_cursor
  advance_to date it =
      if is_backward it.current_date date
      then err value_error
      else ok (record {
        cursors = map (λ (symbol, c). (symbol, advance_cursor date c)) it.cursors;
        current_date = some date;
      })

  unfoldable pub history : String → PointInTime A → Result (List (Dated A))
  unfolding cursor_history
  history symbol it = frame_of symbol it.cursors >>= λ c. ok (cursor_history c)

  unfoldable pub bar_on : String → ℕ → PointInTime A → Result (Option (Dated A))
  unfolding cursor_bar_on
  bar_on symbol date it = frame_of symbol it.cursors >>= λ c. ok (cursor_bar_on date c.bars)

  abbrev pub symbols : PointInTime A → List String
  symbols it = map (λ (symbol, c). symbol) it.cursors

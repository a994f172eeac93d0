-- ===== src/Backtest/Iterator/Tests.antt =====
-- The theorem on trader/backtest/iterator.py at a frame of three days.
use trader_pxg.Base.{ℕ, String, ◌≡◌, refl, some, List, [], ◌∷◌, keep_if, last_of, ok, ◌>>=◌, arith}
use trader_pxg.Backtest.Iterator.{Dated, PointInTime, frame_of, new_iterator, advance_to, history}
use trader_pxg.Backtest.Iterator.History.{is_until, advance_all-history}

abbrev bar_of : ℕ → Dated ℕ
bar_of day = record { date = day; bar_open = 1; high = 2; low = 1; close = 2; volume = 3 }

abbrev frames : List (String × List (Dated ℕ))
frames = ("ACME", bar_of 1 ∷ bar_of 2 ∷ bar_of 4 ∷ []) ∷ []

abbrev third_day : PointInTime ℕ
third_day = record {
  cursors = ("ACME", record { bars = bar_of 1 ∷ bar_of 2 ∷ bar_of 4 ∷ []; pointer = 2 }) ∷ [];
  current_date = some 3;
}

advance_all-history_example :
    history "ACME" third_day
    ≡ (frame_of "ACME" frames >>= λ bars. ok (keep_if (is_until (last_of 2 (3 ∷ []))) bars))
unfolding advance_to new_iterator
advance_all-history_example =
    advance_all-history frames 2 (3 ∷ []) third_day "ACME"
      (((ground arith, (ground arith, tt)), ((ground arith, tt), (tt, tt))), tt) refl

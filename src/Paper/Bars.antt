-- ===== src/Paper/Bars.antt =====
-- The cache of bars that a run of trader/paper/crypto_entry_pipeline.py fills before it reads it:
-- trader/data/intraday.py, the cache miss of trader/data/api.py, and the INSERT of
-- trader/data/db.py. The venue of all of its bars is Binance.
use trader_pxg.Base.{
  ℕ, ◌+◌, ◌*◌, ◌/◌, String, Bool, true, false, ◌&&◌, Option, none, some, List, [], ◌∷◌, ◌==◌, any,
  keep_if, ltb, nat_eqb, if◌then◌else◌, Result, ok, err, ◌>>=◌,
}
use trader_pxg.Paper.Signals.{Timeframe, hourly, daily}
use trader_pxg.Paper.Store.{Candle, Bar, Db, day_of}
use trader_pxg.Paper.World.{Act, pure, modify, execute, ◌>>◌}

-- The client of the exchange, with its rows normalized: the hourly candles from a time on, and the
-- daily ones.
pub record Exchange (A : Type 0) : Type 0 where
  pub fetch_hourly : String → ℕ → Result (List (Candle A))
  pub fetch_daily : String → Result (List (Candle A))

abbrev pub same_timeframe : Timeframe → Timeframe → Bool
same_timeframe hourly hourly = true
same_timeframe daily daily = true
same_timeframe _ _ = false

abbrev one_hour : ℕ
one_hour = 3_600_000_000

-- 2023-01-01
abbrev default_since : ℕ
default_since = 63_808_128_000_000_000

abbrev later_of : Option ℕ → ℕ → ℕ
later_of none ts = ts
later_of (some latest) ts = if ltb latest ts then ts else latest

abbrev since_of : Option ℕ → ℕ
since_of none = default_since
since_of (some last) = last + one_hour

module _ {A : Type 0} where
  abbrev is_cached_as : String → Timeframe → Bar A → Bool
  is_cached_as symbol timeframe bar = bar.symbol == symbol && same_timeframe bar.timeframe timeframe

  -- `INSERT OR IGNORE`, for each of the rows in turn.
  unfoldable pub write_bars_cache :
      String → Timeframe → List (Candle A) → List (Bar A) → List (Bar A)
  write_bars_cache symbol timeframe [] bars = bars
  write_bars_cache symbol timeframe (row ∷ rows) bars = write_bars_cache symbol timeframe rows (
      if any (λ (bar : Bar A). is_cached_as symbol timeframe bar && nat_eqb bar.candle.ts row.ts)
        bars
      then bars
      else record { symbol = symbol; timeframe = timeframe; candle = row } ∷ bars)

  -- `SELECT MAX(ts)`
  abbrev pub last_cached : String → List (Bar A) → Option ℕ
  last_cached symbol [] = none
  last_cached symbol (bar ∷ bars) =
      let latest = last_cached symbol bars in
      if is_cached_as symbol hourly bar then some (later_of latest bar.candle.ts) else latest

  -- The rows that closed, or none when the fetch raised, which is printed and passed over.
  abbrev closed_rows : ℕ → Result (List (Candle A)) → List (Candle A)
  closed_rows current_hour (ok rows) = keep_if (λ (row : Candle A). ltb row.ts current_hour) rows
  closed_rows current_hour (err e) = []

  -- One round of the loop over the symbols.
  abbrev pub refresh_symbol : Exchange A → ℕ → String → List (Bar A) → List (Bar A)
  refresh_symbol exchange current_hour symbol bars =
      write_bars_cache symbol hourly
        (closed_rows current_hour
          (exchange.fetch_hourly symbol (since_of (last_cached symbol bars))))
        bars

  unfoldable pub refresh_hourly_bars : Exchange A → ℕ → List String → List (Bar A) → List (Bar A)
  unfolding write_bars_cache
  refresh_hourly_bars exchange now [] bars = bars
  refresh_hourly_bars exchange now (symbol ∷ symbols) bars =
      refresh_hourly_bars exchange now symbols
        (refresh_symbol exchange (now / one_hour * one_hour) symbol bars)

  -- `get_daily_bars` up to the day before: a fetch, which may raise, only when nothing is cached.
  unfoldable pub get_daily_bars : Exchange A → ℕ → String → List (Bar A) → Result (List (Bar A))
  unfolding write_bars_cache
  get_daily_bars exchange today symbol bars =
      if any (λ (bar : Bar A). is_cached_as symbol daily bar && ltb (day_of bar.candle.ts) today)
        bars
      then ok bars
      else exchange.fetch_daily symbol >>= λ rows. ok (write_bars_cache symbol daily rows bars)

  -- A write of the cache, and of no other table.
  abbrev pub cached : List (Bar A) → Db A → Db A
  cached bars db = record db { bars = bars }

  abbrev pub cached_or_raised : Db A → Result (List (Bar A)) → Result (Db A)
  cached_or_raised db (ok bars) = ok (cached bars db)
  cached_or_raised db (err e) = err e

  unfoldable pub load_daily : Exchange A → ℕ → List String → Act A (Unit {0})
  unfolding get_daily_bars
  load_daily exchange today [] = pure tt
  load_daily exchange today (symbol ∷ symbols) =
      execute (λ db. cached_or_raised db (get_daily_bars exchange today symbol db.bars))
      >> load_daily exchange today symbols

  -- The frames of a bucket's symbols: the hourly ones after a refresh, the daily ones cache-first.
  unfoldable pub load_bars : Exchange A → ℕ → ℕ → Timeframe → List String → Act A (Unit {0})
  unfolding load_daily refresh_hourly_bars
  load_bars exchange today now hourly symbols =
      modify (λ db. cached (refresh_hourly_bars exchange now symbols db.bars) db)
  load_bars exchange today now daily symbols = load_daily exchange today symbols

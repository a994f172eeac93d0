-- ===== src/Lib.antt =====
-- A verification library for the trading system: exits and fills, performance metrics, circuit
-- breakers, the paper-trading loop of ledger, reconciliation, guardian and entries, and the
-- tournament of strategies with its pipeline and its weekly judge.
--
-- The parts, and the files that model them (paths from the repository's root):
--
-- - Backtest: the exit engine that backtest and paper trading share.
--   - Backtest/Config.antt: trader/backtest/config.py (EXIT_PROFILE, FEE_TABLE, SLIPPAGE_PCT).
--   - Backtest/Fills.antt: trader/backtest/fills.py, every function.
--   - Backtest/Exits.antt: trader/backtest/exits.py. evaluate_exit is the chain of its checks, in
--     the code's order; the position it mutates comes back with the result. Proofs: Exits/Order,
--     Exits/Prices, Exits/Watermark.
--   - Backtest/Iterator.antt: trader/backtest/iterator.py. Proofs: Iterator/History.
--   - Backtest/Metrics.antt: trader/backtest/metrics.py without the report's text. Proofs:
--     Metrics/Drawdown, Metrics/Curve, Metrics/Total.
-- - Risk: trader/risk.
--   - Risk/Config.antt and Risk/Breakers.antt: config.py and breakers.py. The state of the
--     breakers is read from the append-only table of events each time. Proofs: Breakers/Values,
--     Breakers/Transitions.
--   - Risk/Gate.antt, Gate/Eliminate.antt: gate.py. Proofs: Gate/Correlated, Gate/Safe.
--   - Risk/Sizer.antt: sizer.py. Proofs: Sizer/Limits.
-- - Paper: trader/paper.
--   - Paper/Store.antt: the rows of migrations/0005_paper_trading.sql, and of the bars table of
--     migrations/0002_instruments_bars.sql.
--   - Paper/Ledger.antt: ledger.py, a function on the database for each statement. Proofs:
--     Ledger/Orders, Ledger/Scope, Ledger/Positions.
--   - Paper/Idempotency.antt: idempotency.py.
--   - Paper/World.antt: what a run acts on, and the monad of its statements; World/Keeps.antt has
--     the rules for invariants.
--   - Paper/Reconcile.antt: reconcile.py and clear_halt.py. Proofs: Reconcile/Classify,
--     Reconcile/Halt.
--   - Paper/Guardian.antt, Guardian/Kill.antt, Guardian/Tick.antt: guardian.py, one tick from the
--     heartbeat to the kill conditions. Proofs: Guardian/Persist, Guardian/Once, Guardian/Limits,
--     Guardian/InFlight, Guardian/Books, Guardian/Conditions, Guardian/Alerts.
--
--   - Paper/Signals.antt and Paper/Entry.antt: signals.py, and the scan, the exit profiles and
--     the sizing of entry_pipeline.py. Entry/Run.antt is the heal pass and the steps of one
--     entry, Entry/Once.antt the whole run. Proofs: Entry/Invariant, Entry/Halted, Entry/Persist,
--     Entry/Sends, Entry/Budget, Entry/Heal.
--   - Paper/Crypto.antt: crypto_entry_pipeline.py, on the parts of Paper/Entry that it shares.
--     Paper/Bars.antt is what it writes to the cache of bars before it enters:
--     trader/data/intraday.py (refresh_hourly_bars), the cache miss of trader/data/api.py
--     (get_daily_bars) and write_bars_cache of trader/data/db.py. Proofs: Crypto/Simulated.
-- - Tournament: trader/tournament, and the loader trader/paper/config_store.py.
--   - Tournament/Frozen.antt, Registry.antt, Live.antt: frozen_config.py, the tables of
--     migrations/0006_tournament.sql, and config_store.py.
--   - Tournament/Pipeline.antt: pipeline.py, every function. Proofs: Pipeline/Lookup (rows by
--     name), Pipeline/Change (the five changes of a roster), Pipeline/Steps (the calls of the
--     pipeline as the type Call and their sequences as Calls; a Step of Reach is such a call or a
--     change that trading makes to the paper tables), and on it Pipeline/Life, Pipeline/History,
--     Pipeline/Evidence, Pipeline/Lasting, Pipeline/Caps.
--   - Tournament/Entrant.antt: register_entrant.py. Proofs: Entrant/Progress.
--   - Tournament/Judge.antt, Judge/Run.antt: judge.py, the rule of each strategy and the whole
--     run. Proofs: Judge/Reached, Judge/Demotion on the ranking's lemmas of Judge/Ranking, and
--     Judge/Whole with its lemmas in Judge/Round, Judge/Settled, Judge/Rows, Judge/Measured.
--
-- How the parts interact: the entry pipeline heals what the broker filled, asks Risk/Gate and
-- Risk/Sizer, and opens positions through the ledger and the broker; the guardian evaluates each
-- open position with Backtest/Exits on a bar of one price, submits exits, and feeds the account's
-- curve to Risk/Breakers; reconciliation compares the ledger with the broker and writes the log
-- from which, with the breakers' state, the halt of entries is derived. The judge measures the
-- closed paper trades of each active strategy with Backtest/Metrics and moves it through the
-- tournament's pipeline; the live rows of the registry are the strategies of the entry pipeline.
--
-- Conventions. A Python float is an element of a type with an instance of Float
-- (Base/Number.antt), an interface of operations with no laws: a theorem that needs the order or
-- the signs of quotients says so as a hypothesis (IsTotalOrder, KeepsSigns). A division is the
-- raising divide of Base/Number.antt in Backtest/Metrics, and int() of a NaN or an infinity
-- raises in round_shares_down. statistics.mean, statistics.stdev and math.sqrt are operations of
-- Float. Base/Fixed.antt is an instance, in millionths, on which the examples run, and
-- Base/Whole.antt one of whole numbers. A raise is a value of Result (Base/Outcome.antt); in the
-- monad it keeps what was committed and sent before it. Times are numbers of microseconds and
-- dates are day ordinals, so that the order of the ISO texts is that of the numbers. A table is
-- the list of its rows; reconciliation_log, breaker_events and the tournament's transitions, runs
-- and decisions are newest first, the others oldest first. A time of the tournament is a Moment,
-- the digits of its text. A function of the tournament that raises writes nothing before it; the
-- judge's loops carry the roster beside the result, and keep it at a raise. Keys are places in
-- the insertion order. Loops are structural recursion on lists; the only bound is the number of
-- days of the equity curve, which is computed from its first and last date, so no fuel is used.
--
-- Parameters. The broker's client and the price sources are the record Broker of World.antt,
-- fixed within a run, whose positions may raise when a reconciliation takes its snapshot, and
-- whose fills are taken to answer; the exchange's client, with the paging and normalizing of its
-- rows, is the record Exchange of Bars.antt; what the trading calendar says of the date is a
-- field of Today; the order of sorted symbols is any function; the median and the correlation of
-- pandas are arguments of the gate; the live configs and the parsed lines of the ops log are
-- arguments of the tick. What the signals, the RSI, the volatility and the bars give the scan is
-- the record Market; the hash of the registry and the answer of the freeze gate are arguments of
-- the judge's run. SQLite is read as the tables it keeps.
--
-- Not modelled: the snipe experiment and the owner's close, the backtest runner and its
-- strategies, the tournament's dashboard, graduation, market data but for the cache of bars of
-- the crypto pipeline (the stock pipeline fills the same cache, in no table that is modelled of
-- it), ground truth, the broker adapter, and the text of alerts, logs and reports, with the lines
-- of the ops log that only count. They are I/O, batch scripts, or parts that build on what is
-- here.
pub mod Base
pub mod Backtest
pub mod Risk
pub mod Paper
pub mod Tournament

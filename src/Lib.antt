-- ===== src/Lib.antt =====
-- Verification of the trading pipeline of gtt_v2: signals from Telegram are checked against the rules
-- of a trading floor and placed at Upstox as GTT orders with three legs (entry, target, stoploss). The
-- first version of the program, scripts at the root of the repository, is modelled as well (First).
--
-- The parts and their files:
--   Signal         gtt_v2/shared/signal/types.py: RawSignal, AdjustedSignal, validate_prices, and the
--                  statuses and legs that the schema lists. Signal.Parser is
--                  gtt_v2/shared/signal/parser.py.
--   Ingestor       gtt_v2/services/signal_ingestor/telegram_listener.py: what becomes of a message.
--   Clock, Redis   the clock (milliseconds, trading dates of Indian Standard Time) and the keys with
--                  an expiry time that the services share.
--   Rules          gtt_v2/shared/rules: buffer.py (Rules.Buffer), trade_type.py, timing.py,
--                  lot_splitter.py, missed_entry.py, and pnl_guard.py (Rules.PnlGuard) with the table
--                  of gtt_v2/shared/db/daily_pnl.py.
--   Limiter        gtt_v2/shared/redis/rate_limiter.py: the token bucket.
--   Client         gtt_v2/shared/upstox/client.py: _request with its retries, and _CircuitBreaker.
--   Database       gtt_v2/shared/db: signals.py (Database.Signals), gtt_rules.py (Database.Rules),
--                  order_updates.py (Database.Orders), writer.py (Database.Writer), over the tables of
--                  gtt_v2/shared/db/migrations/001_initial.sql.
--   Instruments    gtt_v2/shared/instruments/cache.py.
--   GttBuilder     gtt_v2/shared/upstox/gtt_builder.py.
--   Engine         gtt_v2/services/trading_engine/main.py: State holds what the engine reads and
--                  writes, Process and Stages are process_signal, stage by stage in the order of the
--                  code, each with its early return. Safety is about what is sent to Upstox, Effects
--                  about what is left in the tables and the write queue. Reconcile is
--                  reconcile_stale. Loop is the loop of main over the stream and the reclaiming of
--                  pending messages, with the readers of gtt_v2/shared/redis/client.py.
--   Monitor        gtt_v2/services/price_monitor/main.py: the decision to expire a signal, and in Checker
--                  the thresholds, the handling of a tick and the cancellation. Service is main, with
--                  the keys that are subscribed; Turns has the turns of its write queue.
--   Tracker        gtt_v2/services/order_tracker/main.py: the leg of an order, in Fill the booking of a
--                  filled order, and in Updates the messages of the stream and the reconciliation.
--   First          Store is db.py, one function for each function that reads or writes a table: the
--                  rows of signals in Store.Signals, the orders and trades in Store.Orders.
--                  Signals, Instruments, Orders, Metadata and Consumer are gtt_strategy.py: the
--                  parser, InstrumentCache, place_gtt_order_upstox, store_signal_metadata with its
--                  queue, and start_stream_consumer. Tracker (with Tracker.Updates, and Prices) is
--                  upstox_order_tracker.py,
--                  Monitor is price_monitor.py with its reconciliation in Monitor.Reconcile.
--   Common         numbers, lists, rounding, and Text, the operations of Python on texts of ASCII;
--                  Examples has the tests.
--
-- The ingestor puts the fields of a signal into the stream; the engine reads them with Signal.Parser.
-- It calls the rules, then the repository of signals (the row with the unique hash is the
-- deduplication), then the limiter and the client. Its later writes go through the queue of
-- Database.Writer. The daily guard, the limiter and the last prices live in Redis. The price monitor
-- reads the same table of signals, and expires rows that are still PENDING when a target is passed; the
-- order tracker makes rows ACTIVE or closes them as their orders are filled, and books the profit with
-- the daily guard.
--
-- Numbers: prices and money are integers of hundredths, and sums of them are exact where the source
-- adds floats. Where the source rounds the mean of two prices, the half that floats decide by their
-- binary form is a parameter (rounds_up). Tokens are ten-thousandths. Times are milliseconds.
-- One call of a handler reads the clock once. In First prices are ten-thousandths of a rupee, and the
-- JSON that is kept in a column is kept as its data.
-- Parameters: the digest of SHA-256, what the network does at each attempt, what the environment
-- variables hold, what Upstox answers to requests for GTTs, trades and cancellations, what Redis
-- delivers, whether the connection to the database is lost at the insert of a row, before or after it is
-- committed, the answer of the language model, float of a text and str of a number, and
-- parse_expiry_date. Texts are compared as they are; those that the source compares in upper case are taken in upper case, and
-- likewise in lower case. Block reasons are data with the parts of the text.
--
-- Loops are structural: the three attempts of a request count down from MAX_RETRY (max_retries in
-- First.Orders), and each POST is one entry of what was sent; the consumers recurse on the list of
-- what is delivered.
--
-- Not modelled: logs, prints, latencies and the pipeline log, the connections (WebSockets, Telegram, HTTP
-- pages), the formats of expiry dates (strptime), the prompts of the language model, the
-- bridge to the frontend, the admin API, and generated code. Redis does not fail in the engine, also not
-- at its last step, the message to the price monitor. A text that float reads as nan or as infinite is
-- outside the model, as prices are integers.
pub mod Common
pub mod Clock
pub mod Redis
pub mod Signal
pub mod Rules
pub mod Limiter
pub mod Client
pub mod Database
pub mod Ingestor
pub mod Instruments
pub mod GttBuilder
pub mod Engine
pub mod Monitor
pub mod Tracker
pub mod Examples
pub mod First

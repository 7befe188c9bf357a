-- ===== src/Engine/Stages.antt =====
-- The stages of `process_signal` of gtt_v2/services/trading_engine/main.py in their order, each with
-- its early return; and the handling of a message of the stream.
use upstox_gtt.Common.{
  ℕ, ◌*◌, ℤ, Bool, true, false, Option, none, some, List, [], ◌∷◌, ◌++◌, String, get_or,
  if◌then◌else◌,
}
use upstox_gtt.Signal.{RawSignal, AdjustedSignal, pending}
use upstox_gtt.Rules.Buffer.{apply_buffer}
use upstox_gtt.Rules.TradeType.{detect_trade_type, with_trade_type}
use upstox_gtt.Rules.Timing.{check}
use upstox_gtt.Rules.MissedEntry.{check_missed_entry}
use upstox_gtt.Rules.PnlGuard.{allow}
use upstox_gtt.Limiter.{acquire}
use upstox_gtt.Client.{request}
use upstox_gtt.Database.{BlockReason, Tables}
use upstox_gtt.Database
use upstox_gtt.Database.Signals.{Inserted, new_id, duplicate, violation, insert_signal}
use upstox_gtt.Instruments.{Instrument, IndexKey, resolve}
use upstox_gtt.GttBuilder.{Payload, build_gtt_payload, resolve_lot_size}
use upstox_gtt.Engine.State.{
  Settings, SignalKey, Connection, reachable, lost_before, lost_after, Surroundings, posts, Engine,
  Verdict, parse_failed, duplicate_signal, raises, unique_violation, connection_lost,
  compute_signal_hash,
}
use upstox_gtt.Engine.Process.{
  signal_to_dict, block_signal, fail_signal, risk, reward, rr_too_low, finish, after_placing,
}

-- The key under which `resolve` looks the signal's option up.
abbrev pub instrument_index : RawSignal → IndexKey
instrument_index s = record {
  underlying = s.underlying;
  strike = get_or 0 s.strike;
  opt_type = s.option_type;
  expiry = s.expiry;
}

-- `targets_adj[0] if targets_adj else entry_price`.
abbrev pub first_or : ℤ → List ℤ → ℤ
first_or d [] = d
first_or d (t ∷ ts) = t

abbrev pub with_instrument : RawSignal → String → RawSignal
with_instrument s key = record s { instrument_key = some key }

abbrev pub adj_with_instrument : AdjustedSignal → String → AdjustedSignal
adj_with_instrument a key = record a { instrument_key = key }

abbrev pub with_hash : RawSignal → String → RawSignal
with_hash s h = record s { signal_hash = some h }

abbrev pub gtt_payload : Settings → RawSignal → AdjustedSignal → String → ℕ → Payload
gtt_payload cfg s adj key lot =
    build_gtt_payload key s.action s.product adj.entry_price (cfg.default_quantity * lot)
      adj.stoploss_adj (first_or adj.entry_price adj.targets_adj)

module _ (cfg : Settings) (env : Surroundings) where
  -- 11. The order itself, with each POST that the request makes, or the mock of it.
  unfoldable pub place : ℕ → String → RawSignal → AdjustedSignal → ℕ → Engine → Verdict × Engine
  unfolding posts
  place id key s adj lot e =
      if cfg.dry_run
      then finish id key adj (env.trace_id ∷ []) e
      else let o = request env.net e.circuit in
        after_placing id key s adj (first_or adj.entry_price adj.targets_adj) o.result (record e {
          circuit = o.circuit;
          sent =
              e.sent
              ++ posts o.calls
                  (record { hash = s.signal_hash; payload = gtt_payload cfg s adj key lot });
        })

  -- 10. The rate limit.
  unfoldable pub limit_rate :
      ℕ → String → RawSignal → AdjustedSignal → ℕ → Engine → Verdict × Engine
  limit_rate id key s adj lot e =
      let (allowed, buckets) = acquire "gtt_place" env.now e.buckets in
      let e1 = record e { buckets = buckets } in
      if allowed then place id key s adj lot e1 else fail_signal id Database.rate_limited e1

  -- 8. The row, and the second level of deduplication.
  unfoldable pub after_insert :
      String → RawSignal → AdjustedSignal → ℕ → Inserted × Tables → Engine → Verdict × Engine
  after_insert key s adj lot (new_id id, t) e =
      limit_rate id key s adj lot (record e { tables = t })
  after_insert key s adj lot (duplicate, t) e = (duplicate_signal, record e { tables = t })
  after_insert key s adj lot (violation, t) e = (raises unique_violation, record e { tables = t })

  -- A lost connection raises, whether or not the row has been committed.
  unfoldable pub if_connected :
      Connection
      → String
      → RawSignal
      → AdjustedSignal
      → ℕ
      → Inserted × Tables
      → Engine
      → Verdict × Engine
  if_connected reachable key s adj lot r e = after_insert key s adj lot r e
  if_connected lost_before key s adj lot r e = (raises connection_lost, e)
  if_connected lost_after key s adj lot (ins, t) e =
      (raises connection_lost, record e { tables = t })

  unfoldable pub insert_row : String → RawSignal → AdjustedSignal → ℕ → Engine → Verdict × Engine
  unfolding if_connected
  insert_row key s adj lot e =
      if_connected env.database key s adj lot
        (insert_signal env.now (signal_to_dict s (some adj) pending) e.tables) e

  -- 7. The missed entry guard.
  unfoldable pub guard_entry : RawSignal → AdjustedSignal → Instrument → Engine → Verdict × Engine
  guard_entry s0 adj0 i e =
      let s = with_instrument s0 i.instrument_key in
      let adj = adj_with_instrument adj0 i.instrument_key in
      elim (check_missed_entry env.now adj e.prices) [
        | some why ↦ block_signal s (Database.missed_entry why) e
        | none ↦ insert_row i.instrument_key s adj (resolve_lot_size cfg.lots s.underlying i) e
      ]

  -- 6. The instrument.
  unfoldable pub find_instrument : RawSignal → AdjustedSignal → Engine → Verdict × Engine
  find_instrument s adj e =
      let (found, cache) = resolve (instrument_index s) e.cache in
      let e1 = record e { cache = cache } in
      elim found [
        | none ↦ block_signal s Database.instrument_not_found e1
        | some i ↦ guard_entry s adj i e1
      ]

  module _ (rounds_up : ℤ → Bool) where
    -- 5. The trade type, the buffer, and the ratio of reward to risk.
    unfoldable pub check_rr : RawSignal → ℤ → Engine → Verdict × Engine
    check_rr s0 t1 e =
        let s = with_trade_type s0 (detect_trade_type s0) in
        if rr_too_low s t1
        then block_signal s (Database.rr_ratio (risk s) (reward s t1)) e
        else find_instrument s (apply_buffer rounds_up s) e

    -- 4. The daily limit, then the targets.
    unfoldable pub check_targets : RawSignal → List ℤ → Engine → Verdict × Engine
    check_targets s [] e = block_signal s Database.no_targets e
    check_targets s (t1 ∷ ts) e = check_rr s t1 e

    unfoldable pub check_pnl : RawSignal → Engine → Verdict × Engine
    unfolding check_targets
    check_pnl s e =
        let (allowed, ledger) = allow cfg.limits env.now e.ledger in
        let e1 = record e { ledger = ledger } in
        if allowed then check_targets s s.targets e1 else block_signal s Database.daily_pnl_limit e1

    -- 3. The hours of trading; a dry run is not held to them.
    unfoldable pub check_timing : RawSignal → Engine → Verdict × Engine
    check_timing s e =
        if cfg.dry_run then check_pnl s e else elim (check env.now cfg.trader_profile) [
          | some why ↦ block_signal s (Database.timing why) e
          | none ↦ check_pnl s e
        ]

    -- 1. The parsed signal, with its hash.
    unfoldable pub process_signal :
        (SignalKey → String) → Option RawSignal → Engine → Verdict × Engine
    process_signal digest none e = (parse_failed, e)
    process_signal digest (some s) e = check_timing (with_hash s (compute_signal_hash digest s)) e

-- The `except` clauses of the consumer loop: a lost connection leaves the message pending.
abbrev pub acknowledged : Verdict → Bool
acknowledged (raises connection_lost) = false
acknowledged _ = true

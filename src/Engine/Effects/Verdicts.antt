-- ===== src/Engine/Effects/Verdicts.antt =====
-- Every way in which `process_signal` ends.
use upstox_gtt.Common.{
  ℕ, ℤ, Bool, none, some, List, [], ◌∷◌, String, refl, if_elim, option_elim, inl, inr, ◌≡◌, ap, sym,
}
use upstox_gtt.Signal.{RawSignal, AdjustedSignal, pending, blocked}
use upstox_gtt.Rules.Buffer.{apply_buffer}
use upstox_gtt.Rules.TradeType.{detect_trade_type, with_trade_type}
use upstox_gtt.Rules.Timing.{check}
use upstox_gtt.Rules.MissedEntry.{check_missed_entry}
use upstox_gtt.Rules.PnlGuard.{allow}
use upstox_gtt.Database.{SignalData, Tables, BlockReason}
use upstox_gtt.Database
use upstox_gtt.Database.Signals.{Inserted, new_id, duplicate, violation, insert_signal}
use upstox_gtt.Instruments.{Instrument, resolve}
use upstox_gtt.GttBuilder.{resolve_lot_size}
use upstox_gtt.Engine.State.{
  Settings, SignalKey, Surroundings, Connection, reachable, lost_before, lost_after, Engine,
  compute_signal_hash,
}
use upstox_gtt.Engine.Process.{signal_to_dict, block_signal, rr_too_low}
use upstox_gtt.Engine.Stages.{
  instrument_index, with_instrument, adj_with_instrument, with_hash, if_connected, insert_row,
  guard_entry, find_instrument, check_rr, check_targets, check_pnl, check_timing, process_signal,
}
use upstox_gtt.Engine.Effects.{Effect, IsOf, no_row, after_insert-Effect}

module _ (cfg : Settings) (env : Surroundings) where
  if_connected-Effect :
      (c : Connection) (h m key : String) (s : RawSignal) (adj : AdjustedSignal) (lot : ℕ)
      (d : SignalData) (ins : Inserted × Tables) (e : Engine)
      → ins ≡ insert_signal env.now d e.tables
      → d.signal_hash ≡ some h
      → d.status ≡ pending
      → Effect cfg env h m e.queue e.tables (if_connected cfg env c key s adj lot ins e)
  unfolding if_connected
  if_connected-Effect reachable h m key s adj lot d ins e came hash st =
      after_insert-Effect cfg env h m key s adj lot d ins e came hash st
  if_connected-Effect lost_before h m key s adj lot d ins e came hash st = (refl, inl refl)
  if_connected-Effect lost_after h m key s adj lot d (new_id id, t) e came hash st =
      (refl, inr (id, (d, hash, st, ap (λ r. r.0) (sym came), ap (λ r. r.1) came)))
  if_connected-Effect lost_after h m key s adj lot d (duplicate, t) e came hash st =
      (refl, inl (no_row cfg env d e.tables (duplicate, t) came (λ id. cc)))
  if_connected-Effect lost_after h m key s adj lot d (violation, t) e came hash st =
      (refl, inl (no_row cfg env d e.tables (violation, t) came (λ id. cc)))

  insert_row-Effect :
      (h m key : String) (s : RawSignal) (adj : AdjustedSignal) (lot : ℕ) (e : Engine)
      → IsOf h m s
      → Effect cfg env h m e.queue e.tables (insert_row cfg env key s adj lot e)
  unfolding insert_row signal_to_dict
  insert_row-Effect h m key s adj lot e hash =
      if_connected-Effect env.database h m key s adj lot (signal_to_dict s (some adj) pending)
        (insert_signal env.now (signal_to_dict s (some adj) pending) e.tables) e refl hash.0 refl

  block-Effect :
      (h m : String) (s : RawSignal) (why : BlockReason) (e : Engine)
      → IsOf h m s
      → Effect cfg env h m e.queue e.tables (block_signal s why e)
  unfolding block_signal signal_to_dict
  block-Effect h m s why e hash =
      (refl, (signal_to_dict s none blocked, hash.0, hash.1, refl, refl))

  guard_entry-Effect :
      (h m : String) (s : RawSignal) (adj : AdjustedSignal) (i : Instrument) (e : Engine)
      → IsOf h m s
      → Effect cfg env h m e.queue e.tables (guard_entry cfg env s adj i e)
  unfolding guard_entry
  guard_entry-Effect h m s adj i e hash =
      let s1 = with_instrument s i.instrument_key in
      let adj1 = adj_with_instrument adj i.instrument_key in
      option_elim (Effect cfg env h m e.queue e.tables) (check_missed_entry env.now adj1 e.prices)
        (λ free.
          insert_row-Effect h m i.instrument_key s1 adj1 (resolve_lot_size cfg.lots s.underlying i)
            e hash)
        (λ why missed. block-Effect h m s1 (Database.missed_entry why) e hash)

  find_instrument-Effect :
      (h m : String) (s : RawSignal) (adj : AdjustedSignal) (e : Engine)
      → IsOf h m s
      → Effect cfg env h m e.queue e.tables (find_instrument cfg env s adj e)
  unfolding find_instrument
  find_instrument-Effect h m s adj e hash =
      let (found, cache) = resolve (instrument_index s) e.cache in
      let e1 = record e { cache = cache } in
      option_elim (Effect cfg env h m e.queue e.tables) found
        (λ missing. block-Effect h m s Database.instrument_not_found e1 hash)
        (λ i e'. guard_entry-Effect h m s adj i e1 hash)

  module _ (rounds_up : ℤ → Bool) where
    check_rr-Effect :
        (h m : String) (s0 : RawSignal) (t1 : ℤ) (e : Engine)
        → IsOf h m s0
        → Effect cfg env h m e.queue e.tables (check_rr cfg env rounds_up s0 t1 e)
    unfolding check_rr
    check_rr-Effect h m s0 t1 e hash =
        let s = with_trade_type s0 (detect_trade_type s0) in
        if_elim (Effect cfg env h m e.queue e.tables) (rr_too_low s t1)
          (λ low. block-Effect h m s _ e hash)
          (λ good. find_instrument-Effect h m s (apply_buffer rounds_up s) e hash)

    check_targets-Effect :
        (h m : String) (s : RawSignal) (ts : List ℤ) (e : Engine)
        → IsOf h m s
        → Effect cfg env h m e.queue e.tables (check_targets cfg env rounds_up s ts e)
    unfolding check_targets
    check_targets-Effect h m s [] e hash = block-Effect h m s Database.no_targets e hash
    check_targets-Effect h m s (t1 ∷ ts) e hash = check_rr-Effect h m s t1 e hash

    check_pnl-Effect :
        (h m : String) (s : RawSignal) (e : Engine)
        → IsOf h m s
        → Effect cfg env h m e.queue e.tables (check_pnl cfg env rounds_up s e)
    unfolding check_pnl
    check_pnl-Effect h m s e hash =
        let (allowed, ledger) = allow cfg.limits env.now e.ledger in
        let e1 = record e { ledger = ledger } in
        if_elim (Effect cfg env h m e.queue e.tables) allowed
          (λ may. check_targets-Effect h m s s.targets e1 hash)
          (λ over. block-Effect h m s Database.daily_pnl_limit e1 hash)

    check_timing-Effect :
        (h m : String) (s : RawSignal) (e : Engine)
        → IsOf h m s
        → Effect cfg env h m e.queue e.tables (check_timing cfg env rounds_up s e)
    unfolding check_timing
    check_timing-Effect h m s e hash =
        if_elim (Effect cfg env h m e.queue e.tables) cfg.dry_run
          (λ dry. check_pnl-Effect h m s e hash)
          λ live.
            option_elim (Effect cfg env h m e.queue e.tables) (check env.now cfg.trader_profile)
              (λ open_. check_pnl-Effect h m s e hash)
              (λ why closed_. block-Effect h m s (Database.timing why) e hash)

    -- Every ending of a call for a signal that was parsed. A blocked signal leaves the tables alone
    -- and enqueues a BLOCKED row under its hash, with the reason; a duplicate enqueues nothing and
    -- adds no row; a failure and a placed order have added a PENDING row, and enqueue the status
    -- FAILED with the reason, or last the status PENDING with the order ids. An exception enqueues
    -- nothing, also where the PENDING row has been added.
    pub process_signal-Effect :
        (digest : SignalKey → String) (s : RawSignal) (e : Engine)
        → Effect cfg env
            (compute_signal_hash digest s)
            s.redis_message_id
            e.queue
            e.tables
            (process_signal cfg env rounds_up digest (some s) e)
    unfolding process_signal
    process_signal-Effect digest s e =
        check_timing-Effect (compute_signal_hash digest s) s.redis_message_id
          (with_hash s (compute_signal_hash digest s)) e (refl, refl)

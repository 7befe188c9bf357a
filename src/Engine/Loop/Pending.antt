-- ===== src/Engine/Loop/Pending.antt =====
-- A message that a lost connection leaves pending has posted nothing and enqueued nothing.
use upstox_gtt.Common.{
  ℕ, ℤ, ◌≡◌, Bool, true, false, some, List, [], ◌∷◌, String, refl, if_elim, option_elim,
}
use upstox_gtt.Signal.{RawSignal, AdjustedSignal, pending}
use upstox_gtt.Rules.Buffer.{apply_buffer}
use upstox_gtt.Rules.TradeType.{detect_trade_type, with_trade_type}
use upstox_gtt.Rules.Timing.{check}
use upstox_gtt.Rules.MissedEntry.{check_missed_entry}
use upstox_gtt.Rules.PnlGuard.{allow}
use upstox_gtt.Limiter.{acquire}
use upstox_gtt.Client.{Result, ok, reject, http_error, raised, request}
use upstox_gtt.Client
use upstox_gtt.Database.{Tables, BlockReason}
use upstox_gtt.Database
use upstox_gtt.Database.Signals.{Inserted, new_id, duplicate, violation, insert_signal}
use upstox_gtt.Instruments.{resolve}
use upstox_gtt.GttBuilder.{resolve_lot_size}
use upstox_gtt.Engine.State.{
  Settings, SignalKey, Surroundings, Connection, reachable, lost_before, lost_after, Engine,
  Verdict, compute_signal_hash,
}
use upstox_gtt.Engine.Process.{signal_to_dict, block_signal, rr_too_low, after_placing}
use upstox_gtt.Engine.Stages.{
  instrument_index, with_instrument, adj_with_instrument, with_hash, first_or, place, limit_rate,
  if_connected, after_insert, insert_row, guard_entry, find_instrument, check_rr, check_targets,
  check_pnl, check_timing, process_signal, acknowledged,
}

-- The write queue and the posts are as they were.
abbrev pub Untouched : Engine → Engine → Type 0
Untouched e e' = (e'.queue ≡ e.queue) × (e'.sent ≡ e.sent)

abbrev pub Retryable : Engine → Verdict × Engine → Type 0
Retryable e r = acknowledged r.0 ≡ false → Untouched e r.1

after_placing_acked :
    (id : ℕ) (key : String) (s : RawSignal) (adj : AdjustedSignal) (t : ℤ)
    (r : Result (List String)) (e : Engine)
    → acknowledged (after_placing id key s adj t r e).0 ≡ true
unfolding after_placing
after_placing_acked id key s adj t (ok []) e = refl
after_placing_acked id key s adj t (ok (g ∷ gs)) e = refl
after_placing_acked id key s adj t (reject msg) e = refl
after_placing_acked id key s adj t Client.circuit_open e = refl
after_placing_acked id key s adj t Client.max_retries e = refl
after_placing_acked id key s adj t (http_error status) e = refl
after_placing_acked id key s adj t raised e = refl

abbrev Acked : Verdict × Engine → Type 0
Acked r = acknowledged r.0 ≡ true

module _ (cfg : Settings) (env : Surroundings) where
  place-Acked :
      (id : ℕ) (key : String) (s : RawSignal) (adj : AdjustedSignal) (lot : ℕ) (e : Engine)
      → Acked (place cfg env id key s adj lot e)
  unfolding place
  place-Acked id key s adj lot e =
      if_elim Acked cfg.dry_run (λ dry. refl)
        λ live.
          after_placing_acked id key s adj (first_or adj.entry_price adj.targets_adj)
            (request env.net e.circuit).result _

  after_insert-Acked :
      (key : String) (s : RawSignal) (adj : AdjustedSignal) (lot : ℕ) (ins : Inserted × Tables)
      (e : Engine)
      → Acked (after_insert cfg env key s adj lot ins e)
  unfolding after_insert limit_rate
  after_insert-Acked key s adj lot (new_id id, t) e =
      let (allowed, buckets) = acquire "gtt_place" env.now e.buckets in
      if_elim Acked allowed
        (λ free. place-Acked id key s adj lot (record e { tables = t; buckets = buckets }))
        (λ full. refl)
  after_insert-Acked key s adj lot (duplicate, t) e = refl
  after_insert-Acked key s adj lot (violation, t) e = refl

  if_connected-Retryable :
      (c : Connection) (key : String) (s : RawSignal) (adj : AdjustedSignal) (lot : ℕ)
      (r : Inserted × Tables) (e : Engine)
      → Retryable e (if_connected cfg env c key s adj lot r e)
  unfolding if_connected
  if_connected-Retryable reachable key s adj lot r e left =
      absurd (cc (left, after_insert-Acked key s adj lot r e))
  if_connected-Retryable lost_before key s adj lot r e left = (refl, refl)
  if_connected-Retryable lost_after key s adj lot (ins, t) e left = (refl, refl)

  insert_row-Retryable :
      (key : String) (s : RawSignal) (adj : AdjustedSignal) (lot : ℕ) (e : Engine)
      → Retryable e (insert_row cfg env key s adj lot e)
  unfolding insert_row
  insert_row-Retryable key s adj lot e =
      if_connected-Retryable env.database key s adj lot
        (insert_signal env.now (signal_to_dict s (some adj) pending) e.tables) e

  block-Retryable :
      (s : RawSignal) (why : BlockReason) (e0 e : Engine) → Retryable e0 (block_signal s why e)
  unfolding block_signal
  block-Retryable s why e0 e left = absurd (cc left)

  find_instrument-Retryable :
      (s : RawSignal) (adj : AdjustedSignal) (e : Engine)
      → Retryable e (find_instrument cfg env s adj e)
  unfolding find_instrument guard_entry
  find_instrument-Retryable s adj e =
      let (found, cache) = resolve (instrument_index s) e.cache in
      let e1 = record e { cache = cache } in
      option_elim (Retryable e) found
        (λ missing. block-Retryable s Database.instrument_not_found e e1)
        λ i here.
          let s1 = with_instrument s i.instrument_key in
          let adj1 = adj_with_instrument adj i.instrument_key in
          option_elim (Retryable e) (check_missed_entry env.now adj1 e.prices)
            (λ free.
              insert_row-Retryable i.instrument_key s1 adj1
                (resolve_lot_size cfg.lots s.underlying i) e1)
            (λ why missed. block-Retryable s1 (Database.missed_entry why) e e1)

  module _ (rounds_up : ℤ → Bool) where
    check_targets-Retryable :
        (s : RawSignal) (ts : List ℤ) (e : Engine)
        → Retryable e (check_targets cfg env rounds_up s ts e)
    unfolding check_targets check_rr
    check_targets-Retryable s [] e = block-Retryable s Database.no_targets e e
    check_targets-Retryable s0 (t1 ∷ ts) e =
        let s = with_trade_type s0 (detect_trade_type s0) in
        if_elim (Retryable e) (rr_too_low s t1) (λ low. block-Retryable s _ e e)
          (λ good. find_instrument-Retryable s (apply_buffer rounds_up s) e)

    check_pnl-Retryable :
        (s : RawSignal) (e : Engine) → Retryable e (check_pnl cfg env rounds_up s e)
    unfolding check_pnl
    check_pnl-Retryable s e =
        let (allowed, ledger) = allow cfg.limits env.now e.ledger in
        let e1 = record e { ledger = ledger } in
        if_elim (Retryable e) allowed (λ may. check_targets-Retryable s s.targets e1)
          (λ over. block-Retryable s Database.daily_pnl_limit e e1)

    check_timing-Retryable :
        (s : RawSignal) (e : Engine) → Retryable e (check_timing cfg env rounds_up s e)
    unfolding check_timing
    check_timing-Retryable s e =
        if_elim (Retryable e) cfg.dry_run (λ dry. check_pnl-Retryable s e)
          λ live.
            option_elim (Retryable e) (check env.now cfg.trader_profile)
              (λ open_. check_pnl-Retryable s e)
              (λ why closed_. block-Retryable s (Database.timing why) e e)

    pub process_signal-Retryable :
        (digest : SignalKey → String) (s : RawSignal) (e : Engine)
        → Retryable e (process_signal cfg env rounds_up digest (some s) e)
    unfolding process_signal
    process_signal-Retryable digest s e =
        check_timing-Retryable (with_hash s (compute_signal_hash digest s)) e

-- ===== src/Engine/Safety/Orders.antt =====
-- What `process_signal` sends to Upstox.
use upstox_gtt.Common.{
  ℕ, ℤ, ◌≡◌, ◌⊎◌, inl, inr, Bool, true, false, none, some, List, ◌∷◌, String, refl,
}
use upstox_gtt.Signal.{RawSignal, AdjustedSignal, pending}
use upstox_gtt.Rules.Buffer.{apply_buffer}
use upstox_gtt.Rules.TradeType.{detect_trade_type, with_trade_type}
use upstox_gtt.Rules.Timing.{check}
use upstox_gtt.Rules.MissedEntry.{check_missed_entry}
use upstox_gtt.Rules.PnlGuard.{allow}
use upstox_gtt.Limiter.{acquire}
use upstox_gtt.Database.Signals.{new_id, insert_signal}
use upstox_gtt.Instruments.{Instrument, resolve}
use upstox_gtt.GttBuilder.{resolve_lot_size}
use upstox_gtt.Engine.State.{
  Settings, SignalKey, Surroundings, Engine, Verdict, compute_signal_hash,
}
use upstox_gtt.Engine.Process.{signal_to_dict, rr_too_low}
use upstox_gtt.Engine.Stages.{
  instrument_index, with_instrument, adj_with_instrument, with_hash, process_signal,
}
use upstox_gtt.Engine.Safety.{SentOne, SentNone, after_row}
use upstox_gtt.Engine.Safety.Gates.{check_timing_sends}
use upstox_gtt.Database.Signals.{hash_taken}
use upstox_gtt.Database.Signals.Unique.{
  TableOp, run_ops, run_ops-taken, taken_duplicate, inserted_taken,
}

-- The gates that an order has passed.
pub record Sanctioned (cfg : Settings) (env : Surroundings) (rounds_up : ℤ → Bool) (s : RawSignal)
    (adj : AdjustedSignal) (e : Engine) (i : Instrument) : Type 0 where
  pub live : cfg.dry_run ≡ false
  pub hours : check env.now cfg.trader_profile ≡ none
  pub within_limit : (allow cfg.limits env.now e.ledger).0 ≡ true
  pub worthwhile : (t1 : ℤ) × (rest : List ℤ) × (s.targets ≡ t1 ∷ rest) × (rr_too_low s t1 ≡ false)
  pub resolved : (resolve (instrument_index s) e.cache).0 ≡ some i
  pub not_missed :
      check_missed_entry env.now (adj_with_instrument adj i.instrument_key) e.prices ≡ none
  pub fresh :
      (id : ℕ) × ((insert_signal env.now
          (signal_to_dict
            (with_instrument s i.instrument_key)
            (some (adj_with_instrument adj i.instrument_key))
            pending)
          e.tables).0
        ≡ new_id id)
  pub rate : (acquire "gtt_place" env.now e.buckets).0 ≡ true

-- The signal as the engine hashes and types it, and its buffered prices.
abbrev pub prepared : (SignalKey → String) → RawSignal → RawSignal
prepared digest s =
    let s1 = with_hash s (compute_signal_hash digest s) in with_trade_type s1 (detect_trade_type s1)

-- One GTT, with the hash of the signal, the instrument it resolves to, and its buffered prices.
abbrev pub OrderFor :
    Settings
    → Surroundings
    → RawSignal
    → AdjustedSignal
    → Instrument
    → Engine
    → Verdict × Engine
    → Type 0
OrderFor cfg env s adj i e =
    let s1 = with_instrument s i.instrument_key in
    let adj1 = adj_with_instrument adj i.instrument_key in
    SentOne cfg env s1 adj1 i.instrument_key (resolve_lot_size cfg.lots s.underlying i)
      (after_row env s1 adj1 e) e

module _ (cfg : Settings) (rounds_up : ℤ → Bool) (digest : SignalKey → String) where
  -- A call posts nothing to Upstox, or posts one GTT at most three times, again only after an attempt that
  -- timed out, found no connection or had a status to retry on; and that only if it is no dry run, the
  -- hours and the daily limit allow it, the reward to the first target is at least twice the risk, the
  -- instrument is known, the target is not reached yet, the row of the signal is new, and the rate
  -- limit lets it through; the GTT then has the buffered prices and the lots of that instrument.
  pub process_signal_sends :
      (env : Surroundings) (s : RawSignal) (e : Engine)
      → let r = process_signal cfg env rounds_up digest (some s) e in
        let s1 = prepared digest s in
        let adj = apply_buffer rounds_up s1 in
        SentNone e r
        ⊎ ((i : Instrument) × Sanctioned cfg env rounds_up s1 adj e i
            × OrderFor cfg env s1 adj i e r)
  unfolding process_signal
  process_signal_sends env s e =
      elim (check_timing_sends cfg env rounds_up (with_hash s (compute_signal_hash digest s)) e) [
        | inl none_ ↦ inl none_
        | inr ((hours, (limit, targets)), (i, found, (missed, ((live, rate), fresh)), one)) ↦ inr (
          i,
          record {
            live = live;
            hours = elim hours [
              | inl dry ↦ absurd {A = check env.now cfg.trader_profile ≡ none} (cc)
              | inr open_ ↦ open_
            ];
            within_limit = limit;
            worthwhile = targets;
            resolved = found;
            not_missed = missed;
            fresh = fresh;
            rate = rate;
          },
          one,
        )
      ]

  -- A signal whose hash is in the table already is never sent, whatever else it holds and whenever it
  -- comes.
  pub taken_sends_none :
      (env : Surroundings) (s : RawSignal) (e : Engine)
      → hash_taken (some (compute_signal_hash digest s)) e.tables.signals ≡ true
      → SentNone e (process_signal cfg env rounds_up digest (some s) e)
  unfolding signal_to_dict
  taken_sends_none env s e taken = elim (process_signal_sends env s e) [
    | inl none_ ↦ none_
    | inr (i, ok_, one) ↦
        let s1 = with_instrument (prepared digest s) i.instrument_key in
        let adj =
          adj_with_instrument (apply_buffer rounds_up (prepared digest s)) i.instrument_key in
        let (id, new) = ok_.fresh in
        let (dup, _) =
          taken_duplicate env.now (signal_to_dict s1 (some adj) pending)
            (compute_signal_hash digest s) e.tables refl taken in
        absurd (cc (dup, new))
  ]

  sent_takes :
      (env : Surroundings) (s : RawSignal) (e : Engine)
      → ¬ SentNone e (process_signal cfg env rounds_up digest (some s) e)
      → hash_taken
          (some (compute_signal_hash digest s))
          (process_signal cfg env rounds_up digest (some s) e).1.tables.signals
        ≡ true
  unfolding signal_to_dict
  sent_takes env s e sent = elim (process_signal_sends env s e) [
    | inl none_ ↦ absurd (sent none_)
    | inr (i, ok_, (tables, _)) ↦
        let s1 = with_instrument (prepared digest s) i.instrument_key in
        let adj =
          adj_with_instrument (apply_buffer rounds_up (prepared digest s)) i.instrument_key in
        let (id, new) = ok_.fresh in
        rw tables (
          inserted_taken env.now (signal_to_dict s1 (some adj) pending)
            (compute_signal_hash digest s) id e.tables refl new)
  ]

  -- After a call that sent a GTT, no later call for a signal of the same hash sends one, in whatever
  -- state the engine then is, if its table of signals has come from that of the first call by inserts
  -- and updates.
  pub no_second_order :
      (env later : Surroundings) (s s' : RawSignal) (ops : List TableOp) (e e' : Engine)
      → let r = process_signal cfg env rounds_up digest (some s) e in
        compute_signal_hash digest s' ≡ compute_signal_hash digest s
        → ¬ SentNone e r
        → e'.tables ≡ run_ops ops r.1.tables
        → SentNone e' (process_signal cfg later rounds_up digest (some s') e')
  no_second_order env later s s' ops e e' same sent came = taken_sends_none later s' e' (
      rw (came, same)
        (run_ops-taken ops (some (compute_signal_hash digest s))
          (process_signal cfg env rounds_up digest (some s) e).1.tables (sent_takes env s e sent)))

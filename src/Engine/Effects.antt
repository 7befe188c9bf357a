-- ===== src/Engine/Effects.antt =====
-- What `process_signal` leaves in the write queue and the table, by how it ends:
-- the stages from the insert on. The others are in the child.
pub mod Verdicts
pub mod Resend
use upstox_gtt.Common.{
  ℕ, ℤ, ◌≡◌, Bool, true, false, Option, none, some, List, [], ◌∷◌, String, refl, if_elim,
  option_elim, ap, sym, ◌∙◌, ◌≢◌, ◌⊎◌, inl, inr, arith,
}
use upstox_gtt.Signal.{RawSignal, AdjustedSignal, Status, pending, failed, blocked}
use upstox_gtt.Rules.Buffer.{apply_buffer}
use upstox_gtt.Rules.TradeType.{detect_trade_type, with_trade_type}
use upstox_gtt.Rules.Timing.{check}
use upstox_gtt.Rules.MissedEntry.{check_missed_entry}
use upstox_gtt.Rules.PnlGuard.{allow}
use upstox_gtt.Limiter.{acquire}
use upstox_gtt.Client.{Result, ok, reject, http_error, raised, request}
use upstox_gtt.Client
use upstox_gtt.Database.{SignalData, Tables}
use upstox_gtt.Database.Signals.{Inserted, new_id, duplicate, violation, insert_signal}
use upstox_gtt.Database.Writer.{DbWrite, write_status, write_block, enqueue}
use upstox_gtt.Instruments.{Instrument, resolve}
use upstox_gtt.GttBuilder.{resolve_lot_size}
use upstox_gtt.Engine.State.{
  Settings, SignalKey, Surroundings, Engine, Verdict, parse_failed, duplicate_signal, blocked_for,
  failed_for, placed, raises, compute_signal_hash,
}
use upstox_gtt.Engine.Process.{
  signal_to_dict, block_signal, rr_too_low, record_gtt, record_legs, after_placing, finish,
}
use upstox_gtt.Engine.Stages.{
  instrument_index, with_instrument, adj_with_instrument, with_hash, first_or, place, limit_rate,
  after_insert, insert_row, guard_entry, find_instrument, check_rr, check_targets, check_pnl,
  check_timing, process_signal,
}
use upstox_gtt.Engine.Safety.{record_legs-tables}

-- The stages after the insert, from the state `e`, for the row `id`: they leave the tables alone; a
-- failure enqueues the status FAILED with its reason; a placed order enqueues, last, the status
-- PENDING with the order ids; an exception enqueues nothing.
abbrev pub PlaceEffect : ℕ → Engine → Verdict × Engine → Type 0
PlaceEffect id e (failed_for why, e') =
    (e'.tables ≡ e.tables)
    × (e'.queue ≡ enqueue (write_status id failed (some why) none none) e.queue)
PlaceEffect id e (placed ids, e') =
    (e'.tables ≡ e.tables)
    × ((q : List DbWrite) × (ltp : Option ℤ) × (e'.queue
          ≡ enqueue (write_status id pending none (some ids) ltp) q))
PlaceEffect id e (raises x, e') = (e'.tables ≡ e.tables) × (e'.queue ≡ e.queue)
PlaceEffect id e (_, e') = ⊥

after_placing_effect :
    (id : ℕ) (key : String) (s : RawSignal) (adj : AdjustedSignal) (t : ℤ)
    (r : Result (List String)) (e : Engine)
    → PlaceEffect id e (after_placing id key s adj t r e)
unfolding after_placing
after_placing_effect id key s adj t (ok []) e = (refl, refl)
after_placing_effect id key s adj t (ok (g ∷ gs)) e =
    (record_legs-tables id s adj t (g ∷ gs) e, (_, _, refl))
after_placing_effect id key s adj t (reject msg) e = (refl, refl)
after_placing_effect id key s adj t Client.circuit_open e = (refl, refl)
after_placing_effect id key s adj t Client.max_retries e = (refl, refl)
after_placing_effect id key s adj t (http_error status) e = (refl, refl)
after_placing_effect id key s adj t raised e = (refl, refl)

module _ (cfg : Settings) (env : Surroundings) where
  place_effect :
      (id : ℕ) (key : String) (s : RawSignal) (adj : AdjustedSignal) (lot : ℕ) (e : Engine)
      → PlaceEffect id e (place cfg env id key s adj lot e)
  unfolding place
  place_effect id key s adj lot e =
      if_elim (PlaceEffect id e) cfg.dry_run (λ dry. (refl, (_, _, refl)))
        λ live.
          after_placing_effect id key s adj (first_or adj.entry_price adj.targets_adj)
            (request env.net e.circuit).result _

  limit_rate_effect :
      (id : ℕ) (key : String) (s : RawSignal) (adj : AdjustedSignal) (lot : ℕ) (e : Engine)
      → PlaceEffect id e (limit_rate cfg env id key s adj lot e)
  unfolding limit_rate
  limit_rate_effect id key s adj lot e =
      let (allowed, buckets) = acquire "gtt_place" env.now e.buckets in
      if_elim (PlaceEffect id e) allowed
        (λ free. place_effect id key s adj lot (record e { buckets = buckets }))
        (λ full. (refl, refl))

  -- The row of a signal of hash `h`, inserted as PENDING into the tables `t`.
  abbrev pub NewRow : String → Tables → ℕ → Engine → Type 0
  NewRow h t id e' =
      (d : SignalData) × (d.signal_hash ≡ some h)
      × (d.status ≡ pending)
      × ((insert_signal env.now d t).0 ≡ new_id id)
      × (e'.tables ≡ (insert_signal env.now d t).1)

  -- How a call ends, and what it has done to the queue `q` and the tables `t` for a signal of hash
  -- `h` in the message `m`.
  abbrev pub Effect : String → String → List DbWrite → Tables → Verdict × Engine → Type 0
  Effect h m q t (parse_failed, e') = ⊥
  Effect h m q t (duplicate_signal, e') = (e'.queue ≡ q) × (e'.tables.signals ≡ t.signals)
  Effect h m q t (blocked_for why, e') =
      (e'.tables ≡ t)
      × ((d : SignalData) × (d.signal_hash ≡ some h)
          × (d.redis_message_id ≡ m)
          × (d.status ≡ blocked)
          × (e'.queue ≡ enqueue (write_block d why) q))
  Effect h m q t (failed_for why, e') =
      (id : ℕ) × NewRow h t id e'
      × (e'.queue ≡ enqueue (write_status id failed (some why) none none) q)
  Effect h m q t (placed ids, e') =
      (id : ℕ) × NewRow h t id e'
      × ((q' : List DbWrite) × (ltp : Option ℤ) × (e'.queue
            ≡ enqueue (write_status id pending none (some ids) ltp) q'))
  Effect h m q t (raises x, e') =
      (e'.queue ≡ q) × ((e'.tables.signals ≡ t.signals) ⊎ ((id : ℕ) × NewRow h t id e'))

  placed-Effect :
      (h m : String) (q : List DbWrite) (t : Tables) (id : ℕ) (d : SignalData) (e : Engine)
      (r : Verdict × Engine)
      → d.signal_hash ≡ some h
      → d.status ≡ pending
      → (insert_signal env.now d t).0 ≡ new_id id
      → e.tables ≡ (insert_signal env.now d t).1
      → e.queue ≡ q
      → PlaceEffect id e r
      → Effect h m q t r
  placed-Effect h m q t id d e (parse_failed, e') hash st new tab que p = p
  placed-Effect h m q t id d e (duplicate_signal, e') hash st new tab que p = absurd p
  placed-Effect h m q t id d e (blocked_for why, e') hash st new tab que p = absurd p
  placed-Effect h m q t id d e (failed_for why, e') hash st new tab que (same, left) =
      (id, (d, hash, st, new, same ∙ tab), left ∙ ap (enqueue _) que)
  placed-Effect h m q t id d e (placed ids, e') hash st new tab que (same, left) =
      (id, (d, hash, st, new, same ∙ tab), left)
  placed-Effect h m q t id d e (raises x, e') hash st new tab que (same, left) =
      (left ∙ que, inr (id, (d, hash, st, new, same ∙ tab)))

  duplicate_same :
      (now : ℕ) (d : SignalData) (t : Tables)
      → (insert_signal now d t).0 ≢ new_id t.next_id
      → (insert_signal now d t).1.signals ≡ t.signals
  unfolding insert_signal
  duplicate_same now d t h = ground arith

  -- An insert that answers with no new row leaves the rows.
  pub no_row :
      (d : SignalData) (t : Tables) (r : Inserted × Tables)
      → r ≡ insert_signal env.now d t
      → ((id : ℕ) → r.0 ≢ new_id id)
      → r.1.signals ≡ t.signals
  no_row d t r came none_ =
      ap (λ x. x.1.signals) came
      ∙ duplicate_same env.now d t (λ new. none_ t.next_id (ap (λ x. x.0) came ∙ new))

  pub after_insert-Effect :
      (h m key : String) (s : RawSignal) (adj : AdjustedSignal) (lot : ℕ) (d : SignalData)
      (ins : Inserted × Tables) (e : Engine)
      → ins ≡ insert_signal env.now d e.tables
      → d.signal_hash ≡ some h
      → d.status ≡ pending
      → Effect h m e.queue e.tables (after_insert cfg env key s adj lot ins e)
  unfolding after_insert
  after_insert-Effect h m key s adj lot d (new_id id, t) e came hash st =
      let e1 = record e { tables = t } in
      placed-Effect h m e.queue e.tables id d e1 (limit_rate cfg env id key s adj lot e1) hash st
        (ap (λ r. r.0) (sym came)) (ap (λ r. r.1) came) refl (limit_rate_effect id key s adj lot e1)
  after_insert-Effect h m key s adj lot d (duplicate, t) e came hash st = (
    refl,
    ap (λ r. r.1.signals) came
        ∙ duplicate_same env.now d e.tables (λ new. cc (ap (λ r. r.0) came, new)),
  )
  after_insert-Effect h m key s adj lot d (violation, t) e came hash st = (
    refl,
    inl (
        ap (λ r. r.1.signals) came
        ∙ duplicate_same env.now d e.tables (λ new. cc (ap (λ r. r.0) came, new))),
  )

-- The hash and the message id of a signal.
abbrev pub IsOf : String → String → RawSignal → Type 0
IsOf h m s = (s.signal_hash ≡ some h) × (s.redis_message_id ≡ m)

-- ===== src/Engine/Safety.antt =====
-- The placing of a GTT: what is sent, and what has been passed then. The gates before it follow in
-- the children.
pub mod Gates
pub mod Orders
use upstox_gtt.Common.{
  ℕ, ◌+◌, ◌<◌, ◌*◌, ℤ, pos, ◌*ℤ◌, ◌≡◌, ◌⊎◌, inl, inr, Bool, true, false, Option, none, some, List,
  [], ◌∷◌, ◌++◌, String, refl, arith, get_or, if◌then◌else◌, Bool-cases, Option-cases, ◌≤◌, if_elim,
  option_elim,
}
use upstox_gtt.Signal.{RawSignal, AdjustedSignal, pending}
use upstox_gtt.Rules.Buffer.{apply_buffer}
use upstox_gtt.Rules.TradeType.{detect_trade_type, with_trade_type}
use upstox_gtt.Rules.Timing.{check}
use upstox_gtt.Rules.MissedEntry.{check_missed_entry}
use upstox_gtt.Rules.PnlGuard.{allow}
use upstox_gtt.Limiter.{acquire}
use upstox_gtt.Client.{Result, ok, reject, http_error, raised, request, max_retry}
use upstox_gtt.Client.Calls.{Retries, request_calls, request_again}
use upstox_gtt.Client
use upstox_gtt.Database.Signals.{Inserted, new_id, duplicate, violation, insert_signal}
use upstox_gtt.Database.{Tables}
use upstox_gtt.Instruments.{Instrument, resolve}
use upstox_gtt.GttBuilder.{resolve_lot_size}
use upstox_gtt.Engine.State.{
  Settings, SignalKey, Surroundings, Connection, reachable, lost_before, lost_after, Sent, posts,
  Engine, Verdict, compute_signal_hash,
}
use upstox_gtt.Engine.Process.{
  signal_to_dict, block_signal, rr_too_low, record_gtt, record_legs, after_placing, finish,
}
use upstox_gtt.Engine.Stages.{
  instrument_index, with_instrument, adj_with_instrument, with_hash, gtt_payload, first_or, place,
  limit_rate, after_insert, if_connected, insert_row, guard_entry, find_instrument, check_rr,
  check_targets, check_pnl, check_timing, process_signal,
}

record_legs-sent :
    (id : ℕ) (s : RawSignal) (adj : AdjustedSignal) (t : ℤ) (ids : List String) (e : Engine)
    → (record_legs id s adj t ids e).sent ≡ e.sent
unfolding record_legs
record_legs-sent id s adj t [] e = refl
record_legs-sent id s adj t (g ∷ gs) e = record_legs-sent id s adj t gs (record_gtt id s adj t g e)

after_placing-sent :
    (id : ℕ) (key : String) (s : RawSignal) (adj : AdjustedSignal) (t : ℤ)
    (r : Result (List String)) (e : Engine)
    → (after_placing id key s adj t r e).1.sent ≡ e.sent
unfolding after_placing
after_placing-sent id key s adj t (ok []) e = refl
after_placing-sent id key s adj t (ok (g ∷ gs)) e = record_legs-sent id s adj t (g ∷ gs) e
after_placing-sent id key s adj t (reject msg) e = refl
after_placing-sent id key s adj t Client.circuit_open e = refl
after_placing-sent id key s adj t Client.max_retries e = refl
after_placing-sent id key s adj t (http_error status) e = refl
after_placing-sent id key s adj t raised e = refl

pub record_legs-tables :
    (id : ℕ) (s : RawSignal) (adj : AdjustedSignal) (t : ℤ) (ids : List String) (e : Engine)
    → (record_legs id s adj t ids e).tables ≡ e.tables
unfolding record_legs
record_legs-tables id s adj t [] e = refl
record_legs-tables id s adj t (g ∷ gs) e =
    record_legs-tables id s adj t gs (record_gtt id s adj t g e)

after_placing-tables :
    (id : ℕ) (key : String) (s : RawSignal) (adj : AdjustedSignal) (t : ℤ)
    (r : Result (List String)) (e : Engine)
    → (after_placing id key s adj t r e).1.tables ≡ e.tables
unfolding after_placing
after_placing-tables id key s adj t (ok []) e = refl
after_placing-tables id key s adj t (ok (g ∷ gs)) e = record_legs-tables id s adj t (g ∷ gs) e
after_placing-tables id key s adj t _ e = refl

-- One GTT was posted at most three times, and again only after an attempt that timed out or had a status
-- to retry on, each time with the hash of the signal and the payload of its prices, and the tables
-- are left as `t`.
abbrev pub SentOne :
    Settings
    → Surroundings
    → RawSignal
    → AdjustedSignal
    → String
    → ℕ
    → Tables
    → Engine
    → Verdict × Engine
    → Type 0
SentOne cfg env s adj key lot t e r =
    (r.1.tables ≡ t)
    × ((calls : ℕ) × (calls ≤ max_retry)
        × ((i : ℕ) → i + 1 < calls → Retries (env.net i).reply)
        × (r.1.sent
            ≡ e.sent
              ++ posts calls
                  (record { hash = s.signal_hash; payload = gtt_payload cfg s adj key lot })))

abbrev pub SentNone : Engine → Verdict × Engine → Type 0
SentNone e r = r.1.sent ≡ e.sent

-- Nothing was sent, or the facts `F` hold and one GTT was sent.
abbrev pub Sends :
    Settings
    → Surroundings
    → Type 0
    → RawSignal
    → AdjustedSignal
    → String
    → ℕ
    → Tables
    → Engine
    → Verdict × Engine
    → Type 0
Sends cfg env F s adj key lot t e r = SentNone e r ⊎ (F × SentOne cfg env s adj key lot t e r)

-- The tables after the insert of the signal's row.
abbrev pub after_row : Surroundings → RawSignal → AdjustedSignal → Engine → Tables
after_row env s adj e = (insert_signal env.now (signal_to_dict s (some adj) pending) e.tables).1

module _ (cfg : Settings) (env : Surroundings) where
  place-Sends :
      (id : ℕ) (key : String) (s : RawSignal) (adj : AdjustedSignal) (lot : ℕ) (e : Engine)
      → Sends cfg env
          (cfg.dry_run ≡ false)
          s
          adj
          key
          lot
          e.tables
          e
          (place cfg env id key s adj lot e)
  unfolding place
  place-Sends id key s adj lot e =
      if_elim (Sends cfg env (cfg.dry_run ≡ false) s adj key lot e.tables e) cfg.dry_run
        (λ dry. inl refl)
        λ live. inr (
          live,
          (
            after_placing-tables id key s adj (first_or adj.entry_price adj.targets_adj)
                (request env.net e.circuit).result _,
            (
              (request env.net e.circuit).calls,
              request_calls env.net e.circuit,
              request_again env.net e.circuit,
              after_placing-sent id key s adj (first_or adj.entry_price adj.targets_adj)
                  (request env.net e.circuit).result _,
            ),
          ),
        )

  -- What has been passed when an order is sent: no dry run, and the rate limit.
  abbrev pub PassedRate : Engine → Type 0
  PassedRate e = (cfg.dry_run ≡ false) × ((acquire "gtt_place" env.now e.buckets).0 ≡ true)

  limit_rate-Sends :
      (id : ℕ) (key : String) (s : RawSignal) (adj : AdjustedSignal) (lot : ℕ) (e : Engine)
      → Sends cfg env
          (PassedRate e)
          s
          adj
          key
          lot
          e.tables
          e
          (limit_rate cfg env id key s adj lot e)
  unfolding limit_rate
  limit_rate-Sends id key s adj lot e =
      let (allowed, buckets) = acquire "gtt_place" env.now e.buckets in
      if_elim (Sends cfg env (PassedRate e) s adj key lot e.tables e) allowed
        (λ free. elim (place-Sends id key s adj lot (record e { buckets = buckets })) [
          | inl none_ ↦ inl none_
          | inr (live, one) ↦ inr ((live, free), one)
        ])
        (λ full. inl refl)

  abbrev pub IsNew : Inserted × Tables → Type 0
  IsNew r = (id : ℕ) × (r.0 ≡ new_id id)

  after_insert-Sends :
      (key : String) (s : RawSignal) (adj : AdjustedSignal) (lot : ℕ) (r : Inserted × Tables)
      (e : Engine)
      → Sends cfg env
          (PassedRate e × IsNew r)
          s
          adj
          key
          lot
          r.1
          e
          (after_insert cfg env key s adj lot r e)
  unfolding after_insert
  after_insert-Sends key s adj lot (new_id id, t) e =
      elim (limit_rate-Sends id key s adj lot (record e { tables = t })) [
        | inl none_ ↦ inl none_
        | inr (rate, one) ↦ inr ((rate, (id, refl)), one)
      ]
  after_insert-Sends key s adj lot (duplicate, t) e = inl refl
  after_insert-Sends key s adj lot (violation, t) e = inl refl

  -- The rate limit, and a row that is new.
  abbrev pub PassedInsert : RawSignal → AdjustedSignal → Engine → Type 0
  PassedInsert s adj e =
      PassedRate e × IsNew (insert_signal env.now (signal_to_dict s (some adj) pending) e.tables)

  if_connected-Sends :
      (c : Connection) (key : String) (s : RawSignal) (adj : AdjustedSignal) (lot : ℕ)
      (r : Inserted × Tables) (e : Engine)
      → Sends cfg env
          (PassedRate e × IsNew r)
          s
          adj
          key
          lot
          r.1
          e
          (if_connected cfg env c key s adj lot r e)
  unfolding if_connected
  if_connected-Sends reachable key s adj lot r e = after_insert-Sends key s adj lot r e
  if_connected-Sends lost_before key s adj lot r e = inl refl
  if_connected-Sends lost_after key s adj lot (ins, t) e = inl refl

  insert_row-Sends :
      (key : String) (s : RawSignal) (adj : AdjustedSignal) (lot : ℕ) (e : Engine)
      → Sends cfg env
          (PassedInsert s adj e)
          s
          adj
          key
          lot
          (after_row env s adj e)
          e
          (insert_row cfg env key s adj lot e)
  unfolding insert_row
  insert_row-Sends key s adj lot e =
      if_connected-Sends env.database key s adj lot
        (insert_signal env.now (signal_to_dict s (some adj) pending) e.tables) e

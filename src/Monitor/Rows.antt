-- ===== src/Monitor/Rows.antt =====
-- What ticks do to the table of signals.
use upstox_gtt.Common.{
  ℕ, ◌+◌, ◌==◌, ℤ, ◌≡◌, Bool, true, false, not, ◌&&◌, some, List, [], ◌∷◌, String, map, is_empty,
  refl, arith, if◌then◌else◌, if_elim, ltb, find,
}
use upstox_gtt.Database.{SignalRow, Tables}
use upstox_gtt.Database.Signals.{is_pending, has_id, update_rows, get_signal}
use upstox_gtt.Database.Writer.{write_touched}
use upstox_gtt.Monitor.{Trade, entry_range_touched, should_expire_trade, reaches}
use upstox_gtt.Monitor.Checker.{
  Monitor, Tick, refresh_thresholds, set_trade, push_write, cancel_unfilled_gtts,
  expire_if_unfilled, check_targets, check_signal, check_signals, check, stopped,
}

-- The row `id` is there and no longer PENDING.
abbrev pub Settled : ℕ → SignalRow → Tables → Type 0
Settled id r t = (get_signal id t ≡ some r) × (is_pending r.status ≡ false)

find-unchanged :
    (id j : ℕ) (r : SignalRow) (f : SignalRow → SignalRow) (rows : List SignalRow)
    → is_pending r.status ≡ false
    → ((x : SignalRow) → (f x).id ≡ x.id)
    → find (has_id id) rows ≡ some r
    → find (has_id id) (map (λ x. if has_id j x && is_pending x.status then f x else x) rows)
      ≡ some r
find-unchanged id j r f [] p keeps h = h
find-unchanged id j r f (x ∷ rows) p keeps h =
    ground (arith, keeps x, find-unchanged id j r f rows p keeps)

module _ (id : ℕ) (r : SignalRow) where
  cancel-Settled :
      (accepts : String → Bool) (now : ℕ) (t : Trade) (ltp target : ℤ) (m : Monitor)
      → Settled id r m.tables
      → Settled id r (cancel_unfilled_gtts accepts now t ltp target m).tables
  unfolding cancel_unfilled_gtts update_rows get_signal
  cancel-Settled accepts now t ltp target m (there, settled) =
      if_elim (λ (x : Monitor). Settled id r x.tables) (is_empty (m.thresholds t.instrument_key))
        (λ none_. (find-unchanged id t.id r _ m.tables.signals settled (λ x. refl) there, settled))
        (λ some_. (find-unchanged id t.id r _ m.tables.signals settled (λ x. refl) there, settled))

  expire-Settled :
      (tick : Tick) (t : Trade) (ltp target : ℤ) (m : Monitor)
      → Settled id r m.tables
      → Settled id r (expire_if_unfilled tick t ltp target m).tables
  unfolding expire_if_unfilled
  expire-Settled tick t ltp target m h =
      let (expires, t') = should_expire_trade tick.use_entry_touch_logic t ltp tick.timestamp in
      if_elim (λ (x : Monitor). Settled id r x.tables) expires
        (λ hit. cancel-Settled tick.accepts tick.now t' ltp target (set_trade t' m) h) (λ miss. h)

  targets-Settled :
      (tick : Tick) (t : Trade) (key : String) (ltp : ℤ) (i : ℕ) (ts : List ℤ) (m : Monitor)
      → Settled id r m.tables
      → Settled id r (check_targets tick t key ltp i ts m).tables
  unfolding check_targets
  targets-Settled tick t key ltp i [] m h =
      if_elim (λ (x : Monitor). Settled id r x.tables) (stopped t ltp t.stoploss) (λ hit. h)
        (λ miss. h)
  targets-Settled tick t key ltp i (target ∷ ts) m h =
      if_elim (λ (x : Monitor). Settled id r x.tables) (reaches t.action ltp target)
        (λ hit.
          if_elim (λ (x : Monitor). Settled id r x.tables) (i == 0)
            (λ first. expire-Settled tick t ltp target _ h) (λ later. h))
        (λ miss. targets-Settled tick t key ltp (i + 1) ts m h)

  signal-Settled :
      (tick : Tick) (t : Trade) (key : String) (ltp : ℤ) (m : Monitor)
      → Settled id r m.tables
      → Settled id r (check_signal tick t key ltp m).tables
  unfolding check_signal
  signal-Settled tick t key ltp m h =
      let touches =
        tick.use_entry_touch_logic && not t.range_touched && entry_range_touched t ltp in
      let t' = record t { range_touched = if touches then true else t.range_touched } in
      let m1 = push_write (write_touched t.id) (set_trade t' m) in
      targets-Settled tick t' key ltp 0 t.targets (if touches then m1 else m) (
        if_elim (λ (x : Monitor). Settled id r x.tables) touches {x = m1} {y = m} (λ hit. h)
          (λ miss. h))

  signals-Settled :
      (tick : Tick) (ts : List Trade) (key : String) (ltp : ℤ) (m : Monitor)
      → Settled id r m.tables
      → Settled id r (check_signals tick ts key ltp m).tables
  unfolding check_signals
  signals-Settled tick [] key ltp m h = h
  signals-Settled tick (t ∷ ts) key ltp m h =
      signals-Settled tick ts key ltp (check_signal tick t key ltp m)
        (signal-Settled tick t key ltp m h)

  pub check-Settled :
      (tick : Tick) (key : String) (ltp : ℤ) (m : Monitor)
      → Settled id r m.tables
      → Settled id r (check tick key ltp m).tables
  unfolding check refresh_thresholds
  check-Settled tick key ltp m h =
      signals-Settled tick ((refresh_thresholds tick.mono m).thresholds key) key ltp
        (refresh_thresholds tick.mono m)
        (if_elim (λ (x : Monitor). Settled id r x.tables) (ltb tick.mono (m.last_refresh + 60_000))
          (λ early. h) (λ due. h))

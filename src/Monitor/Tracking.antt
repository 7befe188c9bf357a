-- ===== src/Monitor/Tracking.antt =====
-- The set `tracked_keys` of the price monitor. `main` reads it once, at the start, for what it subscribes to.
use upstox_gtt.Common.{
  subst, sym, eq_iff, ℕ, ◌+◌, ◌==◌, ℤ, ◌≡◌, Bool, true, false, not, ◌&&◌, ◌||◌, List, [], ◌∷◌,
  String, str_eq, map, is_empty, refl, arith, if◌then◌else◌, Bool-cases, inl, inr, if_elim, ltb,
}
use upstox_gtt.Redis.{update_key}
use upstox_gtt.Database.{target_reached, stoploss_reached}
use upstox_gtt.Database.Writer.{write_touched}
use upstox_gtt.Monitor.{Trade, entry_range_touched, should_expire_trade, reaches}
use upstox_gtt.Monitor.Checker.{
  Monitor, Tick, synced, refresh_thresholds, new_thresholds, set_trade, push_write, event, stopped,
  evict, cancel_orders, cancel_unfilled_gtts, expire_if_unfilled, check_targets, check_signal,
  check_signals, check,
}

-- Every key with a signal is tracked.
abbrev pub AllTracked : Monitor → Type 0
AllTracked m = (k : String) → (is_empty (m.thresholds k) || m.tracked_keys k) ≡ true

synced-tracked :
    (had has tracked : Bool)
    → (not had || tracked) ≡ true
    → (not has || synced had has tracked) ≡ true
synced-tracked had has tracked h = ground arith

refresh-AllTracked :
    (mono : ℕ) (m : Monitor) → AllTracked m → AllTracked (refresh_thresholds mono m)
unfolding refresh_thresholds
refresh-AllTracked mono m h =
    if_elim AllTracked (ltb mono (m.last_refresh + 60_000)) (λ early. h)
      (λ due k.
        (let had = is_empty (m.thresholds k) in
          let has = is_empty (new_thresholds m.tables m.thresholds k) in ground (arith, h k)))

is_empty-map : {A B : Type 0} (f : A → B) (xs : List A) → is_empty (map f xs) ≡ is_empty xs
is_empty-map f [] = refl
is_empty-map f (x ∷ xs) = refl

update_key-AllTracked :
    (key : String) (ts : List Trade) (m : Monitor)
    → AllTracked m
    → is_empty ts ≡ is_empty (m.thresholds key)
    → AllTracked (record m { thresholds = update_key m.thresholds key ts })
update_key-AllTracked key ts m h same_size k = elim (Bool-cases (str_eq key k)) [
  | inl same ↦ rw same (
      rw same_size (
        subst (λ j. (is_empty (m.thresholds j) || m.tracked_keys k) ≡ true)
          (sym ((eq_iff key k).0 same)) (h k)))
  | inr other ↦ rw other (h k)
]

set_trade-AllTracked : (t : Trade) (m : Monitor) → AllTracked m → AllTracked (set_trade t m)
set_trade-AllTracked t m h =
    update_key-AllTracked t.instrument_key _ m h (is_empty-map _ (m.thresholds t.instrument_key))

evicted_tracked :
    (key k : String) (rest : List Trade) (m : Monitor)
    → AllTracked m
    → is_empty (m.thresholds key) ≡ false
    → (is_empty (update_key m.thresholds key rest k)
        || (if is_empty rest then update_key m.tracked_keys key false else m.tracked_keys) k)
      ≡ true
evicted_tracked key k rest m h had = elim (Bool-cases (str_eq key k)) [
  | inl same ↦
      let e : key ≡ k = (eq_iff key k).0 same in
      let before : m.tracked_keys k ≡ true =
        subst (λ j. m.tracked_keys j ≡ true) e (ground (arith, h key)) in
      elim (Bool-cases (is_empty rest)) [
        | inl last ↦ rw (same, last) refl
        | inr more ↦ rw (same, more) before
      ]
  | inr other ↦ elim (Bool-cases (is_empty rest)) [
    | inl last ↦ rw (other, last) (rw other (h k))
    | inr more ↦ rw (other, more) (h k)
  ]
]

evict-AllTracked : (t : Trade) (m : Monitor) → AllTracked m → AllTracked (evict t m)
unfolding evict
evict-AllTracked t m h =
    if_elim AllTracked (is_empty (m.thresholds t.instrument_key)) (λ none_. h)
      (λ some_ k. evicted_tracked t.instrument_key k _ m h some_)

cancel-AllTracked :
    (accepts : String → Bool) (now : ℕ) (t : Trade) (ltp target : ℤ) (m : Monitor)
    → AllTracked m
    → AllTracked (cancel_unfilled_gtts accepts now t ltp target m)
unfolding cancel_unfilled_gtts
cancel-AllTracked accepts now t ltp target m h =
    evict-AllTracked t (cancel_orders accepts now t ltp target m) h

expire-AllTracked :
    (tick : Tick) (t : Trade) (ltp target : ℤ) (m : Monitor)
    → AllTracked m
    → AllTracked (expire_if_unfilled tick t ltp target m)
unfolding expire_if_unfilled
expire-AllTracked tick t ltp target m h =
    let (expires, t') = should_expire_trade tick.use_entry_touch_logic t ltp tick.timestamp in
    let m1 = set_trade t' m in
    if_elim AllTracked expires
      (λ hit.
        cancel-AllTracked tick.accepts tick.now t' ltp target m1 (set_trade-AllTracked t' m h))
      (λ miss. set_trade-AllTracked t' m h)

targets-AllTracked :
    (tick : Tick) (t : Trade) (key : String) (ltp : ℤ) (i : ℕ) (ts : List ℤ) (m : Monitor)
    → AllTracked m
    → AllTracked (check_targets tick t key ltp i ts m)
unfolding check_targets
targets-AllTracked tick t key ltp i [] m h =
    if_elim AllTracked (stopped t ltp t.stoploss)
      {x = push_write (event t key ltp stoploss_reached) m} {y = m} (λ hit. h) (λ miss. h)
targets-AllTracked tick t key ltp i (target ∷ ts) m h =
    let m1 = push_write (event t key ltp (target_reached (i + 1))) m in
    if_elim AllTracked (reaches t.action ltp target)
      (λ hit.
        if_elim AllTracked (i == 0) {x = expire_if_unfilled tick t ltp target m1} {y = m1}
          (λ first. expire-AllTracked tick t ltp target m1 h) (λ later. h))
      (λ miss. targets-AllTracked tick t key ltp (i + 1) ts m h)

signal-AllTracked :
    (tick : Tick) (t : Trade) (key : String) (ltp : ℤ) (m : Monitor)
    → AllTracked m
    → AllTracked (check_signal tick t key ltp m)
unfolding check_signal
signal-AllTracked tick t key ltp m h =
    let touches = tick.use_entry_touch_logic && not t.range_touched && entry_range_touched t ltp in
    let t' = record t { range_touched = if touches then true else t.range_touched } in
    let m1 = push_write (write_touched t.id) (set_trade t' m) in
    targets-AllTracked tick t' key ltp 0 t.targets (if touches then m1 else m)
      (if_elim AllTracked touches {x = m1} {y = m} (λ hit. set_trade-AllTracked t' m h) (λ miss. h))

signals-AllTracked :
    (tick : Tick) (ts : List Trade) (key : String) (ltp : ℤ) (m : Monitor)
    → AllTracked m
    → AllTracked (check_signals tick ts key ltp m)
unfolding check_signals
signals-AllTracked tick [] key ltp m h = h
signals-AllTracked tick (t ∷ ts) key ltp m h =
    signals-AllTracked tick ts key ltp (check_signal tick t key ltp m)
      (signal-AllTracked tick t key ltp m h)

-- A tick keeps every instrument with a watched signal in the set of tracked keys, through the refresh of
-- the thresholds, the marks and the cancellation of signals.
pub check-AllTracked :
    (tick : Tick) (key : String) (ltp : ℤ) (m : Monitor)
    → AllTracked m
    → AllTracked (check tick key ltp m)
unfolding check
check-AllTracked tick key ltp m h =
    let m1 = refresh_thresholds tick.mono m in
    signals-AllTracked tick (m1.thresholds key) key ltp m1 (refresh-AllTracked tick.mono m h)

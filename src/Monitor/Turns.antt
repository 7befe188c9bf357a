-- ===== src/Monitor/Turns.antt =====
-- Ticks of the price monitor and the turns of the task that runs its write queue.
use upstox_gtt.Common.{
  ℕ, ◌+◌, ◌==◌, ℤ, ◌≡◌, ◌⊎◌, inl, inr, true, false, not, ◌&&◌, some, List, [], ◌∷◌, String, map,
  is_empty, refl, arith, if◌then◌else◌, if_elim, ltb, length, find, All, All-append, Bool-cases,
  ◌∙◌,
}
use upstox_gtt.Database.{SignalRow, Tables, target_reached, stoploss_reached}
use upstox_gtt.Database.Signals.{is_pending, has_id, update_rows, get_signal}
use upstox_gtt.Database.Writer.{
  DbWrite, write_status, write_rule, write_block, write_touched, write_event, touch, apply_write,
  max_queue, enqueue, drain,
}
use upstox_gtt.Monitor.{Trade, entry_range_touched, should_expire_trade, reaches}
use upstox_gtt.Monitor.Checker.{
  Monitor, Tick, refresh_thresholds, set_trade, push_write, event, cancel_orders,
  cancel_unfilled_gtts, expire_if_unfilled, check_targets, check_signal, check_signals, check,
  stopped,
}
use upstox_gtt.Monitor.Rows.{check-Settled}

-- A tick with its key and price, or a turn of the writer, which runs what is queued.
pub data Turn : Type 0 where
  ticks : Tick → String → ℤ → Turn
  writes : ℕ → Turn

unfoldable pub take_turn : Turn → Monitor → Monitor
take_turn (ticks tick key ltp) m = check tick key ltp m
take_turn (writes now) m = record m { queue = []; tables = drain now m.queue m.tables }

unfoldable pub take_turns : List Turn → Monitor → Monitor
unfolding take_turn
take_turns [] m = m
take_turns (x ∷ xs) m = take_turns xs (take_turn x m)

-- The writes that the monitor queues: the mark of a touched entry range, and an event.
abbrev pub IsMark : DbWrite → Type 0
IsMark (write_touched id) = Unit
IsMark (write_event e) = Unit
IsMark (write_status id status reason ids ltp) = ⊥
IsMark (write_rule d) = ⊥
IsMark (write_block d reason) = ⊥

abbrev pub QueuesMarks : Monitor → Type 0
QueuesMarks m = All IsMark m.queue

push-QueuesMarks :
    (w : DbWrite) (m : Monitor) → IsMark w → QueuesMarks m → QueuesMarks (push_write w m)
unfolding enqueue
push-QueuesMarks w m mark h =
    if_elim (All IsMark) (ltb (length m.queue) max_queue)
      (λ room. All-append IsMark m.queue (w ∷ []) h (mark, tt)) (λ full. h)

expire-QueuesMarks :
    (tick : Tick) (t : Trade) (ltp target : ℤ) (m : Monitor)
    → QueuesMarks m
    → QueuesMarks (expire_if_unfilled tick t ltp target m)
unfolding expire_if_unfilled cancel_unfilled_gtts
expire-QueuesMarks tick t ltp target m h =
    let (expires, t') = should_expire_trade tick.use_entry_touch_logic t ltp tick.timestamp in
    let m2 = cancel_orders tick.accepts tick.now t' ltp target (set_trade t' m) in
    if_elim QueuesMarks expires
      (λ hit.
        if_elim QueuesMarks (is_empty (m2.thresholds t'.instrument_key)) (λ none_. h) (λ some_. h))
      (λ miss. h)

targets-QueuesMarks :
    (tick : Tick) (t : Trade) (key : String) (ltp : ℤ) (i : ℕ) (ts : List ℤ) (m : Monitor)
    → QueuesMarks m
    → QueuesMarks (check_targets tick t key ltp i ts m)
unfolding check_targets
targets-QueuesMarks tick t key ltp i [] m h =
    let m1 = push_write (event t key ltp stoploss_reached) m in
    if_elim QueuesMarks (stopped t ltp t.stoploss) {x = m1} {y = m}
      (λ hit. push-QueuesMarks (event t key ltp stoploss_reached) m tt h) (λ miss. h)
targets-QueuesMarks tick t key ltp i (target ∷ ts) m h =
    let m1 = push_write (event t key ltp (target_reached (i + 1))) m in
    let h1 = push-QueuesMarks (event t key ltp (target_reached (i + 1))) m tt h in
    if_elim QueuesMarks (reaches t.action ltp target)
      (λ hit.
        if_elim QueuesMarks (i == 0) {x = expire_if_unfilled tick t ltp target m1} {y = m1}
          (λ first. expire-QueuesMarks tick t ltp target m1 h1) (λ later. h1))
      (λ miss. targets-QueuesMarks tick t key ltp (i + 1) ts m h)

signal-QueuesMarks :
    (tick : Tick) (t : Trade) (key : String) (ltp : ℤ) (m : Monitor)
    → QueuesMarks m
    → QueuesMarks (check_signal tick t key ltp m)
unfolding check_signal
signal-QueuesMarks tick t key ltp m h =
    let touches = tick.use_entry_touch_logic && not t.range_touched && entry_range_touched t ltp in
    let t' = record t { range_touched = if touches then true else t.range_touched } in
    let m1 = push_write (write_touched t.id) (set_trade t' m) in
    targets-QueuesMarks tick t' key ltp 0 t.targets (if touches then m1 else m) (
      if_elim QueuesMarks touches {x = m1} {y = m}
        (λ hit. push-QueuesMarks (write_touched t.id) (set_trade t' m) tt h) (λ miss. h))

signals-QueuesMarks :
    (tick : Tick) (ts : List Trade) (key : String) (ltp : ℤ) (m : Monitor)
    → QueuesMarks m
    → QueuesMarks (check_signals tick ts key ltp m)
unfolding check_signals
signals-QueuesMarks tick [] key ltp m h = h
signals-QueuesMarks tick (t ∷ ts) key ltp m h =
    signals-QueuesMarks tick ts key ltp (check_signal tick t key ltp m)
      (signal-QueuesMarks tick t key ltp m h)

check-QueuesMarks :
    (tick : Tick) (key : String) (ltp : ℤ) (m : Monitor)
    → QueuesMarks m
    → QueuesMarks (check tick key ltp m)
unfolding check refresh_thresholds
check-QueuesMarks tick key ltp m h =
    signals-QueuesMarks tick ((refresh_thresholds tick.mono m).thresholds key) key ltp
      (refresh_thresholds tick.mono m)
      (if_elim QueuesMarks (ltb tick.mono (m.last_refresh + 60_000)) (λ early. h) (λ due. h))

-- The row is as it was, but for the mark of a touched entry range.
abbrev pub ButMarked : ℕ → SignalRow → Tables → Type 0
ButMarked id r t = (get_signal id t ≡ some r) ⊎ (get_signal id t ≡ some (touch r))

find-touched :
    (id j : ℕ) (r : SignalRow) (rows : List SignalRow)
    → find (has_id id) rows ≡ some r
    → find (has_id id) (map (λ x. if has_id j x then touch x else x) rows)
      ≡ some (if has_id j r then touch r else r)
find-touched id j r [] h = absurd (cc h)
find-touched id j r (x ∷ rows) h = elim (Bool-cases (has_id id x)) [
  | inl here ↦ ground (arith, h, here)
  | inr later ↦ ground (arith, later, find-touched id j r rows (rw later at h))
]

mark-ButMarked :
    (now id : ℕ) (r : SignalRow) (w : DbWrite) (t : Tables)
    → IsMark w
    → ButMarked id r t
    → ButMarked id r (apply_write now w t)
unfolding apply_write update_rows get_signal
mark-ButMarked now id r (write_touched j) t mark (inl there) = elim (Bool-cases (has_id j r)) [
  | inl own ↦ inr (find-touched id j r t.signals there ∙ rw own refl)
  | inr other ↦ inl (find-touched id j r t.signals there ∙ rw other refl)
]
mark-ButMarked now id r (write_touched j) t mark (inr there) = elim (Bool-cases (has_id j r)) [
  | inl own ↦ inr (find-touched id j (touch r) t.signals there ∙ rw own refl)
  | inr other ↦ inr (find-touched id j (touch r) t.signals there ∙ rw other refl)
]
mark-ButMarked now id r (write_event e) t mark kept = kept
mark-ButMarked now id r (write_status i status reason ids ltp) t mark kept = absurd mark
mark-ButMarked now id r (write_rule d) t mark kept = absurd mark
mark-ButMarked now id r (write_block d reason) t mark kept = absurd mark

drain-ButMarked :
    (now id : ℕ) (r : SignalRow) (q : List DbWrite) (t : Tables)
    → All IsMark q
    → ButMarked id r t
    → ButMarked id r (drain now q t)
unfolding drain
drain-ButMarked now id r [] t marks kept = kept
drain-ButMarked now id r (w ∷ q) t (mark, marks) kept =
    drain-ButMarked now id r q (apply_write now w t) marks (mark-ButMarked now id r w t mark kept)

turn-ButMarked :
    (x : Turn) (id : ℕ) (r : SignalRow) (m : Monitor)
    → is_pending r.status ≡ false
    → QueuesMarks m
    → ButMarked id r m.tables
    → QueuesMarks (take_turn x m) × ButMarked id r (take_turn x m).tables
unfolding take_turn
turn-ButMarked (ticks tick key ltp) id r m settled marks (inl there) = (
  check-QueuesMarks tick key ltp m marks,
  inl (check-Settled id r tick key ltp m (there, settled)).0,
)
turn-ButMarked (ticks tick key ltp) id r m settled marks (inr there) = (
  check-QueuesMarks tick key ltp m marks,
  inr (check-Settled id (touch r) tick key ltp m (there, settled)).0,
)
turn-ButMarked (writes now) id r m settled marks kept =
    (tt, drain-ButMarked now id r m.queue m.tables marks kept)

turns-ButMarked :
    (xs : List Turn) (id : ℕ) (r : SignalRow) (m : Monitor)
    → is_pending r.status ≡ false
    → QueuesMarks m
    → ButMarked id r m.tables
    → ButMarked id r (take_turns xs m).tables
unfolding take_turns
turns-ButMarked [] id r m settled marks kept = kept
turns-ButMarked (x ∷ xs) id r m settled marks kept =
    let (marks', kept') = turn-ButMarked x id r m settled marks kept in
    turns-ButMarked xs id r (take_turn x m) settled marks' kept'

-- Whatever ticks come, however old the thresholds in memory are, and whenever the writer runs the queue,
-- which was empty at the start: a row that is no longer PENDING keeps all its columns but the mark of a
-- touched entry range. An activated signal is not expired by the monitor, at once or through the queue.
pub take_turns_settled :
    (turns : List Turn) (id : ℕ) (r : SignalRow) (m : Monitor)
    → get_signal id m.tables ≡ some r
    → is_pending r.status ≡ false
    → m.queue ≡ []
    → ButMarked id r (take_turns turns m).tables
take_turns_settled turns id r m there settled empty =
    turns-ButMarked turns id r m settled (rw empty tt) (inl there)

-- ===== src/Monitor/Stale.antt =====
-- What a tick cancels while the thresholds in memory are older than the table.
use upstox_gtt.Common.{
  subst, any, ◌++◌, ◌<◌, ◌≤◌, ℕ, ◌+◌, ℤ, ◌≡◌, Bool, true, false, not, ◌&&◌, some, List, [], ◌∷◌,
  String, str_eq, keep, is_empty, refl, arith, if_elim, sym, ◌∙◌, ap,
}
use upstox_gtt.Signal.{Action}
use upstox_gtt.Database.{SignalRow, target_reached}
use upstox_gtt.Database.Signals.{is_pending, get_signal}
use upstox_gtt.Monitor.{mark, Trade, entry_range_touched, should_expire_trade, reaches, crosses}
use upstox_gtt.Monitor.Checker.{
  gtt_ids_to_cancel, Monitor, Tick, refresh_thresholds, set_trade, push_write, event,
  cancel_unfilled_gtts, expire_if_unfilled, check_targets, check_signal, check_signals, check,
}
use upstox_gtt.Monitor.Cancelled.{IsCancelled, any_right, any_kept, one_of_signals}
use upstox_gtt.Monitor.Rows.{check-Settled}

touched_targets :
    (tick : Tick) (t : Trade) (key : String) (ltp : ℤ) (m : Monitor)
    → t.range_touched ≡ true
    → check_signal tick t key ltp m ≡ check_targets tick t key ltp 0 t.targets m
unfolding check_signal
touched_targets tick t key ltp m touched =
    let apart : (tick.use_entry_touch_logic && not t.range_touched && entry_range_touched t ltp)
        ≡ false =
      ground arith in
    rw apart refl

reached_first :
    (tick : Tick) (t : Trade) (key : String) (ltp target : ℤ) (rest all : List ℤ) (m : Monitor)
    → all ≡ target ∷ rest
    → reaches t.action ltp target ≡ true
    → check_targets tick t key ltp 0 all m
      ≡ expire_if_unfilled tick t ltp target (push_write (event t key ltp (target_reached 1)) m)
unfolding check_targets
reached_first tick t key ltp target rest all m e reached = rw e (rw reached refl)

expires_touched :
    (t : Trade) (ltp target : ℤ) (rest : List ℤ) (at : ℕ)
    → t.targets ≡ target ∷ rest
    → t.range_touched ≡ true
    → is_pending t.status ≡ true
    → t.signal_timestamp ≤ at
    → crosses t.action ltp target ≡ true
    → should_expire_trade true t ltp at ≡ (true, mark t ltp)
unfolding should_expire_trade
expires_touched t ltp target rest at targets touched pending_ since passed = ground arith

early_refresh :
    (mono : ℕ) (m : Monitor) → mono < m.last_refresh + 60_000 → refresh_thresholds mono m ≡ m
unfolding refresh_thresholds
early_refresh mono m early = ground arith

cancelled_orders :
    (accepts : String → Bool) (now : ℕ) (t : Trade) (ltp target : ℤ) (ids : List String)
    (m : Monitor)
    → t.gtt_order_ids ≡ some ids
    → is_empty ids ≡ false
    → (cancel_unfilled_gtts accepts now t ltp target m).cancelled ≡ m.cancelled ++ keep accepts ids
unfolding cancel_unfilled_gtts gtt_ids_to_cancel
cancelled_orders accepts now t ltp target ids m orders some_ =
    if_elim (λ (x : Monitor). x.cancelled ≡ m.cancelled ++ keep accepts ids)
      (is_empty (m.thresholds t.instrument_key)) (λ none_. rw orders (rw some_ refl))
      (λ watched. rw orders (rw some_ refl))

expire_first :
    (tick : Tick) (t : Trade) (ltp target : ℤ) (m : Monitor)
    → should_expire_trade tick.use_entry_touch_logic t ltp tick.timestamp ≡ (true, mark t ltp)
    → expire_if_unfilled tick t ltp target m
      ≡ cancel_unfilled_gtts tick.accepts tick.now
          (mark t ltp)
          ltp
          target
          (set_trade (mark t ltp) m)
unfolding expire_if_unfilled
expire_first tick t ltp target m e = rw e refl

crosses-reaches :
    (a : Action) (ltp target : ℤ) → crosses a ltp target ≡ true → reaches a ltp target ≡ true
crosses-reaches a ltp target h = ground arith

not_empty : (p : String → Bool) (ids : List String) → any p ids ≡ true → is_empty ids ≡ false
not_empty p [] h = absurd (cc h)
not_empty p (x ∷ ids) h = refl

-- The orders of a signal are cancelled by what the thresholds in memory say of it. With the logic of the
-- touched entry range on, and until the next refresh, take a signal of the instrument, beside whatever
-- others, that in memory is PENDING, has its order ids and has touched the entry range, though its row
-- has been activated since: at a tick not older than the signal that passes the first target, each of
-- these orders whose cancellation Upstox accepts is cancelled, and the row stays as it is.
pub check_cancels_stale :
    (tick : Tick) (key : String) (before after : List Trade) (t : Trade) (ltp target : ℤ)
    (rest : List ℤ) (ids : List String) (order_id : String) (r : SignalRow) (m : Monitor)
    → tick.use_entry_touch_logic ≡ true
    → tick.mono < m.last_refresh + 60_000
    → m.thresholds key ≡ before ++ t ∷ after
    → is_pending t.status ≡ true
    → t.gtt_order_ids ≡ some ids
    → t.range_touched ≡ true
    → get_signal t.id m.tables ≡ some r
    → is_pending r.status ≡ false
    → t.signal_timestamp ≤ tick.timestamp
    → t.targets ≡ target ∷ rest
    → crosses t.action ltp target ≡ true
    → any (str_eq order_id) ids ≡ true
    → tick.accepts order_id ≡ true
    → let m' = check tick key ltp m in
      IsCancelled order_id m' × (get_signal t.id m'.tables ≡ some r)
check_cancels_stale tick key before after t ltp target rest ids order_id r m logic early watched
      pending_ orders touched there settled since targets passed own accepted =
    let expires =
      subst (λ b. should_expire_trade b t ltp tick.timestamp ≡ (true, mark t ltp)) (sym logic)
        (expires_touched t ltp target rest tick.timestamp targets touched pending_ since passed) in
    let at_turn : (m1 : Monitor) → IsCancelled order_id (check_signal tick t key ltp m1) = λ m1.
      let m2 = push_write (event t key ltp (target_reached 1)) m1 in
      let whole =
        touched_targets tick t key ltp m1 touched
        ∙ reached_first tick t key ltp target rest t.targets m1 targets
            (crosses-reaches t.action ltp target passed)
        ∙ expire_first tick t ltp target m2 expires in
      let cancelled =
        cancelled_orders tick.accepts tick.now (mark t ltp) ltp target ids
          (set_trade (mark t ltp) m2) orders (not_empty (str_eq order_id) ids own) in
      ap (λ (x : Monitor). any (str_eq order_id) x.cancelled) whole
      ∙ ap (any (str_eq order_id)) cancelled
      ∙ any_right (str_eq order_id) m1.cancelled (keep tick.accepts ids)
          (any_kept order_id tick.accepts ids accepted own) in
    let quick : check tick key ltp m ≡ check_signals tick (before ++ t ∷ after) key ltp m =
      unfold check in rw (early_refresh tick.mono m early) (rw watched refl) in
    (
      ap (λ (x : Monitor). any (str_eq order_id) x.cancelled) quick
          ∙ one_of_signals order_id tick before after t key ltp m at_turn,
      (check-Settled t.id r tick key ltp m (there, settled)).0,
    )

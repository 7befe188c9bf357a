-- ===== src/Monitor/Events.antt =====
-- The events that a tick records.
use upstox_gtt.Common.{
  is_empty, ap, ◌∙◌, ℕ, ◌+◌, ℤ, ◌≤ℤ◌, ◌≡◌, Bool, true, false, not, ◌&&◌, List, [], ◌∷◌, String, All,
  refl, arith, if◌then◌else◌, Bool-cases, inl, inr, if_elim,
}
use upstox_gtt.Signal.{Action, buy, sell}
use upstox_gtt.Database.{target_reached, stoploss_reached}
use upstox_gtt.Database.Writer.{DbWrite, write_touched, enqueue}
use upstox_gtt.Monitor.{Trade, entry_range_touched, should_expire_trade, reaches}
use upstox_gtt.Monitor.Checker.{
  Monitor, Tick, push_write, set_trade, event, stopped, cancel_unfilled_gtts, expire_if_unfilled,
  check_targets, check_signal,
}

-- A target no nearer to the entry than the first one.
abbrev pub IsBeyond : Action → ℤ → ℤ → Type 0
IsBeyond buy first t = first ≤ℤ t
IsBeyond sell first t = t ≤ℤ first

cancel-queue :
    (accepts : String → Bool) (now : ℕ) (t : Trade) (ltp target : ℤ) (m : Monitor)
    → (cancel_unfilled_gtts accepts now t ltp target m).queue ≡ m.queue
unfolding cancel_unfilled_gtts
cancel-queue accepts now t ltp target m =
    if_elim (λ (x : Monitor). x.queue ≡ m.queue) (is_empty (m.thresholds t.instrument_key))
      (λ none_. refl) (λ some_. refl)

expire-queue :
    (tick : Tick) (t : Trade) (ltp target : ℤ) (m : Monitor)
    → (expire_if_unfilled tick t ltp target m).queue ≡ m.queue
unfolding expire_if_unfilled
expire-queue tick t ltp target m =
    let (expires, t') = should_expire_trade tick.use_entry_touch_logic t ltp tick.timestamp in
    if_elim (λ (x : Monitor). x.queue ≡ m.queue) expires
      (λ hit. cancel-queue tick.accepts tick.now t' ltp target (set_trade t' m)) (λ miss. refl)

beyond_unreached :
    (a : Action) (ltp first t : ℤ)
    → IsBeyond a first t
    → reaches a ltp first ≡ false
    → reaches a ltp t ≡ false
beyond_unreached buy ltp first t b h = ground arith
beyond_unreached sell ltp first t b h = ground arith

-- What the loop leaves if no target is reached.
abbrev stop_event : Trade → String → ℤ → List DbWrite → List DbWrite
stop_event t key ltp q =
    if stopped t ltp t.stoploss then enqueue (event t key ltp stoploss_reached) q else q

unreached :
    (tick : Tick) (t : Trade) (key : String) (ltp first : ℤ) (i : ℕ) (ts : List ℤ) (m : Monitor)
    → reaches t.action ltp first ≡ false
    → All (IsBeyond t.action first) ts
    → (check_targets tick t key ltp i ts m).queue ≡ stop_event t key ltp m.queue
unfolding check_targets
unreached tick t key ltp first i [] m h b =
    if_elim (λ (x : Monitor). x.queue ≡ stop_event t key ltp m.queue) (stopped t ltp t.stoploss)
      (λ hit. rw hit refl) (λ miss. rw miss refl)
unreached tick t key ltp first i (x ∷ ts) m h (b, bs) =
    rw (beyond_unreached t.action ltp first x b h)
      (unreached tick t key ltp first (i + 1) ts m h bs)

targets_once :
    (tick : Tick) (t : Trade) (key : String) (ltp first : ℤ) (ts all : List ℤ) (m : Monitor)
    → all ≡ first ∷ ts
    → All (IsBeyond t.action first) ts
    → (check_targets tick t key ltp 0 all m).queue ≡ (
        if reaches t.action ltp first
        then enqueue (event t key ltp (target_reached 1)) m.queue
        else stop_event t key ltp m.queue)
unfolding check_targets
targets_once tick t key ltp first ts all m e b = elim (Bool-cases (reaches t.action ltp first)) [
  | inl hit ↦ rw e (rw hit (expire-queue tick t ltp first _))
  | inr miss ↦ rw e (rw miss (unreached tick t key ltp first 1 ts m miss b))
]

push_when-queue :
    (b : Bool) (w : DbWrite) (m1 m : Monitor)
    → m1.queue ≡ m.queue
    → (if b then push_write w m1 else m).queue ≡ (if b then enqueue w m.queue else m.queue)
push_when-queue true w m1 m h = ap (enqueue w) h
push_when-queue false w m1 m h = refl

-- The queue after the mark of a tick in the range of the entry.
abbrev pub marked_queue : Tick → Trade → ℤ → List DbWrite → List DbWrite
marked_queue tick t ltp q =
    if tick.use_entry_touch_logic && not t.range_touched && entry_range_touched t ltp
    then enqueue (write_touched t.id) q
    else q

-- If no target is nearer than the first, as in a list of targets in order, a tick records, after the
-- mark of the entry range, at most one event: that of the first target if the price has reached it,
-- however many of the targets it has reached, and else that of the stoploss if it has reached that.
pub check_signal_events :
    (tick : Tick) (t : Trade) (key : String) (ltp first : ℤ) (ts : List ℤ) (m : Monitor)
    → t.targets ≡ first ∷ ts
    → All (IsBeyond t.action first) ts
    → (check_signal tick t key ltp m).queue ≡ (
        let q = marked_queue tick t ltp m.queue in
        if reaches t.action ltp first
        then enqueue (event t key ltp (target_reached 1)) q
        else if stopped t ltp t.stoploss
        then enqueue (event t key ltp stoploss_reached) q
        else q)
unfolding check_signal
check_signal_events tick t key ltp first ts m e b =
    let touches = tick.use_entry_touch_logic && not t.range_touched && entry_range_touched t ltp in
    let t' = record t { range_touched = if touches then true else t.range_touched } in
    let m1 = set_trade t' m in
    targets_once tick t' key ltp first ts t.targets
      (if touches then push_write (write_touched t.id) m1 else m) e b
    ∙ ap
        (λ q.
          if reaches t.action ltp first
          then enqueue (event t key ltp (target_reached 1)) q
          else if stopped t ltp t.stoploss
          then enqueue (event t key ltp stoploss_reached) q
          else q)
        (push_when-queue touches (write_touched t.id) m1 m refl)

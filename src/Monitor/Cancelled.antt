-- ===== src/Monitor/Cancelled.antt =====
-- Orders that ticks have cancelled at Upstox.
use upstox_gtt.Common.{
  eq_iff, any, Bool-cases, inl, inr, ◌++◌, if◌then◌else◌, ℕ, ◌+◌, ◌==◌, ℤ, ◌≡◌, Bool, true, not,
  ◌&&◌, List, [], ◌∷◌, String, str_eq, keep, is_empty, refl, arith, if_elim, sym, ◌∙◌, ap,
}
use upstox_gtt.Database.{target_reached, stoploss_reached}
use upstox_gtt.Database.Writer.{write_touched}
use upstox_gtt.Monitor.{Trade, entry_range_touched, should_expire_trade, reaches}
use upstox_gtt.Monitor.Checker.{
  gtt_ids_to_cancel, Monitor, Tick, set_trade, push_write, event, cancel_unfilled_gtts,
  expire_if_unfilled, check_targets, check_signal, check_signals, stopped,
}

-- The order has been cancelled at Upstox.
abbrev pub IsCancelled : String → Monitor → Type 0
IsCancelled id m = any (str_eq id) m.cancelled ≡ true

any_left : (p : String → Bool) (xs ys : List String) → any p xs ≡ true → any p (xs ++ ys) ≡ true
any_left p [] ys h = absurd (cc h)
any_left p (x ∷ xs) ys h = ground (arith, h, any_left p xs ys)

pub any_right :
    (p : String → Bool) (xs ys : List String) → any p ys ≡ true → any p (xs ++ ys) ≡ true
any_right p [] ys h = h
any_right p (x ∷ xs) ys h = ground (arith, any_right p xs ys h)

pub any_kept :
    (id : String) (accepts : String → Bool) (ids : List String)
    → accepts id ≡ true
    → any (str_eq id) ids ≡ true
    → any (str_eq id) (keep accepts ids) ≡ true
any_kept id accepts [] ok_ h = h
any_kept id accepts (x ∷ ids) ok_ h = elim (Bool-cases (str_eq id x)) [
  | inl here ↦
      let same : accepts x ≡ true = ap accepts (sym ((eq_iff id x).0 here)) ∙ ok_ in
      rw same (rw here refl)
  | inr later ↦
      let rest = any_kept id accepts ids ok_ (rw later at h) in
      if_elim (λ l. any (str_eq id) l ≡ true) (accepts x) (λ yes. ground (arith, rest)) (λ no. rest)
]

-- A cancelled order stays cancelled.
cancel-IsCancelled :
    (id : String) (accepts : String → Bool) (now : ℕ) (t : Trade) (ltp target : ℤ) (m : Monitor)
    → IsCancelled id m
    → IsCancelled id (cancel_unfilled_gtts accepts now t ltp target m)
unfolding cancel_unfilled_gtts
cancel-IsCancelled id accepts now t ltp target m h =
    let more = any_left (str_eq id) m.cancelled (keep accepts (gtt_ids_to_cancel t m.tables)) h in
    if_elim (IsCancelled id) (is_empty (m.thresholds t.instrument_key)) (λ none_. more)
      (λ some_. more)

expire-IsCancelled :
    (id : String) (tick : Tick) (t : Trade) (ltp target : ℤ) (m : Monitor)
    → IsCancelled id m
    → IsCancelled id (expire_if_unfilled tick t ltp target m)
unfolding expire_if_unfilled
expire-IsCancelled id tick t ltp target m h =
    let (expires, t') = should_expire_trade tick.use_entry_touch_logic t ltp tick.timestamp in
    if_elim (IsCancelled id) expires
      (λ hit. cancel-IsCancelled id tick.accepts tick.now t' ltp target (set_trade t' m) h)
      (λ miss. h)

targets-IsCancelled :
    (id : String) (tick : Tick) (t : Trade) (key : String) (ltp : ℤ) (i : ℕ) (ts : List ℤ)
    (m : Monitor)
    → IsCancelled id m
    → IsCancelled id (check_targets tick t key ltp i ts m)
unfolding check_targets
targets-IsCancelled id tick t key ltp i [] m h =
    if_elim (IsCancelled id) (stopped t ltp t.stoploss)
      {x = push_write (event t key ltp stoploss_reached) m} {y = m} (λ hit. h) (λ miss. h)
targets-IsCancelled id tick t key ltp i (target ∷ ts) m h =
    let m1 = push_write (event t key ltp (target_reached (i + 1))) m in
    if_elim (IsCancelled id) (reaches t.action ltp target)
      (λ hit.
        if_elim (IsCancelled id) (i == 0) {x = expire_if_unfilled tick t ltp target m1} {y = m1}
          (λ first. expire-IsCancelled id tick t ltp target m1 h) (λ later. h))
      (λ miss. targets-IsCancelled id tick t key ltp (i + 1) ts m h)

signal-IsCancelled :
    (id : String) (tick : Tick) (t : Trade) (key : String) (ltp : ℤ) (m : Monitor)
    → IsCancelled id m
    → IsCancelled id (check_signal tick t key ltp m)
unfolding check_signal
signal-IsCancelled id tick t key ltp m h =
    let touches = tick.use_entry_touch_logic && not t.range_touched && entry_range_touched t ltp in
    let t' = record t { range_touched = if touches then true else t.range_touched } in
    let m1 = push_write (write_touched t.id) (set_trade t' m) in
    targets-IsCancelled id tick t' key ltp 0 t.targets (if touches then m1 else m)
      (if_elim (IsCancelled id) touches {x = m1} {y = m} (λ hit. h) (λ miss. h))

signals-IsCancelled :
    (id : String) (tick : Tick) (ts : List Trade) (key : String) (ltp : ℤ) (m : Monitor)
    → IsCancelled id m
    → IsCancelled id (check_signals tick ts key ltp m)
unfolding check_signals
signals-IsCancelled id tick [] key ltp m h = h
signals-IsCancelled id tick (t ∷ ts) key ltp m h =
    signals-IsCancelled id tick ts key ltp (check_signal tick t key ltp m)
      (signal-IsCancelled id tick t key ltp m h)

-- A signal at whose turn an order is cancelled, whatever the other signals of the key are.
pub one_of_signals :
    (id : String) (tick : Tick) (before after : List Trade) (t : Trade) (key : String) (ltp : ℤ)
    (m : Monitor)
    → ((m1 : Monitor) → IsCancelled id (check_signal tick t key ltp m1))
    → IsCancelled id (check_signals tick (before ++ t ∷ after) key ltp m)
unfolding check_signals
one_of_signals id tick [] after t key ltp m own =
    signals-IsCancelled id tick after key ltp (check_signal tick t key ltp m) (own m)
one_of_signals id tick (u ∷ before) after t key ltp m own =
    one_of_signals id tick before after t key ltp (check_signal tick u key ltp m) own

-- ===== src/Monitor/Checker.antt =====
-- `ThresholdChecker` of gtt_v2/services/price_monitor/main.py. A key without signals is one that
-- `_thresholds` does not have.
use upstox_gtt.Common.{
  ℕ, ◌+◌, ◌==◌, ℤ, leb_ℤ, truthy_ℤ, ltb, Bool, true, false, not, ◌&&◌, ◌||◌, Option, none, some,
  List, [], ◌∷◌, ◌++◌, map, String, str_eq, find, keep, is_empty, get_or, if◌then◌else◌,
}
use upstox_gtt.Redis.{update_key}
use upstox_gtt.Signal.{is_buy, expired}
use upstox_gtt.Database.{
  BlockReason, SignalRow, RuleData, PriceEvent, EventType, target_reached, stoploss_reached, Tables,
}
use upstox_gtt.Database
use upstox_gtt.Database.Signals.{is_pending, is_active, update_rows, has_id}
use upstox_gtt.Database.Writer.{DbWrite, write_touched, write_event, enqueue}
use upstox_gtt.Monitor.{Trade, entry_range_touched, should_expire_trade, reaches}

-- `tracked_keys` is what `main` subscribes to at the start; later additions of a refresh are not subscribed.
pub record Monitor : Type 0 where
  pub thresholds : String → List Trade
  pub tracked_keys : String → Bool
  pub last_refresh : ℕ
  pub queue : List DbWrite
  pub tables : Tables
  pub cancelled : List String

-- The columns that the refresh selects, and the mark carried over from memory.
abbrev pub same_id : ℕ → Trade → Bool
same_id id t = t.id == id

abbrev was_touched : Option Trade → Bool
was_touched none = false
was_touched (some t) = t.range_touched

unfoldable pub to_trade : String → List Trade → SignalRow → Trade
to_trade key existing r = record {
  id = r.id;
  instrument_key = key;
  action = r.inserted.action;
  entry_low = r.inserted.entry_low_adj;
  entry_high = r.inserted.entry_high_adj;
  stoploss = r.inserted.stoploss_adj;
  targets = r.inserted.targets_adj;
  status = r.status;
  gtt_order_ids = r.gtt_order_ids;
  signal_timestamp = r.signal_at;
  range_touched = r.entry_range_touched || was_touched (find (same_id r.id) existing);
}

-- `status IN ('PENDING','ACTIVE') AND instrument_key IS NOT NULL`, for one key.
abbrev pub watched : String → SignalRow → Bool
watched key r =
    (is_pending r.status || is_active r.status)
    && elim r.inserted.instrument_key [ none ↦ false | some k ↦ str_eq key k ]

unfoldable pub new_thresholds : Tables → (String → List Trade) → String → List Trade
unfolding to_trade
new_thresholds t old key = map (to_trade key (old key)) (keep (watched key) t.signals)

-- The keys that the refresh adds and drops.
abbrev pub synced : Bool → Bool → Bool → Bool
synced had has tracked = if not had && has then true else if had && not has then false else tracked

-- `_refresh_thresholds`, at the reading `mono` of the monotonic clock.
unfoldable pub refresh_thresholds : ℕ → Monitor → Monitor
unfolding new_thresholds
refresh_thresholds mono m = if ltb mono (m.last_refresh + 60_000) then m else record m {
  thresholds = new_thresholds m.tables m.thresholds;
  tracked_keys = λ k.
      synced (not (is_empty (m.thresholds k)))
        (not (is_empty (new_thresholds m.tables m.thresholds k))) (m.tracked_keys k);
  last_refresh = mono;
}

abbrev pub push_write : DbWrite → Monitor → Monitor
push_write w m = record m { queue = enqueue w m.queue }

-- The trade is shared with the list, so that what is set on it is seen there.
abbrev pub set_trade : Trade → Monitor → Monitor
set_trade t m = record m {
  thresholds =
      update_key m.thresholds t.instrument_key
        (map (λ u. if same_id t.id u then t else u) (m.thresholds t.instrument_key));
}

-- `signal_id = $1 AND status = 'PENDING'`
abbrev pending_rule : ℕ → RuleData → Bool
pending_rule id r = r.signal_id == id && str_eq (get_or "" r.status) "PENDING"

unfoldable pub gtt_ids_to_cancel : Trade → Tables → List String
gtt_ids_to_cancel t tables =
    let ids = get_or [] t.gtt_order_ids in
    if is_empty ids
    then map (λ r. r.gtt_order_id) (keep (pending_rule t.id) tables.gtt_rules)
    else ids

-- `UPDATE signals SET status = 'EXPIRED' … WHERE id = $1 AND status = 'PENDING'`
abbrev pub expire_row : ℕ → BlockReason → SignalRow → SignalRow
expire_row now why r = record r {
  status = expired;
  block_reason = some why;
  resolved_at = some now;
  last_event_at = now;
}

-- Drops the trade, and the key with its last one.
unfoldable pub evict : Trade → Monitor → Monitor
evict t m =
    let rest = keep (λ u. not (same_id t.id u)) (m.thresholds t.instrument_key) in
    if is_empty (m.thresholds t.instrument_key) then m else record m {
      thresholds = update_key m.thresholds t.instrument_key rest;
      tracked_keys =
          if is_empty rest
          then update_key m.tracked_keys t.instrument_key false
          else m.tracked_keys;
    }

-- The requests to Upstox, of which `accepts` says whether they succeed, and the row.
abbrev pub cancel_orders : (String → Bool) → ℕ → Trade → ℤ → ℤ → Monitor → Monitor
cancel_orders accepts now t ltp target m =
    let why = Database.entry_not_filled_target_hit ltp target in
    record m {
      cancelled = m.cancelled ++ keep accepts (gtt_ids_to_cancel t m.tables);
      tables =
          update_rows (λ r. has_id t.id r && is_pending r.status) (expire_row now why) m.tables;
    }

-- `_cancel_unfilled_gtts`.
unfoldable pub cancel_unfilled_gtts : (String → Bool) → ℕ → Trade → ℤ → ℤ → Monitor → Monitor
unfolding evict gtt_ids_to_cancel
cancel_unfilled_gtts accepts now t ltp target m = evict t (cancel_orders accepts now t ltp target m)

abbrev pub event : Trade → String → ℤ → EventType → DbWrite
event t key ltp type_ =
    write_event (record { signal_id = t.id; instrument_key = key; ltp = ltp; event_type = type_ })

-- `if sl and …`
abbrev pub stopped : Trade → ℤ → Option ℤ → Bool
stopped t ltp none = false
stopped t ltp (some sl) = truthy_ℤ sl && (if is_buy t.action then leb_ℤ ltp sl else leb_ℤ sl ltp)

-- The settings and what surrounds one tick.
pub record Tick : Type 0 where
  pub use_entry_touch_logic : Bool
  pub accepts : String → Bool
  pub timestamp : ℕ
  pub now : ℕ
  pub mono : ℕ

module _ (tick : Tick) where
  -- After the event of the first target.
  unfoldable pub expire_if_unfilled : Trade → ℤ → ℤ → Monitor → Monitor
  expire_if_unfilled t ltp target m =
      let (expires, t') = should_expire_trade tick.use_entry_touch_logic t ltp tick.timestamp in
      let m1 = set_trade t' m in
      if expires then cancel_unfilled_gtts tick.accepts tick.now t' ltp target m1 else m1

  -- The loop over the targets, with the number of the next one; past it the stoploss is looked at.
  unfoldable pub check_targets : Trade → String → ℤ → ℕ → List ℤ → Monitor → Monitor
  check_targets t key ltp i [] m =
      if stopped t ltp t.stoploss then push_write (event t key ltp stoploss_reached) m else m
  check_targets t key ltp i (target ∷ rest) m =
      let next = check_targets t key ltp (i + 1) rest m in
      let m1 = push_write (event t key ltp (target_reached (i + 1))) m in
      if reaches t.action ltp target
      then (if i == 0 then expire_if_unfilled t ltp target m1 else m1)
      else next

  -- `_check_signal`: first the mark, then the targets and the stoploss.
  unfoldable pub check_signal : Trade → String → ℤ → Monitor → Monitor
  unfolding check_targets
  check_signal t key ltp m =
      let touches =
        tick.use_entry_touch_logic && not t.range_touched && entry_range_touched t ltp in
      let t' = record t { range_touched = if touches then true else t.range_touched } in
      check_targets t' key ltp 0 t.targets
        (if touches then push_write (write_touched t.id) (set_trade t' m) else m)

  unfoldable pub check_signals : List Trade → String → ℤ → Monitor → Monitor
  check_signals [] key ltp m = m
  check_signals (t ∷ ts) key ltp m = check_signals ts key ltp (check_signal t key ltp m)

  -- `check`: each signal of the key as the list was before the tick.
  unfoldable pub check : String → ℤ → Monitor → Monitor
  unfolding check_signals
  check key ltp m =
      let m1 = refresh_thresholds tick.mono m in check_signals (m1.thresholds key) key ltp m1

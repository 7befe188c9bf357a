-- ===== src/First/Monitor.antt =====
-- price_monitor.py: what a price, and the details of a GTT, do to the signals that are watched. The
-- index of instruments groups the cache by instrument key, so that the cache alone is kept here.
pub mod Reconcile
pub mod Levels
pub mod Elsewhere
pub mod Subscriptions
use upstox_gtt.Clock.{time, time_of_day, weekday}
use upstox_gtt.Common.{
  ℕ, ◌==◌, ℤ, pos, Bool, true, false, not, ◌&&◌, ◌||◌, Option, none, some, List, [], ◌∷◌, ◌++◌,
  String, str_eq, if◌then◌else◌, get_or, is_blank, is_some, upper, leb, ltb_ℤ, leb_ℤ, truthy_ℤ, any,
  keep, coalesce, find,
}
use upstox_gtt.First.Store.{Row, Tables, insert_price_event, insert_gtt_status_check}
use upstox_gtt.First.Store.Signals.{
  update_signal_entry_executed, update_signal_exit_executed, update_signal_upstox_status,
  backfill_signal_prices,
}
use upstox_gtt.First.Store.Orders.{
  get_watchable_signals, get_signals_with_gtt_ids, get_signals_needing_backfill,
}
use upstox_gtt.First.Prices.{or_else, profit}

-- `_is_market_hours`.
unfoldable pub is_market_hours : ℕ → Bool
is_market_hours now =
    not (leb 5 (weekday now))
    && leb (time 9 0) (time_of_day now)
    && leb (time_of_day now) (time 15 35)

-- A signal in memory, with the numbers of the targets that it has hit.
pub record Watched : Type 0 where
  pub signal : Row
  pub hit : List ℕ

-- The cache and the subscribed instruments, and the tables.
pub record Monitor : Type 0 where
  pub cache : List Watched
  pub subscribed : List String
  pub tables : Tables

abbrev pub fresh : List Row → List Watched
fresh [] = []
fresh (r ∷ rs) =
    let rest = fresh rs in
    if is_blank r.inserted.instrument_key then rest else record { signal = r; hit = [] } ∷ rest

-- `_rebuild_cache`.
unfoldable pub rebuild_cache : Monitor → Monitor
rebuild_cache m = record m { cache = fresh (get_watchable_signals m.tables) }

abbrev pub key_of : Watched → String
key_of w = w.signal.inserted.instrument_key

abbrev pub watches : List Watched → String → Bool
watches ws key = any (λ w. str_eq (key_of w) key) ws

abbrev pub has_key : String → List String → Bool
has_key k = any (λ j. str_eq j k)

-- The keys of the cache that are not in a list, each once.
unfoldable pub new_keys : List Watched → List String → List String
new_keys [] known = []
new_keys (w ∷ ws) known =
    let later = new_keys ws (if has_key (key_of w) known then known else key_of w ∷ known) in
    if has_key (key_of w) known then later else key_of w ∷ later

-- The periodic refresh: new instruments are subscribed, those without a signal are dropped.
unfoldable pub refresh : Monitor → Monitor
unfolding rebuild_cache new_keys
refresh m =
    let m1 = rebuild_cache m in
    record m1 {
      subscribed = keep (watches m1.cache) (m1.subscribed ++ new_keys m1.cache m1.subscribed);
    }

abbrev pub reaches : String → ℤ → ℤ → Bool
reaches action ltp level =
    (str_eq action "BUY" && leb_ℤ level ltp) || (str_eq action "SELL" && leb_ℤ ltp level)

-- The price is at the stoploss or past it, if there is one.
abbrev pub stopped : String → ℤ → ℤ → Bool
stopped action ltp stop =
    truthy_ℤ stop
    && ((str_eq action "BUY" && leb_ℤ ltp stop) || (str_eq action "SELL" && leb_ℤ stop ltp))

abbrev pub action_of : Row → String
action_of r = upper (if is_blank r.inserted.action then "BUY" else r.inserted.action)

abbrev pub is_hit : ℕ → Watched → Bool
is_hit n w = any (λ m. m == n) w.hit

abbrev pub event_of : ℕ → String
event_of n = if n == 1 then "TARGET1_HIT" else if n == 2 then "TARGET2_HIT" else "TARGET3_HIT"

abbrev pub given : Option ℤ → Bool
given none = false
given (some p) = truthy_ℤ p

module _ (rounds_up : ℤ → Bool) where
  abbrev pub profit_of : Row → ℤ → ℤ
  profit_of r ltp =
      profit rounds_up (action_of r) r.inserted.quantity
        (get_or (pos 0) (or_else (or_else r.entry_price r.inserted.gtt_place_price) (some (pos 0))))
        ltp

  -- The first target ends the signal; the others are only events.
  abbrev pub book_target : ℕ → ℕ → ℤ → ℤ → Row → Tables → Tables
  book_target now n level ltp r t = insert_price_event r.id (event_of n) ltp (some level) (
      if n == 1
      then update_signal_exit_executed now r.id ltp (profit_of r ltp) "TARGET1_HIT" t
      else t)

  abbrev pub reach_target : ℕ → ℕ → ℤ → ℤ → Watched × Tables → Watched × Tables
  reach_target now n level ltp (w, t) =
      if not (truthy_ℤ level) || is_hit n w || not (reaches (action_of w.signal) ltp level)
      then (w, t)
      else (record w { hit = n ∷ w.hit }, book_target now n level ltp w.signal t)

  unfoldable pub check_target : ℕ → ℕ → Option ℤ → ℤ → Watched × Tables → Watched × Tables
  unfolding profit upper
  check_target now n none ltp s = s
  check_target now n (some level) ltp s = reach_target now n level ltp s

  abbrev pub check_all_targets : ℕ → ℤ → Watched × Tables → Watched × Tables
  check_all_targets now ltp (w, t) = check_target now 3 w.signal.inserted.target3 ltp (
      check_target now 2 w.signal.inserted.target2 ltp
        (check_target now 1 w.signal.inserted.target1 ltp (w, t)))

  -- Every target that is given has been hit, and there is one.
  abbrev pub all_hit : Watched → Bool
  all_hit w =
      let d = w.signal.inserted in
      (given d.target1 || given d.target2 || given d.target3)
      && (not (given d.target1) || is_hit 1 w)
      && (not (given d.target2) || is_hit 2 w)
      && (not (given d.target3) || is_hit 3 w)

  abbrev pub book_stop : ℕ → ℤ → ℤ → Row → Tables → Tables
  book_stop now ltp pnl r t =
      insert_price_event r.id "STOPLOSS_HIT" ltp (some r.inserted.stoploss)
        (update_signal_exit_executed now r.id ltp pnl "STOPLOSS_HIT" t)

  -- What is left to watch of a signal that was ACTIVE, after its targets were checked.
  abbrev pub after_targets : ℕ → ℤ → Watched × Tables → Option Watched × Tables
  after_targets now ltp (w, t) =
      if all_hit w
      then (none, t)
      else if stopped (action_of w.signal) ltp w.signal.inserted.stoploss
      then (none, book_stop now ltp (profit_of w.signal ltp) w.signal t)
      else (some w, t)

  unfoldable pub check_active : ℕ → ℤ → Watched × Tables → Option Watched × Tables
  unfolding check_target profit upper
  check_active now ltp s = after_targets now ltp (check_all_targets now ltp s)

  abbrev pub activated : ℤ → Watched → Watched
  activated ltp w = record w {
    signal = record w.signal { status = "ACTIVE"; entry_price = some ltp };
  }

  abbrev pub book_entry : ℕ → ℤ → Row → Tables → Tables
  book_entry now ltp r t =
      insert_price_event r.id "ENTRY_HIT" ltp (some r.inserted.entry_low)
        (update_signal_entry_executed now r.id ltp t)

  -- One signal at a price; nothing is left of it if it leaves the cache.
  unfoldable pub check_one : ℕ → ℤ → Watched → Tables → Option Watched × Tables
  unfolding check_active upper
  check_one now ltp w t =
      let action = action_of w.signal in
      if str_eq w.signal.status "PENDING"
      then (if reaches action ltp w.signal.inserted.entry_low
          then check_active now ltp (activated ltp w, book_entry now ltp w.signal t)
          else if stopped action ltp w.signal.inserted.stoploss
          then (none, book_stop now ltp (pos 0) w.signal t)
          else (some w, t))
      else if str_eq w.signal.status "ACTIVE"
      then check_active now ltp (w, t)
      else (some w, t)

  abbrev pub keep_some : Option Watched → List Watched → List Watched
  keep_some none ws = ws
  keep_some (some w) ws = w ∷ ws

  -- The loop over the signals of the instrument.
  unfoldable pub check_signals : ℕ → String → ℤ → List Watched → Tables → List Watched × Tables
  unfolding check_one
  check_signals now key ltp [] t = ([], t)
  check_signals now key ltp (w ∷ ws) t =
      let (kept, t1) = if str_eq (key_of w) key then check_one now ltp w t else (some w, t) in
      let (rest, t2) = check_signals now key ltp ws t1 in (keep_some kept rest, t2)

  -- `_check_thresholds`.
  unfoldable pub check_thresholds : ℕ → String → ℤ → Monitor → Monitor
  unfolding check_signals
  check_thresholds now key ltp m =
      let (ws, t) = check_signals now key ltp m.cache m.tables in
      if leb_ℤ ltp (pos 0) then m else record m { cache = ws; tables = t }

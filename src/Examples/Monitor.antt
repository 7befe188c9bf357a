-- ===== src/Examples/Monitor.antt =====
-- The price monitor at concrete prices.
use upstox_gtt.Common.{
  ◌+◌, ◌≡◌, ◌↔◌, pos, true, some, List, [], ◌++◌, ◌∷◌, refl, arith, if◌then◌else◌,
}
use upstox_gtt.Signal.{buy, pending, active}
use upstox_gtt.Database.{SignalRow, no_rows, target_reached, stoploss_reached}
use upstox_gtt.Database.Signals.{is_pending, new_row, get_signal}
use upstox_gtt.Database.Writer.{enqueue}
use upstox_gtt.Monitor.{Trade, should_expire_trade, reaches}
use upstox_gtt.Monitor.Checker.{Monitor, Tick, check_signal, check, event, stopped}
use upstox_gtt.Monitor.Expiry.{Expires, should_expire_trade_iff}
use upstox_gtt.Monitor.Events.{check_signal_events, marked_queue}
use upstox_gtt.Monitor.Turns.{ticks, writes, take_turns, ButMarked, take_turns_settled}
use upstox_gtt.Monitor.Service.{
  Happening, subscribe, price, written, happen_all, start, unannounced_unheard,
}
use upstox_gtt.Monitor.Cancelled.{IsCancelled}
use upstox_gtt.Monitor.Stale.{check_cancels_stale}
use upstox_gtt.Monitor.Tracking.{AllTracked, check-AllTracked}
use upstox_gtt.Examples.Data.{ten, row_data}

-- The entry range 150 to 155 has been touched, and the order is waiting.
abbrev waiting : Trade
waiting = record {
  id = 1;
  instrument_key = "NSE_FO|1";
  action = buy;
  entry_low = some (pos 15000);
  entry_high = some (pos 15500);
  stoploss = some (pos 13700);
  targets = pos 17700 ∷ pos 19700 ∷ [];
  status = pending;
  gtt_order_ids = some ("GTT-1" ∷ []);
  signal_timestamp = ten;
  range_touched = true;
}

abbrev tick : Tick
tick = record {
  use_entry_touch_logic = true;
  accepts = λ id. true;
  timestamp = ten + 30_000;
  now = ten + 30_000;
  mono = 30_000;
}

-- The row has become ACTIVE since the last refresh.
abbrev active_row : SignalRow
active_row = record (new_row ten 1 (row_data "1-0" "h1")) { status = active }

abbrev monitor : Monitor
monitor = record {
  thresholds = λ k. waiting ∷ [];
  tracked_keys = λ k. true;
  last_refresh = 0;
  queue = [];
  tables = record no_rows { signals = active_row ∷ [] };
  cancelled = [];
}

should_expire_trade_iff_example :
    ((should_expire_trade true waiting (pos 17800) (ten + 30_000)).0 ≡ true) ↔ (
      (is_pending waiting.status ≡ true)
      × Expires true waiting (pos 17800) (ten + 30_000) (pos 17700))
should_expire_trade_iff_example =
    should_expire_trade_iff true waiting (pos 17800) (ten + 30_000) (pos 17700) (pos 19700 ∷ [])
      refl

waiting_expires : (should_expire_trade true waiting (pos 17800) (ten + 30_000)).0 ≡ true
unfolding should_expire_trade
waiting_expires = refl

-- A price above both targets.
check_signal_events_example : (check_signal tick waiting "NSE_FO|1" (pos 19800) monitor).queue ≡ (
    let q = marked_queue tick waiting (pos 19800) [] in
    if reaches buy (pos 19800) (pos 17700)
    then enqueue (event waiting "NSE_FO|1" (pos 19800) (target_reached 1)) q
    else if stopped waiting (pos 19800) waiting.stoploss
    then enqueue (event waiting "NSE_FO|1" (pos 19800) stoploss_reached) q
    else q)
check_signal_events_example =
    check_signal_events tick waiting "NSE_FO|1" (pos 19800) (pos 17700) (pos 19700 ∷ []) monitor
      refl (omega arith, tt)

check-AllTracked_example : AllTracked (check tick "NSE_FO|1" (pos 17800) monitor)
check-AllTracked_example = check-AllTracked tick "NSE_FO|1" (pos 17800) monitor (λ k. refl)

take_turns_settled_example :
    ButMarked 1 active_row
      (take_turns (ticks tick "NSE_FO|1" (pos 17800) ∷ writes 9 ∷ []) monitor).tables
take_turns_settled_example =
    take_turns_settled (ticks tick "NSE_FO|1" (pos 17800) ∷ writes 9 ∷ []) 1 active_row monitor
      (unfold get_signal in refl) refl refl

check_cancels_stale_example :
    let m' = check tick "NSE_FO|1" (pos 17800) monitor in
    IsCancelled "GTT-1" m' × (get_signal 1 m'.tables ≡ some active_row)
check_cancels_stale_example =
    check_cancels_stale tick "NSE_FO|1" [] [] waiting (pos 17800) (pos 17700) (pos 19700 ∷ [])
      ("GTT-1" ∷ []) "GTT-1" active_row monitor refl (omega arith) refl refl refl refl
      (unfold get_signal in refl) refl (omega arith) refl refl refl refl

abbrev keyed_row : SignalRow
keyed_row = record active_row {
  inserted = record active_row.inserted { instrument_key = some "NSE_FO|1" };
}

-- The instrument has an active signal since the start; the message that announces it is lost, and the refresh,
-- at a price for another instrument, tracks it.
abbrev unannounced : List Happening
unannounced =
    written (record no_rows { signals = keyed_row ∷ [] })
    ∷ subscribe "NSE_FO|9"
    ∷ price (record tick { mono = 90_000 }) "NSE_FO|9" (pos 9_000)
    ∷ []

tracked : (happen_all unannounced (start no_rows)).checker.tracked_keys "NSE_FO|1" ≡ true
unfolding happen_all start upstox_gtt.Monitor.Service.happen
    upstox_gtt.Monitor.Service.add_instrument upstox_gtt.Monitor.Service.load_initial_keys
    upstox_gtt.Monitor.Checker.check upstox_gtt.Monitor.Checker.check_signals
    upstox_gtt.Monitor.Checker.refresh_thresholds upstox_gtt.Monitor.Checker.new_thresholds
tracked = refl

unannounced_unheard_example :
    happen_all (unannounced ++ price tick "NSE_FO|1" (pos 17800) ∷ []) (start no_rows)
    ≡ happen_all unannounced (start no_rows)
unannounced_unheard_example =
    unannounced_unheard no_rows "NSE_FO|1" unannounced tick (pos 17800)
      (unfold upstox_gtt.Monitor.Service.load_initial_keys in refl) (tt, (refl, (tt, tt)))

-- ===== src/Examples/Levels.antt =====
-- The first version: prices, fills and trades on the rows of its tables.
use upstox_gtt.Common.{
  ℕ, ◌==◌, ◌≡◌, ℤ, pos, Bool, true, false, Option, none, some, List, [], ◌∷◌, String, str_eq,
  if◌then◌else◌, refl, arith,
}
use upstox_gtt.First.Store.{Columns, Leg, Row, OrderPayload, Trade, RuleRow, Tables}
use upstox_gtt.First.Store.Signals.{set_entry, set_exit, empty_leg}
use upstox_gtt.First.Store.Orders.{get_signal, replace_trade_executions}
use upstox_gtt.First.Tracker.{
  Api, exit_reason, apply_exit_fill, compute_exit_pnl, sync_order_from_api,
}
use upstox_gtt.First.Tracker.Updates.{handle_order_update}
use upstox_gtt.First.Tracker.Fills.{
  exit_fills, exit_fill_once, sync_order_from_api_activates, handle_order_update_reopens,
}
use upstox_gtt.First.Monitor.{Watched, Monitor, profit_of, check_one, check_thresholds}
use upstox_gtt.First.Monitor.Levels.{stop_after_target}
use upstox_gtt.First.Monitor.Elsewhere.{check_thresholds-Elsewhere}
use upstox_gtt.Examples.Data.{half_up}

abbrev columns : Columns
columns = record {
  redis_message_id = "1-0";
  signal_summary = "BUY NIFTY";
  action = "BUY";
  underlying = "NIFTY";
  strike = some (pos 22500);
  option_type = "CE";
  expiry = "2025-10-28";
  product = "I";
  quantity = pos 2;
  instrument_key = "NSE_FO|1";
  entry_low = pos 1_500_000;
  entry_high = none;
  stoploss = pos 1_400_000;
  target1 = some (pos 1_800_000);
  target2 = some (pos 2_000_000);
  target3 = none;
  gtt_place_price = none;
  signal_at = 0;
  gtt_placed_at = some 0;
}

abbrev row : Row
row = record {
  id = 1;
  inserted = columns;
  status = "ACTIVE";
  tracker_status = "ENTRY_EXECUTED";
  gtt_order_ids = "GTT-1" ∷ [];
  gtt_order_id = some "GTT-1";
  entry_leg = record { rule_status = some "COMPLETED"; order_id = some "7" };
  target_leg = empty_leg;
  stoploss_leg = empty_leg;
  entry_price = some (pos 1_500_000);
  exit_price = none;
  pnl = none;
  upstox_gtt_status = none;
  activated_at = some 0;
  resolved_at = none;
  last_event_at = 0;
  notes = none;
}

abbrev waiting : Row
waiting = record row { status = "PENDING"; entry_price = none }

-- The row after its first target.
abbrev closed : Row
closed = set_exit 5 (pos 1_800_000) (pos 600_000) "TARGET1_HIT" row

abbrev entry_rule : RuleRow
entry_rule = record {
  signal_id = 1;
  gtt_order_id = "GTT-1";
  rule = record {
    strategy = "ENTRY";
    trigger_type = some "ABOVE";
    trigger_price = some (pos 1_500_000);
    transaction_type = some "BUY";
    status = some "COMPLETED";
    order_id = some "7";
    message = none;
  };
}

abbrev tables : Row → Tables
tables r = record {
  next_id = 2;
  signals = r ∷ [];
  gtt_rules = entry_rule ∷ [];
  order_updates = [];
  trade_executions = [];
  price_events = [];
  gtt_status_checks = [];
  upstox_events = [];
}

there : (r : Row) → r.id ≡ 1 → get_signal r.id (tables r) ≡ some r
unfolding get_signal
there r h = ground arith

-- An order with a price limit that has not been filled.
abbrev open_order : OrderPayload
open_order = record {
  order_id = "7";
  status = "open";
  average_price = some (pos 0);
  price = some (pos 1_510_000);
  filled_quantity = some (pos 0);
  pending_quantity = some (pos 150);
  status_message = "";
  status_message_raw = "";
  instrument_key = none;
}

abbrev filled : OrderPayload
filled = record open_order {
  status = "complete";
  filled_quantity = some (pos 150);
  pending_quantity = some (pos 0);
}

abbrev api : Api
api = record { trades = λ o. []; history = λ o. open_order ∷ []; details = λ g. none }

exit_fill_once_example :
    let t' = apply_exit_fill half_up 5 1 row "TARGET" (some (pos 1_800_000)) (tables row) in
    let r' =
      set_exit 5
        (pos 1_800_000)
        (compute_exit_pnl half_up row (pos 1_800_000))
        (exit_reason "TARGET")
        row in
    (get_signal 1 t' ≡ some r')
    × (exit_fills half_up 1 ((9, "STOPLOSS", some (pos 1_400_000)) ∷ (10, "TARGET", none) ∷ []) t'
        ≡ t')
exit_fill_once_example =
    exit_fill_once half_up 5 1 row "TARGET" (pos 1_800_000)
      ((9, "STOPLOSS", some (pos 1_400_000)) ∷ (10, "TARGET", none) ∷ []) (tables row) refl
      (there row refl)

sync_order_from_api_activates_example :
    get_signal 1 (sync_order_from_api half_up 5 api 1 "7" "ENTRY" (tables waiting))
    ≡ some (set_entry 5 (pos 1_510_000) waiting)
sync_order_from_api_activates_example =
    sync_order_from_api_activates half_up 5 1 api "7" waiting (pos 1_510_000) (tables waiting)
      (there waiting refl) refl
      (unfold upstox_gtt.First.Prices.weighted_price upstox_gtt.First.Prices.total_quantity
          upstox_gtt.First.Prices.total_value in
        refl)

handle_order_update_reopens_example :
    get_signal 1 (handle_order_update half_up 9 api filled (tables closed))
    ≡ some (set_entry 9 (pos 1_510_000) closed)
handle_order_update_reopens_example =
    handle_order_update_reopens half_up 9 api filled closed (pos 1_510_000) (tables closed)
      (unfold upstox_gtt.First.Store.Orders.get_signal_by_order_id in refl)
      (unfold upstox_gtt.First.Store.Orders.get_signal_strategy_by_order_id in refl)
      (there closed refl) (unfold upstox_gtt.First.Tracker.is_fill_event in refl) refl
      (unfold upstox_gtt.First.Prices.weighted_price upstox_gtt.First.Prices.total_quantity
          upstox_gtt.First.Prices.total_value in
        refl)

-- The first target has been hit, the second not.
abbrev watched : Watched
watched = record { signal = row; hit = 1 ∷ [] }

stop_after_target_example :
    ((check_one half_up 9 (pos 1_390_000) watched (tables closed)).0 ≡ none)
    × (get_signal 1 (check_one half_up 9 (pos 1_390_000) watched (tables closed)).1
        ≡ some (
            set_exit 9
              (pos 1_390_000)
              (profit_of half_up row (pos 1_390_000))
              "STOPLOSS_HIT"
              closed))
stop_after_target_example =
    stop_after_target half_up 9 (pos 1_390_000) watched closed (tables closed) refl refl refl
      (unfold upstox_gtt.Common.upper in refl) (unfold upstox_gtt.Common.upper in refl)
      (unfold upstox_gtt.Common.upper in refl) tt (there closed refl)

abbrev monitor : Monitor
monitor = record {
  cache = record watched { signal = record row { id = 2 } } ∷ [];
  subscribed = "NSE_FO|1" ∷ [];
  tables = tables row;
}

check_thresholds-Elsewhere_example :
    get_signal 1 (check_thresholds half_up 9 "NSE_FO|1" (pos 1_390_000) monitor).tables
    ≡ get_signal 1 (tables row)
check_thresholds-Elsewhere_example =
    check_thresholds-Elsewhere half_up 1 9 (pos 1_390_000) "NSE_FO|1" monitor (refl, tt)

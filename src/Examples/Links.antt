-- ===== src/Examples/Links.antt =====
-- Order links, repeated trades, and a failed signal that comes again.
use upstox_gtt.Common.{◌≡◌, pos, none, some, List, [], ◌∷◌, refl}
use upstox_gtt.Signal.{same_strategy, buy, entry}
use upstox_gtt.Database.{RuleData, Tables, no_rows}
use upstox_gtt.Database.Rules.{get_gtt_rules_by_gtt_order_id}
use upstox_gtt.Database.Orders.{get_trades_for_order, total_quantity}
use upstox_gtt.Tracker.{Tracker}
use upstox_gtt.Tracker.Fill.{FetchedTrade, OrderData, insert_trades}
use upstox_gtt.Tracker.Updates.{GttPayload, handle_gtt_update}
use upstox_gtt.Tracker.Links.{Unlinked, handle_gtt_update_unlinks}
use upstox_gtt.Examples.Data.{ten, limits, new_ledger}

abbrev linked_leg : RuleData
linked_leg = record {
  signal_id = 1;
  gtt_order_id = "GTT-1";
  strategy = entry;
  trigger_type = some "ABOVE";
  trigger_price = some (pos 15000);
  transaction_type = some buy;
  status = some "PENDING";
  order_id = some "O1";
  message = none;
}

abbrev linked_tracker : Tracker
linked_tracker = record {
  tables = record no_rows { gtt_rules = linked_leg ∷ [] };
  ledger = new_ledger;
}

abbrev triggered : GttPayload
triggered = record { gtt_id = some "GTT-1"; status = "triggered"; rules = [] }

handle_gtt_update_unlinks_example :
    Unlinked "triggered" "GTT-1" entry
      (handle_gtt_update limits ten (λ o. none) triggered linked_tracker).tables
handle_gtt_update_unlinks_example =
    handle_gtt_update_unlinks limits ten (λ o. none) triggered "GTT-1" entry linked_tracker refl
      refl (unfold get_gtt_rules_by_gtt_order_id same_strategy in refl)

abbrev one_trade : List FetchedTrade
one_trade =
    record {
      trade_id = some "T1";
      quantity = 75;
      average_price = some (pos 15300);
      price = none;
      transaction_type = some buy;
    }
    ∷ []

abbrev order_data : OrderData
order_data = record { gtt_order_id = some "GTT-1"; transaction_type = some buy }

twice :
    total_quantity (
      get_trades_for_order "O1"
        (insert_trades "O1" order_data one_trade (insert_trades "O1" order_data one_trade no_rows)))
    ≡ 75
unfolding total_quantity get_trades_for_order insert_trades
    upstox_gtt.Database.Orders.insert_trade_execution upstox_gtt.Database.Orders.has_trade
twice = refl

-- ===== src/First/Tracker.antt =====
-- upstox_order_tracker.py: what the updates of orders and of GTTs, and the reconciliation, do to the tables.
-- What the API answers is given, by the ids that are asked.
pub mod Fills
pub mod Updates
use upstox_gtt.Common.{
  ℕ, ◌<◌, ℤ, pos, Bool, true, false, not, ◌&&◌, ◌||◌, Option, none, some, List, [], ◌∷◌, String,
  str_eq, if◌then◌else◌, get_or, is_blank, is_empty, upper, before, ltb_ℤ, eqb_ℤ, truthy_ℤ,
}
use upstox_gtt.First.Store.{
  Row, Rule, OrderPayload, Trade, Tables, insert_price_event, insert_gtt_status_check,
  insert_order_update, record_upstox_event,
}
use upstox_gtt.First.Store.Signals.{
  update_signal_status, update_signal_entry_executed, update_signal_exit_executed,
  update_tracker_fields,
}
use upstox_gtt.First.Store.Orders.{
  contains, get_signal, get_signal_by_gtt_order_id, get_signal_by_order_id,
  get_signal_strategy_by_order_id, get_signals_with_gtt_ids, set_signal_gtt_order, upsert_gtt_rule,
  replace_trade_executions,
}
use upstox_gtt.First.Prices.{or_else, weighted_price, profit}

-- A message on a GTT, or its details from the API.
pub record GttPayload : Type 0 where
  pub gtt_order_id : String
  pub gtt_type : Option String
  pub status : String
  pub instrument_key : Option String
  pub rules : List Rule

pub data Payload : Type 0 where
  gtt_order : GttPayload → Payload
  order : OrderPayload → Payload
  other : Payload

-- The answers of the API: the trades and the history of an order, and the details of a GTT.
pub record Api : Type 0 where
  pub trades : String → List Trade
  pub history : String → List OrderPayload
  pub details : String → Option GttPayload

abbrev pub says : String → String → Bool
says token status = contains token (upper status)

-- `_is_rejected_or_cancelled`.
unfoldable pub is_rejected_or_cancelled : OrderPayload → Bool
unfolding contains upper
is_rejected_or_cancelled p =
    says "REJECT" p.status || says "CANCEL" p.status || says "FAIL" p.status

-- `_is_fill_event`.
unfoldable pub is_fill_event : OrderPayload → Bool
unfolding is_rejected_or_cancelled contains upper
is_fill_event p =
    ltb_ℤ (pos 0) (get_or (pos 0) p.filled_quantity)
    || says "COMPLETE" p.status
    || ((elim p.pending_quantity [ none ↦ false | some n ↦ eqb_ℤ n (pos 0) ])
        && not (is_rejected_or_cancelled p))

-- The statuses at which `_apply_exit_fill` returns.
abbrev pub is_resolved : String → Bool
is_resolved s =
    str_eq s "TARGET1_HIT"
    || str_eq s "STOPLOSS_HIT"
    || str_eq s "FAILED"
    || str_eq s "CANCELLED"
    || str_eq s "EXPIRED"

-- `x or y` of two texts.
abbrev pub or_text : String → String → String
or_text x y = if is_blank x then y else x

abbrev pub rule_note : String → Rule → String
rule_note d rule = or_text (get_or "" rule.message) d

abbrev pub last_payload : OrderPayload → List OrderPayload → OrderPayload
last_payload p [] = p
last_payload p (q ∷ qs) = last_payload q qs

-- The id under which `_record_raw_event` keeps a message.
abbrev pub entity_id : String → Option String → Option String
entity_id id instrument_key = if is_blank id then instrument_key else some id

-- `{"order_id": order_id}`.
abbrev pub bare : String → OrderPayload
bare order_id = record {
  order_id = order_id;
  status = "";
  average_price = none;
  price = none;
  filled_quantity = none;
  pending_quantity = none;
  status_message = "";
  status_message_raw = "";
  instrument_key = none;
}

unfoldable pub insert_order_updates : ℕ → String → List OrderPayload → Tables → Tables
insert_order_updates id strategy [] t = t
insert_order_updates id strategy (p ∷ ps) t =
    insert_order_updates id strategy ps (insert_order_update (some id) (some strategy) p t)

-- `_apply_entry_fill`, of a signal whose row was read before.
unfoldable pub apply_entry_fill : ℕ → ℕ → Row → Option ℤ → Tables → Tables
apply_entry_fill now id signal none t = t
apply_entry_fill now id signal (some price) t =
    if str_eq signal.status "ACTIVE"
    then t
    else insert_price_event id "ENTRY_EXECUTED" price (some signal.inserted.entry_low)
        (update_signal_entry_executed now id price t)

abbrev pub exit_reason : String → String
exit_reason strategy = if str_eq strategy "TARGET" then "TARGET1_HIT" else "STOPLOSS_HIT"

module _ (rounds_up : ℤ → Bool) where
  -- `_compute_exit_pnl`.
  unfoldable pub compute_exit_pnl : Row → ℤ → ℤ
  unfolding upper profit
  compute_exit_pnl s exit_price =
      let action = upper (or_text s.inserted.action "BUY") in
      let entry_price =
        get_or (pos 0) (
          or_else s.entry_price (or_else s.inserted.gtt_place_price (some s.inserted.entry_low))) in
      profit rounds_up action s.inserted.quantity entry_price exit_price

  -- `_apply_exit_fill`.
  unfoldable pub apply_exit_fill : ℕ → ℕ → Row → String → Option ℤ → Tables → Tables
  unfolding compute_exit_pnl
  apply_exit_fill now id signal strategy none t = t
  apply_exit_fill now id signal strategy (some price) t =
      if is_resolved signal.status
      then t
      else insert_price_event id (exit_reason strategy) price none (
          update_signal_exit_executed now id price (compute_exit_pnl signal price)
            (exit_reason strategy) t)

  -- The fill of a leg: of the entry, or of an exit.
  abbrev pub apply_fill : ℕ → ℕ → Row → String → Option ℤ → Tables → Tables
  apply_fill now id signal strategy price t =
      if str_eq strategy "ENTRY"
      then apply_entry_fill now id signal price t
      else if str_eq strategy "TARGET" || str_eq strategy "STOPLOSS"
      then apply_exit_fill now id signal strategy price t
      else t

  -- `_final_price_from_payload`.
  abbrev pub final_price : OrderPayload → List Trade → Option ℤ
  final_price p trades = or_else (weighted_price rounds_up trades) (or_else p.average_price p.price)

  abbrev pub store_trades : Option ℕ → String → List Trade → Tables → Tables
  store_trades id order_id trades t =
      if is_empty trades then t else replace_trade_executions id order_id trades t

  -- The last update of an order's history.
  abbrev pub latest : String → List OrderPayload → OrderPayload
  latest order_id [] = bare order_id
  latest order_id (p ∷ ps) = last_payload p ps

  -- What the order of a leg does to its signal, if there is one.
  abbrev pub sync_fill : ℕ → ℕ → String → OrderPayload → List Trade → Option Row → Tables → Tables
  sync_fill now id strategy p trades none t = t
  sync_fill now id strategy p trades (some signal) t =
      apply_fill now id signal strategy (final_price p trades) t

  -- `_sync_order_from_api`.
  unfoldable pub sync_order_from_api : ℕ → Api → ℕ → String → String → Tables → Tables
  unfolding insert_order_updates apply_entry_fill apply_exit_fill
  sync_order_from_api now api id order_id strategy t =
      let trades = api.trades order_id in
      let history = api.history order_id in
      let t1 =
        insert_order_updates id strategy history (store_trades (some id) order_id trades t) in
      sync_fill now id strategy (latest order_id history) trades (get_signal id t1) t1

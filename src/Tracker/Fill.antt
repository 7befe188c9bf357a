-- ===== src/Tracker/Fill.antt =====
-- `_process_filled_order` of gtt_v2/services/order_tracker/main.py.
use upstox_gtt.Common.{
  ℕ, ◌+◌, ℤ, pos, ◌+ℤ◌, ◌-ℤ◌, ◌*ℤ◌, leb_ℤ, truthy_ℤ, Bool, true, false, not, ◌&&◌, ◌||◌, Option,
  none, some, List, [], ◌∷◌, map, String, str_eq, get_or, is_some, if◌then◌else◌,
}
use upstox_gtt.Signal.{
  Action, buy, is_buy, Strategy, entry, target, stoploss_leg, same_strategy, Status, pending,
  active, target1_hit, target2_hit, target3_hit, stoploss_hit,
}
use upstox_gtt.Database.{RuleData, SignalRow, Trade, Tables}
use upstox_gtt.Database.Signals.{
  is_pending, has_id, update_rows, update_signal_status, update_signal_pnl, get_signal,
}
use upstox_gtt.Database.Orders.{insert_trade_execution, get_trades_for_order, weighted_avg_price}
use upstox_gtt.Rules.PnlGuard.{Limits, record_pnl}
use upstox_gtt.Tracker.{Tracker, action_of, resolve_rule}

-- A trade as `get_order_trades` returns it; Upstox gives each a quantity.
pub record FetchedTrade : Type 0 where
  pub trade_id : Option String
  pub quantity : ℕ
  pub average_price : Option ℤ
  pub price : Option ℤ
  pub transaction_type : Option Action

-- What the message or the payload says of an order.
pub record OrderData : Type 0 where
  pub gtt_order_id : Option String
  pub transaction_type : Option Action

-- `x or y` of two numbers.
abbrev pub nonzero : Option ℤ → Option ℤ
nonzero none = none
nonzero (some p) = if truthy_ℤ p then some p else none

abbrev pub or_else {ℓ} : {A : Type ℓ} → Option A → Option A → Option A
or_else (some a) b = some a
or_else none b = b

abbrev pub executed : String → OrderData → FetchedTrade → Trade
executed order_id data_ t = record {
  signal_id = none;
  order_id = order_id;
  trade_id = t.trade_id;
  quantity = some t.quantity;
  price = or_else (nonzero t.average_price) t.price;
  side = get_or buy (or_else data_.transaction_type t.transaction_type);
}

unfoldable pub insert_trades : String → OrderData → List FetchedTrade → Tables → Tables
insert_trades order_id data_ [] t = t
insert_trades order_id data_ (x ∷ xs) t =
    insert_trades order_id data_ xs (insert_trade_execution (executed order_id data_ x) t)

-- `UPDATE trade_executions SET signal_id = $1 WHERE order_id = $2 AND signal_id IS NULL`
abbrev fill_in : ℕ → String → Trade → Trade
fill_in id order_id x =
    if str_eq order_id x.order_id && not (is_some x.signal_id)
    then record x { signal_id = some id }
    else x

unfoldable pub back_fill : ℕ → String → Tables → Tables
back_fill id order_id t = record t {
  trade_executions = map (fill_in id order_id) t.trade_executions;
}

-- `sum(t.get("quantity", 0) for t in all_trades)`; a NULL raises an exception.
unfoldable pub sum_quantities : List Trade → Option ℕ
sum_quantities [] = some 0
sum_quantities (t ∷ ts) = elim t.quantity [
  | none ↦ none
  | some q ↦ elim (sum_quantities ts) [ none ↦ none | some n ↦ some (q + n) ]
]

-- A fill of a leg of a signal, at the mean price of its trades.
pub record FillData : Type 0 where
  pub signal_id : ℕ
  pub strategy : Strategy
  pub price : ℤ
  pub quantity : Option ℕ

-- The columns of the signal's row; each has the value that the code gives it if there is no row.
abbrev pub status_of : Option SignalRow → Status
status_of none = pending
status_of (some r) = r.status

abbrev pub entry_of : Option SignalRow → Option ℤ
entry_of none = none
entry_of (some r) = nonzero r.entry_price

abbrev pub exit_of : Option SignalRow → Option ℤ
exit_of none = none
exit_of (some r) = nonzero r.exit_price

abbrev pub stop_of : Option SignalRow → Option ℤ
stop_of none = none
stop_of (some r) = nonzero r.inserted.stoploss_adj

abbrev pub target_of : Option SignalRow → Option ℤ
target_of none = none
target_of (some r) = elim r.inserted.targets_adj [ [] ↦ none | t ∷ ts ↦ some t ]

abbrev pub resolved_by_exit : Status → Bool
resolved_by_exit target1_hit = true
resolved_by_exit target2_hit = true
resolved_by_exit target3_hit = true
resolved_by_exit stoploss_hit = true
resolved_by_exit _ = false

abbrev pub is_entry : Strategy → Bool
is_entry s = same_strategy s entry

-- The fill has been applied before.
unfoldable pub already_applied : Strategy → Option SignalRow → Bool
already_applied s row =
    if is_entry s
    then not (is_pending (status_of row)) && is_some (entry_of row)
    else is_some (exit_of row) && resolved_by_exit (status_of row)

-- The fill is at the target or the stoploss, give or take 0.75.
unfoldable pub is_target_hit : ℤ → Option SignalRow → Bool
is_target_hit fill row = elim (target_of row) [
  | none ↦ false
  | some t ↦ if is_buy (action_of row) then leb_ℤ (t -ℤ pos 75) fill else leb_ℤ fill (t +ℤ pos 75)
]

unfoldable pub is_stoploss_hit : ℤ → Option SignalRow → Bool
is_stoploss_hit fill row = elim (stop_of row) [
  | none ↦ false
  | some s ↦ if is_buy (action_of row) then leb_ℤ fill (s +ℤ pos 75) else leb_ℤ (s -ℤ pos 75) fill
]

abbrev pub set_entry : ℕ → ℤ → SignalRow → SignalRow
set_entry now price r = record r { entry_price = some price; last_event_at = now }

unfoldable pub pnl_of : Action → ℤ → ℤ → ℕ → ℤ
pnl_of a entry_price fill qty =
    if is_buy a then (fill -ℤ entry_price) *ℤ pos qty else (entry_price -ℤ fill) *ℤ pos qty

-- The status after an exit.
unfoldable pub exit_status : Strategy → ℤ → Option SignalRow → Status
exit_status s fill row =
    if is_target_hit fill row || same_strategy s target
    then target1_hit
    else if is_stoploss_hit fill row || same_strategy s stoploss_leg
    then stoploss_hit
    else active

module _ (lim : Limits) (now : ℕ) where
  -- An entry makes the signal ACTIVE.
  abbrev pub apply_entry : FillData → Tracker → Tracker
  apply_entry f s = record s {
    tables =
        update_signal_status now f.signal_id active none none none
          (update_rows (has_id f.signal_id) (set_entry now f.price) s.tables);
  }

  -- An exit books the profit, in the row, and on the day if it is not zero.
  abbrev pub apply_exit : FillData → ℕ → Option SignalRow → Tracker → Tracker
  apply_exit f qty row s =
      let entry_price = get_or f.price (entry_of row) in
      let pnl = pnl_of (action_of row) entry_price f.price qty in
      record s {
        tables =
            update_signal_status now f.signal_id (exit_status f.strategy f.price row) none none none
              (update_signal_pnl now f.signal_id entry_price f.price pnl s.tables);
        ledger = if truthy_ℤ pnl then record_pnl lim now pnl s.ledger else s.ledger;
      }

  unfoldable pub apply_fill : FillData → Tracker → Tracker
  unfolding already_applied
  apply_fill f s =
      let row = get_signal f.signal_id s.tables in
      if already_applied f.strategy row
      then s
      else if is_entry f.strategy
          && not (is_target_hit f.price row)
          && not (is_stoploss_hit f.price row)
      then apply_entry f s
      else elim f.quantity [ none ↦ s | some qty ↦ apply_exit f qty row s ]

  -- From the mean price on: the leg, the trades of the signal, and the fill.
  abbrev pub book : String → ℤ → List Trade → Option RuleData × Tables → Tracker → Tracker
  book order_id price trades (none, t) s = record s { tables = t }
  book order_id price trades (some r, t) s =
      apply_fill
        (record {
          signal_id = r.signal_id;
          strategy = r.strategy;
          price = price;
          quantity = sum_quantities trades;
        })
        (record s { tables = back_fill r.signal_id order_id t })

  -- `_process_filled_order`; `none` is a failed request for the trades.
  unfoldable pub process_filled_order :
      Option (List FetchedTrade) → String → OrderData → Tracker → Tracker
  unfolding apply_fill insert_trades back_fill sum_quantities
  process_filled_order none order_id data_ s = s
  process_filled_order (some fetched) order_id data_ s =
      let t = insert_trades order_id data_ fetched s.tables in
      let trades = get_trades_for_order order_id t in
      elim (weighted_avg_price trades) [
        | none ↦ record s { tables = t }
        | some price ↦
            book order_id price trades
              (resolve_rule order_id data_.gtt_order_id data_.transaction_type (some price) t) s
      ]

-- ===== src/Database/Orders.antt =====
-- gtt_v2/shared/db/order_updates.py: order updates, executed trades and their mean price.
pub mod Average
use upstox_gtt.Common.{
  ℕ, ◌+◌, ◌*◌, ◌%◌, ◌==◌, ℤ, pos, negsuc, ◌+ℤ◌, ◌*ℤ◌, Bool, true, false, Option, none, some, List,
  [], ◌∷◌, ◌++◌, String, str_eq, any, keep, get_or, if◌then◌else◌,
}
use upstox_gtt.Common.Rounding.{round_div, floor_div}
use upstox_gtt.Database.{OrderUpdate, Trade, Tables}

unfoldable pub insert_order_update : OrderUpdate → Tables → Tables
insert_order_update u t = record t { order_updates = t.order_updates ++ u ∷ [] }

abbrev pub is_trade : String → Option String → Bool
is_trade id none = false
is_trade id (some j) = str_eq j id

-- The index of gtt_v2/shared/db/migrations/002_trade_exec_unique.sql: ids differ where they are given.
unfoldable pub has_trade : Option String → List Trade → Bool
has_trade none trades = false
has_trade (some id) trades = any (λ x. is_trade id x.trade_id) trades

-- `ON CONFLICT DO NOTHING`.
unfoldable pub insert_trade_execution : Trade → Tables → Tables
unfolding has_trade
insert_trade_execution x t =
    if has_trade x.trade_id t.trade_executions
    then t
    else record t { trade_executions = t.trade_executions ++ x ∷ [] }

unfoldable pub get_trades_for_order : String → Tables → List Trade
get_trades_for_order order_id t = keep (λ x. str_eq order_id x.order_id) t.trade_executions

-- `sum(t["quantity"] for t in trades if t.get("quantity"))`
unfoldable pub total_quantity : List Trade → ℕ
total_quantity [] = 0
total_quantity (t ∷ ts) = get_or 0 t.quantity + total_quantity ts

-- `t["price"] * t["quantity"]` where both are given: a missing or zero one adds nothing.
abbrev pub trade_value : Trade → ℤ
trade_value t = get_or (pos 0) t.price *ℤ pos (get_or 0 t.quantity)

unfoldable pub total_value : List Trade → ℤ
total_value [] = pos 0
total_value (t ∷ ts) = trade_value t +ℤ total_value ts

abbrev pub is_odd : ℤ → Bool
is_odd (pos n) = n % 2 == 1
is_odd (negsuc n) = n % 2 == 0

-- `round` of a `Decimal`: halves go to the even hundredth.
abbrev pub round_decimal : ℤ → ℕ → ℤ
round_decimal num den = round_div (is_odd (floor_div num den)) num den

unfoldable pub weighted_avg_price : List Trade → Option ℤ
unfolding total_quantity total_value
weighted_avg_price trades =
    let quantity = total_quantity trades in
    if quantity == 0 then none else some (round_decimal (total_value trades) quantity)

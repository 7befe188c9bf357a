-- ===== src/Tracker/Trades.antt =====
-- The trades of an order that is processed again.
use upstox_gtt.Common.{◌≡◌, true, some, String}
use upstox_gtt.Database.{Tables}
use upstox_gtt.Database.Orders.{has_trade}
use upstox_gtt.Tracker.Fill.{FetchedTrade}

-- A trade that Upstox gives an id.
abbrev pub IsNamed : FetchedTrade → Type 0
IsNamed x = (id : String) × (x.trade_id ≡ some id)

abbrev IsStored : Tables → FetchedTrade → Type 0
IsStored t x = has_trade x.trade_id t.trade_executions ≡ true

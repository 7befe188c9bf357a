-- ===== src/First/Store/Orders.antt =====
-- db.py: the legs of a GTT, its orders and their trades, and the look-ups by their ids.
use upstox_gtt.Common.{
  ℕ, ◌==◌, Bool, false, not, ◌&&◌, ◌||◌, Option, none, some, List, [], ◌∷◌, ◌++◌, String, str_eq,
  if◌then◌else◌, find, any, keep, is_some, is_empty, is_blank, coalesce, upper, starts, before,
}
use upstox_gtt.First.Store.{
  Leg, Row, Rule, RuleRow, Trade, TradeRow, Tables, has_id, update_row, update,
}

-- `x = y` of SQL, where NULL equals nothing.
abbrev pub is_text : String → Option String → Bool
is_text s none = false
is_text s (some t) = str_eq t s

abbrev pub member : String → List String → Bool
member s = any (λ t. str_eq t s)

-- The JSON text of a list of order ids.
abbrev quoted : String → String → String
quoted s rest = before "\"" (before s (before "\"" rest))

unfoldable pub json_items : String → List String → String
unfolding before
json_items s [] = quoted s "]"
json_items s (t ∷ ts) = quoted s (before ", " (json_items t ts))

-- `hay LIKE '%needle%'` for a text without wildcards, in upper case.
unfoldable pub contains : String → String → Bool
unfolding starts
contains needle String.[] = is_blank needle
contains needle (String.◌∷◌ c s) = starts (String.◌∷◌ c s) needle || contains needle s

abbrev pub ids_like : String → List String → Bool
ids_like id [] = false
ids_like id (s ∷ ss) = contains (upper id) (upper (before "[" (json_items s ss)))

unfoldable pub get_signal : ℕ → Tables → Option Row
get_signal id t = find (has_id id) t.signals

unfoldable pub get_signal_by_gtt_order_id : String → Tables → Option Row
unfolding upper contains json_items before
get_signal_by_gtt_order_id id t =
    if is_blank id
    then none
    else find (λ r. is_text id r.gtt_order_id || ids_like id r.gtt_order_ids) t.signals

abbrev pub has_order : String → Row → Bool
has_order id r =
    is_text id r.entry_leg.order_id
    || is_text id r.target_leg.order_id
    || is_text id r.stoploss_leg.order_id

abbrev pub rule_has_order : String → RuleRow → Bool
rule_has_order id x = is_text id x.rule.order_id

unfoldable pub get_signal_by_order_id : String → Tables → Option Row
unfolding get_signal
get_signal_by_order_id id t = if is_blank id then none else elim (find (has_order id) t.signals) [
  | some r ↦ some r
  | none ↦ elim (find (rule_has_order id) t.gtt_rules) [
    | none ↦ none
    | some x ↦ get_signal x.signal_id t
  ]
]

-- The strategies in the table are in upper case and not empty.
unfoldable pub get_signal_strategy_by_order_id : String → Tables → Option String
get_signal_strategy_by_order_id id t =
    if is_blank id
    then none
    else elim (find (rule_has_order id) t.gtt_rules) [ none ↦ none | some x ↦ some x.rule.strategy ]

abbrev pub is_open : Row → Bool
is_open r = str_eq r.status "PENDING" || str_eq r.status "ACTIVE"

abbrev pub has_gtt : Row → Bool
has_gtt r = is_some r.gtt_order_id || not (is_empty r.gtt_order_ids)

unfoldable pub get_watchable_signals : Tables → List Row
get_watchable_signals t = keep is_open t.signals

unfoldable pub get_signals_with_gtt_ids : Tables → List Row
get_signals_with_gtt_ids t = keep (λ r. is_open r && has_gtt r) t.signals

unfoldable pub get_signals_needing_backfill : Tables → List Row
get_signals_needing_backfill t =
    keep (λ r. has_gtt r && (not (is_some r.entry_price) || not (is_some r.exit_price))) t.signals

abbrev pub add_id : String → List String → List String
add_id id ids = if member id ids then ids else ids ++ id ∷ []

abbrev pub set_gtt : ℕ → String → Row → Row
set_gtt now id r = record r {
  gtt_order_id = coalesce r.gtt_order_id (some id);
  gtt_order_ids = add_id id r.gtt_order_ids;
  last_event_at = now;
}

unfoldable pub set_signal_gtt_order : ℕ → ℕ → String → Tables → Tables
unfolding update_row
set_signal_gtt_order now id gtt_id t =
    if is_blank gtt_id then t else update id (set_gtt now gtt_id) t

abbrev pub same_leg : ℕ → String → RuleRow → Bool
same_leg id strategy x = x.signal_id == id && str_eq x.rule.strategy strategy

-- `ON CONFLICT (signal_id, strategy) DO UPDATE`: an order id that is known stays if none is given.
abbrev pub merged : RuleRow → RuleRow → RuleRow
merged new old = record new {
  rule = record new.rule { order_id = coalesce new.rule.order_id old.rule.order_id };
}

unfoldable pub upsert_row : RuleRow → List RuleRow → List RuleRow
upsert_row new [] = new ∷ []
upsert_row new (x ∷ xs) =
    if same_leg new.signal_id new.rule.strategy x then merged new x ∷ xs else x ∷ upsert_row new xs

-- The columns of the leg: the status, and the order id if none is there.
abbrev pub set_leg : Rule → Leg → Leg
set_leg x l = record {
  rule_status = x.status;
  order_id = elim x.order_id [
    | none ↦ l.order_id
    | some o ↦ if is_blank o then l.order_id else coalesce l.order_id (some o)
  ];
}

abbrev pub set_legs : ℕ → Rule → Row → Row
set_legs now x r =
    if str_eq x.strategy "ENTRY"
    then record r { entry_leg = set_leg x r.entry_leg; last_event_at = now }
    else if str_eq x.strategy "TARGET"
    then record r { target_leg = set_leg x r.target_leg; last_event_at = now }
    else if str_eq x.strategy "STOPLOSS"
    then record r { stoploss_leg = set_leg x r.stoploss_leg; last_event_at = now }
    else r

unfoldable pub upsert_gtt_rule : ℕ → ℕ → String → Rule → Tables → Tables
unfolding upsert_row update_row upper
upsert_gtt_rule now id gtt_id rule t =
    let x = record rule { strategy = upper rule.strategy } in
    if is_blank x.strategy
    then t
    else update id (set_legs now x) (record t {
      gtt_rules =
          upsert_row (record { signal_id = id; gtt_order_id = gtt_id; rule = x }) t.gtt_rules;
    })

-- A trade of an order that is there already, by `UNIQUE (order_id, trade_id)`.
abbrev pub same_trade : String → Option String → TradeRow → Bool
same_trade order none x = false
same_trade order (some id) x = str_eq x.order_id order && is_text id x.trade.trade_id

unfoldable pub add_trades : Option ℕ → String → List Trade → List TradeRow → List TradeRow
add_trades id order [] rows = rows
add_trades id order (x ∷ xs) rows = add_trades id order xs (
    if any (same_trade order x.trade_id) rows
    then rows
    else rows ++ (record { signal_id = id; order_id = order; trade = x } ∷ []))

abbrev pub other_order : String → TradeRow → Bool
other_order order x = not (str_eq x.order_id order)

unfoldable pub replace_trade_executions : Option ℕ → String → List Trade → Tables → Tables
unfolding add_trades
replace_trade_executions id order trades t = record t {
  trade_executions = add_trades id order trades (keep (other_order order) t.trade_executions);
}

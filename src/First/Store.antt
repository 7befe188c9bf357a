-- ===== src/First/Store.antt =====
-- db.py: the SQLite tables of the first version. Times are milliseconds, prices are whole
-- ten-thousandths of a rupee; a list of order ids is kept as its JSON text, and here as the list.
pub mod Orders
pub mod Rows
pub mod Signals
use upstox_gtt.Common.{
  ℕ, ◌+◌, ◌==◌, ℤ, Bool, true, false, not, ◌&&◌, ◌||◌, Option, none, some, List, [], ◌∷◌, ◌++◌,
  String, str_eq, if◌then◌else◌, find, any, keep, is_some, is_empty, is_blank, coalesce, upper,
  starts, before,
}

-- The columns of `signals` that an insert sets and no update changes.
pub record Columns : Type 0 where
  pub redis_message_id : String
  pub signal_summary : String
  pub action : String
  pub underlying : String
  pub strike : Option ℤ
  pub option_type : String
  pub expiry : String
  pub product : String
  pub quantity : ℤ
  pub instrument_key : String
  pub entry_low : ℤ
  pub entry_high : Option ℤ
  pub stoploss : ℤ
  pub target1 : Option ℤ
  pub target2 : Option ℤ
  pub target3 : Option ℤ
  pub gtt_place_price : Option ℤ
  pub signal_at : ℕ
  pub gtt_placed_at : Option ℕ

-- `entry_rule_status` and `entry_order_id`, and so for the other legs.
pub record Leg : Type 0 where
  pub rule_status : Option String
  pub order_id : Option String

pub record Row : Type 0 where
  pub id : ℕ
  pub inserted : Columns
  pub status : String
  pub tracker_status : String
  pub gtt_order_ids : List String
  pub gtt_order_id : Option String
  pub entry_leg : Leg
  pub target_leg : Leg
  pub stoploss_leg : Leg
  pub entry_price : Option ℤ
  pub exit_price : Option ℤ
  pub pnl : Option ℤ
  pub upstox_gtt_status : Option String
  pub activated_at : Option ℕ
  pub resolved_at : Option ℕ
  pub last_event_at : ℕ
  pub notes : Option String

pub record Rule : Type 0 where
  pub strategy : String
  pub trigger_type : Option String
  pub trigger_price : Option ℤ
  pub transaction_type : Option String
  pub status : Option String
  pub order_id : Option String
  pub message : Option String

pub record RuleRow : Type 0 where
  pub signal_id : ℕ
  pub gtt_order_id : String
  pub rule : Rule

-- An order of the API or of the stream, with the fields that are read.
pub record OrderPayload : Type 0 where
  pub order_id : String
  pub status : String
  pub average_price : Option ℤ
  pub price : Option ℤ
  pub filled_quantity : Option ℤ
  pub pending_quantity : Option ℤ
  pub status_message : String
  pub status_message_raw : String
  pub instrument_key : Option String

pub record Trade : Type 0 where
  pub trade_id : Option String
  pub quantity : Option ℤ
  pub average_price : Option ℤ
  pub price : Option ℤ

pub record OrderRow : Type 0 where
  pub signal_id : Option ℕ
  pub strategy : Option String
  pub payload : OrderPayload

pub record TradeRow : Type 0 where
  pub signal_id : Option ℕ
  pub order_id : String
  pub trade : Trade

pub record PriceEvent : Type 0 where
  pub signal_id : ℕ
  pub event_type : String
  pub price : ℤ
  pub threshold : Option ℤ

pub record StatusCheck : Type 0 where
  pub signal_id : ℕ
  pub gtt_order_id : String
  pub upstox_status : String

pub record RawEvent : Type 0 where
  pub signal_id : Option ℕ
  pub update_type : String
  pub entity_id : Option String

pub record Tables : Type 0 where
  pub next_id : ℕ
  pub signals : List Row
  pub gtt_rules : List RuleRow
  pub order_updates : List OrderRow
  pub trade_executions : List TradeRow
  pub price_events : List PriceEvent
  pub gtt_status_checks : List StatusCheck
  pub upstox_events : List RawEvent

abbrev pub has_id : ℕ → Row → Bool
has_id id r = r.id == id

-- `UPDATE signals SET … WHERE id = …`.
unfoldable pub update_row : ℕ → (Row → Row) → List Row → List Row
update_row id f [] = []
update_row id f (r ∷ rs) = (if has_id id r then f r else r) ∷ update_row id f rs

abbrev pub update : ℕ → (Row → Row) → Tables → Tables
update id f t = record t { signals = update_row id f t.signals }

unfoldable pub insert_price_event : ℕ → String → ℤ → Option ℤ → Tables → Tables
insert_price_event id event_type price threshold t = record t {
  price_events =
      t.price_events
      ++ (record { signal_id = id; event_type = event_type; price = price; threshold = threshold }
          ∷ []);
}

unfoldable pub insert_gtt_status_check : ℕ → String → String → Tables → Tables
insert_gtt_status_check id gtt_order_id status t = record t {
  gtt_status_checks =
      t.gtt_status_checks
      ++ (record { signal_id = id; gtt_order_id = gtt_order_id; upstox_status = status } ∷ []);
}

unfoldable pub insert_order_update : Option ℕ → Option String → OrderPayload → Tables → Tables
insert_order_update id strategy payload t = record t {
  order_updates =
      t.order_updates ++ (record { signal_id = id; strategy = strategy; payload = payload } ∷ []);
}

unfoldable pub record_upstox_event : Option ℕ → String → Option String → Tables → Tables
record_upstox_event id update_type entity t = record t {
  upstox_events =
      t.upstox_events
      ++ (record { signal_id = id; update_type = update_type; entity_id = entity } ∷ []);
}

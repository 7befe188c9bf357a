-- ===== src/Database.antt =====
-- The PostgreSQL tables of gtt_v2/shared/db/migrations/001_initial.sql, as lists of rows in the
-- order of their ids. Rows are never deleted, so that foreign keys stay valid.
pub mod Signals
pub mod Rules
pub mod Orders
pub mod Writer
use upstox_gtt.Common.{ℕ, ℤ, Option, List, [], String, Bool}
use upstox_gtt.Signal.{Action, OptionType, Date, TradeType, Status, Strategy}
use upstox_gtt.Rules.Timing.{TimingReason}
use upstox_gtt.Rules.MissedEntry.{MissReason}

-- `signals.block_reason`: the text that the services write, by its parts.
pub data BlockReason : Type 0 where
  timing : TimingReason → BlockReason
  daily_pnl_limit no_targets instrument_not_found : BlockReason
  rr_ratio : ℤ → ℤ → BlockReason
  missed_entry : MissReason → BlockReason
  rate_limited no_gtt_ids_returned circuit_open max_retries stale_expiry : BlockReason
  upstox_reject : String → BlockReason
  entry_not_filled_target_hit : ℤ → ℤ → BlockReason

-- The dictionary that `insert_signal` takes.
pub record SignalData : Type 0 where
  pub redis_message_id : String
  pub signal_hash : Option String
  pub action : Action
  pub underlying : String
  pub strike : Option ℕ
  pub option_type : Option OptionType
  pub expiry : Option Date
  pub product : String
  pub quantity_lots : ℕ
  pub instrument_key : Option String
  pub entry_low_raw : ℤ
  pub entry_high_raw : Option ℤ
  pub stoploss_raw : ℤ
  pub targets_raw : List ℤ
  pub entry_low_adj : Option ℤ
  pub entry_high_adj : Option ℤ
  pub stoploss_adj : Option ℤ
  pub targets_adj : List ℤ
  pub trade_type : Option TradeType
  pub safe_only : Bool
  pub risk_only : Bool
  pub status : Status

-- A row of `signals`: what was inserted, and the columns that change later.
pub record SignalRow : Type 0 where
  pub id : ℕ
  pub inserted : SignalData
  pub status : Status
  pub block_reason : Option BlockReason
  pub gtt_order_ids : Option (List String)
  pub entry_price : Option ℤ
  pub exit_price : Option ℤ
  pub pnl : Option ℤ
  pub ltp_at_placement : Option ℤ
  pub entry_range_touched : Bool
  pub signal_at : ℕ
  pub activated_at : Option ℕ
  pub resolved_at : Option ℕ
  pub last_event_at : ℕ

-- A row of `gtt_rules`, and what an upsert of one is given.
pub record RuleData : Type 0 where
  pub signal_id : ℕ
  pub gtt_order_id : String
  pub strategy : Strategy
  pub trigger_type : Option String
  pub trigger_price : Option ℤ
  pub transaction_type : Option Action
  pub status : Option String
  pub order_id : Option String
  pub message : Option String

pub record OrderUpdate : Type 0 where
  pub signal_id : Option ℕ
  pub order_id : String
  pub status : String
  pub average_price : Option ℤ
  pub quantity : Option ℕ

pub record Trade : Type 0 where
  pub signal_id : Option ℕ
  pub order_id : String
  pub trade_id : Option String
  pub quantity : Option ℕ
  pub price : Option ℤ
  pub side : Action

pub data EventType : Type 0 where
  target_reached : ℕ → EventType
  stoploss_reached : EventType

pub record PriceEvent : Type 0 where
  pub signal_id : ℕ
  pub instrument_key : String
  pub ltp : ℤ
  pub event_type : EventType

pub record Tables : Type 0 where
  pub signals : List SignalRow
  pub next_id : ℕ
  pub gtt_rules : List RuleData
  pub order_updates : List OrderUpdate
  pub trade_executions : List Trade
  pub price_events : List PriceEvent

abbrev pub no_rows : Tables
no_rows = record {
  signals = [];
  next_id = 1;
  gtt_rules = [];
  order_updates = [];
  trade_executions = [];
  price_events = [];
}

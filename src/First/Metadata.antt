-- ===== src/First/Metadata.antt =====
-- gtt_strategy.py: what is stored of a signal that was handled, at once or through the queue of the worker.
-- A signal's summary is a text that is given.
use upstox_gtt.Common.{
  ℕ, zero, suc, ℤ, pos, Bool, Option, none, some, List, [], ◌∷◌, ◌++◌, String, str_eq,
  if◌then◌else◌, is_empty, get_or, ltb, length,
}
use upstox_gtt.First.Store.{Columns, Rule, Tables}
use upstox_gtt.First.Store.Signals.{insert_signal, update_tracker_fields}
use upstox_gtt.First.Store.Orders.{set_signal_gtt_order, upsert_gtt_rule}
use upstox_gtt.First.Signals.{Signal}
use upstox_gtt.First.Orders.{Payload, PayloadRule, given}

-- The arguments of `store_signal_metadata`; an empty signal is none.
pub record Metadata : Type 0 where
  pub message_id : String
  pub signal : Option Signal
  pub status : String
  pub gtt_ids : List String
  pub instrument_key : String
  pub ltp_at_placement : Option ℤ
  pub gtt_request_payload : Option Payload

-- The hash `gtt_metadata:{message_id}` of Redis, by what it says of the result.
pub record Hash : Type 0 where
  pub message_id : String
  pub status : String
  pub gtt_ids : List String

pub record Storage : Type 0 where
  pub redis_up : Bool
  pub hashes : List Hash
  pub tables : Tables

abbrev pub nth_target : ℕ → List ℤ → Option ℤ
nth_target n [] = none
nth_target zero (t ∷ ts) = some t
nth_target (suc n) (t ∷ ts) = nth_target n ts

abbrev pub if_given : Option ℤ → Option ℤ
if_given o = if given o then o else none

abbrev pub columns : (Signal → String) → Metadata → Signal → ℤ → ℤ → Columns
columns summary m s entry_low stoploss = record {
  redis_message_id = m.message_id;
  signal_summary = summary s;
  action = s.action;
  underlying = s.underlying;
  strike = s.strike;
  option_type = s.option_type;
  expiry = s.expiry;
  product = s.product;
  quantity = s.quantity;
  instrument_key = m.instrument_key;
  entry_low = entry_low;
  entry_high = if_given s.entry_high;
  stoploss = stoploss;
  target1 = nth_target 0 s.targets;
  target2 = nth_target 1 s.targets;
  target3 = nth_target 2 s.targets;
  gtt_place_price = m.ltp_at_placement;
  signal_at = 0;
  gtt_placed_at = none;
}

-- A rule of the payload, with the defaults of the row.
abbrev pub seeded : Payload → PayloadRule → Rule
seeded p r = record {
  strategy = r.strategy;
  trigger_type = some r.trigger_type;
  trigger_price = some r.trigger_price;
  transaction_type = some p.transaction_type;
  status = some "PENDING";
  order_id = none;
  message = some "";
}

unfoldable pub seed_rules : ℕ → ℕ → String → Payload → List PayloadRule → Tables → Tables
seed_rules now id gtt_id p [] t = t
seed_rules now id gtt_id p (r ∷ rs) t =
    seed_rules now id gtt_id p rs (upsert_gtt_rule now id gtt_id (seeded p r) t)

abbrev pub seed_payload : ℕ → ℕ → String → Option Payload → Tables → Tables
seed_payload now id gtt_id none t = t
seed_payload now id gtt_id (some p) t = seed_rules now id gtt_id p p.rules t

unfoldable pub link_gtts : ℕ → ℕ → List String → Option Payload → Tables → Tables
unfolding seed_rules
link_gtts now id [] p t = t
link_gtts now id (g ∷ gs) p t =
    link_gtts now id gs p (seed_payload now id g p (set_signal_gtt_order now id g t))

abbrev pub after_insert : ℕ → Metadata → Option ℕ × Tables → Tables
after_insert now m (none, t) = t
after_insert now m (some id, t) =
    if is_empty m.gtt_ids
    then t
    else update_tracker_fields now id (some "GTT_PLACED") none none
        (link_gtts now id m.gtt_ids m.gtt_request_payload t)

abbrev pub is_success : Metadata → Bool
is_success m = str_eq m.status "success"

-- The row of the signal: none without an entry, or where `float` of a missing stoploss raises.
abbrev pub store_row : (Signal → String) → ℕ → Metadata → Option Signal → Tables → Tables
store_row summary now m none t = t
store_row summary now m (some s) t =
    if given s.entry_low
    then elim s.stoploss [
      | none ↦ t
      | some stoploss ↦ after_insert now m (
          insert_signal now (columns summary m s (get_or (pos 0) s.entry_low) stoploss) m.gtt_ids
            (if is_success m then "PENDING" else "FAILED")
            (if is_success m then none else some m.status) t)
    ]
    else t

-- `store_signal_metadata`: where Redis fails the hash is lost, and the row is written all the same.
unfoldable pub store_signal_metadata : (Signal → String) → ℕ → Metadata → Storage → Storage
unfolding link_gtts
store_signal_metadata summary now m s = record {
  redis_up = s.redis_up;
  hashes =
      if s.redis_up
      then s.hashes
        ++ (record { message_id = m.message_id; status = m.status; gtt_ids = m.gtt_ids } ∷ [])
      else s.hashes;
  tables = store_row summary now m m.signal s.tables;
}

abbrev pub max_queue : ℕ
max_queue = 5000

-- `enqueue_signal_metadata`, and at once if the queue is not there or is full.
unfoldable pub enqueue_or_store :
    (Signal → String) → Bool → ℕ → Metadata → List Metadata × Storage → List Metadata × Storage
unfolding store_signal_metadata
enqueue_or_store summary async now m (queue, s) =
    if async
    then (if ltb (length queue) max_queue
        then (queue ++ m ∷ [], s)
        else (queue, store_signal_metadata summary now m s))
    else (queue, store_signal_metadata summary now m s)

-- A round of the worker: the first item of the queue.
unfoldable pub work : (Signal → String) → ℕ → List Metadata × Storage → List Metadata × Storage
unfolding store_signal_metadata
work summary now ([], s) = ([], s)
work summary now (m ∷ queue, s) = (queue, store_signal_metadata summary now m s)

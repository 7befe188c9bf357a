-- ===== src/Examples/Placing.antt =====
-- The first version: the placing of a signal, and the consumer of the stream.
use upstox_gtt.Common.{
  ℕ, ◌==◌, ◌≤◌, ◌<◌, ◌≡◌, ℤ, pos, ◌*ℤ◌, Bool, true, false, Option, none, some, List, [], ◌∷◌, ◌++◌,
  String, str_eq, if◌then◌else◌, refl, arith, to_int, map, length, All,
}
use upstox_gtt.First.Signals.{Signal}
use upstox_gtt.First.Instruments.{Item, LookupKey, InstrumentCache}
use upstox_gtt.First.Orders.{
  Reply, response, timeout, success, placed, Surroundings, place_gtt_order, build_payload,
}
use upstox_gtt.First.Orders.Posts.{Posts, Placed, place_gtt_order-Posts, place_gtt_order_placed}
use upstox_gtt.First.Store.{Tables}
use upstox_gtt.First.Metadata.{Storage}
use upstox_gtt.First.Consumer.{Config, Delivery, Consumer, tail, has_id, handle_all}
use upstox_gtt.First.Consumer.Once.{placed_count, handle_all_once}
use upstox_gtt.First.Consumer.Restarts.{Event, message, start, run_events, run_events_once}
use upstox_gtt.First.Consumer.Tail.{Step, between, call, advance_all, at_tail, tail_misses}

abbrev signal : Signal
signal = record {
  action = "BUY";
  underlying = "NIFTY";
  strike = some (pos 22500);
  option_type = "CE";
  entry_low = some (pos 1_500_000);
  entry_high = none;
  stoploss = some (pos 1_400_000);
  targets = pos 1_800_000 ∷ pos 2_000_000 ∷ [];
  expiry = "2025-10-28";
  product = "I";
  quantity = pos 2;
}

abbrev item : Item
item = record {
  segment = "NSE_FO";
  instrument_type = "CE";
  underlying_symbol = "NIFTY";
  strike_price = some (pos 22500);
  expiry = some "2025-10-28";
  instrument_key = "NSE_FO|1";
  lot_size = some (pos 75);
}

abbrev key : LookupKey
key = record { underlying = "NIFTY"; strike = pos 22500; option_type = "CE"; expiry = "2025-10-28" }

abbrev cache : InstrumentCache
cache = record { option_index = (key, item) ∷ []; loaded = true }

abbrev surroundings : Surroundings
surroundings = record {
  getenv = λ k. "";
  parse_expiry_date = some;
  download = none;
  fetch_ltp_after_placement = false;
  fetch_ltp = λ k. none;
}

-- The first attempt times out.
abbrev slow : ℕ → Reply
slow k = if k == 0 then timeout else response 200 (success (some ("GTT-1" ∷ [])))

posted :
    (place_gtt_order surroundings slow signal cache).result
    ≡ placed (some ("GTT-1" ∷ [])) "NSE_FO|1" none (build_payload signal "NSE_FO|1" (pos 150))
unfolding place_gtt_order upstox_gtt.First.Orders.missing upstox_gtt.First.Orders.post_attempts
    upstox_gtt.First.Orders.next_attempt upstox_gtt.First.Instruments.find_instrument
    upstox_gtt.First.Instruments.resolve_env_lot_size upstox_gtt.First.Instruments.lookup
    upstox_gtt.Common.upper upstox_gtt.Common.before upstox_gtt.Common.◌*ℤ◌
posted = refl

place_gtt_order-Posts_example :
    Posts surroundings signal cache (place_gtt_order surroundings slow signal cache)
place_gtt_order-Posts_example = place_gtt_order-Posts surroundings slow signal cache

place_gtt_order_placed_example :
    Placed slow (some ("GTT-1" ∷ [])) (place_gtt_order surroundings slow signal cache)
place_gtt_order_placed_example =
    place_gtt_order_placed surroundings slow signal cache (some ("GTT-1" ∷ [])) "NSE_FO|1" none
      (build_payload signal "NSE_FO|1" (pos 150)) posted

abbrev no_rows : Tables
no_rows = record {
  next_id = 1;
  signals = [];
  gtt_rules = [];
  order_updates = [];
  trade_executions = [];
  price_events = [];
  gtt_status_checks = [];
  upstox_events = [];
}

abbrev storage : Storage
storage = record { redis_up = true; hashes = []; tables = no_rows }

abbrev config : Config
config = record {
  delimiter = "|";
  strict = false;
  to_float = to_int;
  default_quantity = pos 4;
  async_metadata = true;
  summary = λ s. s.underlying;
  id_text = λ n. "1-0";
  surroundings = surroundings;
}

abbrev delivery : Delivery
delivery = record {
  id = 7;
  fields = ("message", "ENTRY|NIFTY|22500CE|150|155|140|180|2025-10-28|2") ∷ [];
  net = slow;
  zscore_ok = true;
  tracked = 3;
  now = 1;
}

abbrev consumer : Consumer
consumer = record {
  last_id = tail;
  processed_ids = [];
  zset = [];
  last_key = none;
  cache = cache;
  placements = [];
  queue = [];
  storage = storage;
}

handle_all_once_example :
    placed_count 7 (handle_all config (delivery ∷ delivery ∷ []) consumer).placements ≤ 1
handle_all_once_example = handle_all_once config 7 (delivery ∷ delivery ∷ []) consumer refl

abbrev again : List (Event config)
again = message delivery ∷ start "resume" cache ∷ message delivery ∷ []

run_events_once_example : placed_count 7 (run_events config again consumer).placements ≤ 1
run_events_once_example =
    run_events_once config 7 again consumer refl ((refl, omega arith), ((refl, omega arith), tt))
      (omega arith)

-- The message 3 comes between two calls; 4 is added during the second one.
abbrev later : List Step
later = call (4 ∷ []) ∷ call (5 ∷ []) ∷ []

tail_misses_example :
    All
      (λ m.
        has_id m (advance_all (between (3 ∷ []) ∷ later) (at_tail (1 ∷ 2 ∷ []))).delivered ≡ false)
      (3 ∷ [])
tail_misses_example =
    tail_misses 3 (3 ∷ []) later (1 ∷ 2 ∷ []) (omega arith, tt)
      ((omega arith, tt), ((omega arith, tt), tt))

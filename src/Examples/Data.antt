-- ===== src/Examples/Data.antt =====
-- The signal, the tables and the engine that the tests share.
use upstox_gtt.Common.{ℕ, ◌+◌, ◌*◌, ℤ, pos, Bool, true, false, none, some, [], ◌∷◌, String}
use upstox_gtt.Signal.{buy, ce, RawSignal, Date, safe, pending}
use upstox_gtt.Rules.PnlGuard.{Limits, Ledger}
use upstox_gtt.Client.{Attempt, Reply, response, json, closed}
use upstox_gtt.Database.{SignalData, no_rows, Trade}
use upstox_gtt.Instruments.{Instrument, Cache}
use upstox_gtt.GttBuilder.{LotEnv}
use upstox_gtt.Engine.State.{reachable, Settings, SignalKey, Surroundings, Engine}

abbrev pub expiry_day : Date
expiry_day = record { year = 2025; month = 10; day = 28 }

-- NIFTY 22500 CE, to be bought between 150 and 155, with the stoploss 140.
abbrev pub nifty : RawSignal
nifty = record {
  action = buy;
  underlying = "NIFTY";
  strike = some 22500;
  option_type = some ce;
  expiry = some expiry_day;
  product = "I";
  entry_low = pos 15000;
  entry_high = some (pos 15500);
  average_level = none;
  stoploss = pos 14000;
  targets = pos 18000 ∷ pos 20000 ∷ [];
  quantity_lots = 1;
  safe_only = false;
  risk_only = false;
  trade_type = none;
  redis_message_id = "1-0";
  signal_hash = none;
  instrument_key = none;
}

-- Ten o'clock in India on the first day of the epoch, a Thursday.
abbrev pub ten : ℕ
ten = 16_200_000

abbrev pub limits : Limits
limits = record { env_capital = pos 5000000; limit_pct = 500 }

abbrev pub new_ledger : Ledger
new_ledger = record {
  pnl_limit = λ d. none;
  daily_pnl = λ d. none;
  daily_capital = λ d. none;
  table = λ d. none;
}

abbrev pub option_of_nifty : Instrument
option_of_nifty = record {
  segment = "NSE_FO";
  instrument_type = some ce;
  underlying_symbol = "NIFTY";
  strike_price = some 22500;
  expiry = some expiry_day;
  instrument_key = "NSE_FO|1";
  lot_size = some 75;
}

abbrev pub loaded : Cache
loaded = record {
  local_ =
      (
        record {
          underlying = "NIFTY";
          strike = 22500;
          opt_type = some ce;
          expiry = some expiry_day;
        },
        option_of_nifty,
      )
      ∷ [];
  index = [];
  stored = [];
}

abbrev pub no_lots : LotEnv
no_lots = record { plain = λ u. none; with_ce = λ u. none }

abbrev pub settings : Settings
settings = record {
  dry_run = false;
  trader_profile = safe;
  default_quantity = 1;
  limits = limits;
  lots = no_lots;
}

-- Every request is met by the reply `r`, a second after it was sent.
abbrev pub always {ℓ} : {J : Type ℓ} → Reply J → ℕ → Attempt J
always r k = record { asked = ten + k * 1000; answered = ten + k * 1000 + 1000; reply = r }

abbrev pub morning : Surroundings
morning = record {
  now = ten;
  net = always (response 200 (json ("GTT-1" ∷ [])));
  database = reachable;
  trace_id = "DRY";
}

abbrev pub fresh : Engine
fresh = record {
  ledger = new_ledger;
  buckets = λ k. none;
  prices = λ k. none;
  tables = no_rows;
  queue = [];
  circuit = closed;
  cache = loaded;
  sent = [];
  subscribed = [];
}

-- Stand-ins for SHA-256 and for `round` at a half.
abbrev pub digest : SignalKey → String
digest k = k.underlying

abbrev pub half_up : ℤ → Bool
half_up s = true

-- A row to insert.
abbrev pub row_data : String → String → SignalData
row_data message hash = record {
  redis_message_id = message;
  signal_hash = some hash;
  action = buy;
  underlying = "NIFTY";
  strike = some 22500;
  option_type = some ce;
  expiry = some expiry_day;
  product = "I";
  quantity_lots = 1;
  instrument_key = none;
  entry_low_raw = pos 15000;
  entry_high_raw = none;
  stoploss_raw = pos 14000;
  targets_raw = pos 18000 ∷ [];
  entry_low_adj = none;
  entry_high_adj = none;
  stoploss_adj = none;
  targets_adj = [];
  trade_type = none;
  safe_only = false;
  risk_only = false;
  status = pending;
}

abbrev pub trade_of : ℕ → ℕ → Trade
trade_of price quantity = record {
  signal_id = some 1;
  order_id = "O1";
  trade_id = none;
  quantity = some quantity;
  price = some (pos price);
  side = buy;
}

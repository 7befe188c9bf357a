-- ===== src/Examples/Instruments.antt =====
-- An option that is loaded twice, the second time under another instrument key.
use upstox_gtt.Common.{some, []}
use upstox_gtt.Signal.{ce}
use upstox_gtt.Instruments.{Instrument, IndexKey, Cache}
use upstox_gtt.Examples.Data.{option_of_nifty, expiry_day}

abbrev newer : Instrument
newer = record option_of_nifty { instrument_key = "NSE_FO|2" }

abbrev nifty_key : IndexKey
nifty_key = record {
  underlying = "NIFTY";
  strike = 22500;
  opt_type = some ce;
  expiry = some expiry_day;
}

abbrev empty : Cache
empty = record { local_ = []; index = []; stored = [] }

-- Another option, loaded after it.
abbrev other_strike : Instrument
other_strike = record option_of_nifty { instrument_key = "NSE_FO|3"; strike_price = some 22600 }

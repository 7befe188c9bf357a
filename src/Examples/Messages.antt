-- ===== src/Examples/Messages.antt =====
-- Messages of the stream: their reading, and the batches of the engine.
use upstox_gtt.Common.{
  ℕ, ◌≤◌, ◌≡◌, ℤ, pos, ◌*ℤ◌, Option, none, some, List, [], ◌∷◌, String, refl, arith, to_int, All,
  false,
}
use upstox_gtt.Signal.{Date, RawSignal, IsValid, validate_prices, buy, ce}
use upstox_gtt.Signal.Parser.{Message, parse_message_to_signal}
use upstox_gtt.Signal.Parser.Accepted.{parse_message_to_signal-IsValid}
use upstox_gtt.Signal.Parser.Template.{
  Template, parts, IsPart, IsWritten, template_signal, line, parse_message_to_signal-line,
}
use upstox_gtt.Engine.Loop.{Delivery, Progress, Reader}
use upstox_gtt.Engine.Loop.Batch.{orders_of}
use upstox_gtt.Engine.Loop.Runs.{Event, batch, restart, run, run_three_posts}
use upstox_gtt.Engine.State.{lost_after}
use upstox_gtt.Examples.Data.{nifty, settings, morning, fresh, digest, half_up, expiry_day}

-- Whole rupees, in hundredths.
abbrev pub rupees : String → Option ℤ
rupees s = elim (to_int s) [ none ↦ none | some n ↦ some (n *ℤ pos 100) ]

abbrev pub some_day : String → Option Date
some_day s = some expiry_day

abbrev structured : Message
structured =
    ("action", "buy")
    ∷ ("instrument", "NIFTY")
    ∷ ("strike", "22500")
    ∷ ("option_type", "CE")
    ∷ ("expiry", "2026-04-02")
    ∷ ("entry_low", "100")
    ∷ ("stoploss", "90")
    ∷ ("targets", "130 / 140")
    ∷ []

abbrev pub read_signal : RawSignal
read_signal = record nifty {
  entry_low = pos 10_000;
  entry_high = none;
  average_level = none;
  stoploss = pos 9_000;
  targets = pos 13_000 ∷ pos 14_000 ∷ [];
  product = "I";
  quantity_lots = 2;
  redis_message_id = "1-0";
  trade_type = none;
  signal_hash = none;
  instrument_key = none;
}

structured_read :
    parse_message_to_signal rupees some_day (pos 2) structured "1-0" ≡ some read_signal
unfolding upstox_gtt.Signal.Parser.parse_message_to_signal
    upstox_gtt.Signal.Parser.parse_strict_template upstox_gtt.Signal.Parser.parse_fields
    upstox_gtt.Signal.Parser.template_text upstox_gtt.Signal.Parser.get
    upstox_gtt.Signal.Parser.read_parts upstox_gtt.Signal.Parser.option_match
    upstox_gtt.Signal.Parser.all_of upstox_gtt.Signal.validate_prices upstox_gtt.Common.lstrip
    upstox_gtt.Common.rstrip upstox_gtt.Common.strip upstox_gtt.Common.upper
    upstox_gtt.Common.starts upstox_gtt.Common.split upstox_gtt.Common.digits
    upstox_gtt.Common.to_int upstox_gtt.Common.◌*ℤ◌
structured_read = refl

parse_message_to_signal-IsValid_example :
    IsValid read_signal × (read_signal.redis_message_id ≡ "1-0")
parse_message_to_signal-IsValid_example =
    parse_message_to_signal-IsValid rupees some_day (pos 2) structured "1-0" read_signal
      structured_read

-- The example of the source's comment, on another day.
abbrev template : Template
template = record {
  verb = "ENTRY";
  underlying = "NIFTY";
  option = "22500CE";
  low = "100";
  high = "110";
  stop = "90";
  goal = "130";
  expiry = "2025-10-28";
  lots = "2";
}

abbrev template_meaning : RawSignal
template_meaning = record read_signal { entry_high = some (pos 11_000); targets = pos 13_000 ∷ [] }

written : IsWritten rupees some_day template template_meaning
unfolding upstox_gtt.Signal.Parser.option_match upstox_gtt.Common.upper upstox_gtt.Common.lstrip
    upstox_gtt.Common.rstrip upstox_gtt.Common.strip upstox_gtt.Common.digits
    upstox_gtt.Common.to_int upstox_gtt.Common.◌*ℤ◌
written = record {
  verb = refl;
  underlying = refl;
  strike = 22500;
  option_type = ce;
  strike_set = refl;
  option_type_set = refl;
  option = refl;
  low = refl;
  entry_high = pos 11_000;
  high_set = refl;
  high_given = refl;
  high = refl;
  stop = refl;
  goal_price = pos 13_000;
  targets_set = refl;
  goal = refl;
  expiry = refl;
  lots_given = refl;
  lots = refl;
  lots_pos = omega arith;
}

clean : All IsPart (template.verb ∷ parts template)
unfolding upstox_gtt.Common.lstrip upstox_gtt.Common.rstrip upstox_gtt.Common.strip
clean = ground arith

parse_message_to_signal-line_example :
    parse_message_to_signal rupees some_day (pos 2) (("message", line template) ∷ structured) "1-0"
    ≡ validate_prices (template_signal template_meaning "1-0")
parse_message_to_signal-line_example =
    parse_message_to_signal-line rupees some_day (pos 2) template template_meaning structured "1-0"
      clean written

abbrev reader : Reader
reader = record { to_float = rupees; parse_expiry_date = some_day; default = pos 1 }

abbrev delivery : Delivery
delivery = record { id = "1-0"; fields = structured; env = morning }

abbrev cut_off : Delivery
cut_off = record delivery { env = record morning { database = lost_after } }

abbrev start : Progress
start = record { engine = fresh; acked = [] }

-- The message is left pending when the connection is lost after the insert, reclaimed after a restart, and delivered again.
abbrev outage : List Event
outage = batch (cut_off ∷ []) ∷ restart fresh (delivery ∷ []) ∷ batch (delivery ∷ []) ∷ []

run_three_posts_example :
    orders_of "NIFTY" (run settings half_up digest reader outage start).engine.sent ≤ 3
run_three_posts_example = run_three_posts settings half_up digest reader outage start "NIFTY" refl

-- ===== src/Examples/Ingest.antt =====
-- Messages of Telegram: their noise and flags, a message that comes twice, and what the engine reads.
use upstox_gtt.Common.{
  ℕ, ◌≤◌, ◌≡◌, ℤ, pos, negsuc, Bool, true, false, Option, none, some, List, [], ◌∷◌, String, refl,
  arith, if◌then◌else◌, eqb_ℤ,
}
use upstox_gtt.Signal.{RawSignal}
use upstox_gtt.Signal.Parser.{parse_message_to_signal}
use upstox_gtt.Ingestor.{
  MessageKey, TradingSignal, Answer, found, Ingestor, Delivery, should_skip, mentions, safe_only_re,
  risk_only_re, payload, handle_messages,
}
use upstox_gtt.Ingestor.Once.{published, handle_messages_once}
use upstox_gtt.Ingestor.Read.{Flagged, ingested_flags}
use upstox_gtt.Examples.Messages.{rupees, some_day, read_signal}

noise : should_skip "Nifty: sl hit" ≡ true
unfolding should_skip upstox_gtt.Ingestor.within upstox_gtt.Common.upper upstox_gtt.Common.starts
noise = refl

safe : mentions safe_only_re "For Safe  Traders: buy" ≡ true
unfolding mentions upstox_gtt.Ingestor.search upstox_gtt.Ingestor.match_at
    upstox_gtt.Ingestor.phrase upstox_gtt.Ingestor.drop_prefix upstox_gtt.Common.upper
    upstox_gtt.Common.starts upstox_gtt.Common.lstrip
safe = refl

-- A word that only begins like one of the expression.
no_edge : mentions risk_only_re "JACKPOTS" ≡ false
unfolding mentions upstox_gtt.Ingestor.search upstox_gtt.Ingestor.match_at
    upstox_gtt.Ingestor.phrase upstox_gtt.Ingestor.drop_prefix upstox_gtt.Common.upper
    upstox_gtt.Common.starts upstox_gtt.Common.lstrip
no_edge = refl

abbrev show_price : ℤ → String
show_price p =
    if eqb_ℤ p (pos 10_000)
    then "100"
    else if eqb_ℤ p (pos 9_000)
    then "90"
    else if eqb_ℤ p (pos 13_000)
    then "130"
    else "140"

abbrev show_int : ℤ → String
show_int n = "7"

abbrev trading_signal : TradingSignal
trading_signal = record {
  action = "BUY";
  instrument = "NIFTY";
  strike = "22500";
  option_type = "CE";
  entry_price = some (pos 10_000, pos 10_000);
  stoploss = some (pos 9_000);
  targets = pos 13_000 ∷ pos 14_000 ∷ [];
  expiry = some "2026-04-02";
}

abbrev key : MessageKey
key = record { chat_id = negsuc 99; msg_id = 7 }

abbrev at : ℕ → Delivery
at now = record { now = now; key = key; text = "BUY NIFTY 22500 CE, safe traders"; trace_id = "t" }

abbrev quiet : Ingestor
quiet = record { seen = []; contexts = []; stream = []; parsed = [] }

abbrev parse : String → Answer
parse text = found trading_signal

abbrev twice : List Delivery
twice = at 1_000 ∷ at 5_000 ∷ []

sent_once : published key (handle_messages parse show_price show_int twice quiet).stream ≡ 1
unfolding published handle_messages upstox_gtt.Ingestor.handle_message should_skip
    upstox_gtt.Ingestor.within upstox_gtt.Ingestor.context_of upstox_gtt.Ingestor.take
    upstox_gtt.Common.upper upstox_gtt.Common.starts upstox_gtt.Common.lstrip
    upstox_gtt.Common.rstrip upstox_gtt.Common.strip
sent_once = refl

handle_messages_once_example :
    published key (handle_messages parse show_price show_int twice quiet).stream ≤ 1
handle_messages_once_example =
    handle_messages_once parse show_price show_int 5_000 key twice quiet
      ((omega arith, omega arith), ((omega arith, omega arith), tt)) refl

abbrev ingested : RawSignal
ingested = record read_signal { safe_only = true }

ingested_read :
    parse_message_to_signal rupees some_day
      (pos 2)
      (payload show_price show_int (at 1_000) trading_signal)
      "1-0"
    ≡ some ingested
unfolding mentions upstox_gtt.Ingestor.search upstox_gtt.Ingestor.match_at
    upstox_gtt.Ingestor.phrase upstox_gtt.Ingestor.drop_prefix upstox_gtt.Common.join
    upstox_gtt.Common.before upstox_gtt.Signal.Parser.parse_message_to_signal
    upstox_gtt.Signal.Parser.parse_strict_template upstox_gtt.Signal.Parser.parse_fields
    upstox_gtt.Signal.Parser.template_text upstox_gtt.Signal.Parser.get
    upstox_gtt.Signal.Parser.read_parts upstox_gtt.Signal.Parser.option_match
    upstox_gtt.Signal.Parser.all_of upstox_gtt.Signal.validate_prices upstox_gtt.Common.lstrip
    upstox_gtt.Common.rstrip upstox_gtt.Common.strip upstox_gtt.Common.upper
    upstox_gtt.Common.starts upstox_gtt.Common.split upstox_gtt.Common.digits
    upstox_gtt.Common.to_int upstox_gtt.Common.◌*ℤ◌
ingested_read = refl

ingested_flags_example : Flagged (at 1_000).text ingested
ingested_flags_example =
    ingested_flags show_price show_int rupees some_day (pos 2) (at 1_000) trading_signal "1-0"
      ingested ingested_read

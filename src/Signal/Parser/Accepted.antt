-- ===== src/Signal/Parser/Accepted.antt =====
-- What the reader of messages accepts.
use upstox_gtt.Common.{ℤ, ◌≡◌, Option, some, String, sym, ap}
use upstox_gtt.Signal.{Date, RawSignal, IsValid, validate_prices-IsValid}
use upstox_gtt.Signal.Parser.{
  Message, Reading, read, no_match, raised, checked, or_fields, parse_strict_template,
  template_text, parse_message_to_signal,
}

checked-IsValid :
    (id : String) (r : Reading RawSignal) (s : RawSignal)
    → checked id r ≡ some s
    → IsValid s × (s.redis_message_id ≡ id)
checked-IsValid id (read t) s h =
    let (valid, same) = validate_prices-IsValid (record t { redis_message_id = id }) s h in
    (valid, ap (λ u. u.redis_message_id) (sym same))
checked-IsValid id no_match s h = cc
checked-IsValid id raised s h = cc

-- Whatever a message holds, in a template or in fields, if `float` reads each price text as a finite number
-- or raises, a signal that is read from it is valid: it has at
-- least one lot, and its stoploss is below the entry for a BUY and above it for a SELL; and it carries
-- the message's id.
pub parse_message_to_signal-IsValid :
    (to_float : String → Option ℤ) (parse_expiry_date : String → Option Date) (default : ℤ)
    (m : Message) (id : String) (s : RawSignal)
    → parse_message_to_signal to_float parse_expiry_date default m id ≡ some s
    → IsValid s × (s.redis_message_id ≡ id)
unfolding parse_message_to_signal
parse_message_to_signal-IsValid to_float parse_expiry_date default m id s h =
    checked-IsValid id
      (or_fields to_float parse_expiry_date default m
        (parse_strict_template to_float parse_expiry_date default (template_text m)))
      s h

-- ===== src/First/Signals.antt =====
-- gtt_strategy.py: the reading of messages. Every field of a message is a text; what `float` and `parse_expiry_date` answer is given.
use Prim.Native.Char.{Char}
use upstox_gtt.Common.{
  ℤ, pos, Bool, false, not, ◌&&◌, ◌||◌, Option, none, some, List, [], ◌∷◌, String, str_eq,
  if◌then◌else◌, is_blank, strip, upper, starts, split, to_int, map, get_or, keep, leb_ℤ,
}
use upstox_gtt.Signal.{ce, pe, OptionType}
use upstox_gtt.Signal.Parser.{
  Message, get, field, template_text, option_match, Reading, read, no_match, ◌>>=◌, ◌>>◌, or_raise,
  or_none, raise_if, optional, all_of, lots_of, action_text,
}

-- The signal's dictionary, but for its summary, which is only logged and stored.
pub record Signal : Type 0 where
  pub action : String
  pub underlying : String
  pub strike : Option ℤ
  pub option_type : String
  pub entry_low : Option ℤ
  pub entry_high : Option ℤ
  pub stoploss : Option ℤ
  pub targets : List ℤ
  pub expiry : String
  pub product : String
  pub quantity : ℤ

abbrev pub verb_action : String → Option String
verb_action v =
    if str_eq v "ENTRY" || str_eq v "SIGNAL"
    then some "BUY"
    else if str_eq v "BUY" || str_eq v "SELL"
    then some v
    else none

abbrev pub option_text : OptionType → String
option_text ce = "CE"
option_text pe = "PE"

module _ (to_float : String → Option ℤ) (default : ℤ) where
  -- `parse_strict_template` from the option on, with the parts after the first.
  unfoldable pub read_parts : String → List String → Reading Signal
  unfolding option_match upper
  read_parts action (underlying ∷ option ∷ low ∷ high ∷ stop ∷ target ∷ expiry ∷ more) = do
    (strike, option_type) ← or_none (option_match false 0 (upper option))
    lots ← lots_of default more
    raise_if (leb_ℤ lots (pos 0))
    entry_low ← or_raise (to_float low)
    entry_high ← or_raise (to_float high)
    stoploss ← or_raise (to_float stop)
    t ← or_raise (to_float target)
    read (record {
      action = action;
      underlying = upper underlying;
      strike = some (pos strike);
      option_type = option_text option_type;
      entry_low = some entry_low;
      entry_high = some entry_high;
      stoploss = some stoploss;
      targets = t ∷ [];
      expiry = expiry;
      product = "I";
      quantity = lots;
    })
  read_parts action _ = no_match

  abbrev pub read_template : List String → Reading Signal
  read_template [] = no_match
  read_template (verb ∷ parts) = do
    action ← or_none (verb_action (upper verb))
    read_parts action parts

  -- `parse_strict_template`; the delimiter is a setting.
  unfoldable pub parse_strict_template : Char → String → Reading Signal
  unfolding read_parts split strip upper
  parse_strict_template delimiter text =
      if is_blank text then no_match else read_template (map strip (split delimiter text))

  -- The structured fields.
  unfoldable pub parse_fields : Message → Reading Signal
  unfolding get upper starts split all_of to_int
  parse_fields m = do
    strike ← optional to_int (field "strike" m)
    low ← optional to_float (field "entry_low" m)
    high ← optional to_float (field "entry_high" m)
    stop ← optional to_float (field "stoploss" m)
    targets ←
        all_of to_float (keep (λ t. not (is_blank t)) (map strip (split "/" (field "targets" m))))
    lots ←
        (if is_blank (field "quantity" m)
          then read default
          else or_raise (to_int (field "quantity" m)))
    raise_if (leb_ℤ lots (pos 0))
    read (record {
      action = action_text m;
      underlying = upper (get_or (field "underlying" m) (get "instrument" m));
      strike = strike;
      option_type = upper (field "option_type" m);
      entry_low = low;
      entry_high = high;
      stoploss = stop;
      targets = targets;
      expiry = field "expiry" m;
      product = upper (get_or "I" (get "product" m));
      quantity = lots;
    })

  abbrev pub answer : Reading Signal → Option Signal
  answer (read s) = some s
  answer _ = none

  -- A text that is no template ends the reading only if the strict template is required.
  abbrev pub or_fields : Bool → Message → Reading Signal → Option Signal
  or_fields strict m no_match =
      if strict && not (is_blank (template_text m)) then none else answer (parse_fields m)
  or_fields strict m r = answer r

  -- `parse_message_to_signal`.
  unfoldable pub parse_message_to_signal : Char → Bool → Message → Option Signal
  unfolding parse_strict_template parse_fields template_text
  parse_message_to_signal delimiter strict m =
      or_fields strict m (parse_strict_template delimiter (template_text m))

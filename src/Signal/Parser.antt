-- ===== src/Signal/Parser.antt =====
-- gtt_v2/shared/signal/parser.py: the reading of a message of the stream. Redis gives every field of
-- a message as a text. What `float` and `parse_expiry_date` answer is given, for texts
-- other than those of nan and infinity: prices are whole
-- hundredths here, and dates are read by the rules of `strptime`.
pub mod Accepted
pub mod Template
use Prim.Native.Char.{Char, code}
use upstox_gtt.Common.{
  ℕ, ◌+◌, ◌-◌, ◌*◌, ℤ, pos, pos_part, Bool, true, false, ◌||◌, Option, none, some, List, [], ◌∷◌,
  String, str_eq, if◌then◌else◌, is_blank, strip, upper, starts, split, digits, to_int, map, leb_ℤ,
  get_or, keep, not, ◌==◌, leb, ◌&&◌,
}
use upstox_gtt.Signal.{Action, buy, sell, OptionType, ce, pe, Date, RawSignal, validate_prices}

abbrev pub Message : Type 0
Message = List (String × String)

-- `raw.get(k)`.
unfoldable pub get : String → Message → Option String
get k [] = none
get k ((j, v) ∷ m) = if str_eq k j then some v else get k m

-- `raw.get(k, "")`, and `raw.get(k) or None`: an empty text counts as no field.
abbrev pub field : String → Message → String
field k m = get_or "" (get k m)

abbrev pub first_text : String → String → String
first_text a b = if is_blank a then b else a

-- The text of the template: the first of three fields that is not empty.
unfoldable pub template_text : Message → String
unfolding get
template_text m =
    first_text (field "message" m) (first_text (field "signal_template" m) (field "signal" m))

-- `_OPTION_RE.match`: digits, then CE or PE.
abbrev pub option_suffix : String → Option OptionType
option_suffix s = if str_eq s "CE" then some ce else if str_eq s "PE" then some pe else none

abbrev pub with_strike : ℕ → Option OptionType → Option (ℕ × OptionType)
with_strike n none = none
with_strike n (some t) = some (n, t)

abbrev is_digit : Char → Bool
is_digit c = leb b'0' (code c) && leb (code c) b'9'

unfoldable pub option_match : Bool → ℕ → String → Option (ℕ × OptionType)
option_match some_digit n String.[] = none
option_match some_digit n (String.◌∷◌ c s) =
    let rest = option_match true (n * 10 + (code c - b'0')) s in
    if is_digit c
    then rest
    else if some_digit
    then with_strike n (option_suffix (String.◌∷◌ c s))
    else none

-- What a reader answers: a value, `None`, or an exception.
pub data Reading {ℓ} (A : Type ℓ) : Type ℓ where
  read : A → Reading A
  no_match raised : Reading A

abbrev pub verb_action : String → Option Action
verb_action v =
    if str_eq v "ENTRY" || str_eq v "SIGNAL" || str_eq v "BUY"
    then some buy
    else if str_eq v "SELL"
    then some sell
    else none

-- The defaults of a `RawSignal`.
abbrev pub blank_signal : Action → String → ℤ → ℤ → RawSignal
blank_signal action underlying entry_low stoploss = record {
  action = action;
  underlying = underlying;
  strike = none;
  option_type = none;
  expiry = none;
  product = "D";
  entry_low = entry_low;
  entry_high = none;
  average_level = none;
  stoploss = stoploss;
  targets = [];
  quantity_lots = 1;
  safe_only = false;
  risk_only = false;
  trade_type = none;
  redis_message_id = "";
  signal_hash = none;
  instrument_key = none;
}

infixl 5 ◌>>=◌ ◌>>◌
abbrev pub ◌>>=◌ {ℓ κ} : {A : Type ℓ} {B : Type κ} → Reading A → (A → Reading B) → Reading B
read a >>= f = f a
no_match >>= f = no_match
raised >>= f = raised

abbrev pub ◌>>◌ {ℓ} : {B : Type ℓ} → Reading (Unit {0}) → Reading B → Reading B
m >> k = m >>= λ _. k

-- An answer or an exception; an answer or `None`.
abbrev pub or_raise {ℓ} : {A : Type ℓ} → Option A → Reading A
or_raise none = raised
or_raise (some a) = read a

abbrev pub or_none {ℓ} : {A : Type ℓ} → Option A → Reading A
or_none none = no_match
or_none (some a) = read a

abbrev pub raise_if : Bool → Reading (Unit {0})
raise_if true = raised
raise_if false = read tt

-- `f(x) if x else None`, where `f` may raise.
abbrev pub optional {ℓ} : {A : Type ℓ} → (String → Option A) → String → Reading (Option A)
optional f s = if is_blank s then read none else (or_raise (f s) >>= λ a. read (some a))

-- `[f(x) for x in xs]`.
unfoldable pub all_of {ℓ} : {A : Type ℓ} → (String → Option A) → List String → Reading (List A)
all_of f [] = read []
all_of f (x ∷ xs) = do a ← or_raise (f x); rest ← all_of f xs; read (a ∷ rest)

-- `str(x).lower() in ("1", "true", "yes")`, compared in upper case.
abbrev pub is_yes : String → Bool
is_yes s = let t = upper s in str_eq t "1" || str_eq t "TRUE" || str_eq t "YES"

-- The ninth part of a template is the number of lots, if there is one.
abbrev pub lots_of : ℤ → List String → Reading ℤ
lots_of d [] = read d
lots_of d (q ∷ more) = if is_blank q then read d else or_raise (to_int q)

-- The action of a structured message, by its field or the first word of its text.
abbrev pub action_text : Message → String
action_text m =
    let action = upper (field "action" m) in
    let msg = upper (field "message" m) in
    if not (is_blank action)
    then action
    else if starts msg "BUY"
    then "BUY"
    else if starts msg "SELL"
    then "SELL"
    else ""

abbrev pub to_action : String → Option Action
to_action a = if str_eq a "BUY" then some buy else if str_eq a "SELL" then some sell else none

-- `validate_option_type`, of `str(…).upper() or None`.
abbrev pub to_option_type : String → Reading (Option OptionType)
to_option_type t =
    if is_blank t then read none else (or_raise (option_suffix t) >>= λ o. read (some o))

-- `raw.get("instrument", raw.get("underlying", ""))`.
abbrev pub underlying_text : Message → String
underlying_text m = upper (get_or (field "underlying" m) (get "instrument" m))

-- `RawSignal(**parsed)`: the signal with the message's id, checked.
abbrev pub checked : String → Reading RawSignal → Option RawSignal
checked id (read s) = validate_prices (record s { redis_message_id = id })
checked id _ = none

module _ (to_float : String → Option ℤ) (parse_expiry_date : String → Option Date)
    (default : ℤ) where
  -- `parse_strict_template` from the option on, with the parts after the first.
  unfoldable pub read_parts : Action → List String → Reading RawSignal
  unfolding option_match
  read_parts action (underlying ∷ option ∷ low ∷ high ∷ stop ∷ target ∷ expiry ∷ more) = do
    (strike, option_type) ← or_none (option_match false 0 (upper option))
    lots ← lots_of default more
    raise_if (leb_ℤ lots (pos 0))
    entry_low ← or_raise (to_float low)
    entry_high ← optional to_float high
    stoploss ← or_raise (to_float stop)
    t ← or_raise (to_float target)
    read (record (blank_signal action (upper underlying) entry_low stoploss) {
      strike = some strike;
      option_type = some option_type;
      expiry = parse_expiry_date expiry;
      product = "I";
      entry_high = entry_high;
      targets = t ∷ [];
      quantity_lots = pos_part lots;
    })
  read_parts action _ = no_match

  abbrev pub read_template : List String → Reading RawSignal
  read_template [] = no_match
  read_template (verb ∷ parts) = do
    action ← or_none (verb_action (upper verb))
    read_parts action parts

  -- `parse_strict_template`, with the expiry read.
  unfoldable pub parse_strict_template : String → Reading RawSignal
  unfolding read_parts split
  parse_strict_template text =
      if is_blank text then no_match else read_template (map strip (split "|" text))

  -- The structured fields.
  unfoldable pub parse_fields : Message → Reading RawSignal
  unfolding get upper starts split all_of
  parse_fields m = do
    strike ← optional to_int (field "strike" m)
    low ← optional to_float (field "entry_low" m)
    high ← optional to_float (field "entry_high" m)
    average ← optional to_float (field "average" m)
    stop ← optional to_float (field "stoploss" m)
    targets ←
        all_of to_float (keep (λ t. not (is_blank t)) (map strip (split "/" (field "targets" m))))
    lots ←
        (if is_blank (field "quantity" m)
          then read default
          else or_raise (to_int (field "quantity" m)))
    raise_if (leb_ℤ lots (pos 0))
    entry_low ← or_none low
    stoploss ← or_none stop
    action ← or_raise (to_action (action_text m))
    option_type ← to_option_type (upper (field "option_type" m))
    read (record (blank_signal action (underlying_text m) entry_low stoploss) {
      strike = elim strike [ none ↦ none | some n ↦ some (pos_part n) ];
      option_type = option_type;
      expiry = if is_blank (field "expiry" m) then none else parse_expiry_date (field "expiry" m);
      product = upper (get_or "I" (get "product" m));
      entry_high = high;
      average_level = average;
      targets = targets;
      quantity_lots = pos_part lots;
      safe_only = is_yes (field "safe_only" m);
      risk_only = is_yes (field "risk_only" m);
    })

  -- A template that matches or raises is the answer; else the fields are read.
  abbrev pub or_fields : Message → Reading RawSignal → Reading RawSignal
  or_fields m no_match = parse_fields m
  or_fields m r = r

  -- `parse_message_to_signal`.
  unfoldable pub parse_message_to_signal : Message → String → Option RawSignal
  unfolding parse_strict_template parse_fields template_text
  parse_message_to_signal m id = checked id (or_fields m (parse_strict_template (template_text m)))

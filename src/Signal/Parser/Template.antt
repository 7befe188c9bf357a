-- ===== src/Signal/Parser/Template.antt =====
-- The round trip through the template: a line that is written from its parts is read as they say.
use Prim.Native.Char.{Char}
use upstox_gtt.Common.{
  ℕ, ◌<◌, ℤ, pos, ◌≡◌, Option, some, false, List, [], ◌∷◌, String, map, is_blank, strip, upper,
  join, before, Avoids, split-join, to_int, All, refl, ap, ◌∙◌, arith,
}
use upstox_gtt.Signal.{OptionType, Date, RawSignal, validate_prices}
use upstox_gtt.Signal.Parser.{
  Message, get, read, blank_signal, verb_action, option_match, parse_strict_template, read_parts,
  read_template, template_text, parse_message_to_signal, checked, or_fields,
}

-- The nine parts of a template, as texts.
pub record Template : Type 0 where
  pub verb : String
  pub underlying : String
  pub option : String
  pub low : String
  pub high : String
  pub stop : String
  pub goal : String
  pub expiry : String
  pub lots : String

abbrev pub parts : Template → List String
parts t = t.underlying ∷ t.option ∷ t.low ∷ t.high ∷ t.stop ∷ t.goal ∷ t.expiry ∷ t.lots ∷ []

abbrev pub line : Template → String
line t = join "|" t.verb (parts t)

-- No part holds the delimiter, or begins or ends with a space.
abbrev pub IsPart : String → Type 0
IsPart p = Avoids "|" p × (strip p ≡ p)

module _ (to_float : String → Option ℤ) (parse_expiry_date : String → Option Date) where
  -- The parts are written forms of the signal's values.
  pub record IsWritten (t : Template) (s : RawSignal) : Type 0 where
    pub verb : verb_action (upper t.verb) ≡ some s.action
    pub underlying : upper t.underlying ≡ s.underlying
    pub strike : ℕ
    pub option_type : OptionType
    pub strike_set : s.strike ≡ some strike
    pub option_type_set : s.option_type ≡ some option_type
    pub option : option_match false 0 (upper t.option) ≡ some (strike, option_type)
    pub low : to_float t.low ≡ some s.entry_low
    pub entry_high : ℤ
    pub high_set : s.entry_high ≡ some entry_high
    pub high_given : is_blank t.high ≡ false
    pub high : to_float t.high ≡ some entry_high
    pub stop : to_float t.stop ≡ some s.stoploss
    pub goal_price : ℤ
    pub targets_set : s.targets ≡ goal_price ∷ []
    pub goal : to_float t.goal ≡ some goal_price
    pub expiry : parse_expiry_date t.expiry ≡ s.expiry
    pub lots_given : is_blank t.lots ≡ false
    pub lots : to_int t.lots ≡ some (pos s.quantity_lots)
    pub lots_pos : 0 < s.quantity_lots

All-strip : (ps : List String) → All IsPart ps → map strip ps ≡ ps
All-strip [] h = refl
All-strip (p ∷ ps) (h, hs) = rw (h.1, All-strip ps hs) refl

All-avoid : (ps : List String) → All IsPart ps → All (Avoids "|") ps
All-avoid [] h = tt
All-avoid (p ∷ ps) (h, hs) = (h.0, All-avoid ps hs)

line_given : (d : Char) (p q : String) (ps : List String) → is_blank (join d p (q ∷ ps)) ≡ false
unfolding join before
line_given d String.[] q ps = refl
line_given d (String.◌∷◌ c p) q ps = refl

-- The signal that a template stands for.
abbrev pub template_signal : RawSignal → String → RawSignal
template_signal s id = record (blank_signal s.action s.underlying s.entry_low s.stoploss) {
  strike = s.strike;
  option_type = s.option_type;
  expiry = s.expiry;
  product = "I";
  entry_high = s.entry_high;
  targets = s.targets;
  quantity_lots = s.quantity_lots;
  redis_message_id = id;
}

module _ (to_float : String → Option ℤ) (parse_expiry_date : String → Option Date)
    (default : ℤ) where
  reads_back :
      (t : Template) (s : RawSignal)
      → IsWritten to_float parse_expiry_date t s
      → read_template to_float parse_expiry_date default (t.verb ∷ parts t)
        ≡ read (template_signal s "")
  unfolding read_parts
  reads_back t s w = ground (arith, w)

  parse_strict_template-line :
      (t : Template) (s : RawSignal)
      → All IsPart (t.verb ∷ parts t)
      → IsWritten to_float parse_expiry_date t s
      → parse_strict_template to_float parse_expiry_date default (line t)
        ≡ read (template_signal s "")
  unfolding parse_strict_template
  parse_strict_template-line t s (verb, rest) w =
      let cut = split-join "|" t.verb (parts t) verb.0 (All-avoid (parts t) rest) in
      rw (line_given "|" t.verb t.underlying _) (
        ap (λ ps. read_template to_float parse_expiry_date default ps)
          (ap (map strip) cut ∙ All-strip (t.verb ∷ parts t) (verb, rest))
        ∙ reads_back t s w)

  template_text-line :
      (t : Template) (m : Message) → template_text (("message", line t) ∷ m) ≡ line t
  unfolding template_text get
  template_text-line t m = rw (line_given "|" t.verb t.underlying _) refl

  -- A message whose text is a template is read as the signal that the template stands for, if no part of
  -- it holds the delimiter or begins or ends with a space, the numbers and the date are written
  -- forms of the signal's, and there is at least one lot; the other fields are not looked at, and the
  -- signal is still refused where its prices are not in order.
  pub parse_message_to_signal-line :
      (t : Template) (s : RawSignal) (m : Message) (id : String)
      → All IsPart (t.verb ∷ parts t)
      → IsWritten to_float parse_expiry_date t s
      → parse_message_to_signal to_float parse_expiry_date default (("message", line t) ∷ m) id
        ≡ validate_prices (template_signal s id)
  unfolding parse_message_to_signal
  parse_message_to_signal-line t s m id clean w =
      ap
        (λ r. checked id (or_fields to_float parse_expiry_date default (("message", line t) ∷ m) r))
        (ap (parse_strict_template to_float parse_expiry_date default) (template_text-line t m)
          ∙ parse_strict_template-line t s clean w)

-- ===== src/Ingestor.antt =====
-- gtt_v2/services/signal_ingestor/telegram_listener.py: what becomes of a message of Telegram. What the
-- parser with the language model answers is given; prices are whole hundredths, and how `str` writes
-- numbers is given. The pipeline log is left out.
pub mod Once
pub mod Read
use Prim.Native.Char.{Char, code}
use mathlib.Core.List.{reverse}
use upstox_gtt.Common.{
  ℕ, zero, suc, ◌+◌, ◌*◌, ◌/◌, ℤ, pos, Bool, true, false, not, ◌&&◌, ◌||◌, ◌==◌, Option, none, some,
  List, [], ◌∷◌, ◌++◌, String, if◌then◌else◌, any, map, leb, ltb, eqb_ℤ, truthy_ℤ, get_or, is_blank,
  is_space, lstrip, strip, upper, starts, join,
}
use upstox_gtt.Redis.{Cell, read, set_ex}
use upstox_gtt.Signal.Parser.{Message}

-- `p in s`.
unfoldable pub within : String → String → Bool
unfolding starts
within p String.[] = is_blank p
within p (String.◌∷◌ c s) = starts (String.◌∷◌ c s) p || within p s

-- What a regular expression is made of: letters, `\b` and `\s+`.
pub data Atom : Type 0 where
  letters : String → Atom
  edge spaces : Atom

abbrev is_word : Char → Bool
is_word c =
    (leb b'0' (code c) && leb (code c) b'9')
    || (leb b'A' (code c) && leb (code c) b'Z')
    || (leb b'a' (code c) && leb (code c) b'z')
    || code c == b'_'

abbrev starts_word : String → Bool
starts_word String.[] = false
starts_word (String.◌∷◌ c s) = is_word c

abbrev starts_space : String → Bool
starts_space String.[] = false
starts_space (String.◌∷◌ c s) = is_space c

unfoldable pub drop_prefix : String → String → String
drop_prefix String.[] s = s
drop_prefix (String.◌∷◌ d p) String.[] = ""
drop_prefix (String.◌∷◌ d p) (String.◌∷◌ c s) = drop_prefix p s

-- A match at the start of a text, with whether a word character stands before it.
unfoldable pub match_at : Bool → List Atom → String → Bool
unfolding starts lstrip drop_prefix
match_at before_word [] s = true
match_at before_word (edge ∷ r) s =
    (if before_word then not (starts_word s) else starts_word s) && match_at before_word r s
match_at before_word (spaces ∷ r) s = starts_space s && match_at false r (lstrip s)
match_at before_word (letters w ∷ r) s = starts s w && match_at true r (drop_prefix w s)

unfoldable pub search : Bool → List Atom → String → Bool
unfolding match_at
search before_word r String.[] = match_at before_word r ""
search before_word r (String.◌∷◌ c s) =
    match_at before_word r (String.◌∷◌ c s) || search (is_word c) r s

-- Words with spaces between them, and an edge before and behind.
unfoldable pub phrase : List String → List Atom
phrase [] = edge ∷ []
phrase (w ∷ []) = letters w ∷ edge ∷ []
phrase (w ∷ v ∷ ws) = letters w ∷ spaces ∷ phrase (v ∷ ws)

-- `\bSAFE\s+(TRADERS?|ONLY)\b` and the other alternatives, with an `S?` as two.
abbrev pub safe_only_re : List (List String)
safe_only_re =
    ("SAFE" ∷ "TRADER" ∷ [])
    ∷ ("SAFE" ∷ "TRADERS" ∷ [])
    ∷ ("SAFE" ∷ "ONLY" ∷ [])
    ∷ ("FOR" ∷ "SAFE" ∷ "TRADER" ∷ [])
    ∷ ("FOR" ∷ "SAFE" ∷ "TRADERS" ∷ [])
    ∷ ("ONLY" ∷ "FOR" ∷ "SAFE" ∷ [])
    ∷ []

abbrev pub risk_only_re : List (List String)
risk_only_re =
    ("RISK" ∷ "ONLY" ∷ [])
    ∷ ("RISKY" ∷ "TRADER" ∷ [])
    ∷ ("RISKY" ∷ "TRADERS" ∷ [])
    ∷ ("JACKPOT" ∷ [])
    ∷ []

-- The search without regard to the case of letters.
unfoldable pub mentions : List (List String) → String → Bool
unfolding search upper phrase
mentions re text = any (λ ws. search false (edge ∷ phrase ws) (upper text)) re

abbrev pub skip_patterns : List String
skip_patterns =
    "ORDER ACTIVATED" ∷ "POINTS DONE" ∷ "SL HIT" ∷ "TARGET DONE" ∷ "TARGET HIT" ∷ "BOOK PARTIAL"
    ∷ "BOOKING" ∷ "DONE ✅" ∷ "✅ DONE" ∷ []

unfoldable pub should_skip : String → Bool
unfolding within upper
should_skip text = any (λ p. within p (upper text)) skip_patterns

-- A message's chat and number: the parts of the key `signal_msg:{chat_id}:{msg_id}`.
pub record MessageKey : Type 0 where
  pub chat_id : ℤ
  pub msg_id : ℕ

abbrev pub same_message : MessageKey → MessageKey → Bool
same_message a b = eqb_ℤ a.chat_id b.chat_id && a.msg_id == b.msg_id

-- `TradingSignal`, and what the parser does with a text.
pub record TradingSignal : Type 0 where
  pub action : String
  pub instrument : String
  pub strike : String
  pub option_type : String
  pub entry_price : Option (ℤ × ℤ)
  pub stoploss : Option ℤ
  pub targets : List ℤ
  pub expiry : Option String

pub data Answer : Type 0 where
  raised no_signal : Answer
  found : TradingSignal → Answer

-- The keys of the messages with their expiry times, the last texts of each chat, the stream, and the
-- texts that were given to the parser.
pub record Ingestor : Type 0 where
  pub seen : List (MessageKey × ℕ)
  pub contexts : List (ℤ × Option (Cell (List String)))
  pub stream : List (MessageKey × Message)
  pub parsed : List String

-- A delivery, with the clock, and the trace id that is drawn.
pub record Delivery : Type 0 where
  pub now : ℕ
  pub key : MessageKey
  pub text : String
  pub trace_id : String

-- Whether the key of a message has not expired.
abbrev pub held : ℕ → MessageKey → List (MessageKey × ℕ) → Bool
held now k = any (λ x. same_message x.0 k && ltb now x.1)

-- `SET key 1 NX EX 86400`.
abbrev pub remembered : ℕ → MessageKey → List (MessageKey × ℕ) → List (MessageKey × ℕ)
remembered now k seen = (k, now + 86_400 * 1000) ∷ seen

unfoldable pub context_of : ℕ → ℤ → List (ℤ × Option (Cell (List String))) → List String
context_of now chat [] = []
context_of now chat ((c, cell) ∷ l) =
    if eqb_ℤ c chat then get_or [] (read now cell) else context_of now chat l

unfoldable pub take : ℕ → List String → List String
take zero l = []
take (suc n) [] = []
take (suc n) (x ∷ l) = x ∷ take n l

abbrev pub context_window_size : ℕ
context_window_size = 10

abbrev pub context_ttl : ℕ
context_ttl = 1800

-- `_update_context`: the last texts of the chat, the newest first.
abbrev pub update_context : ℕ → ℤ → String → Ingestor → Ingestor
update_context now chat text s = record s {
  contexts =
      (
        chat,
        set_ex now (take context_window_size (text ∷ context_of now chat s.contexts)) context_ttl,
      )
      ∷ s.contexts;
}

abbrev pub low_of : Option (ℤ × ℤ) → Option ℤ
low_of none = none
low_of (some (a, b)) = some a

-- The upper price, if it is another one.
abbrev pub high_of : Option (ℤ × ℤ) → Option ℤ
high_of none = none
high_of (some (a, b)) = if eqb_ℤ b a then none else some b

-- `"/".join`.
abbrev pub slashed : List String → String
slashed [] = ""
slashed (t ∷ ts) = join "/" t ts

abbrev pub flag : Bool → String
flag b = if b then "1" else "0"

module _ (show_price show_int : ℤ → String) where
  -- `str(x or "")`.
  abbrev pub price_text : Option ℤ → String
  price_text none = ""
  price_text (some p) = if truthy_ℤ p then show_price p else ""

  -- `TradingSignal` has no field `average`, so that `getattr` gives None.
  abbrev pub payload : Delivery → TradingSignal → Message
  payload d s =
      ("action", s.action)
      ∷ ("instrument", s.instrument)
      ∷ ("strike", s.strike)
      ∷ ("option_type", s.option_type)
      ∷ ("entry_low", price_text (low_of s.entry_price))
      ∷ ("entry_high", price_text (high_of s.entry_price))
      ∷ ("stoploss", price_text s.stoploss)
      ∷ ("targets", slashed (map show_price s.targets))
      ∷ ("average", "")
      ∷ ("expiry", get_or "" s.expiry)
      ∷ ("safe_only", flag (mentions safe_only_re d.text))
      ∷ ("risk_only", flag (mentions risk_only_re d.text))
      ∷ ("group_id", show_int d.key.chat_id)
      ∷ ("message_id", show_int (pos d.key.msg_id))
      ∷ ("trace_id", d.trace_id)
      ∷ ("timestamp", show_int (pos (d.now / 1000)))
      ∷ []

module _ (parse : String → Answer) (show_price show_int : ℤ → String) where
  abbrev pub publish : Delivery → Answer → Ingestor → Ingestor
  publish d raised s = s
  publish d no_signal s = s
  publish d (found t) s = record s {
    stream = s.stream ++ ((d.key, payload show_price show_int d t) ∷ []);
  }

  -- A message that is new: noise is dropped, the rest is kept as context and parsed.
  abbrev pub handle_new : Delivery → Ingestor → Ingestor
  handle_new d s =
      if should_skip d.text
      then s
      else publish d (parse d.text)
          (record (update_context d.now d.key.chat_id d.text s) { parsed = d.text ∷ s.parsed })

  -- `handle_message`.
  unfoldable pub handle_message : Delivery → Ingestor → Ingestor
  unfolding strip context_of should_skip mentions
  handle_message d s =
      if is_blank (strip d.text)
      then s
      else if held d.now d.key s.seen
      then s
      else handle_new d (record s { seen = remembered d.now d.key s.seen })

  unfoldable pub handle_messages : List Delivery → Ingestor → Ingestor
  unfolding handle_message
  handle_messages [] s = s
  handle_messages (d ∷ ds) s = handle_messages ds (handle_message d s)

-- ===== src/First/Orders.antt =====
-- gtt_strategy.py: the placing of a GTT. What the network answers at each attempt is given.
pub mod Posts
use upstox_gtt.Common.{
  ℕ, zero, suc, ◌+◌, ◌==◌, ℤ, pos, ◌*ℤ◌, Bool, true, false, not, ◌&&◌, ◌||◌, Option, none, some,
  List, [], ◌∷◌, ◌++◌, String, str_eq, if◌then◌else◌, is_blank, is_empty, upper, leb_ℤ, ltb_ℤ,
  truthy_ℤ, get_or,
}
use upstox_gtt.First.Signals.{Signal}
use upstox_gtt.First.Instruments.{Item, InstrumentCache, find_instrument, resolve_env_lot_size}

pub record PayloadRule : Type 0 where
  pub strategy : String
  pub trigger_type : String
  pub trigger_price : ℤ

-- The payload; its `type` is always "MULTIPLE".
pub record Payload : Type 0 where
  pub quantity : ℤ
  pub product : String
  pub rules : List PayloadRule
  pub instrument_token : String
  pub transaction_type : String

-- The body of a response: one that says `success`, with the order ids if it has them, another JSON, or none.
pub data Body : Type 0 where
  success : Option (List String) → Body
  failure not_json : Body

pub data Reply : Type 0 where
  response : ℕ → Body → Reply
  timeout other_exception : Reply

pub data Reason : Type 0 where
  missing_fields : List String → Reason
  instrument_not_found invalid_quantity exception : Reason

-- What the function returns.
pub data Result : Type 0 where
  placed : Option (List String) → String → Option ℤ → Payload → Result
  refused : Result
  http_error : ℕ → Result
  error : Reason → Result

-- The environment, the master list if it can be downloaded, and what the price of an instrument is.
pub record Surroundings : Type 0 where
  pub getenv : String → String
  pub parse_expiry_date : String → Option String
  pub download : Option (List Item)
  pub fetch_ltp_after_placement : Bool
  pub fetch_ltp : String → Option ℤ

-- The result, the cache of instruments, and the payloads that were posted, one for each attempt.
pub record Outcome : Type 0 where
  pub result : Result
  pub cache : InstrumentCache
  pub posts : List Payload

abbrev pub given : Option ℤ → Bool
given none = false
given (some n) = truthy_ℤ n

abbrev pub missing_if : Bool → String → List String → List String
missing_if true name rest = name ∷ rest
missing_if false name rest = rest

-- The fields that are missing, empty or zero.
unfoldable pub missing : Signal → List String
missing s = missing_if (is_blank s.action) "action" (
    missing_if (is_blank s.underlying) "underlying" (
      missing_if (not (given s.strike)) "strike" (
        missing_if (is_blank s.option_type) "option_type" (
          missing_if (not (given s.entry_low)) "entry_low" (
            missing_if (not (given s.stoploss)) "stoploss" (
              missing_if (is_empty s.targets) "targets"
                (missing_if (is_blank s.expiry) "expiry" [])))))))

-- `min(targets)`.
unfoldable pub minimum : ℤ → List ℤ → ℤ
minimum m [] = m
minimum m (t ∷ ts) = minimum (if ltb_ℤ t m then t else m) ts

abbrev pub min_target : List ℤ → ℤ
min_target [] = pos 0
min_target (t ∷ ts) = minimum t ts

abbrev pub entry_trigger : String → String
entry_trigger action = if str_eq action "BUY" then "ABOVE" else "BELOW"

abbrev pub rule : String → String → ℤ → PayloadRule
rule s t p = record { strategy = s; trigger_type = t; trigger_price = p }

unfoldable pub build_payload : Signal → String → ℤ → Payload
unfolding minimum upper
build_payload s token quantity = record {
  quantity = quantity;
  product = upper s.product;
  rules =
      rule "ENTRY" (entry_trigger (upper s.action)) (get_or (pos 0) s.entry_low)
      ∷ rule "TARGET" "IMMEDIATE" (min_target s.targets)
      ∷ rule "STOPLOSS" "IMMEDIATE" (get_or (pos 0) s.stoploss)
      ∷ [];
  instrument_token = token;
  transaction_type = upper s.action;
}

abbrev pub max_retries : ℕ
max_retries = 3

-- One round of the loop, with what the later rounds would give: only a timeout is tried again.
unfoldable pub next_attempt : Bool → Reply → Reply × ℕ → Reply × ℕ
next_attempt last timeout (later, calls) = if last then (timeout, 1) else (later, suc calls)
next_attempt last r s = (r, 1)

-- The loop of attempts: the reply, and the number of posts.
unfoldable pub post_attempts : ℕ → ℕ → (ℕ → Reply) → Reply × ℕ
unfolding next_attempt
post_attempts zero attempt net = (timeout, 0)
post_attempts (suc n) attempt net =
    next_attempt (n == 0) (net attempt) (post_attempts n (attempt + 1) net)

unfoldable pub replicate : ℕ → Payload → List Payload
replicate zero p = []
replicate (suc n) p = p ∷ replicate n p

-- The reading of the response.
abbrev pub read_reply : Surroundings → Payload → Reply → Result
read_reply env p (response status body) =
    if status == 200
    then elim body [
      | success ids ↦
          placed ids p.instrument_token
            (if env.fetch_ltp_after_placement then env.fetch_ltp p.instrument_token else none) p
      | failure ↦ refused
      | not_json ↦ error exception
    ]
    else http_error status
read_reply env p timeout = error exception
read_reply env p other_exception = error exception

abbrev pub send : Surroundings → (ℕ → Reply) → Payload → InstrumentCache → Outcome
send env net p c =
    let (reply, calls) = post_attempts max_retries 0 net in
    record { result = read_reply env p reply; cache = c; posts = replicate calls p }

abbrev pub stops : Reason → InstrumentCache → Outcome
stops why c = record { result = error why; cache = c; posts = [] }

abbrev pub with_quantity :
    Surroundings → (ℕ → Reply) → Signal → Item → ℤ → InstrumentCache → Outcome
with_quantity env net s i quantity c =
    if leb_ℤ quantity (pos 0)
    then stops invalid_quantity c
    else send env net (build_payload s i.instrument_key quantity) c

abbrev pub with_item : Surroundings → (ℕ → Reply) → Signal → Option Item × InstrumentCache → Outcome
with_item env net s (none, c) = stops instrument_not_found c
with_item env net s (some i, c) =
    with_quantity env net s i (s.quantity *ℤ resolve_env_lot_size env.getenv s i) c

-- `place_gtt_order_upstox`.
unfoldable pub place_gtt_order : Surroundings → (ℕ → Reply) → Signal → InstrumentCache → Outcome
unfolding missing build_payload post_attempts replicate upper
place_gtt_order env net s c =
    if is_empty (missing s)
    then with_item env net s (
        find_instrument env.parse_expiry_date env.download (upper s.underlying)
          (get_or (pos 0) s.strike) (upper s.option_type) s.expiry c)
    else stops (missing_fields (missing s)) c

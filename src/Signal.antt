-- ===== src/Signal.antt =====
-- The signal types of gtt_v2/shared/signal/types.py. Prices are whole hundredths of a rupee.
pub mod Parser
use upstox_gtt.Common.{
  ℕ, ◌<◌, ◌≡◌, ℤ, String, ◌↔◌, Bool, true, false, ◌&&◌, Option, none, some, List, leb_ℤ, leb,
  if◌then◌else◌, ◌<ℤ◌, arith,
}

pub data Action : Type 0 where
  buy sell : Action

pub data OptionType : Type 0 where
  ce pe : OptionType

pub data TradeType : Type 0 where
  buy_above ranging average : TradeType

pub data Profile : Type 0 where
  safe risk : Profile

pub record Date : Type 0 where
  pub year : ℕ
  pub month : ℕ
  pub day : ℕ

pub record RawSignal : Type 0 where
  pub action : Action
  pub underlying : String
  pub strike : Option ℕ
  pub option_type : Option OptionType
  pub expiry : Option Date
  pub product : String
  pub entry_low : ℤ
  pub entry_high : Option ℤ
  pub average_level : Option ℤ
  pub stoploss : ℤ
  pub targets : List ℤ
  pub quantity_lots : ℕ
  pub safe_only : Bool
  pub risk_only : Bool
  pub trade_type : Option TradeType
  pub redis_message_id : String
  pub signal_hash : Option String
  pub instrument_key : Option String

pub record AdjustedSignal : Type 0 where
  pub raw : RawSignal
  pub entry_low_adj : ℤ
  pub entry_high_adj : Option ℤ
  pub average_adj : Option ℤ
  pub entry_price : ℤ
  pub stoploss_adj : ℤ
  pub targets_adj : List ℤ
  pub trade_type : TradeType
  pub instrument_key : String
  pub ltp_at_check : Option ℤ

abbrev pub is_buy : Action → Bool
is_buy buy = true
is_buy sell = false

-- The three checks of `validate_prices`; `none` is the `ValueError`.
unfoldable pub validate_prices : RawSignal → Option RawSignal
validate_prices s =
    if is_buy s.action && leb_ℤ s.entry_low s.stoploss
    then none
    else if (if is_buy s.action then false else leb_ℤ s.stoploss s.entry_low)
    then none
    else if leb s.quantity_lots 0
    then none
    else some s

-- What `validate_prices` ensures: the stoploss is on the losing side of the entry.
abbrev pub StopsBehind : Action → ℤ → ℤ → Type 0
StopsBehind buy entry stop = stop <ℤ entry
StopsBehind sell entry stop = entry <ℤ stop

pub record IsValid (s : RawSignal) : Type 0 where
  pub stops : StopsBehind s.action s.entry_low s.stoploss
  pub lots : 0 < s.quantity_lots

-- A signal that the checks accept is valid and unchanged: it has at least one lot, and its stoploss is
-- below the entry for a BUY and above it for a SELL.
pub validate_prices-IsValid : (s t : RawSignal) → validate_prices s ≡ some t → IsValid t × (s ≡ t)
unfolding validate_prices
validate_prices-IsValid s t h = ground arith

-- `signals.status`, as the schema lists it.
pub data Status : Type 0 where
  pending active target1_hit target2_hit target3_hit stoploss_hit : Status
  expired cancelled failed blocked : Status

-- The legs of a GTT, `gtt_rules.strategy`.
pub data Strategy : Type 0 where
  entry target stoploss_leg : Strategy

unfoldable pub same_strategy : Strategy → Strategy → Bool
same_strategy entry entry = true
same_strategy target target = true
same_strategy stoploss_leg stoploss_leg = true
same_strategy _ _ = false

pub same_strategy_iff : (a b : Strategy) → (same_strategy a b ≡ true) ↔ (a ≡ b)
unfolding same_strategy
same_strategy_iff a b = ground arith

-- ===== src/Rules/TradeType.antt =====
-- gtt_v2/shared/rules/trade_type.py.
use upstox_gtt.Common.{Bool, ◌&&◌, ◌≡◌, some, arith, if◌then◌else◌, ℤ}
use upstox_gtt.Signal.{TradeType, buy_above, ranging, average, RawSignal}
use upstox_gtt.Rules.Buffer.{given, differs, is_average, apply_buffer}

unfoldable pub detect_trade_type : RawSignal → TradeType
detect_trade_type s =
    if is_average s.trade_type
    then average
    else if given s.average_level
    then average
    else if given s.entry_high && differs s.entry_high s.entry_low
    then ranging
    else buy_above

-- `signal.model_copy(update={"trade_type": …})`
abbrev pub with_trade_type : RawSignal → TradeType → RawSignal
with_trade_type s t = record s { trade_type = some t }

-- The trade type that `apply_buffer` works out for itself is the one that `detect_trade_type`
-- finds, and it stays so after the engine has written the detected type into the signal.
pub trade_type-apply_buffer :
    (rounds_up : ℤ → Bool) (s : RawSignal)
    → ((apply_buffer rounds_up s).trade_type ≡ detect_trade_type s)
      × ((apply_buffer rounds_up (with_trade_type s (detect_trade_type s))).trade_type
          ≡ detect_trade_type s)
unfolding detect_trade_type apply_buffer
trade_type-apply_buffer rounds_up s = ground arith

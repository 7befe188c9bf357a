-- ===== src/Rules/Buffer.antt =====
-- gtt_v2/shared/rules/buffer.py: the entry trigger and the buffered stoploss and targets.
pub mod Bracket
use upstox_gtt.Common.{
  ℕ, ℤ, pos, ◌+ℤ◌, ◌-ℤ◌, leb_ℤ, ltb_ℤ, eqb_ℤ, truthy_ℤ, Bool, true, false, not, ◌&&◌, ◌||◌, Option,
  none, some, List, [], ◌∷◌, map, String, get_or, if◌then◌else◌,
}
use upstox_gtt.Common.Rounding.{round_div}
use upstox_gtt.Signal.{
  Action, buy, sell, is_buy, TradeType, buy_above, ranging, average, RawSignal, AdjustedSignal,
}

abbrev pub stoploss_buffer_pts : ℤ
stoploss_buffer_pts = pos 300

-- A row of `TARGET_BUFFER_TABLE`; the bound `none` is infinity.
abbrev pub BufferRow : Type 0
BufferRow = ℤ × Option ℤ × ℤ

abbrev pub target_buffer_table : List BufferRow
target_buffer_table =
    (pos 10000, some (pos 20000), pos 300)
    ∷ (pos 20000, some (pos 30000), pos 400)
    ∷ (pos 30000, some (pos 40000), pos 500)
    ∷ (pos 40000, none, pos 500)
    ∷ []

abbrev pub last_pts : ℤ
last_pts = pos 500

abbrev below : ℤ → Option ℤ → Bool
below price none = true
below price (some high) = ltb_ℤ price high

-- The loop over the table; past its end the last row decides.
unfoldable pub find_buffer : ℤ → List BufferRow → ℤ
find_buffer price [] = last_pts
find_buffer price ((low, high, pts) ∷ rows) =
    if leb_ℤ low price && below price high then pts else find_buffer price rows

unfoldable pub get_target_buffer : ℤ → ℤ
unfolding find_buffer
get_target_buffer entry_price = find_buffer entry_price target_buffer_table

-- Buffered amounts are sums of whole hundredths, on which `round(…, 2)` is the identity.
unfoldable pub adjust_stoploss : ℤ → Action → ℤ
adjust_stoploss sl action =
    if is_buy action then sl -ℤ stoploss_buffer_pts else sl +ℤ stoploss_buffer_pts

unfoldable pub adjust_target : ℤ → Action → ℤ → ℤ
adjust_target target action entry_price =
    if is_buy action
    then target -ℤ get_target_buffer entry_price
    else target +ℤ get_target_buffer entry_price

-- `signal.average` as a condition: neither `None` nor zero.
abbrev pub given : Option ℤ → Bool
given none = false
given (some x) = truthy_ℤ x

abbrev pub differs : Option ℤ → ℤ → Bool
differs none low = true
differs (some high) low = not (eqb_ℤ high low)

abbrev pub is_average : Option TradeType → Bool
is_average (some average) = true
is_average _ = false

-- The trade type that `apply_buffer` finds for itself.
unfoldable pub buffer_trade_type : RawSignal → TradeType
buffer_trade_type s =
    if is_average s.trade_type || given s.average_level
    then average
    else if given s.entry_high && differs s.entry_high s.entry_low
    then ranging
    else buy_above

-- `rounds_up s` is how `round` decides the half hundredth of the mean of two prices of sum `s`.
module _ (rounds_up : ℤ → Bool) where
  abbrev midpoint : ℤ → ℤ → ℤ
  midpoint low high = round_div (rounds_up (low +ℤ high)) (low +ℤ high) 2

  unfoldable pub compute_entry_price : ℤ → Option ℤ → TradeType → ℤ
  compute_entry_price low (some high) ranging =
      if differs (some high) low then midpoint low high else low
  compute_entry_price low high _ = low

  unfoldable pub apply_buffer : RawSignal → AdjustedSignal
  unfolding buffer_trade_type
  apply_buffer s = record {
    raw = s;
    entry_low_adj = s.entry_low;
    entry_high_adj = s.entry_high;
    average_adj = s.average_level;
    entry_price = compute_entry_price s.entry_low s.entry_high (buffer_trade_type s);
    stoploss_adj = adjust_stoploss s.stoploss s.action;
    targets_adj = map (λ t. adjust_target t s.action s.entry_low) s.targets;
    trade_type = buffer_trade_type s;
    instrument_key = get_or "" s.instrument_key;
    ltp_at_check = none;
  }

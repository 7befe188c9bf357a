-- ===== src/Examples/Rules.antt =====
-- The rules at concrete prices and times.
use upstox_gtt.Common.{
  ◌+◌, ◌≡◌, ℤ, pos, ◌+ℤ◌, ◌-ℤ◌, ◌*ℤ◌, false, Option, none, some, List, [], ◌∷◌, String, refl, arith,
}
use upstox_gtt.Clock.{weekday, time_of_day, today_key}
use upstox_gtt.Redis.{Cell, set_ex}
use upstox_gtt.Signal.{buy, AdjustedSignal, IsValid, validate_prices, safe, ranging}
use upstox_gtt.Common.Rounding.{round_div}
use upstox_gtt.Rules.Buffer.{
  get_target_buffer, apply_buffer, compute_entry_price, adjust_stoploss, adjust_target,
}
use upstox_gtt.Rules.Buffer.Bracket.{apply_buffer_brackets, WithinRange, StopsFrom, AllMovedIn}
use upstox_gtt.Rules.TradeType.{detect_trade_type}
use upstox_gtt.Rules.Timing.{check}
use upstox_gtt.Rules.PnlGuard.{GuardOp, ask, book, fetch, allow, record_pnl, perform_all, limit_hit}
use upstox_gtt.Rules.PnlGuard.Latch.{record_pnl_latches}
use upstox_gtt.Rules.PnlGuard.Agreement.{
  perform_all-totals, running_total, realized, trades, booked, bookings,
}
use upstox_gtt.Examples.Data.{nifty, ten, limits, new_ledger, half_up}

nifty_passes : validate_prices nifty ≡ some nifty
unfolding validate_prices
nifty_passes = refl

abbrev nifty-IsValid : IsValid nifty
nifty-IsValid = record { stops = omega arith; lots = omega arith }

abbrev adjusted : AdjustedSignal
adjusted = apply_buffer half_up nifty

-- The trigger is the middle of the range.
adjusted_prices :
    (adjusted.entry_price ≡ pos 15250)
    × (adjusted.stoploss_adj ≡ pos 13700)
    × (adjusted.targets_adj ≡ pos 17700 ∷ pos 19700 ∷ [])
unfolding apply_buffer compute_entry_price round_div adjust_stoploss adjust_target get_target_buffer
    ◌+ℤ◌ ◌-ℤ◌
adjusted_prices = (refl, refl, refl)

apply_buffer_brackets_example :
    WithinRange (pos 15000) (some (pos 15500)) adjusted.entry_price
    × StopsFrom buy adjusted.entry_price adjusted.stoploss_adj
    × AllMovedIn buy nifty.targets adjusted.targets_adj
apply_buffer_brackets_example =
    apply_buffer_brackets half_up nifty nifty-IsValid (omega arith) (omega arith)

nifty_ranges : detect_trade_type nifty ≡ ranging
unfolding detect_trade_type
nifty_ranges = refl

ten_is_open : check ten safe ≡ none
unfolding check weekday time_of_day
ten_is_open = refl

abbrev prices : String → Option (Cell ℤ)
prices key = set_ex ten (pos 17800) 60

-- A profit of 5000 on a capital of 50000, and then a loss, and more capital.
abbrev later_ops : List GuardOp
later_ops =
    book (ten + 1000) (ℤ.negsuc 99999) ∷ fetch (ten + 2000) (pos 90000000) ∷ ask (ten + 3000) ∷ []

record_pnl_latches_example :
    (allow limits
      (ten + 4000)
      (perform_all limits later_ops (record_pnl limits ten (pos 500000) new_ledger))).0
    ≡ false
record_pnl_latches_example =
    record_pnl_latches limits ten (ten + 4000) (pos 500000) later_ops new_ledger
      (unfold limit_hit today_key ◌+ℤ◌ ◌*ℤ◌ in refl) (unfold today_key in refl)

abbrev day_ops : List GuardOp
day_ops = book ten (pos 100) ∷ ask ten ∷ book (ten + 100000000) (pos 7) ∷ book ten (pos 50) ∷ []

perform_all-totals_example :
    let s' = perform_all limits day_ops new_ledger in
    (running_total 0 (ten + 5) s' ≡ booked 0 day_ops)
    × (realized (s'.table 0) ≡ booked 0 day_ops)
    × (trades (s'.table 0) ≡ bookings 0 day_ops)
perform_all-totals_example =
    perform_all-totals limits 0 (ten + 5) day_ops new_ledger refl refl (unfold today_key in refl)

-- Two of the three bookings are on that day.
day_booked : (booked 0 day_ops ≡ pos 150) × (bookings 0 day_ops ≡ 2)
unfolding ◌+ℤ◌ today_key
day_booked = (refl, refl)

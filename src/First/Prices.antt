-- ===== src/First/Prices.antt =====
-- What the scripts of the first version share on prices: the numbers that Python takes as false, the mean of
-- the trades of an order, and the profit of a signal. Prices are whole ten-thousandths of a rupee.
use upstox_gtt.Common.{
  suc, ℤ, pos, negsuc, ◌+ℤ◌, ◌-ℤ◌, ◌*ℤ◌, Option, none, some, List, [], ◌∷◌, String, str_eq,
  if◌then◌else◌, truthy_ℤ, get_or, Bool,
}
use upstox_gtt.Common.Rounding.{round_div}
use upstox_gtt.First.Store.{Trade}

-- `x or y`.
abbrev pub or_else : Option ℤ → Option ℤ → Option ℤ
or_else none y = y
or_else (some x) y = if truthy_ℤ x then some x else y

unfoldable pub total_quantity : List Trade → ℤ
total_quantity [] = pos 0
total_quantity (x ∷ xs) = get_or (pos 0) x.quantity +ℤ total_quantity xs

abbrev pub trade_price : Trade → ℤ
trade_price x = get_or (pos 0) (or_else (or_else x.average_price x.price) (some (pos 0)))

unfoldable pub total_value : List Trade → ℤ
total_value [] = pos 0
total_value (x ∷ xs) = (get_or (pos 0) x.quantity *ℤ trade_price x) +ℤ total_value xs

-- `round(value / quantity, 4)`, and nothing where the quantity is not positive.
abbrev pub mean : (ℤ → Bool) → ℤ → ℤ → Option ℤ
mean rounds_up value (pos (suc n)) = some (round_div (rounds_up value) value (suc n))
mean rounds_up value _ = none

unfoldable pub weighted_price : (ℤ → Bool) → List Trade → Option ℤ
unfolding total_quantity total_value
weighted_price rounds_up trades = mean rounds_up (total_value trades) (total_quantity trades)

-- `round(x, 2)`: to whole hundredths.
abbrev pub round2 : (ℤ → Bool) → ℤ → ℤ
round2 rounds_up x = round_div (rounds_up x) x 100 *ℤ pos 100

abbrev pub lot_sign : String → ℤ
lot_sign action = if str_eq action "BUY" then pos 1 else negsuc 0

-- The profit of a position of `quantity` between two prices.
unfoldable pub profit : (ℤ → Bool) → String → ℤ → ℤ → ℤ → ℤ
profit rounds_up action quantity entry exit =
    round2 rounds_up (((exit -ℤ entry) *ℤ quantity) *ℤ lot_sign action)

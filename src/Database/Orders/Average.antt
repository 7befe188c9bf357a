-- ===== src/Database/Orders/Average.antt =====
-- The mean price of the trades of an order.
use native.Mathlib.Nat.{mul-le-mul, le_refl}
use upstox_gtt.Common.{
  pos-*ℤ, pos-+ℤ, ℕ, ◌+◌, ◌*◌, ◌≤◌, ◌<◌, ◌≡◌, ℤ, pos, ◌≤ℤ◌, some, List, [], ◌∷◌, refl, arith, All,
}
use upstox_gtt.Common.Rounding.{round_div, round_div_bounds, floor_div}
use upstox_gtt.Database.{Trade}
use upstox_gtt.Database.Orders.{total_quantity, total_value, is_odd, weighted_avg_price}

-- A trade with a quantity and a price between two bounds.
abbrev pub PricedWithin : ℕ → ℕ → Trade → Type 0
PricedWithin lo hi t =
    (p : ℕ) × (q : ℕ) × (t.price ≡ some (pos p)) × (t.quantity ≡ some q) × (lo ≤ p) × (p ≤ hi)

total_value_within :
    (lo hi : ℕ) (ts : List Trade)
    → All (PricedWithin lo hi) ts
    → (v : ℕ) × (total_value ts ≡ pos v)
      × (lo * total_quantity ts ≤ v)
      × (v ≤ hi * total_quantity ts)
unfolding total_value total_quantity
total_value_within lo hi [] h = (0, refl, omega arith, omega arith)
total_value_within lo hi (t ∷ ts) ((p, q, price, quantity, low, high), h) =
    let (v, value, below, above) = total_value_within lo hi ts h in
    (
      p * q + v,
      rw (price, quantity) (rw (pos-*ℤ p q) (rw value (pos-+ℤ (p * q) v))),
      rw quantity (omega (arith, mul-le-mul low (le_refl q))),
      rw quantity (omega (arith, mul-le-mul high (le_refl q))),
    )

-- If the quantities are not all zero and every trade has a quantity and a price between two bounds, the mean price lies between the
-- bounds too, also after rounding.
pub weighted_avg_price_within :
    (lo hi : ℕ) (ts : List Trade)
    → All (PricedWithin lo hi) ts
    → 0 < total_quantity ts
    → (p : ℤ) × (weighted_avg_price ts ≡ some p) × (pos lo ≤ℤ p) × (p ≤ℤ pos hi)
unfolding weighted_avg_price
weighted_avg_price_within lo hi ts h some_ =
    let (v, value, below, above) = total_value_within lo hi ts h in
    let q = total_quantity ts in
    let up = is_odd (floor_div (pos v) q) in
    let (low, high) = round_div_bounds up v q lo hi some_ below above in
    (round_div up (pos v) q, rw value (ground arith), low, high)

-- ===== src/Rules/Buffer/Bracket.antt =====
-- The buffered prices of gtt_v2/shared/rules/buffer.py bracket the entry.
use upstox_gtt.Common.{
  ltb_ℤ, if◌then◌else◌, ℤ, pos, ◌+ℤ◌, ◌≤ℤ◌, ◌<ℤ◌, ◌≡◌, Bool, Option, none, some, List, [], ◌∷◌, map,
  arith, int_laws, +ℤ_parts, refl,
}
use upstox_gtt.Common.Rounding.{round_div_between}
use upstox_gtt.Signal.{
  Action, buy, sell, StopsBehind, RawSignal, IsValid, TradeType, buy_above, ranging, average,
}
use upstox_gtt.Rules.Buffer.{
  get_target_buffer, adjust_stoploss, adjust_target, compute_entry_price, buffer_trade_type,
  apply_buffer,
}

-- The range of an entry that was given a second bound: that bound is not below the first.
abbrev pub IsRange : ℤ → Option ℤ → Type 0
IsRange low none = Unit
IsRange low (some high) = low ≤ℤ high

abbrev pub WithinRange : ℤ → Option ℤ → ℤ → Type 0
WithinRange low none price = price ≡ low
WithinRange low (some high) price = (low ≤ℤ price) × (price ≤ℤ high)

-- The buffer is 3 points on prices from 100 to below 200, 4 points from 200 to below 300, and 5
-- points on every other price, also on those below 100.
pub get_target_buffer_steps :
    (p : ℤ)
    → get_target_buffer p ≡ (
        if ltb_ℤ p (pos 10000)
        then pos 500
        else if ltb_ℤ p (pos 20000)
        then pos 300
        else if ltb_ℤ p (pos 30000)
        then pos 400
        else pos 500)
unfolding get_target_buffer
get_target_buffer_steps p = ground arith

get_target_buffer_bounds :
    (p : ℤ) → (pos 300 ≤ℤ get_target_buffer p) × (get_target_buffer p ≤ℤ pos 500)
unfolding get_target_buffer
get_target_buffer_bounds p = ground arith

pub compute_entry_price-WithinRange :
    (rounds_up : ℤ → Bool) (low : ℤ) (high : Option ℤ) (t : TradeType)
    → IsRange low high
    → WithinRange low high (compute_entry_price rounds_up low high t)
unfolding compute_entry_price
compute_entry_price-WithinRange up low none ranging h = refl
compute_entry_price-WithinRange up low none _ h = refl
compute_entry_price-WithinRange up low (some high) ranging h = ground (
  arith,
  round_div_between (up (low +ℤ high)) low high (low +ℤ high) (omega (arith, +ℤ_parts low high)) h,
)
compute_entry_price-WithinRange up low (some high) buy_above h = omega arith
compute_entry_price-WithinRange up low (some high) average h = omega arith

-- For a BUY the buffered stoploss lies below the trigger, for a SELL above.
abbrev pub StopsFrom : Action → ℤ → ℤ → Type 0
StopsFrom buy price stop = stop +ℤ pos 300 <ℤ price
StopsFrom sell price stop = price +ℤ pos 300 <ℤ stop

-- A second bound is on the same side of the stoploss as the entry.
abbrev pub RangeBehind : Action → Option ℤ → ℤ → Type 0
RangeBehind a none stop = Unit
RangeBehind a (some high) stop = StopsBehind a high stop

-- A target moved towards the entry by 3 to 5 points.
abbrev pub MovedIn : Action → ℤ → ℤ → Type 0
MovedIn buy t u = (u +ℤ pos 300 ≤ℤ t) × (t ≤ℤ u +ℤ pos 500)
MovedIn sell t u = (t +ℤ pos 300 ≤ℤ u) × (u ≤ℤ t +ℤ pos 500)

-- The same number of targets in the same order, each moved in.
abbrev pub AllMovedIn : Action → List ℤ → List ℤ → Type 0
AllMovedIn a [] [] = Unit
AllMovedIn a [] (u ∷ us) = ⊥
AllMovedIn a (t ∷ ts) [] = ⊥
AllMovedIn a (t ∷ ts) (u ∷ us) = MovedIn a t u × AllMovedIn a ts us

adjust_target-MovedIn : (a : Action) (t p : ℤ) → MovedIn a t (adjust_target t a p)
unfolding adjust_target
adjust_target-MovedIn buy t p = omega (int_laws, get_target_buffer_bounds p)
adjust_target-MovedIn sell t p = omega (int_laws, get_target_buffer_bounds p)

adjust_targets-AllMovedIn :
    (a : Action) (p : ℤ) (ts : List ℤ) → AllMovedIn a ts (map (λ t. adjust_target t a p) ts)
adjust_targets-AllMovedIn a p [] = tt
adjust_targets-AllMovedIn a p (t ∷ ts) =
    (adjust_target-MovedIn a t p, adjust_targets-AllMovedIn a p ts)

stoploss_apart :
    (a : Action) (low : ℤ) (high : Option ℤ) (stop price : ℤ)
    → StopsBehind a low stop
    → RangeBehind a high stop
    → WithinRange low high price
    → StopsFrom a price (adjust_stoploss stop a)
unfolding adjust_stoploss
stoploss_apart buy low none stop price h k w = grind (int_laws)
stoploss_apart sell low none stop price h k w = grind (int_laws)
stoploss_apart buy low (some high) stop price h k w = omega int_laws
stoploss_apart sell low (some high) stop price h k w = omega int_laws

-- For a valid signal whose second entry bound, if it has one, is not below the first and is on the
-- same side of the stoploss: the entry trigger is within the bounds of the entry, the buffered
-- stoploss is more than 3 points from the trigger on the losing side, and every target is moved
-- towards the entry by 3 to 5 points, with none dropped or reordered.
pub apply_buffer_brackets :
    (rounds_up : ℤ → Bool) (s : RawSignal)
    → IsValid s
    → IsRange s.entry_low s.entry_high
    → RangeBehind s.action s.entry_high s.stoploss
    → let adj = apply_buffer rounds_up s in
      WithinRange s.entry_low s.entry_high adj.entry_price
      × StopsFrom s.action adj.entry_price adj.stoploss_adj
      × AllMovedIn s.action s.targets adj.targets_adj
unfolding apply_buffer
apply_buffer_brackets up s v r b =
    let price = compute_entry_price up s.entry_low s.entry_high (buffer_trade_type s) in
    let within =
      compute_entry_price-WithinRange up s.entry_low s.entry_high (buffer_trade_type s) r in
    (
      within,
      stoploss_apart s.action s.entry_low s.entry_high s.stoploss price v.stops b within,
      adjust_targets-AllMovedIn s.action s.entry_low s.targets,
    )

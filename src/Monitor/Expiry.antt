-- ===== src/Monitor/Expiry.antt =====
-- When the price monitor decides to expire a signal.
use upstox_gtt.Common.{ℕ, ◌≤◌, ℤ, ◌≤ℤ◌, ◌<ℤ◌, ◌≡◌, ◌↔◌, ◌⊎◌, Bool, true, false, List, ◌∷◌, arith}
use upstox_gtt.Signal.{Action, buy, sell}
use upstox_gtt.Database.Signals.{is_pending}
use upstox_gtt.Monitor.{Trade, entry_range_touched, should_expire_trade}

-- The price has reached the target, or has passed it.
abbrev pub HasReached : Action → ℤ → ℤ → Type 0
HasReached buy ltp t = t ≤ℤ ltp
HasReached sell ltp t = ltp ≤ℤ t

abbrev pub HasPassed : Action → ℤ → ℤ → Type 0
HasPassed buy ltp t = t <ℤ ltp
HasPassed sell ltp t = ltp <ℤ t

-- What is asked of a tick by either setting of `use_entry_touch_logic`.
abbrev pub Expires : Bool → Trade → ℤ → ℕ → ℤ → Type 0
Expires false t ltp at target = HasReached t.action ltp target
Expires true t ltp at target =
    (t.signal_timestamp ≤ at)
    × ((t.range_touched ≡ true) ⊎ (entry_range_touched t ltp ≡ true))
    × HasPassed t.action ltp target

-- A signal with a target is expired exactly if it is PENDING and, by the old logic, the price has
-- reached the first target, or, by the new one, the tick is not before the signal, the price is in
-- the range of the entry now or was so before, and it has passed the first target.
pub should_expire_trade_iff :
    (use_touch : Bool) (t : Trade) (ltp : ℤ) (at : ℕ) (target : ℤ) (rest : List ℤ)
    → t.targets ≡ target ∷ rest
    → ((should_expire_trade use_touch t ltp at).0 ≡ true)
      ↔ ((is_pending t.status ≡ true) × Expires use_touch t ltp at target)
unfolding should_expire_trade
should_expire_trade_iff false t ltp at target rest e = (λ h. ground arith, λ h. ground arith)
should_expire_trade_iff true t ltp at target rest e = (λ h. ground arith, λ h. ground arith)

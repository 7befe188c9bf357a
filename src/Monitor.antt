-- ===== src/Monitor.antt =====
-- gtt_v2/services/price_monitor/main.py: the decision to expire a signal whose entry was not filled.
pub mod Checker
pub mod Expiry
pub mod Rows
pub mod Turns
pub mod Service
pub mod Cancelled
pub mod Stale
pub mod Events
pub mod Tracking
use upstox_gtt.Common.{
  ℕ, ℤ, pos, ◌+ℤ◌, leb_ℤ, ltb_ℤ, ltb, Bool, true, false, not, ◌&&◌, Option, none, some, List, [],
  ◌∷◌, String, if◌then◌else◌,
}
use upstox_gtt.Signal.{Action, is_buy, Status}
use upstox_gtt.Database.Signals.{is_pending}

-- An entry of `_thresholds`: the columns of the signal, and whether its range has been touched.
pub record Trade : Type 0 where
  pub id : ℕ
  pub instrument_key : String
  pub action : Action
  pub entry_low : Option ℤ
  pub entry_high : Option ℤ
  pub stoploss : Option ℤ
  pub targets : List ℤ
  pub status : Status
  pub gtt_order_ids : Option (List String)
  pub signal_timestamp : ℕ
  pub range_touched : Bool

-- `trade["t1"]` and `trade["entry_filled"]`, which the refresh works out.
abbrev pub t1 : Trade → Option ℤ
t1 t = elim t.targets [ [] ↦ none | x ∷ xs ↦ some x ]

abbrev pub entry_filled : Trade → Bool
entry_filled t = not (is_pending t.status)

abbrev within : Option ℤ → Option ℤ → ℤ → Bool
within none high ltp = false
within (some low) none ltp = leb_ℤ ltp (low +ℤ pos 500)
within (some low) (some high) ltp = leb_ℤ low ltp && leb_ℤ ltp high

-- `_entry_range_touched`.
unfoldable pub entry_range_touched : Trade → ℤ → Bool
entry_range_touched t ltp = within t.entry_low t.entry_high ltp

abbrev pub reaches : Action → ℤ → ℤ → Bool
reaches a ltp target = if is_buy a then leb_ℤ target ltp else leb_ℤ ltp target

abbrev pub crosses : Action → ℤ → ℤ → Bool
crosses a ltp target = if is_buy a then ltb_ℤ target ltp else ltb_ℤ ltp target

abbrev at_target : Option ℤ → (ℤ → Bool) → Bool
at_target none p = false
at_target (some target) p = p target

unfoldable pub old_expiry_logic : Trade → ℤ → Bool
old_expiry_logic t ltp =
    if is_pending t.status then at_target (t1 t) (λ target. reaches t.action ltp target) else false

abbrev pub mark : Trade → ℤ → Trade
mark t ltp = record t {
  range_touched = if t.range_touched then true else entry_range_touched t ltp;
}

-- `should_expire_trade`, with `use_entry_touch_logic`; it sets the mark of the trade.
unfoldable pub should_expire_trade : Bool → Trade → ℤ → ℕ → Bool × Trade
unfolding old_expiry_logic
should_expire_trade use_touch t ltp timestamp =
    if not use_touch
    then (old_expiry_logic t ltp, t)
    else if ltb timestamp t.signal_timestamp
    then (false, t)
    else let m = mark t ltp in
      if m.range_touched
      then (at_target (t1 t) (λ target. not (entry_filled t) && crosses t.action ltp target), m)
      else (false, m)

-- ===== src/Rules/MissedEntry.antt =====
-- gtt_v2/shared/rules/missed_entry.py: no order once the first target has been reached.
use upstox_gtt.Common.{
  ℕ, ℤ, ◌≡◌, ◌↔◌, ◌≢◌, Option-cases, inl, inr, ◌≤ℤ◌, leb_ℤ, String, str_eq, Option, none, some,
  List, [], ◌∷◌, arith, if◌then◌else◌, false,
}
use upstox_gtt.Redis.{Cell, read}
use upstox_gtt.Signal.{Action, buy, sell, AdjustedSignal}

-- The last traded price and the buffered target that it has reached.
pub data MissReason : Type 0 where
  already_above_target : ℤ → ℤ → MissReason
  already_below_target : ℤ → ℤ → MissReason

-- The tests on the last traded price; `none` lets the order through.
abbrev against_target : Action → ℤ → List ℤ → Option MissReason
against_target action ltp [] = none
against_target buy ltp (t ∷ ts) = if leb_ℤ t ltp then some (already_above_target ltp t) else none
against_target sell ltp (t ∷ ts) = if leb_ℤ ltp t then some (already_below_target ltp t) else none

abbrev against_price : AdjustedSignal → Option ℤ → Option MissReason
against_price adj none = none
against_price adj (some ltp) = against_target adj.raw.action ltp adj.targets_adj

-- `prices` is the key `ltp:{instrument_key}` of each instrument, read at `now`.
unfoldable pub check_missed_entry :
    ℕ → AdjustedSignal → (String → Option (Cell ℤ)) → Option MissReason
check_missed_entry now adj prices =
    if str_eq adj.instrument_key ""
    then none
    else against_price adj (read now (prices adj.instrument_key))

-- The price has reached the target in the direction of the trade.
abbrev pub HasReached : Action → ℤ → ℤ → Type 0
HasReached buy ltp t = t ≤ℤ ltp
HasReached sell ltp t = ltp ≤ℤ t

-- An order for a signal with a target is held back exactly if its instrument key is not empty, a
-- price of that instrument is live, and this price has reached the first buffered target.
pub check_missed_entry_iff :
    (now : ℕ) (adj : AdjustedSignal) (prices : String → Option (Cell ℤ)) (t : ℤ) (ts : List ℤ)
    → adj.targets_adj ≡ t ∷ ts
    → (check_missed_entry now adj prices ≢ none) ↔ (
        (str_eq adj.instrument_key "" ≡ false)
        × ((p : ℤ) × (read now (prices adj.instrument_key) ≡ some p)
            × HasReached adj.raw.action p t))
unfolding check_missed_entry
check_missed_entry_iff now adj prices t ts e =
    elim (Option-cases (read now (prices adj.instrument_key))) [
      | inl stale ↦ (λ h. ground arith, λ h. ground arith)
      | inr (p, live) ↦ (λ h. (ground arith, (p, live, ground arith)), λ h. ground arith)
    ]

-- ===== src/Rules/Timing.antt =====
-- gtt_v2/shared/rules/timing.py: the hours in which a signal may be placed.
use upstox_gtt.Common.{
  ℕ, ◌≤◌, ◌<◌, ◌≡◌, ◌↔◌, ◌⊎◌, ltb, leb, Bool, true, false, ◌&&◌, Option, none, some, arith,
  if◌then◌else◌,
}
use upstox_gtt.Clock.{time, time_of_day, weekday}
use upstox_gtt.Signal.{Profile, safe, risk}

pub data TimingReason : Type 0 where
  weekend before_market_open safe_before_9_30 after_entry_close : TimingReason

abbrev pub market_open : ℕ
market_open = time 9 15

abbrev pub safe_min_time : ℕ
safe_min_time = time 9 30

abbrev pub entry_close : ℕ
entry_close = time 15 30

abbrev pub is_safe : Profile → Bool
is_safe safe = true
is_safe risk = false

-- `MarketTimingGate.check`; `none` is `(True, "")`.
unfoldable pub check_time : ℕ → ℕ → Profile → Option TimingReason
check_time day t profile =
    if leb 5 day
    then some weekend
    else if ltb t market_open
    then some before_market_open
    else if ltb t safe_min_time && is_safe profile
    then some safe_before_9_30
    else if leb entry_close t
    then some after_entry_close
    else none

unfoldable pub check : ℕ → Profile → Option TimingReason
unfolding check_time
check now profile = check_time (weekday now) (time_of_day now) profile

-- The gate opens exactly on weekdays from 9:15, or from 9:30 for the SAFE profile, to before 15:30.
pub check_opens_iff :
    (now : ℕ) (profile : Profile)
    → (check now profile ≡ none) ↔ (
        (weekday now < 5)
        × (market_open ≤ time_of_day now)
        × ((safe_min_time ≤ time_of_day now) ⊎ (is_safe profile ≡ false))
        × (time_of_day now < entry_close))
unfolding check
check_opens_iff now profile = (λ h. ground arith, λ h. ground arith)

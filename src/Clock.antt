-- ===== src/Clock.antt =====
-- Wall-clock times. Instants are milliseconds since the epoch; the trading date is that of Indian
-- Standard Time, 5 hours and 30 minutes ahead of UTC.
use upstox_gtt.Common.{ℕ, ◌+◌, ◌*◌, ◌/◌, ◌%◌, ◌<◌, ◌≡◌, arith}

abbrev pub ms_per_day : ℕ
ms_per_day = 86_400_000

abbrev pub ist_offset : ℕ
ist_offset = 19_800_000

-- `datetime.now(IST).strftime("%Y%m%d")`, as the number of the day: equal exactly on one day.
unfoldable pub today_key : ℕ → ℕ
today_key now = (now + ist_offset) / ms_per_day

-- `datetime.now(IST).time()`, in milliseconds since midnight.
unfoldable pub time_of_day : ℕ → ℕ
time_of_day now = (now + ist_offset) % ms_per_day

-- `datetime.now(IST).weekday()`: Monday is 0, and the epoch was a Thursday.
unfoldable pub weekday : ℕ → ℕ
weekday now = ((now + ist_offset) / ms_per_day + 3) % 7

-- `time(hour, minute)`.
abbrev pub time : ℕ → ℕ → ℕ
time hour minute = (hour * 60 + minute) * 60_000

-- Two instants of one trading date are less than a day apart.
pub today_key_near : (a b : ℕ) → today_key a ≡ today_key b → b < a + ms_per_day
unfolding today_key
today_key_near a b h = omega arith

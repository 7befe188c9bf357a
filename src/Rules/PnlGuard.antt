-- ===== src/Rules/PnlGuard.antt =====
-- gtt_v2/shared/rules/pnl_guard.py, with the table of gtt_v2/shared/db/daily_pnl.py.
pub mod Latch
pub mod Agreement
use upstox_gtt.Common.{
  ℕ, ◌+◌, ℤ, pos, ◌+ℤ◌, ◌-ℤ◌, ◌*ℤ◌, leb_ℤ, ltb_ℤ, truthy_ℤ, Bool, true, false, ◌||◌, Option, none,
  some, List, [], ◌∷◌, get_or, if◌then◌else◌,
}
use upstox_gtt.Clock.{today_key}
use upstox_gtt.Redis.{Cell, read, set_ex, update_date}

-- `ACCOUNT_CAPITAL` and `DAILY_PNL_LIMIT_PCT`, the latter in hundredths of a percent.
pub record Limits : Type 0 where
  pub env_capital : ℤ
  pub limit_pct : ℕ

-- A row of the table `daily_pnl`.
pub record DailyPnl : Type 0 where
  pub realized_pnl : ℤ
  pub trade_count : ℕ
  pub pnl_limit_hit : Bool

-- The keys `pnl_limit:{date}`, `daily_pnl:{date}` and `daily_capital:{date}`, and the table.
pub record Ledger : Type 0 where
  pub pnl_limit : ℕ → Option (Cell Bool)
  pub daily_pnl : ℕ → Option (Cell ℤ)
  pub daily_capital : ℕ → Option (Cell ℤ)
  pub table : ℕ → Option DailyPnl

abbrev pub key_ttl : ℕ
key_ttl = 90_000

-- `pnl >= threshold or pnl <= -threshold`, with both sides multiplied by 10000.
abbrev pub beyond : ℤ → ℤ → ℕ → Bool
beyond pnl capital pct =
    leb_ℤ (capital *ℤ pos pct) (pnl *ℤ pos 10000)
    || leb_ℤ (pnl *ℤ pos 10000) (pos 0 -ℤ capital *ℤ pos pct)

abbrev pub flagged : Option Bool → Bool
flagged (some true) = true
flagged _ = false

abbrev pub set_limit : ℕ → Ledger → Ledger
set_limit now s = record s {
  pnl_limit = update_date s.pnl_limit (today_key now) (set_ex now true key_ttl);
}

-- The test of the realised total against the capital, the cached one or else the configured one
-- (a cached text is never empty). The Lua script and `record` both make it.
unfoldable pub limit_hit : Limits → ℕ → Ledger → Bool
limit_hit lim now s =
    let date = today_key now in
    beyond (get_or (pos 0) (read now (s.daily_pnl date)))
      (get_or lim.env_capital (read now (s.daily_capital date))) lim.limit_pct

-- The Lua script `_ALLOW_SCRIPT`, which Redis runs as one step.
unfoldable pub allow : Limits → ℕ → Ledger → Bool × Ledger
allow lim now s =
    if flagged (read now (s.pnl_limit (today_key now)))
    then (false, s)
    else if limit_hit lim now s
    then (false, set_limit now s)
    else (true, s)

-- `INCRBYFLOAT` keeps the expiry of a live key, and `EXPIRE` sets it.
abbrev pub add_pnl : ℕ → ℤ → Ledger → Ledger
add_pnl now pnl s =
    let date = today_key now in
    let total = get_or (pos 0) (read now (s.daily_pnl date)) +ℤ pnl in
    record s { daily_pnl = update_date s.daily_pnl date (set_ex now total key_ttl) }

-- The `INSERT … ON CONFLICT (trading_date) DO UPDATE` of daily_pnl.py.
abbrev pub added : ℤ → Option DailyPnl → DailyPnl
added pnl none = record { realized_pnl = pnl; trade_count = 1; pnl_limit_hit = false }
added pnl (some r) = record r {
  realized_pnl = r.realized_pnl +ℤ pnl;
  trade_count = r.trade_count + 1;
}

unfoldable pub upsert_daily_pnl : ℕ → ℤ → Ledger → Ledger
upsert_daily_pnl now pnl s =
    let date = today_key now in
    record s { table = update_date s.table date (some (added pnl (s.table date))) }

abbrev pub marked : Option DailyPnl → Option DailyPnl
marked none = none
marked (some r) = some (record r { pnl_limit_hit = true })

unfoldable pub mark_pnl_limit_hit : ℕ → Ledger → Ledger
mark_pnl_limit_hit now s =
    let date = today_key now in
    record s { table = update_date s.table date (marked (s.table date)) }

-- `DailyPnLGuard.record`.
unfoldable pub record_pnl : Limits → ℕ → ℤ → Ledger → Ledger
unfolding upsert_daily_pnl mark_pnl_limit_hit
record_pnl lim now pnl s =
    let s1 = add_pnl now pnl s in
    if limit_hit lim now s1
    then mark_pnl_limit_hit now (upsert_daily_pnl now pnl (set_limit now s1))
    else upsert_daily_pnl now pnl s1

-- The write of `_fetch_and_cache_capital`: only of a positive margin.
unfoldable pub cache_capital : ℕ → ℤ → Ledger → Ledger
cache_capital now available s =
    if ltb_ℤ (pos 0) available
    then record s {
      daily_capital = update_date s.daily_capital (today_key now) (set_ex now available key_ttl);
    }
    else s

-- What the services do to these keys, each at an instant.
pub data GuardOp : Type 0 where
  ask : ℕ → GuardOp
  book : ℕ → ℤ → GuardOp
  fetch : ℕ → ℤ → GuardOp

unfoldable pub perform : Limits → GuardOp → Ledger → Ledger
perform lim (ask now) s = (allow lim now s).1
perform lim (book now pnl) s = record_pnl lim now pnl s
perform lim (fetch now available) s = cache_capital now available s

unfoldable pub perform_all : Limits → List GuardOp → Ledger → Ledger
unfolding perform
perform_all lim [] s = s
perform_all lim (op ∷ ops) s = perform_all lim ops (perform lim op s)

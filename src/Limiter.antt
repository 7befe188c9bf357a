-- ===== src/Limiter.antt =====
-- gtt_v2/shared/redis/rate_limiter.py: a token bucket for each endpoint, in a Redis hash. Tokens are
-- counted in ten-thousandths, so that the refill in a millisecond is a whole number of them.
pub mod Budget
use upstox_gtt.Common.{
  ℕ, ◌+◌, ◌*◌, ℤ, pos, sub_ℕ, ◌+ℤ◌, ◌-ℤ◌, ◌*ℤ◌, ltb_ℤ, Bool, true, false, Option, none, some, List,
  [], ◌∷◌, String, str_eq, if◌then◌else◌, ltb,
}
use upstox_gtt.Redis.{Cell, read}

abbrev pub token : ℕ
token = 10_000

-- A row of `RATE_LIMITS`: the size of the bucket, and the refill of a millisecond.
pub record RateLimit : Type 0 where
  pub max_tokens : ℕ
  pub refill_per_ms : ℕ

abbrev limit : ℕ → ℕ → RateLimit
limit tokens refill = record { max_tokens = tokens * token; refill_per_ms = refill }

abbrev pub rate_limits : List (String × RateLimit)
rate_limits =
    ("gtt_place", limit 5 20)
    ∷ ("gtt_get", limit 10 50)
    ∷ ("gtt_cancel", limit 5 20)
    ∷ ("ltp_fetch", limit 20 100)
    ∷ ("order_history", limit 10 50)
    ∷ ("portfolio_ws_auth", limit 3 1)
    ∷ []

-- `RATE_LIMITS.get(endpoint, (10, 5.0))`
unfoldable pub find_limit : String → List (String × RateLimit) → RateLimit
find_limit endpoint [] = limit 10 50
find_limit endpoint ((name, l) ∷ rest) =
    if str_eq name endpoint then l else find_limit endpoint rest

-- The fields `tokens` and `last_refill` of the hash.
pub record Bucket : Type 0 where
  pub tokens : ℤ
  pub last_refill : ℕ

abbrev pub min_ℤ : ℤ → ℤ → ℤ
min_ℤ a b = if ltb_ℤ b a then b else a

-- What the bucket holds at `now`: a missing one is full. The clock may have gone back.
unfoldable pub refilled : RateLimit → ℕ → Option Bucket → ℤ
refilled l now none = pos l.max_tokens
refilled l now (some b) =
    min_ℤ (pos l.max_tokens) (b.tokens +ℤ sub_ℕ now b.last_refill *ℤ pos l.refill_per_ms)

-- `HMSET` and `PEXPIRE … 60000`.
abbrev pub store : ℕ → ℤ → Option (Cell Bucket)
store now tokens =
    some (record { value = record { tokens = tokens; last_refill = now }; expires = now + 60_000 })

-- The Lua script, one step of Redis.
unfoldable pub take_token : RateLimit → ℕ → Option (Cell Bucket) → Bool × Option (Cell Bucket)
take_token l now cell =
    let tokens = refilled l now (read now cell) in
    if ltb_ℤ tokens (pos token)
    then (false, store now tokens)
    else (true, store now (tokens -ℤ pos token))

-- `acquire`, with the hash of each endpoint.
unfoldable pub acquire :
    String → ℕ → (String → Option (Cell Bucket)) → Bool × (String → Option (Cell Bucket))
unfolding take_token find_limit
acquire endpoint now buckets =
    let (allowed, cell) = take_token (find_limit endpoint rate_limits) now (buckets endpoint) in
    (allowed, λ j. if str_eq endpoint j then cell else buckets j)

-- How many of a run of calls are let through, and the bucket after them.
unfoldable pub grants : RateLimit → List ℕ → Option (Cell Bucket) → ℕ × Option (Cell Bucket)
grants l [] cell = (0, cell)
grants l (now ∷ times) cell =
    let (allowed, cell1) = take_token l now cell in
    let (n, cell2) = grants l times cell1 in (if allowed then n + 1 else n, cell2)

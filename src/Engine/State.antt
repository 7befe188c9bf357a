-- ===== src/Engine/State.antt =====
-- What gtt_v2/services/trading_engine/main.py keeps, and what surrounds it.
use upstox_gtt.Common.{ℕ, zero, suc, ℤ, Bool, Option, List, [], ◌∷◌, String, ltb_ℤ, if◌then◌else◌}
use upstox_gtt.Redis.{Cell}
use upstox_gtt.Signal.{Profile, OptionType, Date, RawSignal}
use upstox_gtt.Rules.PnlGuard.{Limits, Ledger}
use upstox_gtt.Limiter.{Bucket}
use upstox_gtt.Client.{CircuitBreaker, Attempt}
use upstox_gtt.Database.{BlockReason, Tables}
use upstox_gtt.Database.Writer.{DbWrite}
use upstox_gtt.Instruments.{Cache}
use upstox_gtt.GttBuilder.{Payload, LotEnv}

-- The settings that `process_signal` reads.
pub record Settings : Type 0 where
  pub dry_run : Bool
  pub trader_profile : Profile
  pub default_quantity : ℕ
  pub limits : Limits
  pub lots : LotEnv

-- The arguments of `compute_signal_hash`.
pub record SignalKey : Type 0 where
  pub underlying : String
  pub strike : Option ℕ
  pub option_type : Option OptionType
  pub entry_low : ℤ
  pub stoploss : ℤ
  pub targets : List ℤ
  pub expiry : Option Date

-- The connection to the database at the insert of a row: it holds, or is lost before the statement is
-- run, or after it has been committed.
pub data Connection : Type 0 where
  reachable lost_before lost_after : Connection

-- What one call meets: the clock, what the network does at each attempt to place the GTT (a body
-- is the list `data.gtt_order_ids`), the connection to the database, and the name of a dry run.
pub record Surroundings : Type 0 where
  pub now : ℕ
  pub net : ℕ → Attempt (List String)
  pub database : Connection
  pub trace_id : String

-- One POST of a GTT to Upstox, with the hash of its signal.
pub record Sent : Type 0 where
  pub hash : Option String
  pub payload : Payload

-- A request that posts its payload `n` times.
unfoldable pub posts : ℕ → Sent → List Sent
posts zero x = []
posts (suc n) x = x ∷ posts n x

-- Redis, the database, the write queue, the client and the instrument cache.
pub record Engine : Type 0 where
  pub ledger : Ledger
  pub buckets : String → Option (Cell Bucket)
  pub prices : String → Option (Cell ℤ)
  pub tables : Tables
  pub queue : List DbWrite
  pub circuit : CircuitBreaker
  pub cache : Cache
  pub sent : List Sent
  pub subscribed : List String

-- Exceptions that leave `process_signal`: `UniqueViolationError`, `PostgresConnectionError`,
-- `HTTPStatusError`, and any other one.
pub data Exception : Type 0 where
  unique_violation connection_lost other_error : Exception
  http_status : ℕ → Exception

-- How `process_signal` ends.
pub data Verdict : Type 0 where
  parse_failed duplicate_signal : Verdict
  blocked_for failed_for : BlockReason → Verdict
  placed : List String → Verdict
  raises : Exception → Verdict

-- `sorted(targets)`.
unfoldable pub insert_sorted : ℤ → List ℤ → List ℤ
insert_sorted x [] = x ∷ []
insert_sorted x (y ∷ ys) = if ltb_ℤ y x then y ∷ insert_sorted x ys else x ∷ y ∷ ys

unfoldable pub sorted : List ℤ → List ℤ
unfolding insert_sorted
sorted [] = []
sorted (x ∷ xs) = insert_sorted x (sorted xs)

-- `compute_signal_hash` of a signal; `digest` is SHA-256 of the JSON text of the key.
unfoldable pub signal_key : RawSignal → SignalKey
unfolding sorted
signal_key s = record {
  underlying = s.underlying;
  strike = s.strike;
  option_type = s.option_type;
  entry_low = s.entry_low;
  stoploss = s.stoploss;
  targets = sorted s.targets;
  expiry = s.expiry;
}

unfoldable pub compute_signal_hash : (SignalKey → String) → RawSignal → String
unfolding signal_key
compute_signal_hash digest s = digest (signal_key s)

-- ===== src/Engine/Loop.antt =====
-- The messages of the stream: the helpers of gtt_v2/shared/redis/client.py, and the two loops of `main` of
-- gtt_v2/services/trading_engine/main.py that handle them. What Redis answers is given.
pub mod Pending
pub mod Batch
pub mod Runs
pub mod Accounts
use upstox_gtt.Common.{
  ℤ, Bool, true, false, Option, none, some, List, [], ◌∷◌, ◌++◌, String, if◌then◌else◌, is_empty,
}
use upstox_gtt.Signal.{Date}
use upstox_gtt.Signal.Parser.{Message, parse_message_to_signal}
use upstox_gtt.Engine.State.{Settings, SignalKey, Surroundings, Engine, Verdict, raises}
use upstox_gtt.Engine.Stages.{process_signal, acknowledged}

-- A message by its id.
abbrev pub Entry : Type 0
Entry = String × Message

-- `xreadgroup` answers with the entries of each stream that was asked, or with nothing.
abbrev pub Streams : Type 0
Streams = List (String × List Entry)

unfoldable pub stream_read_group : Streams → List Entry
stream_read_group [] = []
stream_read_group ((stream, entries) ∷ more) = entries ++ stream_read_group more

-- `xautoclaim` answers with messages, of which those that were deleted have no fields.
unfoldable pub stream_reclaim_pending : List (String × Option Message) → List Entry
stream_reclaim_pending [] = []
stream_reclaim_pending ((id, none) ∷ more) = stream_reclaim_pending more
stream_reclaim_pending ((id, some fields) ∷ more) =
    let rest = stream_reclaim_pending more in if is_empty fields then rest else (id, fields) ∷ rest

-- A message that is handled, with what its handling meets.
pub record Delivery : Type 0 where
  pub id : String
  pub fields : Message
  pub env : Surroundings

-- The engine, and the ids that were acknowledged, the last one first.
pub record Progress : Type 0 where
  pub engine : Engine
  pub acked : List String

abbrev pub ack_if : Bool → String → Engine → List String → Progress
ack_if true id e acked = record { engine = e; acked = id ∷ acked }
ack_if false id e acked = record { engine = e; acked = acked }

-- In the loop over reclaimed messages every exception leaves the message pending.
abbrev pub completed : Verdict → Bool
completed (raises x) = false
completed _ = true

pub record Reader : Type 0 where
  pub to_float : String → Option ℤ
  pub parse_expiry_date : String → Option Date
  pub default : ℤ

module _ (cfg : Settings) (rounds_up : ℤ → Bool) (digest : SignalKey → String) (r : Reader) where
  -- `process_signal`, from the message on.
  unfoldable pub handle : Delivery → Engine → Verdict × Engine
  handle d e =
      process_signal cfg d.env rounds_up digest
        (parse_message_to_signal r.to_float r.parse_expiry_date r.default d.fields d.id) e

  -- One batch of the consumer loop.
  unfoldable pub consume : List Delivery → Progress → Progress
  unfolding handle
  consume [] p = p
  consume (d ∷ ds) p =
      let (v, e) = handle d p.engine in consume ds (ack_if (acknowledged v) d.id e p.acked)

  -- The loop over the reclaimed messages at the start.
  unfoldable pub reclaim : List Delivery → Progress → Progress
  unfolding handle
  reclaim [] p = p
  reclaim (d ∷ ds) p =
      let (v, e) = handle d p.engine in reclaim ds (ack_if (completed v) d.id e p.acked)

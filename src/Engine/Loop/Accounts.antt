-- ===== src/Engine/Loop/Accounts.antt =====
-- Which messages of a batch are acknowledged.
use mathlib.Core.List.{Memᴰ}
use upstox_gtt.Common.{ℕ, ℤ, some, ◌≡◌, ◌⊎◌, Bool, List, [], ◌∷◌, String}
use upstox_gtt.Signal.Parser.{parse_message_to_signal}
use upstox_gtt.Signal.{RawSignal}
use upstox_gtt.Engine.Effects.{NewRow}
use upstox_gtt.Engine.State.{Settings, SignalKey, Surroundings, Engine, compute_signal_hash}
use upstox_gtt.Engine.Stages.{acknowledged}
use upstox_gtt.Engine.Loop.{Delivery, Progress, Reader, ack_if, handle}
use upstox_gtt.Engine.Loop.Pending.{Untouched}

-- The table of signals is as it was, or has one more row, PENDING and with the hash `h`.
abbrev pub RowsKept : Settings → Surroundings → String → Engine → Engine → Type 0
RowsKept cfg env h e e' =
    (e'.tables.signals ≡ e.tables.signals) ⊎ ((id : ℕ) × NewRow cfg env h e.tables id e')

module _ (cfg : Settings) (rounds_up : ℤ → Bool) (digest : SignalKey → String) (r : Reader) where
  -- The message was read, its handling posted and enqueued nothing, and the rows are kept, or have one more.
  abbrev pub LeftPending : Delivery → Engine → Type 0
  LeftPending d e =
      let e' = (handle cfg rounds_up digest r d e).1 in
      (s : RawSignal) × (parse_message_to_signal r.to_float r.parse_expiry_date r.default d.fields
          d.id
        ≡ some s)
      × Untouched e e'
      × RowsKept cfg d.env (compute_signal_hash digest s) e e'

  -- The state in which the rest of a batch is handled.
  abbrev pub after_one : Delivery → Progress → Progress
  after_one d p =
      let (v, e) = handle cfg rounds_up digest r d p.engine in
      ack_if (acknowledged v) d.id e p.acked

  -- Each message of the batch is acknowledged, or left pending by its handling.
  abbrev pub Accounted : List Delivery → Progress → List String → Type 0
  Accounted [] p acked = Unit
  Accounted (d ∷ ds) p acked =
      (Memᴰ d.id acked ⊎ LeftPending d p.engine) × Accounted ds (after_one d p) acked

-- ===== src/Database/Writer.antt =====
-- gtt_v2/shared/db/writer.py: the queue of writes that the services leave to one task.
pub mod Order
use upstox_gtt.Common.{
  ℕ, ◌+◌, ltb, ℤ, Bool, true, false, Option, none, some, List, [], ◌∷◌, ◌++◌, String, length,
  if◌then◌else◌,
}
use upstox_gtt.Signal.{Status, blocked}
use upstox_gtt.Database.{BlockReason, SignalData, SignalRow, RuleData, PriceEvent, Tables}
use upstox_gtt.Database.Signals.{
  Inserted, new_id, duplicate, violation, insert_signal, update_signal_status, update_rows, has_id,
}
use upstox_gtt.Database.Rules.{upsert_gtt_rule}

-- The functions that are enqueued, with their arguments.
pub data DbWrite : Type 0 where
  write_status : ℕ → Status → Option BlockReason → Option (List String) → Option ℤ → DbWrite
  write_rule : RuleData → DbWrite
  write_block : SignalData → BlockReason → DbWrite
  write_touched : ℕ → DbWrite
  write_event : PriceEvent → DbWrite

-- `_do` of `_block_signal`: the status again, with the reason, for a row that is new.
abbrev block_inserted : ℕ → BlockReason → Inserted × Tables → Tables
block_inserted now reason (new_id id, t) =
    update_signal_status now id blocked (some reason) none none t
block_inserted now reason (duplicate, t) = t
block_inserted now reason (violation, t) = t

abbrev pub touch : SignalRow → SignalRow
touch r = record r { entry_range_touched = true }

-- One write; an exception is logged and leaves what the statement left.
unfoldable pub apply_write : ℕ → DbWrite → Tables → Tables
unfolding update_rows
apply_write now (write_status id status reason gtt_ids ltp) t =
    update_signal_status now id status reason gtt_ids ltp t
apply_write now (write_rule d) t = upsert_gtt_rule d t
apply_write now (write_block d reason) t = block_inserted now reason (insert_signal now d t)
apply_write now (write_touched id) t = update_rows (has_id id) touch t
apply_write now (write_event e) t = record t { price_events = t.price_events ++ e ∷ [] }

abbrev pub max_queue : ℕ
max_queue = 10_000

-- `put_nowait`: a full queue drops the write.
unfoldable pub enqueue : DbWrite → List DbWrite → List DbWrite
enqueue w queue = if ltb (length queue) max_queue then queue ++ w ∷ [] else queue

-- `run`: the writes in the order of the queue, each at the instant that the clock shows.
unfoldable pub drain : ℕ → List DbWrite → Tables → Tables
unfolding apply_write
drain now [] t = t
drain now (w ∷ queue) t = drain now queue (apply_write now w t)

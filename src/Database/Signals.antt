-- ===== src/Database/Signals.antt =====
-- gtt_v2/shared/db/signals.py: the repository of the table `signals`.
pub mod Unique
pub mod Lifecycle
use upstox_gtt.Common.{
  ℕ, ◌+◌, ◌*◌, ◌==◌, ltb, ℤ, Bool, true, false, ◌&&◌, Option, none, some, List, [], ◌∷◌, ◌++◌, map,
  String, str_eq, any, find, keep, coalesce, if◌then◌else◌,
}
use upstox_gtt.Signal.{
  Status, pending, active, target1_hit, target2_hit, target3_hit, stoploss_hit, expired, cancelled,
  failed, blocked,
}
use upstox_gtt.Database.{BlockReason, SignalData, SignalRow, Tables}

-- How an insert ends: with the new id, with no row because the hash is there, or with a
-- `UniqueViolationError` because only the message id is there.
pub data Inserted : Type 0 where
  new_id : ℕ → Inserted
  duplicate : Inserted
  violation : Inserted

-- NULL equals no hash.
abbrev pub same_hash : Option String → Option String → Bool
same_hash (some a) (some b) = str_eq a b
same_hash _ _ = false

unfoldable pub hash_taken : Option String → List SignalRow → Bool
hash_taken h = any (λ r. same_hash h r.inserted.signal_hash)

unfoldable pub message_taken : String → List SignalRow → Bool
message_taken m = any (λ r. str_eq m r.inserted.redis_message_id)

abbrev pub new_row : ℕ → ℕ → SignalData → SignalRow
new_row now id d = record {
  id = id;
  inserted = d;
  status = d.status;
  block_reason = none;
  gtt_order_ids = none;
  entry_price = none;
  exit_price = none;
  pnl = none;
  ltp_at_placement = none;
  entry_range_touched = false;
  signal_at = now;
  activated_at = none;
  resolved_at = none;
  last_event_at = now;
}

-- `INSERT … ON CONFLICT (signal_hash) DO NOTHING RETURNING id`; the sequence of ids moves on in any
-- case.
unfoldable pub insert_signal : ℕ → SignalData → Tables → Inserted × Tables
insert_signal now d t =
    if hash_taken d.signal_hash t.signals
    then (duplicate, record t { next_id = t.next_id + 1 })
    else if message_taken d.redis_message_id t.signals
    then (violation, record t { next_id = t.next_id + 1 })
    else (
      new_id t.next_id,
      record t { signals = t.signals ++ new_row now t.next_id d ∷ []; next_id = t.next_id + 1 },
    )

-- `UPDATE signals SET … WHERE …`.
unfoldable pub update_rows : (SignalRow → Bool) → (SignalRow → SignalRow) → Tables → Tables
update_rows where_ f t = record t { signals = map (λ r. if where_ r then f r else r) t.signals }

abbrev pub has_id : ℕ → SignalRow → Bool
has_id id r = r.id == id

-- The statuses that stamp `resolved_at`.
abbrev pub resolves : Status → Bool
resolves target1_hit = true
resolves target2_hit = true
resolves target3_hit = true
resolves stoploss_hit = true
resolves expired = true
resolves cancelled = true
resolves failed = true
resolves _ = false

abbrev pub is_active : Status → Bool
is_active active = true
is_active _ = false

abbrev pub is_pending : Status → Bool
is_pending pending = true
is_pending _ = false

unfoldable pub set_status :
    ℕ → Status → Option BlockReason → Option (List String) → Option ℤ → SignalRow → SignalRow
set_status now status reason gtt_ids ltp r = record r {
  status = status;
  block_reason = coalesce reason r.block_reason;
  gtt_order_ids = coalesce gtt_ids r.gtt_order_ids;
  ltp_at_placement = coalesce ltp r.ltp_at_placement;
  activated_at = if is_active status then coalesce r.activated_at (some now) else r.activated_at;
  resolved_at = if resolves status then some now else r.resolved_at;
  last_event_at = now;
}

unfoldable pub update_signal_status :
    ℕ → ℕ → Status → Option BlockReason → Option (List String) → Option ℤ → Tables → Tables
unfolding update_rows set_status
update_signal_status now id status reason gtt_ids ltp =
    update_rows (has_id id) (set_status now status reason gtt_ids ltp)

unfoldable pub set_pnl : ℕ → ℤ → ℤ → ℤ → SignalRow → SignalRow
set_pnl now entry exit pnl r = record r {
  entry_price = some entry;
  exit_price = some exit;
  pnl = some pnl;
  activated_at = coalesce r.activated_at (some now);
  last_event_at = now;
}

unfoldable pub update_signal_pnl : ℕ → ℕ → ℤ → ℤ → ℤ → Tables → Tables
unfolding update_rows set_pnl
update_signal_pnl now id entry exit pnl = update_rows (has_id id) (set_pnl now entry exit pnl)

unfoldable pub get_signal : ℕ → Tables → Option SignalRow
get_signal id t = find (has_id id) t.signals

-- `status = 'PENDING' AND signal_at < now() - make_interval(hours => $1)`.
unfoldable pub get_signals_older_than : ℕ → ℕ → Tables → List SignalRow
get_signals_older_than now hours t =
    keep (λ r. is_pending r.status && ltb (r.signal_at + hours * 3_600_000) now) t.signals

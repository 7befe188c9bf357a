-- ===== src/First/Store/Signals.antt =====
-- db.py: the functions that write a row of `signals`.
use upstox_gtt.Common.{
  ℕ, ◌+◌, ℤ, Bool, ◌||◌, Option, none, some, List, [], ◌∷◌, ◌++◌, String, str_eq, if◌then◌else◌,
  any, is_some, coalesce,
}
use upstox_gtt.First.Store.{Columns, Leg, Row, Tables, update_row, update}

abbrev pub empty_leg : Leg
empty_leg = record { rule_status = none; order_id = none }

abbrev pub first_of : List String → Option String
first_of [] = none
first_of (x ∷ xs) = some x

-- `"GTT_PLACED" if status == "PENDING" else status`.
abbrev pub tracker_of : String → String
tracker_of status = if str_eq status "PENDING" then "GTT_PLACED" else status

abbrev pub new_row : ℕ → ℕ → Columns → List String → String → Option String → Row
new_row now id d gtt_ids status notes = record {
  id = id;
  inserted = record d {
    signal_at = now;
    gtt_placed_at = if str_eq status "PENDING" then some now else none;
  };
  status = status;
  tracker_status = tracker_of status;
  gtt_order_ids = gtt_ids;
  gtt_order_id = first_of gtt_ids;
  entry_leg = empty_leg;
  target_leg = empty_leg;
  stoploss_leg = empty_leg;
  entry_price = none;
  exit_price = none;
  pnl = none;
  upstox_gtt_status = none;
  activated_at = none;
  resolved_at = none;
  last_event_at = now;
  notes = notes;
}

abbrev pub has_message : String → Row → Bool
has_message m r = str_eq r.inserted.redis_message_id m

-- `INSERT OR IGNORE`: the id of the new row, or none where the message has a row.
unfoldable pub insert_signal :
    ℕ → Columns → List String → String → Option String → Tables → Option ℕ × Tables
insert_signal now d gtt_ids status notes t =
    if any (has_message d.redis_message_id) t.signals then (none, t) else (
      some t.next_id,
      record t {
        signals = t.signals ++ new_row now t.next_id d gtt_ids status notes ∷ [];
        next_id = t.next_id + 1;
      },
    )

-- The statuses that `update_signal_status` takes as final.
abbrev pub is_terminal : String → Bool
is_terminal s =
    str_eq s "TARGET1_HIT"
    || str_eq s "STOPLOSS_HIT"
    || str_eq s "EXPIRED"
    || str_eq s "FAILED"
    || str_eq s "CANCELLED"

abbrev pub set_status : ℕ → String → Option String → Row → Row
set_status now s notes r = record r {
  status = s;
  tracker_status = s;
  resolved_at = if is_terminal s then some now else r.resolved_at;
  last_event_at = now;
  notes = coalesce notes r.notes;
}

unfoldable pub update_signal_status : ℕ → ℕ → String → Option String → Tables → Tables
unfolding update_row
update_signal_status now id s notes t = update id (set_status now s notes) t

abbrev pub set_active : ℕ → Row → Row
set_active now r = record r {
  status = "ACTIVE";
  tracker_status = "ENTRY_EXECUTED";
  activated_at = some now;
  last_event_at = now;
}

unfoldable pub update_signal_activated : ℕ → ℕ → Tables → Tables
unfolding update_row
update_signal_activated now id t = update id (set_active now) t

abbrev pub set_entry : ℕ → ℤ → Row → Row
set_entry now price r = record (set_active now r) { entry_price = some price }

unfoldable pub update_signal_entry_executed : ℕ → ℕ → ℤ → Tables → Tables
unfolding update_row
update_signal_entry_executed now id price t = update id (set_entry now price) t

abbrev pub set_exit : ℕ → ℤ → ℤ → String → Row → Row
set_exit now price pnl reason r = record r {
  status = reason;
  tracker_status = reason;
  exit_price = some price;
  pnl = some pnl;
  resolved_at = some now;
  last_event_at = now;
}

unfoldable pub update_signal_exit_executed : ℕ → ℕ → ℤ → ℤ → String → Tables → Tables
unfolding update_row
update_signal_exit_executed now id price pnl reason t = update id (set_exit now price pnl reason) t

unfoldable pub update_signal_upstox_status : ℕ → ℕ → String → Tables → Tables
unfolding update_row
update_signal_upstox_status now id s t =
    update id (λ r. record r { upstox_gtt_status = some s; last_event_at = now }) t

-- Only the prices that are given are written.
abbrev pub set_prices : ℕ → Option ℤ → Option ℤ → Option ℤ → Row → Row
set_prices now entry exit pnl r = record r {
  entry_price = coalesce entry r.entry_price;
  exit_price = coalesce exit r.exit_price;
  pnl = coalesce pnl r.pnl;
  last_event_at = now;
}

unfoldable pub backfill_signal_prices : ℕ → ℕ → Option ℤ → Option ℤ → Option ℤ → Tables → Tables
unfolding update_row
backfill_signal_prices now id entry exit pnl t =
    if is_some entry || is_some exit || is_some pnl
    then update id (set_prices now entry exit pnl) t
    else t

abbrev pub set_tracker : ℕ → Option String → Option String → Option String → Row → Row
set_tracker now tracker upstox notes r = record r {
  tracker_status = elim tracker [ none ↦ r.tracker_status | some s ↦ s ];
  upstox_gtt_status = coalesce upstox r.upstox_gtt_status;
  notes = coalesce notes r.notes;
  last_event_at = now;
}

unfoldable pub update_tracker_fields :
    ℕ → ℕ → Option String → Option String → Option String → Tables → Tables
unfolding update_row
update_tracker_fields now id tracker upstox notes t =
    update id (set_tracker now tracker upstox notes) t

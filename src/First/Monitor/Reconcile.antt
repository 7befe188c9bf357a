-- ===== src/First/Monitor/Reconcile.antt =====
-- price_monitor.py: the details of a GTT from the API against the row of its signal.
use upstox_gtt.Common.{
  ℕ, ◌==◌, ℤ, pos, Bool, true, false, not, ◌&&◌, ◌||◌, Option, none, some, List, [], ◌∷◌, String,
  str_eq, if◌then◌else◌, get_or, is_some, upper, lower, truthy_ℤ, keep,
}
use upstox_gtt.First.Store.{Row, insert_price_event, insert_gtt_status_check}
use upstox_gtt.First.Store.Signals.{
  update_signal_entry_executed, update_signal_exit_executed, update_signal_upstox_status,
  backfill_signal_prices,
}
use upstox_gtt.First.Store.Orders.{get_signals_with_gtt_ids, get_signals_needing_backfill}
use upstox_gtt.First.Prices.{or_else, profit}
use upstox_gtt.First.Monitor.{Watched, Monitor, action_of, given, is_market_hours}

pub record RuleData : Type 0 where
  pub strategy : String
  pub status : String
  pub price : Option ℤ
  pub trigger_price : Option ℤ

pub record GttData : Type 0 where
  pub status : String
  pub rules : List RuleData

-- What the rules say: the price of the entry, and that of the exit with its reason.
pub record Fills : Type 0 where
  pub entry : Option ℤ
  pub exit : Option (ℤ × String)

abbrev pub fill_price : RuleData → ℤ
fill_price x = get_or (pos 0) (or_else (or_else x.price x.trigger_price) (some (pos 0)))

abbrev pub add_rule : RuleData → Fills → Fills
add_rule x f =
    if not (str_eq (upper x.status) "TRIGGERED")
    then f
    else if str_eq (upper x.strategy) "ENTRY"
    then record f { entry = some (fill_price x) }
    else if str_eq (upper x.strategy) "TARGET"
    then record f { exit = some (fill_price x, "TARGET1_HIT") }
    else if str_eq (upper x.strategy) "STOPLOSS"
    then record f { exit = some (fill_price x, "STOPLOSS_HIT") }
    else f

unfoldable pub read_rules : List RuleData → Fills → Fills
unfolding upper
read_rules [] f = f
read_rules (x ∷ xs) f = read_rules xs (add_rule x f)

abbrev pub is_final : String → Bool
is_final s =
    str_eq s "CANCELLED" || str_eq s "EXPIRED" || str_eq s "TARGET1_HIT" || str_eq s "STOPLOSS_HIT"

-- The signal leaves the cache, or is ACTIVE in it.
abbrev pub drop : ℕ → List Watched → List Watched
drop id = keep (λ w. not (w.signal.id == id))

unfoldable pub activate : ℕ → ℤ → List Watched → List Watched
activate id price [] = []
activate id price (w ∷ ws) =
    (if w.signal.id == id
      then record w { signal = record w.signal { status = "ACTIVE"; entry_price = some price } }
      else w)
    ∷ activate id price ws

-- A GTT that ended without a fill.
abbrev pub end_signal : ℕ → Row → String → String → Monitor → Monitor
end_signal now r status event m = if is_final r.status then m else record m {
  cache = drop r.id m.cache;
  tables =
      insert_price_event r.id event (pos 0) none
        (update_signal_exit_executed now r.id (pos 0) (pos 0) status m.tables);
}

abbrev pub if_missing : Option ℤ → Option ℤ → Option ℤ
if_missing none x = x
if_missing (some y) x = none

abbrev pub exit_price : Fills → Option ℤ
exit_price f = elim f.exit [ none ↦ none | some e ↦ some e.0 ]

module _ (rounds_up : ℤ → Bool) where
  -- The price of the entry: that of the rules, of the row, or of the placing.
  abbrev pub actual_entry : Row → Fills → ℤ
  actual_entry r f =
      get_or (pos 0) (
        or_else (or_else f.entry (or_else r.entry_price r.inserted.gtt_place_price)) (some (pos 0)))

  -- The prices that are missing in the row.
  abbrev pub backfill : ℕ → Row → Fills → Monitor → Monitor
  backfill now r f m =
      let entry = if_missing r.entry_price f.entry in
      let exit = if_missing r.exit_price (exit_price f) in
      let pnl =
        if given exit && truthy_ℤ (actual_entry r f) && not (is_some r.pnl)
        then some (
            profit rounds_up (action_of r) r.inserted.quantity (actual_entry r f)
              (get_or (pos 0) exit))
        else none in
      record m { tables = backfill_signal_prices now r.id entry exit pnl m.tables }

  abbrev pub book_entry : ℕ → Row → Fills → Monitor → Monitor
  book_entry now r f m =
      if given f.entry && str_eq r.status "PENDING"
      then record m {
        cache = activate r.id (get_or (pos 0) f.entry) m.cache;
        tables =
            insert_price_event r.id "GTT_ENTRY_EXECUTED" (get_or (pos 0) f.entry)
              (some r.inserted.entry_low)
              (update_signal_entry_executed now r.id (get_or (pos 0) f.entry) m.tables);
      }
      else m

  abbrev pub book_exit : ℕ → Row → Fills → Option (ℤ × String) → Monitor → Monitor
  book_exit now r f none m = m
  book_exit now r f (some (price, reason)) m =
      if truthy_ℤ price && not (is_final r.status)
      then record m {
        cache = drop r.id m.cache;
        tables = insert_price_event r.id "GTT_EXIT_EXECUTED" price none (
            update_signal_exit_executed now r.id price
              (profit rounds_up (action_of r) r.inserted.quantity (actual_entry r f) price) reason
              m.tables);
      }
      else m

  -- `_process_gtt_reconciliation`.
  unfoldable pub process_gtt_reconciliation : ℕ → Row → GttData → Bool → Monitor → Monitor
  unfolding read_rules activate profit upper lower
  process_gtt_reconciliation now r g force_backfill m0 =
      let m = record m0 {
        tables = update_signal_upstox_status now r.id (lower g.status) m0.tables;
      } in
      let f = read_rules g.rules (record { entry = none; exit = none }) in
      let status = upper g.status in
      if str_eq status "ACTIVE" && not force_backfill
      then m
      else if str_eq status "CANCELLED"
      then end_signal now r "CANCELLED" "GTT_CANCELLED" m
      else if str_eq status "EXPIRED"
      then end_signal now r "EXPIRED" "GTT_EXPIRED" m
      else if force_backfill
      then backfill now r f m
      else book_exit now r f f.exit (book_entry now r f m)

  abbrev pub reconcile_gtt : ℕ → (String → Option GttData) → Bool → Row → String → Monitor → Monitor
  reconcile_gtt now fetch force r gtt_id m = elim (fetch gtt_id) [
    | none ↦ m
    | some g ↦
        let m1 = process_gtt_reconciliation now r g force m in
        record m1 { tables = insert_gtt_status_check r.id gtt_id g.status m1.tables }
  ]

  unfoldable pub reconcile_ids :
      ℕ → (String → Option GttData) → Bool → Row → List String → Monitor → Monitor
  unfolding process_gtt_reconciliation
  reconcile_ids now fetch force r [] m = m
  reconcile_ids now fetch force r (g ∷ gs) m =
      reconcile_ids now fetch force r gs (reconcile_gtt now fetch force r g m)

  unfoldable pub reconcile_rows :
      ℕ → (String → Option GttData) → Bool → List Row → Monitor → Monitor
  unfolding reconcile_ids
  reconcile_rows now fetch force [] m = m
  reconcile_rows now fetch force (r ∷ rs) m =
      reconcile_rows now fetch force rs (reconcile_ids now fetch force r r.gtt_order_ids m)

  -- `_run_startup_backfill`, and a round of `_gtt_reconciler_loop`.
  unfoldable pub run_startup_backfill : ℕ → (String → Option GttData) → Monitor → Monitor
  unfolding reconcile_rows
  run_startup_backfill now fetch m =
      reconcile_rows now fetch true (get_signals_needing_backfill m.tables) m

  unfoldable pub reconcile_round : ℕ → (String → Option GttData) → Monitor → Monitor
  unfolding reconcile_rows is_market_hours
  reconcile_round now fetch m =
      if is_market_hours now
      then reconcile_rows now fetch false (get_signals_with_gtt_ids m.tables) m
      else m

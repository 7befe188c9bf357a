-- ===== src/First/Tracker/Updates.antt =====
-- upstox_order_tracker.py: the messages on GTTs and orders, and the reconciliation at the start.
use upstox_gtt.Common.{
  ℕ, ℤ, Bool, ◌&&◌, Option, none, some, List, [], ◌∷◌, String, str_eq, if◌then◌else◌, get_or,
  is_blank, upper, before,
}
use upstox_gtt.First.Store.{
  Row, Rule, OrderPayload, Trade, Tables, insert_gtt_status_check, insert_order_update,
  record_upstox_event,
}
use upstox_gtt.First.Store.Signals.{update_signal_status, update_tracker_fields}
use upstox_gtt.First.Store.Orders.{
  get_signal_by_gtt_order_id, get_signal_by_order_id, get_signal_strategy_by_order_id,
  get_signals_with_gtt_ids, set_signal_gtt_order, upsert_gtt_rule,
}
use upstox_gtt.First.Tracker.{
  GttPayload, Payload, gtt_order, order, other, Api, is_rejected_or_cancelled, is_fill_event,
  or_text, rule_note, entity_id, apply_entry_fill, apply_exit_fill, apply_fill, final_price,
  store_trades, sync_order_from_api,
}

module _ (rounds_up : ℤ → Bool) where
  -- What a rule of an update says of its signal.
  abbrev pub rule_effect : ℕ → ℕ → String → String → Rule → Tables → Tables
  rule_effect now id strategy rule_status rule t =
      if str_eq strategy "ENTRY"
      then (if str_eq rule_status "PENDING"
          then update_tracker_fields now id (some "ENTRY_PENDING") none none t
          else if str_eq rule_status "COMPLETED"
          then update_tracker_fields now id (some "ENTRY_TRIGGERED") none none t
          else if str_eq rule_status "FAILED"
          then update_signal_status now id "FAILED" (some (rule_note "Entry rule failed" rule)) (
              update_tracker_fields now id (some "ENTRY_FAILED") none
                (some (rule_note "Entry rule failed" rule)) t)
          else if str_eq rule_status "CANCELLED"
          then update_signal_status now id "CANCELLED"
              (some (rule_note "Entry rule cancelled" rule))
              (update_tracker_fields now id (some "CANCELLED") none
                (some (rule_note "Entry rule cancelled" rule)) t)
          else t)
      else if str_eq rule_status "COMPLETED" && str_eq strategy "TARGET"
      then update_tracker_fields now id (some "TARGET_TRIGGERED") none none t
      else if str_eq rule_status "COMPLETED" && str_eq strategy "STOPLOSS"
      then update_tracker_fields now id (some "STOPLOSS_TRIGGERED") none none t
      else t

  abbrev pub sync_if : ℕ → Api → ℕ → String → String → Tables → Tables
  sync_if now api id order_id strategy t =
      if is_blank order_id then t else sync_order_from_api rounds_up now api id order_id strategy t

  abbrev pub handle_rule : ℕ → Api → ℕ → String → Rule → Tables → Tables
  handle_rule now api id gtt_id rule t =
      let strategy = upper rule.strategy in
      sync_if now api id (get_or "" rule.order_id) strategy (
        rule_effect now id strategy (upper (get_or "" rule.status)) rule
          (upsert_gtt_rule now id gtt_id rule t))

  unfoldable pub handle_rules : ℕ → Api → ℕ → String → List Rule → Tables → Tables
  unfolding sync_order_from_api upper
  handle_rules now api id gtt_id [] t = t
  handle_rules now api id gtt_id (rule ∷ rules) t =
      handle_rules now api id gtt_id rules (handle_rule now api id gtt_id rule t)

  abbrev pub id_of : Option Row → Option ℕ
  id_of none = none
  id_of (some r) = some r.id

  -- `_handle_gtt_update`.
  unfoldable pub handle_gtt_update : ℕ → Api → GttPayload → Tables → Tables
  unfolding handle_rules
  handle_gtt_update now api p t =
      let signal = get_signal_by_gtt_order_id p.gtt_order_id t in
      let t1 =
        record_upstox_event (id_of signal) "gtt_order" (entity_id p.gtt_order_id p.instrument_key)
          t in
      elim signal [
        | none ↦ t1
        | some r ↦ handle_rules now api r.id p.gtt_order_id p.rules (
            update_tracker_fields now r.id none p.gtt_type none
              (set_signal_gtt_order now r.id p.gtt_order_id t1))
      ]

  -- The notes of an order that was rejected.
  abbrev pub order_note : OrderPayload → String
  order_note p =
      or_text p.status_message
        (or_text p.status_message_raw (or_text p.status "Order rejected/cancelled"))

  abbrev pub order_issue : ℕ → ℕ → String → OrderPayload → Tables → Tables
  order_issue now id strategy p t =
      if str_eq strategy "ENTRY"
      then update_signal_status now id "FAILED" (some (order_note p))
          (update_tracker_fields now id (some "ENTRY_FAILED") none (some (order_note p)) t)
      else update_tracker_fields now id (some (before strategy "_ORDER_ISSUE")) none
          (some (order_note p)) t

  abbrev pub order_effect : ℕ → Row → String → OrderPayload → List Trade → Tables → Tables
  order_effect now r strategy p trades t =
      if is_fill_event p
      then apply_fill rounds_up now r.id r strategy (final_price rounds_up p trades) t
      else if is_rejected_or_cancelled p
      then order_issue now r.id strategy p t
      else t

  abbrev pub known_order :
      ℕ → OrderPayload → List Trade → Option Row → Option String → Tables → Tables
  known_order now p trades (some r) (some s) t =
      order_effect now r s p trades (store_trades rounds_up (some r.id) p.order_id trades t)
  known_order now p trades _ _ t = t

  -- `_handle_order_update`.
  unfoldable pub handle_order_update : ℕ → Api → OrderPayload → Tables → Tables
  unfolding is_fill_event is_rejected_or_cancelled apply_entry_fill apply_exit_fill before
  handle_order_update now api p t =
      let signal = get_signal_by_order_id p.order_id t in
      let strategy = get_signal_strategy_by_order_id p.order_id t in
      known_order now p (api.trades p.order_id) signal strategy (
        insert_order_update (id_of signal) strategy p
          (record_upstox_event (id_of signal) "order" (entity_id p.order_id p.instrument_key) t))

  unfoldable pub process_payload : ℕ → Api → Payload → Tables → Tables
  unfolding handle_gtt_update handle_order_update
  process_payload now api (gtt_order p) t = handle_gtt_update now api p t
  process_payload now api (order p) t = handle_order_update now api p t
  process_payload now api other t = t

  abbrev pub backfill_gtt : ℕ → Api → Row → Tables → Tables
  backfill_gtt now api r t = elim r.gtt_order_id [
    | none ↦ t
    | some g ↦ elim (api.details g) [
      | none ↦ t
      | some p ↦ insert_gtt_status_check r.id g p.status (process_payload now api (gtt_order p) t)
    ]
  ]

  -- One signal of `_startup_backfill`, as it was read before: its GTT, then its three orders.
  abbrev pub backfill_signal : ℕ → Api → Row → Tables → Tables
  backfill_signal now api r t =
      sync_if now api r.id (get_or "" r.stoploss_leg.order_id) "STOPLOSS" (
        sync_if now api r.id (get_or "" r.target_leg.order_id) "TARGET" (
          sync_if now api r.id (get_or "" r.entry_leg.order_id) "ENTRY" (backfill_gtt now api r t)))

  unfoldable pub backfill_all : ℕ → Api → List Row → Tables → Tables
  unfolding process_payload sync_order_from_api
  backfill_all now api [] t = t
  backfill_all now api (r ∷ rs) t = backfill_all now api rs (backfill_signal now api r t)

  unfoldable pub startup_backfill : ℕ → Api → Tables → Tables
  unfolding backfill_all
  startup_backfill now api t = backfill_all now api (get_signals_with_gtt_ids t) t

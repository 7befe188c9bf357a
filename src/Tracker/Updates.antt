-- ===== src/Tracker/Updates.antt =====
-- The messages of the portfolio stream and the periodic reconciliation of
-- gtt_v2/services/order_tracker/main.py. Texts that the source compares in lower case are taken in
-- lower case, and an empty text as none.
use upstox_gtt.Common.{
  ℕ, ℤ, Bool, ◌||◌, Option, none, some, List, [], ◌∷◌, String, str_eq, any, get_or, if◌then◌else◌,
}
use upstox_gtt.Signal.{Action, Strategy, cancelled, expired}
use upstox_gtt.Database.{RuleData, SignalRow, Tables}
use upstox_gtt.Database.Signals.{is_pending, is_active, update_signal_status}
use upstox_gtt.Database.Rules.{upsert_gtt_rule, get_gtt_rules_by_gtt_order_id}
use upstox_gtt.Database.Orders.{insert_order_update}
use upstox_gtt.Rules.PnlGuard.{Limits}
use upstox_gtt.Tracker.{Tracker, resolve_rule}
use upstox_gtt.Tracker.Fill.{FetchedTrade, nonzero, process_filled_order}

-- An item of the `rules` of a GTT.
pub record RuleItem : Type 0 where
  pub strategy : Strategy
  pub trigger_type : Option String
  pub trigger_price : Option ℤ
  pub transaction_type : Option Action
  pub status : String
  pub order_id : Option String
  pub message : Option String

pub record GttPayload : Type 0 where
  pub gtt_id : Option String
  pub status : String
  pub rules : List RuleItem

pub record OrderMessage : Type 0 where
  pub order_id : Option String
  pub gtt_id : Option String
  pub status : String
  pub average_price : Option ℤ
  pub quantity : Option ℕ
  pub transaction_type : Option Action

pub data Feed : Type 0 where
  order_update : OrderMessage → Feed
  gtt_update : GttPayload → Feed

-- The upsert of one leg with the status of the GTT; the order id and the message are not given.
abbrev pub leg_status : ℕ → String → String → RuleData → RuleData
leg_status signal_id gtt_id status r = record {
  signal_id = signal_id;
  gtt_order_id = gtt_id;
  strategy = r.strategy;
  trigger_type = none;
  trigger_price = none;
  transaction_type = none;
  status = some status;
  order_id = none;
  message = none;
}

unfoldable pub update_legs : ℕ → String → String → List RuleData → Tables → Tables
update_legs signal_id gtt_id status [] t = t
update_legs signal_id gtt_id status (r ∷ rs) t =
    update_legs signal_id gtt_id status rs
      (upsert_gtt_rule (leg_status signal_id gtt_id status r) t)

-- `terminal_map`.
unfoldable pub terminal_status : ℕ → ℕ → String → Tables → Tables
terminal_status now id status t =
    if str_eq status "cancelled"
    then update_signal_status now id cancelled none none none t
    else if str_eq status "expired"
    then update_signal_status now id expired none none none t
    else t

abbrev item_data : ℕ → String → RuleItem → RuleData
item_data signal_id gtt_id i = record {
  signal_id = signal_id;
  gtt_order_id = gtt_id;
  strategy = i.strategy;
  trigger_type = i.trigger_type;
  trigger_price = i.trigger_price;
  transaction_type = i.transaction_type;
  status = some i.status;
  order_id = i.order_id;
  message = i.message;
}

unfoldable pub upsert_items : ℕ → String → List RuleItem → Tables → Tables
upsert_items signal_id gtt_id [] t = t
upsert_items signal_id gtt_id (i ∷ rest) t =
    upsert_items signal_id gtt_id rest (upsert_gtt_rule (item_data signal_id gtt_id i) t)

-- `_RULE_FILLED_STATUSES`.
abbrev pub rule_filled : String → Bool
rule_filled status =
    str_eq status "completed" || str_eq status "complete" || str_eq status "triggered"

abbrev filled_order : RuleItem → Option String
filled_order i = if rule_filled i.status then i.order_id else none

-- What Upstox answers to requests for the trades of an order and for a GTT; `none` is an exception.
module _ (lim : Limits) (now : ℕ) (trades_of : String → Option (List FetchedTrade)) where
  unfoldable pub process_items : String → List RuleItem → Tracker → Tracker
  process_items gtt_id [] s = s
  process_items gtt_id (i ∷ rest) s = elim (filled_order i) [
    | none ↦ process_items gtt_id rest s
    | some order_id ↦ process_items gtt_id rest (
        process_filled_order lim now (trades_of order_id) order_id
          (record { gtt_order_id = some gtt_id; transaction_type = i.transaction_type }) s)
  ]

  abbrev pub reconcile_known : String → List RuleItem → List RuleData → Tracker → Tracker
  reconcile_known gtt_id items [] s = s
  reconcile_known gtt_id items (first ∷ rest) s =
      process_items gtt_id items
        (record s { tables = upsert_items first.signal_id gtt_id items s.tables })

  -- `_reconcile_gtt_payload`; a GTT without rules leaves everything alone, as do its loops then.
  unfoldable pub reconcile_gtt_payload : GttPayload → Tracker → Tracker
  unfolding process_items upsert_items
  reconcile_gtt_payload p s = elim p.gtt_id [
    | none ↦ s
    | some gtt_id ↦ reconcile_known gtt_id p.rules (get_gtt_rules_by_gtt_order_id gtt_id s.tables) s
  ]

  abbrev pub update_known : String → GttPayload → List RuleData → Tracker → Tracker
  update_known gtt_id p [] s = s
  update_known gtt_id p (first ∷ rest) s = reconcile_gtt_payload p (record s {
    tables =
        terminal_status now first.signal_id p.status
          (update_legs first.signal_id gtt_id p.status (first ∷ rest) s.tables);
  })

  -- `_handle_gtt_update`.
  unfoldable pub handle_gtt_update : GttPayload → Tracker → Tracker
  unfolding update_legs terminal_status reconcile_gtt_payload
  handle_gtt_update p s = elim p.gtt_id [
    | none ↦ s
    | some gtt_id ↦ update_known gtt_id p (get_gtt_rules_by_gtt_order_id gtt_id s.tables) s
  ]

  abbrev signal_of : Option RuleData → Option ℕ
  signal_of none = none
  signal_of (some r) = some r.signal_id

  abbrev noted : String → OrderMessage → Option RuleData × Tables → Tables
  noted order_id m (rule, t) =
      insert_order_update
        (record {
          signal_id = signal_of rule;
          order_id = order_id;
          status = m.status;
          average_price = nonzero m.average_price;
          quantity = m.quantity;
        })
        t

  -- `_handle_order_update`.
  unfoldable pub handle_order_update : OrderMessage → Tracker → Tracker
  handle_order_update m s = elim m.order_id [
    | none ↦ s
    | some order_id ↦
        let s1 = record s {
          tables = noted order_id m (
              resolve_rule order_id m.gtt_id m.transaction_type (nonzero m.average_price) s.tables);
        } in
        if str_eq m.status "complete"
        then process_filled_order lim now (trades_of order_id) order_id
            (record { gtt_order_id = m.gtt_id; transaction_type = m.transaction_type }) s1
        else s1
  ]

  -- `_dispatch`, and `handle` over the feeds of a message.
  unfoldable pub dispatch : Feed → Tracker → Tracker
  unfolding handle_gtt_update handle_order_update
  dispatch (order_update m) s = handle_order_update m s
  dispatch (gtt_update p) s = handle_gtt_update p s

  unfoldable pub handle : List Feed → Tracker → Tracker
  unfolding dispatch
  handle [] s = s
  handle (f ∷ fs) s = handle fs (dispatch f s)

  unfoldable pub reconcile_gtts : (String → Option GttPayload) → List String → Tracker → Tracker
  reconcile_gtts get_gtt [] s = s
  reconcile_gtts get_gtt (g ∷ gs) s = elim (get_gtt g) [
    | none ↦ reconcile_gtts get_gtt gs s
    | some p ↦ reconcile_gtts get_gtt gs (reconcile_gtt_payload p s)
  ]

abbrev add_new : String → List String → List String
add_new g gs = if str_eq g "" || any (str_eq g) gs then gs else g ∷ gs

abbrev add_all : List String → List String → List String
add_all [] gs = gs
add_all (g ∷ new) gs = add_new g (add_all new gs)

-- `SELECT DISTINCT unnest(gtt_order_ids) … WHERE status = ANY(…)`, without empty texts.
unfoldable pub open_gtt_ids : List SignalRow → List String
open_gtt_ids [] = []
open_gtt_ids (r ∷ rs) =
    let rest = open_gtt_ids rs in
    if is_pending r.status || is_active r.status
    then add_all (get_or [] r.gtt_order_ids) rest
    else rest

-- `reconcile_open_gtts`.
unfoldable pub reconcile_open_gtts :
    Limits
    → ℕ
    → (String → Option (List FetchedTrade))
    → (String → Option GttPayload)
    → Tracker
    → Tracker
unfolding reconcile_gtts open_gtt_ids
reconcile_open_gtts lim now trades_of get_gtt s =
    reconcile_gtts lim now trades_of get_gtt (open_gtt_ids s.tables.signals) s

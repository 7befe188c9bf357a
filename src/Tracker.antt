-- ===== src/Tracker.antt =====
-- gtt_v2/services/order_tracker/main.py: which leg of a GTT a filled order belongs to.
pub mod Fill
pub mod Updates
pub mod Booking
pub mod Entries
pub mod Links
pub mod Trades
use upstox_gtt.Common.{
  ℕ, ◌+◌, ℤ, pos, ◌-ℤ◌, pos_part, neg_part, leb, truthy_ℤ, Bool, true, false, Option, none, some,
  List, [], ◌∷◌, String, find, get_or, is_some, if◌then◌else◌,
}
use upstox_gtt.Signal.{
  Action, buy, sell, is_buy, Strategy, entry, target, stoploss_leg, same_strategy,
}
use upstox_gtt.Database.{RuleData, SignalRow, Tables}
use upstox_gtt.Database.Signals.{get_signal}
use upstox_gtt.Database.Rules.{
  upsert_gtt_rule, get_gtt_rules_by_gtt_order_id, get_gtt_rule_by_child_order_id,
}
use upstox_gtt.Rules.PnlGuard.{Ledger}

-- The tables, and the keys of the daily guard.
pub record Tracker : Type 0 where
  pub tables : Tables
  pub ledger : Ledger

abbrev pub same_action : Option Action → Action → Bool
same_action none a = false
same_action (some buy) a = is_buy a
same_action (some sell) a = if is_buy a then false else true

abbrev pub has_strategy : Strategy → RuleData → Bool
has_strategy s r = same_strategy s r.strategy

-- The distance from a trigger price; `none` is infinity, that of a missing or zero one.
abbrev distance : ℤ → Option ℤ → Option ℕ
distance fill none = none
distance fill (some p) =
    if truthy_ℤ p then some (pos_part (fill -ℤ p) + neg_part (fill -ℤ p)) else none

abbrev no_further : Option ℕ → Option ℕ → Bool
no_further (some a) (some b) = leb a b
no_further none (some b) = false
no_further _ none = true

abbrev nearer_leg : ℤ → Option RuleData → Option RuleData → Strategy
nearer_leg fill (some t) (some s) =
    if no_further (distance fill t.trigger_price) (distance fill s.trigger_price)
    then target
    else stoploss_leg
nearer_leg fill none (some s) = stoploss_leg
nearer_leg fill _ none = target

-- `_derive_strategy`.
unfoldable pub derive_strategy : Option Action → Action → Option ℤ → List RuleData → Strategy
derive_strategy txn action fill_price rules =
    if same_action txn action then entry else elim fill_price [
      | none ↦ target
      | some fill ↦
          nearer_leg fill (find (has_strategy target) rules)
            (find (has_strategy stoploss_leg) rules)
    ]

-- `SELECT action FROM signals WHERE id = …`, and BUY if there is none.
abbrev pub action_of : Option SignalRow → Action
action_of none = buy
action_of (some r) = r.inserted.action

-- `next((r for r in rules if r["strategy"] == strategy), rules[0])`
abbrev pub leg_or_first : Strategy → RuleData → List RuleData → RuleData
leg_or_first s first rest = get_or first (find (has_strategy s) (first ∷ rest))

-- The values of the upsert that links an order to a leg; the message is not given.
abbrev pub linked : String → RuleData → RuleData
linked order_id r = record {
  signal_id = r.signal_id;
  gtt_order_id = r.gtt_order_id;
  strategy = r.strategy;
  trigger_type = none;
  trigger_price = none;
  transaction_type = none;
  status = r.status;
  order_id = some order_id;
  message = none;
}

-- Links an order to the leg of the GTT that it must belong to.
unfoldable pub link_rules :
    String → Option Action → Option ℤ → List RuleData → Tables → Option RuleData × Tables
unfolding derive_strategy
link_rules order_id txn fill_price [] t = (none, t)
link_rules order_id txn fill_price (first ∷ rest) t =
    let action = action_of (get_signal first.signal_id t) in
    let r = leg_or_first (derive_strategy txn action fill_price (first ∷ rest)) first rest in
    (some r, upsert_gtt_rule (linked order_id r) t)

-- The leg of an order: the linked one, or else one of the GTT that the message names.
unfoldable pub resolve_rule :
    String → Option String → Option Action → Option ℤ → Tables → Option RuleData × Tables
unfolding link_rules
resolve_rule order_id gtt_id txn fill_price t = elim (get_gtt_rule_by_child_order_id order_id t) [
  | some r ↦ (some r, t)
  | none ↦ elim gtt_id [
    | none ↦ (none, t)
    | some g ↦ link_rules order_id txn fill_price (get_gtt_rules_by_gtt_order_id g t) t
  ]
]

-- ===== src/Database/Rules.antt =====
-- gtt_v2/shared/db/gtt_rules.py: the repository of the table `gtt_rules`, one row for each leg.
pub mod Upsert
use upstox_gtt.Common.{
  ℕ, Bool, true, false, ◌&&◌, Option, none, some, List, [], ◌∷◌, String, str_eq, any, find, keep,
  if◌then◌else◌,
}
use upstox_gtt.Signal.{Strategy, same_strategy}
use upstox_gtt.Database.{RuleData, Tables}

-- The key of `UNIQUE (gtt_order_id, strategy)`.
unfoldable pub same_leg : RuleData → RuleData → Bool
same_leg a b = str_eq a.gtt_order_id b.gtt_order_id && same_strategy a.strategy b.strategy

-- `DO UPDATE SET` of the row `r` by the values `d`.
abbrev pub overwrite : RuleData → RuleData → RuleData
overwrite d r = record r { status = d.status; order_id = d.order_id; message = d.message }

unfoldable pub upsert_row : RuleData → List RuleData → List RuleData
upsert_row d [] = d ∷ []
upsert_row d (r ∷ rs) = if same_leg d r then overwrite d r ∷ rs else r ∷ upsert_row d rs

unfoldable pub upsert_gtt_rule : RuleData → Tables → Tables
unfolding upsert_row same_leg
upsert_gtt_rule d t = record t { gtt_rules = upsert_row d t.gtt_rules }

abbrev pub has_gtt_id : String → RuleData → Bool
has_gtt_id gtt_id r = str_eq gtt_id r.gtt_order_id

abbrev pub has_order_id : String → RuleData → Bool
has_order_id order_id r = elim r.order_id [ none ↦ false | some o ↦ str_eq order_id o ]

-- `WHERE gtt_order_id = $1 ORDER BY id`
unfoldable pub get_gtt_rules_by_gtt_order_id : String → Tables → List RuleData
get_gtt_rules_by_gtt_order_id gtt_id t = keep (has_gtt_id gtt_id) t.gtt_rules

-- `WHERE gtt_order_id = $1 LIMIT 1`
unfoldable pub get_gtt_rule_by_gtt_order_id : String → Tables → Option RuleData
get_gtt_rule_by_gtt_order_id gtt_id t = find (has_gtt_id gtt_id) t.gtt_rules

unfoldable pub find_last : (RuleData → Bool) → List RuleData → Option RuleData
find_last p [] = none
find_last p (r ∷ rs) = elim (find_last p rs) [
  | some x ↦ some x
  | none ↦ if p r then some r else none
]

-- `WHERE order_id = $1 ORDER BY id DESC LIMIT 1`
unfoldable pub get_gtt_rule_by_child_order_id : String → Tables → Option RuleData
unfolding find_last
get_gtt_rule_by_child_order_id order_id t = find_last (has_order_id order_id) t.gtt_rules

-- ===== src/Database/Rules/Upsert.antt =====
-- The upsert of a leg, and the look-up of the legs of a GTT.
use upstox_gtt.Common.{
  ◌≡◌, ◌&&◌, Option, none, some, List, [], ◌∷◌, String, str_eq, eq_iff, refl, arith, find,
  if◌then◌else◌,
}
use upstox_gtt.Signal.{Strategy, same_strategy, same_strategy_iff}
use upstox_gtt.Database.{RuleData, Tables}
use upstox_gtt.Database.Rules.{same_leg, overwrite, upsert_row, upsert_gtt_rule}

-- The row of a leg.
unfoldable pub find_leg : String → Strategy → List RuleData → Option RuleData
find_leg g s = find (λ r. str_eq g r.gtt_order_id && same_strategy s r.strategy)

-- What an upsert leaves for its leg: the new row, or the old one overwritten.
abbrev pub merged : RuleData → Option RuleData → RuleData
merged d none = d
merged d (some r) = overwrite d r

find_leg-upsert :
    (g : String) (s : Strategy) (d : RuleData) (rs : List RuleData)
    → find_leg g s (upsert_row d rs) ≡ (
        if str_eq g d.gtt_order_id && same_strategy s d.strategy
        then some (merged d (find_leg g s rs))
        else find_leg g s rs)
unfolding find_leg upsert_row same_leg
find_leg-upsert g s d [] = refl
find_leg-upsert g s d (r ∷ rs) = ground (
  arith,
  eq_iff g d.gtt_order_id,
  eq_iff d.gtt_order_id r.gtt_order_id,
  eq_iff g r.gtt_order_id,
  same_strategy_iff s d.strategy,
  same_strategy_iff d.strategy r.strategy,
  same_strategy_iff s r.strategy,
  find_leg-upsert g s d rs,
)

-- After an upsert the leg it names holds the values given, with the columns that an existing row
-- keeps, and every other leg is as before.
pub find_leg-upsert_gtt_rule :
    (g : String) (s : Strategy) (d : RuleData) (t : Tables)
    → find_leg g s (upsert_gtt_rule d t).gtt_rules ≡ (
        if str_eq g d.gtt_order_id && same_strategy s d.strategy
        then some (merged d (find_leg g s t.gtt_rules))
        else find_leg g s t.gtt_rules)
unfolding upsert_gtt_rule
find_leg-upsert_gtt_rule g s d t = find_leg-upsert g s d t.gtt_rules

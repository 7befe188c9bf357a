-- ===== src/GttBuilder.antt =====
-- gtt_v2/shared/upstox/gtt_builder.py: the payload of a GTT with three legs, and the lot size.
use upstox_gtt.Common.{ℕ, suc, ℤ, ◌<◌, Option, none, some, List, [], ◌∷◌, String, arith}
use upstox_gtt.Signal.{Action, buy, sell, Strategy, entry, target, stoploss_leg}
use upstox_gtt.Instruments.{Instrument}

pub record Leg : Type 0 where
  pub strategy : Strategy
  pub trigger_type : String
  pub trigger_price : ℤ

-- The payload; its `type` is always "MULTIPLE".
pub record Payload : Type 0 where
  pub quantity : ℕ
  pub product : String
  pub instrument_token : String
  pub transaction_type : Action
  pub rules : List Leg

abbrev pub entry_trigger : Action → String
entry_trigger buy = "ABOVE"
entry_trigger sell = "BELOW"

abbrev pub leg : Strategy → String → ℤ → Leg
leg s t p = record { strategy = s; trigger_type = t; trigger_price = p }

unfoldable pub build_gtt_payload : String → Action → String → ℤ → ℕ → ℤ → ℤ → Payload
build_gtt_payload instrument_token action product entry_price quantity stoploss_adj target_adj =
    record {
      quantity = quantity;
      product = product;
      instrument_token = instrument_token;
      transaction_type = action;
      rules =
          leg entry (entry_trigger action) entry_price
          ∷ leg target "IMMEDIATE" target_adj
          ∷ leg stoploss_leg "IMMEDIATE" stoploss_adj
          ∷ [];
    }

-- `LOT_SIZE_{U}` and `LOT_SIZE_{U}_CE`: the number that the variable holds, if it holds one.
pub record LotEnv : Type 0 where
  pub plain : String → Option ℤ
  pub with_ce : String → Option ℤ

abbrev positive : Option ℤ → Option ℕ
positive (some (ℤ.pos (suc n))) = some (suc n)
positive _ = none

abbrev metadata_lot : Option ℕ → ℕ
metadata_lot (some (suc n)) = suc n
metadata_lot _ = 1

unfoldable pub resolve_lot_size : LotEnv → String → Instrument → ℕ
resolve_lot_size env underlying i = elim (positive (env.plain underlying)) [
  | some n ↦ n
  | none ↦ elim (positive (env.with_ce underlying)) [ some n ↦ n | none ↦ metadata_lot i.lot_size ]
]

-- A lot is never empty, whatever the environment and the instrument say.
pub resolve_lot_size-pos :
    (env : LotEnv) (underlying : String) (i : Instrument) → 0 < resolve_lot_size env underlying i
unfolding resolve_lot_size
resolve_lot_size-pos env underlying i = ground arith

-- ===== src/Rules/LotSplitter.antt =====
-- gtt_v2/shared/rules/lot_splitter.py: the splitting by profile is switched off there, and every
-- signal becomes one order.
use upstox_gtt.Common.{ℕ, ℤ, List, [], ◌∷◌}
use upstox_gtt.Signal.{AdjustedSignal, TradeType, Profile}

pub record LotOrder : Type 0 where
  pub lots : ℕ
  pub entry_price : ℤ

unfoldable pub split_lots : ℕ → TradeType → Profile → AdjustedSignal → List LotOrder
split_lots total trade_type profile adj =
    record { lots = total; entry_price = adj.entry_price } ∷ []

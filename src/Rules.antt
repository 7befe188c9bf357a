-- ===== src/Rules.antt =====
-- gtt_v2/shared/rules: the rules a signal passes before a GTT is placed.
pub mod Buffer
pub mod TradeType
pub mod Timing
pub mod LotSplitter
pub mod MissedEntry
pub mod PnlGuard

-- ===== src/Engine.antt =====
-- gtt_v2/services/trading_engine/main.py: a signal from the stream on its way to a GTT.
pub mod State
pub mod Process
pub mod Stages
pub mod Safety
pub mod Effects
pub mod Reconcile
pub mod Loop

-- ===== src/First.antt =====
-- The first version of the bot: the scripts beside gtt_v2, which share a SQLite database.
pub mod Store
pub mod Prices
pub mod Tracker
pub mod Monitor
pub mod Signals
pub mod Instruments
pub mod Orders
pub mod Metadata
pub mod Consumer

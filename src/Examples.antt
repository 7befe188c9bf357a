-- ===== src/Examples.antt =====
-- Tests of the definitions at concrete inputs, and the theorems at inputs that meet their conditions.
pub mod Data
mod Rules
mod Requests
mod Tables
mod Engine
mod Monitor
mod Tracker
mod Links
mod Reconcile
mod Instruments
mod Ingest
mod Messages
mod Placing
mod Levels

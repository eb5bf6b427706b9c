-- ===== src/Examples.antt =====
-- Concrete inputs, and the theorems at them.
mod Ages
mod Jobs
mod Alerts
mod Deliveries
mod Quorums
mod Natives
pub mod Data
pub mod Gates
pub mod Replays
pub mod Verdicts
pub mod Messages
pub mod Scales

-- ===== src/Message.antt =====
-- packages/state-machine/src: the message lifecycle over source-locked facts.
pub mod Keys
pub mod States
pub mod Inputs
pub mod Aggregate
pub mod Derive
pub mod Watermark
pub mod Transaction

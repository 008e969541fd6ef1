-- ===== src/Wheel.antt =====
-- base/src/cache/c100k.rs: one shard of the expiry cache, a hierarchical timing wheel.
pub mod State
pub mod Table
pub mod Ops
pub mod Run
mod Tests

-- ===== src/Bus.antt =====
-- src/bridge/core/Bus.cpp: topics, their subscribers in all mods, and publishing to them, where a
-- subscriber may call back in.
pub mod Tables
pub mod Publish
pub mod Invariant
pub mod Gone
pub mod Kept
pub mod Total
pub mod Quiet

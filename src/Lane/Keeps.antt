-- ===== src/Lane/Keeps.antt =====
-- src/bridge/core/Lane.cpp: every operation on the tables keeps the invariant.
pub mod Enter
pub mod Lease
pub mod Retire
pub mod Gone

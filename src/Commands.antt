-- ===== src/Commands.antt =====
-- src/bridge/runtime/Commands.cpp: the commands that mods register.
pub mod Bindings
pub mod Claimed
pub mod Bound
pub mod Gone

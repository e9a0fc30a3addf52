-- ===== src/Manager.antt =====
-- src/core/RustModManager.cpp: how mods come and go, over the tables that a mod leaves entries in.
pub mod Mods
pub mod Control
pub mod Gates
pub mod Unloaded
